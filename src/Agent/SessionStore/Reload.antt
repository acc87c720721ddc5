-- ===== src/Agent/SessionStore/Reload.antt =====
-- What is loaded after a save.
use forge_agent.Base.{
  ℕ, ◌+◌, ◌≤◌, ◌≡◌, refl, ap, sym, subst, ◌∙◌, String, Bool, true, not, ◌&&◌, ◌||◌, Option, none,
  some, List, [], ◌∷◌, str_eq, eq_iff, Result, ok, err, arith, Bool-cases, inl, inr, map,
}
use forge_agent.Agent.Session.{
  num, text, JsonValue, PendingRoundState, ChatRoundState, ChatSessionState,
}
use forge_agent.Agent.Session.Reading.{from_dict}
use forge_agent.Agent.Session.Writing.{
  to_dict, rounds_to_dicts, round_to_dict, usage_to_dict, pending_dict,
}
use forge_agent.Agent.Session.RoundTrip.{from_dict-to_dict}
use forge_agent.Agent.SessionStore.{
  SessionPath, Content, object, Files, replace, state_path, disk_revision, content_at, equals,
  payload, commit, count_files, find_session, save_at, save, load, load_content, of_session_error,
  set_key, redact_session, redact_round, redact_dict, redact, map_option, StoreError, Saved,
}

module _ (redact_text : String → String) where
  abbrev clean : JsonValue → JsonValue
  clean = redact redact_text

  abbrev pub clean_pending : Option PendingRoundState → Option PendingRoundState
  clean_pending none = none
  clean_pending (some p) = some (record {
    round_number = clean p.round_number;
    task_id = clean p.task_id;
    user_input = clean p.user_input;
    started_at = clean p.started_at;
    log_path = clean p.log_path;
  })

  abbrev pub clean_round : ChatRoundState → ChatRoundState
  clean_round r = record {
    round_number = clean r.round_number;
    task_id = clean r.task_id;
    user_input = clean r.user_input;
    status = clean r.status;
    log_path = clean r.log_path;
    started_at = clean r.started_at;
    summary = clean r.summary;
    steps = clean r.steps;
    tokens = clean r.tokens;
    usage = r.usage;
    finished_at = clean r.finished_at;
    error = clean r.error;
  }

  -- the state with each text of it redacted
  abbrev pub clean_state : ChatSessionState → ChatSessionState
  clean_state s = record {
    session_id = clean s.session_id;
    repo_path = clean s.repo_path;
    repo_key = clean s.repo_key;
    created_at = clean s.created_at;
    updated_at = clean s.updated_at;
    title = clean s.title;
    history = clean s.history;
    round_count = clean s.round_count;
    total_steps = clean s.total_steps;
    total_tokens = clean s.total_tokens;
    usage = s.usage;
    repo_revision = clean s.repo_revision;
    pending_round = clean_pending s.pending_round;
    rounds = map clean_round s.rounds;
    compaction_checkpoints = clean s.compaction_checkpoints;
    revision = clean s.revision;
    version = clean s.version;
  }

  redact-pending :
      (p : Option PendingRoundState)
      → map_option (redact_dict redact_text) (pending_dict p) ≡ pending_dict (clean_pending p)
  unfolding redact_dict
  redact-pending none = refl
  redact-pending (some p) = refl

  redact-round :
      (r : ChatRoundState)
      → redact_round redact_text (round_to_dict r) ≡ round_to_dict (clean_round r)
  unfolding redact_round redact_dict round_to_dict usage_to_dict redact
  redact-round r = refl

  redact-rounds :
      (rs : List ChatRoundState)
      → map (redact_round redact_text) (rounds_to_dicts rs) ≡ rounds_to_dicts (map clean_round rs)
  unfolding rounds_to_dicts
  redact-rounds [] = refl
  redact-rounds (r ∷ rs) = ground (arith, redact-round r, redact-rounds rs)

  redact-to_dict :
      (s : ChatSessionState) → redact_session redact_text (to_dict s) ≡ to_dict (clean_state s)
  unfolding redact_session redact_dict to_dict usage_to_dict redact
  redact-to_dict s = rw (redact-pending s.pending_round, redact-rounds s.rounds) refl

module _ (int_of_text : String → Option ℕ) (redact_text : String → String) where
  payload-to_dict :
      (s : ChatSessionState) (m : ℕ)
      → payload int_of_text redact_text s m
        ≡ redact_session redact_text (to_dict (record s { revision = num m }))
  unfolding payload to_dict set_key
  payload-to_dict s m = refl

  load-payload :
      (s : ChatSessionState) (m : ℕ)
      → s.version ≡ num 2
      → load_content int_of_text redact_text (some (object (payload int_of_text redact_text s m)))
        ≡ ok (clean_state redact_text (record s { revision = num m }))
  unfolding load_content of_session_error redact
  load-payload s m h =
      let t : ChatSessionState = record s { revision = num m } in
      ap (λ r. of_session_error int_of_text redact_text (from_dict int_of_text r))
        (payload-to_dict s m ∙ redact-to_dict redact_text t)
      ∙ ap (of_session_error int_of_text redact_text)
          (from_dict-to_dict int_of_text (clean_state redact_text t) (ap (redact redact_text) h))

  -- no other repository has a session of this identifier
  abbrev pub alone : String → String → Files → Bool
  alone k i [] = true
  alone k i (((l, j), c) ∷ fs) = (not (str_eq j i) || str_eq l k) && alone k i fs

  count-replace :
      (k i : String) (c : Content) (fs : Files)
      → count_files i fs ≤ 1
      → alone k i fs ≡ true
      → count_files i (replace (k, i) c fs) ≡ 1
  unfolding replace
  count-replace k i c [] h a = ground (arith, eq_iff i i)
  count-replace k i c (((l, j), d) ∷ fs) h a =
      ground (arith, h, a, count-replace k i c fs, eq_iff j i, eq_iff l k)

  find-replace :
      (k i : String) (c : Content) (fs : Files)
      → count_files i fs ≤ 1
      → alone k i fs ≡ true
      → find_session i (replace (k, i) c fs) ≡ some c
  unfolding replace
  find-replace k i c [] h a = ground (arith, eq_iff i i)
  find-replace k i c (((l, j), d) ∷ fs) h a =
      ground (arith, h, a, find-replace k i c fs, eq_iff j i, eq_iff l k)

  load-replace :
      (k i : String) (c : Content) (fs : Files)
      → count_files i fs ≤ 1
      → alone k i fs ≡ true
      → load int_of_text redact_text i (replace (k, i) c fs)
        ≡ load_content int_of_text redact_text (some c)
  unfolding load
  load-replace k i c fs h a = ground (arith, count-replace k i c fs h a, find-replace k i c fs h a)

  abbrev Reloads : String → Saved → Type 0
  Reloads i t = load int_of_text redact_text i t.files ≡ ok (clean_state redact_text t.state)

  load-commit :
      (k i : String) (fs : Files) (s : ChatSessionState) (r : Result StoreError ℕ)
      → count_files i fs ≤ 1
      → alone k i fs ≡ true
      → s.version ≡ num 2
      → (commit int_of_text redact_text fs s (k, i) r).outcome ≡ ok tt
      → Reloads i (commit int_of_text redact_text fs s (k, i) r)
  unfolding commit
  load-commit k i fs s (err e) h a v o = absurd (ground (arith, o))
  load-commit k i fs s (ok d) h a v o = elim (Bool-cases (equals d s.revision)) [
    | inl e ↦ rw e (
        load-replace k i (object (payload int_of_text redact_text s (d + 1))) fs h a
        ∙ load-payload s (d + 1) v)
    | inr f ↦ absurd (ground (arith, o, f))
  ]

  path-of :
      (s : ChatSessionState) (k i now : String)
      → s.repo_key ≡ text k
      → s.session_id ≡ text i
      → state_path (record s { updated_at = text now }) ≡ some (k, i)
  unfolding state_path
  path-of s k i now p q = rw (p, q) refl

  load-save_at :
      (k i : String) (fs : Files) (s : ChatSessionState) (o : Option SessionPath)
      → some (k, i) ≡ o
      → count_files i fs ≤ 1
      → alone k i fs ≡ true
      → s.version ≡ num 2
      → (save_at int_of_text redact_text fs s o).outcome ≡ ok tt
      → Reloads i (save_at int_of_text redact_text fs s o)
  unfolding save_at
  load-save_at k i fs s o e h a v =
      subst
        (λ o.
          (save_at int_of_text redact_text fs s o).outcome ≡ ok tt
          → Reloads i (save_at int_of_text redact_text fs s o))
        e (load-commit k i fs s (disk_revision int_of_text (content_at (k, i) fs)) h a v)

  -- A session of the current version that is saved without an exception, and whose identifier no
  -- other session file has, is loaded as the state that the save left in memory, its texts redacted.
  pub load-save :
      (now k i : String) (fs : Files) (s : ChatSessionState)
      → s.repo_key ≡ text k
      → s.session_id ≡ text i
      → s.version ≡ num 2
      → count_files i fs ≤ 1
      → alone k i fs ≡ true
      → (save int_of_text redact_text now fs s).outcome ≡ ok tt
      → load int_of_text redact_text i (save int_of_text redact_text now fs s).files
        ≡ ok (clean_state redact_text (save int_of_text redact_text now fs s).state)
  unfolding save
  load-save now k i fs s p q v h a =
      let t : ChatSessionState = record s { updated_at = text now } in
      load-save_at k i fs t (state_path t) (sym (path-of s k i now p q)) h a v
