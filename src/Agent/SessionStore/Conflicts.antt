-- ===== src/Agent/SessionStore/Conflicts.antt =====
-- Two copies of a session: of the saves that start from one revision, one succeeds.
use forge_agent.Base.{
  ℕ, ◌+◌, ◌≤◌, ◌≡◌, ◌↔◌, refl, String, Bool, true, false, ◌&&◌, Option, none, some, List, [], ◌∷◌,
  eq_iff, leb, if◌then◌else◌, Result, ok, err, arith, Bool-cases, inl, inr,
}
use forge_agent.Agent.Session.{num, boolean, null, text, arr, obj, JsonValue, ChatSessionState}
use forge_agent.Agent.Session.Writing.{to_dict}
use forge_agent.Agent.SessionStore.{
  SessionPath, path_eq, Content, object, Files, content_at, replace, state_path, disk_revision,
  equals, payload, commit, save_at, save, set_key, redact_session, redact_dict, redact, StoreError,
  Saved,
}

pub path_eq_iff : (p q : SessionPath) → (path_eq p q ≡ true) ↔ (p ≡ q)
path_eq_iff (k, i) (l, j) = ground (arith, eq_iff k l, eq_iff i j)

pub content_at-replace :
    (p q : SessionPath) (c : Content) (fs : Files)
    → content_at p (replace q c fs) ≡ (if path_eq q p then some c else content_at p fs)
unfolding content_at replace
content_at-replace p q c [] = refl
content_at-replace p q c ((r, d) ∷ fs) =
    ground (arith, content_at-replace p q c fs, path_eq_iff r q, path_eq_iff r p, path_eq_iff q p)

equals_inj : (a b : ℕ) (v : JsonValue) → equals a v ≡ true → equals b v ≡ true → a ≡ b
equals_inj a b null h k = cc
equals_inj a b (boolean c) h k = ground arith
equals_inj a b (num n) h k = ground arith
equals_inj a b (text s) h k = cc
equals_inj a b (arr xs) h k = cc
equals_inj a b (obj fs) h k = cc

abbrev pub is_ok {ℓ κ} : {E : Type ℓ} {A : Type κ} → Result E A → Bool
is_ok (ok a) = true
is_ok (err e) = false

abbrev pub one_if : Bool → ℕ
one_if b = if b then 1 else 0

abbrev pub is_at : SessionPath → Option SessionPath → Bool
is_at p none = false
is_at p (some q) = path_eq q p

-- one call of `save`, with its time and the copy of the state that it is given
pub record SaveCall : Type 0 where
  pub now : String
  pub state : ChatSessionState

module _ (int_of_text : String → Option ℕ) (redact_text : String → String) where
  abbrev pub saved : SaveCall → Files → Saved
  saved c files = save int_of_text redact_text c.now files c.state

  -- the call succeeds, for the session at the path and a copy with the revision
  abbrev pub wins : ℕ → SessionPath → SaveCall → Files → Bool
  wins n p c files =
      is_ok (saved c files).outcome && (is_at p (state_path c.state) && equals n c.state.revision)

  abbrev pub wins_of : ℕ → SessionPath → List SaveCall → Files → ℕ
  wins_of n p [] files = 0
  wins_of n p (c ∷ cs) files = one_if (wins n p c files) + wins_of n p cs (saved c files).files

  abbrev may_win : ℕ → Result StoreError ℕ → ℕ
  may_win n (ok d) = one_if (leb d n)
  may_win n (err e) = 0

  -- whether a call with the revision may still succeed
  abbrev left_to_win : ℕ → SessionPath → Files → ℕ
  left_to_win n p files = may_win n (disk_revision int_of_text (content_at p files))

  payload-revision :
      (s : ChatSessionState) (m : ℕ)
      → disk_revision int_of_text (some (object (payload int_of_text redact_text s m))) ≡ ok m
  unfolding disk_revision payload to_dict set_key redact_session redact_dict redact
  payload-revision s m = refl

  replaced :
      (n d : ℕ) (s : ChatSessionState) (p q : SessionPath) (files : Files)
      → disk_revision int_of_text (content_at q files) ≡ ok d
      → equals d s.revision ≡ true
      → one_if (path_eq q p && equals n s.revision)
          + left_to_win n p (replace q (object (payload int_of_text redact_text s (d + 1))) files)
        ≤ left_to_win n p files
  replaced n d s p q files h e = elim (Bool-cases (path_eq q p)) [
    | inl same ↦ ground (
      arith,
      same,
      h,
      e,
      (path_eq_iff q p).0 same,
      content_at-replace p q (object (payload int_of_text redact_text s (d + 1))) files,
      payload-revision s (d + 1),
      equals_inj n d s.revision,
    )
    | inr other ↦ ground (
      arith,
      other,
      content_at-replace p q (object (payload int_of_text redact_text s (d + 1))) files,
    )
  ]

  commit-step :
      (n : ℕ) (s : ChatSessionState) (p q : SessionPath) (files : Files) (r : Result StoreError ℕ)
      → disk_revision int_of_text (content_at q files) ≡ r
      → let t : Saved = commit int_of_text redact_text files s q r in
        one_if (is_ok t.outcome && (path_eq q p && equals n s.revision)) + left_to_win n p t.files
        ≤ left_to_win n p files
  unfolding commit
  commit-step n s p q files (err e) h = omega arith
  commit-step n s p q files (ok d) h = elim (Bool-cases (equals d s.revision)) [
    | inl e ↦ rw e (replaced n d s p q files h e)
    | inr f ↦ rw f (omega arith)
  ]

  save_at-step :
      (n : ℕ) (s : ChatSessionState) (p : SessionPath) (files : Files) (o : Option SessionPath)
      → let t : Saved = save_at int_of_text redact_text files s o in
        one_if (is_ok t.outcome && (is_at p o && equals n s.revision)) + left_to_win n p t.files
        ≤ left_to_win n p files
  unfolding save_at
  save_at-step n s p files none = omega arith
  save_at-step n s p files (some q) =
      commit-step n s p q files (disk_revision int_of_text (content_at q files)) refl

  save-step :
      (n : ℕ) (p : SessionPath) (c : SaveCall) (files : Files)
      → one_if (wins n p c files) + left_to_win n p (saved c files).files ≤ left_to_win n p files
  unfolding save state_path
  save-step n p c files =
      save_at-step n (record c.state { updated_at = text c.now }) p files (state_path c.state)

  wins_of-left :
      (n : ℕ) (p : SessionPath) (cs : List SaveCall) (files : Files)
      → wins_of n p cs files ≤ left_to_win n p files
  wins_of-left n p [] files = omega arith
  wins_of-left n p (c ∷ cs) files =
      omega (arith, save-step n p c files, wins_of-left n p cs (saved c files).files)

  -- Over any saves of any copies, in any order and of any sessions, at most one save of the session
  -- at a path succeeds with a copy of the revision `n`: no later save of another copy of that
  -- revision replaces what it wrote.
  pub wins_of-le-one :
      (n : ℕ) (p : SessionPath) (cs : List SaveCall) (files : Files) → wins_of n p cs files ≤ 1
  wins_of-le-one n p cs files = omega (
    arith,
    wins_of-left n p cs files,
    may_win-le n (disk_revision int_of_text (content_at p files)),
  )
    where
      may_win-le : (m : ℕ) (r : Result StoreError ℕ) → may_win m r ≤ 1
      may_win-le m (ok d) = ground arith
      may_win-le m (err e) = omega arith
