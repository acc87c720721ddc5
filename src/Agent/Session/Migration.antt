-- ===== src/Agent/Session/Migration.antt =====
-- Dictionaries of version 1.
use forge_agent.Base.{
  ◌≡◌, refl, ap, ◌∙◌, sym, subst, ℕ, String, Option, none, some, [], ok, err, arith, Result,
}
use forge_agent.Llm.Usage.{SessionUsage, unused}
use forge_agent.Agent.Session.{
  num, arr, nil, get_or, ChatSessionState, RawSession, lookup, Dict, PyError, ◌>>=◌, type_error,
  value_error,
}
use forge_agent.Agent.Session.Reading.{
  SessionError, usage_from_dict, usage_or_tokens, pending_or_none, rounds_from_dicts, session_of,
  session_from, from_dict, caught, version_test, old, int_of, accepted,
}
use forge_agent.Agent.Session.Defaults.{session_from-defaults, required, optional}

>>=-ok {ℓ κ} :
    {A : Type ℓ} {B : Type κ} (m : Result PyError A) (f : A → Result PyError B) (b : B)
    → (m >>= f) ≡ ok b
    → (a : A) × (m ≡ ok a) × (f a ≡ ok b)
>>=-ok (ok a) f b h = (a, refl, h)
>>=-ok (err e) f b h = absurd (ground (arith, h))

ok-injective {ℓ κ} : {E : Type ℓ} {A : Type κ} {a b : A} → Path (Result E A) (ok a) (ok b) → a ≡ b
ok-injective h = ground (arith, h)

module _ (int_of_text : String → Option ℕ) where
  -- The usage that a dictionary gives; where it has none, all tokens of the session count, and are
  -- not attributed.
  abbrev pub Counts : RawSession → Option (Option Dict) → SessionUsage → Type 0
  Counts raw none v =
      (n : ℕ) × (int_of int_of_text (get_or (num 0) (lookup "total_tokens" raw.fields)) ≡ ok n)
      × (v ≡ record unused { unattributed_tokens = n })
  Counts raw (some u) v = usage_from_dict int_of_text u ≡ ok v

  -- What a state is like that is made of a dictionary of version 1.
  pub record IsMigrated (raw : RawSession) (s : ChatSessionState) : Type 0 where
    pub version : s.version ≡ num 2
    pub revision : s.revision ≡ get_or (num 0) (lookup "revision" raw.fields)
    pub checkpoints :
        s.compaction_checkpoints ≡ get_or (arr nil) (lookup "compaction_checkpoints" raw.fields)
    pub usage : Counts raw raw.usage s.usage

  -- whatever comes of the dictionary, a state is as it should be
  abbrev pub Migrates : RawSession → Result SessionError ChatSessionState → Type 0
  Migrates raw (ok s) = IsMigrated raw s
  Migrates raw (err e) = Unit

  usage_or_tokens-Counts :
      (raw : RawSession) (u : Option (Option Dict)) (v : SessionUsage)
      → usage_or_tokens int_of_text "total_tokens" raw.fields u ≡ ok v
      → Counts raw u v
  unfolding usage_or_tokens
  usage_or_tokens-Counts raw none v h =
      let (n, e, f) =
        >>=-ok (int_of int_of_text (get_or (num 0) (lookup "total_tokens" raw.fields)))
          (λ n. ok (record unused { unattributed_tokens = n })) v h in
      (n, e, sym (ok-injective f))
  usage_or_tokens-Counts raw (some u) v h = h

  session_from-IsMigrated :
      (raw : RawSession) (s : ChatSessionState)
      → session_from int_of_text raw.fields (num 2) raw ≡ ok s
      → IsMigrated raw s
  unfolding session_from
  session_from-IsMigrated raw s h =
      let (pending, _, h1) = >>=-ok (pending_or_none int_of_text raw.pending_round) _ s h in
      let (rounds, _, h2) = >>=-ok (rounds_from_dicts int_of_text (get_or [] raw.rounds)) _ s h1 in
      let (usage, u, h3) =
        >>=-ok (usage_or_tokens int_of_text "total_tokens" raw.fields raw.usage) _ s h2 in
      let (_, _, h4) = >>=-ok (accepted required optional raw.fields) _ s h3 in
      let e = sym (ok-injective h4) in
      record {
        version = ap (λ t. t.version) e;
        revision = ap (λ t. t.revision) e;
        checkpoints = ap (λ t. t.compaction_checkpoints) e;
        usage =
            subst (Counts raw raw.usage) (ap (λ t. t.usage) (sym e))
              (usage_or_tokens-Counts raw raw.usage usage u);
      }

  caught-Migrates :
      (raw : RawSession) (r : Result PyError ChatSessionState)
      → session_from int_of_text raw.fields (num 2) raw ≡ r
      → Migrates raw (caught r)
  caught-Migrates raw (ok s) h = session_from-IsMigrated raw s h
  caught-Migrates raw (err type_error) h = tt
  caught-Migrates raw (err value_error) h = tt

  from_dict-old :
      (raw : RawSession)
      → version_test raw.version ≡ old
      → from_dict int_of_text raw ≡ caught (session_from int_of_text raw.fields (num 2) raw)
  unfolding from_dict session_of
  from_dict-old raw h = ground (arith, h, session_from-defaults int_of_text raw.fields (num 2) raw)

  from_dict-two :
      (raw : RawSession)
      → from_dict int_of_text (record raw { version = some (num 2) })
        ≡ caught (session_from int_of_text raw.fields (num 2) raw)
  unfolding from_dict session_of version_test session_from
  from_dict-two raw = refl

  -- A dictionary of version 1, which True is too, is read, and refused, as the same dictionary with
  -- version 2. A state that is made of it has the current version, the revision and the checkpoints
  -- of the dictionary, or 0 and none where it has no such key, and the usage of the dictionary; where
  -- that has none, all tokens of the session are usage that is not attributed.
  pub from_dict-version_1 :
      (raw : RawSession)
      → version_test raw.version ≡ old
      → (from_dict int_of_text raw ≡ from_dict int_of_text (record raw { version = some (num 2) }))
        × Migrates raw (from_dict int_of_text raw)
  from_dict-version_1 raw h = (
    from_dict-old raw h ∙ sym (from_dict-two raw),
    subst (Migrates raw) (sym (from_dict-old raw h))
        (caught-Migrates raw (session_from int_of_text raw.fields (num 2) raw) refl),
  )
