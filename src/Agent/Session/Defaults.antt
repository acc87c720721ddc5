-- ===== src/Agent/Session/Defaults.antt =====
-- The defaults that a dictionary of version 1 is given are those of the state itself.
use forge_agent.Base.{
  true, false, ◌≡◌, refl, ap, ◌∙◌, ℕ, String, Bool, Option, none, some, List, [], ◌∷◌, ◌++◌, arith,
  str_eq, any, all,
}
use forge_agent.Agent.Session.{num, arr, nil, get_or, JsonValue, RawSession, lookup, Dict}
use forge_agent.Agent.Session.Reading.{
  usage_or_tokens, session_from, has_key, set_default, accepted, mentions,
}

lookup-append :
    (k j : String) (v : JsonValue) (d : Dict)
    → str_eq j k ≡ false
    → lookup k (d ++ (j, v) ∷ []) ≡ lookup k d
lookup-append k j v [] h = rw (h) refl
lookup-append k j v ((i, w) ∷ d) h = ground (arith, lookup-append k j v d h)

-- the value under a key that is missing is the default
get_or-append :
    (k : String) (v : JsonValue) (d : Dict)
    → str_eq k k ≡ true
    → has_key d k ≡ false
    → get_or v (lookup k (d ++ (k, v) ∷ [])) ≡ get_or v (lookup k d)
get_or-append k v [] s h = rw (s) refl
get_or-append k v ((i, w) ∷ d) s h = ground (arith, get_or-append k v d s (ground arith))

lookup-set_default :
    (k j : String) (v : JsonValue) (d : Dict)
    → str_eq j k ≡ false
    → lookup k (set_default j v d) ≡ lookup k d
lookup-set_default k j v d h = ground (arith, lookup-append k j v d h)

get_or-set_default :
    (k : String) (v : JsonValue) (d : Dict)
    → str_eq k k ≡ true
    → get_or v (lookup k (set_default k v d)) ≡ get_or v (lookup k d)
get_or-set_default k v d s = go (has_key d k) refl
  where
    go :
        (b : Bool)
        → has_key d k ≡ b
        → get_or v (lookup k (set_default k v d)) ≡ get_or v (lookup k d)
    go true h = rw (h) refl
    go false h = rw (h) (get_or-append k v d s h)

any-append :
    (p : String × JsonValue → Bool) (e : String × JsonValue) (d : Dict)
    → p e ≡ false
    → any p (d ++ e ∷ []) ≡ any p d
any-append p e [] h = rw (h) refl
any-append p e (x ∷ d) h = rw (any-append p e d h) refl

all-append :
    (p : String × JsonValue → Bool) (e : String × JsonValue) (d : Dict)
    → p e ≡ true
    → all p (d ++ e ∷ []) ≡ all p d
all-append p e [] h = rw (h) refl
all-append p e (x ∷ d) h = rw (all-append p e d h) refl

has_key-set_default :
    (k j : String) (v : JsonValue) (d : Dict)
    → str_eq j k ≡ false
    → has_key (set_default j v d) k ≡ has_key d k
has_key-set_default k j v d h = ground (arith, any-append (λ e. str_eq e.0 k) (j, v) d h)

all-set_default :
    (p : String × JsonValue → Bool) (j : String) (v : JsonValue) (d : Dict)
    → p (j, v) ≡ true
    → all p (set_default j v d) ≡ all p d
all-set_default p j v d h = ground (arith, all-append p (j, v) d h)

abbrev pub defaults : Dict → Dict
defaults d = set_default "compaction_checkpoints" (arr nil) (set_default "revision" (num 0) d)

lookup-defaults :
    (k : String) (d : Dict)
    → str_eq "revision" k ≡ false
    → str_eq "compaction_checkpoints" k ≡ false
    → lookup k (defaults d) ≡ lookup k d
lookup-defaults k d p q =
    lookup-set_default k "compaction_checkpoints" (arr nil) (set_default "revision" (num 0) d) q
    ∙ lookup-set_default k "revision" (num 0) d p

has_key-defaults :
    (k : String) (d : Dict)
    → str_eq "revision" k ≡ false
    → str_eq "compaction_checkpoints" k ≡ false
    → has_key (defaults d) k ≡ has_key d k
has_key-defaults k d p q =
    has_key-set_default k "compaction_checkpoints" (arr nil) (set_default "revision" (num 0) d) q
    ∙ has_key-set_default k "revision" (num 0) d p

revision-defaults :
    (d : Dict)
    → get_or (num 0) (lookup "revision" (defaults d)) ≡ get_or (num 0) (lookup "revision" d)
revision-defaults d =
    ap (get_or (num 0)) (
      lookup-set_default "revision" "compaction_checkpoints" (arr nil)
        (set_default "revision" (num 0) d) refl)
    ∙ get_or-set_default "revision" (num 0) d refl

checkpoints-defaults :
    (d : Dict)
    → get_or (arr nil) (lookup "compaction_checkpoints" (defaults d))
      ≡ get_or (arr nil) (lookup "compaction_checkpoints" d)
checkpoints-defaults d =
    get_or-set_default "compaction_checkpoints" (arr nil) (set_default "revision" (num 0) d) refl
    ∙ ap (get_or (arr nil)) (lookup-set_default "compaction_checkpoints" "revision" (num 0) d refl)

abbrev pub required : List String
required = "session_id" ∷ "repo_path" ∷ "repo_key" ∷ "created_at" ∷ "updated_at" ∷ []

abbrev pub optional : List String
optional =
    "title" ∷ "history" ∷ "round_count" ∷ "total_steps" ∷ "total_tokens" ∷ "repo_revision"
    ∷ "compaction_checkpoints" ∷ "revision" ∷ []

abbrev is_known : String × JsonValue → Bool
is_known e = mentions e.0 (required ++ optional)

accepted-defaults :
    (d : Dict) → accepted required optional (defaults d) ≡ accepted required optional d
accepted-defaults d =
    rw
      (
        has_key-defaults "session_id" d refl refl,
        has_key-defaults "repo_path" d refl refl,
        has_key-defaults "repo_key" d refl refl,
        has_key-defaults "created_at" d refl refl,
        has_key-defaults "updated_at" d refl refl,
        all-set_default is_known "compaction_checkpoints" (arr nil)
            (set_default "revision" (num 0) d) refl,
        all-set_default is_known "revision" (num 0) d refl,
      )
      refl

module _ (int_of_text : String → Option ℕ) where
  usage-defaults :
      (d : Dict) (u : Option (Option Dict))
      → usage_or_tokens int_of_text "total_tokens" (defaults d) u
        ≡ usage_or_tokens int_of_text "total_tokens" d u
  unfolding usage_or_tokens
  usage-defaults d none = rw (lookup-defaults "total_tokens" d refl refl) refl
  usage-defaults d (some u) = refl

  pub session_from-defaults :
      (d : Dict) (version : JsonValue) (raw : RawSession)
      → session_from int_of_text (defaults d) version raw ≡ session_from int_of_text d version raw
  unfolding session_from
  session_from-defaults d version raw =
      rw
        (
          lookup-defaults "session_id" d refl refl,
          lookup-defaults "repo_path" d refl refl,
          lookup-defaults "repo_key" d refl refl,
          lookup-defaults "created_at" d refl refl,
          lookup-defaults "updated_at" d refl refl,
          lookup-defaults "title" d refl refl,
          lookup-defaults "history" d refl refl,
          lookup-defaults "round_count" d refl refl,
          lookup-defaults "total_steps" d refl refl,
          lookup-defaults "total_tokens" d refl refl,
          lookup-defaults "repo_revision" d refl refl,
          revision-defaults d,
          checkpoints-defaults d,
          usage-defaults d raw.usage,
          accepted-defaults d,
        )
        refl
