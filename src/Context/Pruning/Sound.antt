-- ===== src/Context/Pruning/Sound.antt =====
-- What a replacement of a pruning is.
use forge_agent.Base.{
  ℕ, ◌<◌, ◌≡◌, refl, ◌⊎◌, inl, inr, Bool, true, false, not, ◌&&◌, none, some, List, [], ◌∷◌, String,
  ltb, get_elem?, All, arith, Text, Bool-cases,
}
use forge_agent.Context.History.{HistoryUnit}
use forge_agent.Context.Evidence.{LlmMessage, ParsedObservation, parse_observation}
use forge_agent.Context.Pruning.{has_ref, DuplicateKey, Pruning, Pair, prune_large_success, one_of}
use forge_agent.Context.Markers.{
  copy_message, duplicate_marker, file_read_marker, shell_marker, test_marker,
}

-- The marker of a duplicate names a message of the history with the same text.
pub record Names (ms : List LlmMessage) (content : Text) (ref : String) : Type 0 where
  pub index : ℕ
  pub message : LlmMessage
  pub is_at : get_elem? ms index ≡ some message
  pub has_content : message.content ≡ content
  pub referred : message.event_ref ≡ some ref

-- every entry names a message at an index with the property
abbrev pub AllNamed : (ℕ → Type 0) → List LlmMessage → List (DuplicateKey × String) → Type 0
AllNamed Q ms d = All (λ e. (n : Names ms e.0.result e.1) × Q n.index) d

-- the index is larger than all those of the units
abbrev pub Above : List HistoryUnit → ℕ → Type 0
Above us j = All (λ u. All (λ i. i < j) u) us

-- a pair that the loop looks at
pub record Valid (ms : List LlmMessage) (p : Pair) : Type 0 where
  pub at : get_elem? ms p.index ≡ some p.result
  pub parsed_as : parse_observation p.result ≡ some p.parsed
  pub success : p.parsed.is_success ≡ true

pub right_false : (b c : Bool) → (b && not c) ≡ true → c ≡ false
right_false true false h = refl
right_false true true h = absurd (ground (arith, h))
right_false false c h = absurd (ground (arith, h))

module _ (count_text : Text → ℕ) (min_output_tokens : ℕ) where
  -- A replacement `r` of the message at `i`: the message is the result of a successful call outside
  -- the protected part and refers to its event, where the whole result stands. It is replaced since
  -- it is large, or by a text that names the event of a later message with the same text.
  pub record IsPruned (ms : List LlmMessage) (protected i : ℕ) (r : LlmMessage) : Type 0 where
    pub before : i < protected
    pub original : LlmMessage
    pub is_at : get_elem? ms i ≡ some original
    pub parsed : ParsedObservation
    pub is_parsed : parse_observation original ≡ some parsed
    pub succeeded : parsed.is_success ≡ true
    pub referred : has_ref original.event_ref ≡ true
    pub new_content : Text
    pub replaced : r ≡ copy_message original new_content
    pub reason :
        (prune_large_success count_text min_output_tokens original parsed ≡ some r)
        ⊎ ((ref : String) × (new_content ≡ duplicate_marker parsed.tool_name ref)
            × (n : Names ms original.content ref) × (i < n.index))

  abbrev pub AllPruned : List LlmMessage → ℕ → List (ℕ × LlmMessage) → Type 0
  AllPruned ms protected rs = All (λ e. IsPruned ms protected e.0 e.1) rs

  -- the state of the loop before the units `us`: the messages that it has noted stand after them
  pub record Sound (ms : List LlmMessage) (protected : ℕ) (us : List HistoryUnit) (s : Pruning)
      : Type 0 where
    pub pruned : AllPruned ms protected s.replacements
    pub names : AllNamed (Above us) ms s.latest

  pub large_copy :
      (m : LlmMessage) (o : ParsedObservation)
      → (prune_large_success count_text min_output_tokens m o ≡ none)
        ⊎ ((c : Text) × (prune_large_success count_text min_output_tokens m o
              ≡ some (copy_message m c)))
  unfolding prune_large_success
  large_copy m o = elim (Bool-cases (ltb (count_text o.body) min_output_tokens)) [
    | inl e ↦ inl (rw e refl)
    | inr e ↦ elim (Bool-cases (one_of ("file_read" ∷ []) o.tool_name)) [
      | inl f ↦ inr (file_read_marker m o (count_text o.body), rw (e, f) refl)
      | inr f ↦ elim (Bool-cases (one_of ("shell" ∷ []) o.tool_name)) [
        | inl g ↦ inr (shell_marker m o (count_text o.body), rw (e, f, g) refl)
        | inr g ↦ elim (Bool-cases (one_of ("test" ∷ "pytest" ∷ []) o.tool_name)) [
          | inl h ↦ inr (test_marker m o (count_text o.body), rw (e, f, g, h) refl)
          | inr h ↦ inl (rw (e, f, g, h) refl)
        ]
      ]
    ]
  ]
