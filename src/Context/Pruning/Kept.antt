-- ===== src/Context/Pruning/Kept.antt =====
-- What pruning leaves: which messages are replaced, by what, and all else as it was.
use forge_agent.Base.{
  ℕ, zero, suc, ◌+◌, ◌≡◌, refl, ap, subst, ◌∙◌, ◌⊎◌, inl, inr, Option, none, some, List, [], ◌∷◌,
  ◌==◌, length, get_elem?, All, arith, map, drop, Text, Bool-cases,
}
use forge_agent.Context.History.{Message}
use forge_agent.Context.Evidence.{LlmMessage}
use forge_agent.Context.Pruning.{
  replacement_at, or_message, replaced_from, replacements_of, prune, message_dict,
}
use forge_agent.Context.Pruning.Sound.{AllPruned, IsPruned}
use forge_agent.Context.Pruning.Order.{units_from-Ordered}
use forge_agent.Context.Pruning.Steps.{units-Sound}

replacement_at-All {ℓ} :
    (Q : ℕ → LlmMessage → Type ℓ) (i : ℕ) (rs : List (ℕ × LlmMessage)) (r : LlmMessage)
    → All (λ e. Q e.0 e.1) rs
    → replacement_at i rs ≡ some r
    → Q i r
unfolding replacement_at
replacement_at-All Q i [] r h e = absurd (ground (arith, e))
replacement_at-All Q i ((j, m) ∷ rs) r h e = elim (Bool-cases (j == i)) [
  | inl t ↦
      let same : j ≡ i = ground (arith, t) in
      let this : m ≡ r = ground (arith, e, t) in
      subst (λ k. Q k r) same (subst (λ x. Q j x) this h.0)
  | inr t ↦ replacement_at-All Q i rs r h.1 (ground (arith, e, t))
]

get-replaced_from :
    (index : ℕ) (rs : List (ℕ × LlmMessage)) (ms : List LlmMessage) (i : ℕ) (m : LlmMessage)
    → get_elem? ms i ≡ some m
    → get_elem? (replaced_from index rs ms) i ≡ some (or_message m (replacement_at (index + i) rs))
unfolding replaced_from
get-replaced_from index rs [] i m h = absurd (ground (arith, h))
get-replaced_from index rs (k ∷ ms) zero m h =
    let e : k ≡ m = ground (arith, h) in let z : index + 0 ≡ index = omega arith in rw (z, e) refl
get-replaced_from index rs (k ∷ ms) (suc i) m h =
    let z : index + suc i ≡ index + 1 + i = omega arith in
    rw z (get-replaced_from (index + 1) rs ms i m h)

length-replaced_from :
    (index : ℕ) (rs : List (ℕ × LlmMessage)) (ms : List LlmMessage)
    → length (replaced_from index rs ms) ≡ length ms
unfolding replaced_from
length-replaced_from index rs [] = refl
length-replaced_from index rs (m ∷ ms) = ap suc (length-replaced_from (index + 1) rs ms)

module _ {P : Type 0} (json_object : Text → Option P) (count_text : Text → ℕ)
    (count_messages : List (Message ℕ) → ℕ) (min_output_tokens : ℕ) where
  replacements-Pruned :
      (ms : List LlmMessage) (protected : ℕ)
      → AllPruned count_text min_output_tokens ms protected
          (replacements_of json_object count_text count_messages min_output_tokens ms protected)
  replacements-Pruned ms protected =
      (units-Sound count_text min_output_tokens json_object ms count_messages protected _ _
        (units_from-Ordered 1 (drop 1 (map message_dict ms)))
        (record { pruned = tt; names = tt })).pruned

  -- Pruning keeps the number of messages, and each message is the one that was there, or stands
  -- before the protected part, has an event reference, and is the result of a successful call: then
  -- only its text is replaced, by the marker of its tool for a large output, or by a pointer to the
  -- event reference of a message that stands after it and has the same text.
  pub prune-Kept :
      (ms : List LlmMessage) (protected : ℕ)
      → let out : List LlmMessage =
          (prune json_object count_text count_messages min_output_tokens ms protected).messages in
        (length out ≡ length ms)
        × ((i : ℕ) (m : LlmMessage)
            → get_elem? ms i ≡ some m
            → (r : LlmMessage) × (get_elem? out i ≡ some r)
              × ((r ≡ m) ⊎ IsPruned count_text min_output_tokens ms protected i r))
  unfolding prune
  prune-Kept ms protected = (length-replaced_from 0 _ ms, λ i m h. kept i m h)
    where
      of_replacement :
          (i : ℕ) (m : LlmMessage) (o : Option LlmMessage)
          → replacement_at i
              (replacements_of json_object count_text count_messages min_output_tokens ms protected)
            ≡ o
          → (or_message m o ≡ m)
            ⊎ IsPruned count_text min_output_tokens ms protected i (or_message m o)
      of_replacement i m none e = inl refl
      of_replacement i m (some r) e = inr (
          replacement_at-All (IsPruned count_text min_output_tokens ms protected) i _ r
            (replacements-Pruned ms protected) e)

      kept :
          (i : ℕ) (m : LlmMessage)
          → get_elem? ms i ≡ some m
          → (r : LlmMessage) × (get_elem?
                (prune json_object count_text count_messages min_output_tokens ms
                  protected).messages
                i
              ≡ some r)
            × ((r ≡ m) ⊎ IsPruned count_text min_output_tokens ms protected i r)
      kept i m h =
          let z : 0 + i ≡ i = omega arith in
          let rs =
            replacements_of json_object count_text count_messages min_output_tokens ms protected in
          (
            or_message m (replacement_at i rs),
            get-replaced_from 0 rs ms i m h ∙ ap (λ k. some (or_message m (replacement_at k rs))) z,
            of_replacement i m (replacement_at i rs) refl,
          )
