-- ===== src/Context/Pruning/Protected.antt =====
-- The protected part of a history is as it was after a pruning.
use forge_agent.Base.{
  ℕ, zero, suc, ◌≤◌, ◌≡◌, refl, ap, sym, ◌∙◌, inl, inr, ◌⊎◌, Option, none, some, Option-cases, List,
  [], ◌∷◌, length, get_elem?, drop, arith, Text,
}
use forge_agent.Context.History.{Message}
use forge_agent.Context.Evidence.{LlmMessage}
use forge_agent.Context.Pruning.{prune}
use forge_agent.Context.Pruning.Sound.{IsPruned}
use forge_agent.Context.Pruning.Kept.{prune-Kept}

get-none_le {ℓ} : {A : Type ℓ} (xs : List A) (i : ℕ) → get_elem? xs i ≡ none → length xs ≤ i
get-none_le [] i h = omega arith
get-none_le (x ∷ xs) zero h = absurd (ground (arith, h))
get-none_le (x ∷ xs) (suc i) h = omega (arith, get-none_le xs i h)

get-le_none {ℓ} : {A : Type ℓ} (xs : List A) (i : ℕ) → length xs ≤ i → get_elem? xs i ≡ none
get-le_none [] i h = refl
get-le_none (x ∷ xs) zero h = absurd (omega (arith, h))
get-le_none (x ∷ xs) (suc i) h = get-le_none xs i (omega (arith, h))

-- lists of one length that agree from `n` on
drop_ext {ℓ} :
    {A : Type ℓ} (n : ℕ) (xs ys : List A)
    → length xs ≡ length ys
    → ((i : ℕ) → n ≤ i → get_elem? xs i ≡ get_elem? ys i)
    → drop n xs ≡ drop n ys
drop_ext zero [] [] l h = refl
drop_ext zero [] (y ∷ ys) l h = absurd (omega (arith, l))
drop_ext zero (x ∷ xs) [] l h = absurd (omega (arith, l))
drop_ext zero (x ∷ xs) (y ∷ ys) l h = ground (
  arith,
  h 0 (omega arith),
  drop_ext zero xs ys (omega (arith, l)) (λ i b. h (suc i) (omega arith)),
)
drop_ext (suc n) [] [] l h = refl
drop_ext (suc n) [] (y ∷ ys) l h = absurd (omega (arith, l))
drop_ext (suc n) (x ∷ xs) [] l h = absurd (omega (arith, l))
drop_ext (suc n) (x ∷ xs) (y ∷ ys) l h =
    drop_ext n xs ys (omega (arith, l)) (λ i b. h (suc i) (omega (arith, b)))

module _ {P : Type 0} (json_object : Text → Option P) (count_text : Text → ℕ)
    (count_messages : List (Message ℕ) → ℕ) (min_output_tokens : ℕ) where
  -- The messages from the protected index on are the same after a pruning.
  pub drop-prune :
      (ms : List LlmMessage) (protected : ℕ)
      → drop protected
          (prune json_object count_text count_messages min_output_tokens ms protected).messages
        ≡ drop protected ms
  drop-prune ms protected = drop_ext protected out ms kept.0 (λ i b. same i b)
    where
      out : List LlmMessage
      out = (prune json_object count_text count_messages min_output_tokens ms protected).messages

      kept :
          (length out ≡ length ms)
          × ((i : ℕ) (m : LlmMessage)
              → get_elem? ms i ≡ some m
              → (r : LlmMessage) × (get_elem? out i ≡ some r)
                × ((r ≡ m) ⊎ IsPruned count_text min_output_tokens ms protected i r))
      kept = prune-Kept json_object count_text count_messages min_output_tokens ms protected

      of_kept :
          (i : ℕ) (m r : LlmMessage)
          → protected ≤ i
          → (r ≡ m) ⊎ IsPruned count_text min_output_tokens ms protected i r
          → r ≡ m
      of_kept i m r b (inl e) = e
      of_kept i m r b (inr p) = absurd (omega (arith, b, p.before))

      same : (i : ℕ) → protected ≤ i → get_elem? out i ≡ get_elem? ms i
      same i b = elim (Option-cases (get_elem? ms i)) [
        | inl e ↦ get-le_none out i (omega (arith, get-none_le ms i e, kept.0)) ∙ sym e
        | inr (m, e) ↦ let k = kept.1 i m e in k.1 ∙ ap some (of_kept i m k.0 b k.2) ∙ sym e
      ]
