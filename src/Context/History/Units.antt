-- ===== src/Context/History/Units.antt =====
-- The units of a history cover its messages one after the other.
use forge_agent.Base.{
  ℕ, ◌+◌, ◌≡◌, refl, true, false, ◌&&◌, List, [], ◌∷◌, if◌then◌else◌, length, arith, str_eq, subst,
}
use forge_agent.Context.History.{Message, HistoryUnit, units_from, is_reply}

-- The indices `index`, `index + 1`, … and no others.
abbrev pub Consecutive : ℕ → List ℕ → Type 0
Consecutive index [] = Unit
Consecutive index (i ∷ is) = (i ≡ index) × Consecutive (index + 1) is

abbrev pub IsRun : ℕ → HistoryUnit → Type 0
IsRun index [] = ⊥
IsRun index (i ∷ is) = Consecutive index (i ∷ is)

-- The units are not empty and their indices are those from `index` up to `end`, in order.
abbrev pub Covers : ℕ → List HistoryUnit → ℕ → Type 0
Covers index [] end = index ≡ end
Covers index (u ∷ us) end = IsRun index u × Covers (index + length u) us end

module _ {A : Type 0} where
  -- The units of the messages from `index` on hold the index of each of them once, in order.
  pub units_from-Covers :
      (index : ℕ) (ms : List (Message A)) → Covers index (units_from index ms) (index + length ms)
  unfolding units_from
  units_from-Covers index [] = omega arith
  units_from-Covers index (m ∷ []) = ((refl, tt), omega arith)
  units_from-Covers index (m ∷ n ∷ ms) =
      elim (str_eq m.role "assistant" && is_reply n.role)
        as (λ b.
          Covers index
            (if b
              then (index ∷ (index + 1) ∷ []) ∷ units_from (index + 2) ms
              else (index ∷ []) ∷ units_from (index + 1) (n ∷ ms))
            (index + length (m ∷ n ∷ ms))) [
              | true ↦ (
                (refl, (refl, tt)),
                subst (λ e. Covers (index + 2) (units_from (index + 2) ms) e) (omega arith)
                    (units_from-Covers (index + 2) ms),
              )
              | false ↦ (
                (refl, tt),
                subst (λ e. Covers (index + 1) (units_from (index + 1) (n ∷ ms)) e) (omega arith)
                    (units_from-Covers (index + 1) (n ∷ ms)),
              )
            ]
