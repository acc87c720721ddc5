-- ===== src/Base/Texts.antt =====
-- Texts built from parts, the way the program formats its messages, and the substring test.
use Prim.Native.Nat.{ℕ, zero, suc, ◌/◌, ◌%◌}
use Prim.Native.String.{String, ◌++◌}
use mathlib.Core.Bool.{Bool, true, false}
use mathlib.Core.List.{List, [], ◌∷◌}
use mathlib.Core.Option.{none, some}
use forge_agent.Base.Lists.{get_elem?}
use text.Mathlib.Text.{find?}

-- An f-string of these parts.
abbrev pub concat : List String → String
concat [] = ""
concat (s ∷ ss) = s ++ concat ss

abbrev pub join : String → List String → String
join sep [] = ""
join sep (s ∷ []) = s
join sep (s ∷ t ∷ ss) = s ++ (sep ++ join sep (t ∷ ss))

-- needle in hay
abbrev pub is_in : String → String → Bool
is_in needle hay = elim (find? hay needle) [ none ↦ false | some i ↦ true ]

abbrev digit : ℕ → String
digit n =
    let ds : List String = "0" ∷ "1" ∷ "2" ∷ "3" ∷ "4" ∷ "5" ∷ "6" ∷ "7" ∷ "8" ∷ "9" ∷ [] in
    elim (get_elem? ds n) as (λ _. String) [ none ↦ "" | some d ↦ d ]

-- The decimal digits of `n`, with at most `fuel` digits more in front of `text`.
abbrev digits_before : ℕ → ℕ → String → String
digits_before zero n text = text
digits_before (suc fuel) n text = elim (n / 10) [
  | zero ↦ digit (n % 10) ++ text
  | suc q ↦ digits_before fuel (suc q) (digit (n % 10) ++ text)
]

-- str(n); a number has fewer digits than its successor's value
abbrev pub digits : ℕ → String
digits n = digits_before (suc n) n ""
