-- ===== src/Context/Trim/Examples.antt =====
-- Uses of the theorems about trimmed texts, with a counter that rounds up and gives the empty text
-- one token.
use forge_agent.Base.{ℕ, ◌+◌, ◌/◌, max, ◌≡◌, refl, List, [], ◌∷◌, length, replicate}
use forge_agent.Context.Trim.{trim_to}

abbrev counter : List ℕ → ℕ
counter text = max 1 ((length text + 3) / 4)

abbrev suffix : List ℕ
suffix = 0 ∷ 0 ∷ []

abbrev long : List ℕ
long = replicate 30 7

trimmed_length : length (trim_to counter suffix long 3) ≡ 12
unfolding trim_to
trimmed_length = refl
