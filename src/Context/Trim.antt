-- ===== src/Context/Trim.antt =====
-- context/token_budget.py: `trim_to` and `_trim_prefix`. A text is a list of characters; the counter is
-- a function of the text, and nothing else is known of it.
pub mod Limits
mod Examples
use forge_agent.Base.{
  ℕ, zero, suc, ◌+◌, ◌-◌, ◌/◌, Bool, true, false, not, ◌&&◌, ◌||◌, List, [], ◌∷◌, ◌++◌, leb, ltb,
  ◌==◌, if◌then◌else◌, length, take,
}

-- The loop `while low < high`: the prefix length that the binary search ends with. Each round brings
-- the bounds closer, so `high - low` rounds are enough.
pub search : (ℕ → Bool) → ℕ → ℕ → ℕ → ℕ
search fits zero low high = low
search fits (suc fuel) low high =
    let midpoint = (low + high + 1) / 2 in
    let upper = search fits fuel midpoint high in
    let lower = search fits fuel low (midpoint - 1) in
    if ltb low high then (if fits midpoint then upper else lower) else low

module _ {A : Type 0} (count : List A → ℕ) (suffix : List A) where
  -- candidate = candidate[:-1] while it is not empty and too long: `n` characters at most are left
  pub shorten : ℕ → List A → ℕ → List A
  shorten zero text limit = []
  shorten (suc n) text limit =
      let rest = shorten n text limit in
      if leb (count (take (suc n) text)) limit then take (suc n) text else rest

  pub trim_prefix : List A → ℕ → List A
  unfolding search shorten
  trim_prefix text zero = []
  trim_prefix text (suc n) =
      let low = search (λ k. leb (count (take k text)) (suc n)) (length text) 0 (length text) in
      shorten low text (suc n)

  abbrev cut : ℕ → List A → List A
  cut k text = take k text ++ suffix

  pub trim_to : List A → ℕ → List A
  unfolding search trim_prefix
  trim_to text zero = []
  trim_to text (suc n) =
      let limit = suc n in
      let result =
        cut (search (λ k. leb (count (cut k text)) limit) (length text) 0 (length text)) text in
      if leb (count text) limit
      then text
      else if not (leb (count suffix) limit)
      then trim_prefix text limit
      else if leb (count result) limit
      then result
      else trim_prefix text limit
