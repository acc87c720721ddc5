-- ===== src/Context/Selection/Costs.antt =====
-- The tokens of a built history, by the indices that it is built from.
use forge_agent.Base.{
  ℕ, zero, suc, ◌+◌, ◌-◌, ◌≡◌, refl, String, none, some, List, [], ◌∷◌, ◌++◌, map, length,
  get_elem?, arith, ap, ◌∙◌, sym, subst,
}
use forge_agent.Context.History.{
  Message, HistoryUnit, sum, count_messages, notice_cost, notice_for, message_at, cost_at,
  unit_tokens, build_from,
}
use forge_agent.Context.History.Units.{Consecutive, IsRun}

pub left_over : (k g c : ℕ) → k + g ≡ c → c - k ≡ g
left_over k g c q = omega (arith, q)

difference : (i c : ℕ) → i ≡ c → i - c ≡ 0
difference i c q = omega (arith, q)

sum-append : (xs ys : List ℕ) → sum (xs ++ ys) ≡ sum xs + sum ys
sum-append [] ys = omega arith
sum-append (x ∷ xs) ys = omega (arith, sum-append xs ys)

map-append : {A B : Type 0} (f : A → B) (xs ys : List A) → map f (xs ++ ys) ≡ map f xs ++ map f ys
map-append f [] ys = refl
map-append f (x ∷ xs) ys = ap (λ r. f x ∷ r) (map-append f xs ys)

-- the cursor of the loop that builds the history, after the indices
abbrev pub cursor_after : ℕ → List ℕ → ℕ
cursor_after cursor [] = cursor
cursor_after cursor (i ∷ is) = cursor_after (i + 1) is

pub cursor_after-append :
    (c : ℕ) (xs ys : List ℕ) → cursor_after c (xs ++ ys) ≡ cursor_after (cursor_after c xs) ys
cursor_after-append c [] ys = refl
cursor_after-append c (x ∷ xs) ys = cursor_after-append (x + 1) xs ys

cursor_after-Consecutive :
    (c : ℕ) (is : List ℕ) → Consecutive c is → cursor_after c is ≡ c + length is
cursor_after-Consecutive c [] h = omega arith
cursor_after-Consecutive c (i ∷ is) (q, h) =
    ap (λ k. cursor_after (k + 1) is) q ∙ cursor_after-Consecutive (c + 1) is h ∙ omega arith

module _ {A : Type 0} (count_message : Message A → ℕ) (text_of : String → List A)
    (ms : List (Message A)) where
  abbrev pub count : List (Message A) → ℕ
  count = count_messages count_message text_of

  count-append : (xs ys : List (Message A)) → count (xs ++ ys) ≡ count xs + count ys
  unfolding count_messages
  count-append xs ys =
      ap sum (map-append count_message xs ys)
      ∙ sum-append (map count_message xs) (map count_message ys)

  -- what the loop adds for the indices, without the notice at the end
  abbrev pub cost_from : ℕ → List ℕ → ℕ
  cost_from cursor [] = 0
  cost_from cursor (i ∷ is) =
      notice_cost count_message text_of (i - cursor)
      + cost_at count_message text_of ms i
      + cost_from (i + 1) is

  pub cost_from-append :
      (c : ℕ) (xs ys : List ℕ)
      → cost_from c (xs ++ ys) ≡ cost_from c xs + cost_from (cursor_after c xs) ys
  cost_from-append c [] ys = omega arith
  cost_from-append c (x ∷ xs) ys = omega (arith, cost_from-append (x + 1) xs ys)

  count-notice_for :
      (n : ℕ) → count (notice_for count_message text_of n) ≡ notice_cost count_message text_of n
  unfolding count_messages
  count-notice_for zero = refl
  count-notice_for (suc n) = omega arith

  count-message_at :
      (i : ℕ) → count (message_at count_message text_of ms i) ≡ cost_at count_message text_of ms i
  unfolding count_messages
  count-message_at i =
      elim (get_elem? ms i)
        as (λ o.
          count (elim o as (λ _. List (Message A)) [ none ↦ [] | some m ↦ m ∷ [] ])
          ≡ (elim o as (λ _. ℕ) [ none ↦ 0 | some m ↦ count_message m ])) [
            | none ↦ refl
            | some m ↦ omega arith
          ]

  pub count-build_from :
      (c : ℕ) (is : List ℕ)
      → count (build_from count_message text_of ms c is)
        ≡ cost_from c is + notice_cost count_message text_of (length ms - cursor_after c is)
  unfolding build_from
  count-build_from c [] = omega (arith, count-notice_for (length ms - c))
  count-build_from c (i ∷ is) = omega (
    arith,
    count-append (notice_for count_message text_of (i - c))
        (message_at count_message text_of ms i ++ build_from count_message text_of ms (i + 1) is),
    count-append (message_at count_message text_of ms i)
        (build_from count_message text_of ms (i + 1) is),
    count-notice_for (i - c),
    count-message_at i,
    count-build_from (i + 1) is,
  )

  pub cost_from-Consecutive :
      (c : ℕ) (is : List ℕ)
      → Consecutive c is
      → cost_from c is ≡ unit_tokens count_message text_of ms is
  unfolding unit_tokens
  cost_from-Consecutive c [] h = refl
  cost_from-Consecutive c (i ∷ is) (q, h) = omega (
    arith,
    ap (notice_cost count_message text_of) (difference i c q),
    cost_from-Consecutive (i + 1) is (subst (λ k. Consecutive (k + 1) is) (sym q) h),
  )

  pub run-cost_from :
      (k c : ℕ) (u : HistoryUnit)
      → IsRun c u
      → cost_from k u
        ≡ notice_cost count_message text_of (c - k) + unit_tokens count_message text_of ms u
  unfolding unit_tokens
  run-cost_from k c [] r = absurd r
  run-cost_from k c (i ∷ is) r = omega (
    arith,
    ap (λ j. notice_cost count_message text_of (j - k)) r.0,
    cost_from-Consecutive (i + 1) is (subst (λ j. Consecutive (j + 1) is) (sym r.0) r.1),
  )

  pub run-cursor_after : (k c : ℕ) (u : HistoryUnit) → IsRun c u → cursor_after k u ≡ c + length u
  run-cursor_after k c [] r = absurd r
  run-cursor_after k c (i ∷ is) r =
      ap (λ j. cursor_after (j + 1) is) r.0 ∙ cursor_after-Consecutive (c + 1) is r.1 ∙ omega arith
