-- ===== src/Context/Pruning/Order.antt =====
-- The loop sees the units from the newest to the oldest.
use mathlib.Core.List.{reverse-append}
use forge_agent.Base.{ℕ, suc, ◌+◌, ◌≤◌, ◌<◌, List, [], ◌∷◌, ◌++◌, reverse, length, All, arith}
use forge_agent.Context.History.{Message, HistoryUnit, units_from}
use forge_agent.Context.History.Units.{Consecutive, IsRun, Covers, units_from-Covers}
use forge_agent.Context.Pruning.Sound.{Above}

-- every index of a unit is larger than all those of the units that follow in the list
abbrev pub Ordered : List HistoryUnit → Type 0
Ordered [] = Unit
Ordered (u ∷ us) = All (Above us) u × Ordered us

-- all indices of `v` are larger than those of `u`
abbrev Over : HistoryUnit → HistoryUnit → Type 0
Over u v = All (λ j. All (λ i. i < j) u) v

All-map {ℓ κ} :
    {A : Type 0} (P : A → Type ℓ) (Q : A → Type κ) (xs : List A)
    → ((x : A) → P x → Q x)
    → All P xs
    → All Q xs
All-map P Q [] f h = tt
All-map P Q (x ∷ xs) f h = (f x h.0, All-map P Q xs f h.1)

All-append {ℓ} :
    {A : Type 0} (P : A → Type ℓ) (xs ys : List A) → All P xs → All P ys → All P (xs ++ ys)
All-append P [] ys h k = k
All-append P (x ∷ xs) ys h k = (h.0, All-append P xs ys h.1 k)

All-reverse {ℓ} : {A : Type 0} (P : A → Type ℓ) (xs : List A) → All P xs → All P (reverse xs)
All-reverse P [] h = tt
All-reverse P (x ∷ xs) h =
    rw (reverse-append (x ∷ []) xs)
      (All-append P (reverse xs) (x ∷ []) (All-reverse P xs h.1) (h.0, tt))

Above-snoc :
    (us : List HistoryUnit) (u v : HistoryUnit)
    → All (Above us) v
    → Over u v
    → All (Above (us ++ u ∷ [])) v
Above-snoc us u [] h k = tt
Above-snoc us u (j ∷ v) h k =
    (All-append (λ w. All (λ i. i < j) w) us (u ∷ []) h.0 (k.0, tt), Above-snoc us u v h.1 k.1)

Ordered-snoc :
    (us : List HistoryUnit) (u : HistoryUnit)
    → Ordered us
    → All (Over u) us
    → Ordered (us ++ u ∷ [])
Ordered-snoc [] u o h = (none_follow u, tt)
  where
    none_follow : (v : HistoryUnit) → All (Above []) v
    none_follow [] = tt
    none_follow (i ∷ v) = (tt, none_follow v)
Ordered-snoc (v ∷ us) u o h = (Above-snoc us u v o.0 h.0, Ordered-snoc us u o.1 h.1)

run-below : (index : ℕ) (u : List ℕ) → Consecutive index u → All (λ i. i < index + length u) u
run-below index [] h = tt
run-below index (i ∷ u) h = (
  omega (arith, h.0),
  All-map (λ j. j < index + 1 + length u) (λ j. j < index + suc (length u)) u
      (λ j l. omega (arith, l)) (run-below (index + 1) u h.1),
)

run-from : (index : ℕ) (u : List ℕ) → Consecutive index u → All (λ i. index ≤ i) u
run-from index [] h = tt
run-from index (i ∷ u) h = (
  omega (arith, h.0),
  All-map (λ j. index + 1 ≤ j) (λ j. index ≤ j) u (λ j l. omega (arith, l))
      (run-from (index + 1) u h.1),
)

IsRun-Consecutive : (index : ℕ) (u : HistoryUnit) → IsRun index u → Consecutive index u
IsRun-Consecutive index [] h = tt
IsRun-Consecutive index (i ∷ u) h = h

Covers-from :
    (index : ℕ) (us : List HistoryUnit) (end : ℕ)
    → Covers index us end
    → All (λ u. All (λ i. index ≤ i) u) us
Covers-from index [] end h = tt
Covers-from index (u ∷ us) end h = (
  run-from index u (IsRun-Consecutive index u h.0),
  All-map (λ v. All (λ i. index + length u ≤ i) v) (λ v. All (λ i. index ≤ i) v) us
      (λ v. All-map (λ i. index + length u ≤ i) (λ i. index ≤ i) v (λ i l. omega (arith, l)))
      (Covers-from (index + length u) us end h.1),
)

Covers-Ordered :
    (index : ℕ) (us : List HistoryUnit) (end : ℕ) → Covers index us end → Ordered (reverse us)
Covers-Ordered index [] end h = tt
Covers-Ordered index (u ∷ us) end h = rw (reverse-append (u ∷ []) us) (
    Ordered-snoc (reverse us) u (Covers-Ordered (index + length u) us end h.1) (
      All-reverse (Over u) us (
        All-map (λ v. All (λ i. index + length u ≤ i) v) (Over u) us
          (λ v.
            All-map (λ i. index + length u ≤ i) (λ j. All (λ i. i < j) u) v
              (λ j l.
                All-map (λ i. i < index + length u) (λ i. i < j) u (λ i b. omega (arith, l, b))
                  (run-below index u (IsRun-Consecutive index u h.0))))
          (Covers-from (index + length u) us end h.1))))

-- the units of a history, the newest first
pub units_from-Ordered :
    {A : Type 0} (index : ℕ) (ms : List (Message A)) → Ordered (reverse (units_from index ms))
units_from-Ordered index ms =
    Covers-Ordered index (units_from index ms) (index + length ms) (units_from-Covers index ms)
