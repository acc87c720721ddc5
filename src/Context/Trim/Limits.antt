-- ===== src/Context/Trim/Limits.antt =====
-- What the binary search of `trim_to` finds, and that trimmed texts keep to the limit.
use forge_agent.Base.{
  ℕ, zero, suc, ◌+◌, ◌-◌, ◌/◌, ◌≤◌, ◌<◌, ◌≡◌, ◌⊎◌, inl, inr, refl, Bool, true, false, List, [], leb,
  ltb, if◌then◌else◌, length, take, arith, ltb→lt, ap, ◌∙◌,
}
use forge_agent.Context.Trim.{search, shorten, trim_prefix, trim_to}

-- The search ends at a length that fits, or at the smallest, and the next one does not fit, if it is
-- within the bounds. No order on the counts is needed for this.
abbrev pub IsEdge : (ℕ → Bool) → ℕ → ℕ → ℕ → Type 0
IsEdge fits low high k =
    (low ≤ k) × (k ≤ high) × ((k ≡ low) ⊎ (fits k ≡ true)) × ((k ≡ high) ⊎ (fits (k + 1) ≡ false))

module _ (fits : ℕ → Bool) where
  upper-IsEdge :
      (low mid high k : ℕ)
      → low ≤ mid
      → fits mid ≡ true
      → IsEdge fits mid high k
      → IsEdge fits low high k
  upper-IsEdge low mid high k l q (a, b, inl e, d) =
      (omega (arith, a, l), b, inr (ap fits e ∙ q), d)
  upper-IsEdge low mid high k l q (a, b, inr e, d) = (omega (arith, a, l), b, inr e, d)

  lower-IsEdge :
      (low mid high k : ℕ)
      → 1 ≤ mid
      → mid ≤ high
      → fits mid ≡ false
      → IsEdge fits low (mid - 1) k
      → IsEdge fits low high k
  lower-IsEdge low mid high k l h q (a, b, c, inl e) =
      (a, omega (arith, b, h), c, inr (ap fits (omega (arith, e, l)) ∙ q))
  lower-IsEdge low mid high k l h q (a, b, c, inr e) = (a, omega (arith, b, h), c, inr e)

  -- one round of the loop, from the edges that the smaller ranges give
  round :
      (n low high : ℕ)
      → low ≤ high
      → (b c : Bool) → ltb low high ≡ b
      → fits ((low + high + 1) / 2) ≡ c
      → (ltb low high ≡ true
          → IsEdge fits ((low + high + 1) / 2) high (search fits n ((low + high + 1) / 2) high))
      → (ltb low high ≡ true
          → IsEdge fits low
              ((low + high + 1) / 2 - 1)
              (search fits n low ((low + high + 1) / 2 - 1)))
      → IsEdge fits low high (
          if b
          then (if c
              then search fits n ((low + high + 1) / 2) high
              else search fits n low ((low + high + 1) / 2 - 1))
          else low)
  round n low high l true true p q u d =
      upper-IsEdge low ((low + high + 1) / 2) high _ (omega (arith, l)) q (u p)
  round n low high l true false p q u d =
      lower-IsEdge low ((low + high + 1) / 2) high _ (ground (arith, p))
        (omega (arith, l, ltb→lt low high p)) q (d p)
  round n low high l false c p q u d = (omega arith, l, inl refl, inl (ground (arith, p, l)))

  pub search-IsEdge :
      (fuel low high : ℕ)
      → low ≤ high
      → high ≤ low + fuel
      → IsEdge fits low high (search fits fuel low high)
  unfolding search
  search-IsEdge zero low high l f =
      (omega arith, omega (arith, l), inl refl, inl (omega (arith, l, f)))
  search-IsEdge (suc n) low high l f =
      round n low high l (ltb low high) (fits ((low + high + 1) / 2)) refl refl
        (λ b.
          search-IsEdge n ((low + high + 1) / 2) high (ground (arith, b)) (ground (arith, b, f)))
        (λ b.
          search-IsEdge n low ((low + high + 1) / 2 - 1) (ground (arith, b)) (ground (arith, b, f)))

module _ {A : Type 0} (count : List A → ℕ) (suffix : List A) where
  shorten-le :
      (n : ℕ) (text : List A) (limit : ℕ)
      → count [] ≤ limit
      → count (shorten count suffix n text limit) ≤ limit
  unfolding shorten
  shorten-le zero text limit h = h
  shorten-le (suc n) text limit h = ground (arith, shorten-le n text limit h)

  trim_prefix-le :
      (text : List A) (limit : ℕ)
      → count [] ≤ limit
      → count (trim_prefix count suffix text limit) ≤ limit
  unfolding trim_prefix
  trim_prefix-le text zero h = h
  trim_prefix-le text (suc n) h = shorten-le _ text (suc n) h

  -- A trimmed text takes no more tokens than the limit, for every counter that gives the empty text
  -- no more than that.
  pub trim_to-le :
      (text : List A) (limit : ℕ)
      → count [] ≤ limit
      → count (trim_to count suffix text limit) ≤ limit
  unfolding trim_to
  trim_to-le text zero h = h
  trim_to-le text (suc n) h = ground (arith, trim_prefix-le text (suc n) h)

  abbrev fits_text : List A → ℕ → ℕ → Bool
  fits_text text limit k = leb (count (take k text)) limit

  shorten-take :
      (k : ℕ) (text : List A) (limit : ℕ)
      → fits_text text limit k ≡ true
      → shorten count suffix k text limit ≡ take k text
  unfolding shorten
  shorten-take zero text limit h = refl
  shorten-take (suc n) text limit h = ground (arith, h)

  -- A trimmed prefix is as long as can be: it fits, and one character more does not, unless it is
  -- the whole text.
  pub trim_prefix-edge :
      (text : List A) (limit : ℕ)
      → 0 < limit
      → count [] ≤ limit
      → (k : ℕ) × (trim_prefix count suffix text limit ≡ take k text)
        × (leb (count (take k text)) limit ≡ true)
        × ((k ≡ length text) ⊎ (leb (count (take (k + 1) text)) limit ≡ false))
  unfolding trim_prefix
  trim_prefix-edge text zero l h = absurd (omega (arith, l))
  trim_prefix-edge text (suc n) l h = go _ (
      search-IsEdge (fits_text text (suc n)) (length text) 0 (length text) (omega arith)
        (omega arith))
    where
      empty_fits : fits_text text (suc n) 0 ≡ true
      empty_fits = ground (arith, h)

      go :
          (k : ℕ)
          → IsEdge (fits_text text (suc n)) 0 (length text) k
          → (j : ℕ) × (shorten count suffix k text (suc n) ≡ take j text)
            × (leb (count (take j text)) (suc n) ≡ true)
            × ((j ≡ length text) ⊎ (leb (count (take (j + 1) text)) (suc n) ≡ false))
      go k (a, b, inl e, d) =
          let f = ap (fits_text text (suc n)) e ∙ empty_fits in
          (k, shorten-take k text (suc n) f, f, d)
      go k (a, b, inr f, d) = (k, shorten-take k text (suc n) f, f, d)
