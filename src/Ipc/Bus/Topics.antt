-- ===== src/Ipc/Bus/Topics.antt =====
-- Which topics a subscription takes.
use forge_agent.Base.{
  Text, text_eq, starts_with, ends_with, text_eq→eq, text_eq_self, ◌+◌, ◌-◌, ◌≡◌, ◌↔◌, ◌⊎◌, inl,
  inr, refl, ap, sym, ◌∙◌, Bool, true, false, not, [], ◌∷◌, ◌++◌, ◌==◌, length, take, drop, any,
  arith, Bool-cases, length-append, take-append-drop, if◌then◌else◌,
}
use mathlib.Core.List.{append_assoc}
use forge_agent.Ipc.Bus.{dot_star, topic_matches}

starts_with_split : (text p : Text) → starts_with text p ≡ true → text ≡ p ++ drop (length p) text
starts_with_split text [] h = refl
starts_with_split [] (c ∷ p) h = cc
starts_with_split (d ∷ s) (c ∷ p) h = ground (arith, starts_with_split s p)

starts_with-append : (p r : Text) → starts_with (p ++ r) p ≡ true
starts_with-append [] r = refl
starts_with-append (c ∷ p) r = ground (arith, starts_with-append p r)

drop-append : (p r : Text) → drop (length p) (p ++ r) ≡ r
drop-append [] r = refl
drop-append (c ∷ p) r = drop-append p r

take-append : (p r : Text) → take (length p) (p ++ r) ≡ p
take-append [] r = refl
take-append (c ∷ p) r = ap (λ t. c ∷ t) (take-append p r)

-- A wildcard takes the topics of one more level below its prefix.
pub record IsBelow (subscription topic : Text) : Type 0 where
  pub prefix : Text
  pub level : Text
  pub wildcard : subscription ≡ prefix ++ dot_star
  pub below : topic ≡ prefix ++ (b'.' ∷ level)
  pub one_level : any (λ c. c == b'.') level ≡ false

-- What `topic_matches` tests after it has cut a subscription at `p`.
abbrev under : Text → Text → Bool
under p topic =
    if not (starts_with topic (p ++ b'.' ∷ []))
    then false
    else not (any (λ c. c == b'.') (drop (length p + 1) topic))

under-below :
    (p topic : Text)
    → under p topic ≡ true
    → (topic ≡ p ++ (b'.' ∷ drop (length p + 1) topic))
      × (any (λ c. c == b'.') (drop (length p + 1) topic) ≡ false)
under-below p topic h = elim (Bool-cases (starts_with topic (p ++ b'.' ∷ []))) [
  | inl e ↦ (
    starts_with_split topic (p ++ b'.' ∷ []) e
        ∙ ap (λ n. (p ++ b'.' ∷ []) ++ drop n topic) (length-append p (b'.' ∷ []))
        ∙ append_assoc p (b'.' ∷ []) _,
    ground (arith, h, e),
  )
  | inr e ↦ absurd (ground (arith, h, e))
]

below-under :
    (p level : Text) → any (λ c. c == b'.') level ≡ false → under p (p ++ (b'.' ∷ level)) ≡ true
below-under p level h =
    let shape : p ++ (b'.' ∷ level) ≡ (p ++ b'.' ∷ []) ++ level =
      sym (append_assoc p (b'.' ∷ []) level) in
    let rest : drop (length p + 1) ((p ++ b'.' ∷ []) ++ level) ≡ level =
      ap (λ n. drop n ((p ++ b'.' ∷ []) ++ level)) (sym (length-append p (b'.' ∷ [])))
      ∙ drop-append (p ++ b'.' ∷ []) level in
    rw (shape, starts_with-append (p ++ b'.' ∷ []) level, rest, h) refl

cut-wildcard : (s : Text) → ends_with s dot_star ≡ true → s ≡ take (length s - 2) s ++ dot_star
cut-wildcard s h =
    sym (take-append-drop (length s - 2) s)
    ∙ ap (λ t. take (length s - 2) s ++ t) (text_eq→eq _ _ h)

length-wildcard : (p : Text) → length (p ++ dot_star) - 2 ≡ length p
length-wildcard p = omega (arith, length-append p dot_star)

take-wildcard : (p : Text) → take (length (p ++ dot_star) - 2) (p ++ dot_star) ≡ p
take-wildcard p = ap (λ n. take n (p ++ dot_star)) (length-wildcard p) ∙ take-append p dot_star

ends-wildcard : (p : Text) → ends_with (p ++ dot_star) dot_star ≡ true
ends-wildcard p =
    ap (λ t. text_eq t dot_star)
      (ap (λ n. drop n (p ++ dot_star)) (length-wildcard p) ∙ drop-append p dot_star)

-- `topic_matches` by its tests
matches_of :
    (s t : Text)
    → ends_with s dot_star ≡ true
    → under (take (length s - 2) s) t ≡ true
    → topic_matches s t ≡ true
unfolding topic_matches
matches_of s t e u = ground (arith, e, u)

wildcard-matches :
    (p level : Text)
    → any (λ c. c == b'.') level ≡ false
    → topic_matches (p ++ dot_star) (p ++ (b'.' ∷ level)) ≡ true
wildcard-matches p level h =
    matches_of (p ++ dot_star) (p ++ (b'.' ∷ level)) (ends-wildcard p)
      (ap (λ q. under q (p ++ (b'.' ∷ level))) (take-wildcard p) ∙ below-under p level h)

-- A subscription takes a topic exactly when it is that topic, or when it is `prefix.*` and the topic
-- is `prefix.` with a level that has no dot.
pub topic_matches_iff :
    (subscription topic : Text)
    → (topic_matches subscription topic ≡ true)
      ↔ ((subscription ≡ topic) ⊎ IsBelow subscription topic)
unfolding topic_matches
topic_matches_iff s t = (forward, backward)
  where
    by_wildcard : ends_with s dot_star ≡ true → under (take (length s - 2) s) t ≡ true → IsBelow s t
    by_wildcard e u =
        let b = under-below (take (length s - 2) s) t u in
        record {
          prefix = take (length s - 2) s;
          level = drop (length (take (length s - 2) s) + 1) t;
          wildcard = cut-wildcard s e;
          below = b.0;
          one_level = b.1;
        }

    forward : topic_matches s t ≡ true → (s ≡ t) ⊎ IsBelow s t
    forward h = elim (Bool-cases (text_eq s t)) [
      | inl e ↦ inl (text_eq→eq s t e)
      | inr n ↦ elim (Bool-cases (ends_with s dot_star)) [
        | inl e ↦ inr (by_wildcard e (ground (arith, h, n, e)))
        | inr m ↦ absurd (ground (arith, h, n, m))
      ]
    ]

    backward : (s ≡ t) ⊎ IsBelow s t → topic_matches s t ≡ true
    backward (inl e) = ground (arith, ap (λ u. text_eq u t) e ∙ text_eq_self t)
    backward (inr b) = rw (b.wildcard, b.below) (wildcard-matches b.prefix b.level b.one_level)
