-- ===== src/Ipc/Bus/Table.antt =====
-- The table of subscribers: what a subscription and its end do to it.
use forge_agent.Base.{
  Text, text_eq, text_eq→eq, text_eq_iff, ℕ, ◌+◌, ◌≤◌, ◌≡◌, ◌↔◌, refl, sym, subst, Bool, true,
  false, ◌||◌, Option, none, some, List, [], ◌∷◌, ◌++◌, ◌==◌, arith, if◌then◌else◌, count_where,
  count_where-append, Bool-cases, inl, inr,
}
use forge_agent.Ipc.Bus.{
  Entry, contains, add_subscriber, remove_first, entry_without, without, subscribers_of,
  topic_matches, Message,
}
use forge_agent.Ipc.Bus.Heap.{times, times-contains, held, is_target}

-- the topic to which a queue is subscribed
abbrev pub subscription : ℕ → List Entry → Option Text
subscription i [] = none
subscription i ((key, ids) ∷ rest) = if contains i ids then some key else subscription i rest

-- how many entries a topic has
abbrev pub named : Text → List Entry → ℕ
named t subs = count_where (λ e. text_eq e.0 t) subs

abbrev pub one_if : Bool → ℕ
one_if b = if b then 1 else 0

contains-append :
    (i : ℕ) (ids : List ℕ) (j : ℕ) → contains i (ids ++ j ∷ []) ≡ (contains i ids || (j == i))
contains-append i [] j = ground arith
contains-append i (k ∷ ids) j = ground (arith, contains-append i ids j)

contains-times : (i : ℕ) (ids : List ℕ) → contains i ids ≡ true → 1 ≤ times i ids
contains-times i [] h = cc
contains-times i (j ∷ ids) h = ground (arith, contains-times i ids)

pub held-none : (i : ℕ) (subs : List Entry) → held i subs ≡ 0 → subscription i subs ≡ none
held-none i [] h = refl
held-none i ((key, ids) ∷ rest) h = ground (arith, times-contains i ids, held-none i rest)

pub held-add :
    (i : ℕ) (t : Text) (j : ℕ) (subs : List Entry)
    → held i (add_subscriber t j subs) ≡ held i subs + one_if (j == i)
unfolding add_subscriber
held-add i t j [] = ground arith
held-add i t j ((key, ids) ∷ rest) =
    ground (arith, held-add i t j rest, count_where-append (λ k. k == i) ids (j ∷ []))

named-add_other :
    (k t : Text) (j : ℕ) (subs : List Entry)
    → text_eq t k ≡ false
    → named k (add_subscriber t j subs) ≡ named k subs
unfolding add_subscriber
named-add_other k t j [] h = ground (arith, h)
named-add_other k t j ((key, ids) ∷ rest) h =
    ground (arith, h, named-add_other k t j rest h, text_eq_iff key t)

named-add_self :
    (t : Text) (j : ℕ) (subs : List Entry)
    → named t subs ≤ 1
    → named t (add_subscriber t j subs) ≤ 1
unfolding add_subscriber
named-add_self t j [] h = ground arith
named-add_self t j ((key, ids) ∷ rest) h = ground (arith, named-add_self t j rest)

pub named-add :
    (k t : Text) (j : ℕ) (subs : List Entry)
    → named k subs ≤ 1
    → named k (add_subscriber t j subs) ≤ 1
named-add k t j subs h = elim (Bool-cases (text_eq t k)) [
  | inl e ↦
      subst (λ u. named k (add_subscriber u j subs) ≤ 1) (sym (text_eq→eq t k e))
        (named-add_self k j subs h)
  | inr n ↦ omega (arith, named-add_other k t j subs n)
]

pub subscription-add_other :
    (i : ℕ) (t : Text) (j : ℕ) (subs : List Entry)
    → (j == i) ≡ false
    → subscription i (add_subscriber t j subs) ≡ subscription i subs
unfolding add_subscriber
subscription-add_other i t j [] h = ground (arith, h)
subscription-add_other i t j ((key, ids) ∷ rest) h =
    ground (arith, h, contains-append i ids j, subscription-add_other i t j rest h)

pub subscription-add_self :
    (t : Text) (j : ℕ) (subs : List Entry)
    → held j subs ≡ 0
    → subscription j (add_subscriber t j subs) ≡ some t
unfolding add_subscriber
subscription-add_self t j [] h = ground arith
subscription-add_self t j ((key, ids) ∷ rest) h = ground (
  arith,
  h,
  contains-append j ids j,
  times-contains j ids,
  subscription-add_self t j rest,
  text_eq_iff key t,
)

contains-remove_other :
    (i j : ℕ) (ids : List ℕ) → (j == i) ≡ false → contains i (remove_first j ids) ≡ contains i ids
unfolding remove_first
contains-remove_other i j [] h = refl
contains-remove_other i j (k ∷ ids) h = ground (arith, contains-remove_other i j ids h)

times-remove :
    (i j : ℕ) (ids : List ℕ)
    → contains j ids ≡ true
    → times i (remove_first j ids) + one_if (j == i) ≡ times i ids
unfolding remove_first
times-remove i j [] h = cc
times-remove i j (k ∷ ids) h = ground (arith, times-remove i j ids)

held-entry_without :
    (i : ℕ) (key : Text) (ids : List ℕ) (rest : List Entry)
    → held i (entry_without key ids rest) ≡ times i ids + held i rest
held-entry_without i key [] rest = ground arith
held-entry_without i key (j ∷ ids) rest = refl

pub held-without :
    (i : ℕ) (t : Text) (j : ℕ) (subs : List Entry)
    → contains j (subscribers_of t subs) ≡ true
    → held i (without t j subs) + one_if (j == i) ≡ held i subs
unfolding without subscribers_of
held-without i t j [] h = cc
held-without i t j ((key, ids) ∷ rest) h = ground (
  arith,
  held-without i t j rest,
  held-entry_without i key (remove_first j ids) rest,
  times-remove i j ids,
)

named-entry_without :
    (k key : Text) (ids : List ℕ) (rest : List Entry)
    → named k (entry_without key ids rest) ≤ one_if (text_eq key k) + named k rest
named-entry_without k key [] rest = ground arith
named-entry_without k key (j ∷ ids) rest = ground arith

pub named-without :
    (k t : Text) (j : ℕ) (subs : List Entry) → named k (without t j subs) ≤ named k subs
unfolding without
named-without k t j [] = ground arith
named-without k t j ((key, ids) ∷ rest) =
    ground (arith, named-without k t j rest, named-entry_without k key (remove_first j ids) rest)

subscription-entry_without :
    (i : ℕ) (key : Text) (ids : List ℕ) (rest : List Entry)
    → subscription i (entry_without key ids rest) ≡ subscription i ((key, ids) ∷ rest)
subscription-entry_without i key [] rest = refl
subscription-entry_without i key (j ∷ ids) rest = refl

pub subscription-without_other :
    (i : ℕ) (t : Text) (j : ℕ) (subs : List Entry)
    → (j == i) ≡ false
    → subscription i (without t j subs) ≡ subscription i subs
unfolding without
subscription-without_other i t j [] h = refl
subscription-without_other i t j ((key, ids) ∷ rest) h = ground (
  arith,
  h,
  subscription-without_other i t j rest h,
  subscription-entry_without i key (remove_first j ids) rest,
  contains-remove_other i j ids h,
)

subscription-named :
    (i : ℕ) (t : Text) (subs : List Entry) → subscription i subs ≡ some t → 1 ≤ named t subs
subscription-named i t [] h = cc
subscription-named i t ((key, ids) ∷ rest) h =
    ground (arith, h, subscription-named i t rest, text_eq_iff key t)

subscribed→listed :
    (i : ℕ) (t : Text) (subs : List Entry)
    → named t subs ≤ 1
    → subscription i subs ≡ some t
    → contains i (subscribers_of t subs) ≡ true
unfolding subscribers_of
subscribed→listed i t [] u h = cc
subscribed→listed i t ((key, ids) ∷ rest) u h =
    ground (arith, u, h, subscribed→listed i t rest, subscription-named i t rest, text_eq_iff key t)

listed-held :
    (i : ℕ) (t : Text) (subs : List Entry)
    → contains i (subscribers_of t subs) ≡ true
    → 1 ≤ held i subs
unfolding subscribers_of
listed-held i t [] h = cc
listed-held i t ((key, ids) ∷ rest) h =
    ground (arith, h, listed-held i t rest, contains-times i ids)

listed→subscribed :
    (i : ℕ) (t : Text) (subs : List Entry)
    → held i subs ≤ 1
    → contains i (subscribers_of t subs) ≡ true
    → subscription i subs ≡ some t
unfolding subscribers_of
listed→subscribed i t [] u h = cc
listed→subscribed i t ((key, ids) ∷ rest) u h = ground (
  arith,
  u,
  h,
  listed→subscribed i t rest,
  listed-held i t rest,
  contains-times i ids,
  text_eq_iff key t,
)

pub listed_iff :
    (i : ℕ) (t : Text) (subs : List Entry)
    → held i subs ≤ 1
    → named t subs ≤ 1
    → (contains i (subscribers_of t subs) ≡ true) ↔ (subscription i subs ≡ some t)
listed_iff i t subs u v = (listed→subscribed i t subs u, subscribed→listed i t subs v)

abbrev pub takes : Text → Option Text → Bool
takes topic none = false
takes topic (some s) = topic_matches s topic

pub is_target-subscription :
    {A : Type 0} (msg : Message A) (i : ℕ) (subs : List Entry)
    → held i subs ≤ 1
    → is_target msg i subs ≡ takes msg.topic (subscription i subs)
is_target-subscription msg i [] h = refl
is_target-subscription msg i ((key, ids) ∷ rest) h = ground (
  arith,
  h,
  is_target-subscription msg i rest,
  times-contains i ids,
  contains-times i ids,
  held-none i rest,
)
