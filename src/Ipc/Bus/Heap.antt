-- ===== src/Ipc/Bus/Heap.antt =====
-- What one delivery, and the deliveries of a publication, do to each queue.
use forge_agent.Base.{
  ℕ, zero, suc, ◌+◌, ◌≤◌, ◌<◌, ◌≡◌, refl, ap, ◌∙◌, Bool, true, false, ◌||◌, ◌&&◌, some, List, [],
  ◌∷◌, ◌++◌, ◌==◌, length, get_elem?, arith, length-append, if◌then◌else◌, count_where,
  Option-cases, inl, inr,
}
use forge_agent.Ipc.Bus.{
  Message, Queue, Entry, set, contains, full, deliver, deliver_all, deliver_matching, topic_matches,
}

pub get-set {ℓ} :
    {B : Type ℓ} (xs : List B) (i j : ℕ) (v : B)
    → i < length xs
    → get_elem? (set xs i v) j ≡ (if i == j then some v else get_elem? xs j)
get-set [] i j v h = absurd (omega arith)
get-set (x ∷ xs) zero zero v h = ground arith
get-set (x ∷ xs) zero (suc j) v h = ground arith
get-set (x ∷ xs) (suc i) zero v h = ground arith
get-set (x ∷ xs) (suc i) (suc j) v h = ground (arith, get-set xs i j v (omega arith))

pub length-set {ℓ} : {B : Type ℓ} (xs : List B) (i : ℕ) (v : B) → length (set xs i v) ≡ length xs
length-set [] i v = refl
length-set (x ∷ xs) zero v = refl
length-set (x ∷ xs) (suc i) v = ap suc (length-set xs i v)

pub get-some-lt {ℓ} :
    {B : Type ℓ} (xs : List B) (i : ℕ) (v : B) → get_elem? xs i ≡ some v → i < length xs
get-some-lt [] i v h = cc
get-some-lt (x ∷ xs) zero v h = omega arith
get-some-lt (x ∷ xs) (suc i) v h = omega (arith, get-some-lt xs i v h)

-- as often as a number stands in a list
abbrev pub times : ℕ → List ℕ → ℕ
times i ids = count_where (λ j. j == i) ids

pub times-contains : (i : ℕ) (ids : List ℕ) → times i ids ≡ 0 → contains i ids ≡ false
times-contains i [] h = refl
times-contains i (j ∷ ids) h = ground (arith, times-contains i ids)

-- as often as a queue is subscribed
abbrev pub held : ℕ → List Entry → ℕ
held i [] = 0
held i ((key, ids) ∷ rest) = times i ids + held i rest

module _ {A : Type 0} where
  -- how many messages wait in the queues
  abbrev pub stored : List (Queue A) → ℕ
  stored [] = 0
  stored (q ∷ queues) = length q.items + stored queues

  stored-set :
      (queues : List (Queue A)) (j : ℕ) (q v : Queue A)
      → get_elem? queues j ≡ some q
      → length v.items ≡ length q.items + 1
      → stored (set queues j v) ≡ stored queues + 1
  stored-set [] j q v h e = cc
  stored-set (p ∷ queues) zero q v h e = ground (arith, h, e)
  stored-set (p ∷ queues) (suc j) q v h e = omega (arith, stored-set queues j q v h e)

module _ {A : Type 0} (msg : Message A) where
  -- a queue to which the message is put, or which is full
  abbrev pub put : Queue A → Queue A
  put q = if full q then q else record q { items = q.items ++ msg ∷ [] }

  -- a queue of a publication
  abbrev pub put_if : Bool → Queue A → Queue A
  put_if b q = if b then put q else q

  get-deliver :
      (queues : List (Queue A)) (n j i : ℕ) {q : Queue A}
      → get_elem? queues i ≡ some q
      → get_elem? (deliver msg queues n j).0 i ≡ some (put_if (j == i) q)
  unfolding deliver
  get-deliver queues n j i {q} h = elim (Option-cases (get_elem? queues j)) [
    | inl e ↦ ground (arith, h, e)
    | inr (p, e) ↦ ground (
      arith,
      h,
      e,
      get-some-lt queues j p e,
      get-set queues j i (record p { items = p.items ++ msg ∷ [] }) (get-some-lt queues j p e),
    )
  ]

  put_if-put_if :
      (b c : Bool) (q : Queue A)
      → (b ≡ true → c ≡ false)
      → put_if c (put_if b q) ≡ put_if (b || c) q
  put_if-put_if true true q h = absurd (ground (arith, h refl))
  put_if-put_if true false q h = refl
  put_if-put_if false c q h = refl

  get-deliver_all :
      (ids : List ℕ) (queues : List (Queue A)) (n i : ℕ) {q : Queue A}
      → times i ids ≤ 1
      → get_elem? queues i ≡ some q
      → get_elem? (deliver_all msg queues n ids).0 i ≡ some (put_if (contains i ids) q)
  unfolding deliver_all
  get-deliver_all [] queues n i u h = h
  get-deliver_all (j ∷ ids) queues n i {q} u h =
      get-deliver_all ids _ _ i (ground (arith, u)) (get-deliver queues n j i h)
      ∙ ap some (
          put_if-put_if (j == i) (contains i ids) q
            (λ e. times-contains i ids (ground (arith, u, e))))

  -- a queue to which a publication to the topic goes
  abbrev pub is_target : ℕ → List Entry → Bool
  is_target i [] = false
  is_target i ((key, ids) ∷ rest) =
      (topic_matches key msg.topic && contains i ids) || is_target i rest

  held-is_target : (i : ℕ) (subs : List Entry) → held i subs ≡ 0 → is_target i subs ≡ false
  held-is_target i [] h = refl
  held-is_target i ((key, ids) ∷ rest) h =
      ground (arith, times-contains i ids, held-is_target i rest)

  -- one topic of the bus
  get-entry :
      (b : Bool) (ids : List ℕ) (queues : List (Queue A)) (n i : ℕ) {q : Queue A}
      → times i ids ≤ 1
      → get_elem? queues i ≡ some q
      → get_elem? (if b then deliver_all msg queues n ids else (queues, n)).0 i
        ≡ some (put_if (b && contains i ids) q)
  get-entry true ids queues n i u h = get-deliver_all ids queues n i u h
  get-entry false ids queues n i u h = h

  pub get-deliver_matching :
      (subs : List Entry) (queues : List (Queue A)) (n i : ℕ) {q : Queue A}
      → held i subs ≤ 1
      → get_elem? queues i ≡ some q
      → get_elem? (deliver_matching msg queues n subs).0 i ≡ some (put_if (is_target i subs) q)
  unfolding deliver_matching
  get-deliver_matching [] queues n i u h = h
  get-deliver_matching ((key, ids) ∷ rest) queues n i {q} u h =
      get-deliver_matching rest _ _ i (omega (arith, u))
        (get-entry (topic_matches key msg.topic) ids queues n i (omega (arith, u)) h)
      ∙ ap some (
          put_if-put_if (topic_matches key msg.topic && contains i ids) (is_target i rest) q
            (λ e. held-is_target i rest (ground (arith, u, e, times-contains i ids))))

  stored-deliver :
      (queues : List (Queue A)) (n j : ℕ)
      → stored (deliver msg queues n j).0 + n ≡ stored queues + (deliver msg queues n j).1
  unfolding deliver
  stored-deliver queues n j = elim (Option-cases (get_elem? queues j)) [
    | inl e ↦ ground (arith, e)
    | inr (p, e) ↦ ground (
      arith,
      e,
      stored-set queues j p (record p { items = p.items ++ msg ∷ [] }) e
          (length-append p.items (msg ∷ [])),
    )
  ]

  stored-deliver_all :
      (ids : List ℕ) (queues : List (Queue A)) (n : ℕ)
      → stored (deliver_all msg queues n ids).0 + n
        ≡ stored queues + (deliver_all msg queues n ids).1
  unfolding deliver_all
  stored-deliver_all [] queues n = refl
  stored-deliver_all (j ∷ ids) queues n = omega (
    arith,
    stored-deliver queues n j,
    stored-deliver_all ids (deliver msg queues n j).0 (deliver msg queues n j).1,
  )

  stored-entry :
      (b : Bool) (ids : List ℕ) (queues : List (Queue A)) (n : ℕ)
      → stored (if b then deliver_all msg queues n ids else (queues, n)).0 + n
        ≡ stored queues + (if b then deliver_all msg queues n ids else (queues, n)).1
  stored-entry true ids queues n = stored-deliver_all ids queues n
  stored-entry false ids queues n = refl

  pub stored-deliver_matching :
      (subs : List Entry) (queues : List (Queue A)) (n : ℕ)
      → stored (deliver_matching msg queues n subs).0 + n
        ≡ stored queues + (deliver_matching msg queues n subs).1
  unfolding deliver_matching
  stored-deliver_matching [] queues n = refl
  stored-deliver_matching ((key, ids) ∷ rest) queues n =
      let r : List (Queue A) × ℕ =
        if topic_matches key msg.topic then deliver_all msg queues n ids else (queues, n) in
      omega (
        arith,
        stored-entry (topic_matches key msg.topic) ids queues n,
        stored-deliver_matching rest r.0 r.1,
      )

  length-deliver :
      (queues : List (Queue A)) (n j : ℕ) → length (deliver msg queues n j).0 ≡ length queues
  unfolding deliver
  length-deliver queues n j = elim (Option-cases (get_elem? queues j)) [
    | inl e ↦ ground (arith, e)
    | inr (p, e) ↦ ground (arith, e, length-set queues j (record p { items = p.items ++ msg ∷ [] }))
  ]

  length-deliver_all :
      (ids : List ℕ) (queues : List (Queue A)) (n : ℕ)
      → length (deliver_all msg queues n ids).0 ≡ length queues
  unfolding deliver_all
  length-deliver_all [] queues n = refl
  length-deliver_all (j ∷ ids) queues n = length-deliver_all ids _ _ ∙ length-deliver queues n j

  length-entry :
      (b : Bool) (ids : List ℕ) (queues : List (Queue A)) (n : ℕ)
      → length (if b then deliver_all msg queues n ids else (queues, n)).0 ≡ length queues
  length-entry true ids queues n = length-deliver_all ids queues n
  length-entry false ids queues n = refl

  pub length-deliver_matching :
      (subs : List Entry) (queues : List (Queue A)) (n : ℕ)
      → length (deliver_matching msg queues n subs).0 ≡ length queues
  unfolding deliver_matching
  length-deliver_matching [] queues n = refl
  length-deliver_matching ((key, ids) ∷ rest) queues n =
      length-deliver_matching rest _ _ ∙ length-entry (topic_matches key msg.topic) ids queues n
