-- ===== src/Context/Pruning/Steps.antt =====
-- Every round of the loop over the units makes replacements of that kind only.
use forge_agent.Base.{
  ℕ, ◌<◌, ◌≡◌, refl, subst, sym, ap, All, ◌∙◌, inl, inr, true, false, not, ◌&&◌, ◌||◌, Option, none,
  some, List, [], ◌∷◌, String, leb, ltb, ltb→lt, get_elem?, arith, Text, text_eq, text_eq→eq,
  Bool-cases, Option-cases, str_eq,
}
use forge_agent.Context.History.{Message, HistoryUnit}
use forge_agent.Context.Evidence.{
  LlmMessage, ParsedAction, ParsedObservation, parse_action, parse_observation,
}
use forge_agent.Context.Pruning.{
  has_ref, DuplicateKey, same_key, lookup_key, Pruning, Pair, paired, pair_of, prune_large_success,
  put_replacement, prune_large, key_of, prune_search, prune_by_ref, prune_pair, prune_units, one_of,
  search_tools,
}
use forge_agent.Context.Markers.{duplicate_marker}
use forge_agent.Context.Pruning.Order.{Ordered}
use forge_agent.Context.Pruning.Sound.{
  Names, AllNamed, Above, Sound, Valid, large_copy, right_false,
}

module _ (count_text : Text → ℕ) (min_output_tokens : ℕ) where
  module _ (ms : List LlmMessage) (protected : ℕ) (us : List HistoryUnit) where
    put-Sound :
        (p : Pair) (s : Pruning)
        → Valid ms p
        → Sound count_text min_output_tokens ms protected us s
        → p.index < protected
        → has_ref p.result.event_ref ≡ true
        → Sound count_text min_output_tokens ms protected us (
            put_replacement count_text min_output_tokens p.index
              (prune_large_success count_text min_output_tokens p.result p.parsed)
              s)
    put-Sound p s v h l f = elim (large_copy count_text min_output_tokens p.result p.parsed) [
      | inl e ↦ rw e h
      | inr (c, e) ↦ rw e (record {
        pruned = (
          record {
            before = l;
            original = p.result;
            is_at = v.at;
            parsed = p.parsed;
            is_parsed = v.parsed_as;
            succeeded = v.success;
            referred = f;
            new_content = c;
            replaced = refl;
            reason = inl e;
          },
          h.pruned,
        );
        names = h.names;
      })
    ]

    large-Sound :
        (p : Pair) (s : Pruning)
        → Valid ms p
        → Sound count_text min_output_tokens ms protected us s
        → Sound count_text min_output_tokens ms protected us
            (prune_large count_text min_output_tokens protected p s)
    unfolding prune_large
    large-Sound p s v h =
        elim (Bool-cases (leb protected p.index || not (has_ref p.result.event_ref))) [
          | inl e ↦ rw e h
          | inr e ↦ rw e (put-Sound p s v h (ground (arith, e)) (ground (arith, e)))
        ]

    lookup-Names :
        (Q : ℕ → Type 0) (k : DuplicateKey) (d : List (DuplicateKey × String)) (r : String)
        → AllNamed Q ms d
        → lookup_key k d ≡ some r
        → (n : Names ms k.result r) × Q n.index
    unfolding lookup_key
    lookup-Names Q k [] r h e = absurd (ground (arith, e))
    lookup-Names Q k ((l, q) ∷ d) r h e = elim (Bool-cases (same_key l k)) [
      | inl t ↦ (
        record {
          index = h.0.0.index;
          message = h.0.0.message;
          is_at = h.0.0.is_at;
          has_content = h.0.0.has_content ∙ text_eq→eq l.result k.result (ground (arith, t));
          referred = h.0.0.referred ∙ (ground (arith, e, t));
        },
        h.0.1,
      )
      | inr t ↦ lookup-Names Q k d r h.1 (ground (arith, e, t))
    ]

    -- the messages that the loop has noted stand after the pair
    abbrev Noted : Pair → Pruning → Type 0
    Noted p s = AllNamed (λ j. p.index < j) ms s.latest

    has_ref-of :
        (o : Option String) (ref : String) → o ≡ some ref → str_eq ref "" ≡ false → has_ref o ≡ true
    has_ref-of o ref e n = rw (e, n) refl

    search-Sound :
        (p : Pair) (ref : String) (s : Pruning)
        → Valid ms p
        → Sound count_text min_output_tokens ms protected us s
        → Noted p s
        → Above us p.index
        → p.result.event_ref ≡ some ref
        → str_eq ref "" ≡ false
        → (o : Option String) → lookup_key (key_of count_text min_output_tokens p) s.latest ≡ o
        → Sound count_text min_output_tokens ms protected us
            (prune_search count_text min_output_tokens protected p ref o s)
    unfolding prune_search
    search-Sound p ref s v h l b r n none q = large-Sound p _ v (record {
      pruned = h.pruned;
      names = (
        (
          record {
            index = p.index;
            message = p.result;
            is_at = v.at;
            has_content = refl;
            referred = r;
          },
          b,
        ),
        h.names,
      );
    })
    search-Sound p ref s v h l b r n (some newer) q = elim (Bool-cases (ltb p.index protected)) [
      | inr e ↦ rw e (large-Sound p s v h)
      | inl e ↦ rw e (record {
        pruned = (
          record {
            before = ltb→lt p.index protected e;
            original = p.result;
            is_at = v.at;
            parsed = p.parsed;
            is_parsed = v.parsed_as;
            succeeded = v.success;
            referred = has_ref-of p.result.event_ref ref r n;
            new_content = duplicate_marker p.parsed.tool_name newer;
            replaced = refl;
            reason = inr (
              newer,
              refl,
              (lookup-Names (λ j. p.index < j) (key_of count_text min_output_tokens p) s.latest
                  newer l q).0,
              (lookup-Names (λ j. p.index < j) (key_of count_text min_output_tokens p) s.latest
                  newer l q).1,
            );
          },
          h.pruned,
        );
        names = h.names;
      })
    ]

    by_ref-Sound :
        (p : Pair) (s : Pruning)
        → Valid ms p
        → Sound count_text min_output_tokens ms protected us s
        → Noted p s
        → Above us p.index
        → (o : Option String) → p.result.event_ref ≡ o
        → Sound count_text min_output_tokens ms protected us
            (prune_by_ref count_text min_output_tokens protected p o s)
    by_ref-Sound p s v h l b none r = large-Sound p s v h
    by_ref-Sound p s v h l b (some ref) r =
        elim (Bool-cases (one_of search_tools p.parsed.tool_name && not (str_eq ref ""))) [
          | inr e ↦ rw e (large-Sound p s v h)
          | inl e ↦ rw e (
              search-Sound p ref s v h l b r
                (right_false (one_of search_tools p.parsed.tool_name) (str_eq ref "") e)
                (lookup_key (key_of count_text min_output_tokens p) s.latest) refl)
        ]

    pair-Sound :
        (o : Option Pair) (s : Pruning)
        → ((p : Pair) → o ≡ some p → Valid ms p)
        → Sound count_text min_output_tokens ms protected us s
        → ((p : Pair) → o ≡ some p → Noted p s × Above us p.index)
        → Sound count_text min_output_tokens ms protected us
            (prune_pair count_text min_output_tokens protected o s)
    unfolding prune_pair
    pair-Sound none s v h k = h
    pair-Sound (some p) s v h k =
        by_ref-Sound p s (v p refl) h (k p refl).0 (k p refl).1 p.result.event_ref refl

  module _ {P : Type 0} (json_object : Text → Option P) (ms : List LlmMessage) where
    paired-Valid :
        (j : ℕ) (a m : LlmMessage) (q : Option (ParsedAction P)) (o : Option ParsedObservation)
        (p : Pair)
        → get_elem? ms j ≡ some m
        → parse_observation m ≡ o
        → paired json_object j a m q o ≡ some p
        → Valid ms p × (p.index ≡ j)
    paired-Valid j a m none o p g e h = absurd (ground (arith, h))
    paired-Valid j a m (some q) none p g e h = absurd (ground (arith, h))
    paired-Valid j a m (some q) (some o) p g e h =
        elim (Bool-cases (o.is_success && text_eq q.tool_name o.tool_name)) [
          | inr t ↦ absurd (ground (arith, h, t))
          | inl t ↦
              let found : Pair = record { index = j; call = a; result = m; parsed = o } in
              let e' : found ≡ p = ground (arith, h, t) in
              (
                subst (λ x. Valid ms x) e'
                    (record { at = g; parsed_as = e; success = ground (arith, t) }),
                ap (λ (x : Pair). x.index) (sym e'),
              )
        ]

    pair_of-Valid :
        (u : HistoryUnit) (p : Pair)
        → pair_of json_object ms u ≡ some p
        → Valid ms p × (get_elem? u 1 ≡ some p.index)
    unfolding pair_of
    pair_of-Valid [] p h = absurd (ground (arith, h))
    pair_of-Valid (i ∷ []) p h = absurd (ground (arith, h))
    pair_of-Valid (i ∷ j ∷ k ∷ u) p h = absurd (ground (arith, h))
    pair_of-Valid (i ∷ j ∷ []) p h = elim (Option-cases (get_elem? ms i)) [
      | inl e ↦ absurd (ground (arith, h, e))
      | inr (a, e) ↦ elim (Option-cases (get_elem? ms j)) [
        | inl f ↦ absurd (ground (arith, h, e, f))
        | inr (m, f) ↦
            let (v, q) =
              paired-Valid j a m (parse_action json_object a) (parse_observation m) p f refl
                (ground (arith, h, e, f)) in
            (v, ap (λ k. some k) (sym q))
      ]
    ]

    AllNamed-all :
        (Q R : ℕ → Type 0) (d : List (DuplicateKey × String))
        → ((j : ℕ) → Q j → R j)
        → AllNamed Q ms d
        → AllNamed R ms d
    AllNamed-all Q R [] f h = tt
    AllNamed-all Q R (e ∷ d) f h = ((h.0.0, f h.0.0.index h.0.1), AllNamed-all Q R d f h.1)

    All-second : (Q : ℕ → Type 0) (u : HistoryUnit) (i : ℕ) → All Q u → get_elem? u 1 ≡ some i → Q i
    All-second Q [] i h e = absurd (ground (arith, e))
    All-second Q (j ∷ []) i h e = absurd (ground (arith, e))
    All-second Q (j ∷ k ∷ u) i h e = subst Q (ground (arith, e)) h.1.0

    pub units-Sound :
        (count_messages : List (Message ℕ) → ℕ) (protected : ℕ) (us : List HistoryUnit)
        (s : Pruning)
        → Ordered us
        → Sound count_text min_output_tokens ms protected us s
        → Sound count_text min_output_tokens ms protected []
            (prune_units json_object count_text count_messages min_output_tokens protected ms us s)
    unfolding prune_units
    units-Sound count_messages protected [] s o h = h
    units-Sound count_messages protected (u ∷ us) s o h =
        units-Sound count_messages protected us _ o.1 (
          pair-Sound ms protected us (pair_of json_object ms u) s (λ p e. (pair_of-Valid u p e).0)
            (record {
              pruned = h.pruned;
              names = AllNamed-all (Above (u ∷ us)) (Above us) s.latest (λ j a. a.1) h.names;
            })
            (λ p e.
              let q = (pair_of-Valid u p e).1 in
              (
                AllNamed-all (Above (u ∷ us)) (λ j. p.index < j) s.latest
                    (λ j a. All-second (λ i. i < j) u p.index a.0 q) h.names,
                All-second (Above us) u p.index o.0 q,
              )))
