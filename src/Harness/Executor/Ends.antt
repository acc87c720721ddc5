-- ===== src/Harness/Executor/Ends.antt =====
-- How a call of `ToolExecutor.execute` ends, and how the ends of its stages combine.
use forge_agent.Base.{
  ℕ, suc, ◌≡◌, ◌∙◌, ◌⊎◌, inl, inr, Bool, true, false, Option, none, some, [], ◌∷◌, arith,
  count_where, count_where-append,
}
use forge_agent.Tools.Registry.{ToolResult}
use forge_agent.Harness.Exec.{
  Effect, tool_run, Progress, Outcome, done, canceled, broken, Exec, continue, pure, emit, ◌>>=◌,
  ◌>>◌, unless_returned,
}

abbrev pub is_tool_run : Effect → Bool
is_tool_run tool_run = true
is_tool_run _ = false

-- How often the tool was run.
abbrev pub runs : Progress → ℕ
runs s = count_where is_tool_run s.effects

-- How a check that may return early ends: it has run no tool, what it returns early is a failure,
-- and where it goes on `P` holds.
abbrev pub Passes : Type 0 → Outcome (Option ToolResult) → Type 0
Passes P (done none) = P
Passes P (done (some r)) = r.success ≡ false
Passes P (canceled phase) = Unit
Passes P (broken phase e) = Unit

abbrev pub Guards : Type 0 → Exec (Option ToolResult) → Progress → Type 0
Guards P m s = (runs (m s).1 ≡ runs s) × Passes P (m s).0

abbrev pub Fails : Outcome ToolResult → Type 0
Fails (done r) = r.success ≡ false
Fails (canceled phase) = Unit
Fails (broken phase e) = Unit

-- How a call ends: without a run of the tool, and then without success, or with one run and a
-- result of which `Q` holds.
abbrev pub Ends : (ToolResult → Type 0) → ℕ → Outcome ToolResult × Progress → Type 0
Ends Q n (o, s) =
    ((runs s ≡ n) × Fails o) ⊎ ((runs s ≡ suc n) × (r : ToolResult) × (o ≡ done r) × Q r)

-- The two results agree in all but the error type of a failure and the diagnostics.
abbrev pub SameResult : ToolResult → ToolResult → Type 0
SameResult r t = (r.success ≡ t.success) × (r.output ≡ t.output) × (r.error ≡ t.error)

-- A step after the run of the tool: it runs no tool and returns the result `r`.
abbrev pub Returns : ToolResult → Progress → Outcome ToolResult × Progress → Type 0
Returns r s (o, u) = (runs u ≡ runs s) × (t : ToolResult) × (o ≡ done t) × SameResult t r

module _ (P : Type 0) (Q : ToolResult → Type 0) where
  pub go_on :
      (o : Outcome (Option ToolResult)) (s : Progress) (n : ℕ) (rest : Exec ToolResult)
      → runs s ≡ n
      → Passes P o
      → Ends Q (runs s) (rest s)
      → Ends (λ r. P × Q r) n (continue o (elim [ some r ↦ pure r | none ↦ rest ]) s)
  go_on (done none) s n rest e p (inl (k, f)) = inl (omega (arith, k, e), f)
  go_on (done none) s n rest e p (inr (k, r, o, q)) = inr (omega (arith, k, e), r, o, (p, q))
  go_on (done (some r)) s n rest e p h = inl (e, p)
  go_on (canceled phase) s n rest e p h = inl (e, tt)
  go_on (broken phase x) s n rest e p h = inl (e, tt)

  pub unless_returned-Ends :
      (m : Exec (Option ToolResult)) (rest : Exec ToolResult) (s : Progress)
      → Guards P m s
      → ((t : Progress) → Ends Q (runs t) (rest t))
      → Ends (λ r. P × Q r) (runs s) (unless_returned m rest s)
  unless_returned-Ends m rest s g h = go_on (m s).0 (m s).1 (runs s) rest g.0 g.1 (h (m s).1)

pub bind-Guards :
    {A : Type 0} (P : Type 0) (m : Exec A) (f : A → Exec (Option ToolResult)) (s : Progress)
    → runs (m s).1 ≡ runs s
    → ((a : A) (t : Progress) → Guards P (f a) t)
    → Guards P (m >>= f) s
bind-Guards {A = A} P m f s e h = go (m s).0 (m s).1 e
  where
    go :
        (o : Outcome A) (t : Progress)
        → runs t ≡ runs s
        → (runs (continue o f t).1 ≡ runs s) × Passes P (continue o f t).0
    go (done a) t k = ((h a t).0 ∙ k, (h a t).1)
    go (canceled phase) t k = (k, tt)
    go (broken phase x) t k = (k, tt)

-- an effect other than a run of the tool
pub emit-runs : (e : Effect) (s : Progress) → is_tool_run e ≡ false → runs (emit e s).1 ≡ runs s
emit-runs e s h = ground (arith, count_where-append is_tool_run s.effects (e ∷ []))

pub weaken :
    {P Q : Type 0} (m : Exec (Option ToolResult)) (s : Progress)
    → (P → Q)
    → Guards P m s
    → Guards Q m s
weaken {P = P} {Q = Q} m s f g = (g.0, go (m s).0 g.1)
  where
    go : (o : Outcome (Option ToolResult)) → Passes P o → Passes Q o
    go (done none) p = f p
    go (done (some r)) p = p
    go (canceled phase) p = tt
    go (broken phase e) p = tt

pub bind-Ends :
    (Q : ToolResult → Type 0) (m : Exec (Unit {0})) (rest : Exec ToolResult) (s : Progress)
    → runs (m s).1 ≡ runs s
    → ((t : Progress) → Ends Q (runs t) (rest t))
    → Ends Q (runs s) ((m >> rest) s)
bind-Ends Q m rest s e h = go (m s).0 (m s).1 e (h (m s).1)
  where
    go :
        (o : Outcome (Unit {0})) (t : Progress)
        → runs t ≡ runs s
        → Ends Q (runs t) (rest t)
        → Ends Q (runs s) (continue o (λ _. rest) t)
    go (done u) t k (inl (l, f)) = inl (l ∙ k, f)
    go (done u) t k (inr (l, r, q, z)) = inr (omega (arith, l, k), r, q, z)
    go (canceled phase) t k i = inl (k, tt)
    go (broken phase y) t k i = inl (k, tt)
