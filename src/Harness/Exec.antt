-- ===== src/Harness/Exec.antt =====
-- harness/executor.py: what a call of `ToolExecutor.execute` does to the outside, as explicit state, and
-- the ways in which it ends.
use forge_agent.Base.{ℕ, String, Option, none, some, List, [], ◌∷◌, ◌++◌, Exn}
use forge_agent.Tools.Registry.{ToolResult}

-- What the executor has done that the outside can see, in order.
pub data Effect : Type 0 where
  pre_hooks permission_check observer confirm_prompt tool_run post_hooks : Effect

pub record Progress : Type 0 where
  pub polls : ℕ
  pub effects : List Effect

-- ToolExecutionCanceled and ToolExecutorInfrastructureError carry their phase.
pub data Outcome (A : Type 0) : Type 0 where
  done : A → Outcome A
  canceled : String → Outcome A
  broken : String → Exn → Outcome A

abbrev pub Exec : Type 0 → Type 0
Exec A = Progress → Outcome A × Progress

abbrev pub continue : {A B : Type 0} → Outcome A → (A → Exec B) → Exec B
continue (done a) f s = f a s
continue (canceled phase) f s = (canceled phase, s)
continue (broken phase e) f s = (broken phase e, s)

infixl 5 ◌>>=◌ ◌>>◌
abbrev pub ◌>>=◌ : {A B : Type 0} → Exec A → (A → Exec B) → Exec B
◌>>=◌ m f s = let (r, s') = m s in continue r f s'

abbrev pub ◌>>◌ : {B : Type 0} → Exec (Unit {0}) → Exec B → Exec B
m >> n = m >>= λ _. n

abbrev pub pure : {A : Type 0} → A → Exec A
pure a s = (done a, s)

abbrev pub halt : {A : Type 0} → Outcome A → Exec A
halt r s = (r, s)

abbrev pub emit : Effect → Exec (Unit {0})
emit x s = (done tt, record s { effects = s.effects ++ x ∷ [] })

-- `return` before the end: `some r` returns `r`, `none` goes on
abbrev pub unless_returned : Exec (Option ToolResult) → Exec ToolResult → Exec ToolResult
unless_returned m rest = m >>= elim [ some r ↦ pure r | none ↦ rest ]
