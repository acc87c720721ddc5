-- ===== src/Task/Engine/Examples.antt =====
-- Runs of `TaskEngine` and uses of its theorems.
use forge_agent.Base.{◌≤◌, ◌≡◌, ◌≢◌, ◌↔◌, ◌⊎◌, refl, true, some, List, [], ◌∷◌, ok, err}
use forge_agent.Task.Tables.{
  Engine, pending, completed, failed, insert_dep, insert_deps, has_dep, not_claimable,
  already_owned,
}
use forge_agent.Task.Engine.{
  Request, create, depend, claim, complete, serve, serve_all, empty, claim_task, complete_task,
}
use forge_agent.Task.Engine.Invariant.{
  IsConsistent, serve-IsConsistent, serve_all-IsConsistent, empty-IsConsistent,
}
use forge_agent.Task.Engine.Claims.{IsStartable, claim_task-ne-already_owned}
use forge_agent.Task.Engine.Unblock.{contains, complete_task_unblocks}
use forge_agent.Task.Engine.Lifecycle.{status_of, Move, serve-Move}
use forge_agent.Task.Engine.Traces.{claims_won, claims_won-le-one}
use forge_agent.Task.Engine.Refusals.{raises}
use forge_agent.Task.Engine.Cycles.{self_dependency_stuck}

abbrev two_tasks : List Request
two_tasks = create "a" 1 "first" "" [] ∷ create "b" 2 "second" "" ("a" ∷ []) ∷ []

abbrev start : Engine
start = serve_all two_tasks empty

abbrev running : Engine
running = serve_all (claim "a" "worker" ∷ []) start

start-IsConsistent : IsConsistent start
start-IsConsistent = serve_all-IsConsistent two_tasks empty empty-IsConsistent

running-IsConsistent : IsConsistent running
running-IsConsistent = serve_all-IsConsistent (claim "a" "worker" ∷ []) start start-IsConsistent

serve-IsConsistent_example : IsConsistent (serve (claim "a" "worker") start)
serve-IsConsistent_example = serve-IsConsistent (claim "a" "worker") start start-IsConsistent

claim_runs : (claim_task "a" "worker" start).1 ≡ ok true
unfolding claim_task serve_all serve insert_deps insert_dep
claim_runs = refl

claim_task-ne-already_owned_example :
    (claim_task "a" "other" running).1 ≢ err (not_claimable "a" already_owned)
claim_task-ne-already_owned_example = claim_task-ne-already_owned running-IsConsistent "a" "other"

complete_runs : (complete_task "a" running).1 ≡ ok ("b" ∷ [])
unfolding claim_task serve_all serve insert_deps insert_dep complete_task
complete_runs = refl

complete_task_unblocks_example : (contains "b" ("b" ∷ []) ≡ true) ↔ (
    IsStartable "b" (complete_task "a" running).0
    × (has_dep "b" "a" (complete_task "a" running).0.deps ≡ true))
complete_task_unblocks_example =
    complete_task_unblocks running-IsConsistent "a" ("b" ∷ []) complete_runs "b"

serve-Move_example : Move (status_of "a" running) (status_of "a" (serve (complete "a") running))
serve-Move_example = serve-Move (complete "a") running "a"

claims_won-le-one_example : claims_won "a" (claim "a" "worker" ∷ claim "a" "other" ∷ []) start ≤ 1
claims_won-le-one_example =
    claims_won-le-one (claim "a" "worker" ∷ claim "a" "other" ∷ []) "a" start-IsConsistent

completes : status_of "a" (serve (complete "a") running) ≡ some completed
unfolding claim_task serve_all serve insert_deps insert_dep complete_task
completes = refl

blocked_raises : raises (claim "b" "worker") start ≡ true
unfolding claim_task serve_all serve insert_deps insert_dep
blocked_raises = refl

waits : status_of "a" start ≡ some pending
unfolding serve_all serve insert_deps insert_dep
waits = refl

self_dependency_stuck_example :
    (status_of "a" (serve_all (depend "a" "a" ∷ claim "a" "worker" ∷ []) start) ≡ some pending)
    ⊎ (status_of "a" (serve_all (depend "a" "a" ∷ claim "a" "worker" ∷ []) start) ≡ some failed)
self_dependency_stuck_example = self_dependency_stuck (claim "a" "worker" ∷ []) start "a" waits
