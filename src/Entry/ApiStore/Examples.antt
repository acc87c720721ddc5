-- ===== src/Entry/ApiStore/Examples.antt =====
-- Requests to `ApiTaskStore`, and a use of its theorem.
use forge_agent.Base.{◌≤◌, ◌≡◌, refl, true, List, [], ◌∷◌, if◌then◌else◌}
use forge_agent.Entry.ApiStore.{
  Table, ApiRequest, new_task, exists, serve, mark_running, request_cancel, count_active,
}
use forge_agent.Entry.ApiStore.Started.{has_queued, starts_of, starts_of-le}

abbrev one_task : Table
one_task = new_task "api_1" 10 "/repo" "fix the bug" "{}" ∷ []

abbrev requests : List ApiRequest
requests =
    ApiRequest.start "api_1" 20
    ∷ ApiRequest.start "api_1" 21
    ∷ ApiRequest.cancel "api_1" 22
    ∷ ApiRequest.start "api_1" 23
    ∷ []

started_once : starts_of "api_1" requests one_task ≡ 1
unfolding serve mark_running request_cancel
started_once = refl

canceled_first : starts_of "api_1" (ApiRequest.cancel "api_1" 5 ∷ requests) one_task ≡ 0
unfolding serve mark_running request_cancel
canceled_first = refl

still_active : count_active one_task ≡ 1
unfolding count_active
still_active = refl

task_stored : exists "api_1" one_task ≡ true
unfolding exists
task_stored = refl

starts_of-le_example :
    starts_of "api_1" requests one_task ≤ (if has_queued "api_1" one_task then 1 else 0)
starts_of-le_example = starts_of-le "api_1" requests one_task task_stored
