-- ===== src/Entry/ApiStore.antt =====
-- entry/api_store.py: `ApiTaskStore` over its one table. Identifiers, times and the JSON texts of
-- options and artifacts are arguments.
pub mod Started
mod Examples
use forge_agent.Base.{
  ℕ, zero, suc, String, Bool, true, false, not, ◌&&◌, ◌||◌, Option, none, some, List, [], ◌∷◌, ◌++◌,
  str_eq, leb, ◌==◌, if◌then◌else◌, any, count_where, take, Result, ok, err,
}

pub data ApiStatus : Type 0 where
  queued running succeeded failed cancel_requested canceled : ApiStatus

pub record ApiTask : Type 0 where
  pub id : String
  pub repo_path : String
  pub prompt : String
  pub status : ApiStatus
  pub created_at : ℕ
  pub started_at : Option ℕ
  pub finished_at : Option ℕ
  pub result_summary : Option String
  pub error : Option String
  pub log_path : Option String
  pub forge_task_id : Option String
  pub options_json : String
  pub artifact_json : Option String

-- ApiTaskNotFound, the ValueError of `mark_finished`, and sqlite3.IntegrityError
pub data ApiError : Type 0 where
  task_not_found : String → ApiError
  invalid_status : ApiError
  integrity : ApiError

-- the table, in the order of insertion
abbrev pub Table : Type 0
Table = List ApiTask

abbrev pub Response : Type 0 → Type 0
Response A = Table × Result ApiError A

abbrev pub is_queued : ApiStatus → Bool
is_queued queued = true
is_queued _ = false

abbrev pub is_active : ApiStatus → Bool
is_active queued = true
is_active running = true
is_active cancel_requested = true
is_active _ = false

abbrev pub is_finished : ApiStatus → Bool
is_finished succeeded = true
is_finished failed = true
is_finished canceled = true
is_finished _ = false

abbrev pub coalesce {ℓ} : {A : Type ℓ} → Option A → Option A → Option A
coalesce none b = b
coalesce (some a) b = some a

-- UPDATE api_tasks SET … WHERE …
pub update_rows : (ApiTask → Bool) → (ApiTask → ApiTask) → Table → Table
update_rows p f [] = []
update_rows p f (t ∷ ts) = (if p t then f t else t) ∷ update_rows p f ts

-- _exists
pub exists : String → Table → Bool
exists k s = any (λ t. str_eq t.id k) s

pub find_row : String → Table → Option ApiTask
find_row k [] = none
find_row k (t ∷ ts) = if str_eq t.id k then some t else find_row k ts

abbrev pub new_task : String → ℕ → String → String → String → ApiTask
new_task k now repo_path prompt options = record {
  id = k;
  repo_path = repo_path;
  prompt = prompt;
  status = queued;
  created_at = now;
  started_at = none;
  finished_at = none;
  result_summary = none;
  error = none;
  log_path = none;
  forge_task_id = none;
  options_json = options;
  artifact_json = none;
}

pub create_task : String → ℕ → String → String → String → Table → Response String
unfolding exists
create_task k now repo_path prompt options s =
    if exists k s
    then (s, err integrity)
    else (s ++ new_task k now repo_path prompt options ∷ [], ok k)

abbrev pub startable : String → ApiTask → Bool
startable k t = str_eq t.id k && is_queued t.status

abbrev pub as_running : ℕ → ApiTask → ApiTask
as_running now t = record t { status = running; started_at = coalesce t.started_at (some now) }

pub mark_running : String → ℕ → Table → Response Bool
unfolding update_rows exists
mark_running k now s =
    let s' = update_rows (startable k) (as_running now) s in
    if count_where (startable k) s == 0
    then (if exists k s then (s', ok false) else (s', err (task_not_found k)))
    else (s', ok true)

-- `cur.rowcount == 0` after an update of the rows with this identifier
abbrev pub updated : String → (ApiTask → ApiTask) → Table → Response (Unit {0})
updated k f s =
    let s' = update_rows (λ t. str_eq t.id k) f s in
    if count_where (λ t. str_eq t.id k) s == 0 then (s', err (task_not_found k)) else (s', ok tt)

pub set_runtime_info : String → Option String → Option String → Table → Response (Unit {0})
unfolding update_rows
set_runtime_info k log_path forge_task_id s =
    updated k
      (λ t. record t {
        log_path = coalesce log_path t.log_path;
        forge_task_id = coalesce forge_task_id t.forge_task_id;
      })
      s

-- what the caller of `mark_finished` gives beside the status
pub record FinishInfo : Type 0 where
  pub result_summary : Option String
  pub error : Option String
  pub log_path : Option String
  pub forge_task_id : Option String
  pub artifact : Option String

abbrev pub as_finished : ApiStatus → ℕ → FinishInfo → ApiTask → ApiTask
as_finished status now i t = record t {
  status = status;
  finished_at = some now;
  result_summary = i.result_summary;
  error = i.error;
  log_path = coalesce i.log_path t.log_path;
  forge_task_id = coalesce i.forge_task_id t.forge_task_id;
  artifact_json = coalesce i.artifact t.artifact_json;
}

pub mark_finished : String → ApiStatus → ℕ → FinishInfo → Table → Response (Unit {0})
unfolding update_rows
mark_finished k status now i s =
    if is_finished status then updated k (as_finished status now i) s else (s, err invalid_status)

pub mark_canceled : String → ℕ → FinishInfo → Table → Response (Unit {0})
unfolding mark_finished
mark_canceled k now i s = mark_finished k canceled now (record i { error = none }) s

cancel_row : String → ℕ → ApiStatus → Table → Response ApiStatus
unfolding update_rows
cancel_row k now queued s = (
  update_rows (λ t. str_eq t.id k)
      (λ t. record t {
        status = canceled;
        finished_at = some now;
        result_summary = some "canceled before start";
        error = none;
      })
      s,
  ok canceled,
)
cancel_row k now running s = (
  update_rows (λ t. str_eq t.id k) (λ t. record t { status = cancel_requested }) s,
  ok cancel_requested,
)
cancel_row k now status s = (s, ok status)

pub request_cancel : String → ℕ → Table → Response ApiStatus
unfolding find_row cancel_row
request_cancel k now s = elim (find_row k s) [
  | none ↦ (s, err (task_not_found k))
  | some t ↦ cancel_row k now t.status s
]

pub get_task : String → Table → Response ApiTask
unfolding find_row
get_task k s = elim (find_row k s) [ none ↦ (s, err (task_not_found k)) | some t ↦ (s, ok t) ]

-- ORDER BY created_at DESC
abbrev insert_newest : ApiTask → Table → Table
insert_newest t [] = t ∷ []
insert_newest t (u ∷ us) =
    let rest = insert_newest t us in if leb u.created_at t.created_at then t ∷ u ∷ us else u ∷ rest

abbrev newest_first : Table → Table
newest_first [] = []
newest_first (t ∷ ts) = insert_newest t (newest_first ts)

pub list_tasks : ℕ → Table → Table
list_tasks limit s = take limit (newest_first s)

pub count_active : Table → ℕ
count_active s = count_where (λ t. is_active t.status) s

pub data ApiRequest : Type 0 where
  create : String → ℕ → String → String → String → ApiRequest
  start : String → ℕ → ApiRequest
  describe : String → Option String → Option String → ApiRequest
  finish : String → ApiStatus → ℕ → FinishInfo → ApiRequest
  cancel : String → ℕ → ApiRequest

pub serve : ApiRequest → Table → Table
unfolding create_task mark_running set_runtime_info mark_finished request_cancel
serve (create k now repo_path prompt options) s = (create_task k now repo_path prompt options s).0
serve (start k now) s = (mark_running k now s).0
serve (describe k log_path forge_task_id) s = (set_runtime_info k log_path forge_task_id s).0
serve (finish k status now i) s = (mark_finished k status now i s).0
serve (cancel k now) s = (request_cancel k now s).0
