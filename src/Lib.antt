-- ===== src/Lib.antt =====
-- A verification library of the core of forge-agent, a coding agent that works on a repository.
--
-- The program: `Agent.run` (agent/core.py) asks a model for an action in each step, runs tools
-- through `ToolExecutor` (harness/executor.py), watches for loops with `LoopDetector`
-- (agent/loop_detector.py), trims the history of the conversation with `TokenBudget`
-- (context/token_budget.py) and accepts a finish only if the repository has the state that the
-- task asks for. `ToolExecutor` stands on the tool registry (tools/base.py), the hooks
-- (harness/hooks.py) and the permission check (harness/permission.py). `TaskEngine`
-- (task/engine.py) hands tasks with dependencies out to several workers, `ApiTaskStore`
-- (entry/api_store.py) keeps the tasks that the API takes, and `AgentBus` (ipc/bus.py) carries
-- messages between them. Before a step, `TraceableCompaction` (context/compaction.py) may give the
-- model a view of the history in place of the history: with old tool outputs pruned
-- (context/tool_pruning.py), or with its old part summarised. A chat keeps its state between runs in
-- a session (agent/session.py), which `JsonChatSessionStore` (agent/session_store.py) saves.
-- `orchestrate_run` (agent/orchestrate.py) makes a task, claims it, runs the agent in a git worktree
-- (runtime/worktree.py), which is then removed or retained, and accounts the task.
--
-- The files:
--   Base              names, tests, lists, results and texts that the others share
--   Task.Tables       the rows of task/engine.py and its SQL statements
--   Task.Engine       one function per method of TaskEngine; `serve` is one request to it
--   Task.Rows         lemmas on rows
--   Agent.Types       agent/task.py: actions, observations, results
--   Agent.LoopDetector  LoopDetector; `observe` is its one operation
--   Agent.Retry       Agent._call_with_retry
--   Agent.Memory      the local variables of Agent.run, its log and what the outside answers
--   Agent.Completion  the guard on a finish, the actions that finish and give up
--   Agent.ToolTurn    the action that calls a tool
--   Agent.Core        the step and the loop of Agent.run
--   Agent.Session     the state of a session; Reading has from_dict, Writing has to_dict
--   Agent.SessionStore  create, save and load of the store over its files
--   Agent.Orchestrate  orchestrate_run; Run has its end and the whole
--   Tools.Registry    ToolRegistry and the check of arguments
--   Harness.Hooks     Hooks; the executor has the callbacks of its events as lists
--   Harness.Paths     the functions of os.path that the permission check calls
--   Harness.Permission  PermissionManager, with the patterns of tools/shell_tool.py
--   Harness.Exec      what a call of the executor does and how it ends
--   Harness.Executor  ToolExecutor.execute, a stage for each part of it
--   Entry.ApiStore    ApiTaskStore of entry/api_store.py over its one table
--   Llm.Usage, Llm.Errors  llm/usage.py and the classification of llm/errors.py
--   Context.Budget    TokenBudget.__init__, default_plan, history_limit_for_request
--   Context.Trim      trim_to and _trim_prefix
--   Context.History   history_units, recent_history_units and the history that is built
--   Context.Selection _select_units_dp with _store_state and _prune_states
--   Context.Trimming  trim_history and _trim_first_message
--   Context.Conversation  ConversationHistory
--   Context.Evidence  the calls and results that the messages of a history show
--   Context.Markers, Context.Pruning  DeterministicToolPruner
--   Context.Compaction  TraceableCompaction; Call has its __call__, a stage for each part
--   Ipc.Bus           AgentBus with the queues that its subscribers hold
--   Runtime.Worktree  names and the output of git; Session and Closing have WorktreeSession
-- The modules below each of these hold its theorems, and the modules called Examples run the
-- definitions on concrete values.
--
-- State: the tables of the task engine and of the API are lists of rows in the order of insertion;
-- a method takes the tables and returns them with its value or its exception. The detector, the
-- memory of a run and the progress of a call are records. `Agent.run` takes what the outside
-- answers as a function from the step to a record (each poll of the cancel flag, each answer of the
-- model, the executor, each look at the repository), so that a theorem holds for all that the
-- outside may do. The bus holds all queues that were ever made, by number, and its table names
-- them, so that a queue stays with its subscriber after it left. The session store is the list of
-- the files of its directory; a copy of a session is a value, so two copies of one session can both
-- be saved. The executor polls its cancel flag as a function from the number of the poll, for the
-- same reason.
--
-- Loops: the steps of a run and the tries of a call are ranges, so the number of rounds is the
-- argument of the recursion. The binary searches of the trimming take as many rounds as the range
-- is long, which is enough since each round makes it shorter (Context.Trim.Limits.search-IsEdge
-- has this as its hypothesis and is used at that number). All other loops go over lists.
--
-- Parameters: the tools, hooks and confirm callbacks, the backend, case folding, the working
-- directory, the counters of tokens, the fingerprints of actions, observations and
-- repositories, identifiers, times and digests, the parsers of numbers and of JSON, the redaction
-- of one text, the processes of git, the summariser and the text that is rendered of its answer.
-- The numbers are natural: token counts, steps and delays are never negative in the code that is
-- modelled, and a delay is a number of some unit of time. The shares of the plan are exact
-- hundredths.
--
-- Not modelled: processes, files, git, HTTP and SQLite themselves, the repository map and its cache
-- in the agent, structured summaries, the text of prompts, the log file, the command line and the
-- API, the evaluation scripts.
pub mod Base
pub mod Task
pub mod Agent
pub mod Tools
pub mod Harness
pub mod Llm
pub mod Context
pub mod Entry
pub mod Ipc
pub mod Runtime
