-- ===== src/Agent/SessionStore.antt =====
-- agent/session_store.py: `JsonChatSessionStore` over its files. The lock of a session makes the check
-- of the revision and the replacement of the file one step. The calls of the operating system succeed;
-- the redaction of one text is a function of it. Identifiers have no character that glob reads.
pub mod Conflicts
pub mod Reload
mod Examples
use forge_agent.Base.{
  ℕ, zero, suc, ◌+◌, String, Bool, true, false, not, ◌&&◌, ◌||◌, Option, none, some, List, [], ◌∷◌,
  ◌++◌, str_eq, ◌==◌, if◌then◌else◌, Result, ok, err, map, leb,
}
use forge_agent.Llm.Usage.{unused}
use forge_agent.Agent.Session.{
  JsonValue, null, boolean, num, text, arr, obj, JsonItems, nil, cons, JsonFields, end, field, Dict,
  lookup, get_or, PyError, type_error, value_error, Raw, RawSession, ChatSessionState,
}
use forge_agent.Agent.Session.Reading.{SessionError, format_error, uncaught, int_of, from_dict}
use forge_agent.Agent.Session.Writing.{to_dict}

-- repo_key / session_id / "state.json" below the root
abbrev pub SessionPath : Type 0
SessionPath = String × String

abbrev pub path_eq : SessionPath → SessionPath → Bool
path_eq (k, i) (l, j) = str_eq k l && str_eq i j

-- what a file holds: no JSON, another JSON value than an object, or an object
pub data Content : Type 0 where
  unreadable : Content
  not_object : Content
  object : RawSession → Content

abbrev pub Files : Type 0
Files = List (SessionPath × Content)

-- the exceptions of the store; `unexpected` is one that it lets pass
pub data StoreError : Type 0 where
  not_found format conflict : StoreError
  unexpected : PyError → StoreError

pub content_at : SessionPath → Files → Option Content
content_at p [] = none
content_at p ((q, c) ∷ fs) = if path_eq q p then some c else content_at p fs

-- os.replace(tmp_path, path)
pub replace : SessionPath → Content → Files → Files
replace p c [] = (p, c) ∷ []
replace p c ((q, d) ∷ fs) = if path_eq q p then (q, c) ∷ fs else (q, d) ∷ replace p c fs

-- state_path; a path is joined from texts only
pub state_path : ChatSessionState → Option SessionPath
state_path s = elim s.repo_key [
  | text k ↦ elim s.session_id [ text i ↦ some (k, i) | _ ↦ none ]
  | _ ↦ none
]

module _ (int_of_text : String → Option ℕ) where
  -- _disk_revision
  pub disk_revision : Option Content → Result StoreError ℕ
  unfolding int_of
  disk_revision none = ok 0
  disk_revision (some unreadable) = err format
  disk_revision (some not_object) = err format
  disk_revision (some (object raw)) =
      elim (int_of int_of_text (get_or (num 0) (lookup "revision" raw.fields))) [
        | ok n ↦ ok n
        | err e ↦ err format
      ]

-- the comparison of a number with a value; True is 1
abbrev pub equals : ℕ → JsonValue → Bool
equals n (num m) = n == m
equals n (boolean b) = n == (if b then 1 else 0)
equals n _ = false

abbrev pub map_option {ℓ κ} : {A : Type ℓ} {B : Type κ} → (A → B) → Option A → Option B
map_option f none = none
map_option f (some a) = some (f a)

module _ (redact_text : String → String) where
  -- _redact, with the keys of objects as they are
  unfoldable mutual
    pub redact : JsonValue → JsonValue
    redact (text s) = text (redact_text s)
    redact (arr xs) = arr (redact_items xs)
    redact (obj fs) = obj (redact_fields fs)
    redact null = null
    redact (boolean b) = boolean b
    redact (num n) = num n

    pub redact_items : JsonItems → JsonItems
    redact_items nil = nil
    redact_items (cons v xs) = cons (redact v) (redact_items xs)

    pub redact_fields : JsonFields → JsonFields
    redact_fields end = end
    redact_fields (field k v fs) = field k (redact v) (redact_fields fs)

  pub redact_dict : Dict → Dict
  redact_dict [] = []
  redact_dict ((k, v) ∷ d) = (k, redact v) ∷ redact_dict d

  pub redact_round : Raw → Raw
  unfolding redact_dict
  redact_round r = record {
    fields = redact_dict r.fields;
    usage = map_option (map_option redact_dict) r.usage;
  }

  pub redact_session : RawSession → RawSession
  unfolding redact_dict redact_round
  redact_session r = record {
    version = map_option redact r.version;
    fields = redact_dict r.fields;
    usage = map_option (map_option redact_dict) r.usage;
    pending_round = map_option (map_option redact_dict) r.pending_round;
    rounds = map_option (map redact_round) r.rounds;
  }

-- payload["revision"] = next_revision
pub set_key : String → JsonValue → Dict → Dict
set_key k v [] = (k, v) ∷ []
set_key k v ((j, w) ∷ d) = if str_eq j k then (j, v) ∷ d else (j, w) ∷ set_key k v d

-- what a save returns: the files, the object it was given, and None or an exception
pub record Saved : Type 0 where
  pub files : Files
  pub state : ChatSessionState
  pub outcome : Result StoreError (Unit {0})

abbrev pub count_files : String → Files → ℕ
count_files i [] = 0
count_files i (((k, j), c) ∷ fs) = (if str_eq j i then 1 else 0) + count_files i fs

-- the first file of the session with this identifier
abbrev pub find_session : String → Files → Option Content
find_session i [] = none
find_session i (((k, j), c) ∷ fs) = if str_eq j i then some c else find_session i fs

module _ (int_of_text : String → Option ℕ) (redact_text : String → String) where
  -- the JSON text that is written, for the state and its next revision
  pub payload : ChatSessionState → ℕ → RawSession
  unfolding redact_session set_key
  payload s next =
      let raw = to_dict s in
      redact_session redact_text (record raw { fields = set_key "revision" (num next) raw.fields })

  -- the statements under the lock
  pub commit : Files → ChatSessionState → SessionPath → Result StoreError ℕ → Saved
  unfolding payload replace
  commit files s p (err e) = record { files = files; state = s; outcome = err e }
  commit files s p (ok disk) =
      if equals disk s.revision
      then record {
        files = replace p (object (payload s (disk + 1))) files;
        state = record s { revision = num (disk + 1) };
        outcome = ok tt;
      }
      else record { files = files; state = s; outcome = err conflict }

  pub save_at : Files → ChatSessionState → Option SessionPath → Saved
  unfolding commit disk_revision content_at
  save_at files s none = record { files = files; state = s; outcome = err (unexpected type_error) }
  save_at files s (some p) = commit files s p (disk_revision int_of_text (content_at p files))

  -- save, at the time `now`
  pub save : String → Files → ChatSessionState → Saved
  unfolding save_at state_path
  save now files s =
      let touched = record s { updated_at = text now } in save_at files touched (state_path touched)

  -- create, for a new identifier and the resolved path and key of a repository
  pub create : String → String → String → String → Files → Saved
  unfolding save
  create now i repo_path repo_key files = save now files (record {
    session_id = text i;
    repo_path = text repo_path;
    repo_key = text repo_key;
    created_at = text now;
    updated_at = text now;
    title = null;
    history = arr nil;
    round_count = num 0;
    total_steps = num 0;
    total_tokens = num 0;
    usage = unused;
    repo_revision = text "";
    pending_round = none;
    rounds = [];
    compaction_checkpoints = arr nil;
    revision = num 0;
    version = num 2;
  })

  pub of_session_error : Result SessionError ChatSessionState → Result StoreError ChatSessionState
  of_session_error (ok s) = ok s
  of_session_error (err format_error) = err format
  of_session_error (err (uncaught e)) = err (unexpected e)

  -- _load_path
  pub load_content : Option Content → Result StoreError ChatSessionState
  unfolding of_session_error
  load_content (some (object raw)) = of_session_error (from_dict int_of_text raw)
  load_content _ = err format

  pub load : String → Files → Result StoreError ChatSessionState
  unfolding load_content
  load i files =
      if count_files i files == 0
      then err not_found
      else if leb (count_files i files) 1
      then load_content (find_session i files)
      else err format
