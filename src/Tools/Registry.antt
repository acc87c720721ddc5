-- ===== src/Tools/Registry.antt =====
-- tools/base.py: tool results, the check of a call's arguments against the schema of its tool, and
-- `ToolRegistry`. A tool is what it declares and a function from its arguments; it may raise.
pub mod Checks
pub mod Examples
use forge_agent.Base.{
  ℕ, String, Bool, true, false, not, ◌||◌, Option, none, some, List, [], ◌∷◌, ◌++◌, map, str_eq,
  if◌then◌else◌, select, Result, ok, err, Exn, Attempt, concat, join,
}

-- ToolErrorType
pub data ToolErrorType : Type 0 where
  unknown_tool invalid_arguments permission_denied timeout tool_execution infrastructure :
      ToolErrorType
  hook_blocked hook_failed : ToolErrorType

pub record ToolResult : Type 0 where
  pub success : Bool
  pub output : String
  pub error : Option String
  pub error_type : Option ToolErrorType
  pub diagnostics : List String

-- A JSON value, as the arguments of a call hold it.
mutual
  pub data Value : Type 0 where
    null : Value
    boolean : Bool → Value
    integer : Bool → ℕ → Value
    real : String → Value
    string : String → Value
    array : Items → Value
    object : Fields → Value

  pub data Items : Type 0 where
    nil : Items
    cons : Value → Items → Items

  pub data Fields : Type 0 where
    end : Fields
    field : String → Value → Fields → Fields

-- _matches_json_type: a `bool` is no integer and no number; an unknown type name fits all
pub matches_json_type : Value → String → Bool
matches_json_type v expected =
    if str_eq expected "integer"
    then elim v [ integer s n ↦ true | _ ↦ false ]
    else if str_eq expected "number"
    then elim v [ integer s n ↦ true | real r ↦ true | _ ↦ false ]
    else if str_eq expected "null"
    then elim v [ null ↦ true | _ ↦ false ]
    else if str_eq expected "string"
    then elim v [ string s ↦ true | _ ↦ false ]
    else if str_eq expected "boolean"
    then elim v [ boolean b ↦ true | _ ↦ false ]
    else if str_eq expected "object"
    then elim v [ object fs ↦ true | _ ↦ false ]
    else if str_eq expected "array"
    then elim v [ array xs ↦ true | _ ↦ false ]
    else true

-- The parts of a parameter schema that the check reads: the names under `required`, and under
-- `properties` the `type` of a property, if it is a text.
pub record Schema : Type 0 where
  pub required : List String
  pub properties : List (String × Option String)

abbrev pub has_field : String → Fields → Bool
has_field k end = false
has_field k (field j v fs) = str_eq j k || has_field k fs

abbrev pub get_field : String → Fields → Option Value
get_field k end = none
get_field k (field j v fs) = if str_eq j k then some v else get_field k fs

abbrev pub property_type : String → List (String × Option String) → Option String
property_type k [] = none
property_type k ((j, t) ∷ ps) = if str_eq j k then t else property_type k ps

abbrev pub field_fits : Schema → String → Value → Bool
field_fits schema k v = elim (property_type k schema.properties) [
  | none ↦ true
  | some t ↦ matches_json_type v t
]

abbrev pub or_empty : Option String → String
or_empty none = ""
or_empty (some t) = t

-- for name, value in params.items()
unfoldable pub first_misfit : Schema → Fields → Option String
first_misfit schema end = none
first_misfit schema (field k v fs) =
    if field_fits schema k v
    then first_misfit schema fs
    else some (
        concat
          ("Argument '" ∷ k ∷ "' must be " ∷ or_empty (property_type k schema.properties) ∷ []))

-- _validate_tool_params
unfoldable pub validate_tool_params : Value → Schema → Option String
unfolding first_misfit
validate_tool_params (object params) schema =
    elim (select (λ k. not (has_field k params)) schema.required) [
      | [] ↦ first_misfit schema params
      | k ∷ ks ↦ some (concat ("Missing required argument(s): " ∷ join ", " (k ∷ ks) ∷ []))
    ]
validate_tool_params _ schema = some "Tool arguments must be an object"

pub record Tool : Type 0 where
  pub name : String
  pub parameters_schema : Schema
  pub run : Value → Attempt ToolResult

-- `_tools`, in the order of registration; each tool stands under its name
abbrev pub Registry : Type 0
Registry = List Tool

unfoldable pub find_tool : String → Registry → Option Tool
find_tool k [] = none
find_tool k (t ∷ ts) = if str_eq t.name k then some t else find_tool k ts

pub register : Tool → Registry → Result Exn Registry
unfolding find_tool
register t ts = elim (find_tool t.name ts) [
  | some u ↦ err (record {
    class_name = "ValueError";
    message = concat ("Tool '" ∷ t.name ∷ "' is already registered." ∷ []);
  })
  | none ↦ ok (ts ++ t ∷ [])
]

abbrev pub failure : String → ToolErrorType → ToolResult
failure message kind = record {
  success = false;
  output = "";
  error = some message;
  error_type = some kind;
  diagnostics = [];
}

-- `", ".join(self._tools) or "none"`
abbrev available : Registry → String
available ts =
    let names = join ", " (map (λ (u : Tool). u.name) ts) in
    if str_eq names "" then "none" else names

unfoldable pub validate_tool_call : Registry → String → Value → Option ToolResult
unfolding find_tool
validate_tool_call ts name params = elim (find_tool name ts) [
  | none ↦ some (
      failure (concat ("Unknown tool '" ∷ name ∷ "'. Available tools: " ∷ available ts ∷ []))
        unknown_tool)
  | some t ↦ elim (validate_tool_params params t.parameters_schema) [
    | none ↦ none
    | some message ↦ some (failure message invalid_arguments)
  ]
]

abbrev caught : String → Attempt ToolResult → ToolResult
caught name (ok r) = r
caught name (err e) =
    failure (concat ("Tool '" ∷ name ∷ "' raised an unexpected error: " ∷ e.message ∷ []))
      tool_execution

-- `self._tools[name]` finds the tool wherever the check has passed; the empty case is not reached.
unfoldable pub execute_tool : Registry → String → Value → ToolResult
unfolding validate_tool_call
execute_tool ts name params = elim (validate_tool_call ts name params) [
  | some invalid ↦ invalid
  | none ↦ elim (find_tool name ts) [
    | none ↦ failure "" unknown_tool
    | some t ↦ caught name (t.run params)
  ]
]

-- ObservationStatus
pub data ObservationStatus : Type 0 where
  success error timed_out : ObservationStatus

abbrev is_timeout : Option ToolErrorType → Bool
is_timeout (some timeout) = true
is_timeout _ = false

-- The status that `ToolResult.to_observation` gives.
unfoldable pub observation_status : ToolResult → ObservationStatus
observation_status r =
    if r.success then success else if is_timeout r.error_type then timed_out else error
