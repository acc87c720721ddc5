-- ===== src/Tools/Registry/Examples.antt =====
-- Runs of `ToolRegistry` and uses of its theorems.
use forge_agent.Base.{◌≡◌, ◌↔◌, refl, true, none, some, [], ◌∷◌, ok, err}
use forge_agent.Tools.Registry.{
  Value, Fields, ToolResult, string, integer, object, end, field, Schema, Tool, Registry, register,
  validate_tool_params, matches_json_type, first_misfit,
}
use forge_agent.Tools.Registry.Checks.{AllFit, HasRequired, validate_tool_params_iff}

abbrev read_schema : Schema
read_schema = record {
  required = "path" ∷ [];
  properties = ("path", some "string") ∷ ("limit", some "integer") ∷ [];
}

abbrev contents : ToolResult
contents = record {
  success = true;
  output = "text";
  error = none;
  error_type = none;
  diagnostics = [];
}

abbrev file_read : Tool
file_read = record { name = "file_read"; parameters_schema = read_schema; run = λ _. ok contents }

abbrev view : Tool
view = record {
  name = "view";
  parameters_schema = read_schema;
  run = λ _. err (record { class_name = "OSError"; message = "no such file" });
}

abbrev one_tool : Registry
one_tool = file_read ∷ []

abbrev two_tools : Registry
two_tools = file_read ∷ view ∷ []

view_registers : register view one_tool ≡ ok two_tools
unfolding register
view_registers = refl

missing_path :
    validate_tool_params (object (field "limit" (integer true 3) end)) read_schema
    ≡ some "Missing required argument(s): path"
unfolding validate_tool_params
missing_path = refl

wrong_limit :
    validate_tool_params
      (object (field "path" (string "a") (field "limit" (string "b") end)))
      read_schema
    ≡ some "Argument 'limit' must be integer"
unfolding validate_tool_params first_misfit matches_json_type
wrong_limit = refl

abbrev a_call : Value
a_call = object (field "path" (string "a") end)

validate_tool_params_iff_example :
    (validate_tool_params a_call read_schema ≡ none)
    ↔ ((fs : Fields) × (a_call ≡ object fs) × HasRequired ("path" ∷ []) fs × AllFit read_schema fs)
validate_tool_params_iff_example = validate_tool_params_iff a_call read_schema
