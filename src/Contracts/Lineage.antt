-- ===== src/Contracts/Lineage.antt =====
-- Identifiers that a dependent write takes from the tool before it: `bind_ordered_output_lineage`
-- of app/tools/contracts.py.
pub mod Bound
use mathlib.Core.List.{reverse}
use google_connector_app.Prelude.{
  ℕ, String, Bool, true, false, not, ◌&&◌, ◌||◌, Option, none, some, List, [], ◌∷◌, all, codes,
  find, nonempty, str_eq, ◌==◌, if◌then◌else◌,
}
use google_connector_app.Json.{Value, Fields, text, dict, end, get, put, truthy, is_dict, fields}
use google_connector_app.Contracts.{WriteContract, Execution}

-- A call of the model's response.
pub record ToolCall : Type 0 where
  pub name : String
  pub args : Value

-- The trace of a binding; `lineage_bound` is always true.
pub record LineageTrace : Type 0 where
  pub source_tool : String
  pub target_tool : String
  pub bound_field : String

-- `re.fullmatch(r"spaces/[^/]+", …)` from a position of "spaces/" on
abbrev matches_space : List ℕ → List ℕ → Bool
matches_space [] rest = nonempty rest && all (λ c. not (c == b'/')) rest
matches_space (p ∷ prefix) [] = false
matches_space (p ∷ prefix) (c ∷ rest) = p == c && matches_space prefix rest

-- Of other values the text that Python prints does not match.
unfoldable pub is_space_name : Value → Bool
is_space_name (text t) = matches_space (codes "spaces/") (codes t)
is_space_name v = false

abbrev pub is_of : String → Execution → Bool
is_of tool e = elim e.tool [ none ↦ false | some t ↦ str_eq t tool ]

abbrev pub has_no_error : Execution → Bool
has_no_error e = is_dict e.result && not (truthy (get "error" (fields e.result)))

abbrev pub resolves_destination : Execution → Bool
resolves_destination e =
    is_of "resolve_chat_destination" e
    && is_space_name (get "name" (fields e.result))
    && has_no_error e

abbrev pub creates_sheet : Execution → Bool
creates_sheet e =
    is_of "create_google_sheet" e
    && truthy (get "spreadsheetId" (fields e.result))
    && has_no_error e

-- `{**call, "args": {**(call.get("args") or {}), field: value}}`
abbrev pub bound : ToolCall → String → Value → ToolCall
bound call field_name value = record call { args = dict (put field_name value (fields call.args)) }

abbrev pub destination_trace : LineageTrace
destination_trace = record {
  source_tool = "resolve_chat_destination";
  target_tool = "send_chat_message";
  bound_field = "space_id";
}

abbrev pub sheet_trace : LineageTrace
sheet_trace = record {
  source_tool = "create_google_sheet";
  target_tool = "write_google_sheet";
  bound_field = "spreadsheet_id";
}

-- The call with the identifier that the last execution that `serves` holds under `key`.
unfoldable pub bind_from :
    (Execution → Bool)
    → String
    → LineageTrace
    → ToolCall
    → List Execution
    → ToolCall × Option LineageTrace
bind_from serves key trace call executions = elim (find serves (reverse executions)) [
  | none ↦ (call, none)
  | some e ↦ (bound call trace.bound_field (get key (fields e.result)), some trace)
]

abbrev pub is_for : String → String → String → WriteContract → ToolCall → Bool
is_for service operation tool c call =
    str_eq c.service service && str_eq c.operation operation && str_eq call.name tool

unfoldable pub bind_ordered_output_lineage :
    Option WriteContract → ToolCall → List Execution → ToolCall × Option LineageTrace
bind_ordered_output_lineage none call executions = (call, none)
bind_ordered_output_lineage (some c) call executions =
    if is_for "chat" "send" "send_chat_message" c call
    then bind_from resolves_destination "name" destination_trace call executions
    else if is_for "sheets" "create_and_write" "write_google_sheet" c call
    then bind_from creates_sheet "spreadsheetId" sheet_trace call executions
    else (call, none)
