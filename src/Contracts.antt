-- ===== src/Contracts.antt =====
-- Write-operation contracts: app/tools/contracts.py.
pub mod Completion
pub mod Dispatch
pub mod Ordered
pub mod Lookup
pub mod Lineage
mod Tests
use google_connector_app.Prelude.{
  String, Bool, true, false, not, ◌&&◌, ◌||◌, Option, none, some, List, [], ◌∷◌, map, any, all,
  keep, find, nonempty, contains, subset, str_eq, if◌then◌else◌,
}
use google_connector_app.Json.{Value, get, truthy, is_false, is_dict, fields}

pub data CompletionMode : Type 0 where
  any_tool all_tools ordered : CompletionMode

pub record WriteContract : Type 0 where
  pub service : String
  pub operation : String
  pub required_tools : List String
  pub completion_mode : CompletionMode

-- One entry of a step's `tool_executions`; a missing key reads as `none` or `null`.
pub record Execution : Type 0 where
  pub tool : Option String
  pub result : Value

abbrev one_tool : String → String → String → WriteContract
one_tool s o t = record {
  service = s;
  operation = o;
  required_tools = t ∷ [];
  completion_mode = all_tools;
}

abbrev two_tools : String → String → String → String → WriteContract
two_tools s o t u = record {
  service = s;
  operation = o;
  required_tools = t ∷ u ∷ [];
  completion_mode = ordered;
}

-- The dict is keyed by (service, operation), which each entry repeats as its own fields.
abbrev pub write_contracts : List WriteContract
write_contracts =
    one_tool "gmail" "send" "send_gmail"
    ∷ one_tool "gmail" "reply" "reply_gmail"
    ∷ one_tool "gmail" "label" "label_gmail"
    ∷ one_tool "gmail" "trash" "trash_gmail"
    ∷ one_tool "calendar" "create" "create_calendar_event"
    ∷ one_tool "calendar" "update" "update_calendar_event"
    ∷ one_tool "calendar" "delete" "delete_calendar_event"
    ∷ one_tool "drive" "upload" "upload_drive_file"
    ∷ one_tool "drive" "share" "share_drive_file"
    ∷ one_tool "drive" "move" "move_drive_file"
    ∷ one_tool "drive" "trash" "trash_drive_file"
    ∷ one_tool "docs" "create" "create_google_doc"
    ∷ one_tool "docs" "append" "append_to_google_doc"
    ∷ one_tool "sheets" "create" "create_google_sheet"
    ∷ one_tool "sheets" "write" "write_google_sheet"
    ∷ one_tool "sheets" "append" "append_to_google_sheet"
    ∷ two_tools "sheets" "create_and_write" "create_google_sheet" "write_google_sheet"
    ∷ one_tool "tasks" "create" "create_task"
    ∷ one_tool "tasks" "complete" "complete_task"
    ∷ two_tools "chat" "send" "resolve_chat_destination" "send_chat_message"
    ∷ one_tool "meet" "create" "create_meet_space"
    ∷ []

-- `tool in WRITE_TOOLS`
unfoldable pub in_write_tools : String → Bool
in_write_tools t = any (λ c. contains c.required_tools t) write_contracts

abbrev pub has_key : String → String → WriteContract → Bool
has_key service operation c = str_eq c.service service && str_eq c.operation operation

-- `service or ""`
abbrev pub or_empty : Option String → String
or_empty none = ""
or_empty (some s) = s

abbrev within_allowed : WriteContract → Option (List String) → Option WriteContract
within_allowed c none = some c
within_allowed c (some allowed) = if subset c.required_tools allowed then some c else none

unfoldable pub lookup_contract :
    List WriteContract → String → String → Option (List String) → Option WriteContract
lookup_contract table service operation allowed_tools =
    elim (find (has_key service operation) table) [
      | none ↦ none
      | some c ↦ within_allowed c allowed_tools
    ]

unfoldable pub write_contract_for :
    Option String → Option String → Option (List String) → Option WriteContract
unfolding lookup_contract
write_contract_for service operation allowed_tools =
    lookup_contract write_contracts (or_empty service) (or_empty operation) allowed_tools

-- `_failed`
unfoldable pub failed : Execution → Bool
failed e =
    not (is_dict e.result)
    || truthy (get "error" (fields e.result))
    || is_false (get "success" (fields e.result))

-- `item.get("tool") in required`
abbrev pub requires : WriteContract → Execution → Bool
requires c e = elim e.tool [ none ↦ false | some t ↦ contains c.required_tools t ]

-- `str(item.get("tool"))`
abbrev pub tool_name : Execution → String
tool_name e = elim e.tool [ none ↦ "None" | some t ↦ t ]

unfoldable pub attempted_required_tools : WriteContract → List Execution → List String
attempted_required_tools c executions = map tool_name (keep (requires c) executions)

abbrev pub succeeds : WriteContract → Execution → Bool
succeeds c e = requires c e && not (failed e)

unfoldable pub successful_required_tools : WriteContract → List Execution → List String
successful_required_tools c executions = map tool_name (keep (succeeds c) executions)

-- The loop of `next_ordered_required_tool`: both lists are walked by one index.
unfoldable pub first_mismatch : List String → List String → Option String
first_mismatch [] successful = none
first_mismatch (name ∷ names) [] = some name
first_mismatch (name ∷ names) (s ∷ successful) =
    if str_eq s name then first_mismatch names successful else some name

abbrev pub is_ordered : CompletionMode → Bool
is_ordered ordered = true
is_ordered m = false

unfoldable pub next_ordered_required_tool : Option WriteContract → List Execution → Option String
next_ordered_required_tool none executions = none
next_ordered_required_tool (some c) executions =
    if is_ordered c.completion_mode
    then first_mismatch c.required_tools (successful_required_tools c executions)
    else none

unfoldable pub missing_required_tools : WriteContract → List Execution → List String
missing_required_tools c executions =
    keep (λ t. not (contains (successful_required_tools c executions) t)) c.required_tools

-- `any(item == required for item in cursor)`: what the iterator still holds after a hit.
abbrev pub seek : String → List String → Option (List String)
seek name [] = none
seek name (x ∷ cursor) = if str_eq x name then some cursor else seek name cursor

-- `all(any(…) for required in contract.required_tools)` over one shared iterator.
unfoldable pub in_order : List String → List String → Bool
in_order [] cursor = true
in_order (name ∷ names) cursor = elim (seek name cursor) [
  | none ↦ false
  | some rest ↦ in_order names rest
]

abbrev pub satisfied_by : CompletionMode → List String → List String → Bool
satisfied_by any_tool required successful = nonempty successful
satisfied_by all_tools required successful = subset required successful
satisfied_by ordered required successful = in_order required successful

unfoldable pub contract_satisfied : WriteContract → List Execution → Bool
contract_satisfied c executions =
    satisfied_by c.completion_mode c.required_tools (successful_required_tools c executions)
