-- ===== src/Reconciliation.antt =====
-- Reconciling a failed step before its run is resumed: app/runs/reconciliation.py. The verifier is
-- a parameter, as is the test that a text, casefolded, holds a marker. The evidence dict, which no
-- decision reads, is left out.
pub mod Safe
mod Tests
use google_connector_app.Prelude.{
  ℕ, String, Bool, true, false, not, ◌&&◌, ◌||◌, Option, none, some, List, [], ◌∷◌, map, any, all,
  keep, nonempty, contains, str_eq, if◌then◌else◌,
}
use google_connector_app.Json.{
  Value, Items, Fields, null, text, list, dict, nil, cons, end, field, get, truthy, is_false,
  is_dict, fields,
}
use google_connector_app.Runs.{Step}
use google_connector_app.Contracts.{
  WriteContract, Execution, in_write_tools, write_contract_for, attempted_required_tools, tool_name,
}

pub data ReconciliationState : Type 0 where
  safe_to_retry already_completed manual_required : ReconciliationState

pub record ReconciliationDecision : Type 0 where
  pub state : ReconciliationState
  pub reason_code : String
  pub resume_step_id : Option ℕ

-- What the decision reads of the verifier's answer.
pub record VerificationOutcome : Type 0 where
  pub passed : Bool
  pub boundary : String

-- `verify_executions_detailed(executions, service=…, operation=…)`
abbrev pub Verify : Type 0
Verify = List Execution → String → String → VerificationOutcome

abbrev pub idempotent_writes : List String
idempotent_writes =
    "create_calendar_event" ∷ "update_calendar_event" ∷ "delete_calendar_event" ∷ "share_drive_file"
    ∷ "move_drive_file" ∷ "trash_drive_file" ∷ "resolve_chat_destination" ∷ []

abbrev text_of : Value → Option String
text_of (text t) = some t
text_of v = none

-- `[dict(item) for item in executions if isinstance(item, dict)]`
abbrev executions_in : Items → List Execution
executions_in nil = []
executions_in (cons (dict f) rest) =
    record { tool = text_of (get "tool" f); result = get "result" f } ∷ executions_in rest
executions_in (cons v rest) = executions_in rest

abbrev items_of : Value → Items
items_of (list xs) = xs
items_of v = nil

-- `_tool_executions`
unfoldable pub tool_executions : Step → List Execution
tool_executions s = executions_in (items_of (get "tool_executions" (fields s.output_data)))

abbrev texts_in : Items → List String
texts_in nil = []
texts_in (cons (text t) rest) = t ∷ texts_in rest
texts_in (cons v rest) = texts_in rest

-- The value of "allowed_tools": a null is no ceiling.
abbrev ceiling_of : Value → Option (List String)
ceiling_of null = none
ceiling_of (list xs) = some (texts_in xs)
ceiling_of v = some []

-- `(input_data or {}).get("allowed_tools", [])`: a missing key allows nothing.
abbrev allowed_in : Fields → Option (List String)
allowed_in end = some []
allowed_in (field k v rest) = if str_eq k "allowed_tools" then ceiling_of v else allowed_in rest

unfoldable pub contract_of : Step → Option WriteContract
contract_of s =
    write_contract_for (some s.service) (some s.operation) (allowed_in (fields s.input_data))

abbrev chat_markers : List String
chat_markers =
    "chat api configuration is incomplete" ∷ "chat api is disabled" ∷ "google chat is turned off"
    ∷ "requires newly granted chat space creation access" ∷ []

-- `value or ""`
abbrev message_of : Option String → String
message_of none = ""
message_of (some t) = t

-- A chat step whose error names a missing configuration.
unfoldable pub is_chat_misconfigured : (String → String → Bool) → Step → Bool
is_chat_misconfigured mentions s =
    str_eq s.service "chat" && any (mentions (message_of s.error_message)) chat_markers

-- `step.get("error_category") or run.get("error_category")`
abbrev pub category_of : Option String → Option String → Option String
category_of none run = run
category_of (some c) run = if str_eq c "" then run else some c

abbrev pub is_category : String → Option String → Bool
is_category name none = false
is_category name (some c) = str_eq c name

abbrev pub is_write_name : Option String → Bool
is_write_name none = false
is_write_name (some t) = in_write_tools t

abbrev pub is_write : Execution → Bool
is_write e = is_write_name e.tool

unfoldable pub attempted_writes : List Execution → List String
attempted_writes executions = map tool_name (keep is_write executions)

-- The provider said plainly that the call failed.
abbrev pub explicitly_failed : Execution → Bool
explicitly_failed e =
    is_dict e.result
    && (truthy (get "error" (fields e.result)) || is_false (get "success" (fields e.result)))

unfoldable pub explicit_failures : List Execution → Bool
explicit_failures executions = all (λ e. not (is_write e) || explicitly_failed e) executions

abbrev manual : String → ReconciliationDecision
manual reason = record { state = manual_required; reason_code = reason; resume_step_id = none }

abbrev retry : String → ℕ → ReconciliationDecision
retry reason id = record { state = safe_to_retry; reason_code = reason; resume_step_id = some id }

-- No required tool was attempted: earlier attempts on record, and then the error's category.
unfoldable pub reconcile_unattempted :
    Option String → List (Option String) → Step → ReconciliationDecision
reconcile_unattempted category historical s =
    if any is_write_name historical
    then manual "legacy_write_evidence_requires_reconciliation"
    else if is_category "tool_selection" category
    then retry "no_write_tool_attempted" s.id
    else if is_category "worker_reconciliation" category
    then manual "write_acceptance_unknown"
    else retry "no_external_write_evidence" s.id

-- A required tool was attempted: the verifier's answer, and then what the trace says.
unfoldable pub reconcile_attempted :
    VerificationOutcome → List Execution → Step → ReconciliationDecision
reconcile_attempted outcome executions s =
    let writes = attempted_writes executions in
    if outcome.passed
    then record {
      state = already_completed;
      reason_code = "postconditions_already_satisfied";
      resume_step_id = some s.id;
    }
    else if nonempty writes
        && all (contains idempotent_writes) writes
        && explicit_failures executions
    then retry "idempotent_write_explicitly_failed" s.id
    else if contains writes "append_to_google_sheet"
    then manual "sheet_append_cannot_be_proven"
    else if str_eq outcome.boundary "expected_state_mismatch"
    then manual "provider_state_conflicts_with_expected_state"
    else manual "external_write_outcome_uncertain"

-- With the step's write contract at hand.
unfoldable pub reconcile_write :
    Verify → Option String → List (Option String) → Step → WriteContract → ReconciliationDecision
reconcile_write verify category historical s c =
    let executions = tool_executions s in
    if nonempty (attempted_required_tools c executions)
    then reconcile_attempted (verify executions s.service s.operation) executions s
    else reconcile_unattempted category historical s

unfoldable pub reconcile_failed_step :
    Verify
    → (String → String → Bool)
    → Option String
    → List (Option String)
    → Step
    → ReconciliationDecision
unfolding reconcile_write
reconcile_failed_step verify mentions run_category historical s =
    if is_chat_misconfigured mentions s
    then manual "chat_external_configuration_required"
    else if s.read_only
    then retry "read_only_operation" s.id
    else elim (contract_of s) [
      | none ↦ manual "write_contract_unavailable"
      | some c ↦ reconcile_write verify (category_of s.error_category run_category) historical s c
    ]
