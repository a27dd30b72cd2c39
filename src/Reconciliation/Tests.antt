-- ===== src/Reconciliation/Tests.antt =====
-- A calendar write that failed explicitly, and one that the verifier finds done.
use google_connector_app.Prelude.{String, ◌≡◌, ◌⊎◌, refl, Bool, true, false, none, some, []}
use google_connector_app.Json.{Value, text, bool, dict, list, field, end, nil, cons}
use google_connector_app.Runs.{Step, StepStatus}
use google_connector_app.Contracts.{
  lookup_contract, write_contract_for, attempted_required_tools, in_write_tools,
}
use google_connector_app.Reconciliation.{
  Verify, safe_to_retry, already_completed, tool_executions, contract_of, is_chat_misconfigured,
  attempted_writes, explicit_failures, reconcile_attempted, reconcile_write, reconcile_failed_step,
}
use google_connector_app.Reconciliation.Safe.{MayRetry, reconcile_failed_step-safe}

abbrev create_call : Bool → Value
create_call ok = dict (
    field "tool" (text "create_calendar_event")
      (field "result" (dict (field "success" (bool ok) end)) end))

abbrev create_step : Bool → Step
create_step ok = record {
  id = 2;
  run_id = 7;
  step_key = "s2";
  sequence_no = 2;
  title = "Create the event";
  service = "calendar";
  operation = "create";
  dependencies = [];
  read_only = false;
  weight = 10000;
  status = StepStatus.failed;
  input_data = dict (field "allowed_tools" (list (cons (text "create_calendar_event") nil)) end);
  output_data = dict (field "tool_executions" (list (cons (create_call ok) nil)) end);
  attempt_count = 1;
  max_attempts = 1;
  error_category = some "network";
  error_message = some "503";
}

-- The verifier finds nothing, or finds the event.
abbrev answers : Bool → Verify
answers passed executions service operation = record {
  passed = passed;
  boundary = "postcondition_verification";
}

abbrev mentions : String → String → Bool
mentions message marker = false

failed_plainly :
    (reconcile_failed_step (answers false) mentions none [] (create_step false)).state
    ≡ safe_to_retry
unfolding reconcile_failed_step contract_of write_contract_for lookup_contract is_chat_misconfigured
    tool_executions attempted_required_tools reconcile_attempted reconcile_write attempted_writes
    explicit_failures in_write_tools
failed_plainly = refl

found_done :
    (reconcile_failed_step (answers true) mentions none [] (create_step true)).state
    ≡ already_completed
unfolding reconcile_failed_step contract_of write_contract_for lookup_contract is_chat_misconfigured
    tool_executions attempted_required_tools reconcile_attempted reconcile_write
found_done = refl

reconcile_failed_step-safe_example :
    (is_chat_misconfigured mentions (create_step false) ≡ false)
    × (((create_step false).read_only ≡ true)
        ⊎ MayRetry (answers false) [] (some "network") (create_step false))
reconcile_failed_step-safe_example =
    reconcile_failed_step-safe (answers false) mentions none [] (create_step false) failed_plainly
