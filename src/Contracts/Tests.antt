-- ===== src/Contracts/Tests.antt =====
-- Contracts on concrete traces: creating a sheet and writing to it.
use google_connector_app.Contracts.Lineage.{
  ToolCall, sheet_trace as bound_trace, bind_from, bind_ordered_output_lineage,
}
use google_connector_app.Contracts.Lineage.Bound.{
  BindingOutcome, bind_ordered_output_lineage-BindingOutcome,
}
use google_connector_app.Prelude.{
  String, ◌≡◌, ◌≢◌, ◌↔◌, refl, Bool, true, false, none, some, List, [], ◌∷◌,
}
use google_connector_app.Json.{text, null, bool, dict, field, end}
use google_connector_app.Contracts.{
  WriteContract, Execution, any_tool, all_tools, ordered, contract_satisfied, write_contract_for,
  lookup_contract, successful_required_tools, next_ordered_required_tool, in_order, failed,
  first_mismatch,
}
use google_connector_app.Contracts.Ordered.{Embeds, contract_satisfied-Embeds}
use google_connector_app.Contracts.Completion.{Evidence, contract_satisfied-Evidence}
use google_connector_app.Contracts.Dispatch.{World, executions_of, dispatch}
use google_connector_app.Contracts.Dispatch.Order.{InStep, dispatch-InStep}

abbrev sheet_contract : WriteContract
sheet_contract = record {
  service = "sheets";
  operation = "create_and_write";
  required_tools = "create_google_sheet" ∷ "write_google_sheet" ∷ [];
  completion_mode = ordered;
}

abbrev mail_contract : WriteContract
mail_contract = record {
  service = "gmail";
  operation = "send";
  required_tools = "send_gmail" ∷ [];
  completion_mode = all_tools;
}

abbrev call : String → Bool → Execution
call t ok = record { tool = some t; result = dict (field "success" (bool ok) end) }

abbrev sheet_trace : List Execution
sheet_trace =
    call "read_google_sheet" true
    ∷ call "create_google_sheet" true
    ∷ call "write_google_sheet" false
    ∷ call "write_google_sheet" true
    ∷ []

sheet_satisfied : contract_satisfied sheet_contract sheet_trace ≡ true
unfolding contract_satisfied successful_required_tools in_order failed
sheet_satisfied = refl

sheet_unsatisfied : contract_satisfied sheet_contract (call "write_google_sheet" true ∷ []) ≡ false
unfolding contract_satisfied successful_required_tools in_order failed
sheet_unsatisfied = refl

sheet_next :
    next_ordered_required_tool (some sheet_contract) (call "create_google_sheet" true ∷ [])
    ≡ some "write_google_sheet"
unfolding next_ordered_required_tool successful_required_tools first_mismatch failed
sheet_next = refl

sheet_no_next : next_ordered_required_tool (some sheet_contract) sheet_trace ≡ none
unfolding next_ordered_required_tool successful_required_tools first_mismatch failed
sheet_no_next = refl

ordered-ne-any_tool : sheet_contract.completion_mode ≢ any_tool
ordered-ne-any_tool e = cc

contract_satisfied-Evidence_example : Evidence "write_google_sheet" sheet_trace
contract_satisfied-Evidence_example =
    contract_satisfied-Evidence sheet_contract sheet_trace "write_google_sheet" ordered-ne-any_tool
      sheet_satisfied refl

contract_satisfied-Embeds_example :
    (contract_satisfied sheet_contract sheet_trace ≡ true)
    ↔ Embeds sheet_contract.required_tools (successful_required_tools sheet_contract sheet_trace)
contract_satisfied-Embeds_example = contract_satisfied-Embeds sheet_contract sheet_trace refl

-- The first call fails, and every later one succeeds.
abbrev flaky : World
flaky [] t = null
flaky (e ∷ executions) t = dict (field "success" (bool true) end)

abbrev calls : List String
calls =
    "read_google_sheet" ∷ "write_google_sheet" ∷ "create_google_sheet" ∷ "write_google_sheet" ∷ []

dispatch-InStep_example : InStep sheet_contract.required_tools (
    successful_required_tools sheet_contract
      (executions_of (dispatch (some sheet_contract) flaky calls [])))
dispatch-InStep_example = dispatch-InStep sheet_contract flaky calls refl

abbrev ceiling : List String
ceiling = "search_gmail" ∷ "send_gmail" ∷ []

mail_found : write_contract_for (some "gmail") (some "send") (some ceiling) ≡ some mail_contract
unfolding write_contract_for lookup_contract
mail_found = refl

abbrev write_call : ToolCall
write_call = record { name = "write_google_sheet"; args = dict end }

abbrev created_sheet : Execution
created_sheet = record {
  tool = some "create_google_sheet";
  result = dict (field "spreadsheetId" (text "s1") end);
}

bound_call :
    bind_ordered_output_lineage (some sheet_contract) write_call (created_sheet ∷ [])
    ≡ (record write_call { args = dict (field "spreadsheet_id" (text "s1") end) }, some bound_trace)
unfolding bind_ordered_output_lineage bind_from
bound_call = refl

bind_ordered_output_lineage-BindingOutcome_example :
    BindingOutcome
      (some sheet_contract)
      write_call
      (created_sheet ∷ [])
      (bind_ordered_output_lineage (some sheet_contract) write_call (created_sheet ∷ []))
bind_ordered_output_lineage-BindingOutcome_example =
    bind_ordered_output_lineage-BindingOutcome (some sheet_contract) write_call (created_sheet ∷ [])
