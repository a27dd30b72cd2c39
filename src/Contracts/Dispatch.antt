-- ===== src/Contracts/Dispatch.antt =====
-- The executor's loop over the tool calls of one model response (app/agents/supervisor.py): the
-- ordered contract defers a required tool that is not the next one, and a failed required tool
-- ends the loop. What a tool returns is the outside world's choice.
pub mod Order
use google_connector_app.Prelude.{
  String, Bool, true, false, not, ◌&&◌, Option, none, some, List, [], ◌∷◌, ◌++◌, contains, str_eq,
}
use google_connector_app.Json.{Value}
use google_connector_app.Contracts.{WriteContract, Execution, failed, next_ordered_required_tool}

-- The result of a tool call, given the calls made before.
abbrev pub World : Type 0
World = List Execution → String → Value

-- A loop that ran through its calls, or one that raised `ToolExecutionFailure`.
pub data Outcome : Type 0 where
  finished raised : List Execution → Outcome

abbrev pub executions_of : Outcome → List Execution
executions_of (finished executions) = executions
executions_of (raised executions) = executions

abbrev pub in_contract : Option WriteContract → String → Bool
in_contract none name = false
in_contract (some c) name = contains c.required_tools name

-- The test before a call: `expected and name in required_tools and name != expected`.
unfoldable pub deferred : Option WriteContract → List Execution → String → Bool
deferred contract executions name = elim (next_ordered_required_tool contract executions) [
  | none ↦ false
  | some expected ↦ in_contract contract name && not (str_eq name expected)
]

abbrev pub execute : World → List Execution → String → Execution
execute world executions name = record { tool = some name; result = world executions name }

unfoldable pub dispatch : Option WriteContract → World → List String → List Execution → Outcome
dispatch contract world [] executions = finished executions
dispatch contract world (name ∷ calls) executions = elim (deferred contract executions name) [
  | true ↦ dispatch contract world calls executions
  | false ↦
      let e = execute world executions name in
      elim (in_contract contract name && failed e) [
        | true ↦ raised (executions ++ e ∷ [])
        | false ↦ dispatch contract world calls (executions ++ e ∷ [])
      ]
]
