-- ===== src/Plans.antt =====
-- Execution plans and their validation: app/runs/schemas.py, and the tables and `validate_plan` of
-- app/runs/planner.py. The set of registered tool names is a parameter.
pub mod Tables
pub mod Valid
mod Tests
use google_connector_app.Prelude.{
  ℕ, suc, ◌+◌, String, Bool, true, false, not, ◌&&◌, ◌||◌, Option, none, some, List, [], ◌∷◌, ◌++◌,
  map, any, keep, find, nonempty, contains, subset, str_eq, leb, if◌then◌else◌,
}
use google_connector_app.Json.{Value, Fields, get, truthy, is_false, fields, texts, is_text}
use google_connector_app.Contracts.{
  WriteContract, CompletionMode, any_tool, all_tools, ordered, in_write_tools, write_contract_for,
}
use Tables.{is_known_service, operation_tools}

-- `weight` is in ten-thousandths.
pub record PlanStep : Type 0 where
  pub id : String
  pub title : String
  pub service : Option String
  pub operation : String
  pub dependencies : List String
  pub arguments : Fields
  pub read_only : Bool
  pub requires_approval : Bool
  pub weight : ℕ

pub record ExecutionPlan : Type 0 where
  pub services : List String
  pub rag_mode : String
  pub steps : List PlanStep
  pub estimated_max_tokens : ℕ

-- The messages of `validate_plan`, by what they say and the step that they name.
pub data PlanError : Type 0 where
  duplicate_ids : PlanError
  unknown_dependencies : String → List String → PlanError
  self_dependency unknown_service unknown_operation : String → PlanError
  read_only_write unauthorized no_contract mismatched_contract : String → PlanError
  outside_ceiling forward_dependency : String → PlanError
  unregistered_tools : String → List String → PlanError

abbrev pub id_of : PlanStep → String
id_of s = s.id

abbrev error_if : Bool → PlanError → List PlanError
error_if b e = if b then e ∷ [] else []

-- `len(keys) != len(set(keys))`
unfoldable pub has_duplicate : List String → Bool
has_duplicate [] = false
has_duplicate (k ∷ keys) = contains keys k || has_duplicate keys

abbrev or_no_tools : Option (List String) → List String
or_no_tools none = []
or_no_tools (some tools) = tools

-- `list(step.arguments.get("allowed_tools") or allowed or [])`
abbrev allowed_tools : Option (List String) → PlanStep → List String
allowed_tools allowed s =
    let v = get "allowed_tools" s.arguments in if truthy v then texts v else or_no_tools allowed

abbrev required_tools : PlanStep → List String
required_tools s = texts (get "required_tools" (fields (get "write_contract" s.arguments)))

abbrev mode_name : CompletionMode → String
mode_name any_tool = "any"
mode_name all_tools = "all"
mode_name ordered = "ordered"

-- `required != list(contract.required_tools)`
abbrev same_texts : List String → List String → Bool
same_texts [] [] = true
same_texts (x ∷ xs) (y ∷ ys) = str_eq x y && same_texts xs ys
same_texts xs ys = false

-- What a step that writes must project of its contract.
unfoldable pub contract_errors : List String → PlanStep → List PlanError
contract_errors allowed s =
    let required = required_tools s in
    elim (write_contract_for s.service (some s.operation) (some allowed)) [
      | none ↦ no_contract s.id ∷ []
      | some c ↦
          if not (nonempty required)
          then no_contract s.id ∷ []
          else error_if
              (not (same_texts required c.required_tools)
                || not (
                    is_text (mode_name c.completion_mode)
                      (get "completion_mode" (fields (get "write_contract" s.arguments)))))
              (mismatched_contract s.id)
    ]

-- The rest of a step's checks, with the tools of its operation.
unfoldable pub tool_errors : List String → List String → PlanStep → List PlanError
tool_errors registered allowed s =
    let required = required_tools s in
    let unknown = keep (λ t. not (contains registered t)) required in
    error_if (s.read_only && any in_write_tools required) (read_only_write s.id)
    ++ (if s.read_only
        then []
        else error_if
            (is_false (get "authorized" (fields (get "semantic_authorization" s.arguments))))
            (unauthorized s.id)
          ++ contract_errors allowed s)
    ++ error_if (not (subset required allowed)) (outside_ceiling s.id)
    ++ error_if (nonempty unknown) (unregistered_tools s.id unknown)

-- `step.service != "general" and allowed is None`
abbrev lacks_operation : PlanStep → Option (List String) → Bool
lacks_operation s none = elim s.service [ none ↦ true | some n ↦ not (str_eq n "general") ]
lacks_operation s (some tools) = false

-- One round of the first loop.
unfoldable pub step_errors : List String → List String → PlanStep → List PlanError
unfolding tool_errors contract_errors
step_errors registered known s =
    let missing = keep (λ d. not (contains known d)) s.dependencies in
    let allowed = operation_tools s.service s.operation in
    error_if (nonempty missing) (unknown_dependencies s.id missing)
    ++ error_if (contains s.dependencies s.id) (self_dependency s.id)
    ++ error_if (not (is_known_service s.service)) (unknown_service s.id)
    ++ (if lacks_operation s allowed
        then unknown_operation s.id ∷ []
        else tool_errors registered (allowed_tools allowed s) s)

unfoldable pub all_step_errors : List String → List String → List PlanStep → List PlanError
all_step_errors registered known [] = []
all_step_errors registered known (s ∷ steps) =
    step_errors registered known s ++ all_step_errors registered known steps

-- `positions[key]`: the last index of the key; `none` is a KeyError.
unfoldable pub position : String → List String → Option ℕ
position key [] = none
position key (k ∷ keys) = elim (position key keys) [
  | some n ↦ some (suc n)
  | none ↦ if str_eq k key then some 0 else none
]

-- `any(positions[dependency] >= positions[step.id] for dependency in step.dependencies)`, which
-- stops at the first that holds; `none` is a KeyError.
unfoldable pub any_forward : List String → ℕ → List String → Option Bool
any_forward keys own [] = some false
any_forward keys own (d ∷ dependencies) = elim (position d keys) [
  | none ↦ none
  | some p ↦ elim (leb own p) [ true ↦ some true | false ↦ any_forward keys own dependencies ]
]

-- The second loop; a step of the plan always has a position.
unfoldable pub order_errors : List String → List PlanStep → Option (List PlanError)
order_errors keys [] = some []
order_errors keys (s ∷ steps) = elim (position s.id keys) [
  | none ↦ none
  | some own ↦ elim (any_forward keys own s.dependencies) [
    | none ↦ none
    | some forward ↦ elim (order_errors keys steps) [
      | none ↦ none
      | some errors ↦ some (error_if forward (forward_dependency s.id) ++ errors)
    ]
  ]
]

-- The list of errors; `none` where the source raises a KeyError.
unfoldable pub validate_plan : List String → ExecutionPlan → Option (List PlanError)
validate_plan registered plan =
    let keys = map id_of plan.steps in
    elim (order_errors keys plan.steps) [
      | none ↦ none
      | some errors ↦ some (
          error_if (has_duplicate keys) duplicate_ids
          ++ all_step_errors registered keys plan.steps
          ++ errors)
    ]
