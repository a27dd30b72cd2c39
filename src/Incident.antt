-- ===== src/Incident.antt =====
-- Completion figures and the incident summary of a run: app/runs/incident.py. A percentage is kept
-- as the two weights that the source divides; the rounding to two digits is left out.
pub mod Integrity
pub mod Weights
mod Tests
use google_connector_app.Prelude.{
  ℕ, ◌+◌, ◌-◌, ◌*◌, String, Bool, true, false, not, ◌&&◌, ◌||◌, Option, none, some, List, [], ◌∷◌,
  ◌++◌, map, keep, find, nonempty, contains, str_eq, ◌==◌, if◌then◌else◌,
}
use google_connector_app.Json.{
  Value, Items, nil, cons, dict, list, get, truthy, is_false, is_dict, fields,
}
use google_connector_app.Runs.{Step, is_pending, is_completed, is_failed}

-- `float(step.get("weight") or 1)`
abbrev pub weight_of : Step → ℕ
weight_of s = if s.weight == 0 then 10000 else s.weight

-- `sum(weight for step in steps if p(step))`
unfoldable pub weight_where : (Step → Bool) → List Step → ℕ
weight_where p [] = 0
weight_where p (s ∷ steps) = (if p s then weight_of s else 0) + weight_where p steps

abbrev pub always : Step → Bool
always s = true

abbrev pub is_done : Step → Bool
is_done s = is_completed s.status

-- `not step.get("error_message")`
abbrev pub no_message : Option String → Bool
no_message none = true
no_message (some m) = str_eq m ""

abbrev pub is_functional : Step → Bool
is_functional s = is_done s && no_message s.error_message

abbrev pub is_visible : Step → Bool
is_visible s = is_done s && truthy (get "output" (fields s.output_data))

-- `(input_data or {}).get("semantic_authorization", {}).get("authorized") is False`
abbrev pub is_unauthorized : Step → Bool
is_unauthorized s =
    is_false (get "authorized" (fields (get "semantic_authorization" (fields s.input_data))))

abbrev items : Value → Items
items (list xs) = xs
items v = nil

-- `(output_data or {}).get("tool_executions") or []`
abbrev pub tool_executions : Step → Items
tool_executions s = items (get "tool_executions" (fields s.output_data))

-- An execution whose result does not say plainly that it failed.
abbrev pub may_have_effect : Value → Bool
may_have_effect item =
    let result = get "result" (fields item) in
    not (is_dict result)
    || (not (truthy (get "error" (fields result)))
        && not (is_false (get "success" (fields result))))

-- `bool(possible_side_effects)`
unfoldable pub any_effect : Items → Bool
any_effect nil = false
any_effect (cons item rest) = may_have_effect item || any_effect rest

abbrev pub has_category : String → Step → Bool
has_category category s = elim s.error_category [ none ↦ false | some c ↦ str_eq c category ]

-- What one step adds to `uncertain_writes`.
unfoldable pub uncertainty : Step → ℕ
uncertainty s =
    if is_done s && not s.read_only && is_unauthorized s
    then 1
    else if not (is_failed s.status) || s.read_only
    then 0
    else if has_category "worker_reconciliation" s
    then 4
    else if any_effect (tool_executions s)
    then 1
    else 0

unfoldable pub uncertain_writes : List Step → ℕ
uncertain_writes [] = 0
uncertain_writes (s ∷ steps) = uncertainty s + uncertain_writes steps

-- Weights out of `total`; the integrity is in percent.
pub record Completion : Type 0 where
  pub total : ℕ
  pub technical : ℕ
  pub functional : ℕ
  pub user_visible : ℕ
  pub side_effect_integrity : ℕ

-- `sum(…) or 1`
abbrev or_one : ℕ → ℕ
or_one n = if n == 0 then 10000 else n

unfoldable pub completion_from_steps : List Step → Completion
completion_from_steps steps = record {
  total = or_one (weight_where always steps);
  technical = weight_where is_done steps;
  functional = weight_where is_functional steps;
  user_visible = weight_where is_visible steps;
  side_effect_integrity = 100 - uncertain_writes steps * 25;
}

abbrev pub title_of : Step → String
title_of s = s.title

abbrev pub is_unintended : Step → Bool
is_unintended s = not s.read_only && is_unauthorized s

abbrev last_title : List Step → Option String
last_title [] = none
last_title (s ∷ []) = some s.title
last_title (s ∷ t ∷ rest) = last_title (t ∷ rest)

abbrev nonempty_items : Items → Bool
nonempty_items nil = false
nonempty_items (cons x xs) = true

-- The contributing factors, in the source's words.
pub data Factor : Type 0 where
  dependent_steps_not_executed high_risk_write_may_exist unintended_external_write : Factor

pub record IncidentSummary : Type 0 where
  pub completed : List String
  pub last_success : Option String
  pub breaking_point : String
  pub first_incomplete : Option String
  pub primary_cause : String
  pub contributing_factors : List Factor
  pub error : String
  pub recoverable : Bool
  pub evidence : List ℕ
  pub pending : List String
  pub unintended_side_effects : List Step

abbrev factor_if : Bool → Factor → List Factor
factor_if b f = if b then f ∷ [] else []

abbrev first : List String → Option String
first [] = none
first (x ∷ xs) = some x

abbrev write_may_exist : Option Step → Bool
write_may_exist none = false
write_may_exist (some f) =
    not f.read_only
    && (nonempty_items (tool_executions f) || has_category "worker_reconciliation" f)

unfoldable pub build_incident : List Step → String → String → IncidentSummary
build_incident steps error_category error_message =
    let completed_steps = keep is_done steps in
    let failed = find (λ s. is_failed s.status) steps in
    let pending = map title_of (keep (λ s. is_pending s.status) steps) in
    let unintended = keep is_unintended completed_steps in
    record {
      completed = map title_of completed_steps;
      last_success = last_title completed_steps;
      breaking_point = elim failed [ none ↦ "Run execution" | some f ↦ f.title ];
      first_incomplete = elim failed [ none ↦ first pending | some f ↦ some f.title ];
      primary_cause = error_category;
      contributing_factors =
          factor_if (nonempty pending) dependent_steps_not_executed
          ++ factor_if (write_may_exist failed) high_risk_write_may_exist
          ++ factor_if (nonempty unintended) unintended_external_write;
      error = error_message;
      recoverable = contains ("rate_limit" ∷ "network" ∷ "worker" ∷ []) error_category;
      evidence = elim failed [ none ↦ [] | some f ↦ f.id ∷ [] ];
      pending = pending;
      unintended_side_effects = unintended;
    }
