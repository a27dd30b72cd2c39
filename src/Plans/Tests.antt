-- ===== src/Plans/Tests.antt =====
-- A plan with a dependency that is no step of it.
use google_connector_app.Prelude.{◌≡◌, refl, true, false, none, some, [], ◌∷◌}
use google_connector_app.Json.{end}
use google_connector_app.Plans.{PlanStep, ExecutionPlan, validate_plan}
use google_connector_app.Plans.Valid.{validate_plan-unknown}

abbrev send_step : PlanStep
send_step = record {
  id = "send";
  title = "Send the mail";
  service = some "gmail";
  operation = "send";
  dependencies = "lookup" ∷ [];
  arguments = end;
  read_only = false;
  requires_approval = true;
  weight = 10000;
}

abbrev lone_plan : ExecutionPlan
lone_plan = record {
  services = "gmail" ∷ [];
  rag_mode = "off";
  steps = send_step ∷ [];
  estimated_max_tokens = 100;
}

validate_plan-unknown_example : validate_plan ("send_gmail" ∷ []) lone_plan ≡ none
validate_plan-unknown_example =
    validate_plan-unknown ("send_gmail" ∷ []) lone_plan [] [] send_step "lookup" [] refl refl refl
