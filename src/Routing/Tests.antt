-- ===== src/Routing/Tests.antt =====
-- Two canaries: one denies bo, the next takes half of the traffic.
use google_connector_app.Prelude.{refl, true, List, [], ◌∷◌, str_eq, not, if◌then◌else◌}
use google_connector_app.Json.{Value, null, bool, text, dict, list, end, field, nil, cons}
use google_connector_app.Plans.{ExecutionPlan}
use google_connector_app.Routing.{
  Canary, Environment, Target, stable_bucket, candidate_applies, cohort_selected,
  resolve_candidate_api_target, resolve_executor_assignment,
}
use google_connector_app.Routing.Cohorts.{IsCandidate, resolve_executor_assignment-IsCandidate}
use google_connector_app.Routing.Targets.{IsServed, resolve_candidate_api_target-IsServed}

abbrev env : Environment
env = record {
  digest = λ canary user. if str_eq user "ana" then 1030 else 1080;
  is_https = λ url. not (str_eq url "");
  without_slashes = λ url. url;
}

abbrev manifest : Value
manifest = dict (
    field "applicability" (dict (field "services" (list (cons (text "gmail") nil)) end))
      (field "runtime_surfaces" (list (cons (text "api") nil)) end))

abbrev evidence : Value
evidence = dict (
    field "verified" (bool true) (
      field "candidate_version" (text "v2")
        (field "deployment_url" (text "https://candidate") end)))

abbrev closed_canary : Canary
closed_canary = record {
  id = 1;
  allowed_users = [];
  denied_users = "bo" ∷ "ana" ∷ [];
  traffic_percent = 100;
  control_version = "v1";
  candidate_version = "v3";
  candidate_kind = "code";
  candidate_manifest = manifest;
  deployment_evidence = evidence;
}

abbrev half_canary : Canary
half_canary = record closed_canary {
  id = 2;
  denied_users = "bo" ∷ [];
  traffic_percent = 50;
  candidate_version = "v2";
}

abbrev canaries : List Canary
canaries = closed_canary ∷ half_canary ∷ []

abbrev plan : ExecutionPlan
plan = record { services = "gmail" ∷ []; rag_mode = "off"; steps = []; estimated_max_tokens = 100 }

resolve_executor_assignment-IsCandidate_example :
    IsCandidate env canaries "ana" plan
      (resolve_executor_assignment env canaries null "ana" "v1" plan)
unfolding resolve_executor_assignment candidate_applies cohort_selected stable_bucket
resolve_executor_assignment-IsCandidate_example =
    resolve_executor_assignment-IsCandidate env canaries null "ana" "v1" plan refl

abbrev served : Target
served = record { url = "https://candidate"; candidate_version = "v2"; canary_id = 2 }

resolve_candidate_api_target-IsServed_example : IsServed env canaries "ana" plan served
unfolding resolve_candidate_api_target candidate_applies cohort_selected stable_bucket
resolve_candidate_api_target-IsServed_example =
    resolve_candidate_api_target-IsServed env canaries "ana" plan served refl
