-- ===== src/Routing.antt =====
-- Control or candidate: app/improvements/routing.py. The SHA-256 behind the traffic bucket, the test
-- that a URL is an https one and the dropping of its trailing slashes are parameters.
pub mod Cohorts
pub mod Targets
mod Tests
use google_connector_app.Prelude.{
  ℕ, ◌%◌, String, Bool, true, false, not, ◌&&◌, ◌||◌, Option, none, some, List, [], ◌∷◌, map, any,
  nonempty, contains, str_eq, ltb, if◌then◌else◌,
}
use google_connector_app.Json.{Value, null, text, bool, get, truthy, fields, texts, is_text}
use google_connector_app.Plans.{ExecutionPlan, PlanStep}

pub record ExecutorAssignment : Type 0 where
  pub executor_version : String
  pub canary_id : Option ℕ
  pub cohort : String
  pub okf_bundle_version : Value

-- A row of improvement_canaries joined with its proposal.
pub record Canary : Type 0 where
  pub id : ℕ
  pub allowed_users : List String
  pub denied_users : List String
  pub traffic_percent : ℕ
  pub control_version : String
  pub candidate_version : String
  pub candidate_kind : String
  pub candidate_manifest : Value
  pub deployment_evidence : Value

-- `CandidateAPITarget` and `CandidateFrontendTarget`
pub record Target : Type 0 where
  pub url : String
  pub candidate_version : String
  pub canary_id : ℕ

-- `digest`: the first eight bytes of the SHA-256 of "canary:user", as a number.
pub record Environment : Type 0 where
  pub digest : ℕ → String → ℕ
  pub is_https : String → Bool
  pub without_slashes : String → String

unfoldable pub stable_bucket : Environment → ℕ → String → ℕ
stable_bucket env canary user = env.digest canary user % 100

-- `set(xs) & set(ys)`
abbrev meets : List String → List String → Bool
meets xs ys = any (contains ys) xs

-- `{step.get("operation") for step in steps}`
abbrev operation_of : PlanStep → String
operation_of s = s.operation

-- `not required or required & present`
abbrev satisfied : List String → List String → Bool
satisfied required present = not (nonempty required) || meets required present

unfoldable pub candidate_applies : Value → ExecutionPlan → Bool
candidate_applies manifest plan =
    let applicability = get "applicability" (fields manifest) in
    let required = λ (key : String). texts (get key (fields applicability)) in
    truthy applicability
    && satisfied (required "services") plan.services
    && satisfied (required "operations") (map operation_of plan.steps)
    && satisfied (required "rag_modes") (plan.rag_mode ∷ [])

pub data Selection : Type 0 where
  denylisted allowlisted : Selection
  by_bucket : Bool → Selection

unfoldable pub cohort_selected : Environment → Canary → String → Selection
unfolding stable_bucket
cohort_selected env c user =
    if contains c.denied_users user
    then denylisted
    else if contains c.allowed_users user
    then allowlisted
    else by_bucket
        (not (nonempty c.allowed_users) && ltb (stable_bucket env c.id user) c.traffic_percent)

abbrev pub is_selected : Selection → Bool
is_selected denylisted = false
is_selected allowlisted = true
is_selected (by_bucket b) = b

abbrev pub is_denylisted : Selection → Bool
is_denylisted denylisted = true
is_denylisted s = false

-- `surface in set(manifest.get("runtime_surfaces") or [])`
abbrev pub has_surface : String → Canary → Bool
has_surface surface c =
    contains (texts (get "runtime_surfaces" (fields c.candidate_manifest))) surface

-- `str(evidence.get(key) or "").rstrip("/")`
abbrev url_text : Value → String
url_text (text t) = t
url_text v = ""

abbrev evidence_url : Environment → String → Canary → String
evidence_url env key c = env.without_slashes (url_text (get key (fields c.deployment_evidence)))

-- `value is True`
abbrev is_true : Value → Bool
is_true (bool true) = true
is_true v = false

-- The deployment is attested for exactly this candidate version, at an https address.
abbrev pub is_attested : Environment → String → Canary → Bool
is_attested env url_key c =
    is_true (get "verified" (fields c.deployment_evidence))
    && is_text c.candidate_version (get "candidate_version" (fields c.deployment_evidence))
    && env.is_https (evidence_url env url_key c)

abbrev target : Environment → String → Canary → Target
target env url_key c = record {
  url = evidence_url env url_key c;
  candidate_version = c.candidate_version;
  canary_id = c.id;
}

-- The loops' `continue`s, as one test of a canary.
abbrev pub serves_api : Environment → String → ExecutionPlan → Canary → Bool
serves_api env user plan c =
    has_surface "api" c
    && candidate_applies c.candidate_manifest plan
    && is_selected (cohort_selected env c user)
    && is_attested env "deployment_url" c

abbrev pub serves_frontend : Environment → String → Canary → Bool
serves_frontend env user c =
    has_surface "frontend" c
    && is_selected (cohort_selected env c user)
    && is_attested env "frontend_url" c
    && is_text c.candidate_version (get "frontend_source_commit" (fields c.deployment_evidence))

-- `canaries`: the active rows with routing enabled of kind 'code', in the order of their start.
unfoldable pub resolve_candidate_api_target :
    Environment → List Canary → String → ExecutionPlan → Option Target
resolve_candidate_api_target env [] user plan = none
resolve_candidate_api_target env (c ∷ canaries) user plan =
    if serves_api env user plan c
    then some (target env "deployment_url" c)
    else resolve_candidate_api_target env canaries user plan

unfoldable pub resolve_candidate_frontend_target :
    Environment → List Canary → String → Option Target
resolve_candidate_frontend_target env [] user = none
resolve_candidate_frontend_target env (c ∷ canaries) user =
    if serves_frontend env user c
    then some (target env "frontend_url" c)
    else resolve_candidate_frontend_target env canaries user

-- `row`: the canary of a run of the candidate cohort, with the run's executor version.
unfoldable pub resolve_run_candidate_api_target :
    Environment → Option (Canary × String) → Option Target
resolve_run_candidate_api_target env none = none
resolve_run_candidate_api_target env (some (c, executor_version)) =
    if has_surface "api" c
      && str_eq executor_version c.candidate_version
      && is_attested env "deployment_url" c
    then some (target env "deployment_url" c)
    else none

-- `version or control_version`
abbrev or_version : String → String → String
or_version v control_version = if str_eq v "" then control_version else v

-- Candidates of these kinds run on the control's executor.
abbrev on_control : Canary → Bool
on_control c = contains ("okf" ∷ "config" ∷ "prompt" ∷ []) c.candidate_kind

abbrev pub cohort_name : Bool → String
cohort_name selected = if selected then "candidate" else "control"

abbrev assigned : Canary → Bool → String → ExecutorAssignment
assigned c selected control_version = record {
  executor_version =
      or_version (if selected && not (on_control c) then c.candidate_version else c.control_version)
        control_version;
  canary_id = some c.id;
  cohort = cohort_name selected;
  okf_bundle_version =
      if selected then get "okf_bundle_hash" (fields c.candidate_manifest) else null;
}

-- `current_okf`: the hash of the bundle that was trusted last.
unfoldable pub resolve_executor_assignment :
    Environment → List Canary → Value → String → String → ExecutionPlan → ExecutorAssignment
resolve_executor_assignment env [] current_okf user control_version plan = record {
  executor_version = control_version;
  canary_id = none;
  cohort = "control";
  okf_bundle_version = current_okf;
}
resolve_executor_assignment env (c ∷ canaries) current_okf user control_version plan =
    elim (candidate_applies c.candidate_manifest plan
      && not (is_denylisted (cohort_selected env c user))) [
        | true ↦ assigned c (is_selected (cohort_selected env c user)) control_version
        | false ↦ resolve_executor_assignment env canaries current_okf user control_version plan
      ]
