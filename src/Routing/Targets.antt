-- ===== src/Routing/Targets.antt =====
-- Which deployments serve a user.
use mathlib.Core.List.{Memᴰ}
use google_connector_app.Prelude.{
  String, ◌≡◌, refl, sym, ◌∙◌, true, false, some, List, [], ◌∷◌, arith, inl, inr, Bool-cases,
  eq→str_eq,
}
use google_connector_app.Plans.{ExecutionPlan}
use google_connector_app.Routing.{
  Canary, Environment, Target, candidate_applies, is_attested, serves_api,
  resolve_candidate_api_target, resolve_run_candidate_api_target,
}
use google_connector_app.Routing.Cohorts.{IsInCohort, selected-IsInCohort}

-- The canary that a request is routed to.
pub record IsServed (env : Environment) (canaries : List Canary) (user : String)
    (plan : ExecutionPlan) (t : Target) : Type 0 where
  pub canary : Canary
  pub active : Memᴰ canary canaries
  pub same_canary : t.canary_id ≡ canary.id
  pub same_version : t.candidate_version ≡ canary.candidate_version
  pub applies : candidate_applies canary.candidate_manifest plan ≡ true
  pub in_cohort : IsInCohort env user canary
  pub attested : is_attested env "deployment_url" canary ≡ true
  pub https : env.is_https t.url ≡ true
  -- A run that this canary pins to its candidate version is served by the same target.
  pub stays :
      resolve_run_candidate_api_target env (some (canary, canary.candidate_version)) ≡ some t

module _ (env : Environment) (c : Canary) (canaries : List Canary) (user : String)
    (plan : ExecutionPlan) where
  target-next :
      serves_api env user plan c ≡ false
      → resolve_candidate_api_target env (c ∷ canaries) user plan
        ≡ resolve_candidate_api_target env canaries user plan
  unfolding resolve_candidate_api_target
  target-next h = rw h refl

  target-first :
      (t : Target)
      → serves_api env user plan c ≡ true
      → resolve_candidate_api_target env (c ∷ canaries) user plan ≡ some t
      → (t.canary_id ≡ c.id)
        × (t.candidate_version ≡ c.candidate_version)
        × (env.is_https t.url ≡ true)
        × (resolve_run_candidate_api_target env (some (c, c.candidate_version)) ≡ some t)
  unfolding resolve_candidate_api_target resolve_run_candidate_api_target
  target-first t s h =
      let same = eq→str_eq c.candidate_version c.candidate_version refl in ground arith

-- A request is served by a candidate API only if that is the attested https deployment of exactly
-- the candidate version of an active canary that applies to the plan and whose cohort the user is
-- in; a run that the canary then pins to that version is served by the same deployment.
pub resolve_candidate_api_target-IsServed :
    (env : Environment) (canaries : List Canary) (user : String) (plan : ExecutionPlan) (t : Target)
    → resolve_candidate_api_target env canaries user plan ≡ some t
    → IsServed env canaries user plan t
resolve_candidate_api_target-IsServed env [] user plan t h =
    unfold resolve_candidate_api_target in cc
resolve_candidate_api_target-IsServed env (c ∷ canaries) user plan t h =
    elim (Bool-cases (serves_api env user plan c)) [
      | inr skip ↦
          let v =
            resolve_candidate_api_target-IsServed env canaries user plan t
              (sym (target-next env c canaries user plan skip) ∙ h) in
          record {
            canary = v.canary;
            active = Memᴰ.tail v.active;
            same_canary = v.same_canary;
            same_version = v.same_version;
            applies = v.applies;
            in_cohort = v.in_cohort;
            attested = v.attested;
            https = v.https;
            stays = v.stays;
          }
      | inl here ↦
          let (id, version, https, stays) = target-first env c canaries user plan t here h in
          record {
            canary = c;
            active = Memᴰ.head refl;
            same_canary = id;
            same_version = version;
            applies = ground arith;
            in_cohort = selected-IsInCohort env c user (ground arith);
            attested = ground arith;
            https = https;
            stays = stays;
          }
    ]
