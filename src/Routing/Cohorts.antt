-- ===== src/Routing/Cohorts.antt =====
-- Who is routed to a candidate.
use mathlib.Core.List.{Memᴰ}
use google_connector_app.Prelude.{
  ◌<◌, String, ◌≡◌, refl, sym, ap, ◌∙◌, Bool, true, false, not, ◌&&◌, none, some, List, [], ◌∷◌,
  arith, ◌⊎◌, inl, inr, contains, all, Bool-cases, &&-left, &&-right, nonempty,
}
use google_connector_app.Json.{Value}
use google_connector_app.Plans.{ExecutionPlan}
use google_connector_app.Routing.{
  ExecutorAssignment, Canary, Environment, stable_bucket, candidate_applies, cohort_selected,
  is_selected, is_denylisted, cohort_name, resolve_executor_assignment,
}

-- Why a user is in the candidate cohort of a canary.
pub record IsInCohort (env : Environment) (user : String) (c : Canary) : Type 0 where
  pub not_denied : contains c.denied_users user ≡ false
  pub reason :
      (contains c.allowed_users user ≡ true)
      ⊎ ((nonempty c.allowed_users ≡ false) × (stable_bucket env c.id user < c.traffic_percent))

pub selected-IsInCohort :
    (env : Environment) (c : Canary) (user : String)
    → is_selected (cohort_selected env c user) ≡ true
    → IsInCohort env user c
unfolding cohort_selected
selected-IsInCohort env c user h = ground arith

module _ (env : Environment) (c : Canary) (canaries : List Canary) (okf : Value)
    (user control : String) (plan : ExecutionPlan) where
  assignment-next :
      (candidate_applies c.candidate_manifest plan
          && not (is_denylisted (cohort_selected env c user)))
        ≡ false
      → resolve_executor_assignment env (c ∷ canaries) okf user control plan
        ≡ resolve_executor_assignment env canaries okf user control plan
  unfolding resolve_executor_assignment
  assignment-next h = rw (h, resolve_executor_assignment)

  assignment-first :
      (candidate_applies c.candidate_manifest plan
          && not (is_denylisted (cohort_selected env c user)))
        ≡ true
      → ((resolve_executor_assignment env (c ∷ canaries) okf user control plan).canary_id
          ≡ some c.id)
        × ((resolve_executor_assignment env (c ∷ canaries) okf user control plan).cohort
            ≡ cohort_name (is_selected (cohort_selected env c user)))
  unfolding resolve_executor_assignment
  assignment-first h = ground arith

-- The canary that decided an assignment to the candidate cohort.
pub record IsCandidate (env : Environment) (canaries : List Canary) (user : String)
    (plan : ExecutionPlan) (a : ExecutorAssignment) : Type 0 where
  pub canary : Canary
  pub active : Memᴰ canary canaries
  pub pinned : a.canary_id ≡ some canary.id
  pub applies : candidate_applies canary.candidate_manifest plan ≡ true
  pub in_cohort : IsInCohort env user canary

IsCandidate-later :
    (env : Environment) (c : Canary) (canaries : List Canary) (user : String) (plan : ExecutionPlan)
    (a : ExecutorAssignment)
    → IsCandidate env canaries user plan a
    → IsCandidate env (c ∷ canaries) user plan a
IsCandidate-later env c canaries user plan a v = record {
  canary = v.canary;
  active = Memᴰ.tail v.active;
  pinned = v.pinned;
  applies = v.applies;
  in_cohort = v.in_cohort;
}

control-ne-candidate : (b : Bool) → cohort_name b ≡ "candidate" → b ≡ true
control-ne-candidate true h = refl
control-ne-candidate false h = cc

-- Only a user of its cohort is assigned to a candidate: the run is pinned to an active canary whose
-- manifest applies to the plan; the user is not on its denylist; and the user is on its allowlist,
-- or there is no allowlist and the user's stable bucket is below the canary's traffic percentage.
pub resolve_executor_assignment-IsCandidate :
    (env : Environment) (canaries : List Canary) (okf : Value) (user control : String)
    (plan : ExecutionPlan)
    → (resolve_executor_assignment env canaries okf user control plan).cohort ≡ "candidate"
    → IsCandidate env canaries user plan
        (resolve_executor_assignment env canaries okf user control plan)
resolve_executor_assignment-IsCandidate env [] okf user control plan h =
    unfold resolve_executor_assignment in cc
resolve_executor_assignment-IsCandidate env (c ∷ canaries) okf user control plan h =
    elim (Bool-cases (
      candidate_applies c.candidate_manifest plan
      && not (is_denylisted (cohort_selected env c user)))) [
        | inr skip ↦
            let e = assignment-next env c canaries okf user control plan skip in
            rw e (
              IsCandidate-later env c canaries user plan _ (
                resolve_executor_assignment-IsCandidate env canaries okf user control plan
                  (sym (ap (λ (a : ExecutorAssignment). a.cohort) e) ∙ h)))
        | inl here ↦
            let (pinned, cohort) = assignment-first env c canaries okf user control plan here in
            record {
              canary = c;
              active = Memᴰ.head refl;
              pinned = pinned;
              applies = &&-left _ _ here;
              in_cohort = selected-IsInCohort env c user (control-ne-candidate _ (sym cohort ∙ h));
            }
      ]

-- A user who is denied by every canary stays on the control version, with no canary.
pub resolve_executor_assignment-denied :
    (env : Environment) (canaries : List Canary) (okf : Value) (user control : String)
    (plan : ExecutionPlan)
    → all (λ c. contains c.denied_users user) canaries ≡ true
    → ((resolve_executor_assignment env canaries okf user control plan).executor_version ≡ control)
      × ((resolve_executor_assignment env canaries okf user control plan).canary_id ≡ none)
unfolding cohort_selected
resolve_executor_assignment-denied env [] okf user control plan h =
    unfold resolve_executor_assignment in (refl, refl)
resolve_executor_assignment-denied env (c ∷ canaries) okf user control plan h =
    rw (assignment-next env c canaries okf user control plan (ground arith))
      (resolve_executor_assignment-denied env canaries okf user control plan (&&-right _ _ h))
