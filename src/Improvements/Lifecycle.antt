-- ===== src/Improvements/Lifecycle.antt =====
-- Every order in which the modelled handlers and turns of the analyzer's loop may follow one another:
-- a step is one committed transaction of any of them, on any proposal. The builder's draft and the CI
-- attestation of a build, which rewrite a proposal whatever its status, are no steps.
pub mod Rows
pub mod Keeping
pub mod Reviewing
pub mod Promoting
pub mod Reporting
pub mod Governed
use google_connector_app.Prelude.{
  ℕ, String, Bool, true, false, not, ◌&&◌, ◌||◌, ◌≡◌, Option, some, List, find, any, all,
  count_where, ◌≤◌, str_eq, ◌==◌,
}
use google_connector_app.Runs.{Run}
use google_connector_app.Improvements.{
  ProposalStatus, CanaryStatus, Stage, Verdict, Proposal, Canary, Approval, Db, committed, has_id,
  is_active, is_passed, is_approved, is_approved_for_canary, same_version,
}
use google_connector_app.Improvements.Deciding.{
  ImprovementDecision, CanaryActivationDecision, Settings, decide_candidate_okf, decide_canary,
}
use google_connector_app.Improvements.Activating.{
  activate_canary, decide_promotion, record_publication,
}
use google_connector_app.Improvements.Attesting.{
  Registration, DeploymentEvidence, DeploymentAttestation, ProductionAttestation,
  register_improvement_candidate, register_candidate_deployment, attest_candidate_deployment,
  attest_promoted_production,
}
use google_connector_app.Improvements.Measuring.{Telemetry, evaluate_canary, expire_stale_proposals}

pub data Step (telemetry : Telemetry) (db : Db) : Db → Type 0 where
  review_okf :
      (body : ImprovementDecision) {after : Db}
      → decide_candidate_okf body db ≡ committed after
      → Step telemetry db after
  review :
      (s : Settings) (body : ImprovementDecision) {after : Db}
      → decide_canary s body db ≡ committed after
      → Step telemetry db after
  activate :
      (now : ℕ) (body : CanaryActivationDecision) {after : Db}
      → activate_canary now body db ≡ committed after
      → Step telemetry db after
  promote :
      (s : Settings) (body : ImprovementDecision) {after : Db}
      → decide_promotion s body db ≡ committed after
      → Step telemetry db after
  -- What `decide_promotion` records once the pull request is merged: nothing else moves a proposal
  -- whose publication is approved.
  merge :
      (p : Proposal) (commit : Option String)
      → find (has_id p.id) db.proposals ≡ some p
      → p.status ≡ ProposalStatus.approved_for_publication
      → Step telemetry db (record_publication p.id commit db)
  register :
      (body : Registration) {after : Db}
      → register_improvement_candidate body db ≡ committed after
      → Step telemetry db after
  deploy :
      (body : DeploymentEvidence) {after : Db}
      → register_candidate_deployment body db ≡ committed after
      → Step telemetry db after
  attest :
      (body : DeploymentAttestation) {after : Db}
      → attest_candidate_deployment body db ≡ committed after
      → Step telemetry db after
  publish :
      (now : ℕ) (body : ProductionAttestation) {after : Db}
      → attest_promoted_production now body db ≡ committed after
      → Step telemetry db after
  evaluate : (now id : ℕ) → Step telemetry db (evaluate_canary telemetry now id db)
  expire : (now : ℕ) → Step telemetry db (expire_stale_proposals now db)

pub data Reach (telemetry : Telemetry) (db : Db) : Db → Type 0 where
  here : Reach telemetry db db
  next : {t u : Db} → Reach telemetry db t → Step telemetry t u → Reach telemetry db u

-- A human approved this stage of this proposal, for this content.
abbrev pub is_stage : Stage → Stage → Bool
is_stage Stage.okf_publication Stage.okf_publication = true
is_stage Stage.canary Stage.canary = true
is_stage Stage.promotion Stage.promotion = true
is_stage a b = false

abbrev pub approves : Stage → Proposal → Approval → Bool
approves stage p a =
    a.proposal_id == p.id
    && is_stage stage a.stage
    && str_eq a.proposal_hash p.content_hash
    && is_approved a.decision

abbrev pub approves_canary_of : ℕ → Approval → Bool
approves_canary_of id a =
    a.proposal_id == id && is_stage Stage.canary a.stage && is_approved a.decision

abbrev pub is_cleared : ProposalStatus → Bool
is_cleared ProposalStatus.approved_for_canary = true
is_cleared ProposalStatus.canary_active = true
is_cleared s = false

abbrev pub is_canary_active : ProposalStatus → Bool
is_canary_active ProposalStatus.canary_active = true
is_canary_active s = false

abbrev pub is_promoted : ProposalStatus → Bool
is_promoted ProposalStatus.approved_for_publication = true
is_promoted ProposalStatus.production_pending = true
is_promoted ProposalStatus.published = true
is_promoted s = false

abbrev pub has_proof : Proposal → Bool
has_proof p =
    p.deployment_evidence.verified
    && same_version p.deployment_evidence.candidate_version p.candidate_version

abbrev pub is_backed : List Approval → Proposal → Bool
is_backed approvals p =
    (not (is_cleared p.status) || any (approves Stage.canary p) approvals)
    && ((not (is_canary_active p.status) || has_proof p)
        && (not (is_promoted p.status) || any (approves Stage.promotion p) approvals))

abbrev pub is_lawful : List Approval → Canary → Bool
is_lawful approvals c =
    (not c.routing_enabled || (is_active c.status || is_passed c.status))
    && any (approves_canary_of c.proposal_id) approvals

-- What holds of the tables between two transactions: ids of proposals are unique; a proposal that is
-- cleared for its canary has a human canary approval of its current content, with an active canary
-- also verified evidence of its deployed version, and a promoted one has a human promotion approval
-- of it; a canary that receives traffic is active or passed, and none exists without an approval.
pub record IsGoverned (db : Db) : Type 0 where
  pub unique : (id : ℕ) → count_where (has_id id) db.proposals ≤ 1
  pub backed : all (is_backed db.approvals) db.proposals ≡ true
  pub lawful : all (is_lawful db.approvals) db.canaries ≡ true
