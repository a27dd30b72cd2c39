-- ===== src/Improvements/Activating.antt =====
-- `activate_canary` and `decide_promotion` of app/api/routes/admin.py. The merge of the candidate's
-- pull request, which follows the transaction, is a parameter: its commit, or none if it failed.
use google_connector_app.Prelude.{
  ℕ, String, Bool, true, false, not, ◌&&◌, Option, none, some, List, [], ◌∷◌, ◌++◌, any, find,
  update_where, str_eq, ltb, if◌then◌else◌,
}
use google_connector_app.Improvements.{
  ProposalStatus, CandidateState, CanaryStatus, Publication, Stage, Verdict, Proposal, Canary,
  Bundle, Db, Outcome, refused, committed, conflict, unprocessable, is_code, is_pending, is_passed,
  is_approved_for_canary, is_awaiting_promotion, is_approved, is_given, same_version, set_proposal,
  has_canary_id, is_of_proposal, has_bundle_hash, is_validated_bundle, is_canary_bundle, publish_as,
  proposal_of,
}
use google_connector_app.Improvements.Deciding.{
  ImprovementDecision, CanaryActivationDecision, Settings, retire_candidate_routing, approval_of,
  retired_state, given,
}

abbrev later_id : Canary → Option Canary → Canary
later_id a none = a
later_id a (some b) = if ltb a.id b.id then b else a

-- `WHERE proposal_id=$1 AND status='pending' ORDER BY id DESC LIMIT 1`
unfoldable pub pending_canary : ℕ → List Canary → Option Canary
pending_canary id [] = none
pending_canary id (c ∷ canaries) =
    let rest = pending_canary id canaries in
    if is_of_proposal id c && is_pending c.status then some (later_id c rest) else rest

abbrev pub activate : ℕ → CanaryActivationDecision → Canary → Canary
activate now body c = record c {
  status = CanaryStatus.active;
  started_at = some now;
  routing_enabled = true;
  traffic_percent = body.traffic_percent;
  allowed_users = body.allowed_users;
  denied_users = body.denied_users;
}

abbrev pub deploy : Proposal → Proposal
deploy p = record p {
  status = ProposalStatus.canary_active;
  candidate_state = CandidateState.deployed_canary;
}

abbrev is_staged : String → Bundle → Bool
is_staged hash b = has_bundle_hash hash b && is_validated_bundle b.publication_status

abbrev pub activated : ℕ → CanaryActivationDecision → Proposal → Canary → Db → Db
activated now body p c db = record db {
  canaries = update_where (has_canary_id c.id) (activate now body) db.canaries;
  proposals = set_proposal p.id deploy db.proposals;
}

-- With the bundle's update, which refuses the whole transaction where it finds no row.
unfoldable pub stage_bundle : Option String → Db → Outcome
stage_bundle none db = committed db
stage_bundle (some hash) db =
    if any (is_staged hash) db.bundles
    then committed (record db {
      bundles = update_where (is_staged hash) (publish_as Publication.canary) db.bundles;
    })
    else refused (conflict "OKF bundle is not in validated publication state")

-- The evidence is verified and for the frozen version; a code candidate's is the controller's.
unfoldable pub evidence_objection : Proposal → Option String
evidence_objection p =
    if not (
      p.deployment_evidence.verified
      && same_version p.deployment_evidence.candidate_version p.candidate_version)
    then some "Verified deployment evidence for the frozen candidate is required"
    else if is_code p.candidate_kind && not (is_given p.deployment_evidence.trusted_identity)
    then some "Code canaries require deployment evidence from the trusted controller"
    else none

unfoldable pub activate_with :
    ℕ → CanaryActivationDecision → Proposal → Option Canary → Db → Outcome
unfolding stage_bundle
activate_with now body p none db = refused (conflict "Pending canary record not found")
activate_with now body p (some c) db =
    stage_bundle (given p.manifest.okf_bundle_hash) (activated now body p c db)

unfoldable pub activate_canary_of : ℕ → CanaryActivationDecision → Proposal → Db → Outcome
unfolding evidence_objection activate_with pending_canary
activate_canary_of now body p db =
    if not (is_approved_for_canary p.status)
    then refused (conflict "Proposal is not approved for canary")
    else if not (str_eq p.content_hash body.proposal_hash)
    then refused (conflict "Proposal changed; review the new version")
    else elim (evidence_objection p) [
      | some reason ↦ refused (conflict reason)
      | none ↦ activate_with now body p (pending_canary p.id db.canaries) db
    ]

unfoldable pub activate_canary : ℕ → CanaryActivationDecision → Db → Outcome
unfolding activate_canary_of
activate_canary now body db =
    if not (is_approved body.decision)
    then refused (unprocessable "Canary activation requires an approved decision")
    else elim (proposal_of body.proposal_key db) [
      | none ↦ refused (conflict "Proposal is not approved for canary")
      | some p ↦ activate_canary_of now body p db
    ]

abbrev pub promoted_status : Verdict → ProposalStatus
promoted_status Verdict.approved = ProposalStatus.approved_for_publication
promoted_status Verdict.rejected = ProposalStatus.rejected
promoted_status Verdict.changes_requested = ProposalStatus.changes_requested

abbrev pub promote_as : Verdict → Proposal → Proposal
promote_as v p = record p { status = promoted_status v }

abbrev pub is_passed_canary : ℕ → Canary → Bool
is_passed_canary id c = is_of_proposal id c && is_passed c.status

-- `SELECT publication_status … WHERE bundle_hash=$1`, compared with 'canary'
abbrev in_canary : Option String → List Bundle → Bool
in_canary none bundles = true
in_canary (some hash) bundles = elim (find (has_bundle_hash hash) bundles) [
  | none ↦ false
  | some b ↦ is_canary_bundle b.publication_status
]

unfoldable pub promotion_objection : Proposal → Db → Option String
promotion_objection p db =
    if not (any (is_passed_canary p.id) db.canaries)
    then some "A measured passing canary is required before promotion"
    else if not (in_canary (given p.manifest.okf_bundle_hash) db.bundles)
    then some "OKF bundle must complete validated canary state before publication"
    else none

abbrev pub promoted : ImprovementDecision → Proposal → Db → Db
promoted body p db = record db {
  approvals = db.approvals ++ approval_of Stage.promotion p body ∷ [];
  proposals = set_proposal p.id (promote_as body.decision) db.proposals;
}

unfoldable pub promotion_decided : Settings → ImprovementDecision → Proposal → Db → Db
unfolding retire_candidate_routing
promotion_decided s body p db =
    let after = promoted body p db in
    if is_approved body.decision
    then after
    else retire_candidate_routing s.now p (retired_state body.decision) after

abbrev pub objection : ImprovementDecision → Proposal → Db → Option String
objection body p db = if is_approved body.decision then promotion_objection p db else none

unfoldable pub decide_promotion_of : Settings → ImprovementDecision → Proposal → Db → Outcome
unfolding promotion_objection promotion_decided
decide_promotion_of s body p db =
    if not (is_awaiting_promotion p.status)
    then refused (conflict "Proposal is not awaiting promotion")
    else if not (str_eq p.content_hash body.proposal_hash)
    then refused (conflict "Proposal changed; review the new version")
    else elim (objection body p db) [
      | some reason ↦ refused (conflict reason)
      | none ↦ committed (promotion_decided s body p db)
    ]

unfoldable pub decide_promotion : Settings → ImprovementDecision → Db → Outcome
unfolding decide_promotion_of
decide_promotion s body db = elim (proposal_of body.proposal_key db) [
  | none ↦ refused (conflict "Proposal is not awaiting promotion")
  | some p ↦ decide_promotion_of s body p db
]

abbrev pub merge_as : String → Proposal → Proposal
merge_as commit p = record p {
  status = ProposalStatus.production_pending;
  manifest = record p.manifest { production_merge = some commit };
}

-- The second transaction, after an approval: the merge's commit, where there is one.
unfoldable pub record_publication : ℕ → Option String → Db → Db
record_publication id none db = db
record_publication id (some commit) db = record db {
  proposals = set_proposal id (merge_as commit) db.proposals;
}
