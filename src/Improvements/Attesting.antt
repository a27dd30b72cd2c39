-- ===== src/Improvements/Attesting.antt =====
-- What is reported of a candidate: its files and its validation (`register_improvement_candidate`),
-- its deployment (`register_candidate_deployment`, `attest_candidate_deployment`) and its production
-- (`attest_promoted_production`) in app/api/routes/admin.py. The digest of a registration, the tests
-- of its files and of the web addresses in an attestation are parameters.
use google_connector_app.Prelude.{
  ℕ, String, Bool, true, false, not, ◌&&◌, Option, none, some, List, [], any, find, nonempty,
  update_where, str_eq, if◌then◌else◌,
}
use google_connector_app.Json.{Value}
use google_connector_app.Improvements.{
  ProposalStatus, CandidateKind, CandidateState, Publication, Report, Manifest, Evidence, Proposal,
  Canary, Bundle, Db, Outcome, refused, committed, conflict, unprocessable, is_code, is_validated,
  is_passed, is_approved_for_canary, same_version, set_proposal, has_canary_id, is_never_started,
  has_bundle_hash, is_canary_bundle, publish_as, proposal_of,
}
use google_connector_app.Improvements.Surfaces.{unsupported_candidate_surfaces}
use google_connector_app.Improvements.Deciding.{latest_canary, to_control, coalesce, given}

-- `ImprovementCandidateRegistration`, with its digest and whether its files pass
-- `validate_candidate_files` and `validate_candidate_adoption`.
pub record Registration : Type 0 where
  pub proposal_key : String
  pub candidate_kind : CandidateKind
  pub base_version : String
  pub candidate_version : String
  pub file_paths : List String
  pub files_are_valid : Bool
  pub validation_report : Report
  pub applicability : Value
  pub digest : String

abbrev pub no_evidence : Evidence
no_evidence = record { verified = false; candidate_version = none; trusted_identity = none }

abbrev pub register : Registration → Proposal → Proposal
register body p = record p {
  candidate_kind = body.candidate_kind;
  candidate_state = CandidateState.validated_implementation;
  source_version = some body.base_version;
  candidate_version = some body.candidate_version;
  manifest = record {
    okf_bundle_hash = none;
    okf_approval = none;
    applicability = body.applicability;
    runtime_surfaces = [];
    production_merge = none;
  };
  validation_report = body.validation_report;
  deployment_evidence = no_evidence;
  content_hash = body.digest;
  status = ProposalStatus.awaiting_review;
  file_paths = body.file_paths;
}

abbrev accepts_candidate : ProposalStatus → Bool
accepts_candidate ProposalStatus.awaiting_review = true
accepts_candidate ProposalStatus.changes_requested = true
accepts_candidate s = false

abbrev is_valid_registration : Registration → Bool
is_valid_registration body =
    body.files_are_valid && body.validation_report.passed && body.validation_report.has_commands

unfoldable pub register_improvement_candidate : Registration → Db → Outcome
register_improvement_candidate body db =
    if not (is_valid_registration body)
    then refused (unprocessable "errors")
    else elim (proposal_of body.proposal_key db) [
      | none ↦ refused (conflict "Proposal cannot accept a candidate in its current state")
      | some p ↦
          if not (accepts_candidate p.status)
          then refused (conflict "Proposal cannot accept a candidate in its current state")
          else committed (record db { proposals = set_proposal p.id (register body) db.proposals })
    ]

-- `ImprovementDeploymentEvidence`
pub record DeploymentEvidence : Type 0 where
  pub proposal_key : String
  pub candidate_version : String
  pub verified : Bool
  pub smoke_tests_passed : Bool

abbrev pub evidence_of : String → Option String → Evidence
evidence_of version identity = record {
  verified = true;
  candidate_version = some version;
  trusted_identity = identity;
}

abbrev pub with_evidence : Evidence → Proposal → Proposal
with_evidence e p = record p { deployment_evidence = e }

unfoldable pub register_candidate_deployment : DeploymentEvidence → Db → Outcome
register_candidate_deployment body db = elim (proposal_of body.proposal_key db) [
  | none ↦ refused (conflict "A validated implementation candidate is required")
  | some p ↦
      if not (is_validated p.candidate_state)
      then refused (conflict "A validated implementation candidate is required")
      else if is_code p.candidate_kind
      then refused (conflict "Code deployment evidence must come from the trusted controller")
      else if not (same_version p.candidate_version (some body.candidate_version))
      then refused (conflict "Deployment version does not match the frozen candidate")
      else if not (body.verified && body.smoke_tests_passed)
      then refused (unprocessable "Verified deployment and passing smoke tests are required")
      else committed (record db {
        proposals =
            set_proposal p.id (with_evidence (evidence_of body.candidate_version none))
              db.proposals;
      })
]

-- `CandidateDeploymentAttestation`: whether it names the governed project and worker and passed its
-- smoke tests, and whether its surfaces and addresses are those that the proposal's manifest wants.
pub record DeploymentAttestation : Type 0 where
  pub proposal_key : String
  pub is_governed : Bool
  pub is_verified : Bool
  pub candidate_version : String
  pub source_commit : String
  pub has_expected_surfaces : Manifest → Bool
  pub has_expected_addresses : Manifest → Bool
  pub trusted_identity : String

unfoldable pub attestation_objection : DeploymentAttestation → Proposal → Option String
attestation_objection body p =
    if not (is_approved_for_canary p.status)
    then some "Candidate must have human canary approval"
    else if not (same_version p.candidate_version (some body.candidate_version))
    then some "Deployment commit does not match the frozen candidate"
    else if not (str_eq body.source_commit body.candidate_version)
    then some "Deployment source is not the approved candidate commit"
    else if nonempty (unsupported_candidate_surfaces p.file_paths)
    then some "This candidate requires an isolated frontend preview/router"
    else if not (body.has_expected_surfaces p.manifest)
    then some "Deployment runtime surfaces do not match the frozen candidate"
    else if not (body.has_expected_addresses p.manifest)
    then some "Deployment addresses do not match the frozen candidate"
    else none

unfoldable pub attest_candidate_deployment : DeploymentAttestation → Db → Outcome
unfolding attestation_objection
attest_candidate_deployment body db =
    if not body.is_governed
    then refused (conflict "Deployment project does not match the governed project")
    else if not body.is_verified
    then refused (unprocessable "Verified isolated deployment and smoke tests are required")
    else elim (proposal_of body.proposal_key db) [
      | none ↦ refused (conflict "Candidate must have human canary approval")
      | some p ↦ elim (attestation_objection body p) [
        | some reason ↦ refused (conflict reason)
        | none ↦ committed (record db {
          proposals =
              set_proposal p.id
                (with_evidence (evidence_of body.candidate_version (some body.trusted_identity)))
                db.proposals;
        })
      ]
    ]

-- `ProductionDeploymentAttestation`
pub record ProductionAttestation : Type 0 where
  pub is_governed : Bool
  pub is_verified : Bool
  pub production_commit : String

abbrev is_merged_at : String → Option String → Bool
is_merged_at commit none = false
is_merged_at commit (some c) = str_eq c commit

abbrev is_production_pending : ProposalStatus → Bool
is_production_pending ProposalStatus.production_pending = true
is_production_pending s = false

-- The proposals that the attested commit may publish: the first row stands for the newest.
abbrev pub is_promoted_at : String → Proposal → Bool
is_promoted_at commit p =
    is_production_pending p.status && is_merged_at commit p.manifest.production_merge

abbrev pub publish : Proposal → Proposal
publish p = record p { status = ProposalStatus.published }

abbrev pub close_routing : ℕ → Canary → Canary
close_routing now c = record c {
  routing_enabled = false;
  ended_at = some (coalesce c.ended_at now);
}

abbrev in_canary : String → Bundle → Bool
in_canary hash b = has_bundle_hash hash b && is_canary_bundle b.publication_status

-- With the bundle's update, which refuses the whole transaction where it finds no row.
unfoldable pub trust_bundle : Option String → Db → Outcome
trust_bundle none db = committed db
trust_bundle (some hash) db =
    if any (in_canary hash) db.bundles
    then committed (record db {
      bundles = update_where (in_canary hash) (publish_as Publication.trusted) db.bundles;
    })
    else refused (conflict "OKF canary bundle cannot be promoted")

abbrev pub published : ℕ → ProductionAttestation → Proposal → Canary → Db → Db
published now body p c db = record db {
  canaries = update_where (has_canary_id c.id) (close_routing now) db.canaries;
  runs = update_where (is_never_started db.steps c.id) (to_control body.production_commit) db.runs;
  proposals = set_proposal p.id publish db.proposals;
}

unfoldable pub publish_with : ℕ → ProductionAttestation → Proposal → Option Canary → Db → Outcome
unfolding trust_bundle
publish_with now body p none db = refused (conflict "A passing measured canary is required")
publish_with now body p (some c) db =
    if is_passed c.status
    then trust_bundle (given p.manifest.okf_bundle_hash) (published now body p c db)
    else refused (conflict "A passing measured canary is required")

-- An attested commit that no proposal waits for changes nothing.
unfoldable pub attest_promoted_production : ℕ → ProductionAttestation → Db → Outcome
unfolding publish_with latest_canary
attest_promoted_production now body db =
    if not body.is_governed
    then refused (conflict "Production deployment project does not match")
    else if not body.is_verified
    then refused (unprocessable "Passing production smoke evidence is required")
    else elim (find (is_promoted_at body.production_commit) db.proposals) [
      | none ↦ committed db
      | some p ↦ publish_with now body p (latest_canary p.id db.canaries) db
    ]
