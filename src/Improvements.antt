-- ===== src/Improvements.antt =====
-- The life of an improvement proposal, from its review to production: the tables that
-- app/api/routes/admin.py and app/improvements/analyzer.py share (migrations/versions/003, 009 and
-- 012). A JSON column is a record of the keys that the code reads.
pub mod Surfaces
pub mod Deciding
pub mod Activating
pub mod Attesting
pub mod Measuring
pub mod Lifecycle
pub mod Retired
pub mod Owned
mod Tests
use google_connector_app.Prelude.{
  ℕ, String, Bool, true, false, not, ◌&&◌, Option, none, some, List, any, find, update_where, ◌==◌,
  str_eq, if◌then◌else◌,
}
use google_connector_app.Json.{Value}
use google_connector_app.Runs.{Run, RunStatus, Step, StepStatus}

pub data ProposalStatus : Type 0 where
  drafted awaiting_review changes_requested approved_for_canary canary_active awaiting_promotion :
      ProposalStatus
  approved_for_publication production_pending published rejected rolled_back expired :
      ProposalStatus

pub data CandidateKind : Type 0 where
  diagnosis code okf config prompt : CandidateKind

pub data CandidateState : Type 0 where
  diagnosis_only implementation_draft validated_implementation deployed_canary : CandidateState

pub data CanaryStatus : Type 0 where
  pending active passed rolled_back : CanaryStatus

pub data Publication : Type 0 where
  draft validated canary trusted rolled_back rejected : Publication

pub data Stage : Type 0 where
  okf_publication canary promotion : Stage

pub data Verdict : Type 0 where
  approved rejected changes_requested : Verdict

-- validation_report: what CI, or the registering administrator, reports of the candidate.
pub record Report : Type 0 where
  pub passed : Bool
  pub has_commands : Bool
  pub trusted_identity : Option String

-- candidate_manifest; `production_merge` is the commit of the merge that published it.
pub record Manifest : Type 0 where
  pub okf_bundle_hash : Option String
  pub okf_approval : Option Verdict
  pub applicability : Value
  pub runtime_surfaces : List String
  pub production_merge : Option String

-- deployment_evidence
pub record Evidence : Type 0 where
  pub verified : Bool
  pub candidate_version : Option String
  pub trusted_identity : Option String

-- A row of improvement_proposals; its candidate's file paths stand with it.
pub record Proposal : Type 0 where
  pub id : ℕ
  pub proposal_key : String
  pub status : ProposalStatus
  pub candidate_kind : CandidateKind
  pub candidate_state : CandidateState
  pub content_hash : String
  pub source_version : Option String
  pub candidate_version : Option String
  pub manifest : Manifest
  pub validation_report : Report
  pub deployment_evidence : Evidence
  pub file_paths : List String
  pub expires_at : ℕ

-- A row of improvement_canaries.
pub record Canary : Type 0 where
  pub id : ℕ
  pub proposal_id : ℕ
  pub status : CanaryStatus
  pub routing_enabled : Bool
  pub traffic_percent : ℕ
  pub allowed_users : List String
  pub denied_users : List String
  pub control_version : String
  pub candidate_version : String
  pub started_at : Option ℕ
  pub ended_at : Option ℕ

-- A row of improvement_approvals.
pub record Approval : Type 0 where
  pub proposal_id : ℕ
  pub stage : Stage
  pub proposal_hash : String
  pub decision : Verdict
  pub decided_by : String

-- A row of okf_bundle_versions.
pub record Bundle : Type 0 where
  pub bundle_hash : String
  pub publication_status : Publication

pub record Db : Type 0 where
  pub proposals : List Proposal
  pub canaries : List Canary
  pub approvals : List Approval
  pub bundles : List Bundle
  pub runs : List Run
  pub steps : List Step

-- The two kinds of HTTPException that the handlers raise (409 and 422).
pub data Refusal : Type 0 where
  conflict unprocessable : String → Refusal

-- A handler is one transaction: an exception in it leaves the tables as they were.
pub data Outcome : Type 0 where
  refused : Refusal → Outcome
  committed : Db → Outcome

abbrev pub is_code : CandidateKind → Bool
is_code CandidateKind.code = true
is_code k = false

abbrev pub is_validated : CandidateState → Bool
is_validated CandidateState.validated_implementation = true
is_validated s = false

abbrev pub is_pending : CanaryStatus → Bool
is_pending CanaryStatus.pending = true
is_pending s = false

abbrev pub is_active : CanaryStatus → Bool
is_active CanaryStatus.active = true
is_active s = false

abbrev pub is_passed : CanaryStatus → Bool
is_passed CanaryStatus.passed = true
is_passed s = false

abbrev pub is_awaiting_review : ProposalStatus → Bool
is_awaiting_review ProposalStatus.awaiting_review = true
is_awaiting_review s = false

abbrev pub is_approved_for_canary : ProposalStatus → Bool
is_approved_for_canary ProposalStatus.approved_for_canary = true
is_approved_for_canary s = false

abbrev pub is_awaiting_promotion : ProposalStatus → Bool
is_awaiting_promotion ProposalStatus.awaiting_promotion = true
is_awaiting_promotion s = false

abbrev pub is_approved : Verdict → Bool
is_approved Verdict.approved = true
is_approved v = false

abbrev pub is_change_request : Verdict → Bool
is_change_request Verdict.changes_requested = true
is_change_request v = false

abbrev pub is_okf_approved : Option Verdict → Bool
is_okf_approved none = false
is_okf_approved (some v) = is_approved v

abbrev pub is_some {ℓ} : {A : Type ℓ} → Option A → Bool
is_some none = false
is_some (some a) = true

-- `bool(value)` of a text that may be missing
abbrev pub is_given : Option String → Bool
is_given none = false
is_given (some t) = not (str_eq t "")

-- `a == b` of two texts that may be missing
abbrev pub same_version : Option String → Option String → Bool
same_version none none = true
same_version none (some b) = false
same_version (some a) none = false
same_version (some a) (some b) = str_eq a b

-- `value or other`
abbrev pub or_text : Option String → String → String
or_text none other = other
or_text (some t) other = if str_eq t "" then other else t

abbrev pub has_key : String → Proposal → Bool
has_key key p = str_eq p.proposal_key key

abbrev pub has_id : ℕ → Proposal → Bool
has_id id p = p.id == id

-- `UPDATE improvement_proposals SET … WHERE id=$1`
abbrev pub set_proposal : ℕ → (Proposal → Proposal) → List Proposal → List Proposal
set_proposal id f = update_where (has_id id) f

abbrev pub has_canary_id : ℕ → Canary → Bool
has_canary_id id c = c.id == id

abbrev pub is_of_proposal : ℕ → Canary → Bool
is_of_proposal id c = c.proposal_id == id

abbrev pub is_unstarted : StepStatus → Bool
is_unstarted StepStatus.running = false
is_unstarted StepStatus.completed = false
is_unstarted s = true

abbrev pub is_queued : RunStatus → Bool
is_queued RunStatus.queued = true
is_queued s = false

-- `canary_id = $1`, which a NULL does not meet
abbrev pub is_of_canary : ℕ → Option ℕ → Bool
is_of_canary id none = false
is_of_canary id (some c) = c == id

abbrev has_started_step : ℕ → Step → Bool
has_started_step run_id s = s.run_id == run_id && not (is_unstarted s.status)

-- A queued run of the candidate cohort, none of whose steps is running or completed.
abbrev pub is_never_started : List Step → ℕ → Run → Bool
is_never_started steps canary_id r =
    is_of_canary canary_id r.canary_id
    && str_eq r.cohort_assignment "candidate"
    && is_queued r.status
    && not (any (has_started_step r.id) steps)

abbrev pub has_bundle_hash : String → Bundle → Bool
has_bundle_hash hash b = str_eq b.bundle_hash hash

abbrev pub is_validated_bundle : Publication → Bool
is_validated_bundle Publication.validated = true
is_validated_bundle s = false

abbrev pub is_canary_bundle : Publication → Bool
is_canary_bundle Publication.canary = true
is_canary_bundle s = false

abbrev pub publish_as : Publication → Bundle → Bundle
publish_as s b = record b { publication_status = s }

-- The row of a proposal by its key.
abbrev pub proposal_of : String → Db → Option Proposal
proposal_of key db = find (has_key key) db.proposals
