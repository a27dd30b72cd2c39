-- ===== src/Improvements/Deciding.antt =====
-- The human decisions of app/api/routes/admin.py: the review of a candidate's knowledge, its canary,
-- the canary's activation and its promotion. `Settings` are the values of get_settings() and the
-- clock; a new row's id is the first that is free.
use google_connector_app.Prelude.{
  ℕ, ◌+◌, String, Bool, true, false, not, ◌&&◌, ◌||◌, Option, none, some, List, [], ◌∷◌, ◌++◌, any,
  nonempty, update_where, str_eq, ltb, ◌==◌, max, if◌then◌else◌,
}
use google_connector_app.Json.{get, fields, texts, truthy}
use google_connector_app.Runs.{Run}
use google_connector_app.Improvements.{
  ProposalStatus, CandidateKind, CanaryStatus, Publication, Stage, Verdict, Evidence, Proposal,
  Canary, Approval, Bundle, Db, Outcome, refused, committed, conflict, unprocessable, is_code,
  is_validated, is_awaiting_review, is_approved, is_change_request, is_okf_approved, is_given,
  or_text, set_proposal, has_canary_id, is_of_proposal, is_never_started, has_bundle_hash,
  is_validated_bundle, is_canary_bundle, publish_as, proposal_of,
}
use google_connector_app.Improvements.Surfaces.{unsupported_candidate_surfaces}

-- `ImprovementDecision`, with the reviewer; `note` is the note without its outer blanks.
pub record ImprovementDecision : Type 0 where
  pub proposal_key : String
  pub decision : Verdict
  pub proposal_hash : String
  pub note : String
  pub user_id : String

-- `CanaryActivationDecision`; the lists hold the users' names stripped and in lower case.
pub record CanaryActivationDecision : Type 0 where
  pub proposal_key : String
  pub decision : Verdict
  pub proposal_hash : String
  pub traffic_percent : ℕ
  pub allowed_users : List String
  pub denied_users : List String

-- `prefix`: the first twelve characters of a text.
pub record Settings : Type 0 where
  pub candidate_worker_rag_enabled : Bool
  pub now : ℕ
  pub prefix : String → String

-- `started_at DESC NULLS LAST, id DESC`: the first of two rows.
abbrev pub is_later : Canary → Canary → Bool
is_later a b = elim a.started_at [
  | none ↦ elim b.started_at [ none ↦ ltb b.id a.id | some t ↦ false ]
  | some s ↦ elim b.started_at [ none ↦ true | some t ↦ ltb t s || s == t && ltb b.id a.id ]
]

abbrev later_of : Canary → Option Canary → Canary
later_of a none = a
later_of a (some b) = if is_later b a then b else a

-- `WHERE proposal_id=$1 ORDER BY started_at DESC NULLS LAST, id DESC LIMIT 1`
unfoldable pub latest_canary : ℕ → List Canary → Option Canary
latest_canary id [] = none
latest_canary id (c ∷ canaries) =
    let rest = latest_canary id canaries in
    if is_of_proposal id c then some (later_of c rest) else rest

abbrev pub is_open : CanaryStatus → Bool
is_open CanaryStatus.pending = true
is_open CanaryStatus.active = true
is_open CanaryStatus.passed = true
is_open s = false

-- `COALESCE(value, other)`
abbrev pub coalesce : Option ℕ → ℕ → ℕ
coalesce none other = other
coalesce (some t) other = t

abbrev pub retire_canary : ℕ → Canary → Canary
retire_canary now c = record c {
  routing_enabled = false;
  status = if is_open c.status then CanaryStatus.rolled_back else c.status;
  ended_at = some (coalesce c.ended_at now);
}

abbrev pub to_control : String → Run → Run
to_control control_version r = record r {
  executor_version = control_version;
  cohort_assignment = "control";
  canary_id = none;
}

abbrev is_retirable : Publication → Bool
is_retirable s = is_validated_bundle s || is_canary_bundle s

abbrev retire_bundle : Option String → Publication → List Bundle → List Bundle
retire_bundle none okf_state bundles = bundles
retire_bundle (some hash) okf_state bundles =
    update_where (λ b. has_bundle_hash hash b && is_retirable b.publication_status)
      (publish_as okf_state) bundles

abbrev retire_latest : ℕ → Option Canary → Db → Db
retire_latest now none db = db
retire_latest now (some c) db = record db {
  canaries = update_where (has_canary_id c.id) (retire_canary now) db.canaries;
  runs = update_where (is_never_started db.steps c.id) (to_control c.control_version) db.runs;
}

-- `if bundle_hash:`
abbrev pub given : Option String → Option String
given none = none
given (some t) = if str_eq t "" then none else some t

-- `_retire_candidate_routing`
unfoldable pub retire_candidate_routing : ℕ → Proposal → Publication → Db → Db
unfolding latest_canary
retire_candidate_routing now p okf_state db =
    let routed = retire_latest now (latest_canary p.id db.canaries) db in
    record routed {
      bundles = retire_bundle (given p.manifest.okf_bundle_hash) okf_state db.bundles;
    }

abbrev pub approval_of : Stage → Proposal → ImprovementDecision → Approval
approval_of stage p body = record {
  proposal_id = p.id;
  stage = stage;
  proposal_hash = body.proposal_hash;
  decision = body.decision;
  decided_by = body.user_id;
}

abbrev pub lacks_note : ImprovementDecision → Bool
lacks_note body = is_change_request body.decision && str_eq body.note ""

-- `decide_candidate_okf`
abbrev pub record_okf_decision : Verdict → Proposal → Proposal
record_okf_decision v p = record p {
  manifest = record p.manifest { okf_approval = some v };
  status = if is_approved v then p.status else ProposalStatus.changes_requested;
}

abbrev reject_bundle : Bool → String → List Bundle → List Bundle
reject_bundle true hash bundles = bundles
reject_bundle false hash bundles =
    update_where (λ b. has_bundle_hash hash b && is_validated_bundle b.publication_status)
      (publish_as Publication.rejected) bundles

abbrev okf_decided : ImprovementDecision → Proposal → String → Db → Db
okf_decided body p hash db = record db {
  approvals = db.approvals ++ approval_of Stage.okf_publication p body ∷ [];
  proposals = set_proposal p.id (record_okf_decision body.decision) db.proposals;
  bundles = reject_bundle (is_approved body.decision) hash db.bundles;
}

unfoldable pub decide_candidate_okf_of : ImprovementDecision → Proposal → Db → Outcome
decide_candidate_okf_of body p db =
    if not (is_awaiting_review p.status)
    then refused (conflict "Candidate is not awaiting review")
    else if not (str_eq p.content_hash body.proposal_hash)
    then refused (conflict "Proposal changed; review the new frozen hash")
    else elim (given p.manifest.okf_bundle_hash) [
      | none ↦ refused (conflict "This candidate has no staged OKF bundle")
      | some hash ↦
          if lacks_note body
          then refused (unprocessable "A change-request note is required")
          else committed (okf_decided body p hash db)
    ]

unfoldable pub decide_candidate_okf : ImprovementDecision → Db → Outcome
unfolding decide_candidate_okf_of
decide_candidate_okf body db = elim (proposal_of body.proposal_key db) [
  | none ↦ refused (conflict "Candidate is not awaiting review")
  | some p ↦ decide_candidate_okf_of body p db
]

-- The rows that the join of `competing` counts: a code proposal of this id.
abbrev pub is_code_proposal : ℕ → Proposal → Bool
is_code_proposal id p = p.id == id && is_code p.candidate_kind

-- A canary of another code proposal that is pending, active or passed.
abbrev pub competes_with : ℕ → List Proposal → Canary → Bool
competes_with id proposals c =
    not (c.proposal_id == id) && is_open c.status && any (is_code_proposal c.proposal_id) proposals

abbrev pub rag_modes_of : Proposal → List String
rag_modes_of p = texts (get "rag_modes" (fields p.manifest.applicability))

-- The checks of an approval, in their order: the first that fails names the refusal.
unfoldable pub canary_objection : Settings → Proposal → Db → Option String
canary_objection s p db =
    if not (is_validated p.candidate_state)
    then some "This is a diagnosis-only finding"
    else if not (is_given p.validation_report.trusted_identity)
    then some "A trusted CI attestation bound to the candidate commit is required"
    else if is_code p.candidate_kind && nonempty (unsupported_candidate_surfaces p.file_paths)
    then some "Candidate requires an unconfigured isolated runtime"
    else if is_code p.candidate_kind && any (competes_with p.id db.proposals) db.canaries
    then some "Another code candidate owns the isolated canary runtime"
    else if is_given p.manifest.okf_bundle_hash && not (is_okf_approved p.manifest.okf_approval)
    then some "The candidate OKF overlay requires separate human approval"
    else if not (truthy p.manifest.applicability)
    then some "Candidate applicability must be explicitly bounded"
    else if not (nonempty (rag_modes_of p))
    then some "Candidate applicability must declare RAG modes"
    else if is_code p.candidate_kind
        && any (λ mode. not (str_eq mode "none")) (rag_modes_of p)
        && not s.candidate_worker_rag_enabled
    then some "The isolated candidate worker has no candidate-scoped embedding endpoint"
    else none

abbrev pub reviewed_status : Verdict → ProposalStatus
reviewed_status Verdict.approved = ProposalStatus.approved_for_canary
reviewed_status Verdict.rejected = ProposalStatus.rejected
reviewed_status Verdict.changes_requested = ProposalStatus.changes_requested

abbrev pub retired_state : Verdict → Publication
retired_state Verdict.rejected = Publication.rejected
retired_state v = Publication.rolled_back

-- The kinds that run on the control's executor are deployed by their version alone.
abbrev is_virtual : CandidateKind → Bool
is_virtual CandidateKind.okf = true
is_virtual CandidateKind.config = true
is_virtual CandidateKind.prompt = true
is_virtual k = false

abbrev virtual_evidence : Proposal → Evidence
virtual_evidence p = record {
  verified = true;
  candidate_version = p.candidate_version;
  trusted_identity = some "versioned-policy-registry";
}

abbrev pub review_as : Verdict → Proposal → Proposal
review_as v p = record p {
  status = reviewed_status v;
  deployment_evidence =
      if is_approved v && is_virtual p.candidate_kind
      then virtual_evidence p
      else p.deployment_evidence;
}

abbrev pub next_canary_id : List Canary → ℕ
next_canary_id [] = 1
next_canary_id (c ∷ canaries) = max (c.id + 1) (next_canary_id canaries)

abbrev pub new_canary : Settings → Proposal → List Canary → Canary
new_canary s p canaries = record {
  id = next_canary_id canaries;
  proposal_id = p.id;
  status = CanaryStatus.pending;
  routing_enabled = false;
  traffic_percent = 5;
  allowed_users = [];
  denied_users = [];
  control_version = or_text p.source_version "current";
  candidate_version = or_text p.candidate_version (s.prefix p.content_hash);
  started_at = none;
  ended_at = none;
}

-- The approval row and the new status, on every verdict.
abbrev pub reviewed : ImprovementDecision → Proposal → Db → Db
reviewed body p db = record db {
  approvals = db.approvals ++ approval_of Stage.canary p body ∷ [];
  proposals = set_proposal p.id (review_as body.decision) db.proposals;
}

unfoldable pub canary_decided : Settings → ImprovementDecision → Proposal → Db → Db
unfolding retire_candidate_routing
canary_decided s body p db =
    let after = reviewed body p db in
    if is_approved body.decision
    then record after { canaries = db.canaries ++ new_canary s p db.canaries ∷ [] }
    else retire_candidate_routing s.now p (retired_state body.decision) after

abbrev pub approval_objection : Settings → ImprovementDecision → Proposal → Db → Option String
approval_objection s body p db = if is_approved body.decision then canary_objection s p db else none

unfoldable pub decide_canary_of : Settings → ImprovementDecision → Proposal → Db → Outcome
unfolding canary_objection canary_decided
decide_canary_of s body p db =
    if not (is_awaiting_review p.status)
    then refused (conflict "Proposal is not awaiting review")
    else if not (str_eq p.content_hash body.proposal_hash)
    then refused (conflict "Proposal changed; review the new version")
    else elim (approval_objection s body p db) [
      | some reason ↦ refused (conflict reason)
      | none ↦
          if lacks_note body
          then refused (unprocessable "A change-request note is required")
          else committed (canary_decided s body p db)
    ]

unfoldable pub decide_canary : Settings → ImprovementDecision → Db → Outcome
unfolding decide_canary_of
decide_canary s body db = elim (proposal_of body.proposal_key db) [
  | none ↦ refused (conflict "Proposal is not awaiting review")
  | some p ↦ decide_canary_of s body p db
]
