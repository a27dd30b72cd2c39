-- ===== src/Improvements/Tests.antt =====
-- One code candidate that is reviewed and approved, one whose canary passed, and their rivals.
use mathlib.Core.List.{Memᴰ}
use google_connector_app.Prelude.{
  ℕ, ◌+◌, ◌*◌, ◌/◌, ◌≡◌, ◌≢◌, ◌↔◌, refl, String, true, false, some, none, List, [], ◌∷◌, arith,
  find,
}
use google_connector_app.Json.{dict, field, list, text, Fields, Items}
use google_connector_app.Runs.{Run}
use google_connector_app.Improvements.{
  Proposal, ProposalStatus, CandidateKind, CandidateState, Canary, CanaryStatus, Verdict, Db,
  committed, has_key,
}
use google_connector_app.Improvements.Surfaces.{unsupported_candidate_surfaces}
use google_connector_app.Improvements.Deciding.{
  ImprovementDecision, Settings, decide_canary, latest_canary, canary_decided,
}
use google_connector_app.Improvements.Activating.{decide_promotion, promotion_decided}
use google_connector_app.Improvements.Attesting.{
  ProductionAttestation, attest_promoted_production, no_evidence, published,
}
use google_connector_app.Improvements.Measuring.{
  Metrics, Averages, Floats, assess_canary, expire_stale_proposals,
}
use google_connector_app.Improvements.Measuring.Gates.{assess_canary-IsNoWorse, IsNoWorse}
use google_connector_app.Improvements.Lifecycle.{Step, Reach, IsGoverned}
use google_connector_app.Improvements.Lifecycle.Governed.{Reach-IsGoverned}
use google_connector_app.Improvements.Retired.{IsRetired, decide_promotion-IsRetired}
use google_connector_app.Improvements.Owned.{published-blocks, expired-blocks}

abbrev proposal : ℕ → String → ProposalStatus → Proposal
proposal id key status = record {
  id = id;
  proposal_key = key;
  status = status;
  candidate_kind = CandidateKind.code;
  candidate_state = CandidateState.validated_implementation;
  content_hash = "h";
  source_version = some "v1";
  candidate_version = some "v2";
  manifest = record {
    okf_bundle_hash = none;
    okf_approval = none;
    applicability = dict (field "rag_modes" (list (Items.cons (text "none") Items.nil)) Fields.end);
    runtime_surfaces = "worker" ∷ [];
    production_merge = some "m1";
  };
  validation_report = record { passed = true; has_commands = true; trusted_identity = some "ci" };
  deployment_evidence = no_evidence;
  file_paths = "app/runs/worker.py" ∷ [];
  expires_at = 50;
}

abbrev canary : CanaryStatus → Canary
canary status = record {
  id = 7;
  proposal_id = 1;
  status = status;
  routing_enabled = false;
  traffic_percent = 5;
  allowed_users = [];
  denied_users = [];
  control_version = "v1";
  candidate_version = "v2";
  started_at = some 3;
  ended_at = none;
}

abbrev tables : List Proposal → List Canary → Db
tables proposals canaries = record {
  proposals = proposals;
  canaries = canaries;
  approvals = [];
  bundles = [];
  runs = [];
  steps = [];
}

abbrev settings : Settings
settings = record { candidate_worker_rag_enabled = false; now = 60; prefix = λ t. t }

abbrev decision : String → Verdict → ImprovementDecision
decision key verdict = record {
  proposal_key = key;
  decision = verdict;
  proposal_hash = "h";
  note = "";
  user_id = "ana";
}

abbrev averages : List Run → Averages
averages rows = record { p95_ms = 0; tokens = 0; technical = 0; functional = 0; user_visible = 0 }

abbrev under_review : Proposal
under_review = proposal 1 "a" ProposalStatus.awaiting_review

-- A coarse arithmetic: quotients in units of 2 ^ -52, and a quarter more for every product.
abbrev floats : Floats
floats = record {
  divide = λ a b. a * 0x0010000000000000 / b;
  add = λ x y. x + y;
  multiply = λ x y. x + x / 4;
}

abbrev before : Db
before = tables (under_review ∷ []) []

before-IsGoverned : IsGoverned before
before-IsGoverned = record { unique = λ id. ground arith; backed = refl; lawful = refl }

abbrev approval : ImprovementDecision
approval = decision "a" Verdict.approved

approved :
    decide_canary settings approval before
    ≡ committed (canary_decided settings approval under_review before)
unfolding decide_canary unsupported_candidate_surfaces
approved = refl

Reach-IsGoverned_example : IsGoverned (canary_decided settings approval under_review before)
Reach-IsGoverned_example =
    Reach-IsGoverned (record { averages = averages; floats = floats }) before-IsGoverned
      (Reach.next Reach.here (Step.review settings approval approved))

abbrev measured : ℕ → Metrics
measured failed = record {
  total = 10;
  failed = failed;
  cancelled = 0;
  unsafe = 0;
  averages = averages [];
}

assess_canary-IsNoWorse_example :
    ((assess_canary floats (measured 2) (measured 1)).passed ≡ true)
    ↔ IsNoWorse floats (measured 2) (measured 1)
assess_canary-IsNoWorse_example = assess_canary-IsNoWorse floats (measured 2) (measured 1)

passes : (assess_canary floats (measured 2) (measured 1)).passed ≡ true
unfolding assess_canary
passes = refl

fails : (assess_canary floats (measured 1) (measured 2)).passed ≡ false
unfolding assess_canary
fails = refl

abbrev measured_proposal : Proposal
measured_proposal = proposal 1 "a" ProposalStatus.awaiting_promotion

abbrev passed_tables : Db
passed_tables = tables (measured_proposal ∷ []) (canary CanaryStatus.passed ∷ [])

abbrev rejection : ImprovementDecision
rejection = decision "a" Verdict.rejected

rejected :
    decide_promotion settings rejection passed_tables
    ≡ committed (promotion_decided settings rejection measured_proposal passed_tables)
unfolding decide_promotion
rejected = refl

latest : latest_canary 1 passed_tables.canaries ≡ some (canary CanaryStatus.passed)
unfolding latest_canary
latest = refl

decide_promotion-IsRetired_example :
    IsRetired
      (canary CanaryStatus.passed)
      (promotion_decided settings rejection measured_proposal passed_tables)
decide_promotion-IsRetired_example =
    decide_promotion-IsRetired settings rejection measured_proposal (canary CanaryStatus.passed)
      passed_tables (promotion_decided settings rejection measured_proposal passed_tables) refl
      latest refl rejected

abbrev rival : Proposal
rival = proposal 2 "b" ProposalStatus.awaiting_review

abbrev merged : Proposal
merged = proposal 1 "a" ProposalStatus.production_pending

abbrev merged_tables : Db
merged_tables = tables (merged ∷ rival ∷ []) (canary CanaryStatus.passed ∷ [])

abbrev attestation : ProductionAttestation
attestation = record { is_governed = true; is_verified = true; production_commit = "m1" }

abbrev after_publication : Db
after_publication = published 70 attestation merged (canary CanaryStatus.passed) merged_tables

attested : attest_promoted_production 70 attestation merged_tables ≡ committed after_publication
unfolding attest_promoted_production
attested = refl

published-blocks_example :
    decide_canary settings (decision "b" Verdict.approved) after_publication
    ≢ committed after_publication
published-blocks_example =
    published-blocks 70 attestation settings (decision "b" Verdict.approved) rival merged
      merged_tables after_publication after_publication refl refl attested refl (λ h. omega arith)
      refl refl

abbrev stale : Proposal
stale = proposal 1 "a" ProposalStatus.approved_for_canary

abbrev fresh : Proposal
fresh = record rival { expires_at = 100 }

abbrev waiting_tables : Db
waiting_tables = tables (stale ∷ fresh ∷ []) (canary CanaryStatus.pending ∷ [])

found : find (has_key "b") (expire_stale_proposals 60 waiting_tables).proposals ≡ some fresh
unfolding expire_stale_proposals
found = refl

expired-blocks_example :
    decide_canary settings
      (decision "b" Verdict.approved)
      (expire_stale_proposals 60 waiting_tables)
    ≢ committed before
expired-blocks_example =
    expired-blocks 60 settings (decision "b" Verdict.approved) fresh stale
      (canary CanaryStatus.pending) waiting_tables before (Memᴰ.head refl) refl refl
      (Memᴰ.head refl) refl refl found (λ h. omega arith) refl refl
