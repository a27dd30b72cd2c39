-- ===== src/Improvements/Measuring.antt =====
-- The measured end of a canary: `assess_canary`, `evaluate_active_canaries` and
-- `expire_stale_proposals` of app/improvements/analyzer.py. A float, of which none is negative here,
-- is the number that its IEEE 754 bits spell: these numbers have the order of the floats, and 0 is
-- 0.0. Python's float arithmetic and SQL's avg and percentile_cont are parameters.
pub mod Gates
use google_connector_app.Prelude.{
  ℕ, ◌+◌, ◌*◌, String, Bool, true, false, not, ◌&&◌, ◌||◌, Option, none, some, List, [], ◌∷◌, ◌++◌,
  map, keep, find, nonempty, length, count_where, update_where, str_eq, ltb, leb, ◌==◌, max,
  if◌then◌else◌,
}
use google_connector_app.Runs.{Run, RunStatus}
use google_connector_app.Improvements.{
  ProposalStatus, CanaryStatus, Publication, Proposal, Canary, Bundle, Db, is_active, set_proposal,
  has_id, has_canary_id, is_of_canary, is_never_started, has_bundle_hash, is_canary_bundle,
  publish_as,
}

pub data Regression : Type 0 where
  insufficient_samples failure_rate side_effect_integrity cancellation_rate : Regression
  p95_latency average_tokens technical_completion functional_completion : Regression
  user_visible_completion : Regression

-- The aggregates of a cohort; a NULL average reads as 0, as `or 0` reads it.
pub record Averages : Type 0 where
  pub p95_ms : ℕ
  pub tokens : ℕ
  pub technical : ℕ
  pub functional : ℕ
  pub user_visible : ℕ

-- `/` of two integers, and `+` and `*` of two floats.
pub record Floats : Type 0 where
  pub divide : ℕ → ℕ → ℕ
  pub add : ℕ → ℕ → ℕ
  pub multiply : ℕ → ℕ → ℕ

-- What the database and Python make of the rows.
pub record Telemetry : Type 0 where
  pub averages : List Run → Averages
  pub floats : Floats

pub record Metrics : Type 0 where
  pub total : ℕ
  pub failed : ℕ
  pub cancelled : ℕ
  pub unsafe : ℕ
  pub averages : Averages

pub record Assessment : Type 0 where
  pub ready : Bool
  pub passed : Bool
  pub regressions : List Regression

abbrev pub canary_min_samples : ℕ
canary_min_samples = 5

-- The floats 0.05, 1.25 (CANARY_LATENCY_RATIO and CANARY_TOKEN_RATIO), 1000 and 1.
abbrev pub five_percent : ℕ
five_percent = 0x3fa999999999999a

abbrev pub canary_ratio : ℕ
canary_ratio = 0x3ff4000000000000

abbrev pub one_second : ℕ
one_second = 0x408f400000000000

abbrev pub one_point : ℕ
one_point = 0x3ff0000000000000

abbrev pub regressed : Bool → Regression → List Regression
regressed present r = if present then r ∷ [] else []

-- The quotient of a count and a cohort's total.
abbrev pub rate : Floats → (Metrics → ℕ) → Metrics → ℕ
rate fl count m = fl.divide (count m) m.total

-- candidate > max(control * 1.25, control + 1000), where both are measured
abbrev pub is_slower : Floats → ℕ → ℕ → Bool
is_slower fl control candidate =
    not (control == 0)
    && not (candidate == 0)
    && ltb (max (fl.multiply control canary_ratio) (fl.add control one_second)) candidate

-- candidate > control * 1.25, where the control is measured
abbrev pub is_dearer : Floats → ℕ → ℕ → Bool
is_dearer fl control candidate =
    not (control == 0) && ltb (fl.multiply control canary_ratio) candidate

-- candidate + 1 < control
abbrev pub is_less_complete : Floats → ℕ → ℕ → Bool
is_less_complete fl control candidate = ltb (fl.add candidate one_point) control

abbrev pub failures : Metrics → ℕ
failures m = m.failed

abbrev pub cancellations : Metrics → ℕ
cancellations m = m.cancelled

-- candidate_failure > control_failure
abbrev pub fails_more : Floats → Metrics → Metrics → Bool
fails_more fl control candidate = ltb (rate fl failures control) (rate fl failures candidate)

-- candidate_cancel > control_cancel + 0.05
abbrev pub is_cancelled_more : Floats → Metrics → Metrics → Bool
is_cancelled_more fl control candidate =
    ltb (fl.add (rate fl cancellations control) five_percent) (rate fl cancellations candidate)

unfoldable pub regressions_of : Floats → Metrics → Metrics → List Regression
regressions_of fl control candidate =
    let before = control.averages in
    let after = candidate.averages in
    regressed (fails_more fl control candidate) failure_rate
    ++ (regressed (ltb 0 candidate.unsafe) side_effect_integrity
        ++ (regressed (is_cancelled_more fl control candidate) cancellation_rate
            ++ (regressed (is_slower fl before.p95_ms after.p95_ms) p95_latency
                ++ (regressed (is_dearer fl before.tokens after.tokens) average_tokens
                    ++ (regressed (is_less_complete fl before.technical after.technical)
                          technical_completion
                        ++ (regressed (is_less_complete fl before.functional after.functional)
                              functional_completion
                            ++ regressed
                                (is_less_complete fl before.user_visible after.user_visible)
                                user_visible_completion))))))

unfoldable pub assess_canary : Floats → Metrics → Metrics → Assessment
unfolding regressions_of
assess_canary fl control candidate =
    if ltb control.total canary_min_samples || ltb candidate.total canary_min_samples
    then if ltb 0 candidate.unsafe
      then record { ready = true; passed = false; regressions = side_effect_integrity ∷ [] }
      else record { ready = false; passed = false; regressions = insufficient_samples ∷ [] }
    else record {
      ready = true;
      passed = not (nonempty (regressions_of fl control candidate));
      regressions = regressions_of fl control candidate;
    }

abbrev is_failed : RunStatus → Bool
is_failed RunStatus.failed = true
is_failed RunStatus.partial = true
is_failed s = false

abbrev is_cancelled : RunStatus → Bool
is_cancelled RunStatus.cancelled = true
is_cancelled s = false

-- `queued_at >= $2`, which a NULL does not meet
abbrev queued_since : Option ℕ → Run → Bool
queued_since none r = false
queued_since (some t) r = leb t r.queued_at

abbrev pub in_cohort : Canary → String → Run → Bool
in_cohort c cohort r =
    is_of_canary c.id r.canary_id
    && str_eq r.cohort_assignment cohort
    && queued_since c.started_at r

-- What a cohort's rows count, and what the database makes of them.
unfoldable pub measure : (List Run → Averages) → Canary → String → List Run → Metrics
measure averages c cohort runs =
    let rows = keep (in_cohort c cohort) runs in
    record {
      total = length rows;
      failed = count_where (λ r. is_failed r.status) rows;
      cancelled = count_where (λ r. is_cancelled r.status) rows;
      unsafe = count_where (λ r. ltb r.side_effect_integrity 100) rows;
      averages = averages rows;
    }

abbrev pub conclude : ℕ → Bool → Canary → Canary
conclude now passed c = record c {
  status = if passed then CanaryStatus.passed else CanaryStatus.rolled_back;
  ended_at = some now;
  routing_enabled = passed;
}

abbrev pub concluded_as : Bool → Proposal → Proposal
concluded_as passed p = record p {
  status = if passed then ProposalStatus.awaiting_promotion else ProposalStatus.rolled_back;
}

-- The automatic rollback leaves the run's canary_id.
abbrev pub roll_back_run : String → Run → Run
roll_back_run control_version r = record r {
  executor_version = control_version;
  cohort_assignment = "control";
}

abbrev is_hash_of : Option String → Bundle → Bool
is_hash_of none b = false
is_hash_of (some hash) b = has_bundle_hash hash b

abbrev bundle_hash_of : ℕ → List Proposal → Option String
bundle_hash_of id proposals = elim (find (has_id id) proposals) [
  | none ↦ none
  | some p ↦ p.manifest.okf_bundle_hash
]

-- `if not passed:`
abbrev pub roll_back : Canary → Db → Db
roll_back c db = record db {
  runs = update_where (is_never_started db.steps c.id) (roll_back_run c.control_version) db.runs;
  bundles =
      update_where
        (λ b.
          is_hash_of (bundle_hash_of c.proposal_id db.proposals) b
          && is_canary_bundle b.publication_status)
        (publish_as Publication.rolled_back) db.bundles;
}

abbrev pub conclude_canary : ℕ → Bool → Canary → Db → Db
conclude_canary now passed c db =
    let after = if passed then db else roll_back c db in
    record after {
      canaries = update_where (has_canary_id c.id) (conclude now passed) db.canaries;
      proposals = set_proposal c.proposal_id (concluded_as passed) db.proposals;
    }

abbrev pub is_running_canary : ℕ → Canary → Bool
is_running_canary id c = c.id == id && is_active c.status

abbrev pub assessment_of : Telemetry → Canary → List Run → Assessment
assessment_of telemetry c runs =
    assess_canary telemetry.floats (measure telemetry.averages c "control" runs)
      (measure telemetry.averages c "candidate" runs)

-- One turn of the loop: one transaction over one canary, which is read again and locked.
unfoldable pub evaluate_canary : Telemetry → ℕ → ℕ → Db → Db
unfolding assess_canary measure
evaluate_canary telemetry now id db = elim (find (is_running_canary id) db.canaries) [
  | none ↦ db
  | some c ↦
      let a = assessment_of telemetry c db.runs in
      if a.ready then conclude_canary now a.passed c db else db
]

unfoldable pub evaluate_each : Telemetry → ℕ → List Canary → Db → Db
unfolding evaluate_canary
evaluate_each telemetry now [] db = db
evaluate_each telemetry now (c ∷ canaries) db =
    evaluate_each telemetry now canaries (evaluate_canary telemetry now c.id db)

unfoldable pub evaluate_active_canaries : Telemetry → ℕ → Db → Db
unfolding evaluate_each
evaluate_active_canaries telemetry now db =
    evaluate_each telemetry now (keep (λ c. is_active c.status) db.canaries) db

abbrev pub is_expirable : ProposalStatus → Bool
is_expirable ProposalStatus.drafted = true
is_expirable ProposalStatus.awaiting_review = true
is_expirable ProposalStatus.changes_requested = true
is_expirable ProposalStatus.approved_for_canary = true
is_expirable s = false

abbrev pub is_stale : ℕ → Proposal → Bool
is_stale now p = ltb p.expires_at now && is_expirable p.status

abbrev pub expire : Proposal → Proposal
expire p = record p { status = ProposalStatus.expired }

unfoldable pub expire_stale_proposals : ℕ → Db → Db
expire_stale_proposals now db = record db {
  proposals = update_where (is_stale now) expire db.proposals;
}
