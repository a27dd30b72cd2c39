-- ===== src/Coding.antt =====
-- Hosted coding runs: the table of migrations/versions/015_durable_coding_runs.py, its transitions in
-- app/coding/repository.py and app/coding/worker.py. What the local runner, GitHub and the hash
-- functions answer are arguments. Instants are numbers of seconds.
pub mod Approved
pub mod Cache
pub mod Retention
pub mod Waiting
mod Tests
use google_connector_app.Prelude.{
  ℕ, ◌+◌, String, Bool, true, false, not, ◌&&◌, ◌||◌, Option, none, some, List, [], ◌∷◌, ◌++◌, keep,
  find, any, nonempty, update_where, str_eq, ltb, leb, ◌==◌, if◌then◌else◌,
}
use google_connector_app.Runs.Claiming.{least}

pub data CodingStatus : Type 0 where
  queued planning awaiting_approval approved executing published ci_running : CodingStatus
  completed failed blocked cancelled reconciling : CodingStatus

pub data CodingApproval : Type 0 where
  not_requested pending granted rejected expired : CodingApproval

-- A row of coding_runs. `built`: a row of candidate_builds names it.
pub record CodingRun : Type 0 where
  pub id : ℕ
  pub user_id : String
  pub idempotency_key : String
  pub request_hash : String
  pub status : CodingStatus
  pub executor_version : String
  pub approval_status : CodingApproval
  pub plan_hash : Option String
  pub approval_action_hash : Option String
  pub approval_expires_at : Option ℕ
  pub approved_by : Option String
  pub candidate_commit : Option String
  pub attempt_count : ℕ
  pub max_attempts : ℕ
  pub created_at : ℕ
  pub available_at : ℕ
  pub lease_owner : Option String
  pub lease_expires_at : Option ℕ
  pub error_category : Option String
  pub deleted : Bool
  pub built : Bool

-- The phases in which a worker holds a run.
pub data Phase : Type 0 where
  plan_phase execute_phase ci_phase : Phase

abbrev pub is_phase : Phase → CodingStatus → Bool
is_phase plan_phase CodingStatus.planning = true
is_phase execute_phase CodingStatus.executing = true
is_phase ci_phase CodingStatus.ci_running = true
is_phase p s = false

abbrev pub phase_status : Phase → CodingStatus
phase_status plan_phase = CodingStatus.planning
phase_status execute_phase = CodingStatus.executing
phase_status ci_phase = CodingStatus.ci_running

abbrev pub is_awaiting : CodingStatus → Bool
is_awaiting CodingStatus.awaiting_approval = true
is_awaiting s = false

-- `status NOT IN ('completed','cancelled')`
abbrev pub is_open : CodingStatus → Bool
is_open CodingStatus.completed = false
is_open CodingStatus.cancelled = false
is_open s = true

abbrev pub is_coding_run : ℕ → String → CodingRun → Bool
is_coding_run id user r = r.id == id && str_eq r.user_id user && not r.deleted

-- create_coding_run: the conflict, or the row and whether it is new.
pub data Submitted : Type 0 where
  conflict : Submitted
  existing submitted : CodingRun → Submitted

pub record Submission : Type 0 where
  pub id : ℕ
  pub user_id : String
  pub idempotency_key : String
  pub request_hash : String
  pub executor_version : String
  pub now : ℕ

abbrev pub new_coding_run : Submission → CodingRun
new_coding_run q = record {
  id = q.id;
  user_id = q.user_id;
  idempotency_key = q.idempotency_key;
  request_hash = q.request_hash;
  status = CodingStatus.queued;
  executor_version = q.executor_version;
  approval_status = not_requested;
  plan_hash = none;
  approval_action_hash = none;
  approval_expires_at = none;
  approved_by = none;
  candidate_commit = none;
  attempt_count = 0;
  max_attempts = 3;
  created_at = q.now;
  available_at = q.now;
  lease_owner = none;
  lease_expires_at = none;
  error_category = none;
  deleted = false;
  built = false;
}

abbrev has_coding_key : Submission → CodingRun → Bool
has_coding_key q r =
    str_eq r.user_id q.user_id && str_eq r.idempotency_key q.idempotency_key && not r.deleted

unfoldable pub create_coding_run : Submission → List CodingRun → Submitted × List CodingRun
create_coding_run q runs = elim (find (has_coding_key q) runs) [
  | some r ↦ (if str_eq r.request_hash q.request_hash then existing r else conflict, runs)
  | none ↦ (submitted (new_coding_run q), runs ++ new_coding_run q ∷ [])
]

-- _claim, for the worker's executor version; `is_locked` are the rows that others hold.
pub record CodingWorker : Type 0 where
  pub owner : String
  pub executor_version : String
  pub lease_seconds : ℕ
  pub now : ℕ
  pub is_locked : ℕ → Bool

-- `lease_expires_at<now()`; a null lease is no expired one
abbrev lapsed : ℕ → CodingRun → Bool
lapsed now r = elim r.lease_expires_at [ none ↦ false | some t ↦ ltb t now ]

-- The phase that a claim of the row starts, where it can be claimed.
abbrev pub phase_to_claim : ℕ → CodingRun → CodingStatus → Option Phase
phase_to_claim now r CodingStatus.queued = some plan_phase
phase_to_claim now r CodingStatus.approved = some execute_phase
phase_to_claim now r CodingStatus.planning = if lapsed now r then some plan_phase else none
phase_to_claim now r CodingStatus.executing = if lapsed now r then some execute_phase else none
phase_to_claim now r CodingStatus.ci_running = if lapsed now r then some ci_phase else none
phase_to_claim now r CodingStatus.published = if r.built then none else some ci_phase
phase_to_claim now r s = none

abbrev is_some : Option Phase → Bool
is_some none = false
is_some (some p) = true

abbrev pub may_claim : CodingWorker → CodingRun → Bool
may_claim w r =
    str_eq r.executor_version w.executor_version
    && not r.deleted
    && leb r.available_at w.now
    && is_some (phase_to_claim w.now r r.status)
    && not (w.is_locked r.id)

abbrev creation_time : CodingRun → ℕ
creation_time r = r.created_at

abbrev pub leased : CodingWorker → Phase → CodingRun → CodingRun
leased w p r = record r {
  status = phase_status p;
  lease_owner = some w.owner;
  lease_expires_at = some (w.now + w.lease_seconds);
  attempt_count = r.attempt_count + 1;
}

abbrev pub has_coding_id : ℕ → CodingRun → Bool
has_coding_id id r = r.id == id

unfoldable pub claim_coding_run : CodingWorker → List CodingRun → Option CodingRun × List CodingRun
unfolding least
claim_coding_run w runs = elim (least creation_time (keep (may_claim w) runs)) [
  | none ↦ (none, runs)
  | some r ↦ elim (phase_to_claim w.now r r.status) [
    | none ↦ (none, runs)
    | some p ↦ (some (leased w p r), update_where (has_coding_id r.id) (leased w p) runs)
  ]
]

-- `WHERE id=… AND lease_owner=…`
abbrev pub holds : ℕ → String → CodingRun → Bool
holds id owner r = r.id == id && elim r.lease_owner [ none ↦ false | some o ↦ str_eq o owner ]

-- The end of _plan: the plan is frozen by its hash and waits for its approval.
abbrev pub frozen : String → ℕ → CodingRun → CodingRun
frozen hash expires r = record r {
  status = CodingStatus.awaiting_approval;
  plan_hash = some hash;
  approval_status = pending;
  approval_action_hash = some hash;
  approval_expires_at = some expires;
  lease_owner = none;
  lease_expires_at = none;
}

unfoldable pub finish_plan : ℕ → String → String → ℕ → List CodingRun → List CodingRun
finish_plan id owner hash expires runs = update_where (holds id owner) (frozen hash expires) runs

-- The end of _execute: the draft pull request is published.
abbrev pub drafted : String → ℕ → CodingRun → CodingRun
drafted commit now r = record r {
  status = CodingStatus.published;
  candidate_commit = some commit;
  available_at = now + 20;
  lease_owner = none;
  lease_expires_at = none;
}

unfoldable pub finish_execute : ℕ → String → String → ℕ → List CodingRun → List CodingRun
finish_execute id owner commit now runs = update_where (holds id owner) (drafted commit now) runs

-- A check of the commit, by its status and its conclusion.
pub record Check : Type 0 where
  pub is_completed : Bool
  pub is_success : Bool

-- What _monitor_ci makes of the checks: a failure is raised, and no check is no success.
pub data Verdict : Type 0 where
  ci_failed ci_waiting ci_passed : Verdict

unfoldable pub judge : List Check → Verdict
judge checks =
    if any (λ c. c.is_completed && not c.is_success) checks
    then ci_failed
    else if not (nonempty checks) || any (λ c. not c.is_completed) checks
    then ci_waiting
    else ci_passed

abbrev pub parked : ℕ → CodingRun → CodingRun
parked now r = record r {
  status = CodingStatus.ci_running;
  available_at = now + 30;
  lease_owner = none;
  lease_expires_at = none;
}

abbrev pub passed : CodingRun → CodingRun
passed r = record r { status = CodingStatus.completed; lease_owner = none; lease_expires_at = none }

-- _monitor_ci, where it does not raise.
unfoldable pub monitor_ci : ℕ → String → ℕ → List Check → List CodingRun → List CodingRun
unfolding judge
monitor_ci id owner now checks runs = elim (judge checks) [
  | ci_failed ↦ runs
  | ci_waiting ↦ update_where (holds id owner) (parked now) runs
  | ci_passed ↦ update_where (holds id owner) passed runs
]

-- The handler of a CodingWorkerError, and, with `retryable` false and the category "internal", that
-- of any other exception; `row` is the claimed row.
abbrev pub retries : Bool → CodingRun → Bool
retries retryable row = retryable && ltb row.attempt_count row.max_attempts

abbrev pub status_after : Bool → CodingStatus → CodingStatus
status_after true CodingStatus.executing = CodingStatus.approved
status_after true s = CodingStatus.queued
status_after false s = CodingStatus.failed

abbrev pub failed_row : Bool → CodingStatus → String → ℕ → CodingRun → CodingRun
failed_row retry status category now r = record r {
  status = status_after retry status;
  error_category = some category;
  available_at = if retry then now + 300 else r.available_at;
  lease_owner = none;
  lease_expires_at = none;
}

unfoldable pub fail_phase : String → CodingRun → Bool → String → ℕ → List CodingRun → List CodingRun
fail_phase owner row retryable category now runs =
    update_where (holds row.id owner) (failed_row (retries retryable row) row.status category now)
      runs

-- decide_coding_run: the reasons of CodingRunConflict, or the row's new status.
pub data CodingDecision : Type 0 where
  not_awaiting hash_mismatch approval_expired : CodingDecision
  decided : CodingStatus → CodingDecision

pub record CodingVote : Type 0 where
  pub run_id : ℕ
  pub user_id : String
  pub action_hash : String
  pub is_rejected : Bool
  pub now : ℕ

abbrev is_hash : Option String → String → Bool
is_hash none h = false
is_hash (some x) h = str_eq x h

-- `not expires or expires <= now`
abbrev is_over : Option ℕ → ℕ → Bool
is_over none now = true
is_over (some t) now = leb t now

abbrev pub vote_status : Bool → CodingStatus
vote_status is_rejected = if is_rejected then CodingStatus.cancelled else CodingStatus.approved

abbrev pub voted : CodingVote → CodingRun → CodingRun
voted v r = record r {
  status = vote_status v.is_rejected;
  approval_status = if v.is_rejected then rejected else granted;
  approved_by = some v.user_id;
}

-- With the row at hand. The update that expires the approval stands in the transaction that the
-- exception after it rolls back.
unfoldable pub decide_row :
    CodingVote → CodingRun → List CodingRun → CodingDecision × List CodingRun
decide_row v r runs =
    if not (is_awaiting r.status)
    then (not_awaiting, runs)
    else if not (is_hash r.approval_action_hash v.action_hash)
    then (hash_mismatch, runs)
    else if is_over r.approval_expires_at v.now
    then (approval_expired, runs)
    else (decided (vote_status v.is_rejected), update_where (has_coding_id v.run_id) (voted v) runs)

unfoldable pub decide_coding_run : CodingVote → List CodingRun → CodingDecision × List CodingRun
unfolding decide_row
decide_coding_run v runs = elim (find (is_coding_run v.run_id v.user_id) runs) [
  | none ↦ (not_awaiting, runs)
  | some r ↦ decide_row v r runs
]

abbrev rejected_if_pending : CodingApproval → CodingApproval
rejected_if_pending pending = rejected
rejected_if_pending a = a

abbrev pub abandoned : CodingRun → CodingRun
abandoned r = record r {
  status = CodingStatus.cancelled;
  approval_status = rejected_if_pending r.approval_status;
  error_category = some "user_cancelled";
  lease_owner = none;
  lease_expires_at = none;
}

abbrev pub may_abandon : ℕ → String → CodingRun → Bool
may_abandon id user r = is_coding_run id user r && is_open r.status

unfoldable pub cancel_coding_run : ℕ → String → List CodingRun → Bool × List CodingRun
cancel_coding_run id user runs =
    (any (may_abandon id user) runs, update_where (may_abandon id user) abandoned runs)
