-- ===== src/Runs/Claiming.antt =====
-- Claiming work: `_claim_step` and `claim_run` of app/runs/worker.py.
pub mod Ready
pub mod Leases
pub mod Interrupted
pub mod Progress
use google_connector_app.Prelude.{
  ℕ, ◌+◌, String, Bool, true, false, not, ◌&&◌, ◌||◌, Option, none, some, List, [], ◌∷◌, ◌++◌, any,
  all, keep, find, update_where, nonempty, str_eq, ltb, ◌==◌, if◌then◌else◌,
}
use google_connector_app.Runs.{
  Db, Run, RunStatus, Step, StepStatus, Event, is_queued, is_running, is_pending, is_started,
  is_completed, is_failed,
}
use google_connector_app.Incident.{completion_from_steps}

-- `ORDER BY key LIMIT 1`: the first of the rows with the least key.
module _ {A : Type 0} (key : A → ℕ) where
  abbrev pub earlier : A → Option A → A
  earlier x none = x
  earlier x (some y) = if ltb (key y) (key x) then y else x

  unfoldable pub least : List A → Option A
  least [] = none
  least (x ∷ xs) = some (earlier x (least xs))

-- A dependency counts when the run has a step of that key and each such step is completed.
abbrev pub has_key : ℕ → String → Step → Bool
has_key run_id key s = s.run_id == run_id && str_eq s.step_key key

abbrev pub is_met : List Step → ℕ → String → Bool
is_met steps run_id key =
    any (has_key run_id key) steps
    && all (λ s. not (has_key run_id key s) || is_completed s.status) steps

abbrev pub is_ready : List Step → ℕ → Step → Bool
is_ready steps run_id s =
    s.run_id == run_id && is_pending s.status && all (is_met steps run_id) s.dependencies

abbrev pub started : Step → Step
started s = record s { status = StepStatus.running; attempt_count = s.attempt_count + 1 }

abbrev pub sequence_of : Step → ℕ
sequence_of s = s.sequence_no

abbrev pub has_step_id : ℕ → Step → Bool
has_step_id id s = s.id == id

unfoldable pub claim_step : ℕ → List Step → Option Step × List Step
unfolding least
claim_step run_id steps = elim (least sequence_of (keep (is_ready steps run_id) steps)) [
  | none ↦ (none, steps)
  | some s ↦ (some (started s), update_where (has_step_id s.id) started steps)
]

-- A worker process: its settings, the clock, and the rows that other transactions hold locked.
pub record Worker : Type 0 where
  pub owner : String
  pub executor_version : String
  pub executor_role : String
  pub lease_seconds : ℕ
  pub now : ℕ
  pub is_locked : ℕ → Bool

abbrev pub known_role : Worker → Bool
known_role w = str_eq w.executor_role "control" || str_eq w.executor_role "candidate"

-- `lease_expires_at < now()`; a null lease is no expired one
abbrev pub lease_expired : ℕ → Run → Bool
lease_expired now r = elim r.lease_expires_at [ none ↦ false | some t ↦ ltb t now ]

abbrev pub serves : Worker → Run → Bool
serves w r =
    str_eq w.executor_role "candidate"
      && str_eq r.executor_version w.executor_version
      && str_eq r.cohort_assignment "candidate"
    || str_eq w.executor_role "control" && str_eq r.executor_version w.executor_version

abbrev pub is_available : ℕ → Run → Bool
is_available now r = is_queued r.status || is_running r.status && lease_expired now r

abbrev pub is_claimable : Worker → Run → Bool
is_claimable w r = is_available w.now r && serves w r && not r.deleted && not (w.is_locked r.id)

abbrev pub queued_time : Run → ℕ
queued_time r = r.queued_at

abbrev pub is_interrupted : ℕ → Step → Bool
is_interrupted run_id s = s.run_id == run_id && is_started s.status

abbrev pub may_repeat : Step → Bool
may_repeat s = s.read_only && ltb s.attempt_count s.max_attempts

abbrev pub has_run_id : ℕ → Run → Bool
has_run_id id r = r.id == id

abbrev pub of_run : ℕ → Step → Bool
of_run run_id s = s.run_id == run_id

abbrev pub requeued_step : Step → Step
requeued_step s = record s {
  status = StepStatus.pending;
  error_category = some "worker";
  error_message = some "Worker lease expired; safe read scheduled again";
}

abbrev event : Run → String → Event
event r t = record { run_id = r.id; user_id = r.user_id; event_type = t }

-- The safe reads of an expired lease are scheduled again.
unfoldable pub requeue_reads : Run → Db → Db
requeue_reads r db = record db {
  steps = update_where (is_interrupted r.id) requeued_step db.steps;
  events = db.events ++ event r "lease_recovered" ∷ [];
}

abbrev pub interruption_category : Bool → String
interruption_category write = if write then "worker_reconciliation" else "worker"

abbrev pub interruption_error : Bool → String
interruption_error write =
    if write
    then "Worker lease expired while an external write may have completed; automatic retry is blocked pending reconciliation"
    else "Worker lease expired and the safe read retry budget was exhausted"

abbrev pub failed_step : String → String → Step → Step
failed_step category error s = record s {
  status = StepStatus.failed;
  error_category = some category;
  error_message = some error;
}

-- `"partial" if any(step["status"] == "completed") else "failed"`
abbrev pub terminal_status : List Step → RunStatus
terminal_status steps =
    if any (λ s. is_completed s.status) steps then RunStatus.partial else RunStatus.failed

abbrev pub status_name : RunStatus → String
status_name RunStatus.queued = "queued"
status_name RunStatus.running = "running"
status_name RunStatus.awaiting_approval = "awaiting_approval"
status_name RunStatus.awaiting_clarification = "awaiting_clarification"
status_name RunStatus.completed = "completed"
status_name RunStatus.partial = "partial"
status_name RunStatus.failed = "failed"
status_name RunStatus.cancelled = "cancelled"

abbrev pub given_up_run : ℕ → Bool → List Step → Run → Run
given_up_run now write steps r =
    let status = terminal_status steps in
    record r {
      status = status;
      current_phase = if write then "reconciliation" else status_name status;
      side_effect_integrity =
          if write then 0 else (completion_from_steps steps).side_effect_integrity;
      error_category = some (interruption_category write);
      error_message = some (interruption_error write);
      completed_at = some now;
      lease_owner = none;
      lease_expires_at = none;
    }

-- The interrupted steps fail, and the run ends: a write may have happened, or the reads have no
-- attempt left.
unfoldable pub give_up : ℕ → Bool → Run → Db → Db
give_up now write r db =
    let steps' =
      update_where (is_interrupted r.id)
        (failed_step (interruption_category write) (interruption_error write)) db.steps in
    record db {
      runs =
          update_where (has_run_id r.id) (given_up_run now write (keep (of_run r.id) steps'))
            db.runs;
      steps = steps';
      events =
          db.events
          ++ event r (if write then "write_reconciliation_required" else "lease_retry_exhausted")
            ∷ [];
    }

abbrev started_time : ℕ → Option ℕ → Option ℕ
started_time now none = some now
started_time now (some t) = some t

abbrev pub leased_run : Worker → Run → Run
leased_run w r = record r {
  status = RunStatus.running;
  current_phase = "execution";
  started_at = started_time w.now r.started_at;
  heartbeat_at = some w.now;
  executor_version = elim r.canary_id [ none ↦ w.executor_version | some c ↦ r.executor_version ];
  lease_owner = some w.owner;
  lease_expires_at = some (w.now + w.lease_seconds);
}

unfoldable pub lease : Worker → Run → Db → Db
lease w r db = record db { runs = update_where (has_run_id r.id) (leased_run w) db.runs }

-- Nothing to do, a refused configuration, a run to execute, or the id of a run that was ended in
-- recovery.
pub data Claim : Type 0 where
  idle misconfigured : Claim
  claimed : Run → Claim
  recovered : ℕ → Claim

-- What happens to the steps that a lost worker left running, and then the lease.
unfoldable pub claim_row : Worker → Run → Db → Claim × Db
claim_row w r db =
    let interrupted = keep (is_interrupted r.id) db.steps in
    if is_running r.status && nonempty interrupted
    then if all may_repeat interrupted
      then (claimed (leased_run w r), lease w r (requeue_reads r db))
      else (let write = any (λ s. not s.read_only) interrupted in
          (recovered r.id, give_up w.now write r db))
    else (claimed (leased_run w r), lease w r db)

unfoldable pub claim_run : Worker → Db → Claim × Db
unfolding least claim_row
claim_run w db =
    if not (known_role w)
    then (misconfigured, db)
    else elim (least queued_time (keep (is_claimable w) db.runs)) [
      | none ↦ (idle, db)
      | some r ↦ claim_row w r db
    ]
