-- ===== src/Runs/Deciding.antt =====
-- Deciding and cancelling a run: `decide_run` and `cancel_run` of app/runs/repository.py. Each is
-- one transaction, so one function from the tables to a result and the new tables.
pub mod Outcomes
pub mod Cancelling
use google_connector_app.Prelude.{
  ℕ, String, Bool, true, false, not, ◌&&◌, ◌||◌, Option, none, some, List, [], ◌∷◌, ◌++◌, find, any,
  update_where, str_eq, leb, ◌==◌, if◌then◌else◌,
}
use google_connector_app.Runs.{
  Db, Run, RunStatus, Step, StepStatus, Approval, ApprovalStatus, Event, is_undecided,
  awaits_approval,
}

-- The reviewer's request: whose run, the answer, the digest that was shown, and a note.
pub record Decision : Type 0 where
  pub run_id : ℕ
  pub user_id : String
  pub approved : Bool
  pub digest : String
  pub note : Option String

-- `settings.executor_version or settings.deployment_version`, and the clock.
pub record Context : Type 0 where
  pub current_executor_version : String
  pub now : ℕ

abbrev pub is_requested : Decision → Approval → Bool
is_requested d a =
    a.run_id == d.run_id && str_eq a.requested_from d.user_id && is_undecided a.status

abbrev pub has_approval_id : ℕ → Approval → Bool
has_approval_id id a = a.id == id

abbrev pub is_own_run : ℕ → String → Run → Bool
is_own_run run_id user_id r = r.id == run_id && str_eq r.user_id user_id

abbrev pub is_waiting_step : ℕ → Step → Bool
is_waiting_step run_id s = s.run_id == run_id && awaits_approval s.status

abbrev expire : Approval → Approval
expire a = record a { status = ApprovalStatus.expired }

abbrev pub record_decision : Decision → Approval → Approval
record_decision d a = record a {
  status = if d.approved then ApprovalStatus.approved else ApprovalStatus.rejected;
  decided_by = some d.user_id;
  decision_note = d.note;
}

-- `CASE WHEN canary_id IS NULL THEN current ELSE executor_version END`
abbrev pub repinned : Context → Run → String
repinned ctx r = elim r.canary_id [
  | none ↦ ctx.current_executor_version
  | some c ↦ r.executor_version
]

abbrev pub decided_run : Context → Bool → Run → Run
decided_run ctx true r = record r {
  status = RunStatus.queued;
  current_phase = "queued";
  cancellation_source = none;
  executor_version = repinned ctx r;
}
decided_run ctx false r = record r {
  status = RunStatus.cancelled;
  current_phase = "cancelled";
  cancellation_source = some "approval_rejected";
}

abbrev pub decided_step : Bool → Step → Step
decided_step approved s = record s {
  status = if approved then StepStatus.pending else StepStatus.cancelled;
}

abbrev decision_event : Decision → Event
decision_event d = record {
  run_id = d.run_id;
  user_id = d.user_id;
  event_type = if d.approved then "approval_approved" else "approval_rejected";
}

abbrev pub next_status : Bool → RunStatus
next_status approved = if approved then RunStatus.queued else RunStatus.cancelled

-- The tables after a decision that counts.
unfoldable pub apply_decision : Context → Decision → Approval → Db → Db
apply_decision ctx d a db = record {
  runs = update_where (is_own_run d.run_id d.user_id) (decided_run ctx d.approved) db.runs;
  steps = update_where (is_waiting_step d.run_id) (decided_step d.approved) db.steps;
  approvals = update_where (has_approval_id a.id) (record_decision d) db.approvals;
  events = db.events ++ decision_event d ∷ [];
}

unfoldable pub expire_approval : Approval → Db → Db
expire_approval a db = record db {
  approvals = update_where (has_approval_id a.id) expire db.approvals;
}

-- With the approval row at hand: the digest first, then the expiry, then the writes.
unfoldable pub decide_with : Context → Decision → Approval → Db → Option RunStatus × Db
decide_with ctx d a db =
    if not (str_eq a.action_hash d.digest)
    then (none, db)
    else if leb a.expires_at ctx.now
    then (none, expire_approval a db)
    else (some (next_status d.approved), apply_decision ctx d a db)

unfoldable pub decide_run : Context → Decision → Db → Option RunStatus × Db
unfolding decide_with
decide_run ctx d db = elim (find (is_requested d) db.approvals) [
  | none ↦ (none, db)
  | some a ↦ decide_with ctx d a db
]

-- `status IN ('queued','awaiting_approval','running')`
abbrev pub is_cancellable : RunStatus → Bool
is_cancellable RunStatus.queued = true
is_cancellable RunStatus.awaiting_approval = true
is_cancellable RunStatus.running = true
is_cancellable s = false

abbrev pub may_cancel : ℕ → String → Run → Bool
may_cancel run_id user_id r = is_own_run run_id user_id r && is_cancellable r.status

abbrev pub cancelled_run : ℕ → Run → Run
cancelled_run now r = record r {
  status = RunStatus.cancelled;
  current_phase = "cancelled";
  cancellation_source = some "user";
  completed_at = some now;
}

-- The update, and the event where a row was updated; ids are unique, so one row at most.
unfoldable pub cancel_run : ℕ → ℕ → String → Db → Bool × Db
cancel_run now run_id user_id db =
    let runs' = update_where (may_cancel run_id user_id) (cancelled_run now) db.runs in
    if any (may_cancel run_id user_id) db.runs
    then (
      true,
      record db {
        runs = runs';
        events =
            db.events
            ++ record { run_id = run_id; user_id = user_id; event_type = "run_cancelled" } ∷ [];
      },
    )
    else (false, record db { runs = runs' })
