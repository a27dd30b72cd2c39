-- ===== src/Runs/Resuming.antt =====
-- The manual resume of a failed run: `_reconcile_and_resume` of app/api/routes/runs.py. It is two
-- transactions with the reconciliation between them, so two functions; the tables may change
-- between them.
pub mod Once
use google_connector_app.Prelude.{
  ℕ, String, Bool, true, false, not, ◌&&◌, ◌||◌, Option, none, some, List, [], ◌∷◌, ◌++◌, find,
  keep, update_where, str_eq, ◌==◌, if◌then◌else◌,
}
use google_connector_app.Runs.{Db, Run, RunStatus, Step, StepStatus, Event, is_failed}
use google_connector_app.Runs.Claiming.{least, sequence_of, has_step_id, has_run_id}
use google_connector_app.Reconciliation.{
  ReconciliationDecision, ReconciliationState, safe_to_retry, already_completed, manual_required,
}

-- `status IN ('failed','partial')`
abbrev is_resumable : RunStatus → Bool
is_resumable RunStatus.failed = true
is_resumable RunStatus.partial = true
is_resumable s = false

abbrev pub may_resume : ℕ → String → Run → Bool
may_resume run_id user r = r.id == run_id && str_eq r.user_id user && is_resumable r.status

abbrev pub is_failed_of : ℕ → Step → Bool
is_failed_of run_id s = s.run_id == run_id && is_failed s.status

abbrev is_named : ℕ → ℕ → Step → Bool
is_named run_id step_id s = s.id == step_id && is_failed_of run_id s

abbrev reconciling : Run → Run
reconciling r = record r { current_phase = "reconciling" }

-- The failed step that is named, or the first failed step of the run.
unfoldable pub resume_step : ℕ → Option ℕ → List Step → Option Step
unfolding least
resume_step run_id none steps = least sequence_of (keep (is_failed_of run_id) steps)
resume_step run_id (some step_id) steps = find (is_named run_id step_id) steps

-- The first transaction: `none` is the answer 409.
unfoldable pub begin_resume : ℕ → String → Option ℕ → Db → Option (Run × Step) × Db
unfolding resume_step
begin_resume run_id user step_id db = elim (find (may_resume run_id user) db.runs) [
  | none ↦ (none, db)
  | some r ↦ elim (resume_step run_id step_id db.steps) [
    | none ↦ (none, db)
    | some s ↦
        (some (r, s), record db { runs = update_where (has_run_id run_id) reconciling db.runs })
  ]
]

abbrev pub completed_step : Step → Step
completed_step s = record s {
  status = StepStatus.completed;
  error_category = none;
  error_message = none;
}

abbrev pub pending_step : Step → Step
pending_step s = record s {
  status = StepStatus.pending;
  error_category = none;
  error_message = none;
}

abbrev pub resumed_step : ReconciliationState → Step → Step
resumed_step already_completed s = completed_step s
resumed_step safe_to_retry s = pending_step s
resumed_step manual_required s = s

abbrev is_own : ℕ → String → Run → Bool
is_own run_id user r = r.id == run_id && str_eq r.user_id user

abbrev resumed_run : String → Run → Run
resumed_run executor_version r = record r {
  status = RunStatus.queued;
  current_phase = "queued";
  completed_at = none;
  error_category = none;
  error_message = none;
  lease_owner = none;
  lease_expires_at = none;
  side_effect_integrity = 100;
  executor_version = executor_version;
}

abbrev unresolved_run : String → Run → Run
unresolved_run reason r = record r {
  current_phase = "reconciliation";
  error_category = some "worker_reconciliation";
  error_message = some reason;
}

abbrev is_manual : ReconciliationState → Bool
is_manual manual_required = true
is_manual s = false

abbrev locked_row : ℕ → ℕ → Step → Bool
locked_row run_id step_id s = s.id == step_id && s.run_id == run_id

abbrev still_failed : Option Step → Bool
still_failed none = false
still_failed (some s) = is_failed s.status

abbrev reconciled_event : ℕ → String → Event
reconciled_event run_id user = record {
  run_id = run_id;
  user_id = user;
  event_type = "run_reconciled";
}

-- The second transaction and its event: `false` is the answer 409.
unfoldable pub finish_resume : String → ℕ → String → ℕ → ReconciliationDecision → Db → Bool × Db
finish_resume executor_version run_id user step_id decision db =
    if not (still_failed (find (locked_row run_id step_id) db.steps)) then (false, db) else (
      true,
      record db {
        runs =
            if is_manual decision.state
            then update_where (has_run_id run_id) (unresolved_run decision.reason_code) db.runs
            else update_where (is_own run_id user) (resumed_run executor_version) db.runs;
        steps = update_where (has_step_id step_id) (resumed_step decision.state) db.steps;
        events = db.events ++ reconciled_event run_id user ∷ [];
      },
    )
