-- ===== src/Runs/Finishing.antt =====
-- How the execution of a run ends: the write-back of a step and the last part of `execute_run` of
-- app/runs/worker.py, on success and in its exception handler.
pub mod Cancelled
pub mod Attempts
pub mod Held
pub mod Holding
pub mod Closing
use google_connector_app.Prelude.{
  ℕ, ◌+◌, String, Bool, true, false, not, ◌&&◌, ◌||◌, Option, none, some, List, [], ◌∷◌, ◌++◌, any,
  all, keep, find, update_where, nonempty, contains, str_eq, ltb, ◌==◌, if◌then◌else◌,
}
use google_connector_app.Json.{Value}
use google_connector_app.Runs.{
  Db, Run, RunStatus, Step, StepStatus, Event, is_started, is_completed,
}
use google_connector_app.Runs.Claiming.{
  is_interrupted, may_repeat, has_run_id, has_step_id, of_run, failed_step, terminal_status,
  status_name, least, sequence_of,
}
use google_connector_app.Incident.{completion_from_steps}

-- What the executor and the verifier made of a step.
pub record Report : Type 0 where
  pub verified : Bool
  pub output_data : Value
  pub error_category : Option String
  pub evidence : String

-- `x or d`
abbrev or_default : String → Option String → String
or_default d none = d
or_default d (some s) = if str_eq s "" then d else s

abbrev pub reported_step : Report → Step → Step
reported_step report s = record s {
  status = if report.verified then StepStatus.completed else StepStatus.failed;
  output_data = report.output_data;
  error_category =
      if report.verified then none else some (or_default "verification" report.error_category);
  error_message = if report.verified then none else some report.evidence;
}

unfoldable pub write_back : ℕ → Report → Db → Db
write_back step_id report db = record db {
  steps = update_where (has_step_id step_id) (reported_step report) db.steps;
}

abbrev pub may_retry_category : String → Bool
may_retry_category category = contains ("network" ∷ "rate_limit" ∷ "worker" ∷ []) category

abbrev pub retried_step : String → String → Step → Step
retried_step category error s = record s {
  status = StepStatus.pending;
  error_category = some category;
  error_message = some error;
}

abbrev pub retried_run : String → String → Run → Run
retried_run category error r = record r {
  status = RunStatus.queued;
  current_phase = "retry_wait";
  error_category = some category;
  error_message = some error;
  lease_owner = none;
  lease_expires_at = none;
}

abbrev pub failed_run : ℕ → String → String → List Step → Run → Run
failed_run now category error steps r =
    let status = terminal_status steps in
    record r {
      status = status;
      current_phase = status_name status;
      side_effect_integrity = (completion_from_steps steps).side_effect_integrity;
      error_category = some category;
      error_message = some error;
      completed_at = some now;
      lease_owner = none;
      lease_expires_at = none;
    }

abbrev event_of : Run → String → Event
event_of r t = record { run_id = r.id; user_id = r.user_id; event_type = t }

-- `running_steps and all(read_only) and category in {…} and all(attempt_count < max_attempts)`
abbrev pub is_retryable : String → List Step → Bool
is_retryable category running =
    nonempty running && all may_repeat running && may_retry_category category

-- The exception handler: one more attempt for safe reads, or the end of the run.
unfoldable pub fail_run : ℕ → Run → String → String → Db → Db
fail_run now r category error db =
    let running = keep (is_interrupted r.id) db.steps in
    if is_retryable category running
    then record db {
      runs = update_where (has_run_id r.id) (retried_run category error) db.runs;
      steps = update_where (is_interrupted r.id) (retried_step category error) db.steps;
      events = db.events ++ event_of r "retry_scheduled" ∷ [];
    }
    else (let steps' = update_where (is_interrupted r.id) (failed_step category error) db.steps in
        let own = keep (of_run r.id) steps' in
        record db {
          runs = update_where (has_run_id r.id) (failed_run now category error own) db.runs;
          steps = steps';
          events =
              db.events
              ++ event_of r
                  (if any (λ s. is_completed s.status) own then "run_partial" else "run_failed")
                ∷ [];
        })

-- `_remaining_unresolved_steps`
unfoldable pub unresolved_steps : List Step → List Step
unresolved_steps steps = keep (λ s. not (is_completed s.status)) steps

abbrev pub partial_run : ℕ → List Step → Step → Run → Run
partial_run now steps first r = record r {
  status = RunStatus.partial;
  current_phase = "partial";
  side_effect_integrity = (completion_from_steps steps).side_effect_integrity;
  error_category = some (or_default "verification" first.error_category);
  error_message = some (
      or_default "A previously failed step remains unresolved after reconciliation."
        first.error_message);
  completed_at = some now;
  heartbeat_at = some now;
  lease_owner = none;
  lease_expires_at = none;
}

abbrev pub completed_run : ℕ → List Step → Run → Run
completed_run now steps r = record r {
  status = RunStatus.completed;
  current_phase = "completed";
  side_effect_integrity = (completion_from_steps steps).side_effect_integrity;
  error_category = none;
  error_message = none;
  completed_at = some now;
  heartbeat_at = some now;
  lease_owner = none;
  lease_expires_at = none;
}

-- The end without an exception, once no step is ready or pending and the failed writes that were
-- done after all have been reconciled; the rows come ORDER BY sequence_no.
unfoldable pub close_run : ℕ → Run → Db → Db
unfolding unresolved_steps least
close_run now r db =
    let steps = keep (of_run r.id) db.steps in
    elim (least sequence_of (unresolved_steps steps)) [
      | none ↦ record db {
        runs = update_where (has_run_id r.id) (completed_run now steps) db.runs;
        events = db.events ++ event_of r "run_completed" ∷ [];
      }
      | some first ↦ record db {
        runs = update_where (has_run_id r.id) (partial_run now steps first) db.runs;
        events = db.events ++ event_of r "run_partial" ∷ [];
      }
    ]
