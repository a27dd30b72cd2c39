-- ===== src/Runs/Tests.antt =====
-- The tables of one user with a run, taken through claims, decisions and cancellations.
use google_connector_app.Prelude.{
  ℕ, ◌≡◌, ◌≢◌, refl, String, true, false, not, ◌||◌, none, some, [], ◌∷◌, arith, all, any, keep,
  leb,
}
use google_connector_app.Json.{null}
use google_connector_app.Runs.{
  Db, Run, RunStatus, Step, StepStatus, Approval, ApprovalStatus, is_queued,
}
use google_connector_app.Runs.Claiming.{
  Worker, claimed, recovered, least, claim_run, claim_row, claim_step, is_interrupted, started,
  has_run_id, leased_run, lease,
}
use google_connector_app.Runs.Claiming.Ready.{IsNext, claim_step-IsNext}
use google_connector_app.Runs.Claiming.Leases.{IsLeased, claim_run-IsLeased}
use google_connector_app.Runs.Finishing.Holding
use google_connector_app.Runs.Finishing.Holding.{claim_run-exclusive}
use google_connector_app.Runs.Claiming.Interrupted.{
  is_pending_of, ended, claim_row-interrupted_write,
}
use google_connector_app.Runs.Deciding.{
  Decision, Context, decide_run, decide_with, cancel_run, is_own_run, next_status,
}
use google_connector_app.Runs.Deciding.Outcomes.{IsAnswered, decide_run-IsAnswered, decide_run_once}
use google_connector_app.Runs.Deciding.Cancelling.{decide_run-after_cancel}
use google_connector_app.Runs.Finishing.{fail_run, close_run}
use google_connector_app.Runs.Budgeted.{IsBudgeted}
use google_connector_app.Runs.Finishing.Attempts.{here, next, claim, start, write_at_most_once}
use google_connector_app.Runs.Finishing.Closing.{closed_as, all_done, close_run-completed}
use google_connector_app.Runs.Finishing.Cancelled.{fail_run-after_cancel}

abbrev queued_run : Run
queued_run = record {
  id = 7;
  user_id = "ana";
  idempotency_key = "k";
  status = RunStatus.queued;
  current_phase = "queued";
  executor_version = "v1";
  canary_id = none;
  cohort_assignment = "control";
  deleted = false;
  queued_at = 10;
  started_at = none;
  completed_at = none;
  heartbeat_at = none;
  lease_owner = none;
  lease_expires_at = none;
  cancellation_source = none;
  error_category = none;
  error_message = none;
  side_effect_integrity = 100;
  clarification_questions = [];
}

abbrev other_run : Run
other_run = record queued_run { id = 8; queued_at = 20 }

abbrev read_step : Step
read_step = record {
  id = 1;
  run_id = 7;
  step_key = "read";
  sequence_no = 1;
  title = "Read the mail";
  service = "gmail";
  operation = "search";
  dependencies = [];
  read_only = true;
  weight = 10000;
  status = StepStatus.completed;
  input_data = null;
  output_data = null;
  attempt_count = 1;
  max_attempts = 3;
  error_category = none;
  error_message = none;
}

abbrev write_step : Step
write_step = record read_step {
  id = 2;
  step_key = "write";
  sequence_no = 2;
  operation = "send";
  dependencies = "read" ∷ [];
  read_only = false;
  status = StepStatus.pending;
  attempt_count = 0;
  max_attempts = 1;
}

abbrev approval : Approval
approval = record {
  id = 3;
  run_id = 7;
  requested_from = "ana";
  action_hash = "h1";
  status = ApprovalStatus.pending;
  expires_at = 500;
  decided_by = none;
  decision_note = none;
}

abbrev tables : Db
tables = record {
  runs = queued_run ∷ other_run ∷ [];
  steps = read_step ∷ write_step ∷ [];
  approvals = approval ∷ [];
  events = [];
}

abbrev worker : String → ℕ → Worker
worker owner now = record {
  owner = owner;
  executor_version = "v1";
  executor_role = "control";
  lease_seconds = 60;
  now = now;
  is_locked = λ id. false;
}

tables-IsBudgeted : IsBudgeted tables.steps
tables-IsBudgeted = record { distinct = refl; within = refl }

abbrev after_claim : Db
after_claim = (claim_run (worker "w1" 100) tables).1

abbrev after_start : Db
after_start = record after_claim { steps = (claim_step 7 after_claim.steps).1 }

write_at_most_once_example :
    all (λ s. s.read_only || leb s.attempt_count 1) after_start.steps ≡ true
write_at_most_once_example =
    write_at_most_once tables after_start tables-IsBudgeted
      (next (next here (claim (worker "w1" 100))) (start 7))

abbrev lost_run : Run
lost_run = record queued_run {
  status = RunStatus.running;
  lease_owner = some "w1";
  lease_expires_at = some 160;
}

abbrev lost_write : Step
lost_write = record write_step { status = StepStatus.running; attempt_count = 1 }

abbrev lost_tables : Db
lost_tables = record tables { runs = lost_run ∷ []; steps = read_step ∷ lost_write ∷ [] }

claim_row-interrupted_write_example :
    let (handed_out, db') = claim_row (worker "w2" 200) lost_run lost_tables in
    (handed_out ≡ recovered 7)
    × (any (is_interrupted 7) db'.steps ≡ false)
    × (keep (is_pending_of 7) db'.steps ≡ keep (is_pending_of 7) lost_tables.steps)
    × (all (λ x. not (has_run_id 7 x) || ended x) db'.runs ≡ true)
claim_row-interrupted_write_example =
    claim_row-interrupted_write (worker "w2" 200) lost_run lost_tables refl refl

first_claimed :
    (claim_run (worker "w1" 100) tables).0 ≡ claimed (leased_run (worker "w1" 100) queued_run)
unfolding claim_run claim_row least
first_claimed = refl

claim_run-IsLeased_example :
    IsLeased (worker "w1" 100) tables (leased_run (worker "w1" 100) queued_run) after_claim
claim_run-IsLeased_example = claim_run-IsLeased (worker "w1" 100) tables _ first_claimed

-- The run is cancelled in between, and the second worker gets the other one.
abbrev meanwhile : Db
meanwhile =
    (cancel_run 105 7 "ana" (record after_claim { steps = (claim_step 7 after_claim.steps).1 })).1

second_claimed :
    (claim_run (worker "w2" 110) meanwhile).0 ≡ claimed (leased_run (worker "w2" 110) other_run)
unfolding claim_run claim_row least lease cancel_run claim_step
second_claimed = refl

claim_run-exclusive_example :
    (leased_run (worker "w2" 110) other_run).id ≢ (leased_run (worker "w1" 100) queued_run).id
claim_run-exclusive_example =
    claim_run-exclusive (worker "w1" 100) (worker "w2" 110) tables meanwhile
      (leased_run (worker "w1" 100) queued_run) (leased_run (worker "w2" 110) other_run) 160
      first_claimed (omega arith)
      (Holding.next (Holding.next Holding.here (Holding.start 7)) (Holding.cancel 105 7 "ana"))
      (omega arith) second_claimed

write_started : (claim_step 7 tables.steps).0 ≡ some (started write_step)
unfolding claim_step least
write_started = refl

claim_step-IsNext_example : (s : Step) × IsNext tables.steps 7 s × (started write_step ≡ started s)
claim_step-IsNext_example = claim_step-IsNext 7 tables.steps (started write_step) write_started

abbrev context : Context
context = record { current_executor_version = "v2"; now = 100 }

abbrev approve : String → Decision
approve digest = record {
  run_id = 7;
  user_id = "ana";
  approved = true;
  digest = digest;
  note = none;
}

approved_once : (decide_run context (approve "h1") tables).0 ≡ some RunStatus.queued
unfolding decide_run decide_with
approved_once = refl

wrong_digest : (decide_run context (approve "h2") tables).0 ≡ none
unfolding decide_run decide_with
wrong_digest = refl

decide_run-IsAnswered_example :
    IsAnswered context (approve "h1") tables × (RunStatus.queued ≡ next_status true)
decide_run-IsAnswered_example =
    decide_run-IsAnswered context (approve "h1") tables RunStatus.queued approved_once

decide_run_once_example :
    (decide_run context (approve "h1") (decide_run context (approve "h1") tables).1).0 ≡ none
decide_run_once_example =
    decide_run_once context context (approve "h1") tables RunStatus.queued (omega arith)
      approved_once

decide_run-after_cancel_example :
    let db' = (cancel_run 90 7 "ana" tables).1 in
    ((decide_run context (approve "h1") db').0 ≡ some RunStatus.queued)
    × (all
          (λ r. not (is_own_run 7 "ana" r) || is_queued r.status)
          (decide_run context (approve "h1") db').1.runs
        ≡ true)
decide_run-after_cancel_example =
    decide_run-after_cancel context 90 (approve "h1") approval tables refl refl refl (omega arith)

abbrev reading_tables : Db
reading_tables = record tables {
  runs = lost_run ∷ [];
  steps = record read_step { status = StepStatus.running } ∷ [];
}

fail_run-after_cancel_example :
    all
      (λ x. not (has_run_id 7 x) || is_queued x.status)
      (fail_run 100 lost_run "network" "timeout" (cancel_run 90 7 "ana" reading_tables).1).runs
    ≡ true
fail_run-after_cancel_example =
    fail_run-after_cancel 90 100 lost_run "ana" "network" "timeout" reading_tables refl

close_run-completed_example :
    all
      (λ x. not (has_run_id 7 x) || closed_as (all_done 7 lost_tables.steps) x.status)
      (close_run 300 lost_run lost_tables).runs
    ≡ true
close_run-completed_example = close_run-completed 300 lost_run lost_tables
