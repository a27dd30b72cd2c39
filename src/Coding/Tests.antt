-- ===== src/Coding/Tests.antt =====
-- One submission that is claimed, and a table with a run whose checks are pending.
use google_connector_app.Prelude.{
  ℕ, ◌≡◌, ◌≢◌, refl, String, true, false, not, ◌||◌, some, List, [], ◌∷◌, all,
}
use google_connector_app.Coding.{
  CodingRun, CodingStatus, Submission, CodingWorker, Check, plan_phase, granted, create_coding_run,
  claim_coding_run, monitor_ci, judge, new_coding_run, leased,
}
use google_connector_app.Coding.Approved.{
  empty, after, submit, approved_before_execution, past_approval, is_granted,
}
use google_connector_app.Coding.Waiting.{monitor_ci-parked}
use google_connector_app.Runs.Claiming.{least}

abbrev submission : ℕ → String → Submission
submission id key = record {
  id = id;
  user_id = "ana";
  idempotency_key = key;
  request_hash = "q";
  executor_version = "v1";
  now = 10;
}

abbrev first_table : List CodingRun
first_table = (create_coding_run (submission 1 "k") []).1

approved_before_execution_example :
    all
      (λ r. not (past_approval r.status) || is_granted r.approval_status)
      (create_coding_run (submission 2 "l") first_table).1
    ≡ true
approved_before_execution_example =
    approved_before_execution (λ o. plan_phase) _
      (after (after empty (submit (submission 1 "k"))) (submit (submission 2 "l")))

abbrev watched : CodingRun
watched = record (new_coding_run (submission 1 "k")) {
  status = CodingStatus.ci_running;
  approval_status = granted;
  lease_owner = some "w1";
  lease_expires_at = some 90;
}

abbrev waiting_run : CodingRun
waiting_run = new_coding_run (submission 2 "l")

abbrev pending_check : List Check
pending_check = record { is_completed = false; is_success = false } ∷ []

abbrev worker : CodingWorker
worker = record {
  owner = "w2";
  executor_version = "v1";
  lease_seconds = 60;
  now = 500;
  is_locked = λ id. false;
}

monitor_ci-parked_example : (leased worker plan_phase waiting_run).id ≢ 1
unfolding monitor_ci judge claim_coding_run least
monitor_ci-parked_example =
    monitor_ci-parked 1 "w1" 50 pending_check (watched ∷ waiting_run ∷ []) worker
      (leased worker plan_phase waiting_run) refl refl refl
