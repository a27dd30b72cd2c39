-- ===== src/Runs/Creating/Tests.antt =====
-- A run of two steps that is created, created again, started and resumed.
use google_connector_app.Prelude.{
  ℕ, ◌+◌, ◌≤◌, ◌≡◌, refl, String, true, false, none, some, List, [], ◌∷◌, ◌++◌, arith, all,
  count_where, str_eq, if◌then◌else◌,
}
use google_connector_app.Json.{null, end}
use google_connector_app.Plans.{
  PlanStep, ExecutionPlan, validate_plan, has_duplicate, position, any_forward, order_errors,
  all_step_errors, step_errors,
}
use google_connector_app.Plans.Tables.{is_known_service, operation_tools}
use google_connector_app.Routing.{ExecutorAssignment}
use google_connector_app.Runs.{Db, Step, StepStatus}
use google_connector_app.Runs.Claiming.{claim_step}
use google_connector_app.Runs.Claiming.Progress.{points_back, claim_step-progress}
use google_connector_app.Runs.Creating.{
  Settings, Planned, Request, Fresh, is_active_of, create_run, create_new, insert_run, admission,
  existing, new_run, step_rows, status_of,
}
use google_connector_app.Runs.Creating.Again.{create_run-again}
use google_connector_app.Runs.Creating.Locking.{Creations, admit, commit, lock_free}
use google_connector_app.Runs.Creating.Limits.{here, next, admit_one, commit_at, creations-IsCapped}
use google_connector_app.Runs.Creating.Rows.{validate_plan-points_back}
use google_connector_app.Reconciliation.{ReconciliationDecision, safe_to_retry}
use google_connector_app.Runs.Resuming.{finish_resume}
use google_connector_app.Runs.Resuming.Once.{finish_resume_once}

abbrev search_step : PlanStep
search_step = record {
  id = "search";
  title = "Search the mail";
  service = some "gmail";
  operation = "search";
  dependencies = [];
  arguments = end;
  read_only = true;
  requires_approval = false;
  weight = 5000;
}

abbrev recent_step : PlanStep
recent_step = record search_step {
  id = "recent";
  operation = "recent_senders";
  dependencies = "search" ∷ [];
}

abbrev plan : ExecutionPlan
plan = record {
  services = "gmail" ∷ [];
  rag_mode = "off";
  steps = search_step ∷ recent_step ∷ [];
  estimated_max_tokens = 100;
}

abbrev registered : List String
registered =
    "search_gmail" ∷ "get_gmail_message" ∷ "list_gmail_threads" ∷ "list_recent_gmail_senders" ∷ []

abbrev planned : Planned
planned = record {
  plan = plan;
  required_clarifications = [];
  requires_approval = false;
  write = false;
  errors = [];
  digest = "h";
}

abbrev settings : Settings
settings = record {
  max_request_chars = 1000;
  max_active_runs_per_user = 2;
  max_runs_per_user_hour = 10;
  max_active_runs_global = 5;
  daily_token_budget = 10000;
  quality_reserve_tokens = 100;
  deployment_version = "v1";
}

abbrev request : Request
request = record { user_id = "ana"; chars = 20; key = "k"; required_executor_version = none }

abbrev fresh : Fresh
fresh = record { run = 7; step = 1; approval = 3; now = 100 }

abbrev control : ExecutorAssignment
control = record {
  executor_version = "v1";
  canary_id = none;
  cohort = "control";
  okf_bundle_version = null;
}

abbrev no_rows : Db
no_rows = record { runs = []; steps = []; approvals = []; events = [] }

abbrev after_create : Db
after_create = (create_run settings fresh request planned control 0 no_rows).1

create_run-again_example :
    create_run settings (record fresh { run = 8 }) request planned control 0 after_create
    ≡ (existing (new_run fresh request planned control), after_create)
unfolding create_run create_new insert_run admission
create_run-again_example =
    create_run-again settings settings fresh (record fresh { run = 8 }) request request planned
      planned control control 0 0 no_rows (new_run fresh request planned control) refl refl refl
      refl

-- Two users' transactions, opened before either commits.
abbrev other_request : Request
other_request = record request { user_id = "bob" }

abbrev lock_of : String → ℕ
lock_of user = if str_eq user "ana" then 1 else 2

abbrev both_opened : Creations
both_opened =
    (admit lock_of settings (record fresh { run = 8 }) other_request planned control 0
      (admit lock_of settings fresh request planned control 0
        (record { db = no_rows; opened = [] })).1).1

both_admitted :
    both_opened.opened
    ≡ record {
      fresh = record fresh { run = 8 };
      request = other_request;
      planned = planned;
      assignment = control;
    }
      ∷ record { fresh = fresh; request = request; planned = planned; assignment = control }
      ∷ []
unfolding admit lock_free admission
both_admitted = refl

creations-IsCapped_example :
    let last = commit 0 both_opened in
    count_where (is_active_of "ana") last.db.runs
      + count_where (λ o. str_eq o.request.user_id "ana") last.opened
    ≤ 2
creations-IsCapped_example =
    creations-IsCapped lock_of settings "ana" no_rows (commit 0 both_opened) (omega arith) (
      next
        (next (next here (admit_one fresh request planned control 0))
          (admit_one (record fresh { run = 8 }) other_request planned control 0))
        (commit_at 0))

abbrev rows : List Step
rows = step_rows status_of 7 1 1 plan.steps

validate_plan-points_back_example : all (points_back ([] ++ rows) 7) ([] ++ rows) ≡ true
unfolding validate_plan order_errors any_forward position has_duplicate is_known_service
    operation_tools all_step_errors step_errors
validate_plan-points_back_example =
    validate_plan-points_back registered plan status_of 7 1 [] refl refl

claim_step-progress_example : (s : Step) × ((claim_step 7 rows).0 ≡ some s)
unfolding step_rows
claim_step-progress_example = claim_step-progress 7 rows refl refl refl

abbrev failed_rows : Db
failed_rows = record after_create {
  steps =
      record {
        id = 1;
        run_id = 7;
        step_key = "search";
        sequence_no = 1;
        title = "Search the mail";
        service = "gmail";
        operation = "search";
        dependencies = [];
        read_only = true;
        weight = 5000;
        status = StepStatus.failed;
        input_data = null;
        output_data = null;
        attempt_count = 3;
        max_attempts = 3;
        error_category = some "network";
        error_message = none;
      }
      ∷ [];
}

abbrev retry : ReconciliationDecision
retry = record { state = safe_to_retry; reason_code = "read_only"; resume_step_id = some 1 }

abbrev resumed : Db
resumed = (finish_resume "v2" 7 "ana" 1 retry failed_rows).1

finish_resume_once_example : finish_resume "v3" 7 "ana" 1 retry resumed ≡ (false, resumed)
unfolding finish_resume
finish_resume_once_example =
    finish_resume_once "v2" "v3" 7 1 "ana" "ana" retry retry failed_rows (λ e. cc e) refl
