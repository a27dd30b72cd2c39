-- ===== src/Runs/Creating.antt =====
-- Creating a run: `create_run` of app/runs/repository.py, as a transaction that no other overlaps
-- (Locking has those that do). The plan, the policy and their digest are
-- arguments, as are the ids that the database generates; the sum of the day's tokens is read from a
-- table that is not modelled.
pub mod Again
pub mod Locking
pub mod Limits
pub mod Rows
mod Tests
use google_connector_app.Prelude.{
  ℕ, ◌+◌, String, Bool, true, false, not, ◌&&◌, ◌||◌, Option, none, some, List, [], ◌∷◌, ◌++◌, find,
  count_where, nonempty, str_eq, ltb, leb, if◌then◌else◌,
}
use google_connector_app.Json.{Value, dict, null, end}
use google_connector_app.Plans.{PlanStep, ExecutionPlan, PlanError}
use google_connector_app.Routing.{ExecutorAssignment}
use google_connector_app.Runs.{
  Db, Run, RunStatus, Step, StepStatus, Approval, ApprovalStatus, Event, is_active, is_queued,
  is_running,
}

pub record Settings : Type 0 where
  pub max_request_chars : ℕ
  pub max_active_runs_per_user : ℕ
  pub max_runs_per_user_hour : ℕ
  pub max_active_runs_global : ℕ
  pub daily_token_budget : ℕ
  pub quality_reserve_tokens : ℕ
  pub deployment_version : String

-- What `build_plan` and `validate_plan` made of the message, and `action_hash(plan)`.
pub record Planned : Type 0 where
  pub plan : ExecutionPlan
  pub required_clarifications : List String
  pub requires_approval : Bool
  pub write : Bool
  pub errors : List PlanError
  pub digest : String

-- `key` is the idempotency key, or a new UUID.
pub record Request : Type 0 where
  pub user_id : String
  pub chars : ℕ
  pub key : String
  pub required_executor_version : Option String

-- The ids of the rows to come: steps are numbered from `step`.
pub record Fresh : Type 0 where
  pub run : ℕ
  pub step : ℕ
  pub approval : ℕ
  pub now : ℕ

pub data Limit : Type 0 where
  request_too_long too_many_active hourly_limit at_capacity token_reserve : Limit

-- RunLimitExceeded, CandidateAssignmentMismatch, or the run and whether it is new.
pub data Creation : Type 0 where
  refused : Limit → Creation
  mismatch : Creation
  existing created : Run → Creation

abbrev pub has_idempotency_key : String → String → Run → Bool
has_idempotency_key user key r = str_eq r.user_id user && str_eq r.idempotency_key key

-- `deleted_at IS NULL AND status IN (…)`, of the user and of all
abbrev pub is_active_of : String → Run → Bool
is_active_of user r = str_eq r.user_id user && not r.deleted && is_active r.status

abbrev pub is_global_active : Run → Bool
is_global_active r = not r.deleted && (is_queued r.status || is_running r.status)

-- `queued_at >= now() - interval '1 hour'`
abbrev is_recent_of : String → ℕ → Run → Bool
is_recent_of user now r = str_eq r.user_id user && leb now (r.queued_at + 3600)

-- The limits, in the order of the tests; the last is `remaining_after < reserve` with the
-- subtractions brought to the other side.
unfoldable pub admission : Settings → Request → Planned → ℕ → ℕ → List Run → Option Limit
admission settings q p used_tokens now runs =
    if leb settings.max_active_runs_per_user (count_where (is_active_of q.user_id) runs)
    then some too_many_active
    else if leb settings.max_runs_per_user_hour (count_where (is_recent_of q.user_id now) runs)
    then some hourly_limit
    else if leb settings.max_active_runs_global (count_where is_global_active runs)
    then some at_capacity
    else if p.write
        && ltb settings.daily_token_budget
            (settings.quality_reserve_tokens + used_tokens + p.plan.estimated_max_tokens)
    then some token_reserve
    else none

abbrev pub initial_status : Planned → RunStatus
initial_status p =
    if nonempty p.required_clarifications
    then RunStatus.awaiting_clarification
    else if p.requires_approval
    then RunStatus.awaiting_approval
    else RunStatus.queued

-- `required_executor_version and (cohort != "candidate" or version != required)`
abbrev pub mismatches : Option String → ExecutorAssignment → Bool
mismatches none a = false
mismatches (some v) a =
    not (str_eq v "") && (not (str_eq a.cohort "candidate") || not (str_eq a.executor_version v))

abbrev pub new_run : Fresh → Request → Planned → ExecutorAssignment → Run
new_run fresh q p a = record {
  id = fresh.run;
  user_id = q.user_id;
  idempotency_key = q.key;
  status = initial_status p;
  current_phase = "planned";
  executor_version = a.executor_version;
  canary_id = a.canary_id;
  cohort_assignment = a.cohort;
  deleted = false;
  queued_at = fresh.now;
  started_at = none;
  completed_at = none;
  heartbeat_at = none;
  lease_owner = none;
  lease_expires_at = none;
  cancellation_source = none;
  error_category = none;
  error_message = none;
  side_effect_integrity = 100;
  clarification_questions = p.required_clarifications;
}

-- The run of a plan that does not validate.
abbrev pub invalid_run : Settings → Fresh → Request → Planned → Run
invalid_run settings fresh q p = record {
  id = fresh.run;
  user_id = q.user_id;
  idempotency_key = q.key;
  status = RunStatus.failed;
  current_phase = "validation";
  executor_version = settings.deployment_version;
  canary_id = none;
  cohort_assignment = "control";
  deleted = false;
  queued_at = fresh.now;
  started_at = none;
  completed_at = some fresh.now;
  heartbeat_at = none;
  lease_owner = none;
  lease_expires_at = none;
  cancellation_source = none;
  error_category = some "planning";
  error_message = some "Invalid execution plan";
  side_effect_integrity = 100;
  clarification_questions = p.required_clarifications;
}

abbrev text_or_empty : Option String → String
text_or_empty none = ""
text_or_empty (some t) = t

-- `3 if step.read_only else 1`
abbrev pub step_row : ℕ → ℕ → ℕ → StepStatus → PlanStep → Step
step_row run_id id sequence_no status s = record {
  id = id;
  run_id = run_id;
  step_key = s.id;
  sequence_no = sequence_no;
  title = s.title;
  service = text_or_empty s.service;
  operation = s.operation;
  dependencies = s.dependencies;
  read_only = s.read_only;
  weight = s.weight;
  status = status;
  input_data = dict s.arguments;
  output_data = dict end;
  attempt_count = 0;
  max_attempts = if s.read_only then 3 else 1;
  error_category = none;
  error_message = none;
}

abbrev pub status_of : PlanStep → StepStatus
status_of s = if s.requires_approval then StepStatus.awaiting_approval else StepStatus.pending

-- `enumerate(plan.steps, 1)`, from a sequence number and an id on
unfoldable pub step_rows : (PlanStep → StepStatus) → ℕ → ℕ → ℕ → List PlanStep → List Step
step_rows status run_id id sequence_no [] = []
step_rows status run_id id sequence_no (s ∷ steps) =
    step_row run_id id sequence_no (status s) s
    ∷ step_rows status run_id (id + 1) (sequence_no + 1) steps

-- now() + interval '30 minutes'
abbrev pub new_approval : Fresh → ℕ → String → String → Approval
new_approval fresh run_id user digest = record {
  id = fresh.approval;
  run_id = run_id;
  requested_from = user;
  action_hash = digest;
  status = ApprovalStatus.pending;
  expires_at = fresh.now + 1800;
  decided_by = none;
  decision_note = none;
}

abbrev event_for : Fresh → Request → String → Event
event_for fresh q t = record { run_id = fresh.run; user_id = q.user_id; event_type = t }

abbrev creation_events : Fresh → Request → Planned → List Event
creation_events fresh q p =
    event_for fresh q "run_created"
    ∷ event_for fresh q "request_analyzed"
    ∷ event_for fresh q "context_analyzed"
    ∷ event_for fresh q "plan_produced"
    ∷ (if nonempty p.required_clarifications
        then event_for fresh q "clarification_required" ∷ []
        else if p.requires_approval
        then event_for fresh q "approval_required" ∷ []
        else [])

abbrev pub new_approvals : Fresh → Request → Planned → List Approval
new_approvals fresh q p =
    if not (nonempty p.required_clarifications) && p.requires_approval
    then new_approval fresh fresh.run q.user_id p.digest ∷ []
    else []

-- The inserts of a run that is admitted.
unfoldable pub insert_run : Fresh → Request → Planned → ExecutorAssignment → Db → Db
insert_run fresh q p a db = record {
  runs = db.runs ++ new_run fresh q p a ∷ [];
  steps = db.steps ++ step_rows status_of fresh.run fresh.step 1 p.plan.steps;
  approvals = db.approvals ++ new_approvals fresh q p;
  events = db.events ++ creation_events fresh q p;
}

unfoldable pub insert_invalid : Settings → Fresh → Request → Planned → Db → Db
insert_invalid settings fresh q p db = record db {
  runs = db.runs ++ invalid_run settings fresh q p ∷ [];
  events = db.events ++ event_for fresh q "planning_failed" ∷ [];
}

-- For a key that no run of the user has.
unfoldable pub create_new :
    Settings → Fresh → Request → Planned → ExecutorAssignment → ℕ → Db → Creation × Db
create_new settings fresh q p a used_tokens db =
    if nonempty p.errors
    then (created (invalid_run settings fresh q p), insert_invalid settings fresh q p db)
    else elim (admission settings q p used_tokens fresh.now db.runs) [
      | some limit ↦ (refused limit, db)
      | none ↦
          if mismatches q.required_executor_version a
          then (mismatch, db)
          else (created (new_run fresh q p a), insert_run fresh q p a db)
    ]

unfoldable pub create_run :
    Settings → Fresh → Request → Planned → ExecutorAssignment → ℕ → Db → Creation × Db
unfolding create_new
create_run settings fresh q p a used_tokens db =
    if ltb settings.max_request_chars q.chars
    then (refused request_too_long, db)
    else elim (find (has_idempotency_key q.user_id q.key) db.runs) [
      | some r ↦ (existing r, db)
      | none ↦ create_new settings fresh q p a used_tokens db
    ]
