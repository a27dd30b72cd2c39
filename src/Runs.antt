-- ===== src/Runs.antt =====
-- The durable run tables that app/runs, app/api/routes/runs.py and the worker share
-- (migrations/versions/003_durable_runs_okf_improvements.py). A table is a list of its rows;
-- ids are only compared, so they are numbers, and instants are numbers of seconds.
pub mod Creating
pub mod Clarifying
pub mod Deciding
pub mod Claiming
pub mod Budgeted
pub mod Finishing
pub mod Resuming
mod Tests
use google_connector_app.Prelude.{ℕ, String, Bool, true, false, Option, List}
use google_connector_app.Json.{Value}

pub data RunStatus : Type 0 where
  queued running awaiting_approval awaiting_clarification completed partial failed cancelled :
      RunStatus

pub data StepStatus : Type 0 where
  pending awaiting_approval running completed failed skipped cancelled compensated : StepStatus

pub data ApprovalStatus : Type 0 where
  pending approved rejected expired : ApprovalStatus

-- A row of agent_run_steps. `weight` (a NUMERIC(8,4)) is in ten-thousandths.
pub record Step : Type 0 where
  pub id : ℕ
  pub run_id : ℕ
  pub step_key : String
  pub sequence_no : ℕ
  pub title : String
  pub service : String
  pub operation : String
  pub dependencies : List String
  pub read_only : Bool
  pub weight : ℕ
  pub status : StepStatus
  pub input_data : Value
  pub output_data : Value
  pub attempt_count : ℕ
  pub max_attempts : ℕ
  pub error_category : Option String
  pub error_message : Option String

-- A row of agent_runs, less the columns that no modelled code reads or branches on.
pub record Run : Type 0 where
  pub id : ℕ
  pub user_id : String
  pub idempotency_key : String
  pub status : RunStatus
  pub current_phase : String
  pub executor_version : String
  pub canary_id : Option ℕ
  pub cohort_assignment : String
  pub deleted : Bool
  pub queued_at : ℕ
  pub started_at : Option ℕ
  pub completed_at : Option ℕ
  pub heartbeat_at : Option ℕ
  pub lease_owner : Option String
  pub lease_expires_at : Option ℕ
  pub cancellation_source : Option String
  pub error_category : Option String
  pub error_message : Option String
  pub side_effect_integrity : ℕ
  pub clarification_questions : List String

-- A row of run_approvals.
pub record Approval : Type 0 where
  pub id : ℕ
  pub run_id : ℕ
  pub requested_from : String
  pub action_hash : String
  pub status : ApprovalStatus
  pub expires_at : ℕ
  pub decided_by : Option String
  pub decision_note : Option String

-- A row of agent_run_events, by its run, its user and its type.
pub record Event : Type 0 where
  pub run_id : ℕ
  pub user_id : String
  pub event_type : String

pub record Db : Type 0 where
  pub runs : List Run
  pub steps : List Step
  pub approvals : List Approval
  pub events : List Event

-- The tests that the queries make on a status.
abbrev pub is_queued : RunStatus → Bool
is_queued RunStatus.queued = true
is_queued s = false

abbrev pub is_running : RunStatus → Bool
is_running RunStatus.running = true
is_running s = false

abbrev pub is_cancelled : RunStatus → Bool
is_cancelled RunStatus.cancelled = true
is_cancelled s = false

abbrev pub is_pending : StepStatus → Bool
is_pending StepStatus.pending = true
is_pending s = false

-- `status IN ('queued','running','awaiting_approval','awaiting_clarification')`
abbrev pub is_active : RunStatus → Bool
is_active RunStatus.queued = true
is_active RunStatus.running = true
is_active RunStatus.awaiting_approval = true
is_active RunStatus.awaiting_clarification = true
is_active s = false

abbrev pub awaits_clarification : RunStatus → Bool
awaits_clarification RunStatus.awaiting_clarification = true
awaits_clarification s = false

-- a step with status 'running'
abbrev pub is_started : StepStatus → Bool
is_started StepStatus.running = true
is_started s = false

abbrev pub is_completed : StepStatus → Bool
is_completed StepStatus.completed = true
is_completed s = false

abbrev pub is_failed : StepStatus → Bool
is_failed StepStatus.failed = true
is_failed s = false

abbrev pub awaits_approval : StepStatus → Bool
awaits_approval StepStatus.awaiting_approval = true
awaits_approval s = false

-- an approval with status 'pending'
abbrev pub is_undecided : ApprovalStatus → Bool
is_undecided ApprovalStatus.pending = true
is_undecided s = false
