-- ===== src/Runs/Clarifying.antt =====
-- Answering a run's questions: `clarify_run` of app/runs/repository.py. Whether the answers' texts
-- are well formed is an argument, as is the plan that is rebuilt from the request and all answers.
use google_connector_app.Prelude.{
  ℕ, String, Bool, not, ◌&&◌, ◌||◌, none, some, List, [], ◌∷◌, ◌++◌, find, keep, update_where,
  nonempty, subset, str_eq, ◌==◌, if◌then◌else◌,
}
use google_connector_app.Plans.{PlanStep}
use google_connector_app.Runs.{Db, Run, RunStatus, Step, StepStatus, Event, awaits_clarification}
use google_connector_app.Runs.Creating.{Planned, Fresh, step_rows, new_approval}

pub record Clarification : Type 0 where
  pub run_id : ℕ
  pub user_id : String
  pub questions : List String
  pub well_formed : Bool
  pub current_executor_version : String

-- No such run, InvalidClarificationAnswers, or the run's new status.
pub data Clarified : Type 0 where
  no_run rejected : Clarified
  clarified : RunStatus → Clarified

abbrev pub is_open_run : Clarification → Run → Bool
is_open_run q r = r.id == q.run_id && str_eq r.user_id q.user_id && awaits_clarification r.status

abbrev pub has_id : ℕ → Run → Bool
has_id id r = r.id == id

abbrev pub still_open : Planned → Run → Run
still_open p r = record r { clarification_questions = p.required_clarifications }

abbrev repinned : Clarification → Run → String
repinned q r = elim r.canary_id [ none ↦ q.current_executor_version | some c ↦ r.executor_version ]

abbrev pub clarified_status : Planned → RunStatus
clarified_status p = if p.requires_approval then RunStatus.awaiting_approval else RunStatus.queued

abbrev pub clarified_run : Clarification → Planned → Run → Run
clarified_run q p r = record r {
  status = clarified_status p;
  current_phase = "planned";
  clarification_questions = [];
  executor_version = repinned q r;
}

abbrev pub pending_status : PlanStep → StepStatus
pending_status s = StepStatus.pending

abbrev pub of_other_run : ℕ → Step → Bool
of_other_run run_id s = not (s.run_id == run_id)

abbrev received : Clarification → Event
received q = record {
  run_id = q.run_id;
  user_id = q.user_id;
  event_type = "clarification_received";
}

-- Questions remain: only the run's plan and questions are replaced.
unfoldable pub keep_asking : Clarification → Planned → Db → Db
keep_asking q p db = record db {
  runs = update_where (has_id q.run_id) (still_open p) db.runs;
  events = db.events ++ received q ∷ [];
}

-- The steps are replaced by those of the rebuilt plan.
unfoldable pub apply_clarification : Fresh → Clarification → Planned → Db → Db
apply_clarification fresh q p db = record {
  runs = update_where (has_id q.run_id) (clarified_run q p) db.runs;
  steps =
      keep (of_other_run q.run_id) db.steps
      ++ step_rows pending_status q.run_id fresh.step 1 p.plan.steps;
  approvals =
      if p.requires_approval
      then db.approvals ++ new_approval fresh q.run_id q.user_id p.digest ∷ []
      else db.approvals;
  events = db.events ++ received q ∷ [];
}

unfoldable pub clarify_run : Fresh → Clarification → Planned → Db → Clarified × Db
unfolding keep_asking apply_clarification
clarify_run fresh q p db = elim (find (is_open_run q) db.runs) [
  | none ↦ (no_run, db)
  | some r ↦
      if not (subset q.questions r.clarification_questions) || not q.well_formed
      then (rejected, db)
      else if nonempty p.required_clarifications
      then (clarified RunStatus.awaiting_clarification, keep_asking q p db)
      else (clarified (clarified_status p), apply_clarification fresh q p db)
]
