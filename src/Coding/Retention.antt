-- ===== src/Coding/Retention.antt =====
-- The hourly sweep of coding runs: the statements on coding_runs of `apply_retention` in
-- app/runs/retention.py. Which rows are past their `retention_until` is an argument.
use google_connector_app.Prelude.{
  ℕ, Bool, true, false, not, ◌&&◌, none, some, List, update_where, ltb,
}
use google_connector_app.Coding.{CodingRun, CodingStatus, expired, is_awaiting}

-- `status='awaiting_approval' AND approval_expires_at < now()`
abbrev pub is_unanswered : ℕ → CodingRun → Bool
is_unanswered now r =
    is_awaiting r.status && elim r.approval_expires_at [ none ↦ false | some t ↦ ltb t now ]

abbrev pub unanswered : CodingRun → CodingRun
unanswered r = record r { status = CodingStatus.blocked; approval_status = expired }

-- The statuses in which a run may be deleted.
abbrev pub is_closed : CodingStatus → Bool
is_closed CodingStatus.completed = true
is_closed CodingStatus.failed = true
is_closed CodingStatus.blocked = true
is_closed CodingStatus.cancelled = true
is_closed s = false

abbrev pub may_delete : (ℕ → Bool) → CodingRun → Bool
may_delete is_outdated r = not r.deleted && is_outdated r.id && is_closed r.status

abbrev pub deleted_row : CodingRun → CodingRun
deleted_row r = record r { deleted = true }

unfoldable pub sweep_coding_runs : ℕ → (ℕ → Bool) → List CodingRun → List CodingRun
sweep_coding_runs now is_outdated runs =
    update_where (may_delete is_outdated) deleted_row
      (update_where (is_unanswered now) unanswered runs)
