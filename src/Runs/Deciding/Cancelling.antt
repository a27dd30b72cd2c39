-- ===== src/Runs/Deciding/Cancelling.antt =====
-- What cancelling does, and what it leaves open.
use google_connector_app.Prelude.{
  ℕ, ◌<◌, String, ◌≡◌, refl, ◌∙◌, ap, true, false, not, ◌||◌, some, arith, find, any, all, keep,
  str_eq, keep-update_where_within, &&-left, update_where-none, any-update_where, all-update_where,
}
use google_connector_app.Runs.{Db, RunStatus, Approval, is_queued}
use google_connector_app.Runs.Deciding.{
  Decision, Context, is_requested, is_own_run, may_cancel, cancelled_run, cancel_run, decide_run,
  decide_with, apply_decision, decided_run,
}
use google_connector_app.Runs.Deciding.Outcomes.{decide_run-found}

-- Cancelling says whether the user has a run of that id that is queued, running or awaiting
-- approval, and afterwards there is none.
pub cancel_run-clears :
    (now run_id : ℕ) (user_id : String) (db : Db)
    → ((cancel_run now run_id user_id db).0 ≡ any (may_cancel run_id user_id) db.runs)
      × (any (may_cancel run_id user_id) (cancel_run now run_id user_id db).1.runs ≡ false)
unfolding cancel_run
cancel_run-clears now run_id user_id db = ground (
  arith,
  any-update_where (may_cancel run_id user_id) (cancelled_run now) (λ r. ground arith) db.runs,
)

cancel_run-false :
    (now run_id : ℕ) (user_id : String) (db : Db)
    → any (may_cancel run_id user_id) db.runs ≡ false
    → cancel_run now run_id user_id db ≡ (false, db)
unfolding cancel_run
cancel_run-false now run_id user_id db h =
    ground (arith, update_where-none (may_cancel run_id user_id) (cancelled_run now) db.runs h)

-- Cancelling again is refused and changes nothing.
pub cancel_run_twice :
    (now later run_id : ℕ) (user_id : String) (db : Db)
    → let db' = (cancel_run now run_id user_id db).1 in
      cancel_run later run_id user_id db' ≡ (false, db')
cancel_run_twice now later run_id user_id db =
    cancel_run-false later run_id user_id _ (cancel_run-clears now run_id user_id db).1

-- Cancelling leaves every run of another id or of another user as it was, and all steps and
-- approvals: a pending approval of the cancelled run stays pending.
pub cancel_run-others :
    (now run_id : ℕ) (user_id : String) (db : Db)
    → let db' = (cancel_run now run_id user_id db).1 in
      (keep (λ r. not (is_own_run run_id user_id r)) db'.runs
        ≡ keep (λ r. not (is_own_run run_id user_id r)) db.runs)
      × (db'.steps ≡ db.steps)
      × (db'.approvals ≡ db.approvals)
unfolding cancel_run
cancel_run-others now run_id user_id db =
    let kept =
      keep-update_where_within (may_cancel run_id user_id) (is_own_run run_id user_id)
        (cancelled_run now) (λ r h. &&-left _ _ h) (λ r h. &&-left _ _ h) db.runs in
    (ground (arith, kept), ground arith, ground arith)

approve_with :
    (ctx : Context) (d : Decision) (a : Approval) (db : Db)
    → d.approved ≡ true
    → str_eq a.action_hash d.digest ≡ true
    → ctx.now < a.expires_at
    → decide_with ctx d a db ≡ (some RunStatus.queued, apply_decision ctx d a db)
unfolding decide_with
approve_with ctx d a db yes_please same time = ground arith

approved_runs :
    (ctx : Context) (d : Decision) (a : Approval) (db : Db)
    → d.approved ≡ true
    → all
        (λ r. not (is_own_run d.run_id d.user_id r) || is_queued r.status)
        (apply_decision ctx d a db).runs
      ≡ true
unfolding apply_decision
approved_runs ctx d a db yes_please =
    all-update_where (is_own_run d.run_id d.user_id) (decided_run ctx d.approved)
      (λ r. not (is_own_run d.run_id d.user_id r) || is_queued r.status) (λ r h. ground arith)
      db.runs (λ r h. ground arith)

-- A decision that approves is not stopped by the cancellation of its run: where an unexpired
-- pending approval is answered by its digest, approving after the user has cancelled puts every
-- row of the run back to `queued`.
pub decide_run-after_cancel :
    (ctx : Context) (now : ℕ) (d : Decision) (a : Approval) (db : Db)
    → d.approved ≡ true
    → find (is_requested d) db.approvals ≡ some a
    → str_eq a.action_hash d.digest ≡ true
    → ctx.now < a.expires_at
    → let db' = (cancel_run now d.run_id d.user_id db).1 in
      ((decide_run ctx d db').0 ≡ some RunStatus.queued)
      × (all
            (λ r. not (is_own_run d.run_id d.user_id r) || is_queued r.status)
            (decide_run ctx d db').1.runs
          ≡ true)
decide_run-after_cancel ctx now d a db yes_please found same time =
    let db' : Db = (cancel_run now d.run_id d.user_id db).1 in
    let kept : db'.approvals ≡ db.approvals = (cancel_run-others now d.run_id d.user_id db).2 in
    let here = decide_run-found ctx d db' a (ap (find (is_requested d)) kept ∙ found) in
    let done = here ∙ approve_with ctx d a db' yes_please same time in
    rw done (refl, approved_runs ctx d a db' yes_please)
