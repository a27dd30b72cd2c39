-- ===== src/Runs/Finishing/Cancelled.antt =====
-- The handler of a failed execution does not look at the run's status: a cancelled run goes back
-- to the queue.
use google_connector_app.Prelude.{
  ℕ, ◌≡◌, true, not, ◌||◌, arith, all, keep, String, all-update_where,
}
use google_connector_app.Runs.{Db, Run, is_queued}
use google_connector_app.Runs.Claiming.{is_interrupted, has_run_id}
use google_connector_app.Runs.Deciding.{cancel_run}
use google_connector_app.Runs.Finishing.{is_retryable, retried_run, fail_run}

retry_queues :
    (now : ℕ) (r : Run) (category error : String) (db : Db)
    → is_retryable category (keep (is_interrupted r.id) db.steps) ≡ true
    → all
        (λ x. not (has_run_id r.id x) || is_queued x.status)
        (fail_run now r category error db).runs
      ≡ true
unfolding fail_run
retry_queues now r category error db h = ground (
  arith,
  all-update_where (has_run_id r.id) (retried_run category error)
      (λ x. not (has_run_id r.id x) || is_queued x.status) (λ x e. ground arith) db.runs
      (λ x e. ground arith),
)

steps-cancel_run :
    (now run_id : ℕ) (user_id : String) (db : Db)
    → (cancel_run now run_id user_id db).1.steps ≡ db.steps
unfolding cancel_run
steps-cancel_run now run_id user_id db = ground arith

-- Where the user cancels a run while safe reads of it are running with attempts left, and one of
-- them then fails in a way that is retried, every row of the run is `queued` again.
pub fail_run-after_cancel :
    (asked now : ℕ) (r : Run) (user_id category error : String) (db : Db)
    → is_retryable category (keep (is_interrupted r.id) db.steps) ≡ true
    → all
        (λ x. not (has_run_id r.id x) || is_queued x.status)
        (fail_run now r category error (cancel_run asked r.id user_id db).1).runs
      ≡ true
fail_run-after_cancel asked now r user_id category error db h =
    retry_queues now r category error _ (rw (steps-cancel_run asked r.id user_id db) h)
