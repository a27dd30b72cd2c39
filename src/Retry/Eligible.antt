-- ===== src/Retry/Eligible.antt =====
-- What an eligible retry rests on.
use google_connector_app.Prelude.{ℕ, String, ◌≡◌, Bool, true, false, ◌&&◌, List, arith, ◌⊎◌}
use google_connector_app.Json.{truthy}
use google_connector_app.Retry.{
  Job, is_terminal, is_provider_code, is_resumable, rounds_exhausted, tokens_exhausted,
  was_restarted, is_budget_code, candidate_retry_decision,
}

-- A retry is declared eligible only where no candidate commit and no deployment exist and neither
-- the code nor an error is terminal; and then either the runner reports a retryable failure of the
-- provider, or the checkpoint is resumable with rounds and tokens left, and a role whose token
-- budget ran out was not restarted before.
pub candidate_retry_decision-eligible :
    (budget : ℕ) (job : Job) (code : String) (errors : List String) (runner_retryable : Bool)
    → (candidate_retry_decision budget job code errors runner_retryable).eligible ≡ true
    → (truthy job.candidate_commit ≡ false)
      × (truthy job.candidate_deployment_id ≡ false)
      × (is_terminal code errors ≡ false)
      × ((is_provider_code code && runner_retryable ≡ true)
          ⊎ ((is_resumable job ≡ true)
              × (rounds_exhausted job ≡ false)
              × (tokens_exhausted budget job ≡ false)
              × (is_budget_code code && was_restarted job ≡ false)))
unfolding candidate_retry_decision
candidate_retry_decision-eligible budget job code errors runner_retryable h = ground arith
