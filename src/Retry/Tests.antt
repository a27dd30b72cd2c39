-- ===== src/Retry/Tests.antt =====
-- A build that stopped between two rounds of its patch author.
use google_connector_app.Prelude.{◌≡◌, refl, true, false, [], ◌&&◌, ◌⊎◌}
use google_connector_app.Json.{null, num, text, dict, list, field, end, nil, cons, truthy}
use google_connector_app.Retry.{
  Job, is_terminal_code, is_terminal, is_provider_code, is_role, is_resumable, rounds_exhausted,
  tokens_exhausted, was_restarted, is_budget_code, candidate_retry_decision,
}
use google_connector_app.Retry.Eligible.{candidate_retry_decision-eligible}

abbrev job : Job
job = record {
  candidate_commit = null;
  candidate_deployment_id = null;
  checkpoint = dict (
      field "generation_checkpoint"
        (dict (
          field "phase" (text "role_in_progress") (
            field "active_role" (text "investigator_and_patch_author")
              (field "next_round" (num 3) (field "messages" (list (cons null nil)) end)))))
        end);
  file_count = num 2;
  tokens_used = num 100;
}

resumes : (candidate_retry_decision 1000 job "candidate_timeout" [] false).eligible ≡ true
unfolding candidate_retry_decision is_terminal is_terminal_code is_provider_code is_role
    is_resumable rounds_exhausted tokens_exhausted is_budget_code
resumes = refl

candidate_retry_decision-eligible_example :
    (truthy null ≡ false)
    × (truthy null ≡ false)
    × (is_terminal "candidate_timeout" [] ≡ false)
    × ((is_provider_code "candidate_timeout" && false ≡ true)
        ⊎ ((is_resumable job ≡ true)
            × (rounds_exhausted job ≡ false)
            × (tokens_exhausted 1000 job ≡ false)
            × (is_budget_code "candidate_timeout" && was_restarted job ≡ false)))
candidate_retry_decision-eligible_example =
    candidate_retry_decision-eligible 1000 job "candidate_timeout" [] false resumes
