-- ===== src/Retry.antt =====
-- Whether a failed candidate build may be retried: `candidate_retry_decision` of
-- app/improvements/retry.py. A JSON number is an integer here, and the effective token budget of the
-- job, which rests on the settings, is a parameter.
pub mod Eligible
mod Tests
use google_connector_app.Prelude.{
  ℕ, zero, suc, String, Bool, true, false, not, ◌&&◌, ◌||◌, List, [], ◌∷◌, any, contains, str_eq,
  ltb, leb, if◌then◌else◌,
}
use google_connector_app.Json.{
  Value, Items, null, bool, num, neg, text, list, dict, nil, cons, get, truthy, fields,
}

-- The job's columns that the decision reads.
pub record Job : Type 0 where
  pub candidate_commit : Value
  pub candidate_deployment_id : Value
  pub checkpoint : Value
  pub file_count : Value
  pub tokens_used : Value

-- The source's reason codes; the text of `terminal` is the code, or the first of the sorted errors.
pub data RetryReason : Type 0 where
  candidate_commit_exists candidate_deployment_exists : RetryReason
  terminal : String → List String → RetryReason
  provider_retry_from_checkpoint provider_retry_from_start : RetryReason
  no_valid_resumable_checkpoint round_authority_exhausted : RetryReason
  effective_token_authority_exhausted compact_role_restart : RetryReason
  active_role_token_authority_exhausted files_required : RetryReason
  checkpointed_structural_retry : RetryReason

pub record CandidateRetryDecision : Type 0 where
  pub eligible : Bool
  pub reason_code : RetryReason

unfoldable pub is_terminal_code : String → Bool
is_terminal_code = contains (
    "secret_like_content" ∷ "path_outside_approved_roots" ∷ "candidate_file_policy_rejected"
    ∷ "independent_review_rejected" ∷ "invalid_checkpoint" ∷ "production_mutation_attempt"
    ∷ "reviewer_contract_invalid" ∷ [])

unfoldable pub is_provider_code : String → Bool
is_provider_code = contains (
    "RateLimitError" ∷ "APITimeoutError" ∷ "APIConnectionError" ∷ "ConnectError" ∷ "ReadTimeout"
    ∷ "TimeoutError" ∷ "checkpointed_timeout" ∷ "model_context_length" ∷ "tool_generation_failed"
    ∷ [])

unfoldable pub is_role : String → Bool
is_role = contains (
    "coordinator" ∷ "investigator_and_patch_author" ∷ "tool_extension_designer"
    ∷ "independent_safety_reviewer" ∷ "review_remediation_author" ∷ [])

-- `x or y`
abbrev or_value : Value → Value → Value
or_value x y = if truthy x then x else y

-- `int(v or 0) > 0`
abbrev pub is_positive : Value → Bool
is_positive (num (suc n)) = true
is_positive (bool true) = true
is_positive v = false

-- `0 <= int(v or 0) < limit`
abbrev is_below : ℕ → Value → Bool
is_below limit (num n) = ltb n limit
is_below limit (bool true) = ltb 1 limit
is_below limit (neg n) = false
is_below limit v = ltb 0 limit

-- `int(v or 0) >= budget`
abbrev reaches : ℕ → Value → Bool
reaches budget (num n) = leb budget n
reaches budget (bool true) = leb budget 1
reaches budget (neg n) = false
reaches budget v = leb budget 0

-- `int(v or 0) == 0`
abbrev is_zero : Value → Bool
is_zero v = not (truthy v)

abbrev is_text : String → Value → Bool
is_text t (text s) = str_eq s t
is_text t v = false

abbrev text_or_empty : Value → String
text_or_empty (text s) = s
text_or_empty v = ""

abbrev is_nonempty_list : Value → Bool
is_nonempty_list (list (cons x xs)) = true
is_nonempty_list v = false

-- `_checkpoint(job).get(key)`
abbrev pub checkpoint_value : String → Job → Value
checkpoint_value key job = get key (fields (get "generation_checkpoint" (fields job.checkpoint)))

abbrev pub file_count_of : Job → Value
file_count_of job =
    or_value (checkpoint_value "staged_file_count" job)
      (or_value (checkpoint_value "file_count" job) job.file_count)

abbrev pub in_progress : Job → Bool
in_progress job = is_text "role_in_progress" (checkpoint_value "phase" job)

abbrev pub active_role : Job → String
active_role job = text_or_empty (checkpoint_value "active_role" job)

-- A checkpoint that a build can be resumed from.
unfoldable pub is_resumable : Job → Bool
is_resumable job =
    is_text "author_completed" (checkpoint_value "phase" job) && is_positive (file_count_of job)
    || in_progress job
      && is_role (active_role job)
      && is_nonempty_list (checkpoint_value "messages" job)

abbrev max_rounds : Job → ℕ
max_rounds job = if str_eq (active_role job) "independent_safety_reviewer" then 5 else 8

unfoldable pub rounds_exhausted : Job → Bool
rounds_exhausted job =
    in_progress job && not (is_below (max_rounds job) (checkpoint_value "next_round" job))

unfoldable pub tokens_exhausted : ℕ → Job → Bool
tokens_exhausted budget job =
    reaches budget (or_value job.tokens_used (checkpoint_value "tokens_used" job))

-- `restart_count >= 1`: the role was restarted before.
unfoldable pub was_restarted : Job → Bool
was_restarted job =
    is_positive (checkpoint_value "budget_restart_count" job)
    || is_text "compact_role_restart"
        (get "retry_reason" (fields (get "last_runner_failure" (fields job.checkpoint))))

abbrev refuse : RetryReason → CandidateRetryDecision
refuse r = record { eligible = false; reason_code = r }

abbrev allow : RetryReason → CandidateRetryDecision
allow r = record { eligible = true; reason_code = r }

unfoldable pub is_terminal : String → List String → Bool
is_terminal code errors = is_terminal_code code || any is_terminal_code errors

unfoldable pub is_budget_code : String → Bool
is_budget_code code = str_eq code "tool_token_budget_exhausted"

unfoldable pub candidate_retry_decision :
    ℕ → Job → String → List String → Bool → CandidateRetryDecision
candidate_retry_decision budget job code errors runner_retryable =
    if truthy job.candidate_commit
    then refuse candidate_commit_exists
    else if truthy job.candidate_deployment_id
    then refuse candidate_deployment_exists
    else if is_terminal code errors
    then refuse (terminal code errors)
    else if is_provider_code code && runner_retryable
    then allow
        (if is_resumable job then provider_retry_from_checkpoint else provider_retry_from_start)
    else if not (is_resumable job)
    then refuse no_valid_resumable_checkpoint
    else if rounds_exhausted job
    then refuse round_authority_exhausted
    else if tokens_exhausted budget job
    then refuse effective_token_authority_exhausted
    else if is_budget_code code
    then if runner_retryable && not (was_restarted job)
      then allow compact_role_restart
      else refuse active_role_token_authority_exhausted
    else if str_eq code "files_required" && is_zero (file_count_of job)
    then refuse files_required
    else allow checkpointed_structural_retry
