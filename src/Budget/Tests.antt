-- ===== src/Budget/Tests.antt =====
-- A long tool result that is compacted away, with one token a text as the estimate of a short one.
use google_connector_app.Prelude.{
  ℕ, String, ◌≡◌, refl, Bool, true, false, none, List, [], ◌∷◌, str_eq, if◌then◌else◌,
}
use google_connector_app.Budget.{
  Message, Budget, fitted, message_tokens, within_allowance, compacted, compact_from,
  fit_messages_to_budget,
}
use google_connector_app.Budget.Fitting.{IsFitted, fit_messages_to_budget-IsFitted}

abbrev budget : Budget
budget = record {
  estimate = λ t. if str_eq t "a long mail" then 100 else 1;
  schema_tokens = 10;
  context_limit = 60;
  reserved_completion_tokens = 10;
  safety_tokens = 5;
}

abbrev message : Bool → ℕ → String → Message
message tool id t = record { is_tool = tool; tool_call_id = id; content = t; calls = none }

abbrev messages : List Message
messages =
    message false 0 "Read my mail" ∷ message true 1 "a long mail" ∷ message false 0 "go on" ∷ []

abbrev shorter : List Message
shorter =
    message false 0 "Read my mail"
    ∷ compacted (message true 1 "a long mail")
    ∷ message false 0 "go on"
    ∷ []

compacts_once : fit_messages_to_budget budget messages ≡ fitted shorter 1
unfolding fit_messages_to_budget compact_from within_allowance message_tokens
compacts_once = refl

fit_messages_to_budget-IsFitted_example : IsFitted budget messages shorter
fit_messages_to_budget-IsFitted_example =
    fit_messages_to_budget-IsFitted budget messages shorter 1 compacts_once
