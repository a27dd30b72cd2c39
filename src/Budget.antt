-- ===== src/Budget.antt =====
-- Fitting messages to the model's context: `fit_messages_to_budget` of app/agents/context_budget.py.
-- A message is what the function reads of it, and the token estimate is a parameter.
pub mod Fitting
mod Tests
use google_connector_app.Prelude.{
  ℕ, ◌+◌, String, Bool, true, false, Option, none, some, List, [], ◌∷◌, ◌++◌, leb,
}

-- `calls` is the rendered `tool_calls`, where there are any.
pub record Message : Type 0 where
  pub is_tool : Bool
  pub tool_call_id : ℕ
  pub content : String
  pub calls : Option String

-- The budget of one call: the tools' schema, the reserved completion and the safety margin take
-- their part of the context.
pub record Budget : Type 0 where
  pub estimate : String → ℕ
  pub schema_tokens : ℕ
  pub context_limit : ℕ
  pub reserved_completion_tokens : ℕ
  pub safety_tokens : ℕ

abbrev call_tokens : Budget → Option String → ℕ
call_tokens b none = 0
call_tokens b (some t) = b.estimate t

-- `_message_tokens`
unfoldable pub message_tokens : Budget → List Message → ℕ
message_tokens b [] = 0
message_tokens b (m ∷ messages) =
    8 + b.estimate m.content + call_tokens b m.calls + message_tokens b messages

-- `estimated_input_tokens <= allowance`, with the difference brought to the left side.
unfoldable pub within_allowance : Budget → List Message → Bool
within_allowance b messages =
    leb
      (message_tokens b messages + b.schema_tokens + b.reserved_completion_tokens + b.safety_tokens)
      b.context_limit

abbrev compacted_content : String
compacted_content =
    "{\"compacted\": true, \"reason\": \"earlier tool result removed to preserve context budget\"}"

abbrev pub compacted : Message → Message
compacted m = record m { content = compacted_content }

-- The messages and the number of compactions, or `ModelContextLengthFailure`.
pub data Fit : Type 0 where
  fitted : List Message → ℕ → Fit
  overflow : Fit

-- The loop over the tool messages before the last message; `done` holds the messages passed.
unfoldable pub compact_from : Budget → List Message → List Message → ℕ → Fit
compact_from b done [] n = overflow
compact_from b done (m ∷ []) n = overflow
compact_from b done (m ∷ k ∷ rest) n = elim m.is_tool [
  | false ↦ compact_from b (done ++ m ∷ []) (k ∷ rest) n
  | true ↦ elim (within_allowance b (done ++ compacted m ∷ k ∷ rest)) [
    | true ↦ fitted (done ++ compacted m ∷ k ∷ rest) (n + 1)
    | false ↦ compact_from b (done ++ compacted m ∷ []) (k ∷ rest) (n + 1)
  ]
]

unfoldable pub fit_messages_to_budget : Budget → List Message → Fit
fit_messages_to_budget b messages = elim (within_allowance b messages) [
  | true ↦ fitted messages 0
  | false ↦ compact_from b [] messages 0
]
