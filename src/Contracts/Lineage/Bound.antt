-- ===== src/Contracts/Lineage/Bound.antt =====
-- A bound identifier comes from the tool that made it.
use mathlib.Core.List.{reverse, reverse-append, reverse-reverse}
use google_connector_app.Prelude.{
  String, ◌≡◌, refl, sym, ap, ◌∙◌, Bool, true, false, ◌&&◌, Option, none, some, List, [], ◌∷◌, ◌++◌,
  arith, any, find, append_assoc, Option-cases, Bool-cases, inl, inr, str_eq, eq→str_eq, str_eq→eq,
  &&-left, &&-right,
}
use google_connector_app.Json.{Value, Fields, end, field, get, put, fields}
use google_connector_app.Contracts.{WriteContract, Execution}
use google_connector_app.Contracts.Lineage.{
  ToolCall, LineageTrace, resolves_destination, creates_sheet, bound, destination_trace,
  sheet_trace, bind_from, bind_ordered_output_lineage, is_for,
}

-- What is put under a key is found there, and what stands under another key stays.
get-put : (k : String) (v : Value) (fs : Fields) → get k (put k v fs) ≡ v
get-put k v end = let same = eq→str_eq k k refl in ground arith
get-put k v (field j w fs) = ground (arith, eq→str_eq k k refl, get-put k v fs)

get-put_other :
    (k j : String) (v : Value) (fs : Fields) → str_eq k j ≡ false → get j (put k v fs) ≡ get j fs
get-put_other k j v end h = ground arith
get-put_other k j v (field i w fs) h = elim (Bool-cases (str_eq i k)) [
  | inl same ↦
      let e : i ≡ k = str_eq→eq i k same in
      let differ : str_eq i j ≡ false = ap (λ x. str_eq x j) e ∙ h in rw (same, differ) refl
  | inr other ↦ rw other (ground (arith, get-put_other k j v fs h))
]

-- The tests that find an execution in the reversed trace find the last one.
record IsFirst (p : Execution → Bool) (xs : List Execution) (e : Execution) : Type 0 where
  before : List Execution
  after : List Execution
  split : xs ≡ before ++ e ∷ after
  passed_over : any p before ≡ false
  hit : p e ≡ true

find-IsFirst :
    (p : Execution → Bool) (xs : List Execution) (e : Execution)
    → find p xs ≡ some e
    → IsFirst p xs e
find-IsFirst p [] e h = cc
find-IsFirst p (x ∷ xs) e h = elim (Bool-cases (p x)) [
  | inl t ↦
      let same : x ≡ e = ground arith in
      record {
        before = [];
        after = xs;
        split = rw same refl;
        passed_over = refl;
        hit = rw (← same) t;
      }
  | inr f ↦
      let r = find-IsFirst p xs e (let later : find p xs ≡ some e = ground arith in later) in
      record {
        before = x ∷ r.before;
        after = r.after;
        split = ap (λ ys. x ∷ ys) r.split;
        passed_over = rw f r.passed_over;
        hit = r.hit;
      }
]

any-append_false :
    (p : Execution → Bool) (xs ys : List Execution)
    → any p xs ≡ false
    → any p ys ≡ false
    → any p (xs ++ ys) ≡ false
any-append_false p [] ys h k = k
any-append_false p (x ∷ xs) ys h k = ground (arith, any-append_false p xs ys)

any-reverse :
    (p : Execution → Bool) (xs : List Execution) → any p xs ≡ false → any p (reverse xs) ≡ false
any-reverse p [] h = h
any-reverse p (x ∷ xs) h =
    let rest : any p xs ≡ false = ground arith in
    let here : p x ≡ false = ground arith in
    rw (reverse-append (x ∷ []) xs)
      (any-append_false p (reverse xs) (x ∷ []) (any-reverse p xs rest) (rw here refl))

find-none : (p : Execution → Bool) (xs : List Execution) → find p xs ≡ none → any p xs ≡ false
find-none p [] h = refl
find-none p (x ∷ xs) h = ground (arith, find-none p xs)

-- The last execution of a trace that passes a test.
pub record IsLast (p : Execution → Bool) (executions : List Execution) (e : Execution)
    : Type 0 where
  pub before : List Execution
  pub after : List Execution
  pub split : executions ≡ before ++ e ∷ after
  pub none_later : any p after ≡ false
  pub hit : p e ≡ true

first-IsLast :
    (p : Execution → Bool) (executions : List Execution) (e : Execution)
    → IsFirst p (reverse executions) e
    → IsLast p executions e
first-IsLast p executions e r = record {
  before = reverse r.after;
  after = reverse r.before;
  split =
      sym (reverse-reverse executions)
      ∙ ap reverse r.split
      ∙ reverse-append r.before (e ∷ r.after)
      ∙ ap (λ ys. ys ++ reverse r.before) (reverse-append (e ∷ []) r.after)
      ∙ append_assoc (reverse r.after) (e ∷ []) (reverse r.before);
  none_later = any-reverse p r.before r.passed_over;
  hit = r.hit;
}

-- The step's contract and the call are those of a service, an operation and a tool.
pub record Concerns (service operation tool : String) (contract : Option WriteContract)
    (call : ToolCall) : Type 0 where
  pub held : WriteContract
  pub present : contract ≡ some held
  pub for_service : held.service ≡ service
  pub for_operation : held.operation ≡ operation
  pub for_tool : call.name ≡ tool

-- A bound call: the traced field is what stands under `key` in the last execution that serves, and
-- the rest of the call is as it was.
pub record IsFrom (executions : List Execution) (call : ToolCall)
    (out : ToolCall × Option LineageTrace) (t : LineageTrace) (serves : Execution → Bool)
    (key : String) : Type 0 where
  pub source : Execution
  pub latest : IsLast serves executions source
  pub traced : out.1 ≡ some t
  pub name : out.0.name ≡ call.name
  pub identifier : get t.bound_field (fields out.0.args) ≡ get key (fields source.result)
  pub others :
      (k : String)
      → str_eq t.bound_field k ≡ false
      → get k (fields out.0.args) ≡ get k (fields call.args)

-- What comes of a call that takes its identifier from the executions that serve.
pub data IsBound (executions : List Execution) (call : ToolCall) (t : LineageTrace)
    (serves : Execution → Bool) (key : String) (out : ToolCall × Option LineageTrace) : Type 0 where
  without :
      any serves executions ≡ false → out ≡ (call, none) → IsBound executions call t serves key out
  bound_to : IsFrom executions call out t serves key → IsBound executions call t serves key out

bind_from-none :
    (serves : Execution → Bool) (key : String) (t : LineageTrace) (call : ToolCall)
    (executions : List Execution)
    → find serves (reverse executions) ≡ none
    → bind_from serves key t call executions ≡ (call, none)
unfolding bind_from
bind_from-none serves key t call executions h = rw (h, bind_from)

bind_from-some :
    (serves : Execution → Bool) (key : String) (t : LineageTrace) (call : ToolCall)
    (executions : List Execution) (e : Execution)
    → find serves (reverse executions) ≡ some e
    → bind_from serves key t call executions
      ≡ (bound call t.bound_field (get key (fields e.result)), some t)
unfolding bind_from
bind_from-some serves key t call executions e h = rw (h, bind_from)

bind_from-IsBound :
    (serves : Execution → Bool) (key : String) (t : LineageTrace) (call : ToolCall)
    (executions : List Execution)
    → IsBound executions call t serves key (bind_from serves key t call executions)
bind_from-IsBound serves key t call executions =
    elim (Option-cases (find serves (reverse executions))) [
      | inl nothing ↦
          let unseen = any-reverse serves (reverse executions) (find-none serves _ nothing) in
          without (sym (ap (any serves) (reverse-reverse executions)) ∙ unseen)
            (bind_from-none serves key t call executions nothing)
      | inr (e, found) ↦ rw (bind_from-some serves key t call executions e found) (
          bound_to (record {
            source = e;
            latest = first-IsLast serves executions e (find-IsFirst serves _ e found);
            traced = refl;
            name = refl;
            identifier = get-put t.bound_field (get key (fields e.result)) (fields call.args);
            others = λ k d.
                get-put_other t.bound_field k (get key (fields e.result)) (fields call.args) d;
          }))
    ]

-- What a contract and a call make of the executions so far.
pub data BindingOutcome (contract : Option WriteContract) (call : ToolCall)
    (executions : List Execution) (out : ToolCall × Option LineageTrace) : Type 0 where
  destination :
      Concerns "chat" "send" "send_chat_message" contract call
      → IsBound executions call destination_trace resolves_destination "name" out
      → BindingOutcome contract call executions out
  sheet :
      Concerns "sheets" "create_and_write" "write_google_sheet" contract call
      → IsBound executions call sheet_trace creates_sheet "spreadsheetId" out
      → BindingOutcome contract call executions out
  unconcerned :
      ¬ (Concerns "chat" "send" "send_chat_message" contract call)
      → ¬ (Concerns "sheets" "create_and_write" "write_google_sheet" contract call)
      → out ≡ (call, none)
      → BindingOutcome contract call executions out

is_for-Concerns :
    (service operation tool : String) (c : WriteContract) (call : ToolCall)
    → is_for service operation tool c call ≡ true
    → Concerns service operation tool (some c) call
is_for-Concerns service operation tool c call h =
    let both = &&-left (str_eq c.service service && str_eq c.operation operation) _ h in
    record {
      held = c;
      present = refl;
      for_service = str_eq→eq _ _ (&&-left _ _ both);
      for_operation = str_eq→eq _ _ (&&-right _ _ both);
      for_tool = str_eq→eq _ _ (&&-right _ _ h);
    }

Concerns-is_for :
    (service operation tool : String) (c : WriteContract) (call : ToolCall)
    → Concerns service operation tool (some c) call
    → is_for service operation tool c call ≡ true
Concerns-is_for service operation tool c call k =
    let same : c ≡ k.held = cc (k.present) in
    let a : str_eq c.service service ≡ true =
      eq→str_eq _ _ (ap (λ (x : WriteContract). x.service) same ∙ k.for_service) in
    let b : str_eq c.operation operation ≡ true =
      eq→str_eq _ _ (ap (λ (x : WriteContract). x.operation) same ∙ k.for_operation) in
    let d : str_eq call.name tool ≡ true = eq→str_eq _ _ k.for_tool in rw (a, b, d) refl

not-Concerns :
    (service operation tool : String) (c : WriteContract) (call : ToolCall)
    → is_for service operation tool c call ≡ false
    → ¬ (Concerns service operation tool (some c) call)
not-Concerns service operation tool c call h k =
    cc (Concerns-is_for service operation tool c call k)

none-Concerns :
    (service operation tool : String) (call : ToolCall)
    → ¬ (Concerns service operation tool none call)
none-Concerns service operation tool call k = cc (k.present)

-- The executor, not the model, owns the identifier of a dependent call. With the contract of a chat
-- message, a call of send_chat_message gets the `name` in the last error-free execution that resolved
-- a destination as its space_id; with that of a sheet that is created and written, a call of
-- write_google_sheet gets the spreadsheetId in the last error-free execution that created one. The
-- call keeps its name and its other arguments, and the trace names the link. Where no execution
-- serves, and for every other contract or tool, the call is as it was and there is no trace.
pub bind_ordered_output_lineage-BindingOutcome :
    (contract : Option WriteContract) (call : ToolCall) (executions : List Execution)
    → BindingOutcome contract call executions (bind_ordered_output_lineage contract call executions)
unfolding bind_ordered_output_lineage
bind_ordered_output_lineage-BindingOutcome none call executions =
    unconcerned (none-Concerns _ _ _ call) (none-Concerns _ _ _ call) refl
bind_ordered_output_lineage-BindingOutcome (some c) call executions =
    elim (Bool-cases (is_for "chat" "send" "send_chat_message" c call)) [
      | inl chat ↦ rw chat (
          destination (is_for-Concerns _ _ _ c call chat)
            (bind_from-IsBound resolves_destination "name" destination_trace call executions))
      | inr other ↦
          elim (Bool-cases (is_for "sheets" "create_and_write" "write_google_sheet" c call)) [
            | inl sheets ↦
                rw (other, sheets)
                  (sheet (is_for-Concerns _ _ _ c call sheets)
                    (bind_from-IsBound creates_sheet "spreadsheetId" sheet_trace call executions))
            | inr neither ↦
                rw (other, neither)
                  (unconcerned (not-Concerns _ _ _ c call other) (not-Concerns _ _ _ c call neither)
                    refl)
          ]
    ]
