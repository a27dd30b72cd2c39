-- ===== src/Contracts/Completion.antt =====
-- What a satisfied contract says of the executions.
use mathlib.Core.List.{Memᴰ}
use google_connector_app.Prelude.{
  String, ◌≡◌, ◌≢◌, refl, sym, ap, ◌∙◌, inl, inr, ◌↔◌, true, false, not, some, List, [], ◌∷◌, arith,
  keep, contains, subset, str_eq, str_eq→eq, Bool-cases, &&-left, &&-right,
}
use google_connector_app.Contracts.{
  CompletionMode, WriteContract, Execution, any_tool, all_tools, ordered, failed, requires,
  succeeds, tool_name, contract_satisfied, successful_required_tools, missing_required_tools,
  satisfied_by,
}
use google_connector_app.Contracts.Ordered.{Embeds, done, take_it, skip_it, in_order→Embeds}

-- A step in the trace that called the tool and did not fail.
pub record Evidence (t : String) (executions : List Execution) : Type 0 where
  pub execution : Execution
  pub recorded : Memᴰ execution executions
  pub called : execution.tool ≡ some t
  pub worked : failed execution ≡ false

Evidence-later :
    {t : String} {executions : List Execution} (e : Execution)
    → Evidence t executions
    → Evidence t (e ∷ executions)
Evidence-later e v = record {
  execution = v.execution;
  recorded = Memᴰ.tail v.recorded;
  called = v.called;
  worked = v.worked;
}

named : (c : WriteContract) (e : Execution) → requires c e ≡ true → e.tool ≡ some (tool_name e)
named c e h = ground arith

contains→Evidence :
    (c : WriteContract) (t : String) (executions : List Execution)
    → contains (successful_required_tools c executions) t ≡ true
    → Evidence t executions
unfolding successful_required_tools
contains→Evidence c t [] h = cc
contains→Evidence c t (e ∷ executions) h = elim (Bool-cases (succeeds c e)) [
  | inl good ↦ elim (Bool-cases (str_eq (tool_name e) t)) [
    | inl same ↦ record {
      execution = e;
      recorded = Memᴰ.head refl;
      called = named c e (&&-left _ _ good) ∙ ap some (str_eq→eq _ t same);
      worked = ground arith;
    }
    | inr other ↦ Evidence-later e (contains→Evidence c t executions (ground arith))
  ]
  | inr bad ↦ Evidence-later e (contains→Evidence c t executions (ground arith))
]

subset-contains :
    (xs ys : List String) (t : String)
    → subset xs ys ≡ true
    → contains xs t ≡ true
    → contains ys t ≡ true
subset-contains [] ys t h m = cc
subset-contains (x ∷ xs) ys t h m = elim (Bool-cases (str_eq x t)) [
  | inl same ↦ rw (← str_eq→eq x t same) (&&-left _ _ h)
  | inr other ↦ subset-contains xs ys t (&&-right _ _ h) (ground arith)
]

Embeds-contains :
    (t : String) {ns xs : List String} → Embeds ns xs → contains ns t ≡ true → contains xs t ≡ true
Embeds-contains t done m = cc
Embeds-contains t (take_it {x} {ns} {xs} e) m = ground (arith, Embeds-contains t e)
Embeds-contains t (skip_it {x} {ns} {xs} e) m = ground (arith, Embeds-contains t e m)

-- In a satisfied contract that asks for all its tools, or for all in order, every required tool
-- has an execution in the trace that called it and did not fail.
pub contract_satisfied-Evidence :
    (c : WriteContract) (executions : List Execution) (t : String)
    → c.completion_mode ≢ any_tool
    → contract_satisfied c executions ≡ true
    → contains c.required_tools t ≡ true
    → Evidence t executions
unfolding contract_satisfied
contract_satisfied-Evidence c executions t mode h m =
    contains→Evidence c t executions (found c.completion_mode refl)
  where
    found :
        (k : CompletionMode)
        → c.completion_mode ≡ k
        → contains (successful_required_tools c executions) t ≡ true
    found any_tool e = absurd (mode e)
    found all_tools e =
        subset-contains c.required_tools _ t
          (sym
              (ap (λ k. satisfied_by k c.required_tools (successful_required_tools c executions)) e)
            ∙ h)
          m
    found ordered e =
        Embeds-contains t
          (in_order→Embeds c.required_tools _ (
            sym
              (ap (λ k. satisfied_by k c.required_tools (successful_required_tools c executions)) e)
            ∙ h))
          m

module _ (ys : List String) where
  none_missing→subset :
      (xs : List String) → keep (λ t. not (contains ys t)) xs ≡ [] → subset xs ys ≡ true
  none_missing→subset [] h = refl
  none_missing→subset (x ∷ xs) h = ground (arith, none_missing→subset xs)

  subset→none_missing :
      (xs : List String) → subset xs ys ≡ true → keep (λ t. not (contains ys t)) xs ≡ []
  subset→none_missing [] h = refl
  subset→none_missing (x ∷ xs) h = ground (arith, subset→none_missing xs)

-- A contract that asks for all its tools is satisfied exactly when no required tool is missing.
pub contract_satisfied-missing :
    (c : WriteContract) (executions : List Execution)
    → c.completion_mode ≡ all_tools
    → (contract_satisfied c executions ≡ true) ↔ (missing_required_tools c executions ≡ [])
unfolding contract_satisfied missing_required_tools
contract_satisfied-missing c executions mode =
    let test =
      ap (λ k. satisfied_by k c.required_tools (successful_required_tools c executions)) mode in
    (
      λ h. subset→none_missing _ c.required_tools (sym test ∙ h),
      λ h. test ∙ none_missing→subset _ c.required_tools h,
    )
