-- ===== src/Plans/Valid.antt =====
-- What a plan that validates is like.
use mathlib.Core.Path.{subst}
use google_connector_app.Prelude.{
  ℕ, String, ◌≡◌, refl, sym, ap, ◌∙◌, Bool, true, false, none, some, List, [], ◌∷◌, ◌++◌, map,
  arith, all, contains, ltb, Option-cases, inl, inr,
}
use google_connector_app.Plans.{
  PlanStep, ExecutionPlan, PlanError, duplicate_ids, error_if, id_of, has_duplicate, position,
  any_forward, order_errors, validate_plan, all_step_errors,
}

append-nil_parts {ℓ} : {A : Type ℓ} (xs ys : List A) → xs ++ ys ≡ [] → (xs ≡ []) × (ys ≡ [])
append-nil_parts [] ys h = (refl, h)
append-nil_parts (x ∷ xs) ys h = cc

-- Every dependency has a position before `own`.
abbrev pub is_before : List String → ℕ → String → Bool
is_before keys own d = elim (position d keys) [ none ↦ false | some p ↦ ltb p own ]

any_forward-false :
    (keys : List String) (own : ℕ) (ds : List String)
    → any_forward keys own ds ≡ some false
    → all (is_before keys own) ds ≡ true
unfolding any_forward
any_forward-false keys own [] h = refl
any_forward-false keys own (d ∷ ds) h = ground (arith, any_forward-false keys own ds)

-- The step has a position, and its dependencies have positions before it.
abbrev pub is_placed : List String → PlanStep → Bool
is_placed keys s = elim (position s.id keys) [
  | none ↦ false
  | some own ↦ all (is_before keys own) s.dependencies
]

pub order_errors-none :
    (keys : List String) (steps : List PlanStep)
    → order_errors keys steps ≡ some []
    → all (is_placed keys) steps ≡ true
unfolding order_errors
order_errors-none keys [] h = refl
order_errors-none keys (s ∷ steps) h = elim (Option-cases (position s.id keys)) [
  | inl nothing ↦ ground arith
  | inr (own, e) ↦
      ground (arith, any_forward-false keys own s.dependencies, order_errors-none keys steps)
]

some-inj {ℓ} : {A : Type ℓ} (x y : A) → some x ≡ some y → x ≡ y
some-inj x y e = cc

error_if-none : (b : Bool) (e : PlanError) → error_if b e ≡ [] → b ≡ false
error_if-none b e h = ground arith

module _ (registered : List String) (plan : ExecutionPlan) where
  validate_plan-some :
      (errors : List PlanError)
      → order_errors (map id_of plan.steps) plan.steps ≡ some errors
      → validate_plan registered plan
        ≡ some (
            error_if (has_duplicate (map id_of plan.steps)) duplicate_ids
            ++ all_step_errors registered (map id_of plan.steps) plan.steps
            ++ errors)
  unfolding validate_plan
  validate_plan-some errors e = rw (e, validate_plan)

  validate_plan-none :
      order_errors (map id_of plan.steps) plan.steps ≡ none → validate_plan registered plan ≡ none
  unfolding validate_plan
  validate_plan-none e = rw (e, validate_plan)

  pub validate_plan-parts :
      validate_plan registered plan ≡ some []
      → (has_duplicate (map id_of plan.steps) ≡ false)
        × (order_errors (map id_of plan.steps) plan.steps ≡ some [])
  validate_plan-parts h = elim (Option-cases (order_errors (map id_of plan.steps) plan.steps)) [
    | inl nothing ↦ cc (validate_plan-none nothing)
    | inr (errors, e) ↦
        let dup : List PlanError = error_if (has_duplicate (map id_of plan.steps)) duplicate_ids in
        let mid : List PlanError = all_step_errors registered (map id_of plan.steps) plan.steps in
        let whole : dup ++ mid ++ errors ≡ [] =
          some-inj _ [] (sym (validate_plan-some errors e) ∙ h) in
        let (b, d) = append-nil_parts (dup ++ mid) errors whole in
        let (a, c) = append-nil_parts dup mid b in
        (error_if-none (has_duplicate (map id_of plan.steps)) duplicate_ids a, e ∙ ap some d)
  ]

pub contains-position :
    (key : String) (keys : List String) → contains keys key ≡ false → position key keys ≡ none
unfolding position
contains-position key [] h = refl
contains-position key (k ∷ keys) h = ground (arith, contains-position key keys)

order_errors-first :
    (keys : List String) (after : List PlanStep) (s : PlanStep) (d : String) (ds : List String)
    → position d keys ≡ none
    → s.dependencies ≡ d ∷ ds
    → order_errors keys (s ∷ after) ≡ none
unfolding order_errors any_forward
order_errors-first keys after s d ds h e = ground arith

order_errors-unknown :
    (keys : List String) (before after : List PlanStep) (s : PlanStep) (d : String)
    (ds : List String)
    → contains keys d ≡ false
    → s.dependencies ≡ d ∷ ds
    → order_errors keys (before ++ s ∷ after) ≡ none
unfolding order_errors
order_errors-unknown keys [] after s d ds h e =
    order_errors-first keys after s d ds (contains-position d keys h) e
order_errors-unknown keys (b ∷ before) after s d ds h e =
    ground (arith, order_errors-unknown keys before after s d ds h e)

-- A plan with a step whose first dependency is unknown is not reported as such: validating it gives
-- no list of errors, since looking the dependency's position up raises a KeyError.
pub validate_plan-unknown :
    (registered : List String) (plan : ExecutionPlan) (before after : List PlanStep) (s : PlanStep)
    (d : String) (ds : List String)
    → plan.steps ≡ before ++ s ∷ after
    → s.dependencies ≡ d ∷ ds
    → contains (map id_of plan.steps) d ≡ false
    → validate_plan registered plan ≡ none
validate_plan-unknown registered plan before after s d ds e f h =
    validate_plan-none registered plan (
      subst (λ xs. order_errors (map id_of plan.steps) xs ≡ none) (sym e)
        (order_errors-unknown (map id_of plan.steps) before after s d ds h f))
