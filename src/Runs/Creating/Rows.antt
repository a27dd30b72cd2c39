-- ===== src/Runs/Creating/Rows.antt =====
-- The steps of a valid plan point back: with `claim_step-progress`, the run is not blocked.
use google_connector_app.Prelude.{
  ℕ, suc, ◌+◌, ◌<◌, String, ◌≡◌, refl, Bool, true, false, not, ◌||◌, none, some, List, [], ◌∷◌,
  ◌++◌, map, arith, any, all, contains, ltb, leb, eq→==, eq→str_eq, Option-cases, inl, inr,
  all-weaken, all-append, any-append_right, &&-left, &&-right,
}
use google_connector_app.Plans.{
  PlanStep, ExecutionPlan, id_of, position, has_duplicate, validate_plan,
}
use google_connector_app.Plans.Valid.{
  is_before, is_placed, order_errors-none, validate_plan-parts, contains-position,
}
use google_connector_app.Runs.{Step, StepStatus}
use google_connector_app.Runs.Claiming.{has_key, of_run}
use google_connector_app.Runs.Claiming.Progress.{is_backed, points_back}
use google_connector_app.Runs.Creating.{step_row, step_rows}

module _ (status : PlanStep → StepStatus) (run_id : ℕ) (d : String) where
  absent-up_to :
      (m id sequence_no : ℕ) (steps : List PlanStep)
      → position d (map id_of steps) ≡ none
      → all
          (λ t. not (has_key run_id d t) || leb t.sequence_no m)
          (step_rows status run_id id sequence_no steps)
        ≡ true
  unfolding position step_rows
  absent-up_to m id sequence_no [] h = refl
  absent-up_to m id sequence_no (s ∷ steps) h =
      ground (arith, absent-up_to m (id + 1) (sequence_no + 1) steps)

  position-rows :
      (p id sequence_no : ℕ) (steps : List PlanStep)
      → position d (map id_of steps) ≡ some p
      → (any (has_key run_id d) (step_rows status run_id id sequence_no steps) ≡ true)
        × (all
              (λ t. not (has_key run_id d t) || leb t.sequence_no (sequence_no + p))
              (step_rows status run_id id sequence_no steps)
            ≡ true)
  unfolding position step_rows
  position-rows p id sequence_no [] h = cc
  position-rows p id sequence_no (s ∷ steps) h =
      elim (Option-cases (position d (map id_of steps))) [
        | inl nothing ↦ ground (
          arith,
          eq→== run_id run_id refl,
          absent-up_to sequence_no (id + 1) (sequence_no + 1) steps nothing,
        )
        | inr (n, e) ↦
            let (seen, low) = position-rows n (id + 1) (sequence_no + 1) steps e in
            let q : p ≡ suc n = ground arith in
            let sum : sequence_no + 1 + n ≡ sequence_no + p = omega (arith, q) in
            let low' = rw sum at low in ground (arith, seen, low')
      ]

-- The row's sequence number is above its step's position among the plan's keys.
abbrev is_at : List String → ℕ → Step → Bool
is_at keys sequence_no t = elim (position t.step_key keys) [
  | none ↦ false
  | some n ↦ leb (sequence_no + n) t.sequence_no
]

shift-at :
    (k : String) (keys : List String) (sequence_no : ℕ) (t : Step)
    → is_at keys (sequence_no + 1) t ≡ true
    → is_at (k ∷ keys) sequence_no t ≡ true
unfolding position
shift-at k keys sequence_no t h = ground arith

head-at :
    (k : String) (keys : List String) → contains keys k ≡ false → position k (k ∷ keys) ≡ some 0
unfolding position
head-at k keys h = rw (contains-position k keys h, eq→str_eq k k refl) refl

module _ (status : PlanStep → StepStatus) (run_id : ℕ) where
  rows-at :
      (id sequence_no : ℕ) (steps : List PlanStep)
      → has_duplicate (map id_of steps) ≡ false
      → all (is_at (map id_of steps) sequence_no) (step_rows status run_id id sequence_no steps)
        ≡ true
  unfolding step_rows has_duplicate
  rows-at id sequence_no [] h = refl
  rows-at id sequence_no (s ∷ steps) h =
      let unique : contains (map id_of steps) s.id ≡ false = ground arith in
      let rest : has_duplicate (map id_of steps) ≡ false = ground arith in
      let tail =
        all-weaken (is_at (map id_of steps) (sequence_no + 1))
          (is_at (s.id ∷ map id_of steps) sequence_no)
          (step_rows status run_id (id + 1) (sequence_no + 1) steps)
          (λ t m. shift-at s.id (map id_of steps) sequence_no t)
          (rows-at (id + 1) (sequence_no + 1) steps rest) in
      ground (arith, head-at s.id (map id_of steps) unique, tail)

module _ (status : PlanStep → StepStatus) (run_id first : ℕ) (others : List Step)
    (steps : List PlanStep) (apart : all (λ t. not (of_run run_id t)) others ≡ true) where
  backed-before :
      (own : ℕ) (r : Step) (d : String)
      → leb (1 + own) r.sequence_no ≡ true
      → is_before (map id_of steps) own d ≡ true
      → is_backed (others ++ step_rows status run_id first 1 steps) run_id r d ≡ true
  backed-before own r d high before = elim (Option-cases (position d (map id_of steps))) [
    | inl nothing ↦ ground arith
    | inr (p, e) ↦
        let (seen, low) = position-rows status run_id d p first 1 steps e in
        let less : p < own = ground arith in
        let q : Step → Bool = λ t. not (has_key run_id d t) || ltb t.sequence_no r.sequence_no in
        let here : any (has_key run_id d) (others ++ step_rows status run_id first 1 steps) ≡ true =
          any-append_right (has_key run_id d) others _ seen in
        rw here (
          all-append q others _
            (all-weaken (λ t. not (of_run run_id t)) q others (λ t m h. ground arith) apart)
            (all-weaken (λ t. not (has_key run_id d t) || leb t.sequence_no (1 + p)) q _
              (λ t m h. ground arith) low))
  ]

  head-points :
      (r : Step) (s : PlanStep)
      → r.step_key ≡ s.id
      → r.dependencies ≡ s.dependencies
      → is_placed (map id_of steps) s ≡ true
      → is_at (map id_of steps) 1 r ≡ true
      → all (is_backed (others ++ step_rows status run_id first 1 steps) run_id r) r.dependencies
        ≡ true
  head-points r s key deps placed at_row = elim (Option-cases (position s.id (map id_of steps))) [
    | inl nothing ↦ ground arith
    | inr (own, e) ↦
        let high : leb (1 + own) r.sequence_no ≡ true = ground arith in
        let before : all (is_before (map id_of steps) own) s.dependencies ≡ true = ground arith in
        rw deps (
          all-weaken (is_before (map id_of steps) own)
            (is_backed (others ++ step_rows status run_id first 1 steps) run_id r) s.dependencies
            (λ d m. backed-before own r d high) before)
  ]

  rows-point :
      (id sequence_no : ℕ) (suffix : List PlanStep)
      → all (is_placed (map id_of steps)) suffix ≡ true
      → all (is_at (map id_of steps) 1) (step_rows status run_id id sequence_no suffix) ≡ true
      → all
          (points_back (others ++ step_rows status run_id first 1 steps) run_id)
          (step_rows status run_id id sequence_no suffix)
        ≡ true
  unfolding step_rows
  rows-point id sequence_no [] placed at_rows = refl
  rows-point id sequence_no (s ∷ suffix) placed at_rows =
      let here =
        head-points (step_row run_id id sequence_no (status s) s) s refl refl (&&-left _ _ placed)
          (&&-left _ _ at_rows) in
      let rest =
        rows-point (id + 1) (sequence_no + 1) suffix (&&-right _ _ placed) (&&-right _ _ at_rows) in
      rw (eq→== run_id run_id refl, here) rest

-- The steps that are inserted for a plan that validates without an error point back: each
-- dependency is the key of steps of the run, which all come before. So the run is not blocked.
pub validate_plan-points_back :
    (registered : List String) (plan : ExecutionPlan) (status : PlanStep → StepStatus)
    (run_id first : ℕ) (others : List Step)
    → validate_plan registered plan ≡ some []
    → all (λ t. not (of_run run_id t)) others ≡ true
    → let steps = others ++ step_rows status run_id first 1 plan.steps in
      all (points_back steps run_id) steps ≡ true
validate_plan-points_back registered plan status run_id first others h apart =
    let (unique, order) = validate_plan-parts registered plan h in
    let steps : List Step = others ++ step_rows status run_id first 1 plan.steps in
    all-append (points_back steps run_id) others _
      (all-weaken (λ t. not (of_run run_id t)) (points_back steps run_id) others
        (λ t m e. ground arith) apart)
      (rows-point status run_id first others plan.steps apart first 1 plan.steps
        (order_errors-none _ plan.steps order) (rows-at status run_id first 1 plan.steps unique))
