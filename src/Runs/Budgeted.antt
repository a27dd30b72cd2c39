-- ===== src/Runs/Budgeted.antt =====
-- Steps within their attempt budgets: a write may be started once, and a step that may still be
-- started has an attempt left.
use mathlib.Core.List.{Memᴰ}
use google_connector_app.Prelude.{
  ℕ, ◌+◌, ◌≡◌, refl, sym, ap, Bool, true, false, not, ◌&&◌, ◌||◌, List, [], ◌∷◌, ◌++◌, arith, any,
  all, keep, update_where, inl, inr, Option-cases, Bool-cases, ltb, leb, ◌==◌, ==→eq, eq→==,
  if◌then◌else◌, all-update_where_keeps, any-update_where_same, update_where-none, mem→any,
  mem-keep, &&-left, &&-right,
}
use google_connector_app.Plans.{PlanStep}
use google_connector_app.Runs.{Step, StepStatus, is_pending, awaits_approval}
use google_connector_app.Runs.Claiming.{
  least, sequence_of, claim_step, has_step_id, started, is_ready,
}
use google_connector_app.Runs.Claiming.Ready.{least-mem, claim_step-none, claim_step-some}
use google_connector_app.Runs.Creating.{step_rows}

-- A write may be attempted once; a step that may still be started has an attempt left.
abbrev pub within_budget : Step → Bool
within_budget s =
    (s.read_only || s.max_attempts == 1)
    && (if is_pending s.status || awaits_approval s.status
        then ltb s.attempt_count s.max_attempts
        else leb s.attempt_count s.max_attempts)

abbrev pub distinct_ids : List Step → Bool
distinct_ids [] = true
distinct_ids (s ∷ steps) = not (any (has_step_id s.id) steps) && distinct_ids steps

pub record IsBudgeted (steps : List Step) : Type 0 where
  pub distinct : distinct_ids steps ≡ true
  pub within : all within_budget steps ≡ true

module _ (p : Step → Bool) (f : Step → Step) (same_id : (s : Step) → (f s).id ≡ s.id) where
  pub distinct-update_where :
      (steps : List Step) → distinct_ids steps ≡ true → distinct_ids (update_where p f steps) ≡ true
  distinct-update_where [] h = refl
  distinct-update_where (s ∷ steps) h =
      let unseen = any-update_where_same p f (has_step_id s.id) (λ x. rw same_id refl) steps in
      elim (Bool-cases (p s)) [
        | inl t ↦ rw (t, same_id s) (ground (arith, unseen, distinct-update_where steps))
        | inr g ↦ rw g (ground (arith, unseen, distinct-update_where steps))
      ]

  pub update-IsBudgeted :
      ((s : Step) → p s ≡ true → within_budget s ≡ true → within_budget (f s) ≡ true)
      → (steps : List Step) → IsBudgeted steps
      → IsBudgeted (update_where p f steps)
  update-IsBudgeted keeps steps b = record {
    distinct = distinct-update_where steps b.distinct;
    within = all-update_where_keeps p f within_budget keeps steps b.within;
  }

-- Only the claimed step's own row is counted up.
start-within :
    (steps : List Step) (s : Step)
    → distinct_ids steps ≡ true
    → all within_budget steps ≡ true
    → Memᴰ s steps
    → is_pending s.status ≡ true
    → all within_budget (update_where (has_step_id s.id) started steps) ≡ true
start-within [] s d w m wait = elim m [ ]
start-within (x ∷ steps) s d w (Memᴰ.head e) wait =
    let same : x.id ≡ s.id = sym (ap (λ (y : Step). y.id) e) in
    let waits : is_pending x.status ≡ true = rw (← e) wait in
    let alone : any (has_step_id s.id) steps ≡ false = rw (← same) (ground arith) in
    rw (eq→== x.id s.id same, update_where-none (has_step_id s.id) started steps alone)
      (ground arith)
start-within (x ∷ steps) s d w (Memᴰ.tail m) wait =
    let seen : any (has_step_id x.id) steps ≡ false = ground arith in
    let rest = start-within steps s (ground arith) (ground arith) m wait in
    elim (Bool-cases (x.id == s.id)) [
      | inl same ↦
          cc (seen, mem→any (has_step_id x.id) steps s m (eq→== s.id x.id (sym (==→eq _ _ same))))
      | inr other ↦ rw other (ground arith)
    ]

pub claim_step-IsBudgeted :
    (run_id : ℕ) (steps : List Step) → IsBudgeted steps → IsBudgeted (claim_step run_id steps).1
claim_step-IsBudgeted run_id steps b =
    elim (Option-cases (least sequence_of (keep (is_ready steps run_id) steps))) [
      | inl nothing ↦ rw (claim_step-none run_id steps nothing) b
      | inr (s, found) ↦
          let (m, t) = mem-keep (is_ready steps run_id) steps s (least-mem sequence_of _ s found) in
          rw (claim_step-some run_id steps s found) (record {
            distinct =
                distinct-update_where (has_step_id s.id) started (λ x. refl) steps b.distinct;
            within = start-within steps s b.distinct b.within m (ground arith);
          })
    ]

abbrev pub below : ℕ → Step → Bool
below n s = ltb s.id n

-- The status of a row that is inserted.
module _ (status : PlanStep → StepStatus) (run_id : ℕ) where
  rows-within :
      (id sequence_no : ℕ) (steps : List PlanStep)
      → all within_budget (step_rows status run_id id sequence_no steps) ≡ true
  unfolding step_rows
  rows-within id sequence_no [] = refl
  rows-within id sequence_no (s ∷ steps) =
      ground (arith, rows-within (id + 1) (sequence_no + 1) steps)

  -- The ids of the rows start at `id`.
  rows-unseen :
      (m id sequence_no : ℕ) (steps : List PlanStep)
      → ltb m id ≡ true
      → any (has_step_id m) (step_rows status run_id id sequence_no steps) ≡ false
  unfolding step_rows
  rows-unseen m id sequence_no [] h = refl
  rows-unseen m id sequence_no (s ∷ steps) h =
      ground (arith, rows-unseen m (id + 1) (sequence_no + 1) steps)

  rows-distinct :
      (id sequence_no : ℕ) (steps : List PlanStep)
      → distinct_ids (step_rows status run_id id sequence_no steps) ≡ true
  unfolding step_rows
  rows-distinct id sequence_no [] = refl
  rows-distinct id sequence_no (s ∷ steps) = ground (
    arith,
    rows-unseen id (id + 1) (sequence_no + 1) steps,
    rows-distinct (id + 1) (sequence_no + 1) steps,
  )

  any-append :
      (m : ℕ) (xs ys : List Step)
      → any (has_step_id m) (xs ++ ys) ≡ any (has_step_id m) xs || any (has_step_id m) ys
  any-append m [] ys = refl
  any-append m (x ∷ xs) ys = ground (arith, any-append m xs ys)

  -- New rows behind rows of smaller ids keep the budget.
  pub rows-IsBudgeted :
      (id sequence_no : ℕ) (steps : List PlanStep) (xs : List Step)
      → all (below id) xs ≡ true
      → IsBudgeted xs
      → IsBudgeted (xs ++ step_rows status run_id id sequence_no steps)
  rows-IsBudgeted id sequence_no steps [] h b = record {
    distinct = rows-distinct id sequence_no steps;
    within = rows-within id sequence_no steps;
  }
  rows-IsBudgeted id sequence_no steps (x ∷ xs) h b =
      let rest : IsBudgeted (xs ++ step_rows status run_id id sequence_no steps) =
        rows-IsBudgeted id sequence_no steps xs (&&-right _ _ h)
          (record { distinct = &&-right _ _ b.distinct; within = &&-right _ _ b.within }) in
      let unseen = rows-unseen x.id id sequence_no steps (&&-left _ _ h) in
      let apart = any-append x.id xs (step_rows status run_id id sequence_no steps) in
      record {
        distinct = ground (arith, b.distinct, rest.distinct, unseen, apart);
        within = ground (arith, b.within, rest.within);
      }

-- Deleting rows keeps the budget.
module _ (p : Step → Bool) where
  any-keep :
      (m : ℕ) (xs : List Step)
      → any (has_step_id m) xs ≡ false
      → any (has_step_id m) (keep p xs) ≡ false
  any-keep m [] h = refl
  any-keep m (x ∷ xs) h = ground (arith, any-keep m xs)

  pub all-keep : (q : Step → Bool) (xs : List Step) → all q xs ≡ true → all q (keep p xs) ≡ true
  all-keep q [] h = refl
  all-keep q (x ∷ xs) h = ground (arith, all-keep q xs)

  keep-distinct : (xs : List Step) → distinct_ids xs ≡ true → distinct_ids (keep p xs) ≡ true
  keep-distinct [] h = refl
  keep-distinct (x ∷ xs) h = ground (arith, any-keep x.id xs, keep-distinct xs)

  pub keep-IsBudgeted : (xs : List Step) → IsBudgeted xs → IsBudgeted (keep p xs)
  keep-IsBudgeted xs b = record {
    distinct = keep-distinct xs b.distinct;
    within = all-keep within_budget xs b.within;
  }
