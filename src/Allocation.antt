-- ===== src/Allocation.antt =====
-- Choosing options under budgets: app/improvements/dp_allocation.py. Costs are not negative, and
-- expected values are numbers in a fixed unit.
pub mod Sorting
pub mod Answering
pub mod Chosen
pub mod Bounds
pub mod Best
mod Tests
use google_connector_app.Prelude.{
  codes, ℕ, ◌+◌, ◌-◌, ◌*◌, ◌/◌, ◌≤◌, ◌≡◌, refl, String, Bool, true, false, not, ◌&&◌, ◌||◌, Option,
  none, some, List, [], ◌∷◌, ◌++◌, map, take, keep, contains, length, nonempty, str_eq, ltb, leb,
  ◌==◌, max, if◌then◌else◌, eq→==, ==→eq, arith, ap,
}
use google_connector_app.Knapsack.{
  Entry, Move, Key, Answer, zero_division_error, value_error, answered, run_stages, max_entry,
}

pub record AllocationOption : Type 0 where
  pub task_id : String
  pub option_id : String
  pub token_cost : ℕ
  pub latency_ms : ℕ
  pub risk : ℕ
  pub expected_value : ℕ
  pub user_id : String

pub data AllocationStrategy : Type 0 where
  dp_multiple_choice dp_periodic_quota : AllocationStrategy

pub record AllocationDecision : Type 0 where
  pub selected : List AllocationOption
  pub expected_value : ℕ
  pub token_cost : ℕ
  pub latency_ms : ℕ
  pub strategy : AllocationStrategy

-- Python's order of texts, by code points
abbrev codes_leb : List ℕ → List ℕ → Bool
codes_leb [] ys = true
codes_leb (x ∷ xs) [] = false
codes_leb (x ∷ xs) (y ∷ ys) = let rest = codes_leb xs ys in ltb x y || x == y && rest

abbrev str_leb : String → String → Bool
str_leb a b = codes_leb (codes a) (codes b)

module _ {A : Type 0} (goes_first : A → A → Bool) where
  -- `sorted`, which keeps the order of equals: `goes_first a b` for an earlier `a`.
  unfoldable pub insert_sorted : A → List A → List A
  insert_sorted a [] = a ∷ []
  insert_sorted a (b ∷ xs) =
      let rest = insert_sorted a xs in if goes_first a b then a ∷ b ∷ xs else b ∷ rest

  unfoldable pub sort_by : List A → List A
  unfolding insert_sorted
  sort_by [] = []
  sort_by (a ∷ xs) = insert_sorted a (sort_by xs)

-- The keys of `grouped`, in the order of their first option
unfoldable pub task_ids : List AllocationOption → List String → List String
task_ids [] seen = []
task_ids (o ∷ options) seen =
    let known = task_ids options seen in
    let added = task_ids options (o.task_id ∷ seen) in
    if contains seen o.task_id then known else o.task_id ∷ added

abbrev pub has_task : String → AllocationOption → Bool
has_task task o = str_eq o.task_id task

-- `(cost + quantum - 1) // quantum`, for a quantum that is not 0: with 0 the cap has raised before
abbrev pub quanta : ℕ → ℕ → ℕ
quanta quantum cost = (cost + quantum - 1) / quantum

-- `max(1, budget // quantum)`, where the quantum is not 0
abbrev pub cap_of : ℕ → ℕ → ℕ
cap_of budget quantum = max 1 (budget / quantum)

-- What both functions are told.
pub record Limits : Type 0 where
  pub token_budget : ℕ
  pub latency_budget_ms : ℕ
  pub max_risk : ℕ
  pub token_quantum : ℕ
  pub latency_quantum_ms : ℕ

abbrev pub pair_same : ℕ × ℕ → ℕ × ℕ → Bool
pair_same a b = a.0 == b.0 && a.1 == b.1

pub pair_same_iff : (a b : ℕ × ℕ) → pair_same a b ≡ true → a ≡ b
pair_same_iff (a, b) (c, d) h = ground arith

pub pair_same_refl : (a : ℕ × ℕ) → pair_same a a ≡ true
pair_same_refl (a, b) = ground arith

abbrev pub pair_key : Key (ℕ × ℕ)
pair_key = record { same = pair_same; same_iff = pair_same_iff; same_refl = pair_same_refl }

abbrev pub exceeds : Limits → ℕ × ℕ → Bool
exceeds l k =
    ltb (cap_of l.token_budget l.token_quantum) k.0
    || ltb (cap_of l.latency_budget_ms l.latency_quantum_ms) k.1

abbrev pub charged : Limits → AllocationOption → ℕ × ℕ → ℕ × ℕ
charged l o k =
    (k.0 + quanta l.token_quantum o.token_cost, k.1 + quanta l.latency_quantum_ms o.latency_ms)

abbrev pub option_move : Limits → AllocationOption → Move (ℕ × ℕ) AllocationOption
option_move l o = record {
  step = λ k. if exceeds l (charged l o k) then none else some (charged l o k);
  gain = o.expected_value;
  item = o;
}

-- `(item[1][0], -item[0][0], -item[0][1])`
abbrev pub less_pair : {A : Type 0} → Entry (ℕ × ℕ) A → Entry (ℕ × ℕ) A → Bool
less_pair s t =
    ltb s.value t.value
    || s.value == t.value && (ltb t.key.0 s.key.0 || t.key.0 == s.key.0 && ltb t.key.1 s.key.1)

-- `_prune_states`: the `limit` best in descending order; `reverse=True` keeps the order of equals.
unfoldable pub prune_states : {A : Type 0} → ℕ → List (Entry (ℕ × ℕ) A) → List (Entry (ℕ × ℕ) A)
unfolding sort_by
prune_states limit states =
    if leb (length states) limit
    then states
    else take limit (sort_by (λ a b. not (less_pair a b)) states)

abbrev pub is_eligible : ℕ → AllocationOption → Bool
is_eligible max_risk o = leb o.risk max_risk

abbrev by_option_id : AllocationOption → AllocationOption → Bool
by_option_id a b = str_leb a.option_id b.option_id

-- The options of a task that are looked at.
unfoldable pub task_options : ℕ → List AllocationOption → String → List AllocationOption
unfolding sort_by
task_options max_options eligible task =
    take max_options (sort_by by_option_id (keep (has_task task) eligible))

unfoldable pub sorted_tasks : ℕ → List AllocationOption → List String
unfolding sort_by task_ids
sorted_tasks max_tasks eligible = take max_tasks (sort_by str_leb (task_ids eligible []))

abbrev pub workflow_stages :
    Limits → ℕ → List AllocationOption → List String → List (List (Move (ℕ × ℕ) AllocationOption))
workflow_stages l max_options eligible tasks =
    map (λ t. map (option_move l) (task_options max_options eligible t)) tasks

abbrev pub no_options : Entry (ℕ × ℕ) AllocationOption
no_options = record { key = (0, 0); value = 0; selected = [] }

abbrev pub sum_tokens : List AllocationOption → ℕ
sum_tokens [] = 0
sum_tokens (o ∷ os) = o.token_cost + sum_tokens os

abbrev pub sum_latency : List AllocationOption → ℕ
sum_latency [] = 0
sum_latency (o ∷ os) = o.latency_ms + sum_latency os

abbrev pub allocated : AllocationStrategy → List AllocationOption → ℕ → AllocationDecision
allocated strategy selected value = record {
  selected = selected;
  expected_value = value;
  token_cost = sum_tokens selected;
  latency_ms = sum_latency selected;
  strategy = strategy;
}

unfoldable pub workflow_states :
    ℕ → Limits → ℕ → ℕ → List AllocationOption → List (Entry (ℕ × ℕ) AllocationOption)
workflow_states limit l max_tasks max_options options =
    let eligible = keep (is_eligible l.max_risk) options in
    run_stages pair_key (prune_states limit)
      (workflow_stages l max_options eligible (sorted_tasks max_tasks eligible)) (no_options ∷ [])

-- The budgets are tested first; then the caps are divided out.
unfoldable pub select_workflow_options :
    List AllocationOption → Limits → ℕ → ℕ → Answer AllocationDecision
select_workflow_options options l max_tasks max_options =
    if l.token_budget == 0 || l.latency_budget_ms == 0
    then answered (allocated dp_multiple_choice [] 0)
    else if l.token_quantum == 0 || l.latency_quantum_ms == 0
    then zero_division_error
    else elim (max_entry less_pair (workflow_states 20000 l max_tasks max_options options)) [
      | none ↦ value_error
      | some s ↦ answered (allocated dp_multiple_choice s.selected s.value)
    ]
