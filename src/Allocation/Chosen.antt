-- ===== src/Allocation/Chosen.antt =====
-- What the entries of the table are: at most one option for each task that was looked at.
use mathlib.Core.List.{Memᴰ}
use mathlib.Core.Path.{subst}
use google_connector_app.Prelude.{
  ℕ, ◌+◌, ◌≤◌, ◌≡◌, refl, sym, String, false, some, List, [], ◌∷◌, ◌++◌, map, arith, keep,
  append_assoc, append-nil, Bool-cases, inl, inr,
}
use google_connector_app.Knapsack.{Entry, Move, moved, run_stages, relax_each, max_entry}
use google_connector_app.Knapsack.Bounding.{Every, relax_each-Every, max_entry-Every}
use google_connector_app.Allocation.{
  AllocationOption, Limits, quanta, cap_of, pair_key, exceeds, charged, option_move, less_pair,
  prune_states, is_eligible, task_options, sorted_tasks, workflow_stages, no_options,
  workflow_states,
}
use google_connector_app.Allocation.Sorting.{prune_states-mem}

-- At most one of a task's options, task by task.
pub data Choice (max_options : ℕ) (source : List AllocationOption)
    : List String → List AllocationOption → Type 0 where
  decided : Choice max_options source [] []
  pass :
      {task : String} {tasks : List String} {os : List AllocationOption}
      → Choice max_options source tasks os
      → Choice max_options source (task ∷ tasks) os
  pick :
      {task : String} {tasks : List String} {os : List AllocationOption} (o : AllocationOption)
      → Memᴰ o (task_options max_options source task)
      → Choice max_options source tasks os
      → Choice max_options source (task ∷ tasks) (o ∷ os)

abbrev pub sum_quanta : ℕ → (AllocationOption → ℕ) → List AllocationOption → ℕ
sum_quanta quantum cost [] = 0
sum_quanta quantum cost (o ∷ os) = quanta quantum (cost o) + sum_quanta quantum cost os

abbrev pub sum_expected : List AllocationOption → ℕ
sum_expected [] = 0
sum_expected (o ∷ os) = o.expected_value + sum_expected os

abbrev pub tokens_of : AllocationOption → ℕ
tokens_of o = o.token_cost

abbrev pub latency_of : AllocationOption → ℕ
latency_of o = o.latency_ms

-- The choice fits both budgets, counted in quanta.
pub record Fits (l : Limits) (os : List AllocationOption) : Type 0 where
  pub tokens : sum_quanta l.token_quantum tokens_of os ≤ cap_of l.token_budget l.token_quantum
  pub latency :
      sum_quanta l.latency_quantum_ms latency_of os
      ≤ cap_of l.latency_budget_ms l.latency_quantum_ms

pub option_move-mem :
    (l : Limits) (os : List AllocationOption) (m : Move (ℕ × ℕ) AllocationOption)
    → Memᴰ m (map (option_move l) os)
    → (o : AllocationOption) × Memᴰ o os × (m ≡ option_move l o)
option_move-mem l [] m n = elim n [ ]
option_move-mem l (o ∷ os) m (Memᴰ.head e) = (o, Memᴰ.head refl, e)
option_move-mem l (o ∷ os) m (Memᴰ.tail n) =
    let (x, among, e) = option_move-mem l os m n in (x, Memᴰ.tail among, e)

sum_quanta-snoc :
    (quantum : ℕ) (cost : AllocationOption → ℕ) (os : List AllocationOption) (o : AllocationOption)
    → sum_quanta quantum cost (os ++ o ∷ []) ≡ sum_quanta quantum cost os + quanta quantum (cost o)
sum_quanta-snoc quantum cost [] o = omega arith
sum_quanta-snoc quantum cost (p ∷ os) o = omega (arith, sum_quanta-snoc quantum cost os o)

expected-snoc :
    (os : List AllocationOption) (o : AllocationOption)
    → sum_expected (os ++ o ∷ []) ≡ sum_expected os + o.expected_value
expected-snoc [] o = omega arith
expected-snoc (p ∷ os) o = omega (arith, expected-snoc os o)

module _ (max_options : ℕ) (source : List AllocationOption) where
  pass-last :
      {tasks : List String} {os : List AllocationOption} (task : String)
      → Choice max_options source tasks os
      → Choice max_options source (tasks ++ task ∷ []) os
  pass-last task Choice.decided = Choice.pass Choice.decided
  pass-last task (Choice.pass c) = Choice.pass (pass-last task c)
  pass-last task (Choice.pick o m c) = Choice.pick o m (pass-last task c)

  pick-last :
      {tasks : List String} {os : List AllocationOption} (task : String) (o : AllocationOption)
      → Memᴰ o (task_options max_options source task)
      → Choice max_options source tasks os
      → Choice max_options source (tasks ++ task ∷ []) (os ++ o ∷ [])
  pick-last task o m Choice.decided = Choice.pick o m Choice.decided
  pick-last task o m (Choice.pass c) = Choice.pass (pick-last task o m c)
  pick-last task o m (Choice.pick p n c) = Choice.pick p n (pick-last task o m c)

-- What an entry of the table is, after `tasks`.
pub record IsChosen (l : Limits) (max_options : ℕ) (source : List AllocationOption)
    (tasks : List String) (e : Entry (ℕ × ℕ) AllocationOption) : Type 0 where
  pub choice : Choice max_options source tasks e.selected
  pub tokens : e.key.0 ≡ sum_quanta l.token_quantum tokens_of e.selected
  pub latency : e.key.1 ≡ sum_quanta l.latency_quantum_ms latency_of e.selected
  pub valued : e.value ≡ sum_expected e.selected
  pub within : exceeds l e.key ≡ false

module _ (l : Limits) (max_options : ℕ) (source : List AllocationOption) where
  passed_over :
      (tasks : List String) (task : String) (e : Entry (ℕ × ℕ) AllocationOption)
      → IsChosen l max_options source tasks e
      → IsChosen l max_options source (tasks ++ task ∷ []) e
  passed_over tasks task e p = record {
    choice = pass-last max_options source task p.choice;
    tokens = p.tokens;
    latency = p.latency;
    valued = p.valued;
    within = p.within;
  }

  moved-IsChosen :
      (tasks : List String) (task : String) (o : AllocationOption)
      (s : Entry (ℕ × ℕ) AllocationOption) (k : ℕ × ℕ)
      → Memᴰ o (task_options max_options source task)
      → IsChosen l max_options source tasks s
      → (option_move l o).step s.key ≡ some k
      → IsChosen l max_options source (tasks ++ task ∷ []) (moved (option_move l o) s k)
  moved-IsChosen tasks task o s k m p e = elim (Bool-cases (exceeds l (charged l o s.key))) [
    | inl over ↦ cc
    | inr fits ↦
        let same : charged l o s.key ≡ k = ground arith in
        subst
          (λ j. IsChosen l max_options source (tasks ++ task ∷ []) (moved (option_move l o) s j))
          same
          (record {
            choice = pick-last max_options source task o m p.choice;
            tokens =
                let c = p.tokens in
                omega (arith, sum_quanta-snoc l.token_quantum tokens_of s.selected o);
            latency =
                let c = p.latency in
                omega (arith, sum_quanta-snoc l.latency_quantum_ms latency_of s.selected o);
            valued = let c = p.valued in omega (arith, expected-snoc s.selected o);
            within = fits;
          })
  ]

  stage-IsChosen :
      (tasks : List String) (task : String) (states : List (Entry (ℕ × ℕ) AllocationOption))
      → Every (IsChosen l max_options source tasks) states
      → Every (IsChosen l max_options source (tasks ++ task ∷ [])) (
          relax_each pair_key
            (map (option_move l) (task_options max_options source task))
            states
            states)
  stage-IsChosen tasks task states h =
      relax_each-Every pair_key (IsChosen l max_options source (tasks ++ task ∷ []))
        (IsChosen l max_options source tasks) _ states states
        (λ m n s k p e.
          let (o, among, same) = option_move-mem l _ m n in
          subst (λ y. IsChosen l max_options source (tasks ++ task ∷ []) (moved y s k)) (sym same)
            (moved-IsChosen tasks task o s k among p (subst (λ y. y.step s.key ≡ some k) same e)))
        h (λ x m. passed_over tasks task x (h x m))

  run-IsChosen :
      (limit : ℕ) (before tasks : List String) (states : List (Entry (ℕ × ℕ) AllocationOption))
      → Every (IsChosen l max_options source before) states
      → Every (IsChosen l max_options source (before ++ tasks)) (
          run_stages pair_key
            (prune_states limit)
            (workflow_stages l max_options source tasks)
            states)
  unfolding run_stages
  run-IsChosen limit before [] states h = rw (append-nil before) h
  run-IsChosen limit before (task ∷ tasks) states h =
      let relaxed =
        relax_each pair_key (map (option_move l) (task_options max_options source task)) states
          states in
      subst
        (λ seen. Every (IsChosen l max_options source seen) (
          run_stages pair_key (prune_states limit) (workflow_stages l max_options source tasks)
            (prune_states limit relaxed)))
        (append_assoc before (task ∷ []) tasks)
        (run-IsChosen limit (before ++ task ∷ []) tasks (prune_states limit relaxed)
          (λ x m. stage-IsChosen before task states h x (prune_states-mem limit _ x m)))

  start-Every : Every (IsChosen l max_options source []) (no_options ∷ [])
  start-Every x (Memᴰ.head e) = subst (IsChosen l max_options source []) (sym e) (record {
    choice = Choice.decided;
    tokens = refl;
    latency = refl;
    valued = refl;
    within = ground arith;
  })
  start-Every x (Memᴰ.tail m) = elim m [ ]

-- The entry that is taken at the end.
pub max-IsChosen :
    (limit : ℕ) (l : Limits) (max_tasks max_options : ℕ) (options : List AllocationOption)
    (s : Entry (ℕ × ℕ) AllocationOption)
    → max_entry less_pair (workflow_states limit l max_tasks max_options options) ≡ some s
    → let source = keep (is_eligible l.max_risk) options in
      IsChosen l max_options source (sorted_tasks max_tasks source) s
unfolding workflow_states
max-IsChosen limit l max_tasks max_options options s found =
    let source : List AllocationOption = keep (is_eligible l.max_risk) options in
    let tasks : List String = sorted_tasks max_tasks source in
    max_entry-Every pair_key (IsChosen l max_options source tasks) less_pair _ s
      (run-IsChosen l max_options source limit [] tasks (no_options ∷ [])
        (start-Every l max_options source))
      found
