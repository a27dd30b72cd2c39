-- ===== src/Allocation/Best.antt =====
-- Where nothing is pruned, no choice of options beats the selection.
use mathlib.Core.List.{Memᴰ}
use google_connector_app.Prelude.{
  ℕ, ◌+◌, ◌≤◌, ◌<◌, ◌≡◌, refl, ap, String, false, ◌||◌, some, List, [], ◌∷◌, map, arith, keep, ◌==◌,
}
use google_connector_app.Knapsack.{Entry, Move, answered, max_entry}
use google_connector_app.Knapsack.Optimal.{
  Route, IsByValue, Unpruned, run_stages-Has, max_entry-Has,
}
use google_connector_app.Allocation.{
  AllocationOption, AllocationDecision, Limits, quanta, cap_of, pair_key, exceeds, charged,
  option_move, less_pair, prune_states, is_eligible, sorted_tasks, workflow_stages, no_options,
  allocated, workflow_states, select_workflow_options, dp_multiple_choice,
}
use google_connector_app.Allocation.Answering.{workflow-entry}
use google_connector_app.Allocation.Chosen.{
  Choice, Fits, sum_quanta, sum_expected, tokens_of, latency_of, max-IsChosen,
}

less_pair-IsByValue : IsByValue {A = AllocationOption} less_pair
less_pair-IsByValue = record { up = λ s t h. ground arith; down = λ s t h. ground arith }

module _ (l : Limits) (max_options : ℕ) (source : List AllocationOption) where
  options-mem :
      (os : List AllocationOption) (o : AllocationOption)
      → Memᴰ o os
      → Memᴰ (option_move l o) (map (option_move l) os)
  options-mem [] o m = elim m [ ]
  options-mem (p ∷ os) o (Memᴰ.head e) = Memᴰ.head (ap (option_move l) e)
  options-mem (p ∷ os) o (Memᴰ.tail m) = Memᴰ.tail (options-mem os o m)

  Choice-Route :
      (tasks : List String) (os : List AllocationOption) (a b v a' b' total : ℕ)
      → Choice max_options source tasks os
      → a' ≡ a + sum_quanta l.token_quantum tokens_of os
      → b' ≡ b + sum_quanta l.latency_quantum_ms latency_of os
      → total ≡ v + sum_expected os
      → a' ≤ cap_of l.token_budget l.token_quantum
      → b' ≤ cap_of l.latency_budget_ms l.latency_quantum_ms
      → Route (a', b') total (workflow_stages l max_options source tasks) (a, b) v
  Choice-Route [] [] a b v a' b' total Choice.decided ea eb ev ha hb =
      let sa : a ≡ a' = omega arith in
      let sb : b ≡ b' = omega arith in
      let sv : v ≡ total = omega arith in rw (sa, sb, sv) Route.done
  Choice-Route [] (o ∷ os) a b v a' b' total c ea eb ev ha hb = elim c [ ]
  Choice-Route (task ∷ tasks) os a b v a' b' total (Choice.pass c) ea eb ev ha hb =
      Route.skip (Choice-Route tasks os a b v a' b' total c ea eb ev ha hb)
  Choice-Route (task ∷ tasks) (o ∷ os) a b v a' b' total (Choice.pick p m c) ea eb ev ha hb =
      let fits : exceeds l (charged l o (a, b)) ≡ false = ground arith in
      Route.pick (option_move l o) (charged l o (a, b)) (options-mem _ o m) (rw fits refl) (
        Choice-Route tasks os (a + quanta l.token_quantum o.token_cost)
          (b + quanta l.latency_quantum_ms o.latency_ms) (v + o.expected_value) a' b' total c
          (omega arith) (omega arith) (omega arith) ha hb)

-- The best choice of options under the limits.
pub record IsBest (l : Limits) (max_options : ℕ) (source : List AllocationOption)
    (tasks : List String) (d : AllocationDecision) : Type 0 where
  pub choice : Choice max_options source tasks d.selected
  pub fits : Fits l d.selected
  pub valued : d.expected_value ≡ sum_expected d.selected
  pub best :
      (os : List AllocationOption)
      → Choice max_options source tasks os
      → Fits l os
      → sum_expected os ≤ d.expected_value

module _ (options : List AllocationOption) (l : Limits) (max_tasks max_options : ℕ) where
  states-best :
      let source = keep (is_eligible l.max_risk) options in
      let tasks = sorted_tasks max_tasks source in
      Unpruned pair_key
        (prune_states 20000)
        (workflow_stages l max_options source tasks)
        (no_options ∷ [])
      → (s : Entry (ℕ × ℕ) AllocationOption)
      → max_entry less_pair (workflow_states 20000 l max_tasks max_options options) ≡ some s
      → (os : List AllocationOption) → Choice max_options source tasks os
      → Fits l os
      → sum_expected os ≤ s.value
  unfolding workflow_states
  states-best whole s found os choice fits =
      let source : List AllocationOption = keep (is_eligible l.max_risk) options in
      let tasks : List String = sorted_tasks max_tasks source in
      let stages : List (List (Move (ℕ × ℕ) AllocationOption)) =
        workflow_stages l max_options source tasks in
      let reached =
        run_stages-Has pair_key (prune_states 20000) stages (no_options ∷ [])
          (sum_quanta l.token_quantum tokens_of os, sum_quanta l.latency_quantum_ms latency_of os)
          (sum_expected os) (0, 0) 0 whole
          (Choice-Route l max_options source tasks os 0 0 0 _ _ _ choice (omega arith) (omega arith)
            (omega arith) fits.tokens fits.latency)
          (record {
            entry = no_options;
            among = Memᴰ.head refl;
            at_key = refl;
            enough = omega arith;
          }) in
      let (e, here, more) = max_entry-Has less_pair less_pair-IsByValue _ _ _ reached in
      let same : e ≡ s = cc (here, found) in rw (← same) more

  pub select_workflow_options-answered :
      (s : Entry (ℕ × ℕ) AllocationOption)
      → 0 < l.token_budget
      → 0 < l.latency_budget_ms
      → 0 < l.token_quantum
      → 0 < l.latency_quantum_ms
      → max_entry less_pair (workflow_states 20000 l max_tasks max_options options) ≡ some s
      → select_workflow_options options l max_tasks max_options
        ≡ answered (allocated dp_multiple_choice s.selected s.value)
  unfolding select_workflow_options
  select_workflow_options-answered s tb lb tq lq found =
      let funded : (l.token_budget == 0 || l.latency_budget_ms == 0) ≡ false = ground arith in
      let divides : (l.token_quantum == 0 || l.latency_quantum_ms == 0) ≡ false = ground arith in
      rw (funded, divides, found) refl

  -- Without pruning the selection is optimal: where no table on the way has more than 20,000 states,
  -- and the budgets and the quanta are positive, the function answers with at most one option for
  -- each task that is looked at, among the options of the task that are looked at; the answer fits
  -- both budgets in quanta and its expected value is the sum of its options'; and no such choice that
  -- fits both budgets in quanta has a greater one.
  pub select_workflow_options-optimal :
      0 < l.token_budget
      → 0 < l.latency_budget_ms
      → 0 < l.token_quantum
      → 0 < l.latency_quantum_ms
      → let source = keep (is_eligible l.max_risk) options in
        let tasks = sorted_tasks max_tasks source in
        Unpruned pair_key
          (prune_states 20000)
          (workflow_stages l max_options source tasks)
          (no_options ∷ [])
        → (d : AllocationDecision) × (select_workflow_options options l max_tasks max_options
            ≡ answered d)
          × IsBest l max_options source tasks d
  select_workflow_options-optimal tb lb tq lq whole =
      let (s, found) = workflow-entry 19999 l max_tasks max_options options in
      let p = max-IsChosen 20000 l max_tasks max_options options s found in
      let e = p.within in
      let k = p.tokens in
      let j = p.latency in
      (
        allocated dp_multiple_choice s.selected s.value,
        select_workflow_options-answered s tb lb tq lq found,
        record {
          choice = p.choice;
          fits = record {
            tokens =
                let w : s.key.0 ≤ cap_of l.token_budget l.token_quantum = ground arith in
                rw (← k) w;
            latency =
                let w : s.key.1 ≤ cap_of l.latency_budget_ms l.latency_quantum_ms = ground arith in
                rw (← j) w;
          };
          valued = p.valued;
          best = states-best whole s found;
        },
      )
