-- ===== src/Allocation/Bounds.antt =====
-- What is selected keeps within the budgets, takes one option of a task and only eligible ones.
use mathlib.Core.Path.{subst}
use mathlib.Core.List.{Memᴰ}
use native.Mathlib.Nat.{lt-mul-div-succ, mul-div-le, mul-le-mul_left, mul-add}
use google_connector_app.Prelude.{
  ℕ, ◌+◌, ◌-◌, ◌*◌, ◌/◌, ◌≤◌, ◌<◌, ◌≡◌, sym, ap, String, true, false, some, List, [], ◌∷◌, ◌++◌,
  map, keep, arith, count_where, str_eq, ◌==◌, Bool-cases, inl, inr, mem-keep, str_eq→eq,
}
use google_connector_app.Knapsack.{Entry, moved, run_stages, relax_each, max_entry}
use google_connector_app.Knapsack.Bounding.{Every, relax_each-Every, max_entry-Every}
use google_connector_app.Allocation.{
  AllocationOption, AllocationDecision, Limits, has_task, quanta, cap_of, pair_key, exceeds,
  charged, option_move, less_pair, prune_states, is_eligible, task_options, sorted_tasks,
  workflow_stages, no_options, sum_tokens, sum_latency, allocated, workflow_states,
  select_workflow_options, dp_multiple_choice,
}
use google_connector_app.Allocation.Sorting.{
  sort_by-mem, take-mem, count-snoc, mem-snoc, prune_states-mem, named, sorted_tasks-once, named,
}
use google_connector_app.Allocation.Answering.{workflow-entry}
use google_connector_app.Allocation.Chosen.{option_move-mem}
use google_connector_app.Allocation.Best.{select_workflow_options-answered}
use google_connector_app.Knapsack.{answered}

-- What an entry of the table is, where the tasks of `rest` are still to come.
record IsAllotted (l : Limits) (source : List AllocationOption) (tasks rest : List String)
    (e : Entry (ℕ × ℕ) AllocationOption) : Type 0 where
  tokens : sum_tokens e.selected ≤ l.token_quantum * e.key.0
  latency : sum_latency e.selected ≤ l.latency_quantum_ms * e.key.1
  within : exceeds l e.key ≡ false
  from : (o : AllocationOption) → Memᴰ o e.selected → Memᴰ o source
  once :
      (task : String)
      → count_where (has_task task) e.selected + count_where (named task) rest
        ≤ count_where (named task) tasks

-- Whole quanta cover a cost.
quanta-cover : (quantum cost : ℕ) → 0 < quantum → cost ≤ quantum * quanta quantum cost
quanta-cover quantum cost h =
    let t : ℕ = (cost + quantum - 1) / quantum in
    let a : cost + quantum - 1 < quantum * (t + 1) = lt-mul-div-succ (cost + quantum - 1) h in
    let b : quantum * (t + 1) ≡ quantum * t + quantum * 1 = mul-add quantum t 1 in omega arith

tokens-snoc :
    (os : List AllocationOption) (o : AllocationOption)
    → sum_tokens (os ++ o ∷ []) ≡ sum_tokens os + o.token_cost
tokens-snoc [] o = omega arith
tokens-snoc (p ∷ os) o = omega (arith, tokens-snoc os o)

latency-snoc :
    (os : List AllocationOption) (o : AllocationOption)
    → sum_latency (os ++ o ∷ []) ≡ sum_latency os + o.latency_ms
latency-snoc [] o = omega arith
latency-snoc (p ∷ os) o = omega (arith, latency-snoc os o)

start-Every :
    (l : Limits) (source : List AllocationOption) (tasks : List String)
    → Every (IsAllotted l source tasks tasks) (no_options ∷ [])
start-Every l source tasks x (Memᴰ.head e) =
    subst (IsAllotted l source tasks tasks) (sym e) (record {
      tokens = omega arith;
      latency = omega arith;
      within = ground arith;
      from = λ o m. elim m [ ];
      once = λ t. omega arith;
    })
start-Every l source tasks x (Memᴰ.tail m) = elim m [ ]

module _ (l : Limits) (source : List AllocationOption) (tasks : List String)
    (tq : 0 < l.token_quantum) (lq : 0 < l.latency_quantum_ms) where
  moved-IsAllotted :
      (rest : List String) (task : String) (o : AllocationOption)
      (s : Entry (ℕ × ℕ) AllocationOption) (k : ℕ × ℕ)
      → Memᴰ o source
      → has_task task o ≡ true
      → IsAllotted l source tasks (task ∷ rest) s
      → (option_move l o).step s.key ≡ some k
      → IsAllotted l source tasks rest (moved (option_move l o) s k)
  moved-IsAllotted rest task o s k m own p e = elim (Bool-cases (exceeds l (charged l o s.key))) [
    | inl over ↦ cc
    | inr fits ↦
        let same : charged l o s.key ≡ k = ground arith in
        subst (λ j. IsAllotted l source tasks rest (moved (option_move l o) s j)) same
          (record {
            tokens =
                let a = quanta-cover l.token_quantum o.token_cost tq in
                let b = mul-add l.token_quantum s.key.0 (quanta l.token_quantum o.token_cost) in
                let c = p.tokens in omega (arith, tokens-snoc s.selected o);
            latency =
                let a = quanta-cover l.latency_quantum_ms o.latency_ms lq in
                let b =
                  mul-add l.latency_quantum_ms s.key.1 (quanta l.latency_quantum_ms o.latency_ms) in
                let c = p.latency in omega (arith, latency-snoc s.selected o);
            within = fits;
            from = λ x n. elim (mem-snoc s.selected o x n) [
              | inl old ↦ p.from x old
              | inr new ↦ rw new m
            ];
            once = λ t.
                let c = p.once t in
                let g = count-snoc (has_task t) s.selected o in
                let d : o.task_id ≡ task = str_eq→eq o.task_id task own in
                let u : str_eq o.task_id t ≡ str_eq task t = ap (λ x. str_eq x t) d in ground arith;
          })
  ]

  passed_over :
      (rest : List String) (task : String) (e : Entry (ℕ × ℕ) AllocationOption)
      → IsAllotted l source tasks (task ∷ rest) e
      → IsAllotted l source tasks rest e
  passed_over rest task e p = record {
    tokens = p.tokens;
    latency = p.latency;
    within = p.within;
    from = p.from;
    once = λ t. let c = p.once t in omega arith;
  }

  stage-IsAllotted :
      (max_options : ℕ) (rest : List String) (task : String)
      (states : List (Entry (ℕ × ℕ) AllocationOption))
      → Every (IsAllotted l source tasks (task ∷ rest)) states
      → Every (IsAllotted l source tasks rest) (
          relax_each pair_key
            (map (option_move l) (task_options max_options source task))
            states
            states)
  unfolding task_options
  stage-IsAllotted max_options rest task states h =
      relax_each-Every pair_key (IsAllotted l source tasks rest)
        (IsAllotted l source tasks (task ∷ rest)) _ states states
        (λ m n s k p e.
          let (o, among, same) = option_move-mem l _ m n in
          let (found, own) =
            mem-keep (has_task task) source o
              (sort_by-mem _ o _ (take-mem max_options o _ among)) in
          subst (λ y. IsAllotted l source tasks rest (moved y s k)) (sym same)
            (moved-IsAllotted rest task o s k found own p
              (subst (λ y. y.step s.key ≡ some k) same e)))
        h (λ x m. passed_over rest task x (h x m))

  run-IsAllotted :
      (limit max_options : ℕ) (rest : List String) (states : List (Entry (ℕ × ℕ) AllocationOption))
      → Every (IsAllotted l source tasks rest) states
      → Every (IsAllotted l source tasks []) (
          run_stages pair_key
            (prune_states limit)
            (workflow_stages l max_options source rest)
            states)
  unfolding run_stages
  run-IsAllotted limit max_options [] states h = h
  run-IsAllotted limit max_options (task ∷ rest) states h =
      run-IsAllotted limit max_options rest _
        (λ x m. stage-IsAllotted max_options rest task states h x (prune_states-mem limit _ x m))

-- What is selected under the limits.
pub record IsAllocated (options : List AllocationOption) (l : Limits) (d : AllocationDecision)
    : Type 0 where
  pub tokens : sum_tokens d.selected ≤ l.token_budget
  pub latency : sum_latency d.selected ≤ l.latency_budget_ms
  pub eligible :
      (o : AllocationOption)
      → Memᴰ o d.selected
      → Memᴰ o options × (is_eligible l.max_risk o ≡ true)
  pub once : (task : String) → count_where (has_task task) d.selected ≤ 1

capped :
    (quantum budget units cost : ℕ)
    → 0 < quantum
    → quantum ≤ budget
    → cost ≤ quantum * units
    → units ≤ cap_of budget quantum
    → cost ≤ budget
capped quantum budget units cost h k c u =
    let a : budget < quantum * (budget / quantum + 1) = lt-mul-div-succ budget h in
    let b = mul-add quantum (budget / quantum) 1 in
    let d = mul-div-le budget quantum in
    let e = mul-le-mul_left quantum u in
    elim (Bool-cases (budget / quantum == 0)) [
      | inl none_left ↦
          let z : budget / quantum ≡ 0 = ground arith in
          let w : budget < quantum * (0 + 1) = rw z at a in absurd (omega arith)
      | inr some_left ↦
          let g : cap_of budget quantum ≡ budget / quantum = ground arith in
          let f : quantum * units ≤ quantum * (budget / quantum) = rw g at e in omega arith
    ]

entry-IsAllocated :
    (limit max_tasks max_options : ℕ) (options : List AllocationOption) (l : Limits)
    (s : Entry (ℕ × ℕ) AllocationOption)
    → 0 < l.token_quantum
    → 0 < l.latency_quantum_ms
    → l.token_quantum ≤ l.token_budget
    → l.latency_quantum_ms ≤ l.latency_budget_ms
    → max_entry less_pair (workflow_states limit l max_tasks max_options options) ≡ some s
    → IsAllocated options l (allocated dp_multiple_choice s.selected s.value)
unfolding workflow_states
entry-IsAllocated limit max_tasks max_options options l s tq lq tb lb found =
    let source : List AllocationOption = keep (is_eligible l.max_risk) options in
    let tasks : List String = sorted_tasks max_tasks source in
    let start : Every (IsAllotted l source tasks tasks) (no_options ∷ []) =
      start-Every l source tasks in
    let p : IsAllotted l source tasks [] s =
      max_entry-Every pair_key (IsAllotted l source tasks []) less_pair _ s
        (run-IsAllotted l source tasks tq lq limit max_options tasks (no_options ∷ []) start)
        found in
    record {
      tokens =
          capped l.token_quantum l.token_budget s.key.0 (sum_tokens s.selected) tq tb p.tokens
            (let w = p.within in ground arith);
      latency =
          capped l.latency_quantum_ms l.latency_budget_ms s.key.1 (sum_latency s.selected) lq lb
            p.latency (let w = p.within in ground arith);
      eligible = λ o m. mem-keep (is_eligible l.max_risk) options o (p.from o m);
      once = λ t. let a = p.once t in let b = sorted_tasks-once max_tasks source t in omega arith;
    }

-- The selection is always made, pruned or not, and it keeps within both budgets, takes at most one
-- option of a task, and only options that are given and whose risk is allowed, where each budget is
-- at least one quantum.
pub select_workflow_options-IsAllocated :
    (options : List AllocationOption) (l : Limits) (max_tasks max_options : ℕ)
    → 0 < l.token_quantum
    → 0 < l.latency_quantum_ms
    → l.token_quantum ≤ l.token_budget
    → l.latency_quantum_ms ≤ l.latency_budget_ms
    → (d : AllocationDecision) × (select_workflow_options options l max_tasks max_options
        ≡ answered d)
      × IsAllocated options l d
select_workflow_options-IsAllocated options l max_tasks max_options tq lq tb lb =
    let (s, found) = workflow-entry 19999 l max_tasks max_options options in
    (
      allocated dp_multiple_choice s.selected s.value,
      select_workflow_options-answered options l max_tasks max_options s (omega arith) (omega arith)
          tq lq found,
      entry-IsAllocated 20000 max_tasks max_options options l s tq lq tb lb found,
    )
