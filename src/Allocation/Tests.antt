-- ===== src/Allocation/Tests.antt =====
-- Two tasks with two options each, for 500 tokens and 500 milliseconds.
use google_connector_app.Prelude.{ℕ, ◌≡◌, refl, String, List, [], ◌∷◌, arith, keep}
use google_connector_app.Knapsack.{
  answered, zero_division_error, relax_each, relax, offer_move, offer,
}
use google_connector_app.Allocation.{
  AllocationOption, AllocationDecision, Limits, select_workflow_options, sorted_tasks, task_options,
  is_eligible, sort_by, insert_sorted, task_ids, prune_states,
}
use google_connector_app.Allocation.Bounds.{IsAllocated, select_workflow_options-IsAllocated}
use google_connector_app.Allocation.Best.{IsBest, select_workflow_options-optimal}

abbrev option : String → String → ℕ → ℕ → AllocationOption
option task id tokens value = record {
  task_id = task;
  option_id = id;
  token_cost = tokens;
  latency_ms = 150;
  risk = 1;
  expected_value = value;
  user_id = "ana";
}

abbrev options : List AllocationOption
options =
    option "b" "x" 250 7 ∷ option "a" "y" 400 9 ∷ option "a" "x" 200 5 ∷ option "b" "y" 300 6 ∷ []

abbrev limits : Limits
limits = record {
  token_budget = 500;
  latency_budget_ms = 500;
  max_risk = 2;
  token_quantum = 100;
  latency_quantum_ms = 100;
}

select_workflow_options-IsAllocated_example :
    (d : AllocationDecision) × (select_workflow_options options limits 30 8 ≡ answered d)
    × IsAllocated options limits d
select_workflow_options-IsAllocated_example =
    select_workflow_options-IsAllocated options limits 30 8 (omega arith) (omega arith)
      (omega arith) (omega arith)

select_workflow_options-optimal_example :
    let source = keep (is_eligible 2) options in
    (d : AllocationDecision) × (select_workflow_options options limits 30 8 ≡ answered d)
    × IsBest limits 8 source (sorted_tasks 30 source) d
unfolding sorted_tasks task_options sort_by insert_sorted task_ids prune_states relax_each relax
    offer_move offer
select_workflow_options-optimal_example =
    select_workflow_options-optimal options limits 30 8 (omega arith) (omega arith) (omega arith)
      (omega arith) (refl, (refl, tt))

no_quantum :
    select_workflow_options options (record limits { token_quantum = 0 }) 30 8 ≡ zero_division_error
unfolding select_workflow_options
no_quantum = refl
