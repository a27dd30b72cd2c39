-- ===== src/Runs/Finishing/Closing.antt =====
-- A run is called completed only when all its steps are.
use google_connector_app.Prelude.{
  ℕ, ◌≡◌, refl, ap, Bool, true, false, not, ◌||◌, List, [], ◌∷◌, arith, all, keep, all-update_where,
  nonempty,
}
use google_connector_app.Runs.{Db, Run, RunStatus, Step, is_completed}
use google_connector_app.Runs.Claiming.{has_run_id, of_run}
use google_connector_app.Runs.Finishing.{unresolved_steps, close_run}

abbrev pub done_status : RunStatus → Bool
done_status RunStatus.completed = true
done_status s = false

abbrev pub partial_status : RunStatus → Bool
partial_status RunStatus.partial = true
partial_status s = false

abbrev pub all_done : ℕ → List Step → Bool
all_done run_id steps = all (λ s. not (of_run run_id s) || is_completed s.status) steps

unresolved-all :
    (run_id : ℕ) (steps : List Step)
    → nonempty (unresolved_steps (keep (of_run run_id) steps)) ≡ not (all_done run_id steps)
unfolding unresolved_steps
unresolved-all run_id [] = refl
unresolved-all run_id (s ∷ steps) = ground (arith, unresolved-all run_id steps)

-- The status of a run whose steps are all done, or are not.
abbrev pub closed_as : Bool → RunStatus → Bool
closed_as true s = done_status s
closed_as false s = partial_status s

module _ (now : ℕ) (r : Run) (db : Db) where
  close_run-done :
      unresolved_steps (keep (of_run r.id) db.steps) ≡ []
      → all (λ x. not (has_run_id r.id x) || closed_as true x.status) (close_run now r db).runs
        ≡ true
  unfolding close_run
  close_run-done e =
      rw (e, close_run)
        (all-update_where (has_run_id r.id) _
          (λ x. not (has_run_id r.id x) || closed_as true x.status) (λ x h. ground arith) db.runs
          (λ x h. ground arith))

  close_run-open :
      (s : Step) (rest : List Step)
      → unresolved_steps (keep (of_run r.id) db.steps) ≡ s ∷ rest
      → all (λ x. not (has_run_id r.id x) || closed_as false x.status) (close_run now r db).runs
        ≡ true
  unfolding close_run
  close_run-open s rest e =
      rw (e, close_run)
        (all-update_where (has_run_id r.id) _
          (λ x. not (has_run_id r.id x) || closed_as false x.status) (λ x h. ground arith) db.runs
          (λ x h. ground arith))

  close_run-by :
      (rest : List Step)
      → unresolved_steps (keep (of_run r.id) db.steps) ≡ rest
      → all
          (λ x. not (has_run_id r.id x) || closed_as (all_done r.id db.steps) x.status)
          (close_run now r db).runs
        ≡ true
  close_run-by [] e =
      let d : all_done r.id db.steps ≡ true =
        ground (arith, unresolved-all r.id db.steps, ap nonempty e) in
      rw d (close_run-done e)
  close_run-by (s ∷ rest) e =
      let d : all_done r.id db.steps ≡ false =
        ground (arith, unresolved-all r.id db.steps, ap nonempty e) in
      rw d (close_run-open s rest e)

-- After closing, every row of the run has the status `completed` if all the run's steps are
-- completed, and otherwise the status `partial`.
pub close_run-completed :
    (now : ℕ) (r : Run) (db : Db)
    → all
        (λ x. not (has_run_id r.id x) || closed_as (all_done r.id db.steps) x.status)
        (close_run now r db).runs
      ≡ true
close_run-completed now r db = close_run-by now r db _ refl
