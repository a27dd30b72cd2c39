-- ===== src/Runs/Claiming/Interrupted.antt =====
-- An external write that a lost worker left running is never repeated by a claim.
use google_connector_app.Prelude.{
  ℕ, ◌≡◌, refl, Bool, true, false, ◌&&◌, none, some, List, [], ◌∷◌, arith, any, all, keep, not,
  ◌||◌, nonempty, ◌==◌, any-update_where, keep-update_where_outside, all-update_where,
}
use google_connector_app.Runs.{Db, Run, RunStatus, Step, is_running, is_pending}
use google_connector_app.Runs.Claiming.{
  Worker, recovered, is_interrupted, may_repeat, claim_row, give_up, has_run_id,
}

-- A write of the run that is running.
abbrev pub is_interrupted_write : ℕ → Step → Bool
is_interrupted_write run_id s = is_interrupted run_id s && not s.read_only

write-not-all :
    (run_id : ℕ) (steps : List Step)
    → any (is_interrupted_write run_id) steps ≡ true
    → (all may_repeat (keep (is_interrupted run_id) steps) ≡ false)
      × (nonempty (keep (is_interrupted run_id) steps) ≡ true)
      × (any (λ s. not s.read_only) (keep (is_interrupted run_id) steps) ≡ true)
write-not-all run_id [] h = cc
write-not-all run_id (s ∷ steps) h = ground (arith, write-not-all run_id steps)

-- Where a lease expired while a write was running, the claim hands out no run: it ends the run as
-- needing reconciliation.
claim_row-write :
    (w : Worker) (r : Run) (db : Db)
    → is_running r.status ≡ true
    → any (is_interrupted_write r.id) db.steps ≡ true
    → claim_row w r db ≡ (recovered r.id, give_up w.now true r db)
unfolding claim_row
claim_row-write w r db running h = ground (arith, write-not-all r.id db.steps h)

abbrev pub ended : Run → Bool
ended r =
    (elim r.status [ RunStatus.partial ↦ true | RunStatus.failed ↦ true | _ ↦ false ])
    && r.side_effect_integrity == 0
    && (elim r.lease_owner [ none ↦ true | some o ↦ false ])

abbrev pub is_pending_of : ℕ → Step → Bool
is_pending_of run_id s = s.run_id == run_id && is_pending s.status

module _ (now : ℕ) (r : Run) (db : Db) where
  given_up_steps :
      (any (is_interrupted r.id) (give_up now true r db).steps ≡ false)
      × (keep (is_pending_of r.id) (give_up now true r db).steps
          ≡ keep (is_pending_of r.id) db.steps)
  unfolding give_up
  given_up_steps = (
    any-update_where (is_interrupted r.id) _ (λ s. ground arith) db.steps,
    keep-update_where_outside (is_interrupted r.id) (is_pending_of r.id) _ (λ s h. ground arith)
        (λ s h. ground arith) db.steps,
  )

  given_up_runs : all (λ x. not (has_run_id r.id x) || ended x) (give_up now true r db).runs ≡ true
  unfolding give_up
  given_up_runs =
      all-update_where (has_run_id r.id) _ (λ x. not (has_run_id r.id x) || ended x)
        (λ x h. ground arith) db.runs (λ x h. ground arith)

-- Where a lease expired while a write of the run was running, the claim hands the run out to nobody.
-- Afterwards no step of the run is running, its pending steps are those that it had, so the write
-- is not scheduled again, and the run has ended, with no side-effect integrity and no lease.
pub claim_row-interrupted_write :
    (w : Worker) (r : Run) (db : Db)
    → is_running r.status ≡ true
    → any (is_interrupted_write r.id) db.steps ≡ true
    → let (claim, db') = claim_row w r db in
      (claim ≡ recovered r.id)
      × (any (is_interrupted r.id) db'.steps ≡ false)
      × (keep (is_pending_of r.id) db'.steps ≡ keep (is_pending_of r.id) db.steps)
      × (all (λ x. not (has_run_id r.id x) || ended x) db'.runs ≡ true)
claim_row-interrupted_write w r db running h =
    let (still, same) = given_up_steps w.now r db in
    rw (claim_row-write w r db running h) (refl, still, same, given_up_runs w.now r db)
