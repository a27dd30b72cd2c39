-- ===== src/Runs/Resuming/Once.antt =====
-- A failure is resumed once, and only its step changes.
use google_connector_app.Prelude.{
  ℕ, String, ◌≡◌, ◌≢◌, refl, Bool, true, false, not, List, [], ◌∷◌, arith, find, keep, update_where,
  keep-update_where_others,
}
use google_connector_app.Runs.{Db, Step, is_failed}
use google_connector_app.Runs.Claiming.{has_step_id}
use google_connector_app.Reconciliation.{
  ReconciliationDecision, ReconciliationState, safe_to_retry, already_completed, manual_required,
}
use google_connector_app.Runs.Resuming.{resumed_step, locked_row, still_failed, finish_resume}

resumed-not_failed :
    (state : ReconciliationState) (s : Step)
    → state ≢ manual_required
    → is_failed (resumed_step state s).status ≡ false
resumed-not_failed already_completed s h = refl
resumed-not_failed safe_to_retry s h = refl
resumed-not_failed manual_required s h = absurd (h refl)

resumed-row :
    (run_id step_id : ℕ) (state : ReconciliationState) (steps : List Step)
    → state ≢ manual_required
    → still_failed (
        find
          (locked_row run_id step_id)
          (update_where (has_step_id step_id) (resumed_step state) steps))
      ≡ false
resumed-row run_id step_id state [] h = refl
resumed-row run_id step_id safe_to_retry (s ∷ steps) h =
    ground (arith, resumed-row run_id step_id safe_to_retry steps h)
resumed-row run_id step_id already_completed (s ∷ steps) h =
    ground (arith, resumed-row run_id step_id already_completed steps h)
resumed-row run_id step_id manual_required (s ∷ steps) h = absurd (h refl)

resumed-id : (state : ReconciliationState) (s : Step) → (resumed_step state s).id ≡ s.id
resumed-id safe_to_retry s = refl
resumed-id already_completed s = refl
resumed-id manual_required s = refl

manual-steps :
    (p : Step → Bool) (steps : List Step)
    → update_where p (resumed_step manual_required) steps ≡ steps
manual-steps p [] = refl
manual-steps p (s ∷ steps) = ground (arith, manual-steps p steps)

-- Each failure is resumed once: of two requests that reconciled the same failed step at the same
-- time, after the one that completed it or set it back has been carried out, the other is refused
-- and changes nothing.
pub finish_resume_once :
    (version version' : String) (run_id step_id : ℕ) (user user' : String)
    (decision decision' : ReconciliationDecision) (db : Db)
    → decision.state ≢ manual_required
    → (finish_resume version run_id user step_id decision db).0 ≡ true
    → let db' = (finish_resume version run_id user step_id decision db).1 in
      finish_resume version' run_id user' step_id decision' db' ≡ (false, db')
unfolding finish_resume
finish_resume_once version version' run_id step_id user user' decision decision' db h done =
    ground (arith, resumed-row run_id step_id decision.state db.steps h)

-- Resuming changes no step but the one that was reconciled, and where the decision is left to a
-- person it changes no step at all.
pub finish_resume-others :
    (version : String) (run_id step_id : ℕ) (user : String) (decision : ReconciliationDecision)
    (db : Db)
    → let db' = (finish_resume version run_id user step_id decision db).1 in
      (keep (λ s. not (has_step_id step_id s)) db'.steps
        ≡ keep (λ s. not (has_step_id step_id s)) db.steps)
      × (decision.state ≡ manual_required → db'.steps ≡ db.steps)
unfolding finish_resume
finish_resume-others version run_id step_id user decision db = (
  ground (
    arith,
    keep-update_where_others (has_step_id step_id) (resumed_step decision.state)
        (λ s t. rw (resumed-id decision.state s) t) db.steps,
  ),
  λ h. ground (arith, manual-steps (has_step_id step_id) db.steps),
)
