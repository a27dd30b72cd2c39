-- ===== src/Runs/Finishing/Attempts.antt =====
-- A write is started at most once, as long as nobody resumes its run by hand.
use mathlib.Core.Path.{subst}
use google_connector_app.Prelude.{
  ℕ, ◌≡◌, refl, Bool, true, not, ◌&&◌, ◌||◌, List, [], ◌∷◌, ◌++◌, arith, any, all, keep,
  update_where, String, ◌⊎◌, inl, inr, Option-cases, Bool-cases, leb, nonempty,
}
use google_connector_app.Runs.{Db, Run, Step, is_running}
use google_connector_app.Runs.Claiming.{
  least, interruption_category, interruption_error, requeued_step, failed_step, known_role,
  is_claimable, queued_time, Worker, claim_step, claim_run, claim_row, lease, requeue_reads,
  give_up, has_step_id, is_interrupted, may_repeat,
}
use google_connector_app.Routing.{ExecutorAssignment}
use google_connector_app.Runs.Creating.{
  Settings, Fresh, Request, Planned, create_run, create_new, insert_run, insert_invalid, step_rows,
  status_of,
}
use google_connector_app.Runs.Clarifying.{
  Clarification, clarify_run, keep_asking, apply_clarification, of_other_run, pending_status,
}
use google_connector_app.Runs.Budgeted.{
  within_budget, IsBudgeted, below, update-IsBudgeted, distinct-update_where, claim_step-IsBudgeted,
  rows-IsBudgeted, keep-IsBudgeted, all-keep,
}
use google_connector_app.Runs.Claiming.Leases.{claim_run-row, claim_run-idle, claim_run-refused}
use google_connector_app.Runs.Deciding.{
  is_waiting_step, decided_step, Context, Decision, decide_run, apply_decision, expire_approval,
  cancel_run,
}
use google_connector_app.Runs.Deciding.Cancelling.{cancel_run-others}
use google_connector_app.Runs.Finishing.{
  retried_step, reported_step, Report, write_back, fail_run, close_run, is_retryable,
}

-- An update of rows that all pass a further test.
within-tested :
    (p g : Step → Bool) (f : Step → Step)
    → ((s : Step) → g s ≡ true → within_budget s ≡ true → within_budget (f s) ≡ true)
    → (steps : List Step) → all g (keep p steps) ≡ true
    → all within_budget steps ≡ true
    → all within_budget (update_where p f steps) ≡ true
within-tested p g f keeps [] t h = refl
within-tested p g f keeps (s ∷ steps) t h = ground (arith, keeps s, within-tested p g f keeps steps)

-- Reads that have an attempt left may wait again.
retry-IsBudgeted :
    (run_id : ℕ) (f : Step → Step) (steps : List Step)
    → ((s : Step) → (f s).id ≡ s.id)
    → ((s : Step) → may_repeat s ≡ true → within_budget s ≡ true → within_budget (f s) ≡ true)
    → all may_repeat (keep (is_interrupted run_id) steps) ≡ true
    → IsBudgeted steps
    → IsBudgeted (update_where (is_interrupted run_id) f steps)
retry-IsBudgeted run_id f steps same keeps t b = record {
  distinct = distinct-update_where (is_interrupted run_id) f same steps b.distinct;
  within = within-tested (is_interrupted run_id) may_repeat f keeps steps t b.within;
}

fail-IsBudgeted :
    (run_id : ℕ) (category error : String) (steps : List Step)
    → IsBudgeted steps
    → IsBudgeted (update_where (is_interrupted run_id) (failed_step category error) steps)
fail-IsBudgeted run_id category error =
    update-IsBudgeted (is_interrupted run_id) (failed_step category error) (λ s. refl)
      (λ s h k. ground arith)

claim_row-IsBudgeted :
    (w : Worker) (r : Run) (db : Db) → IsBudgeted db.steps → IsBudgeted (claim_row w r db).1.steps
unfolding claim_row lease requeue_reads give_up
claim_row-IsBudgeted w r db b =
    let rows = keep (is_interrupted r.id) db.steps in
    elim (Bool-cases (is_running r.status && nonempty rows)) [
      | inr calm ↦
          subst IsBudgeted (let same : db.steps ≡ (claim_row w r db).1.steps = ground arith in same)
            b
      | inl busy ↦ elim (Bool-cases (all may_repeat rows)) [
        | inl safe ↦
            subst IsBudgeted
              (let same : update_where (is_interrupted r.id) requeued_step db.steps
                    ≡ (claim_row w r db).1.steps =
                  ground arith in
                same)
              (retry-IsBudgeted r.id requeued_step db.steps (λ s. refl) (λ s t h. ground arith) safe
                b)
        | inr unsafe ↦
            let write = any (λ (s : Step). not s.read_only) rows in
            subst IsBudgeted
              (let same : update_where (is_interrupted r.id)
                      (failed_step (interruption_category write) (interruption_error write))
                      db.steps
                    ≡ (claim_row w r db).1.steps =
                  ground arith in
                same)
              (fail-IsBudgeted r.id _ _ db.steps b)
      ]
    ]

claim_run-IsBudgeted :
    (w : Worker) (db : Db) → IsBudgeted db.steps → IsBudgeted (claim_run w db).1.steps
claim_run-IsBudgeted w db b = elim (Bool-cases (known_role w)) [
  | inr unknown ↦ rw (claim_run-refused w db unknown) b
  | inl known ↦ elim (Option-cases (least queued_time (keep (is_claimable w) db.runs))) [
    | inl nothing ↦ rw (claim_run-idle w db known nothing) b
    | inr (r, found) ↦ rw (claim_run-row w db r known found) (claim_row-IsBudgeted w r db b)
  ]
]

fail_run-IsBudgeted :
    (now : ℕ) (r : Run) (category error : String) (db : Db)
    → IsBudgeted db.steps
    → IsBudgeted (fail_run now r category error db).steps
unfolding fail_run
fail_run-IsBudgeted now r category error db b =
    elim (Bool-cases (is_retryable category (keep (is_interrupted r.id) db.steps))) [
      | inl again ↦
          subst IsBudgeted
            (let same : update_where (is_interrupted r.id) (retried_step category error) db.steps
                  ≡ (fail_run now r category error db).steps =
                ground arith in
              same)
            (retry-IsBudgeted r.id _ db.steps (λ s. refl) (λ s t h. ground arith) (ground arith) b)
      | inr over ↦
          subst IsBudgeted
            (let same : update_where (is_interrupted r.id) (failed_step category error) db.steps
                  ≡ (fail_run now r category error db).steps =
                ground arith in
              same)
            (fail-IsBudgeted r.id category error db.steps b)
    ]

write_back-IsBudgeted :
    (id : ℕ) (report : Report) (db : Db)
    → IsBudgeted db.steps
    → IsBudgeted (write_back id report db).steps
unfolding write_back
write_back-IsBudgeted id report db b =
    update-IsBudgeted (has_step_id id) (reported_step report) (λ s. refl) (λ s h k. ground arith)
      db.steps b

steps-decide_run :
    (ctx : Context) (d : Decision) (db : Db)
    → ((decide_run ctx d db).1.steps ≡ db.steps)
      ⊎ ((decide_run ctx d db).1.steps
          ≡ update_where (is_waiting_step d.run_id) (decided_step d.approved) db.steps)
unfolding decide_run apply_decision expire_approval
steps-decide_run ctx d db = ground arith

decide_run-IsBudgeted :
    (ctx : Context) (d : Decision) (db : Db)
    → IsBudgeted db.steps
    → IsBudgeted (decide_run ctx d db).1.steps
decide_run-IsBudgeted ctx d db b = elim (steps-decide_run ctx d db) [
  | inl same ↦ rw same b
  | inr decided ↦ rw decided (
      update-IsBudgeted (is_waiting_step d.run_id) (decided_step d.approved) (λ s. refl)
        (λ s h k. ground arith) db.steps b)
]

module _ (settings : Settings) (fresh : Fresh) (q : Request) (p : Planned) (a : ExecutorAssignment)
    (used_tokens : ℕ) (db : Db) where
  steps-create_run :
      ((create_run settings fresh q p a used_tokens db).1.steps ≡ db.steps)
      ⊎ ((create_run settings fresh q p a used_tokens db).1.steps
          ≡ db.steps ++ step_rows status_of fresh.run fresh.step 1 p.plan.steps)
  unfolding create_run create_new insert_run insert_invalid
  steps-create_run = ground arith

  create_run-IsBudgeted :
      all (below fresh.step) db.steps ≡ true
      → IsBudgeted db.steps
      → IsBudgeted (create_run settings fresh q p a used_tokens db).1.steps
  create_run-IsBudgeted h b = elim steps-create_run [
    | inl same ↦ rw same b
    | inr longer ↦
        rw longer (rows-IsBudgeted status_of fresh.run fresh.step 1 p.plan.steps db.steps h b)
  ]

module _ (fresh : Fresh) (q : Clarification) (p : Planned) (db : Db) where
  steps-clarify_run :
      ((clarify_run fresh q p db).1.steps ≡ db.steps)
      ⊎ ((clarify_run fresh q p db).1.steps
          ≡ keep (of_other_run q.run_id) db.steps
            ++ step_rows pending_status q.run_id fresh.step 1 p.plan.steps)
  unfolding clarify_run keep_asking apply_clarification
  steps-clarify_run = ground arith

  clarify_run-IsBudgeted :
      all (below fresh.step) db.steps ≡ true
      → IsBudgeted db.steps
      → IsBudgeted (clarify_run fresh q p db).1.steps
  clarify_run-IsBudgeted h b = elim steps-clarify_run [
    | inl same ↦ rw same b
    | inr replaced ↦ rw replaced (
        rows-IsBudgeted pending_status q.run_id fresh.step 1 p.plan.steps _
          (all-keep (of_other_run q.run_id) (below fresh.step) db.steps h)
          (keep-IsBudgeted (of_other_run q.run_id) db.steps b))
  ]

-- What users and workers do to the tables, less the manual resume. The ids of steps that are
-- inserted are new: they are above those of the rows that stand.
pub data Automatic (db : Db) : Db → Type 0 where
  create :
      (settings : Settings) (fresh : Fresh) (q : Request) (p : Planned) (a : ExecutorAssignment)
      (used_tokens : ℕ)
      → all (below fresh.step) db.steps ≡ true
      → Automatic db (create_run settings fresh q p a used_tokens db).1
  clarify :
      (fresh : Fresh) (q : Clarification) (p : Planned)
      → all (below fresh.step) db.steps ≡ true
      → Automatic db (clarify_run fresh q p db).1
  claim : (w : Worker) → Automatic db (claim_run w db).1
  start : (run_id : ℕ) → Automatic db (record db { steps = (claim_step run_id db.steps).1 })
  report : (step_id : ℕ) (r : Report) → Automatic db (write_back step_id r db)
  fail :
      (now : ℕ) (r : Run) (category error : String)
      → Automatic db (fail_run now r category error db)
  close : (now : ℕ) (r : Run) → Automatic db (close_run now r db)
  decide : (ctx : Context) (d : Decision) → Automatic db (decide_run ctx d db).1
  cancel : (now run_id : ℕ) (user_id : String) → Automatic db (cancel_run now run_id user_id db).1

pub data Reach (db : Db) : Db → Type 0 where
  here : Reach db db
  next : {mid last : Db} → Reach db mid → Automatic mid last → Reach db last

steps-close_run : (now : ℕ) (r : Run) (db : Db) → (close_run now r db).steps ≡ db.steps
unfolding close_run
steps-close_run now r db = ground arith

Automatic-IsBudgeted :
    {db last : Db} → Automatic db last → IsBudgeted db.steps → IsBudgeted last.steps
Automatic-IsBudgeted {db} (create settings fresh q p a used_tokens h) b =
    create_run-IsBudgeted settings fresh q p a used_tokens db h b
Automatic-IsBudgeted {db} (clarify fresh q p h) b = clarify_run-IsBudgeted fresh q p db h b
Automatic-IsBudgeted {db} (claim w) b = claim_run-IsBudgeted w db b
Automatic-IsBudgeted {db} (start run_id) b = claim_step-IsBudgeted run_id db.steps b
Automatic-IsBudgeted {db} (report step_id r) b = write_back-IsBudgeted step_id r db b
Automatic-IsBudgeted {db} (fail now r category error) b =
    fail_run-IsBudgeted now r category error db b
Automatic-IsBudgeted {db} (close now r) b = rw (steps-close_run now r db) b
Automatic-IsBudgeted {db} (decide ctx d) b = decide_run-IsBudgeted ctx d db b
Automatic-IsBudgeted {db} (cancel now run_id user_id) b =
    rw (cancel_run-others now run_id user_id db).1 b

Reach-IsBudgeted : {db last : Db} → Reach db last → IsBudgeted db.steps → IsBudgeted last.steps
Reach-IsBudgeted here b = b
Reach-IsBudgeted (next r s) b = Automatic-IsBudgeted s (Reach-IsBudgeted r b)

budget-once :
    (steps : List Step)
    → all within_budget steps ≡ true
    → all (λ s. s.read_only || leb s.attempt_count 1) steps ≡ true
budget-once [] h = refl
budget-once (s ∷ steps) h = ground (arith, budget-once steps)

-- From tables whose steps are within their attempt budgets, no interleaving of creations,
-- clarifications, claims, step starts, write-backs, failures, closings, decisions and cancellations,
-- by any number of users and workers, starts a write a second time: every step that is not a read
-- has at most one attempt.
pub write_at_most_once :
    (db last : Db)
    → IsBudgeted db.steps
    → Reach db last
    → all (λ s. s.read_only || leb s.attempt_count 1) last.steps ≡ true
write_at_most_once db last b r = budget-once last.steps (Reach-IsBudgeted r b).within
