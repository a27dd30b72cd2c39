-- ===== src/Runs/Finishing/Held.antt =====
-- A run that is held by a lease: what each operation on other runs, and a claim before the lease
-- expires, leaves of that.
use google_connector_app.Prelude.{
  ℕ, ◌≤◌, String, ◌≡◌, ◌≢◌, refl, Bool, true, false, not, ◌&&◌, ◌||◌, none, some, List, [], ◌∷◌,
  ◌++◌, arith, all, any, keep, update_where, Option-cases, Bool-cases, inl, inr, leb, ◌==◌,
  mem-keep, all-mem, all-append, all-update_where_keeps, nonempty, &&-left,
}
use google_connector_app.Routing.{ExecutorAssignment}
use google_connector_app.Runs.{Db, Run, Step, is_running, is_cancelled}
use google_connector_app.Runs.Claiming.{
  Worker, least, is_claimable, lease, give_up, requeue_reads, claim_row, claim_run, known_role,
  has_run_id, queued_time, leased_run, given_up_run, is_interrupted, may_repeat, failed_step,
  interruption_category, interruption_error, of_run, sequence_of,
}
use google_connector_app.Runs.Claiming.Ready.{least-mem}
use google_connector_app.Runs.Claiming.Leases.{claim_run-row, claim_run-idle, claim_run-refused}
use google_connector_app.Runs.Creating.{
  Settings, Fresh, Request, Planned, create_run, create_new, insert_run, insert_invalid, new_run,
  invalid_run,
}
use google_connector_app.Runs.Clarifying.{
  Clarification, clarify_run, keep_asking, apply_clarification, has_id, still_open, clarified_run,
}
use google_connector_app.Runs.Deciding.{
  Context, Decision, decide_run, decide_with, apply_decision, expire_approval, is_own_run,
  decided_run, cancel_run, may_cancel, cancelled_run,
}
use google_connector_app.Runs.Finishing.{
  fail_run, close_run, is_retryable, retried_run, failed_run, completed_run, partial_run,
  unresolved_steps,
}

-- The lease runs until `deadline` at least.
abbrev pub leased_until : ℕ → Run → Bool
leased_until deadline r = elim r.lease_expires_at [ none ↦ false | some t ↦ leb deadline t ]

-- Every row of the run has been cancelled, or is running under such a lease.
abbrev pub is_held : ℕ → ℕ → Run → Bool
is_held id deadline r =
    not (r.id == id) || is_cancelled r.status || is_running r.status && leased_until deadline r

decided-same : (ctx : Context) (approved : Bool) (r : Run) → (decided_run ctx approved r).id ≡ r.id
decided-same ctx true r = refl
decided-same ctx false r = refl

module _ (id deadline : ℕ) where
  -- An update of other runs.
  others-held :
      (p : Run → Bool) (f : Run → Run)
      → ((r : Run) → p r ≡ true → r.id ≢ id)
      → ((r : Run) → (f r).id ≡ r.id)
      → (runs : List Run) → all (is_held id deadline) runs ≡ true
      → all (is_held id deadline) (update_where p f runs) ≡ true
  others-held p f other same = all-update_where_keeps p f (is_held id deadline) (λ r t h.
      let differ = other r t in
      let e : ((f r).id == id) ≡ false = rw (same r) (ground arith) in rw e refl)

  other_rows : (k : ℕ) → k ≢ id → (r : Run) → has_run_id k r ≡ true → r.id ≢ id
  other_rows k h r t = ground arith

  -- A row that a worker may claim before the deadline is no held one.
  pub claimable-other :
      (w : Worker) (r : Run)
      → w.now ≤ deadline
      → is_held id deadline r ≡ true
      → is_claimable w r ≡ true
      → r.id ≢ id
  claimable-other w r h k c e = ground arith

  -- A table of runs in which only the rows of another run were updated.
  pub record IsUpdate (k : ℕ) (runs runs' : List Run) : Type 0 where
    pub change : Run → Run
    pub same_id : (r : Run) → (change r).id ≡ r.id
    pub updated : runs' ≡ update_where (has_run_id k) change runs

  pub update-held :
      (k : ℕ) (runs runs' : List Run)
      → k ≢ id
      → IsUpdate k runs runs'
      → all (is_held id deadline) runs ≡ true
      → all (is_held id deadline) runs' ≡ true
  update-held k runs runs' h u a =
      rw u.updated (others-held (has_run_id k) u.change (other_rows k h) u.same_id runs a)

  claim_row-IsUpdate :
      (w : Worker) (r : Run) (db : Db) → IsUpdate r.id db.runs (claim_row w r db).1.runs
  unfolding claim_row lease give_up requeue_reads
  claim_row-IsUpdate w r db =
      let rows = keep (is_interrupted r.id) db.steps in
      elim (Bool-cases (is_running r.status && nonempty rows)) [
        | inr calm ↦ record { change = leased_run w; same_id = λ x. refl; updated = ground arith }
        | inl busy ↦ elim (Bool-cases (all may_repeat rows)) [
          | inl safe ↦ record { change = leased_run w; same_id = λ x. refl; updated = ground arith }
          | inr unsafe ↦
              let write = any (λ (s : Step). not s.read_only) rows in
              let steps' =
                update_where (is_interrupted r.id)
                  (failed_step (interruption_category write) (interruption_error write)) db.steps in
              record {
                change = given_up_run w.now write (keep (of_run r.id) steps');
                same_id = λ x. refl;
                updated = ground arith;
              }
        ]
      ]

  pub claim_run-held :
      (w : Worker) (db : Db)
      → w.now ≤ deadline
      → all (is_held id deadline) db.runs ≡ true
      → all (is_held id deadline) (claim_run w db).1.runs ≡ true
  claim_run-held w db early h = elim (Bool-cases (known_role w)) [
    | inr unknown ↦ rw (claim_run-refused w db unknown) h
    | inl known ↦ elim (Option-cases (least queued_time (keep (is_claimable w) db.runs))) [
      | inl nothing ↦ rw (claim_run-idle w db known nothing) h
      | inr (r, found) ↦
          let (m, t) = mem-keep (is_claimable w) db.runs r (least-mem queued_time _ r found) in
          let other = claimable-other w r early (all-mem (is_held id deadline) db.runs r h m) t in
          rw (claim_run-row w db r known found)
            (update-held r.id db.runs _ other (claim_row-IsUpdate w r db) h)
    ]
  ]

  pub fail_run-IsUpdate :
      (now : ℕ) (r : Run) (category error : String) (db : Db)
      → IsUpdate r.id db.runs (fail_run now r category error db).runs
  unfolding fail_run
  fail_run-IsUpdate now r category error db =
      elim (Bool-cases (is_retryable category (keep (is_interrupted r.id) db.steps))) [
        | inl again ↦ record {
          change = retried_run category error;
          same_id = λ x. refl;
          updated = ground arith;
        }
        | inr over ↦
            let steps' = update_where (is_interrupted r.id) (failed_step category error) db.steps in
            record {
              change = failed_run now category error (keep (of_run r.id) steps');
              same_id = λ x. refl;
              updated = ground arith;
            }
      ]

  pub close_run-IsUpdate :
      (now : ℕ) (r : Run) (db : Db) → IsUpdate r.id db.runs (close_run now r db).runs
  unfolding close_run
  close_run-IsUpdate now r db =
      let steps = keep (of_run r.id) db.steps in
      elim (Option-cases (least sequence_of (unresolved_steps steps))) [
        | inl nothing ↦ record {
          change = completed_run now steps;
          same_id = λ x. refl;
          updated = ground arith;
        }
        | inr (first, found) ↦ record {
          change = partial_run now steps first;
          same_id = λ x. refl;
          updated = ground arith;
        }
      ]

  snoc-held :
      (runs : List Run) (r : Run)
      → r.id ≢ id
      → all (is_held id deadline) runs ≡ true
      → all (is_held id deadline) (runs ++ r ∷ []) ≡ true
  snoc-held runs r h a =
      all-append (is_held id deadline) runs (r ∷ []) a
        (let e : (r.id == id) ≡ false = ground arith in rw e refl)

  pub create_run-held :
      (settings : Settings) (fresh : Fresh) (q : Request) (p : Planned) (a : ExecutorAssignment)
      (used_tokens : ℕ) (db : Db)
      → fresh.run ≢ id
      → all (is_held id deadline) db.runs ≡ true
      → all (is_held id deadline) (create_run settings fresh q p a used_tokens db).1.runs ≡ true
  unfolding create_run create_new insert_run insert_invalid
  create_run-held settings fresh q p a used_tokens db h k = ground (
    arith,
    snoc-held db.runs (new_run fresh q p a) h k,
    snoc-held db.runs (invalid_run settings fresh q p) h k,
  )

  pub clarify_run-held :
      (fresh : Fresh) (q : Clarification) (p : Planned) (db : Db)
      → q.run_id ≢ id
      → all (is_held id deadline) db.runs ≡ true
      → all (is_held id deadline) (clarify_run fresh q p db).1.runs ≡ true
  unfolding clarify_run keep_asking apply_clarification
  clarify_run-held fresh q p db h k = ground (
    arith,
    others-held (has_id q.run_id) (still_open p) (other_rows q.run_id h) (λ x. refl) db.runs k,
    others-held (has_id q.run_id) (clarified_run q p) (other_rows q.run_id h) (λ x. refl) db.runs k,
  )

  pub decide_run-held :
      (ctx : Context) (d : Decision) (db : Db)
      → d.run_id ≢ id
      → all (is_held id deadline) db.runs ≡ true
      → all (is_held id deadline) (decide_run ctx d db).1.runs ≡ true
  unfolding decide_run decide_with apply_decision expire_approval
  decide_run-held ctx d db h k = ground (
    arith,
    others-held (is_own_run d.run_id d.user_id) (decided_run ctx d.approved)
        (λ r t. other_rows d.run_id h r (&&-left _ _ t)) (decided-same ctx d.approved) db.runs k,
  )

  pub cancel_run-held :
      (now run_id : ℕ) (user_id : String) (db : Db)
      → all (is_held id deadline) db.runs ≡ true
      → all (is_held id deadline) (cancel_run now run_id user_id db).1.runs ≡ true
  unfolding cancel_run
  cancel_run-held now run_id user_id db h = ground (
    arith,
    all-update_where_keeps (may_cancel run_id user_id) (cancelled_run now) (is_held id deadline)
        (λ r t k. ground arith) db.runs h,
  )
