-- ===== src/Runs/Finishing/Holding.antt =====
-- A claim is exclusive while its lease runs, whatever others do meanwhile.
use google_connector_app.Prelude.{
  ℕ, ◌+◌, ◌≤◌, String, ◌≡◌, ◌≢◌, refl, sym, ap, ◌∙◌, true, List, [], ◌∷◌, arith, all, update_where,
  all-mem,
}
use google_connector_app.Routing.{ExecutorAssignment}
use google_connector_app.Runs.{Db, Run}
use google_connector_app.Runs.Claiming.{
  Worker, claimed, lease, claim_run, claim_step, has_run_id, leased_run,
}
use google_connector_app.Runs.Claiming.Leases.{claim_run-IsLeased}
use google_connector_app.Runs.Creating.{Settings, Fresh, Request, Planned, create_run}
use google_connector_app.Runs.Clarifying.{Clarification, clarify_run}
use google_connector_app.Runs.Deciding.{Context, Decision, decide_run, cancel_run}
use google_connector_app.Runs.Finishing.{Report, write_back, fail_run, close_run}
use google_connector_app.Runs.Finishing.Held.{
  is_held, claimable-other, update-held, claim_run-held, fail_run-IsUpdate, close_run-IsUpdate,
  create_run-held, clarify_run-held, decide_run-held, cancel_run-held,
}

-- What may happen to the tables until the lease of a run expires, but for what ends its execution
-- and for its owner's answers to questions and approvals of it: claims by any workers, and
-- whatever concerns other runs, and its cancellation.
pub data Meanwhile (id deadline : ℕ) (db : Db) : Db → Type 0 where
  create :
      (settings : Settings) (fresh : Fresh) (q : Request) (p : Planned) (a : ExecutorAssignment)
      (used_tokens : ℕ)
      → fresh.run ≢ id
      → Meanwhile id deadline db (create_run settings fresh q p a used_tokens db).1
  clarify :
      (fresh : Fresh) (q : Clarification) (p : Planned)
      → q.run_id ≢ id
      → Meanwhile id deadline db (clarify_run fresh q p db).1
  claim : (w : Worker) → w.now ≤ deadline → Meanwhile id deadline db (claim_run w db).1
  start :
      (run_id : ℕ) → Meanwhile id deadline db (record db { steps = (claim_step run_id db.steps).1 })
  report : (step_id : ℕ) (r : Report) → Meanwhile id deadline db (write_back step_id r db)
  fail :
      (now : ℕ) (r : Run) (category error : String)
      → r.id ≢ id
      → Meanwhile id deadline db (fail_run now r category error db)
  close : (now : ℕ) (r : Run) → r.id ≢ id → Meanwhile id deadline db (close_run now r db)
  decide :
      (ctx : Context) (d : Decision)
      → d.run_id ≢ id
      → Meanwhile id deadline db (decide_run ctx d db).1
  cancel :
      (now run_id : ℕ) (user_id : String)
      → Meanwhile id deadline db (cancel_run now run_id user_id db).1

pub data Reach (id deadline : ℕ) (db : Db) : Db → Type 0 where
  here : Reach id deadline db db
  next :
      {mid last : Db}
      → Reach id deadline db mid
      → Meanwhile id deadline mid last
      → Reach id deadline db last

module _ (id deadline : ℕ) where
  Meanwhile-held :
      {db last : Db}
      → Meanwhile id deadline db last
      → all (is_held id deadline) db.runs ≡ true
      → all (is_held id deadline) last.runs ≡ true
  unfolding write_back
  Meanwhile-held {db} (create settings fresh q p a used_tokens other) h =
      create_run-held id deadline settings fresh q p a used_tokens db other h
  Meanwhile-held {db} (clarify fresh q p other) h =
      clarify_run-held id deadline fresh q p db other h
  Meanwhile-held {db} (claim w early) h = claim_run-held id deadline w db early h
  Meanwhile-held {db} (start run_id) h = h
  Meanwhile-held {db} (report step_id r) h = h
  Meanwhile-held {db} (fail now r category error other) h =
      update-held id deadline r.id db.runs _ other
        (fail_run-IsUpdate id deadline now r category error db) h
  Meanwhile-held {db} (close now r other) h =
      update-held id deadline r.id db.runs _ other (close_run-IsUpdate id deadline now r db) h
  Meanwhile-held {db} (decide ctx d other) h = decide_run-held id deadline ctx d db other h
  Meanwhile-held {db} (cancel now run_id user_id) h =
      cancel_run-held id deadline now run_id user_id db h

  Reach-held :
      {db last : Db}
      → Reach id deadline db last
      → all (is_held id deadline) db.runs ≡ true
      → all (is_held id deadline) last.runs ≡ true
  Reach-held here h = h
  Reach-held (next r m) h = Meanwhile-held m (Reach-held r h)

-- The lease that a claim writes holds the run.
leased-held :
    (w : Worker) (id deadline : ℕ) (runs : List Run)
    → deadline ≤ w.now + w.lease_seconds
    → all (is_held id deadline) (update_where (has_run_id id) (leased_run w) runs) ≡ true
leased-held w id deadline [] h = refl
leased-held w id deadline (r ∷ runs) h = ground (arith, leased-held w id deadline runs h)

-- After a claim has handed a run out, and until its lease expires, no worker is handed that run
-- again, in whatever order the tables are changed in between by claims of any workers before that
-- time, by started and reported steps, by cancellations, also of the run itself, and by creations,
-- clarifications, decisions, failures and closings of other runs. The run's own failure or closing,
-- which its worker writes when the execution ends, is not among these, nor an answer to it.
pub claim_run-exclusive :
    (w v : Worker) (db last : Db) (r s : Run) (deadline : ℕ)
    → (claim_run w db).0 ≡ claimed r
    → deadline ≤ w.now + w.lease_seconds
    → Reach r.id deadline (claim_run w db).1 last
    → v.now ≤ deadline
    → (claim_run v last).0 ≡ claimed s
    → s.id ≢ r.id
claim_run-exclusive w v db last r s deadline h lease meanwhile early again =
    let first = claim_run-IsLeased w db r h in
    let old_id : r.id ≡ first.row.id = ap (λ (x : Run). x.id) first.result in
    let held : all (is_held r.id deadline) (claim_run w db).1.runs ≡ true =
      rw (first.runs, old_id) (leased-held w first.row.id deadline db.runs lease) in
    let second = claim_run-IsLeased v last s again in
    let new_id : s.id ≡ second.row.id = ap (λ (x : Run). x.id) second.result in
    let other =
      claimable-other r.id deadline v second.row early
        (all-mem (is_held r.id deadline) last.runs second.row
          (Reach-held r.id deadline meanwhile held) second.stored)
        second.was_claimable in
    λ same. other (sym new_id ∙ same)
