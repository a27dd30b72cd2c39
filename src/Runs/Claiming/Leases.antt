-- ===== src/Runs/Claiming/Leases.antt =====
-- What a claim that hands a run out is.
use mathlib.Core.List.{Memᴰ}
use google_connector_app.Prelude.{
  ◌≡◌, refl, sym, ap, ◌∙◌, Bool, true, false, none, some, List, [], ◌∷◌, arith, all, keep,
  Option-cases, Bool-cases, inl, inr, ◌⊎◌, update_where, mem-keep, nonempty,
}
use google_connector_app.Runs.{Db, Run, Step, is_queued}
use google_connector_app.Runs.Claiming.{
  Worker, idle, misconfigured, claimed, least, is_claimable, is_interrupted, may_repeat, lease,
  leased_run, requeue_reads, claim_row, claim_run, known_role, has_run_id, queued_time,
}
use google_connector_app.Runs.Claiming.Ready.{least-mem}

pub claim_run-row :
    (w : Worker) (db : Db) (r : Run)
    → known_role w ≡ true
    → least queued_time (keep (is_claimable w) db.runs) ≡ some r
    → claim_run w db ≡ claim_row w r db
unfolding claim_run
claim_run-row w db r known h = rw (known, h, claim_run)

pub claim_run-idle :
    (w : Worker) (db : Db)
    → known_role w ≡ true
    → least queued_time (keep (is_claimable w) db.runs) ≡ none
    → claim_run w db ≡ (idle, db)
unfolding claim_run
claim_run-idle w db known h = rw (known, h, claim_run)

pub claim_run-refused :
    (w : Worker) (db : Db) → known_role w ≡ false → claim_run w db ≡ (misconfigured, db)
unfolding claim_run
claim_run-refused w db h = ground arith

-- How a claim came about: the row, what its steps were, and the lease that was written.
pub record IsLeased (w : Worker) (db : Db) (r' : Run) (db' : Db) : Type 0 where
  pub row : Run
  pub stored : Memᴰ row db.runs
  pub was_claimable : is_claimable w row ≡ true
  pub result : r' ≡ leased_run w row
  pub runs : db'.runs ≡ update_where (has_run_id row.id) (leased_run w) db.runs
  pub steps_safe :
      (is_queued row.status ≡ true)
      ⊎ (all may_repeat (keep (is_interrupted row.id) db.steps) ≡ true)

all-empty : (p : Step → Bool) (xs : List Step) → nonempty xs ≡ false → all p xs ≡ true
all-empty p [] h = refl
all-empty p (x ∷ xs) h = cc

module _ (w : Worker) (r : Run) (db : Db) (r' : Run) (e : (claim_row w r db).0 ≡ claimed r') where
  row-result : r' ≡ leased_run w r
  unfolding claim_row
  row-result = ground arith

  row-runs : (claim_row w r db).1.runs ≡ update_where (has_run_id r.id) (leased_run w) db.runs
  unfolding claim_row lease requeue_reads
  row-runs = ground arith

  row-steps :
      is_claimable w r ≡ true
      → (is_queued r.status ≡ true) ⊎ (all may_repeat (keep (is_interrupted r.id) db.steps) ≡ true)
  unfolding claim_row
  row-steps h = ground (arith, all-empty may_repeat (keep (is_interrupted r.id) db.steps))

-- A run that is handed out was stored, available to this worker and unlocked; it comes back with
-- this worker's lease, which is what the table then holds; and if it was taken over from an expired
-- lease, each step that was left running is a read with an attempt left.
pub claim_run-IsLeased :
    (w : Worker) (db : Db) (r' : Run)
    → (claim_run w db).0 ≡ claimed r'
    → IsLeased w db r' (claim_run w db).1
claim_run-IsLeased w db r' h = elim (Bool-cases (known_role w)) [
  | inr unknown ↦ cc (ap (λ c. c.0) (claim_run-refused w db unknown))
  | inl known ↦ elim (Option-cases (least queued_time (keep (is_claimable w) db.runs))) [
    | inl nothing ↦ cc (ap (λ c. c.0) (claim_run-idle w db known nothing))
    | inr (r, found) ↦
        let here = claim_run-row w db r known found in
        let (m, t) = mem-keep (is_claimable w) db.runs r (least-mem queued_time _ r found) in
        let e : (claim_row w r db).0 ≡ claimed r' = ap (λ c. c.0) (sym here) ∙ h in
        rw here (record {
          row = r;
          stored = m;
          was_claimable = t;
          result = row-result w r db r' e;
          runs = row-runs w r db r' e;
          steps_safe = row-steps w r db r' e t;
        })
  ]
]
