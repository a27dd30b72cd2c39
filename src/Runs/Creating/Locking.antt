-- ===== src/Runs/Creating/Locking.antt =====
-- Creations that overlap: the part of `create_run` of app/runs/repository.py from the lock on. The
-- advisory lock is on a number that PostgreSQL's `hashtext` makes of the user's id, and it is held
-- until the transaction ends, so that the creations of one user pass one after the other, and those
-- of others in between. A transaction sees the rows that were committed when it counts.
use google_connector_app.Prelude.{
  ℕ, zero, suc, String, Bool, not, Option, none, some, List, [], ◌∷◌, any, ◌==◌, if◌then◌else◌,
}
use google_connector_app.Routing.{ExecutorAssignment}
use google_connector_app.Runs.{Db}
use google_connector_app.Runs.Creating.{
  Settings, Fresh, Request, Planned, Limit, has_idempotency_key, admission, mismatches, insert_run,
}

-- A transaction that has passed the limits and has not committed.
pub record Opened : Type 0 where
  pub fresh : Fresh
  pub request : Request
  pub planned : Planned
  pub assignment : ExecutorAssignment

-- The committed tables, and the transactions that hold a lock.
pub record Creations : Type 0 where
  pub db : Db
  pub opened : List Opened

-- The lock is another transaction's, a limit refuses, the assignment differs, or the run may be
-- inserted.
pub data Admission : Type 0 where
  waiting mismatched admitted : Admission
  limited : Limit → Admission

abbrev pub has_lock : (String → ℕ) → String → Opened → Bool
has_lock hashtext user o = hashtext o.request.user_id == hashtext user

-- `pg_advisory_xact_lock(hashtext($1))` does not wait.
unfoldable pub lock_free : (String → ℕ) → String → List Opened → Bool
lock_free hashtext user opened = not (any (has_lock hashtext user) opened)

-- The lock, the counts and the assignment, for a plan that validates, once no run with the key was
-- found; that is not looked up again after the wait.
unfoldable pub admit :
    (String → ℕ)
    → Settings
    → Fresh
    → Request
    → Planned
    → ExecutorAssignment
    → ℕ
    → Creations
    → Admission × Creations
unfolding lock_free
admit hashtext settings fresh q p a used_tokens c =
    if not (lock_free hashtext q.user_id c.opened)
    then (waiting, c)
    else elim (admission settings q p used_tokens fresh.now c.db.runs) [
      | some limit ↦ (limited limit, c)
      | none ↦ if mismatches q.required_executor_version a then (mismatched, c) else (
        admitted,
        record c {
          opened = record { fresh = fresh; request = q; planned = p; assignment = a } ∷ c.opened;
        },
      )
    ]

-- The transaction at a place, and the others.
unfoldable pub taken : ℕ → List Opened → Option (Opened × List Opened)
taken n [] = none
taken zero (o ∷ opened) = some (o, opened)
taken (suc n) (o ∷ opened) = elim (taken n opened) [
  | none ↦ none
  | some (p, rest) ↦ some (p, o ∷ rest)
]

-- The inserts and the commit, which releases the lock; the unique index refuses a key that is
-- there by now, and the transaction is rolled back.
unfoldable pub commit_one : Opened → List Opened → Db → Creations
commit_one o rest db = record {
  db =
      if any (has_idempotency_key o.request.user_id o.request.key) db.runs
      then db
      else insert_run o.fresh o.request o.planned o.assignment db;
  opened = rest;
}

unfoldable pub commit : ℕ → Creations → Creations
unfolding taken commit_one
commit n c = elim (taken n c.opened) [ none ↦ c | some (o, rest) ↦ commit_one o rest c.db ]
