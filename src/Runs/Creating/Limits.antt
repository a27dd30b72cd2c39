-- ===== src/Runs/Creating/Limits.antt =====
-- The cap on a user's active runs, whatever creations overlap.
use google_connector_app.Prelude.{
  ℕ, zero, suc, ◌+◌, ◌≤◌, ◌<◌, String, ◌≡◌, refl, ap, Bool, true, false, none, some, List, [], ◌∷◌,
  ◌++◌, arith, inl, inr, any, count_where, update_where, str_eq, str_eq→eq, eq→==, nonempty,
  Bool-cases, Option-cases, if◌then◌else◌,
}
use google_connector_app.Routing.{ExecutorAssignment}
use google_connector_app.Runs.{Db, Run}
use google_connector_app.Runs.Deciding.{cancel_run, may_cancel, cancelled_run}
use google_connector_app.Runs.Creating.{
  Settings, Fresh, Request, Planned, is_active_of, is_global_active, new_run, invalid_run,
  admission, mismatches, create_new, insert_run, insert_invalid, has_idempotency_key,
}
use google_connector_app.Runs.Creating.Locking.{
  Opened, Creations, has_lock, lock_free, admit, taken, commit_one, commit,
}

count-snoc :
    (p : Run → Bool) (xs : List Run) (r : Run)
    → count_where p (xs ++ r ∷ []) ≡ count_where p xs + (if p r then 1 else 0)
count-snoc p [] r = ground arith
count-snoc p (x ∷ xs) r = ground (arith, count-snoc p xs r)

abbrev opened_by : String → Opened → Bool
opened_by user o = str_eq o.request.user_id user

abbrev active_of : String → Creations → ℕ
active_of user c = count_where (is_active_of user) c.db.runs

-- The user's active runs, and those that the user's open transactions are about to insert.
abbrev load_of : String → Creations → ℕ
load_of user c = active_of user c + count_where (opened_by user) c.opened

-- What happens to the tables and the open transactions.
pub data Creating (hashtext : String → ℕ) (settings : Settings) (c : Creations)
    : Creations → Type 0 where
  admit_one :
      (fresh : Fresh) (q : Request) (p : Planned) (a : ExecutorAssignment) (used_tokens : ℕ)
      → Creating hashtext settings c (admit hashtext settings fresh q p a used_tokens c).1
  commit_at : (n : ℕ) → Creating hashtext settings c (commit n c)
  insert_failed :
      (fresh : Fresh) (q : Request) (p : Planned)
      → Creating hashtext settings c (record c { db = insert_invalid settings fresh q p c.db })
  cancel :
      (now run_id : ℕ) (user_id : String)
      → Creating hashtext settings c (record c { db = (cancel_run now run_id user_id c.db).1 })

pub data Reach (hashtext : String → ℕ) (settings : Settings) (c : Creations)
    : Creations → Type 0 where
  here : Reach hashtext settings c c
  next :
      {mid last : Creations}
      → Reach hashtext settings c mid
      → Creating hashtext settings mid last
      → Reach hashtext settings c last

-- A free lock: the user has no open transaction.
lock_free-none :
    (hashtext : String → ℕ) (user : String) (opened : List Opened)
    → any (has_lock hashtext user) opened ≡ false
    → count_where (opened_by user) opened ≡ 0
lock_free-none hashtext user [] h = refl
lock_free-none hashtext user (o ∷ opened) h = elim (Bool-cases (opened_by user o)) [
  | inl own ↦
      let same : o.request.user_id ≡ user = str_eq→eq _ _ own in
      let hit : has_lock hashtext user o ≡ true = eq→== _ _ (ap hashtext same) in cc
  | inr other ↦
      let rest : any (has_lock hashtext user) opened ≡ false = ground arith in
      rw other (ground (arith, lock_free-none hashtext user opened rest))
]

taken-count :
    (user : String) (n : ℕ) (opened : List Opened) (o : Opened) (rest : List Opened)
    → taken n opened ≡ some (o, rest)
    → count_where (opened_by user) opened
      ≡ (if opened_by user o then 1 else 0) + count_where (opened_by user) rest
unfolding taken
taken-count user n [] o rest h = cc
taken-count user zero (p ∷ opened) o rest h = ground arith
taken-count user (suc n) (p ∷ opened) o rest h = elim (Option-cases (taken n opened)) [
  | inl nothing ↦ ground arith
  | inr ((x, left), e) ↦ ground (arith, taken-count user n opened x left e)
]

module _ (hashtext : String → ℕ) (settings : Settings) (user : String) where
  admitted-below :
      (q : Request) (p : Planned) (used_tokens now : ℕ) (runs : List Run)
      → admission settings q p used_tokens now runs ≡ none
      → (count_where (is_active_of q.user_id) runs < settings.max_active_runs_per_user)
  unfolding admission
  admitted-below q p used_tokens now runs h = ground arith

  admit-load :
      (fresh : Fresh) (q : Request) (p : Planned) (a : ExecutorAssignment) (used_tokens : ℕ)
      (c : Creations)
      → load_of user c ≤ settings.max_active_runs_per_user
      → load_of user (admit hashtext settings fresh q p a used_tokens c).1
        ≤ settings.max_active_runs_per_user
  unfolding admit lock_free
  admit-load fresh q p a used_tokens c h = elim (Bool-cases (str_eq q.user_id user)) [
    | inr other ↦ ground arith
    | inl own ↦
        let same : q.user_id ≡ user = str_eq→eq _ _ own in
        ground (
          arith,
          same,
          lock_free-none hashtext q.user_id c.opened,
          admitted-below q p used_tokens fresh.now c.db.runs,
        )
  ]

  commit_one-load :
      (o : Opened) (rest : List Opened) (db : Db)
      → load_of user (commit_one o rest db)
        ≤ count_where (is_active_of user) db.runs
          + ((if opened_by user o then 1 else 0) + count_where (opened_by user) rest)
  unfolding commit_one insert_run
  commit_one-load o rest db = ground (
    arith,
    count-snoc (is_active_of user) db.runs (new_run o.fresh o.request o.planned o.assignment),
  )

  commit-load : (n : ℕ) (c : Creations) → load_of user (commit n c) ≤ load_of user c
  unfolding commit
  commit-load n c = elim (Option-cases (taken n c.opened)) [
    | inl nothing ↦ rw (nothing, commit) (omega arith)
    | inr ((o, rest), e) ↦
        rw (e, commit)
          (omega (arith, commit_one-load o rest c.db, taken-count user n c.opened o rest e))
  ]

  failed-load :
      (fresh : Fresh) (q : Request) (p : Planned) (c : Creations)
      → active_of user (record c { db = insert_invalid settings fresh q p c.db }) ≡ active_of user c
  unfolding insert_invalid
  failed-load fresh q p c =
      ground (arith, count-snoc (is_active_of user) c.db.runs (invalid_run settings fresh q p))

  cancelled-le :
      (now run_id : ℕ) (owner : String) (runs : List Run)
      → count_where
          (is_active_of user)
          (update_where (may_cancel run_id owner) (cancelled_run now) runs)
        ≤ count_where (is_active_of user) runs
  cancelled-le now run_id owner [] = omega arith
  cancelled-le now run_id owner (r ∷ runs) = ground (arith, cancelled-le now run_id owner runs)

  cancel-load :
      (now run_id : ℕ) (owner : String) (c : Creations)
      → load_of user (record c { db = (cancel_run now run_id owner c.db).1 }) ≤ load_of user c
  unfolding cancel_run
  cancel-load now run_id owner c = ground (arith, cancelled-le now run_id owner c.db.runs)

  Creating-load :
      {c last : Creations}
      → Creating hashtext settings c last
      → load_of user c ≤ settings.max_active_runs_per_user
      → load_of user last ≤ settings.max_active_runs_per_user
  Creating-load {c} (admit_one fresh q p a used_tokens) h = admit-load fresh q p a used_tokens c h
  Creating-load {c} (commit_at n) h = omega (arith, commit-load n c)
  Creating-load {c} (insert_failed fresh q p) h = omega (arith, failed-load fresh q p c)
  Creating-load {c} (cancel now run_id owner) h = omega (arith, cancel-load now run_id owner c)

  Reach-load :
      {c last : Creations}
      → Reach hashtext settings c last
      → load_of user c ≤ settings.max_active_runs_per_user
      → load_of user last ≤ settings.max_active_runs_per_user
  Reach-load here h = h
  Reach-load (next r s) h = Creating-load s (Reach-load r h)

-- Whatever creations of any users overlap, and whatever cancellations come between: from tables in
-- which a user has no more active runs than the cap, and with no transaction open, the user's active
-- runs, and those that the user's open transactions may still insert, stay within the cap.
pub creations-IsCapped :
    (hashtext : String → ℕ) (settings : Settings) (user : String) (db : Db) (last : Creations)
    → count_where (is_active_of user) db.runs ≤ settings.max_active_runs_per_user
    → Reach hashtext settings (record { db = db; opened = [] }) last
    → count_where (is_active_of user) last.db.runs + count_where (opened_by user) last.opened
      ≤ settings.max_active_runs_per_user
creations-IsCapped hashtext settings user db last h r =
    Reach-load hashtext settings user r (omega arith)

-- A creation that no other overlaps: admitted and committed in one go, it is `create_new`.
pub commit-admit :
    (hashtext : String → ℕ) (settings : Settings) (fresh : Fresh) (q : Request) (p : Planned)
    (a : ExecutorAssignment) (used_tokens : ℕ) (db : Db)
    → nonempty p.errors ≡ false
    → any (has_idempotency_key q.user_id q.key) db.runs ≡ false
    → (commit 0
        (admit hashtext settings fresh q p a used_tokens (record { db = db; opened = [] })).1).db
      ≡ (create_new settings fresh q p a used_tokens db).1
unfolding admit lock_free commit taken commit_one create_new
commit-admit hashtext settings fresh q p a used_tokens db valid new_key =
    elim (Option-cases (admission settings q p used_tokens fresh.now db.runs)) [
      | inr (limit, refused) ↦ rw (valid, refused) refl
      | inl within ↦ elim (Bool-cases (mismatches q.required_executor_version a)) [
        | inl differs ↦ rw (valid, within, differs) refl
        | inr fits ↦ rw (valid, within, fits, new_key) refl
      ]
    ]

-- The cap on all active runs is not kept that way: the lock is one user's. Two transactions that are
-- open together, and whose runs are to be queued, were both counted without the other, and after
-- both commits there are two queued or running runs more.
pub global-overrun :
    (o p : Opened) (db : Db)
    → any (has_idempotency_key o.request.user_id o.request.key) db.runs ≡ false
    → any
        (has_idempotency_key p.request.user_id p.request.key)
        (insert_run o.fresh o.request o.planned o.assignment db).runs
      ≡ false
    → is_global_active (new_run o.fresh o.request o.planned o.assignment) ≡ true
    → is_global_active (new_run p.fresh p.request p.planned p.assignment) ≡ true
    → count_where is_global_active
        (commit 0 (commit 0 (record { db = db; opened = o ∷ p ∷ [] }))).db.runs
      ≡ count_where is_global_active db.runs + 2
unfolding commit taken commit_one insert_run
global-overrun o p db new_o new_p active_o active_p =
    let first =
      count-snoc is_global_active db.runs (new_run o.fresh o.request o.planned o.assignment) in
    let second =
      count-snoc is_global_active (db.runs ++ new_run o.fresh o.request o.planned o.assignment ∷ [])
        (new_run p.fresh p.request p.planned p.assignment) in
    rw (new_o, new_p) (ground arith)
