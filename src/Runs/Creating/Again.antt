-- ===== src/Runs/Creating/Again.antt =====
-- Creating a run is idempotent in its key, and what is created can be approved.
use google_connector_app.Prelude.{
  ℕ, ◌≡◌, refl, sym, ap, ◌∙◌, Bool, true, false, none, some, List, [], ◌∷◌, ◌++◌, arith, find, inl,
  inr, Option-cases, Bool-cases, ltb, eq→str_eq,
}
use google_connector_app.Routing.{ExecutorAssignment}
use google_connector_app.Runs.{Db, Run}
use google_connector_app.Runs.Creating.{
  Settings, Fresh, Request, Planned, existing, created, refused, request_too_long,
  has_idempotency_key, create_run, create_new, insert_run, insert_invalid,
}

find-append-none {ℓ} :
    {A : Type ℓ} (p : A → Bool) (xs : List A) (a : A)
    → find p xs ≡ none
    → p a ≡ true
    → find p (xs ++ a ∷ []) ≡ some a
find-append-none p [] a h t = ground arith
find-append-none p (x ∷ xs) a h t = ground (arith, find-append-none p xs a)

module _ (settings : Settings) (fresh : Fresh) (q : Request) (p : Planned) (a : ExecutorAssignment)
    (used_tokens : ℕ) (db : Db) where
  create-existing :
      (r : Run)
      → ltb settings.max_request_chars q.chars ≡ false
      → find (has_idempotency_key q.user_id q.key) db.runs ≡ some r
      → create_run settings fresh q p a used_tokens db ≡ (existing r, db)
  unfolding create_run
  create-existing r short h = rw (short, h, create_run)

  create-too_long :
      ltb settings.max_request_chars q.chars ≡ true
      → create_run settings fresh q p a used_tokens db ≡ (refused request_too_long, db)
  unfolding create_run
  create-too_long long = rw (long, create_run)

  create-absent :
      ltb settings.max_request_chars q.chars ≡ false
      → find (has_idempotency_key q.user_id q.key) db.runs ≡ none
      → create_run settings fresh q p a used_tokens db
        ≡ create_new settings fresh q p a used_tokens db
  unfolding create_run
  create-absent short h = rw (short, h, create_run)

  new-row :
      (r : Run)
      → (create_new settings fresh q p a used_tokens db).0 ≡ created r
      → ((create_new settings fresh q p a used_tokens db).1.runs ≡ db.runs ++ r ∷ [])
        × (r.user_id ≡ q.user_id)
        × (r.idempotency_key ≡ q.key)
  unfolding create_new insert_run insert_invalid
  new-row r h = ground arith

  created-row :
      (r : Run)
      → (create_run settings fresh q p a used_tokens db).0 ≡ created r
      → find
          (has_idempotency_key q.user_id q.key)
          (create_run settings fresh q p a used_tokens db).1.runs
        ≡ some r
  created-row r h = elim (Bool-cases (ltb settings.max_request_chars q.chars)) [
    | inl long ↦ cc (ap (λ c. c.0) (create-too_long long))
    | inr short ↦ elim (Option-cases (find (has_idempotency_key q.user_id q.key) db.runs)) [
      | inr (s, found) ↦ cc (ap (λ c. c.0) (create-existing s short found))
      | inl absent ↦
          let e = create-absent short absent in
          let (runs, user, key) = new-row r (sym (ap (λ c. c.0) e) ∙ h) in
          let t : has_idempotency_key q.user_id q.key r ≡ true =
            rw (eq→str_eq _ _ user, eq→str_eq _ _ key) refl in
          rw (e, runs) (find-append-none _ db.runs r absent t)
    ]
  ]

-- Creating is idempotent: after a run was created for a user's key, every further request of the
-- user with that key that is not too long returns that run and changes nothing, whatever its plan,
-- the limits and the assignment are by then.
pub create_run-again :
    (settings settings' : Settings) (fresh fresh' : Fresh) (q q' : Request) (p p' : Planned)
    (a a' : ExecutorAssignment) (used_tokens used_tokens' : ℕ) (db : Db) (r : Run)
    → (create_run settings fresh q p a used_tokens db).0 ≡ created r
    → q'.user_id ≡ q.user_id
    → q'.key ≡ q.key
    → ltb settings'.max_request_chars q'.chars ≡ false
    → let db' = (create_run settings fresh q p a used_tokens db).1 in
      create_run settings' fresh' q' p' a' used_tokens' db' ≡ (existing r, db')
create_run-again settings settings' fresh fresh' q q' p p' a a' used_tokens used_tokens' db r h user
      key short =
    create-existing settings' fresh' q' p' a' used_tokens'
      (create_run settings fresh q p a used_tokens db).1 r short
      (rw (user, key) (created-row settings fresh q p a used_tokens db r h))
