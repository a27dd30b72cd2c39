-- ===== src/Runs/Deciding/Outcomes.antt =====
-- What a decision needs, what it changes and what it leaves alone.
use mathlib.Core.List.{Memᴰ}
use google_connector_app.Prelude.{
  ℕ, ◌≤◌, ◌<◌, ◌≡◌, refl, sym, ◌∙◌, ap, Bool, true, false, not, ◌&&◌, none, some, List, [], ◌∷◌,
  arith, find, any, keep, update_where, count_where, str_eq, str_eq→eq, eq→==, Bool-cases,
  Option-cases, find-mem, keep-update_where_others, inl, inr, any-false→count, eq_iff, mem→any,
}
use google_connector_app.Runs.{Db, Run, RunStatus, Approval, is_undecided}
use google_connector_app.Runs.Deciding.{
  Decision, Context, is_requested, has_approval_id, is_own_run, record_decision, decided_run,
  next_status, apply_decision, expire_approval, decide_with, decide_run,
}

-- A pending approval that the decision answers, by its digest and in time.
pub record IsAnswered (ctx : Context) (d : Decision) (db : Db) : Type 0 where
  pub approval : Approval
  pub stored : Memᴰ approval db.approvals
  pub of_run : approval.run_id ≡ d.run_id
  pub of_user : approval.requested_from ≡ d.user_id
  pub undecided : is_undecided approval.status ≡ true
  pub same_action : approval.action_hash ≡ d.digest
  pub in_time : ctx.now < approval.expires_at

decide_with-some :
    (ctx : Context) (d : Decision) (a : Approval) (db : Db) (s : RunStatus)
    → (decide_with ctx d a db).0 ≡ some s
    → (str_eq a.action_hash d.digest ≡ true)
      × (ctx.now < a.expires_at)
      × (s ≡ next_status d.approved)
      × ((decide_with ctx d a db).1 ≡ apply_decision ctx d a db)
unfolding decide_with
decide_with-some ctx d a db s h = ground arith

module _ (ctx : Context) (d : Decision) (db : Db) where
  pub decide_run-found :
      (a : Approval)
      → find (is_requested d) db.approvals ≡ some a
      → decide_run ctx d db ≡ decide_with ctx d a db
  unfolding decide_run
  decide_run-found a h = rw (h, decide_run)

  pub decide_run-absent :
      find (is_requested d) db.approvals ≡ none → decide_run ctx d db ≡ (none, db)
  unfolding decide_run
  decide_run-absent h = rw (h, decide_run)

-- A decision counts only for a pending approval of that run, asked of that user, whose digest is
-- the one that was sent and which has not expired; it returns `queued` if it approves and
-- `cancelled` if not.
pub decide_run-IsAnswered :
    (ctx : Context) (d : Decision) (db : Db) (s : RunStatus)
    → (decide_run ctx d db).0 ≡ some s
    → IsAnswered ctx d db × (s ≡ next_status d.approved)
decide_run-IsAnswered ctx d db s h = elim (Option-cases (find (is_requested d) db.approvals)) [
  | inl nothing ↦ cc (ap (λ r. r.0) (decide_run-absent ctx d db nothing))
  | inr (a, found) ↦
      let (m, t) = find-mem (is_requested d) db.approvals a found in
      let here = ap (λ r. r.0) (decide_run-found ctx d db a found) in
      let (same, time, status, _) = decide_with-some ctx d a db s (sym here ∙ h) in
      (
        record {
          approval = a;
          stored = m;
          of_run = ground arith;
          of_user = str_eq→eq _ _ (ground arith);
          undecided = ground arith;
          same_action = str_eq→eq _ _ same;
          in_time = time;
        },
        status,
      )
]

-- A decision that does not count leaves the runs, their steps and their events as they were.
pub decide_run-none :
    (ctx : Context) (d : Decision) (db : Db)
    → (decide_run ctx d db).0 ≡ none
    → ((decide_run ctx d db).1.runs ≡ db.runs)
      × ((decide_run ctx d db).1.steps ≡ db.steps)
      × ((decide_run ctx d db).1.events ≡ db.events)
unfolding decide_run expire_approval
decide_run-none ctx d db h = ground arith

own_run_kept :
    (ctx : Context) (d : Decision) (r : Run)
    → is_own_run d.run_id d.user_id r ≡ true
    → is_own_run d.run_id d.user_id (decided_run ctx d.approved r) ≡ true
own_run_kept ctx d r h = ground arith

-- A decision, whatever it is, leaves every run of another id or of another user as it was.
pub decide_run-others :
    (ctx : Context) (d : Decision) (db : Db)
    → keep (λ r. not (is_own_run d.run_id d.user_id r)) (decide_run ctx d db).1.runs
      ≡ keep (λ r. not (is_own_run d.run_id d.user_id r)) db.runs
unfolding decide_run apply_decision expire_approval
decide_run-others ctx d db = ground (
  arith,
  keep-update_where_others (is_own_run d.run_id d.user_id) (decided_run ctx d.approved)
      (own_run_kept ctx d) db.runs,
)

-- The approval rows that a decision could use.
abbrev pub is_usable : Decision → Approval → Bool
is_usable d a = is_requested d a && str_eq a.action_hash d.digest

decided_unusable : (d : Decision) (a : Approval) → is_usable d (record_decision d a) ≡ false
decided_unusable d a = ground arith

still_unusable :
    (d : Decision) (id : ℕ) (xs : List Approval)
    → any (is_usable d) xs ≡ false
    → any (is_usable d) (update_where (has_approval_id id) (record_decision d) xs) ≡ false
still_unusable d id [] h = refl
still_unusable d id (x ∷ xs) h = ground (arith, decided_unusable d x, still_unusable d id xs)

usable_of :
    (d : Decision) (a : Approval)
    → is_requested d a ≡ true
    → str_eq a.action_hash d.digest ≡ true
    → is_usable d a ≡ true
usable_of d a asked same = ground arith

used_up :
    (d : Decision) (a : Approval) (xs : List Approval)
    → count_where (is_usable d) xs ≤ 1
    → find (is_requested d) xs ≡ some a
    → str_eq a.action_hash d.digest ≡ true
    → any (is_usable d) (update_where (has_approval_id a.id) (record_decision d) xs) ≡ false
used_up d a [] one found same = cc
used_up d a (x ∷ xs) one found same = elim (Bool-cases (is_requested d x)) [
  | inl t ↦
      let e : x ≡ a = ground arith in
      let asked : is_requested d a ≡ true = rw e at t in
      let usable : is_usable d x ≡ true = rw e (usable_of d a asked same) in
      let none_left : count_where (is_usable d) xs ≡ 0 = ground arith in
      let rest = still_unusable d a.id xs (any-false→count (is_usable d) xs none_left) in
      ground (arith, decided_unusable d x, rest, eq→== x.id a.id (ap (λ (y : Approval). y.id) e))
  | inr f ↦
      let unusable : is_usable d x ≡ false = ground arith in
      let later : find (is_requested d) xs ≡ some a = ground arith in
      let fewer : count_where (is_usable d) xs ≤ 1 = ground arith in
      ground (arith, decided_unusable d x, used_up d a xs fewer later same)
]

unusable→none :
    (ctx : Context) (d : Decision) (db : Db)
    → any (is_usable d) db.approvals ≡ false
    → (decide_run ctx d db).0 ≡ none
unusable→none ctx d db h = elim (Option-cases (decide_run ctx d db).0) [
  | inl nothing ↦ nothing
  | inr (s, e) ↦
      let (v, _) = decide_run-IsAnswered ctx d db s e in
      let a : Approval = v.approval in
      let usable : is_usable d a ≡ true =
        ground (arith, eq_iff a.requested_from d.user_id, eq_iff a.action_hash d.digest) in
      cc (h, mem→any (is_usable d) db.approvals a v.stored usable)
]

-- An approval is used once: where at most one pending approval matches the decision, as the
-- table's unique index has it, a decision that counted does not count a second time.
pub decide_run_once :
    (ctx later : Context) (d : Decision) (db : Db) (s : RunStatus)
    → count_where (is_usable d) db.approvals ≤ 1
    → (decide_run ctx d db).0 ≡ some s
    → (decide_run later d (decide_run ctx d db).1).0 ≡ none
decide_run_once ctx later d db s one h = elim (Option-cases (find (is_requested d) db.approvals)) [
  | inl nothing ↦ cc (ap (λ r. r.0) (decide_run-absent ctx d db nothing))
  | inr (a, found) ↦
      let here = decide_run-found ctx d db a found in
      let (same, _, _, tables) = decide_with-some ctx d a db s (sym (ap (λ r. r.0) here) ∙ h) in
      rw (here, tables)
        (unusable→none later d (apply_decision ctx d a db)
          (unfold apply_decision in used_up d a db.approvals one found same))
]
