-- ===== src/Coding/Waiting.antt =====
-- A run that waits for its checks.
use mathlib.Core.List.{Memᴰ}
use google_connector_app.Prelude.{
  ℕ, String, ◌≡◌, ◌≢◌, ◌↔◌, refl, sym, ◌∙◌, Bool, true, not, ◌&&◌, ◌||◌, none, some, List, [], ◌∷◌,
  arith, all, any, keep, update_where, Option-cases, Bool-cases, inl, inr, eq→==, mem-keep, all-mem,
  nonempty,
}
use google_connector_app.Runs.Claiming.{least}
use google_connector_app.Runs.Claiming.Ready.{least-mem}
use google_connector_app.Coding.{
  CodingRun, CodingWorker, Check, ci_waiting, ci_passed, judge, monitor_ci, parked, holds,
  has_coding_id, may_claim, creation_time, claim_coding_run,
}

all-any :
    (checks : List Check)
    → all (λ c. c.is_completed && c.is_success) checks ≡ (
        not (any (λ c. c.is_completed && not c.is_success) checks)
        && not (any (λ c. not c.is_completed) checks))
all-any [] = refl
all-any (c ∷ checks) = ground (arith, all-any checks)

-- Checks pass exactly when there is one and each is completed with success.
pub judge-ci_passed :
    (checks : List Check)
    → (judge checks ≡ ci_passed)
      ↔ ((nonempty checks && all (λ c. c.is_completed && c.is_success) checks) ≡ true)
unfolding judge
judge-ci_passed checks = ground (arith, all-any checks)

module _ (w : CodingWorker) (runs : List CodingRun) where
  claim-nothing :
      least creation_time (keep (may_claim w) runs) ≡ none → (claim_coding_run w runs).0 ≡ none
  unfolding claim_coding_run
  claim-nothing e = rw (e, claim_coding_run) refl

  claim-id :
      (x r : CodingRun)
      → least creation_time (keep (may_claim w) runs) ≡ some x
      → (claim_coding_run w runs).0 ≡ some r
      → r.id ≡ x.id
  unfolding claim_coding_run
  claim-id x r e k = ground arith

  claimed-row :
      (r : CodingRun)
      → (claim_coding_run w runs).0 ≡ some r
      → (x : CodingRun) × Memᴰ x runs × (may_claim w x ≡ true) × (r.id ≡ x.id)
  claimed-row r h = elim (Option-cases (least creation_time (keep (may_claim w) runs))) [
    | inl nothing ↦ cc (claim-nothing nothing)
    | inr (x, found) ↦
        let (m, t) = mem-keep (may_claim w) runs x (least-mem creation_time _ x found) in
        (x, m, t, claim-id x r found h)
  ]

parked-all :
    (id : ℕ) (owner : String) (now : ℕ) (w : CodingWorker) (runs : List CodingRun)
    → all (λ x. not (has_coding_id id x) || holds id owner x) runs ≡ true
    → all
        (λ y. not (has_coding_id id y && may_claim w y))
        (update_where (holds id owner) (parked now) runs)
      ≡ true
parked-all id owner now w [] h = refl
parked-all id owner now w (x ∷ runs) h = elim (Bool-cases (holds id owner x)) [
  | inl t ↦ rw t (ground (arith, parked-all id owner now w runs))
  | inr f ↦ rw f (ground (arith, parked-all id owner now w runs))
]

monitor-waiting :
    (id : ℕ) (owner : String) (now : ℕ) (checks : List Check) (runs : List CodingRun)
    → judge checks ≡ ci_waiting
    → monitor_ci id owner now checks runs ≡ update_where (holds id owner) (parked now) runs
unfolding monitor_ci
monitor-waiting id owner now checks runs h = rw (h, monitor_ci)

-- A run whose checks are still pending is given up: where its only holder parks it until the next
-- look at its checks, no worker can ever claim it from the table that results, at whatever time, for
-- the claim wants an expired lease and parking leaves none.
pub monitor_ci-parked :
    (id : ℕ) (owner : String) (now : ℕ) (checks : List Check) (runs : List CodingRun)
    (w : CodingWorker) (r : CodingRun)
    → judge checks ≡ ci_waiting
    → all (λ x. not (has_coding_id id x) || holds id owner x) runs ≡ true
    → (claim_coding_run w (monitor_ci id owner now checks runs)).0 ≡ some r
    → r.id ≢ id
monitor_ci-parked id owner now checks runs w r wait held h same =
    let table : List CodingRun = update_where (holds id owner) (parked now) runs in
    let e : monitor_ci id owner now checks runs ≡ table =
      monitor-waiting id owner now checks runs wait in
    let (x, m, t, d) = claimed-row w table r (rw e at h) in
    let q : CodingRun → Bool = λ y. not (has_coding_id id y && may_claim w y) in
    let none_left : all q table ≡ true = parked-all id owner now w runs held in
    let here : has_coding_id id x ≡ true = eq→== x.id id (sym d ∙ same) in
    let no : q x ≡ true = all-mem q table x none_left m in cc (no, here, t)
