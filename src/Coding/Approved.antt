-- ===== src/Coding/Approved.antt =====
-- No coding run is executed without an approval.
use mathlib.Core.Path.{subst}
use google_connector_app.Prelude.{
  ◌≤◌, ◌⊎◌, all-weaken, &&-left, count_where, eq→==, unique-eq, all-update_where_mem, ℕ, String,
  ◌≡◌, refl, sym, ap, Bool, true, false, not, ◌&&◌, ◌||◌, none, some, List, [], ◌∷◌, arith, all,
  keep, find, update_where, str_eq→eq, Option-cases, inl, inr, all-append, all-update_where_keeps,
  find-mem, mem-keep,
}
use google_connector_app.Runs.Claiming.{least}
use google_connector_app.Runs.Claiming.Ready.{least-mem}
use google_connector_app.Coding.Retention.{
  sweep_coding_runs, is_unanswered, unanswered, may_delete, deleted_row,
}
use google_connector_app.Coding.{
  CodingRun, CodingStatus, CodingApproval, Phase, execute_phase, ci_phase, is_phase, phase_status,
  Submission, CodingWorker, CodingVote, Check, new_coding_run, create_coding_run, claim_coding_run,
  leased, phase_to_claim, has_coding_id, creation_time, may_claim, finish_plan, finish_execute,
  monitor_ci, fail_phase, failed_row, retries, decide_coding_run, decide_row, is_coding_run,
  cancel_coding_run, holds, frozen, drafted, parked, passed, voted, abandoned, may_abandon,
  is_awaiting,
}

-- The statuses that come after the approval.
abbrev pub past_approval : CodingStatus → Bool
past_approval CodingStatus.approved = true
past_approval CodingStatus.executing = true
past_approval CodingStatus.published = true
past_approval CodingStatus.ci_running = true
past_approval CodingStatus.completed = true
past_approval s = false

abbrev pub is_granted : CodingApproval → Bool
is_granted CodingApproval.granted = true
is_granted a = false

-- A phase past the approval is only claimed from a status past the approval.
claim-granted :
    (now : ℕ) (r : CodingRun) (s : CodingStatus) (p : Phase)
    → phase_to_claim now r s ≡ some p
    → past_approval (phase_status p) ≡ true
    → past_approval s ≡ true
claim-granted now r s p e h = ground arith

not-awaiting : (p : Phase) (s : CodingStatus) → is_awaiting s ≡ true → is_phase p s ≡ true → ⊥
not-awaiting p s h k = ground arith

module _ (phase_of : String → Phase) where
  -- Past its approval a run's approval is granted, and a run that is leased is in its owner's phase.
  abbrev pub is_sound : CodingRun → Bool
  is_sound r =
      (not (past_approval r.status) || is_granted r.approval_status)
      && elim r.lease_owner [ none ↦ true | some o ↦ is_phase (phase_of o) r.status ]

  held-phase :
      (id : ℕ) (owner : String) (p : Phase) (r : CodingRun)
      → phase_of owner ≡ p
      → holds id owner r ≡ true
      → is_sound r ≡ true
      → is_phase p r.status ≡ true
  held-phase id owner p r e h s = elim (Option-cases r.lease_owner) [
    | inl free ↦ ground arith
    | inr (o, held) ↦
        let same : o ≡ owner = str_eq→eq _ _ (ground arith) in
        let q : phase_of o ≡ p = rw same e in ground arith
  ]

  module _ (runs : List CodingRun) (sound : all is_sound runs ≡ true) where
    submit_sound : (q : Submission) → all is_sound (create_coding_run q runs).1 ≡ true
    unfolding create_coding_run
    submit_sound q = ground (arith, all-append is_sound runs (new_coding_run q ∷ []) sound)

    plan_sound :
        (id : ℕ) (owner hash : String) (expires : ℕ)
        → all is_sound (finish_plan id owner hash expires runs) ≡ true
    unfolding finish_plan
    plan_sound id owner hash expires =
        all-update_where_keeps (holds id owner) (frozen hash expires) is_sound
          (λ r h s. ground arith) runs sound

    execute_sound :
        (id : ℕ) (owner commit : String) (now : ℕ)
        → phase_of owner ≡ execute_phase
        → all is_sound (finish_execute id owner commit now runs) ≡ true
    unfolding finish_execute
    execute_sound id owner commit now e =
        all-update_where_keeps (holds id owner) (drafted commit now) is_sound
          (λ r h s. let at_work = held-phase id owner execute_phase r e h s in ground arith) runs
          sound

    monitor_sound :
        (id : ℕ) (owner : String) (now : ℕ) (checks : List Check)
        → phase_of owner ≡ ci_phase
        → all is_sound (monitor_ci id owner now checks runs) ≡ true
    unfolding monitor_ci
    monitor_sound id owner now checks e =
        let waiting =
          all-update_where_keeps (holds id owner) (parked now) is_sound
            (λ r h s. let at_work = held-phase id owner ci_phase r e h s in ground arith) runs
            sound in
        let done =
          all-update_where_keeps (holds id owner) passed is_sound
            (λ r h s. let at_work = held-phase id owner ci_phase r e h s in ground arith) runs
            sound in
        ground arith

    fail_sound :
        (owner : String) (row : CodingRun) (retryable : Bool) (category : String) (now : ℕ)
        → is_phase (phase_of owner) row.status ≡ true
        → all is_sound (fail_phase owner row retryable category now runs) ≡ true
    unfolding fail_phase
    fail_sound owner row retryable category now e =
        all-update_where_keeps (holds row.id owner)
          (failed_row (retries retryable row) row.status category now) is_sound
          (λ r h s.
            let at_work = held-phase row.id owner (phase_of owner) r refl h s in ground arith)
          runs sound

    cancel_sound : (id : ℕ) (user : String) → all is_sound (cancel_coding_run id user runs).1 ≡ true
    unfolding cancel_coding_run
    cancel_sound id user =
        all-update_where_keeps (may_abandon id user) abandoned is_sound (λ r h s. ground arith) runs
          sound

    claimed_sound :
        (w : CodingWorker) (p : Phase) (r : CodingRun)
        → phase_to_claim w.now r r.status ≡ some p
        → is_phase (phase_of w.owner) (phase_status p) ≡ true
        → is_sound r ≡ true
        → is_sound (leased w p r) ≡ true
    claimed_sound w p r e own s = ground (arith, claim-granted w.now r r.status p e)

    claim-none :
        (w : CodingWorker)
        → least creation_time (keep (may_claim w) runs) ≡ none
        → (claim_coding_run w runs).1 ≡ runs
    unfolding claim_coding_run
    claim-none w h = rw (h, claim_coding_run) refl

    claim-idle :
        (w : CodingWorker) (r : CodingRun)
        → least creation_time (keep (may_claim w) runs) ≡ some r
        → phase_to_claim w.now r r.status ≡ none
        → (claim_coding_run w runs).1 ≡ runs
    unfolding claim_coding_run
    claim-idle w r h e = ground arith

    claim-some :
        (w : CodingWorker) (r : CodingRun) (p : Phase)
        → least creation_time (keep (may_claim w) runs) ≡ some r
        → phase_to_claim w.now r r.status ≡ some p
        → claim_coding_run w runs
          ≡ (some (leased w p r), update_where (has_coding_id r.id) (leased w p) runs)
    unfolding claim_coding_run
    claim-some w r p h e = ground arith

    claim_sound :
        (w : CodingWorker)
        → ((id : ℕ) → count_where (has_coding_id id) runs ≤ 1)
        → ((r : CodingRun)
            → (claim_coding_run w runs).0 ≡ some r
            → is_phase (phase_of w.owner) r.status ≡ true)
        → all is_sound (claim_coding_run w runs).1 ≡ true
    claim_sound w unique own = elim (Option-cases (least creation_time (keep (may_claim w) runs))) [
      | inl nothing ↦ rw (claim-none w nothing) sound
      | inr (r, found) ↦ elim (Option-cases (phase_to_claim w.now r r.status)) [
        | inl idle ↦ rw (claim-idle w r found idle) sound
        | inr (p, e) ↦
            let taken = claim-some w r p found e in
            let mine = own (leased w p r) (ap (λ c. c.0) taken) in
            let (m, t) = mem-keep (may_claim w) runs r (least-mem creation_time _ r found) in
            subst (λ xs. all is_sound xs ≡ true) (sym (ap (λ c. c.1) taken))
              (all-update_where_mem (has_coding_id r.id) (leased w p) is_sound runs
                (λ x n h s.
                  let same : r ≡ x =
                    unique-eq (has_coding_id r.id) runs r x (unique r.id) m n (eq→== r.id r.id refl)
                      h in
                  let start : phase_to_claim w.now x x.status ≡ some p =
                    subst (λ y. phase_to_claim w.now y y.status ≡ some p) same e in
                  claimed_sound w p x start mine s)
                sound)
      ]
    ]

    voted_sound :
        (v : CodingVote) (r : CodingRun)
        → is_awaiting r.status ≡ true
        → is_sound r ≡ true
        → is_sound (voted v r) ≡ true
    voted_sound v r wait s = elim (Option-cases r.lease_owner) [
      | inl free ↦ ground arith
      | inr (o, held) ↦ absurd (not-awaiting (phase_of o) r.status wait (ground arith))
    ]

    unanswered_sound :
        (r : CodingRun)
        → is_awaiting r.status ≡ true
        → is_sound r ≡ true
        → is_sound (unanswered r) ≡ true
    unanswered_sound r wait s = elim (Option-cases r.lease_owner) [
      | inl free ↦ ground arith
      | inr (o, held) ↦ absurd (not-awaiting (phase_of o) r.status wait (ground arith))
    ]

    sweep_sound :
        (now : ℕ) (is_outdated : ℕ → Bool)
        → all is_sound (sweep_coding_runs now is_outdated runs) ≡ true
    unfolding sweep_coding_runs
    sweep_sound now is_outdated =
        all-update_where_keeps (may_delete is_outdated) deleted_row is_sound (λ r h s. s)
          (update_where (is_unanswered now) unanswered runs)
          (all-update_where_keeps (is_unanswered now) unanswered is_sound
            (λ r h s. unanswered_sound r (&&-left _ _ h) s) runs sound)

    decide_row-cases :
        (v : CodingVote) (r : CodingRun)
        → ((decide_row v r runs).1 ≡ runs)
          ⊎ ((is_awaiting r.status ≡ true)
              × ((decide_row v r runs).1 ≡ update_where (has_coding_id v.run_id) (voted v) runs))
    unfolding decide_row
    decide_row-cases v r = ground arith

    decide-none :
        (v : CodingVote)
        → find (is_coding_run v.run_id v.user_id) runs ≡ none
        → (decide_coding_run v runs).1 ≡ runs
    unfolding decide_coding_run
    decide-none v h = rw (h, decide_coding_run) refl

    decide-some :
        (v : CodingVote) (r : CodingRun)
        → find (is_coding_run v.run_id v.user_id) runs ≡ some r
        → (decide_coding_run v runs).1 ≡ (decide_row v r runs).1
    unfolding decide_coding_run
    decide-some v r h = rw (h, decide_coding_run) refl

    decide_sound :
        (v : CodingVote)
        → ((id : ℕ) → count_where (has_coding_id id) runs ≤ 1)
        → all is_sound (decide_coding_run v runs).1 ≡ true
    decide_sound v unique = elim (Option-cases (find (is_coding_run v.run_id v.user_id) runs)) [
      | inl nothing ↦ rw (decide-none v nothing) sound
      | inr (r, found) ↦
          let (m, t) = find-mem (is_coding_run v.run_id v.user_id) runs r found in
          let here : has_coding_id v.run_id r ≡ true = ground arith in
          let step = decide-some v r found in
          elim (decide_row-cases v r) [
            | inl same ↦ rw (step, same) sound
            | inr (wait, e) ↦
                rw (step, e)
                  (all-update_where_mem (has_coding_id v.run_id) (voted v) is_sound runs
                    (λ x n h s.
                      let same : r ≡ x =
                        unique-eq (has_coding_id v.run_id) runs r x (unique v.run_id) m n here h in
                      voted_sound v x (rw (← same) wait) s)
                    sound)
          ]
    ]

-- What users, workers and the sweep do to the table. Each owner name (process id and time in nanoseconds) is
-- used for one claim, so it has one phase; ids are primary keys.
pub data CodingMove (phase_of : String → Phase) (runs : List CodingRun)
    : List CodingRun → Type 0 where
  submit : (q : Submission) → CodingMove phase_of runs (create_coding_run q runs).1
  take :
      (w : CodingWorker)
      → ((id : ℕ) → count_where (has_coding_id id) runs ≤ 1)
      → ((r : CodingRun)
          → (claim_coding_run w runs).0 ≡ some r
          → is_phase (phase_of w.owner) r.status ≡ true)
      → CodingMove phase_of runs (claim_coding_run w runs).1
  plan :
      (id : ℕ) (owner hash : String) (expires : ℕ)
      → CodingMove phase_of runs (finish_plan id owner hash expires runs)
  publish :
      (id : ℕ) (owner commit : String) (now : ℕ)
      → phase_of owner ≡ execute_phase
      → CodingMove phase_of runs (finish_execute id owner commit now runs)
  monitor :
      (id : ℕ) (owner : String) (now : ℕ) (checks : List Check)
      → phase_of owner ≡ ci_phase
      → CodingMove phase_of runs (monitor_ci id owner now checks runs)
  fail :
      (owner : String) (row : CodingRun) (retryable : Bool) (category : String) (now : ℕ)
      → is_phase (phase_of owner) row.status ≡ true
      → CodingMove phase_of runs (fail_phase owner row retryable category now runs)
  vote :
      (v : CodingVote)
      → ((id : ℕ) → count_where (has_coding_id id) runs ≤ 1)
      → CodingMove phase_of runs (decide_coding_run v runs).1
  sweep :
      (now : ℕ) (is_outdated : ℕ → Bool)
      → CodingMove phase_of runs (sweep_coding_runs now is_outdated runs)
  cancel : (id : ℕ) (user : String) → CodingMove phase_of runs (cancel_coding_run id user runs).1

pub data CodingReach (phase_of : String → Phase) : List CodingRun → Type 0 where
  empty : CodingReach phase_of []
  after :
      {runs last : List CodingRun}
      → CodingReach phase_of runs
      → CodingMove phase_of runs last
      → CodingReach phase_of last

move_sound :
    (phase_of : String → Phase) {runs last : List CodingRun}
    → CodingMove phase_of runs last
    → all (is_sound phase_of) runs ≡ true
    → all (is_sound phase_of) last ≡ true
move_sound f {runs} (submit q) s = submit_sound f runs s q
move_sound f {runs} (take w u own) s = claim_sound f runs s w u own
move_sound f {runs} (plan id owner hash expires) s = plan_sound f runs s id owner hash expires
move_sound f {runs} (publish id owner commit now e) s = execute_sound f runs s id owner commit now e
move_sound f {runs} (monitor id owner now checks e) s = monitor_sound f runs s id owner now checks e
move_sound f {runs} (fail owner row retryable category now e) s =
    fail_sound f runs s owner row retryable category now e
move_sound f {runs} (vote v u) s = decide_sound f runs s v u
move_sound f {runs} (sweep now is_outdated) s = sweep_sound f runs s now is_outdated
move_sound f {runs} (cancel id user) s = cancel_sound f runs s id user

reach_sound :
    (phase_of : String → Phase) {runs : List CodingRun}
    → CodingReach phase_of runs
    → all (is_sound phase_of) runs ≡ true
reach_sound f empty = refl
reach_sound f (after r m) = move_sound f m (reach_sound f r)

-- From the empty table, in any interleaving of submissions, claims, finished plans, published
-- drafts, checked commits, failures with and without retry, decisions, cancellations and sweeps, every
-- run that is approved, executing, published, in CI or completed has a granted approval.
pub approved_before_execution :
    (phase_of : String → Phase) (runs : List CodingRun)
    → CodingReach phase_of runs
    → all (λ r. not (past_approval r.status) || is_granted r.approval_status) runs ≡ true
approved_before_execution phase_of runs r =
    all-weaken (is_sound phase_of)
      (λ r. not (past_approval r.status) || is_granted r.approval_status) runs
      (λ x m s. &&-left _ _ s) (reach_sound phase_of r)
