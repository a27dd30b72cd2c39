-- ===== src/Runs/Claiming/Progress.antt =====
-- A run whose dependencies point backwards is not blocked.
use mathlib.Core.List.{Memᴰ}
use google_connector_app.Prelude.{
  ℕ, ◌≤◌, String, ◌≡◌, refl, ◌∙◌, Bool, true, not, ◌&&◌, ◌||◌, some, List, [], ◌∷◌, arith, any, all,
  keep, nonempty, nonempty-keep, Option-cases, inl, inr, ltb, mem-keep, keep-mem, mem→any, all-mem,
  all-weaken, &&-left, &&-right,
}
use google_connector_app.Runs.{Step, is_pending, is_completed}
use google_connector_app.Runs.Claiming.{
  least, is_ready, is_met, has_key, of_run, sequence_of, claim_step,
}
use google_connector_app.Runs.Claiming.Ready.{least-mem, least-le, claim_step-idle}

-- The run has steps of that key, and they all come before `s`.
abbrev pub is_backed : List Step → ℕ → Step → String → Bool
is_backed steps run_id s key =
    any (has_key run_id key) steps
    && all (λ t. not (has_key run_id key t) || ltb t.sequence_no s.sequence_no) steps

-- Each dependency of the run's steps is on steps that come before.
abbrev pub points_back : List Step → ℕ → Step → Bool
points_back steps run_id s = not (of_run run_id s) || all (is_backed steps run_id s) s.dependencies

abbrev pub waits : ℕ → Step → Bool
waits run_id s = of_run run_id s && is_pending s.status

-- The run's steps are pending or completed.
abbrev pub on_track : ℕ → Step → Bool
on_track run_id s = not (of_run run_id s) || is_pending s.status || is_completed s.status

module _ (steps : List Step) (run_id : ℕ) (s : Step)
    (lowest : (t : Step)
      → Memᴰ t steps
      → waits run_id t ≡ true
      → s.sequence_no ≤ t.sequence_no) where
  -- What comes before the first waiting step is completed.
  backed-met :
      all (on_track run_id) steps ≡ true
      → (key : String) → is_backed steps run_id s key ≡ true
      → is_met steps run_id key ≡ true
  backed-met track key h =
      let seen : any (has_key run_id key) steps ≡ true = &&-left _ _ h in
      rw seen (
        all-weaken (λ t. not (has_key run_id key t) || ltb t.sequence_no s.sequence_no)
          (λ t. not (has_key run_id key t) || is_completed t.status) steps
          (λ t m e.
            let on : on_track run_id t ≡ true = all-mem (on_track run_id) steps t track m in
            let low = lowest t m in ground arith)
          (&&-right _ _ h))

least-exists : (xs : List Step) → nonempty xs ≡ true → (s : Step) × (least sequence_of xs ≡ some s)
unfolding least
least-exists [] h = cc
least-exists (x ∷ xs) h = (_, refl)

-- A run is never blocked: where the run's dependencies point back to steps of the run, each of its
-- steps is pending or completed, and one is pending, a step is claimed.
pub claim_step-progress :
    (run_id : ℕ) (steps : List Step)
    → all (points_back steps run_id) steps ≡ true
    → all (on_track run_id) steps ≡ true
    → any (waits run_id) steps ≡ true
    → (s : Step) × ((claim_step run_id steps).0 ≡ some s)
claim_step-progress run_id steps back track some_wait =
    let (s, found) =
      least-exists (keep (waits run_id) steps) (nonempty-keep (waits run_id) steps ∙ some_wait) in
    let (m, wait) = mem-keep (waits run_id) steps s (least-mem sequence_of _ s found) in
    let points : points_back steps run_id s ≡ true =
      all-mem (points_back steps run_id) steps s back m in
    let backed : all (is_backed steps run_id s) s.dependencies ≡ true = ground arith in
    let met : all (is_met steps run_id) s.dependencies ≡ true =
      all-weaken (is_backed steps run_id s) (is_met steps run_id) s.dependencies
        (λ key n.
          backed-met steps run_id s
            (λ t n' w. least-le sequence_of _ s t found (keep-mem (waits run_id) steps t n' w))
            track key)
        backed in
    let ready : is_ready steps run_id s ≡ true = ground arith in
    elim (Option-cases (claim_step run_id steps).0) [
      | inl nothing ↦ cc (
        mem→any (is_ready steps run_id) steps s m ready,
        (claim_step-idle run_id steps).0 nothing,
      )
      | inr (t, claimed) ↦ (t, claimed)
    ]
