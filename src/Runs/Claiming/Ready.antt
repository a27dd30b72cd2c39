-- ===== src/Runs/Claiming/Ready.antt =====
-- A step starts when its dependencies are completed, in the order of the plan.
use mathlib.Core.List.{Memᴰ}
use google_connector_app.Prelude.{
  ℕ, ◌≤◌, ◌≡◌, refl, sym, ap, ◌∙◌, true, false, none, some, List, [], ◌∷◌, arith, any, all, keep,
  Option-cases, Bool-cases, inl, inr, update_where, mem-keep, keep-mem, nonempty, nonempty-keep,
  ◌↔◌, ltb,
}
use google_connector_app.Runs.{Step, is_pending}
use google_connector_app.Runs.Claiming.{
  least, is_ready, is_met, started, sequence_of, has_step_id, claim_step,
}

module _ {A : Type 0} (key : A → ℕ) where
  pub least-mem : (xs : List A) (x : A) → least key xs ≡ some x → Memᴰ x xs
  unfolding least
  least-mem [] x h = cc
  least-mem (y ∷ ys) x h = elim (Option-cases (least key ys)) [
    | inl nothing ↦ Memᴰ.head (ground arith)
    | inr (z, found) ↦ elim (Bool-cases (ltb (key z) (key y))) [
      | inl less ↦ Memᴰ.tail (least-mem ys x (ground arith))
      | inr more ↦ Memᴰ.head (ground arith)
    ]
  ]

  least-ne-none : (xs : List A) (y : A) → Memᴰ y xs → least key xs ≡ none → ⊥
  unfolding least
  least-ne-none [] y m h = elim m [ ]
  least-ne-none (x ∷ xs) y m h = cc

  pub least-le : (xs : List A) (x y : A) → least key xs ≡ some x → Memᴰ y xs → key x ≤ key y
  unfolding least
  least-le [] x y h m = elim m [ ]
  least-le (z ∷ zs) x y h (Memᴰ.head e) =
      let same = ap key e in
      elim (Option-cases (least key zs)) [
        | inl nothing ↦ ground arith
        | inr (w, found) ↦ ground arith
      ]
  least-le (z ∷ zs) x y h (Memᴰ.tail m) = elim (Option-cases (least key zs)) [
    | inl nothing ↦ absurd (least-ne-none zs y m nothing)
    | inr (w, found) ↦ let below = least-le zs w y found m in ground arith
  ]

-- What is true of a step that was claimed.
pub record IsNext (steps : List Step) (run_id : ℕ) (s : Step) : Type 0 where
  pub stored : Memᴰ s steps
  pub of_run : s.run_id ≡ run_id
  pub waiting : is_pending s.status ≡ true
  pub dependencies_met : all (is_met steps run_id) s.dependencies ≡ true
  pub first :
      (other : Step)
      → Memᴰ other steps
      → is_ready steps run_id other ≡ true
      → s.sequence_no ≤ other.sequence_no

pub claim_step-none :
    (run_id : ℕ) (steps : List Step)
    → least sequence_of (keep (is_ready steps run_id) steps) ≡ none
    → claim_step run_id steps ≡ (none, steps)
unfolding claim_step
claim_step-none run_id steps h = rw (h, claim_step)

pub claim_step-some :
    (run_id : ℕ) (steps : List Step) (s : Step)
    → least sequence_of (keep (is_ready steps run_id) steps) ≡ some s
    → claim_step run_id steps ≡ (some (started s), update_where (has_step_id s.id) started steps)
unfolding claim_step
claim_step-some run_id steps s h = rw (h, claim_step)

-- The step that is claimed was a pending step of the run with every dependency completed, the
-- first of all such steps in the plan's order; it is returned as running, one attempt further.
pub claim_step-IsNext :
    (run_id : ℕ) (steps : List Step) (s' : Step)
    → (claim_step run_id steps).0 ≡ some s'
    → (s : Step) × IsNext steps run_id s × (s' ≡ started s)
claim_step-IsNext run_id steps s' h =
    let ready : List Step = keep (is_ready steps run_id) steps in
    elim (Option-cases (least sequence_of ready)) [
      | inl nothing ↦ cc (ap (λ r. r.0) (claim_step-none run_id steps nothing))
      | inr (s, found) ↦
          let (m, t) =
            mem-keep (is_ready steps run_id) steps s (least-mem sequence_of ready s found) in
          let here = ap (λ r. r.0) (claim_step-some run_id steps s found) in
          (
            s,
            record {
              stored = m;
              of_run = ground arith;
              waiting = ground arith;
              dependencies_met = ground arith;
              first = λ other o r.
                  least-le sequence_of ready s other found
                    (keep-mem (is_ready steps run_id) steps other o r);
            },
            cc (here, h),
          )
    ]

least-nonempty : (xs : List Step) → least sequence_of xs ≡ none → nonempty xs ≡ false
unfolding least
least-nonempty [] h = refl
least-nonempty (x ∷ xs) h = cc

empty-least : (xs : List Step) → nonempty xs ≡ false → least sequence_of xs ≡ none
unfolding least
empty-least [] h = refl
empty-least (x ∷ xs) h = cc

-- No step is claimed exactly when no step of the run is ready.
pub claim_step-idle :
    (run_id : ℕ) (steps : List Step)
    → ((claim_step run_id steps).0 ≡ none) ↔ (any (is_ready steps run_id) steps ≡ false)
claim_step-idle run_id steps =
    let p = is_ready steps run_id in
    let same = nonempty-keep p steps in
    elim (Option-cases (least sequence_of (keep p steps))) [
      | inl nothing ↦ (
        λ _. sym same ∙ least-nonempty (keep p steps) nothing,
        λ _. ap (λ r. r.0) (claim_step-none run_id steps nothing),
      )
      | inr (s, found) ↦ (
        λ h. cc (ap (λ r. r.0) (claim_step-some run_id steps s found)),
        λ h. cc (empty-least (keep p steps) (same ∙ h)),
      )
    ]
