-- ===== src/Improvements/Measuring/Gates.antt =====
-- When a measured canary passes.
use google_connector_app.Prelude.{
  ◌≤◌, Bool, true, false, ◌||◌, ◌≡◌, ◌↔◌, ◌⊎◌, refl, List, ◌++◌, arith, nonempty, ltb,
}
use google_connector_app.Improvements.Measuring.{
  Metrics, Floats, Regression, regressed, regressions_of, assess_canary, fails_more,
  is_cancelled_more, is_slower, is_dearer, is_less_complete, five_percent, canary_ratio, one_second,
  one_point,
}

-- The promise of the gates: enough samples on both sides, no unsafe write, and no objective that is
-- worse by more than its margin, in Python's float arithmetic.
pub record IsNoWorse (fl : Floats) (control candidate : Metrics) : Type 0 where
  pub control_samples : 5 ≤ control.total
  pub candidate_samples : 5 ≤ candidate.total
  pub failure_rates :
      fl.divide candidate.failed candidate.total ≤ fl.divide control.failed control.total
  pub no_unsafe : candidate.unsafe ≡ 0
  pub cancellation_rates :
      fl.divide candidate.cancelled candidate.total
      ≤ fl.add (fl.divide control.cancelled control.total) five_percent
  pub latency :
      control.averages.p95_ms ≡ 0
      ⊎ candidate.averages.p95_ms ≤ fl.multiply control.averages.p95_ms canary_ratio
      ⊎ candidate.averages.p95_ms ≤ fl.add control.averages.p95_ms one_second
  pub tokens :
      control.averages.tokens ≡ 0
      ⊎ candidate.averages.tokens ≤ fl.multiply control.averages.tokens canary_ratio
  pub technical : control.averages.technical ≤ fl.add candidate.averages.technical one_point
  pub functional : control.averages.functional ≤ fl.add candidate.averages.functional one_point
  pub user_visible :
      control.averages.user_visible ≤ fl.add candidate.averages.user_visible one_point

nonempty-regressed :
    (b : Bool) (r : Regression) (rest : List Regression)
    → nonempty (regressed b r ++ rest) ≡ (b || nonempty rest)
nonempty-regressed true r rest = refl
nonempty-regressed false r rest = refl

nonempty-regressed_last : (b : Bool) (r : Regression) → nonempty (regressed b r) ≡ b
nonempty-regressed_last true r = refl
nonempty-regressed_last false r = refl

module _ (fl : Floats) (control candidate : Metrics) where
  is_worse : Bool
  is_worse =
      let before = control.averages in
      let after = candidate.averages in
      fails_more fl control candidate
      || (ltb 0 candidate.unsafe
          || (is_cancelled_more fl control candidate
              || (is_slower fl before.p95_ms after.p95_ms
                  || (is_dearer fl before.tokens after.tokens
                      || (is_less_complete fl before.technical after.technical
                          || (is_less_complete fl before.functional after.functional
                              || is_less_complete fl before.user_visible after.user_visible))))))

  regressions_of-nonempty : nonempty (regressions_of fl control candidate) ≡ is_worse
  unfolding regressions_of is_worse
  regressions_of-nonempty = simp (nonempty-regressed, nonempty-regressed_last)

  passed-is_worse :
      (assess_canary fl control candidate).passed ≡ true
      → (5 ≤ control.total) × (5 ≤ candidate.total) × (is_worse ≡ false)
  unfolding assess_canary
  passed-is_worse h = ground (arith, regressions_of-nonempty)

  is_worse-passed :
      5 ≤ control.total
      → 5 ≤ candidate.total
      → is_worse ≡ false
      → (assess_canary fl control candidate).passed ≡ true
  unfolding assess_canary
  is_worse-passed h k w = ground (arith, regressions_of-nonempty)

  -- In Python's float arithmetic, a canary passes exactly when both cohorts have at least five runs,
  -- the candidate has no unsafe write and a failure rate that is not higher, its cancellation rate is
  -- higher by 0.05 at most, its latency by a quarter or a second at most and its tokens by a quarter,
  -- where the control's are measured, and each of the three completions is at most one point lower.
  pub assess_canary-IsNoWorse :
      ((assess_canary fl control candidate).passed ≡ true) ↔ IsNoWorse fl control candidate
  unfolding is_worse
  assess_canary-IsNoWorse = (
    λ h. let (a, b, w) = passed-is_worse h in ground arith,
    λ n. is_worse-passed n.control_samples n.candidate_samples (ground arith),
  )
