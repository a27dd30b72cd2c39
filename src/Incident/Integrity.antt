-- ===== src/Incident/Integrity.antt =====
-- When the side-effect integrity of a run drops.
use google_connector_app.Prelude.{
  ℕ, ◌≤◌, ◌≡◌, ◌↔◌, refl, Bool, true, ◌&&◌, List, [], ◌∷◌, arith, any, all, keep, nonempty, ◌≢◌,
  not, String, ◌==◌,
}
use google_connector_app.Runs.{Step, is_failed}
use google_connector_app.Incident.{
  is_done, is_unintended, uncertainty, uncertain_writes, completion_from_steps, build_incident,
  has_category,
}

-- A step that leaves no doubt about an external write.
abbrev pub is_certain : Step → Bool
is_certain s = uncertainty s == 0

uncertain_writes-zero :
    (steps : List Step) → (uncertain_writes steps ≡ 0) ↔ (all is_certain steps ≡ true)
unfolding uncertain_writes
uncertain_writes-zero [] = (λ h. refl, λ h. refl)
uncertain_writes-zero (s ∷ steps) = ground (arith, uncertain_writes-zero steps)

-- The integrity is full exactly when no step leaves a doubt.
pub integrity-full :
    (steps : List Step)
    → ((completion_from_steps steps).side_effect_integrity ≡ 100) ↔ (all is_certain steps ≡ true)
unfolding completion_from_steps
integrity-full steps = ground (arith, uncertain_writes-zero steps)

member-uncertainty :
    (p : Step → Bool) (n : ℕ)
    → ((s : Step) → p s ≡ true → n ≤ uncertainty s)
    → (steps : List Step) → any p steps ≡ true
    → n ≤ uncertain_writes steps
unfolding uncertain_writes
member-uncertainty p n h [] m = cc
member-uncertainty p n h (s ∷ steps) m = ground (arith, h s, member-uncertainty p n h steps)

-- A failed write whose worker lease was lost.
abbrev pub is_lost_write : Step → Bool
is_lost_write s = is_failed s.status && not s.read_only && has_category "worker_reconciliation" s

lost_write_counts : (s : Step) → is_lost_write s ≡ true → 4 ≤ uncertainty s
unfolding uncertainty
lost_write_counts s h = ground arith

-- One failed write with a lost worker lease takes all the integrity away.
pub integrity-lost_write :
    (steps : List Step)
    → any is_lost_write steps ≡ true
    → (completion_from_steps steps).side_effect_integrity ≡ 0
unfolding completion_from_steps
integrity-lost_write steps h =
    omega (arith, member-uncertainty is_lost_write 4 lost_write_counts steps h)

unintended_counts : (s : Step) → (is_done s && is_unintended s) ≡ true → 1 ≤ uncertainty s
unfolding uncertainty
unintended_counts s h = ground arith

unintended-any :
    (steps : List Step)
    → nonempty (keep is_unintended (keep is_done steps))
      ≡ any (λ s. is_done s && is_unintended s) steps
unintended-any [] = refl
unintended-any (s ∷ steps) = ground (arith, unintended-any steps)

-- A run whose incident names an unintended side effect has a side-effect integrity of at most 75
-- percent.
pub unintended-integrity :
    (steps : List Step) (category message : String)
    → (build_incident steps category message).unintended_side_effects ≢ []
    → (completion_from_steps steps).side_effect_integrity ≤ 75
unfolding completion_from_steps build_incident
unintended-integrity steps category message h = ground (
  arith,
  unintended-any steps,
  member-uncertainty (λ s. is_done s && is_unintended s) 1 unintended_counts steps,
)
