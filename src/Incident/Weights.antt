-- ===== src/Incident/Weights.antt =====
-- The four completion figures are ordered, and the technical one is full exactly at the end.
use google_connector_app.Prelude.{
  ◌≤◌, ◌<◌, ◌≡◌, ◌↔◌, refl, Bool, true, List, [], ◌∷◌, arith, all, &&-left,
}
use google_connector_app.Runs.{Step}
use google_connector_app.Incident.{
  weight_of, weight_where, always, is_done, is_functional, is_visible, completion_from_steps,
}

weight_pos : (s : Step) → 0 < weight_of s
weight_pos s = ground arith

module _ (p q : Step → Bool) (sub : (s : Step) → p s ≡ true → q s ≡ true) where
  weight_where_mono : (steps : List Step) → weight_where p steps ≤ weight_where q steps
  unfolding weight_where
  weight_where_mono [] = omega arith
  weight_where_mono (s ∷ steps) = ground (arith, sub s, weight_where_mono steps)

-- Every share is of the same total, no completed step counts for more than the technical share,
-- and the total is never zero.
pub completion-IsOrdered :
    (steps : List Step)
    → let c = completion_from_steps steps in
      (c.functional ≤ c.technical)
      × (c.user_visible ≤ c.technical)
      × (c.technical ≤ c.total)
      × (0 < c.total)
unfolding completion_from_steps
completion-IsOrdered steps =
    let fn = weight_where_mono is_functional is_done (λ s h. &&-left _ _ h) steps in
    let vis = weight_where_mono is_visible is_done (λ s h. &&-left _ _ h) steps in
    let tech = weight_where_mono is_done always (λ s h. refl) steps in
    (fn, vis, ground (arith, tech), ground arith)

technical→all :
    (steps : List Step)
    → weight_where always steps ≤ weight_where is_done steps
    → all is_done steps ≡ true
unfolding weight_where
technical→all [] h = refl
technical→all (s ∷ steps) h =
    let tech = weight_where_mono is_done always (λ x e. refl) steps in
    ground (arith, technical→all steps, weight_pos s, tech)

all→technical :
    (steps : List Step)
    → all is_done steps ≡ true
    → weight_where always steps ≡ weight_where is_done steps
unfolding weight_where
all→technical [] h = refl
all→technical (s ∷ steps) h = ground (arith, all→technical steps)

total_pos : (s : Step) (steps : List Step) → 0 < weight_where always (s ∷ steps)
unfolding weight_where
total_pos s steps = ground (arith, weight_pos s)

-- A run that has steps is technically complete exactly when every step is completed.
pub technical-full :
    (s : Step) (steps : List Step)
    → let c = completion_from_steps (s ∷ steps) in
      (c.technical ≡ c.total) ↔ (all is_done (s ∷ steps) ≡ true)
unfolding completion_from_steps
technical-full s steps = (
  λ h. technical→all (s ∷ steps) (ground (arith, total_pos s steps)),
  λ h. ground (arith, total_pos s steps, all→technical (s ∷ steps) h),
)
