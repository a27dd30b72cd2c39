-- ===== src/Improvements/Lifecycle/Rows.antt =====
-- Updates of one proposal, and approvals that are added: what they keep of the invariant.
use mathlib.Core.List.{Memᴰ}
use google_connector_app.Prelude.{
  ℕ, ◌≤◌, Bool, true, ◌≡◌, refl, List, [], ◌∷◌, ◌++◌, any, all, count_where, update_where, eq→==,
  arith, Bool-cases, inl, inr, unique-eq, all-update_where_mem, all-weaken,
}
use google_connector_app.Improvements.{Stage, Proposal, Canary, Approval, has_id, set_proposal}
use google_connector_app.Improvements.Lifecycle.{approves, approves_canary_of, is_backed, is_lawful}

pub any-append_left {ℓ} :
    {A : Type ℓ} (p : A → Bool) (xs ys : List A) → any p xs ≡ true → any p (xs ++ ys) ≡ true
any-append_left p [] ys h = cc
any-append_left p (x ∷ xs) ys h = ground (arith, any-append_left p xs ys)

pub count-update_where_same {ℓ} :
    {A : Type ℓ} (p q : A → Bool) (f : A → A)
    → ((x : A) → q (f x) ≡ q x)
    → (xs : List A) → count_where q (update_where p f xs) ≡ count_where q xs
count-update_where_same p q f same [] = refl
count-update_where_same p q f same (x ∷ xs) = elim (Bool-cases (p x)) [
  | inl t ↦ rw (t, same x, count-update_where_same p q f same xs) refl
  | inr t ↦ rw (t, count-update_where_same p q f same xs) refl
]

-- The one row of this id takes its new value, and the others stay.
pub all-set_proposal :
    (q : Proposal → Bool) (f : Proposal → Proposal) (ps : List Proposal) (p : Proposal)
    → ((id : ℕ) → count_where (has_id id) ps ≤ 1)
    → Memᴰ p ps
    → all q ps ≡ true
    → q (f p) ≡ true
    → all q (set_proposal p.id f ps) ≡ true
all-set_proposal q f ps p unique m h new =
    all-update_where_mem (has_id p.id) f q ps
      (λ x n t _.
        let same : x ≡ p =
          unique-eq (has_id p.id) ps x p (unique p.id) n m t (eq→== p.id p.id refl) in
        rw same new)
      h

module _ (approvals added : List Approval) where
  pub is_backed-append :
      (p : Proposal) → is_backed approvals p ≡ true → is_backed (approvals ++ added) p ≡ true
  is_backed-append p h = ground (
    arith,
    any-append_left (approves Stage.canary p) approvals added,
    any-append_left (approves Stage.promotion p) approvals added,
  )

  pub all-is_backed-append :
      (ps : List Proposal)
      → all (is_backed approvals) ps ≡ true
      → all (is_backed (approvals ++ added)) ps ≡ true
  all-is_backed-append ps h =
      all-weaken (is_backed approvals) (is_backed (approvals ++ added)) ps
        (λ p _ t. is_backed-append p t) h

  is_lawful-append :
      (c : Canary) → is_lawful approvals c ≡ true → is_lawful (approvals ++ added) c ≡ true
  is_lawful-append c h =
      ground (arith, any-append_left (approves_canary_of c.proposal_id) approvals added)

  pub all-is_lawful-append :
      (cs : List Canary)
      → all (is_lawful approvals) cs ≡ true
      → all (is_lawful (approvals ++ added)) cs ≡ true
  all-is_lawful-append cs h =
      all-weaken (is_lawful approvals) (is_lawful (approvals ++ added)) cs
        (λ c _ t. is_lawful-append c t) h
