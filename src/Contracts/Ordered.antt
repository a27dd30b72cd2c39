-- ===== src/Contracts/Ordered.antt =====
-- What an ordered contract asks of the tools that succeeded.
use mathlib.Core.Path.{subst}
use google_connector_app.Prelude.{
  String, ◌≡◌, refl, sym, ◌∙◌, true, false, none, some, List, [], ◌∷◌, ◌++◌, eq_refl, str_eq,
  str_eq→eq, eq→str_eq, ◌↔◌, ◌⊎◌, inl, inr, Bool-cases,
}
use google_connector_app.Contracts.{
  WriteContract, ordered, Execution, in_order, first_mismatch, contract_satisfied,
  next_ordered_required_tool, successful_required_tools,
}

-- The names stand in the trace in this order, with anything before, between and after.
pub data Embeds : List String → List String → Type 0 where
  done : {xs : List String} → Embeds [] xs
  take_it : {x : String} {ns xs : List String} → Embeds ns xs → Embeds (x ∷ ns) (x ∷ xs)
  skip_it : {x : String} {ns xs : List String} → Embeds ns xs → Embeds ns (x ∷ xs)

not_in_nil : {n : String} {ns : List String} → ¬ Embeds (n ∷ ns) []
not_in_nil e = elim e [ ]

-- An embedding that need not use the first name's first occurrence can be moved onto it.
Embeds-tail : {n : String} {ns xs : List String} → Embeds (n ∷ ns) xs → Embeds ns xs
Embeds-tail (take_it e) = skip_it e
Embeds-tail (skip_it e) = skip_it (Embeds-tail e)

module _ (n : String) (ns : List String) (x : String) (xs : List String) where
  in_order-hit : str_eq x n ≡ true → in_order (n ∷ ns) (x ∷ xs) ≡ in_order ns xs
  unfolding in_order
  in_order-hit h = rw (h, in_order)

  in_order-miss : str_eq x n ≡ false → in_order (n ∷ ns) (x ∷ xs) ≡ in_order (n ∷ ns) xs
  unfolding in_order
  in_order-miss h = rw (h, in_order)

pub in_order→Embeds : (ns xs : List String) → in_order ns xs ≡ true → Embeds ns xs
in_order→Embeds [] xs h = done
in_order→Embeds (n ∷ ns) [] h = unfold in_order in cc
in_order→Embeds (n ∷ ns) (x ∷ xs) h = elim (Bool-cases (str_eq x n)) [
  | inl hit ↦
      subst (λ y. Embeds (n ∷ ns) (y ∷ xs)) (sym (str_eq→eq x n hit))
        (take_it (in_order→Embeds ns xs (sym (in_order-hit n ns x xs hit) ∙ h)))
  | inr other ↦ skip_it (in_order→Embeds (n ∷ ns) xs (sym (in_order-miss n ns x xs other) ∙ h))
]

rest_of : {n x : String} {ns xs : List String} → Embeds (n ∷ ns) (x ∷ xs) → Embeds ns xs
rest_of (take_it e) = e
rest_of (skip_it e) = Embeds-tail e

same_or_later :
    {n x : String} {ns xs : List String} → Embeds (n ∷ ns) (x ∷ xs) → (x ≡ n) ⊎ Embeds (n ∷ ns) xs
same_or_later (take_it e) = inl refl
same_or_later (skip_it e) = inr e

Embeds→in_order : (ns xs : List String) → Embeds ns xs → in_order ns xs ≡ true
Embeds→in_order [] xs e = unfold in_order in refl
Embeds→in_order (n ∷ ns) [] e = absurd (not_in_nil e)
Embeds→in_order (n ∷ ns) (x ∷ xs) e = elim (Bool-cases (str_eq x n)) [
  | inl hit ↦ in_order-hit n ns x xs hit ∙ Embeds→in_order ns xs (rest_of e)
  | inr other ↦ elim (same_or_later e) [
    | inl same ↦ cc (other, eq→str_eq x n same)
    | inr later ↦ in_order-miss n ns x xs other ∙ Embeds→in_order (n ∷ ns) xs later
  ]
]

-- An ordered contract counts as satisfied exactly when its required tools succeeded in their
-- order, with anything before, between and after.
pub contract_satisfied-Embeds :
    (c : WriteContract) (executions : List Execution)
    → c.completion_mode ≡ ordered
    → (contract_satisfied c executions ≡ true)
      ↔ Embeds c.required_tools (successful_required_tools c executions)
unfolding contract_satisfied
contract_satisfied-Embeds c executions mode = rw mode (in_order→Embeds _ _, Embeds→in_order _ _)

-- Nothing is left to do: the required tools stand first in the trace, in order.
first_mismatch-none : (ns xs : List String) → first_mismatch ns xs ≡ none → Embeds ns xs
unfolding first_mismatch
first_mismatch-none [] xs h = done
first_mismatch-none (n ∷ ns) [] h = cc
first_mismatch-none (n ∷ ns) (x ∷ xs) h = elim (Bool-cases (str_eq x n)) [
  | inl hit ↦
      subst (λ y. Embeds (n ∷ ns) (y ∷ xs)) (sym (str_eq→eq x n hit))
        (take_it (first_mismatch-none ns xs (rw (hit) at h)))
  | inr other ↦ cc (rw other at h)
]

-- Where an ordered contract has no next required tool, it is satisfied.
pub next_ordered-none :
    (c : WriteContract) (executions : List Execution)
    → c.completion_mode ≡ ordered
    → next_ordered_required_tool (some c) executions ≡ none
    → contract_satisfied c executions ≡ true
unfolding next_ordered_required_tool successful_required_tools
next_ordered-none c executions mode h =
    (contract_satisfied-Embeds c executions mode).1 (first_mismatch-none _ _ (rw mode at h))

-- Behind a prefix of the required tools, the next one is the first that is left.
pub first_mismatch-prefix :
    (xs after : List String) (r : String) → first_mismatch (xs ++ r ∷ after) xs ≡ some r
unfolding first_mismatch
first_mismatch-prefix [] after r = refl
first_mismatch-prefix (x ∷ xs) after r = rw (eq_refl, first_mismatch-prefix xs after r)
