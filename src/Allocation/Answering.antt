-- ===== src/Allocation/Answering.antt =====
-- The table of a workflow selection is never empty.
use google_connector_app.Prelude.{
  ℕ, ◌≡◌, refl, Bool, true, some, List, [], ◌∷◌, take, suc, arith, length, nonempty, leb,
  Bool-cases, Option-cases, inl, inr,
}
use google_connector_app.Knapsack.{
  Entry, Move, moved, offer, offer_move, relax, run_stages, relax_each, max_entry,
}
use google_connector_app.Allocation.{
  AllocationOption, Limits, insert_sorted, sort_by, pair_key, less_pair, prune_states, no_options,
  workflow_states,
}

-- The table is never empty: an offer leaves an entry, and pruning keeps some.
pub nonempty-offer :
    (e : Entry (ℕ × ℕ) AllocationOption) (states : List (Entry (ℕ × ℕ) AllocationOption))
    → nonempty (offer pair_key e states) ≡ true
unfolding offer
nonempty-offer e [] = refl
nonempty-offer e (c ∷ states) = ground arith

pub nonempty-offer_move :
    (m : Move (ℕ × ℕ) AllocationOption) (s : Entry (ℕ × ℕ) AllocationOption)
    (updated : List (Entry (ℕ × ℕ) AllocationOption))
    → nonempty updated ≡ true
    → nonempty (offer_move pair_key m s updated) ≡ true
unfolding offer_move
nonempty-offer_move m s updated h = elim (Option-cases (m.step s.key)) [
  | inl stuck ↦ rw (stuck, offer_move) h
  | inr (k, e) ↦ rw (e, offer_move) (nonempty-offer (moved m s k) updated)
]

pub nonempty-relax :
    (m : Move (ℕ × ℕ) AllocationOption) (states updated : List (Entry (ℕ × ℕ) AllocationOption))
    → nonempty updated ≡ true
    → nonempty (relax pair_key m states updated) ≡ true
unfolding relax
nonempty-relax m [] updated h = h
nonempty-relax m (s ∷ states) updated h =
    nonempty-relax m states _ (nonempty-offer_move m s updated h)

pub nonempty-relax_each :
    (ms : List (Move (ℕ × ℕ) AllocationOption))
    (states updated : List (Entry (ℕ × ℕ) AllocationOption))
    → nonempty updated ≡ true
    → nonempty (relax_each pair_key ms states updated) ≡ true
unfolding relax_each
nonempty-relax_each [] states updated h = h
nonempty-relax_each (m ∷ ms) states updated h =
    nonempty-relax_each ms states _ (nonempty-relax m states updated h)

pub nonempty-insert :
    {A : Type 0} (first : A → A → Bool) (a : A) (xs : List A)
    → nonempty (insert_sorted first a xs) ≡ true
unfolding insert_sorted
nonempty-insert first a [] = refl
nonempty-insert first a (b ∷ xs) = ground arith

pub nonempty-sort :
    {A : Type 0} (first : A → A → Bool) (xs : List A)
    → nonempty xs ≡ true
    → nonempty (sort_by first xs) ≡ true
unfolding sort_by
nonempty-sort first [] h = h
nonempty-sort first (a ∷ xs) h = nonempty-insert first a (sort_by first xs)

pub nonempty-take :
    {A : Type 0} (n : ℕ) (xs : List A) → nonempty xs ≡ true → nonempty (take (suc n) xs) ≡ true
nonempty-take n [] h = h
nonempty-take n (x ∷ xs) h = refl

pub nonempty-prune :
    (limit : ℕ) (states : List (Entry (ℕ × ℕ) AllocationOption))
    → nonempty states ≡ true
    → nonempty (prune_states (suc limit) states) ≡ true
unfolding prune_states
nonempty-prune limit states h = elim (Bool-cases (leb (length states) (suc limit))) [
  | inl t ↦ rw t h
  | inr f ↦ rw f (nonempty-take limit _ (nonempty-sort _ states h))
]

pub nonempty-run :
    (limit : ℕ) (stages : List (List (Move (ℕ × ℕ) AllocationOption)))
    (states : List (Entry (ℕ × ℕ) AllocationOption))
    → nonempty states ≡ true
    → nonempty (run_stages pair_key (prune_states (suc limit)) stages states) ≡ true
unfolding run_stages
nonempty-run limit [] states h = h
nonempty-run limit (ms ∷ stages) states h =
    nonempty-run limit stages _ (nonempty-prune limit _ (nonempty-relax_each ms states states h))

pub nonempty-max :
    (states : List (Entry (ℕ × ℕ) AllocationOption))
    → nonempty states ≡ true
    → (s : Entry (ℕ × ℕ) AllocationOption) × (max_entry less_pair states ≡ some s)
unfolding max_entry
nonempty-max [] h = cc
nonempty-max (s ∷ states) h = (_, refl)

pub workflow-entry :
    (limit : ℕ) (l : Limits) (max_tasks max_options : ℕ) (options : List AllocationOption)
    → (s : Entry (ℕ × ℕ) AllocationOption) × (max_entry less_pair
          (workflow_states (suc limit) l max_tasks max_options options)
        ≡ some s)
unfolding workflow_states
workflow-entry limit l max_tasks max_options options =
    nonempty-max _ (nonempty-run limit _ (no_options ∷ []) refl)
