-- ===== src/Knapsack.antt =====
-- The sparse tables of the dynamic programs in app/rag/context_packer.py and
-- app/improvements/dp_allocation.py: a dict from a key (the used budget) to the best value and its
-- selection, as the list of its entries in their order. Values are natural numbers in a fixed unit.
pub mod Bounding
pub mod Optimal
use google_connector_app.Prelude.{
  ℕ, ◌+◌, ◌≡◌, Bool, true, false, ◌&&◌, ◌||◌, Option, none, some, List, [], ◌∷◌, ◌++◌, length, leb,
  ltb, if◌then◌else◌,
}

pub record Entry (K A : Type 0) : Type 0 where
  pub key : K
  pub value : ℕ
  pub selected : List A

-- Taking an item: the key that it leads to, where it fits.
pub record Move (K A : Type 0) : Type 0 where
  pub step : K → Option K
  pub gain : ℕ
  pub item : A

-- What a selection comes to: Python's ZeroDivisionError, the ValueError of `max` of no states, the
-- tokenizer's error, or an answer.
pub data Answer (A : Type 0) : Type 0 where
  zero_division_error value_error encoder_error : Answer A
  answered : A → Answer A

-- The keys' equality.
pub record Key (K : Type 0) : Type 0 where
  pub same : K → K → Bool
  pub same_iff : (a b : K) → same a b ≡ true → a ≡ b
  pub same_refl : (a : K) → same a a ≡ true

module _ {K A : Type 0} where
  abbrev pub moved : Move K A → Entry K A → K → Entry K A
  moved m s k = record { key = k; value = s.value + m.gain; selected = s.selected ++ m.item ∷ [] }

  -- `if current is None or candidate[0] > current[0]: updated[key] = candidate`
  unfoldable pub offer : Key K → Entry K A → List (Entry K A) → List (Entry K A)
  offer key e [] = e ∷ []
  offer key e (c ∷ table) =
      if key.same c.key e.key
      then (if ltb c.value e.value then e else c) ∷ table
      else c ∷ offer key e table

  unfoldable pub offer_move : Key K → Move K A → Entry K A → List (Entry K A) → List (Entry K A)
  offer_move key m s updated = elim (m.step s.key) [
    | none ↦ updated
    | some k ↦ offer key (moved m s k) updated
  ]

  -- One move from every state.
  unfoldable pub relax : Key K → Move K A → List (Entry K A) → List (Entry K A) → List (Entry K A)
  unfolding offer_move
  relax key m [] updated = updated
  relax key m (s ∷ states) updated = relax key m states (offer_move key m s updated)

  -- The moves of one stage, of which at most one is taken.
  unfoldable pub relax_each :
      Key K → List (Move K A) → List (Entry K A) → List (Entry K A) → List (Entry K A)
  relax_each key [] states updated = updated
  relax_each key (m ∷ ms) states updated = relax_each key ms states (relax key m states updated)

  unfoldable pub run_stages :
      Key K
      → (List (Entry K A) → List (Entry K A))
      → List (List (Move K A))
      → List (Entry K A)
      → List (Entry K A)
  run_stages key prune [] states = states
  run_stages key prune (ms ∷ stages) states =
      run_stages key prune stages (prune (relax_each key ms states states))

  -- `max(states.items(), key=…)`: the first that no other exceeds.
  unfoldable pub max_from :
      (Entry K A → Entry K A → Bool) → Entry K A → List (Entry K A) → Entry K A
  max_from less s [] = s
  max_from less s (t ∷ states) = max_from less (if less s t then t else s) states

  unfoldable pub max_entry : (Entry K A → Entry K A → Bool) → List (Entry K A) → Option (Entry K A)
  unfolding max_from
  max_entry less [] = none
  max_entry less (s ∷ states) = some (max_from less s states)
