-- ===== src/Knapsack/Bounding.antt =====
-- What every entry of a table is like.
use mathlib.Core.List.{Memᴰ}
use google_connector_app.Prelude.{
  ◌≡◌, refl, Bool, some, List, [], ◌∷◌, ltb, Bool-cases, Option-cases, inl, inr,
}
use google_connector_app.Knapsack.{
  Entry, Move, Key, moved, offer, offer_move, relax, relax_each, max_from, max_entry,
}

-- All entries of a table satisfy `P`.
abbrev pub Every : {K A : Type 0} → (Entry K A → Type 0) → List (Entry K A) → Type 0
Every {K} {A} P states = (e : Entry K A) → Memᴰ e states → P e

module _ {K A : Type 0} (key : Key K) (Q : Entry K A → Type 0) where
  Every-cons :
      (e : Entry K A) (states : List (Entry K A)) → Q e → Every Q states → Every Q (e ∷ states)
  Every-cons e states p h x (Memᴰ.head d) = rw d p
  Every-cons e states p h x (Memᴰ.tail m) = h x m

  offer-Every :
      (e : Entry K A) (states : List (Entry K A))
      → Q e
      → Every Q states
      → Every Q (offer key e states)
  unfolding offer
  offer-Every e [] p h = Every-cons e [] p h
  offer-Every e (c ∷ states) p h = elim (Bool-cases (key.same c.key e.key)) [
    | inl t ↦ elim (Bool-cases (ltb c.value e.value)) [
      | inl u ↦ rw (t, u) (Every-cons e states p (λ x m. h x (Memᴰ.tail m)))
      | inr v ↦ rw (t, v) h
    ]
    | inr f ↦ rw f (
        Every-cons c (offer key e states) (h c (Memᴰ.head refl))
          (offer-Every e states p (λ x m. h x (Memᴰ.tail m))))
  ]

  max_from-Every :
      (less : Entry K A → Entry K A → Bool) (s : Entry K A) (states : List (Entry K A))
      → Q s
      → Every Q states
      → Q (max_from less s states)
  unfolding max_from
  max_from-Every less s [] p h = p
  max_from-Every less s (t ∷ states) p h = elim (Bool-cases (less s t)) [
    | inl u ↦ rw u (max_from-Every less t states (h t (Memᴰ.head refl)) (λ x m. h x (Memᴰ.tail m)))
    | inr v ↦ rw v (max_from-Every less s states p (λ x m. h x (Memᴰ.tail m)))
  ]

  pub max_entry-Every :
      (less : Entry K A → Entry K A → Bool) (states : List (Entry K A)) (e : Entry K A)
      → Every Q states
      → max_entry less states ≡ some e
      → Q e
  unfolding max_entry
  max_entry-Every less [] e h found = cc
  max_entry-Every less (s ∷ states) e h found =
      let same : max_from less s states ≡ e = cc in
      rw (← same) (max_from-Every less s states (h s (Memᴰ.head refl)) (λ x m. h x (Memᴰ.tail m)))

  -- A move leads from entries that satisfy `P` to entries that satisfy `Q`.
  module _ (P : Entry K A → Type 0) where
    abbrev pub Leads : Move K A → Type 0
    Leads m = (s : Entry K A) (k : K) → P s → m.step s.key ≡ some k → Q (moved m s k)

    offer_move-Every :
        (m : Move K A) (s : Entry K A) (updated : List (Entry K A))
        → Leads m
        → P s
        → Every Q updated
        → Every Q (offer_move key m s updated)
    unfolding offer_move
    offer_move-Every m s updated leads p h = elim (Option-cases (m.step s.key)) [
      | inl stuck ↦ rw (stuck, offer_move) h
      | inr (k, e) ↦ rw (e, offer_move) (offer-Every (moved m s k) updated (leads s k p e) h)
    ]

    relax-Every :
        (m : Move K A) (states updated : List (Entry K A))
        → Leads m
        → Every P states
        → Every Q updated
        → Every Q (relax key m states updated)
    unfolding relax
    relax-Every m [] updated leads g h = h
    relax-Every m (s ∷ states) updated leads g h =
        relax-Every m states (offer_move key m s updated) leads (λ x n. g x (Memᴰ.tail n))
          (offer_move-Every m s updated leads (g s (Memᴰ.head refl)) h)

    pub relax_each-Every :
        (ms : List (Move K A)) (states updated : List (Entry K A))
        → ((m : Move K A) → Memᴰ m ms → Leads m)
        → Every P states
        → Every Q updated
        → Every Q (relax_each key ms states updated)
    unfolding relax_each
    relax_each-Every [] states updated leads g h = h
    relax_each-Every (m ∷ ms) states updated leads g h =
        relax_each-Every ms states (relax key m states updated) (λ x n. leads x (Memᴰ.tail n)) g
          (relax-Every m states updated (leads m (Memᴰ.head refl)) g h)
