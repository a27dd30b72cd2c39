-- ===== src/Knapsack/Optimal.antt =====
-- No way of taking moves beats the table.
use mathlib.Core.List.{Memᴰ}
use google_connector_app.Prelude.{
  ℕ, ◌+◌, ◌≤◌, ◌≡◌, refl, sym, ap, ◌∙◌, Bool, true, false, some, List, [], ◌∷◌, arith, ltb,
  if◌then◌else◌, Bool-cases, Option-cases, inl, inr, le_trans,
}
use google_connector_app.Knapsack.{
  Entry, Move, Key, moved, offer, offer_move, relax, relax_each, run_stages, max_from, max_entry,
}

-- Choosing at most one move of each stage leads from a key and a value to others.
pub data Route {K A : Type 0} (last : K) (total : ℕ) : List (List (Move K A)) → K → ℕ → Type 0 where
  done : Route last total [] last total
  skip :
      {ms : List (Move K A)} {stages : List (List (Move K A))} {k : K} {v : ℕ}
      → Route last total stages k v
      → Route last total (ms ∷ stages) k v
  pick :
      {ms : List (Move K A)} {stages : List (List (Move K A))} {k : K} {v : ℕ} (m : Move K A)
      (next : K)
      → Memᴰ m ms
      → m.step k ≡ some next
      → Route last total stages next (v + m.gain)
      → Route last total (ms ∷ stages) k v

-- The table has an entry at the key with at least the value.
pub record Has {K A : Type 0} (states : List (Entry K A)) (k : K) (v : ℕ) : Type 0 where
  pub entry : Entry K A
  pub among : Memᴰ entry states
  pub at_key : entry.key ≡ k
  pub enough : v ≤ entry.value

module _ {K A : Type 0} (key : Key K) where
  Has-cons :
      (c : Entry K A) (states : List (Entry K A)) (k : K) (v : ℕ)
      → Has states k v
      → Has (c ∷ states) k v
  Has-cons c states k v h = record {
    entry = h.entry;
    among = Memᴰ.tail h.among;
    at_key = h.at_key;
    enough = h.enough;
  }

  Has-head :
      (c : Entry K A) (states : List (Entry K A)) (k : K) (v : ℕ)
      → c.key ≡ k
      → v ≤ c.value
      → Has (c ∷ states) k v
  Has-head c states k v e h = record { entry = c; among = Memᴰ.head refl; at_key = e; enough = h }

  -- An offer is taken or beaten.
  offer-here : (e : Entry K A) (states : List (Entry K A)) → Has (offer key e states) e.key e.value
  unfolding offer
  offer-here e [] = Has-head e [] e.key e.value refl (omega arith)
  offer-here e (c ∷ states) = elim (Bool-cases (key.same c.key e.key)) [
    | inl t ↦ elim (Bool-cases (ltb c.value e.value)) [
      | inl u ↦ rw (t, u) (Has-head e states e.key e.value refl (omega arith))
      | inr w ↦
          rw (t, w) (Has-head c states e.key e.value (key.same_iff c.key e.key t) (ground arith))
    ]
    | inr f ↦ rw f (Has-cons c (offer key e states) e.key e.value (offer-here e states))
  ]

  -- And makes no entry worse.
  offer-keeps :
      (e : Entry K A) (states : List (Entry K A)) (k : K) (v : ℕ) (x : Entry K A)
      → Memᴰ x states
      → x.key ≡ k
      → v ≤ x.value
      → Has (offer key e states) k v
  unfolding offer
  offer-keeps e [] k v x m d h = elim m [ ]
  offer-keeps e (c ∷ states) k v x (Memᴰ.head same) d h = elim (Bool-cases (key.same c.key e.key)) [
    | inl t ↦ elim (Bool-cases (ltb c.value e.value)) [
      | inl u ↦
          rw (t, u)
            (Has-head e states k v
              (sym (key.same_iff c.key e.key t) ∙ ap (λ y. y.key) (sym same) ∙ d)
              (let g : v ≤ c.value = rw (← same) h in ground arith))
      | inr w ↦ rw (t, w) (Has-head c states k v (ap (λ y. y.key) (sym same) ∙ d) (rw (← same) h))
    ]
    | inr f ↦
        rw f (Has-head c (offer key e states) k v (ap (λ y. y.key) (sym same) ∙ d) (rw (← same) h))
  ]
  offer-keeps e (c ∷ states) k v x (Memᴰ.tail m) d h = elim (Bool-cases (key.same c.key e.key)) [
    | inl t ↦ rw t (
        Has-cons (if ltb c.value e.value then e else c) states k v
          (record { entry = x; among = m; at_key = d; enough = h }))
    | inr f ↦ rw f (Has-cons c (offer key e states) k v (offer-keeps e states k v x m d h))
  ]

  offer_move-keeps :
      (m : Move K A) (s : Entry K A) (updated : List (Entry K A)) (k : K) (v : ℕ)
      → Has updated k v
      → Has (offer_move key m s updated) k v
  unfolding offer_move
  offer_move-keeps m s updated k v h = elim (Option-cases (m.step s.key)) [
    | inl stuck ↦ rw (stuck, offer_move) h
    | inr (next, e) ↦
        rw (e, offer_move)
          (offer-keeps (moved m s next) updated k v h.entry h.among h.at_key h.enough)
  ]

  offer_move-here :
      (m : Move K A) (s : Entry K A) (updated : List (Entry K A)) (k : K)
      → m.step s.key ≡ some k
      → Has (offer_move key m s updated) k (s.value + m.gain)
  unfolding offer_move
  offer_move-here m s updated k e = rw (e, offer_move) (offer-here (moved m s k) updated)

  relax-keeps :
      (m : Move K A) (states updated : List (Entry K A)) (k : K) (v : ℕ)
      → Has updated k v
      → Has (relax key m states updated) k v
  unfolding relax
  relax-keeps m [] updated k v h = h
  relax-keeps m (s ∷ states) updated k v h =
      relax-keeps m states (offer_move key m s updated) k v (offer_move-keeps m s updated k v h)

  relax-here :
      (m : Move K A) (states updated : List (Entry K A)) (s : Entry K A) (k : K)
      → Memᴰ s states
      → m.step s.key ≡ some k
      → Has (relax key m states updated) k (s.value + m.gain)
  unfolding relax
  relax-here m [] updated s k n e = elim n [ ]
  relax-here m (t ∷ states) updated s k (Memᴰ.head same) e =
      relax-keeps m states (offer_move key m t updated) k (s.value + m.gain) (
        rw (ap (λ y. y.value) same)
          (offer_move-here m t updated k (rw (ap (λ y. y.key) (sym same)) e)))
  relax-here m (t ∷ states) updated s k (Memᴰ.tail n) e =
      relax-here m states (offer_move key m t updated) s k n e

  relax_each-keeps :
      (ms : List (Move K A)) (states updated : List (Entry K A)) (k : K) (v : ℕ)
      → Has updated k v
      → Has (relax_each key ms states updated) k v
  unfolding relax_each
  relax_each-keeps [] states updated k v h = h
  relax_each-keeps (m ∷ ms) states updated k v h =
      relax_each-keeps ms states (relax key m states updated) k v
        (relax-keeps m states updated k v h)

  relax_each-here :
      (ms : List (Move K A)) (states updated : List (Entry K A)) (m : Move K A) (s : Entry K A)
      (k : K)
      → Memᴰ m ms
      → Memᴰ s states
      → m.step s.key ≡ some k
      → Has (relax_each key ms states updated) k (s.value + m.gain)
  unfolding relax_each
  relax_each-here [] states updated m s k n among e = elim n [ ]
  relax_each-here (p ∷ ms) states updated m s k (Memᴰ.head same) among e =
      relax_each-keeps ms states (relax key p states updated) k (s.value + m.gain) (
        rw (ap (λ y. y.gain) same)
          (relax-here p states updated s k among (rw (ap (λ y. y.step) (sym same)) e)))
  relax_each-here (p ∷ ms) states updated m s k (Memᴰ.tail n) among e =
      relax_each-here ms states (relax key p states updated) m s k n among e

  module _ (prune : List (Entry K A) → List (Entry K A)) where
    -- No table on the way is changed by the pruning.
    abbrev pub Unpruned : List (List (Move K A)) → List (Entry K A) → Type 0
    Unpruned [] states = Unit
    Unpruned (ms ∷ stages) states =
        (prune (relax_each key ms states states) ≡ relax_each key ms states states)
        × Unpruned stages (relax_each key ms states states)

    Has-weaken :
        (states : List (Entry K A)) (k : K) (u v : ℕ) → u ≤ v → Has states k v → Has states k u
    Has-weaken states k u v le h = record {
      entry = h.entry;
      among = h.among;
      at_key = h.at_key;
      enough = le_trans le h.enough;
    }

    -- Where nothing is pruned, the last table has every key that a route leads to, with at least
    -- the route's value.
    pub run_stages-Has :
        (stages : List (List (Move K A))) (states : List (Entry K A)) (last : K) (total : ℕ) (k : K)
        (v : ℕ)
        → Unpruned stages states
        → Route last total stages k v
        → Has states k v
        → Has (run_stages key prune stages states) last total
    unfolding run_stages
    run_stages-Has [] states last total k v u Route.done h = h
    run_stages-Has (ms ∷ stages) states last total k v u (Route.skip r) h = rw u.0 (
        run_stages-Has stages (relax_each key ms states states) last total k v u.1 r
          (relax_each-keeps ms states states k v h))
    run_stages-Has (ms ∷ stages) states last total k v u (Route.pick m next n e r) h = rw u.0 (
        run_stages-Has stages (relax_each key ms states states) last total next (v + m.gain) u.1 r (
          Has-weaken (relax_each key ms states states) next (v + m.gain) (h.entry.value + m.gain)
            (let g = h.enough in omega arith)
            (relax_each-here ms states states m h.entry next n h.among (rw h.at_key e))))

module _ {K A : Type 0} (less : Entry K A → Entry K A → Bool) where
  -- A comparison that looks at the value first.
  pub record IsByValue : Type 0 where
    pub up : (s t : Entry K A) → less s t ≡ true → s.value ≤ t.value
    pub down : (s t : Entry K A) → less s t ≡ false → t.value ≤ s.value

  max_from_self :
      (h : IsByValue) (s : Entry K A) (states : List (Entry K A))
      → s.value ≤ (max_from less s states).value
  unfolding max_from
  max_from_self h s [] = omega arith
  max_from_self h s (t ∷ states) = elim (Bool-cases (less s t)) [
    | inl u ↦ rw (u, max_from) (le_trans (h.up s t u) (max_from_self h t states))
    | inr v ↦ rw (v, max_from) (max_from_self h s states)
  ]

  max_from-le :
      (h : IsByValue) (s : Entry K A) (states : List (Entry K A)) (x : Entry K A)
      → Memᴰ x states
      → x.value ≤ (max_from less s states).value
  unfolding max_from
  max_from-le h s [] x m = elim m [ ]
  max_from-le h s (t ∷ states) x (Memᴰ.head same) = elim (Bool-cases (less s t)) [
    | inl u ↦ rw (ap (λ y. y.value) same, u, max_from) (max_from_self h t states)
    | inr v ↦
        rw (ap (λ y. y.value) same, v, max_from)
          (le_trans (h.down s t v) (max_from_self h s states))
  ]
  max_from-le h s (t ∷ states) x (Memᴰ.tail m) = elim (Bool-cases (less s t)) [
    | inl u ↦ rw (u, max_from) (max_from-le h t states x m)
    | inr v ↦ rw (v, max_from) (max_from-le h s states x m)
  ]

  entry-le :
      (h : IsByValue) (s : Entry K A) (states : List (Entry K A)) (x : Entry K A)
      → Memᴰ x (s ∷ states)
      → x.value ≤ (max_from less s states).value
  entry-le h s states x (Memᴰ.head same) = rw (ap (λ y. y.value) same) (max_from_self h s states)
  entry-le h s states x (Memᴰ.tail m) = max_from-le h s states x m

  -- The maximum of a table is at least the value of each of its keys.
  pub max_entry-Has :
      (h : IsByValue) (states : List (Entry K A)) (k : K) (v : ℕ)
      → Has states k v
      → (e : Entry K A) × (max_entry less states ≡ some e) × (v ≤ e.value)
  unfolding max_entry
  max_entry-Has h [] k v d = elim d.among [ ]
  max_entry-Has h (s ∷ states) k v d =
      (max_from less s states, refl, le_trans d.enough (entry-le h s states d.entry d.among))
