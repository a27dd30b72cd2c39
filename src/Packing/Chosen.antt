-- ===== src/Packing/Chosen.antt =====
-- What the entries of the dynamic program's table are: documents at some places of the candidates.
use mathlib.Core.List.{Memᴰ}
use mathlib.Core.Path.{subst}
use google_connector_app.Prelude.{
  ℕ, ◌+◌, ◌≤◌, ◌≡◌, refl, sym, some, List, [], ◌∷◌, ◌++◌, arith, append_assoc, append-nil,
}
use google_connector_app.Windows.{Codecs}
use google_connector_app.Knapsack.{Entry, Move, moved, run_stages, relax_each, max_entry}
use google_connector_app.Knapsack.Bounding.{Every, relax_each-Every, max_entry-Every}
use google_connector_app.Packing.{
  Document, document_value, units, number_key, packing_move, packing_stages, packing_states,
  less_packed, nothing_packed,
}

-- The documents at some places of a list, each place at most once, in the list's order.
pub data Sublist : List Document → List Document → Type 0 where
  done : Sublist [] []
  skip : {xs ds : List Document} (d : Document) → Sublist xs ds → Sublist xs (d ∷ ds)
  pick :
      {xs ds : List Document} (e d : Document) → e ≡ d → Sublist xs ds → Sublist (e ∷ xs) (d ∷ ds)

skip-last : {xs ds : List Document} (d : Document) → Sublist xs ds → Sublist xs (ds ++ d ∷ [])
skip-last d done = skip d done
skip-last d (skip e s) = skip e (skip-last d s)
skip-last d (pick x e same s) = pick x e same (skip-last d s)

pick-last :
    {xs ds : List Document} (d : Document) → Sublist xs ds → Sublist (xs ++ d ∷ []) (ds ++ d ∷ [])
pick-last d done = pick d d refl done
pick-last d (skip e s) = skip e (pick-last d s)
pick-last d (pick x e same s) = pick x e same (pick-last d s)

pub Sublist-mem : {xs ds : List Document} → Sublist xs ds → (x : Document) → Memᴰ x xs → Memᴰ x ds
Sublist-mem done x m = m
Sublist-mem (skip d s) x m = Memᴰ.tail (Sublist-mem s x m)
Sublist-mem (pick e d same s) x (Memᴰ.head h) = Memᴰ.head (rw (← same) h)
Sublist-mem (pick e d same s) x (Memᴰ.tail m) = Memᴰ.tail (Sublist-mem s x m)

abbrev pub sum_units : Codecs → ℕ → List Document → ℕ
sum_units codecs quantum [] = 0
sum_units codecs quantum (d ∷ ds) = units codecs quantum d + sum_units codecs quantum ds

abbrev pub sum_value : List Document → ℕ
sum_value [] = 0
sum_value (d ∷ ds) = document_value d + sum_value ds

units-snoc :
    (codecs : Codecs) (quantum : ℕ) (ds : List Document) (d : Document)
    → sum_units codecs quantum (ds ++ d ∷ []) ≡ sum_units codecs quantum ds + units codecs quantum d
units-snoc codecs quantum [] d = omega arith
units-snoc codecs quantum (e ∷ ds) d = omega (arith, units-snoc codecs quantum ds d)

pub value-snoc :
    (ds : List Document) (d : Document) → sum_value (ds ++ d ∷ []) ≡ sum_value ds + document_value d
value-snoc [] d = omega arith
value-snoc (e ∷ ds) d = omega (arith, value-snoc ds d)

-- What an entry of the table is, after the candidates `ds`.
pub record IsPacked (codecs : Codecs) (quantum capacity : ℕ) (ds : List Document)
    (e : Entry ℕ Document) : Type 0 where
  pub counted : e.key ≡ sum_units codecs quantum e.selected
  pub within : e.key ≤ capacity
  pub valued : e.value ≡ sum_value e.selected
  pub from : Sublist e.selected ds

module _ (codecs : Codecs) (quantum capacity : ℕ) where
  passed_over :
      (ds : List Document) (d : Document) (e : Entry ℕ Document)
      → IsPacked codecs quantum capacity ds e
      → IsPacked codecs quantum capacity (ds ++ d ∷ []) e
  passed_over ds d e p = record {
    counted = p.counted;
    within = p.within;
    valued = p.valued;
    from = skip-last d p.from;
  }

  moved-IsPacked :
      (ds : List Document) (d : Document) (s : Entry ℕ Document) (k : ℕ)
      → IsPacked codecs quantum capacity ds s
      → (packing_move codecs quantum capacity d).step s.key ≡ some k
      → IsPacked codecs quantum capacity
          (ds ++ d ∷ [])
          (moved (packing_move codecs quantum capacity d) s k)
  moved-IsPacked ds d s k p e = record {
    counted =
        let g = units-snoc codecs quantum s.selected d in
        let c = p.counted in
        let same : k ≡ s.key + units codecs quantum d = ground arith in omega arith;
    within = ground arith;
    valued = let g = value-snoc s.selected d in let c = p.valued in omega arith;
    from = pick-last d p.from;
  }

  one-Leads :
      (ds : List Document) (d : Document) (m : Move ℕ Document)
      → Memᴰ m (packing_move codecs quantum capacity d ∷ [])
      → (s : Entry ℕ Document) (k : ℕ) → IsPacked codecs quantum capacity ds s
      → m.step s.key ≡ some k
      → IsPacked codecs quantum capacity (ds ++ d ∷ []) (moved m s k)
  one-Leads ds d m (Memᴰ.head same) s k p e =
      subst (λ y. IsPacked codecs quantum capacity (ds ++ d ∷ []) (moved y s k)) (sym same)
        (moved-IsPacked ds d s k p (subst (λ y. y.step s.key ≡ some k) same e))
  one-Leads ds d m (Memᴰ.tail r) s k p e = elim r [ ]

  run-IsPacked :
      (before ds : List Document) (states : List (Entry ℕ Document))
      → Every (IsPacked codecs quantum capacity before) states
      → Every
          (IsPacked codecs quantum capacity (before ++ ds))
          (run_stages number_key (λ s. s) (packing_stages codecs quantum capacity ds) states)
  unfolding run_stages
  run-IsPacked before [] states h = rw (append-nil before) h
  run-IsPacked before (d ∷ ds) states h =
      subst
        (λ seen. Every (IsPacked codecs quantum capacity seen) (
          run_stages number_key (λ s. s) (packing_stages codecs quantum capacity ds)
            (relax_each number_key (packing_move codecs quantum capacity d ∷ []) states states)))
        (append_assoc before (d ∷ []) ds)
        (run-IsPacked (before ++ d ∷ []) ds _ (
          relax_each-Every number_key (IsPacked codecs quantum capacity (before ++ d ∷ []))
            (IsPacked codecs quantum capacity before) (packing_move codecs quantum capacity d ∷ [])
            states states (one-Leads before d) h (λ x m. passed_over before d x (h x m))))

  start-Every : Every (IsPacked codecs quantum capacity []) (nothing_packed ∷ [])
  start-Every x (Memᴰ.head e) =
      subst (IsPacked codecs quantum capacity []) (sym e)
        (record { counted = refl; within = omega arith; valued = refl; from = done })
  start-Every x (Memᴰ.tail m) = elim m [ ]

  -- The entry that is taken at the end.
  pub max-IsPacked :
      (candidates : List Document) (s : Entry ℕ Document)
      → max_entry less_packed (packing_states codecs quantum capacity candidates) ≡ some s
      → IsPacked codecs quantum capacity candidates s
  unfolding packing_states
  max-IsPacked candidates s found =
      max_entry-Every number_key (IsPacked codecs quantum capacity candidates) less_packed _ s
        (run-IsPacked [] candidates (nothing_packed ∷ []) start-Every) found
