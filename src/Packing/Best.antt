-- ===== src/Packing/Best.antt =====
-- The dynamic program is optimal.
use mathlib.Core.List.{Memᴰ}
use google_connector_app.Prelude.{
  ℕ, ◌+◌, ◌≤◌, ◌<◌, ◌≡◌, refl, ap, true, false, some, List, [], ◌∷◌, arith, all, ltb, ◌==◌,
}
use google_connector_app.Windows.{Codecs}
use google_connector_app.Knapsack.{Entry, answered, max_entry}
use google_connector_app.Knapsack.Optimal.{
  Route, Has, IsByValue, Unpruned, run_stages-Has, max_entry-Has,
}
use google_connector_app.Packing.{
  Document, PackingDecision, document_value, units, capacity_of, number_key, packing_move,
  packing_stages, packing_states, less_packed, nothing_packed, select_dp, packed, is_counted,
  total_cost,
}
use google_connector_app.Packing.Chosen.{
  Sublist, done, skip, pick, sum_units, sum_value, max-IsPacked,
}

less_packed-IsByValue : IsByValue less_packed
less_packed-IsByValue = record { up = λ s t h. ground arith; down = λ s t h. ground arith }

module _ (codecs : Codecs) (quantum capacity : ℕ) where
  all_skipped :
      (ds : List Document) (k v : ℕ) → Route k v (packing_stages codecs quantum capacity ds) k v
  all_skipped [] k v = Route.done
  all_skipped (d ∷ ds) k v = Route.skip (all_skipped ds k v)

  -- A choice that fits is a route.
  Sublist-Route :
      (ds xs : List Document) (k v last total : ℕ)
      → Sublist xs ds
      → last ≡ k + sum_units codecs quantum xs
      → total ≡ v + sum_value xs
      → last ≤ capacity
      → Route last total (packing_stages codecs quantum capacity ds) k v
  Sublist-Route [] [] k v last total done e f h =
      let same : k ≡ last = omega arith in
      let equal : v ≡ total = omega arith in rw (same, equal) (all_skipped [] last total)
  Sublist-Route [] (x ∷ xs) k v last total s e f h = elim s [ ]
  Sublist-Route (d ∷ ds) xs k v last total (skip y s) e f h =
      Route.skip (Sublist-Route ds xs k v last total s e f h)
  Sublist-Route (d ∷ ds) (x ∷ xs) k v last total (pick y z same s) e f h =
      let u : units codecs quantum x ≡ units codecs quantum d = ap (units codecs quantum) same in
      let w : document_value x ≡ document_value d = ap document_value same in
      let fits : ltb capacity (k + units codecs quantum d) ≡ false = ground arith in
      Route.pick (packing_move codecs quantum capacity d) (k + units codecs quantum d)
        (Memᴰ.head refl) (rw fits refl)
        (Sublist-Route ds xs (k + units codecs quantum d) (v + document_value d) last total s
          (omega arith) (omega arith) h)

  stages-Unpruned :
      (ds : List Document) (states : List (Entry ℕ Document))
      → Unpruned number_key (λ s. s) (packing_stages codecs quantum capacity ds) states
  stages-Unpruned [] states = tt
  stages-Unpruned (d ∷ ds) states = (refl, stages-Unpruned ds _)

  states-Has :
      (ds xs : List Document)
      → Sublist xs ds
      → sum_units codecs quantum xs ≤ capacity
      → Has (packing_states codecs quantum capacity ds) (sum_units codecs quantum xs) (sum_value xs)
  unfolding packing_states
  states-Has ds xs s h =
      run_stages-Has number_key (λ s. s) (packing_stages codecs quantum capacity ds)
        (nothing_packed ∷ []) (sum_units codecs quantum xs) (sum_value xs) 0 0
        (stages-Unpruned ds (nothing_packed ∷ []))
        (Sublist-Route ds xs 0 0 _ _ s (omega arith) (omega arith) h)
        (record {
          entry = nothing_packed;
          among = Memᴰ.head refl;
          at_key = refl;
          enough = omega arith;
        })

  -- The entry that is taken at the end is worth as much as any choice that fits.
  max-best :
      (candidates : List Document) (s : Entry ℕ Document)
      → max_entry less_packed (packing_states codecs quantum capacity candidates) ≡ some s
      → (xs : List Document) → Sublist xs candidates
      → sum_units codecs quantum xs ≤ capacity
      → sum_value xs ≤ s.value
  max-best candidates s found xs sub h =
      let (e, here, more) =
        max_entry-Has less_packed less_packed-IsByValue
          (packing_states codecs quantum capacity candidates) _ _
          (states-Has candidates xs sub h) in
      let same : e ≡ s = cc (here, found) in rw (← same) more

nothing : (ds : List Document) → Sublist [] ds
nothing [] = done
nothing (d ∷ ds) = skip d (nothing ds)

-- The table has an entry, for taking nothing fits.
pub dp-entry :
    (codecs : Codecs) (max_tokens quantum : ℕ) (candidates : List Document)
    → (s : Entry ℕ Document) × (max_entry less_packed
          (packing_states codecs quantum (capacity_of max_tokens quantum) candidates)
        ≡ some s)
dp-entry codecs max_tokens quantum candidates =
    let (s, found, more) =
      max_entry-Has less_packed less_packed-IsByValue
        (packing_states codecs quantum (capacity_of max_tokens quantum) candidates) 0 0
        (states-Has codecs quantum (capacity_of max_tokens quantum) candidates []
          (nothing candidates) (omega arith)) in
    (s, found)

pub select_dp-answered :
    (codecs : Codecs) (max_tokens quantum : ℕ) (candidates : List Document) (s : Entry ℕ Document)
    → 0 < quantum
    → all (is_counted codecs) candidates ≡ true
    → max_entry less_packed
        (packing_states codecs quantum (capacity_of max_tokens quantum) candidates)
      ≡ some s
    → select_dp codecs max_tokens quantum candidates ≡ answered (packed codecs s)
unfolding select_dp
select_dp-answered codecs max_tokens quantum candidates s h counted found =
    let divides : (quantum == 0) ≡ false = ground arith in rw (divides, counted, found) refl

-- The best choice among the candidates that fits the capacity in units.
pub record IsBest (codecs : Codecs) (quantum capacity : ℕ) (candidates : List Document)
    (p : PackingDecision) : Type 0 where
  pub from : Sublist p.documents candidates
  pub within : sum_units codecs quantum p.documents ≤ capacity
  pub estimated : p.estimated_tokens ≡ total_cost codecs p.documents
  pub valued : p.estimated_value ≡ sum_value p.documents
  pub best :
      (xs : List Document)
      → Sublist xs candidates
      → sum_units codecs quantum xs ≤ capacity
      → sum_value xs ≤ p.estimated_value

-- With a positive quantum, and candidates that the tokenizer can all count, the dynamic program
-- answers with documents at some places of the candidates, no place twice, whose costs in units fit
-- the capacity; the tokens and the value of the answer are their sums; and no choice of places whose
-- costs in units fit the capacity has a greater value.
pub select_dp-optimal :
    (codecs : Codecs) (max_tokens quantum : ℕ) (candidates : List Document)
    → 0 < quantum
    → all (is_counted codecs) candidates ≡ true
    → (p : PackingDecision) × (select_dp codecs max_tokens quantum candidates ≡ answered p)
      × IsBest codecs quantum (capacity_of max_tokens quantum) candidates p
select_dp-optimal codecs max_tokens quantum candidates h counted =
    let capacity : ℕ = capacity_of max_tokens quantum in
    let (s, found) = dp-entry codecs max_tokens quantum candidates in
    let p = max-IsPacked codecs quantum capacity candidates s found in
    (
      packed codecs s,
      select_dp-answered codecs max_tokens quantum candidates s h counted found,
      record {
        from = p.from;
        within = rw (← p.counted) p.within;
        estimated = refl;
        valued = p.valued;
        best = max-best codecs quantum capacity candidates s found;
      },
    )
