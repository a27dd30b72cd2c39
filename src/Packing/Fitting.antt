-- ===== src/Packing/Fitting.antt =====
-- What is chosen fits the budget and comes from the candidates.
use mathlib.Core.List.{Memᴰ}
use native.Mathlib.Nat.{lt-mul-div-succ, mul-div-le, mul-le-mul_left, mul-add}
use google_connector_app.Prelude.{
  all, true, ℕ, ◌+◌, ◌-◌, ◌*◌, ◌/◌, ◌≤◌, ◌<◌, ◌≡◌, refl, ap, Bool, not, ◌||◌, some, List, [], ◌∷◌,
  ◌++◌, take, arith, ltb, leb, ◌==◌, if◌then◌else◌, Bool-cases, inl, inr, ◌⊎◌, max, le_trans,
  nonempty,
}
use google_connector_app.Windows.{Codecs}
use google_connector_app.Knapsack.{answered, Entry, max_entry}
use google_connector_app.Packing.{
  Document, PackingDecision, Strategy, greedy, greedy_no_exact_tokenizer, is_exact, cost_of,
  document_value, units, capacity_of, packing_states, less_packed, packed, total_cost, take_fitting,
  sort_by_value, insert_by_value, select_greedy, select_context_documents, is_counted,
}
use google_connector_app.Packing.Chosen.{
  Sublist-mem, sum_units, sum_value, value-snoc, max-IsPacked,
}
use google_connector_app.Packing.Best.{dp-entry, select_dp-answered}

-- Documents that stand in a list.
abbrev pub From : List Document → List Document → Type 0
From candidates ds = (d : Document) → Memᴰ d ds → Memᴰ d candidates

mem-append : (xs : List Document) (d x : Document) → Memᴰ x (xs ++ d ∷ []) → Memᴰ x xs ⊎ (x ≡ d)
mem-append [] d x (Memᴰ.head e) = inr e
mem-append [] d x (Memᴰ.tail m) = elim m [ ]
mem-append (y ∷ xs) d x (Memᴰ.head e) = inl (Memᴰ.head e)
mem-append (y ∷ xs) d x (Memᴰ.tail m) = elim (mem-append xs d x m) [
  | inl n ↦ inl (Memᴰ.tail n)
  | inr e ↦ inr e
]

From-snoc :
    (candidates ds : List Document) (d : Document)
    → From candidates ds
    → Memᴰ d candidates
    → From candidates (ds ++ d ∷ [])
From-snoc candidates ds d h m x n = elim (mem-append ds d x n) [
  | inl old ↦ h x old
  | inr e ↦ rw e m
]

cost-snoc :
    (codecs : Codecs) (ds : List Document) (d : Document)
    → total_cost codecs (ds ++ d ∷ []) ≡ total_cost codecs ds + cost_of codecs d
unfolding total_cost
cost-snoc codecs [] d = omega arith
cost-snoc codecs (e ∷ ds) d = omega (arith, cost-snoc codecs ds d)

-- The greedy loop keeps its counts, its bound and its source.
take_fitting-fits :
    (codecs : Codecs) (max_tokens : ℕ) (ds candidates selected : List Document) (used value : ℕ)
    → From candidates ds
    → From candidates selected
    → used ≡ total_cost codecs selected
    → value ≡ sum_value selected
    → used ≤ max_tokens
    → let (documents, tokens, v) = take_fitting codecs max_tokens ds selected used value in
      (tokens ≡ total_cost codecs documents)
      × (v ≡ sum_value documents)
      × (tokens ≤ max_tokens)
      × From candidates documents
unfolding take_fitting
take_fitting-fits codecs max_tokens [] candidates selected used value f g e w h = (e, w, h, g)
take_fitting-fits codecs max_tokens (d ∷ ds) candidates selected used value f g e w h =
    elim (Bool-cases (ltb max_tokens (used + cost_of codecs d))) [
      | inl skip ↦ rw skip (
          take_fitting-fits codecs max_tokens ds candidates selected used value
            (λ x m. f x (Memᴰ.tail m)) g e w h)
      | inr fits ↦
          let within : used + cost_of codecs d ≤ max_tokens = ground arith in
          rw fits (
            take_fitting-fits codecs max_tokens ds candidates (selected ++ d ∷ [])
              (used + cost_of codecs d) (value + document_value d) (λ x m. f x (Memᴰ.tail m))
              (From-snoc candidates selected d g (f d (Memᴰ.head refl)))
              (omega (arith, cost-snoc codecs selected d)) (omega (arith, value-snoc selected d))
              within)
    ]

mem_cases : (x y : Document) (ds : List Document) → Memᴰ x (y ∷ ds) → (x ≡ y) ⊎ Memᴰ x ds
mem_cases x y ds (Memᴰ.head e) = inl e
mem_cases x y ds (Memᴰ.tail m) = inr m

insert_by_value-mem :
    (d x : Document) (ds : List Document) → Memᴰ x (insert_by_value d ds) → Memᴰ x (d ∷ ds)
unfolding insert_by_value
insert_by_value-mem d x [] m = m
insert_by_value-mem d x (e ∷ ds) m = elim (Bool-cases (leb (document_value e) (document_value d))) [
  | inl t ↦ rw t at m
  | inr f ↦ elim (mem_cases x e (insert_by_value d ds) (rw f at m)) [
    | inl here ↦ Memᴰ.tail (Memᴰ.head here)
    | inr later ↦ elim (mem_cases x d ds (insert_by_value-mem d x ds later)) [
      | inl own ↦ Memᴰ.head own
      | inr old ↦ Memᴰ.tail (Memᴰ.tail old)
    ]
  ]
]

sort_by_value-mem : (x : Document) (ds : List Document) → Memᴰ x (sort_by_value ds) → Memᴰ x ds
unfolding sort_by_value
sort_by_value-mem x [] m = m
sort_by_value-mem x (d ∷ ds) m =
    elim (mem_cases x d (sort_by_value ds) (insert_by_value-mem d x (sort_by_value ds) m)) [
      | inl own ↦ Memᴰ.head own
      | inr old ↦ Memᴰ.tail (sort_by_value-mem x ds old)
    ]

-- Whole units cover the real cost.
cost-le-units :
    (codecs : Codecs) (quantum : ℕ) (d : Document)
    → 0 < quantum
    → cost_of codecs d ≤ quantum * units codecs quantum d
unfolding units
cost-le-units codecs quantum d h =
    let t : ℕ = (cost_of codecs d + quantum - 1) / quantum in
    let a : cost_of codecs d + quantum - 1 < quantum * (t + 1) =
      lt-mul-div-succ (cost_of codecs d + quantum - 1) h in
    let b : quantum * (t + 1) ≡ quantum * t + quantum * 1 = mul-add quantum t 1 in
    let c : quantum * t ≤ quantum * max 1 t = mul-le-mul_left quantum (omega arith) in
    let g : cost_of codecs d ≤ quantum * t = omega arith in le_trans g c

total_cost-le :
    (codecs : Codecs) (quantum : ℕ) (ds : List Document)
    → 0 < quantum
    → total_cost codecs ds ≤ quantum * sum_units codecs quantum ds
unfolding total_cost
total_cost-le codecs quantum [] h = omega arith
total_cost-le codecs quantum (d ∷ ds) h = omega (
  arith,
  cost-le-units codecs quantum d h,
  total_cost-le codecs quantum ds h,
  mul-add quantum (units codecs quantum d) (sum_units codecs quantum ds),
)

capacity-le :
    (max_tokens quantum : ℕ)
    → 0 < quantum
    → quantum ≤ max_tokens
    → quantum * capacity_of max_tokens quantum ≤ max_tokens
unfolding capacity_of
capacity-le max_tokens quantum h k =
    let a : max_tokens < quantum * (max_tokens / quantum + 1) = lt-mul-div-succ max_tokens h in
    let b = mul-add quantum (max_tokens / quantum) 1 in
    let c = mul-div-le max_tokens quantum in
    elim (Bool-cases (max_tokens / quantum == 0)) [
      | inl none_left ↦
          let z : max_tokens / quantum ≡ 0 = ground arith in
          let w : max_tokens < quantum * (0 + 1) = rw z at a in absurd (omega arith)
      | inr some_left ↦
          let e : max 1 (max_tokens / quantum) ≡ max_tokens / quantum = ground arith in rw e c
    ]

-- What is chosen.
pub record IsWithin (codecs : Codecs) (candidates : List Document) (max_tokens : ℕ)
    (p : PackingDecision) : Type 0 where
  pub estimated : p.estimated_tokens ≡ total_cost codecs p.documents
  pub valued : p.estimated_value ≡ sum_value p.documents
  pub within : total_cost codecs p.documents ≤ max_tokens
  pub from : From candidates p.documents

nothing-cost : (codecs : Codecs) → total_cost codecs [] ≡ 0
unfolding total_cost
nothing-cost codecs = refl

greedy-IsWithin :
    (codecs : Codecs) (max_tokens : ℕ) (strategy : Strategy) (candidates : List Document)
    → IsWithin codecs candidates max_tokens (select_greedy codecs max_tokens strategy candidates)
unfolding select_greedy
greedy-IsWithin codecs max_tokens strategy candidates =
    let (e, w, h, f) =
      take_fitting-fits codecs max_tokens (sort_by_value candidates) candidates [] 0 0
        (λ x m. sort_by_value-mem x candidates m) (λ x m. elim m [ ])
        (ground (arith, nothing-cost codecs)) refl (omega arith) in
    record { estimated = e; valued = w; within = rw e at h; from = f }

dp-IsWithin :
    (codecs : Codecs) (max_tokens quantum : ℕ) (candidates : List Document) (s : Entry ℕ Document)
    → 0 < quantum
    → quantum ≤ max_tokens
    → max_entry less_packed
        (packing_states codecs quantum (capacity_of max_tokens quantum) candidates)
      ≡ some s
    → IsWithin codecs candidates max_tokens (packed codecs s)
dp-IsWithin codecs max_tokens quantum candidates s h k found =
    let p = max-IsPacked codecs quantum (capacity_of max_tokens quantum) candidates s found in
    let a = total_cost-le codecs quantum s.selected h in
    let b = mul-le-mul_left quantum p.within in
    let c = capacity-le max_tokens quantum h k in
    let d : quantum * s.key ≡ quantum * sum_units codecs quantum s.selected =
      ap (λ n. quantum * n) p.counted in
    record { estimated = refl; valued = p.valued; within = omega arith; from = Sublist-mem p.from }

-- Whichever strategy is taken, the selection is made, it consists of the first `max_candidates`
-- documents, its real cost is the estimate and within the budget, and its value is the sum of its
-- documents' values, where the budget is at least one quantum, the quantum is positive, and the
-- tokenizer can count each of these documents.
pub select_context_documents-IsWithin :
    (codecs : Codecs) (documents : List Document) (max_tokens : ℕ) (wants_dp : Bool)
    (quantum max_candidates : ℕ)
    → 0 < quantum
    → quantum ≤ max_tokens
    → all (is_counted codecs) (take max_candidates documents) ≡ true
    → (p : PackingDecision) × (select_context_documents codecs documents max_tokens wants_dp quantum
          max_candidates
        ≡ answered p)
      × IsWithin codecs (take max_candidates documents) max_tokens p
unfolding select_context_documents
select_context_documents-IsWithin codecs documents max_tokens wants_dp quantum max_candidates h k
      counted =
    let candidates : List Document = take max_candidates documents in
    elim (Bool-cases (not wants_dp || not (nonempty candidates) || not (is_exact codecs))) [
      | inl plain ↦ (
        select_greedy codecs max_tokens (if wants_dp then greedy_no_exact_tokenizer else greedy)
            candidates,
        rw (plain, counted) refl,
        greedy-IsWithin codecs max_tokens (if wants_dp then greedy_no_exact_tokenizer else greedy)
            candidates,
      )
      | inr dynamic ↦
          let (s, found) = dp-entry codecs max_tokens quantum candidates in
          (
            packed codecs s,
            rw dynamic (select_dp-answered codecs max_tokens quantum candidates s h counted found),
            dp-IsWithin codecs max_tokens quantum candidates s h k found,
          )
    ]
