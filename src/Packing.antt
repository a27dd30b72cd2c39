-- ===== src/Packing.antt =====
-- Choosing the documents of a prompt: `select_context_documents` of app/rag/context_packer.py. The
-- scores are numbers in units of 0.0001 (so the citation bonus is 500), which are not negative.
pub mod Chosen
pub mod Best
pub mod Fitting
mod Tests
use google_connector_app.Prelude.{
  ℕ, ◌+◌, ◌-◌, ◌*◌, ◌/◌, ◌≡◌, Bool, true, false, not, ◌&&◌, ◌||◌, Option, none, some, List, [], ◌∷◌,
  ◌++◌, map, take, all, nonempty, ltb, leb, ◌==◌, max, if◌then◌else◌, eq→==, ==→eq, refl,
}
use google_connector_app.Windows.{Text, Codecs, token_count}
use google_connector_app.Knapsack.{
  Entry, Move, Key, Answer, zero_division_error, value_error, encoder_error, answered, run_stages,
  max_entry,
}

-- A missing score is `none`.
pub record Document : Type 0 where
  pub content : Text
  pub ranking_score : Option ℕ
  pub score : Option ℕ
  pub has_citation : Bool
  pub recency_bonus : ℕ

pub data Strategy : Type 0 where
  greedy greedy_no_exact_tokenizer dp : Strategy

pub record PackingDecision : Type 0 where
  pub documents : List Document
  pub strategy : Strategy
  pub estimated_tokens : ℕ
  pub estimated_value : ℕ

unfoldable pub document_cost : Codecs → Document → Option ℕ
document_cost codecs d = token_count codecs d.content

-- The loops count every candidate, and a count that raises ends the selection. They are given
-- candidates that can all be counted, and read the count off.
abbrev pub is_counted : Codecs → Document → Bool
is_counted codecs d = elim (document_cost codecs d) [ none ↦ false | some n ↦ true ]

unfoldable pub cost_of : Codecs → Document → ℕ
cost_of codecs d = elim (document_cost codecs d) [ none ↦ 0 | some n ↦ n ]

abbrev or_score : Option ℕ → Option ℕ → ℕ
or_score none none = 0
or_score none (some s) = s
or_score (some s) t = s

unfoldable pub document_value : Document → ℕ
document_value d =
    max 1 (or_score d.ranking_score d.score + (if d.has_citation then 500 else 0) + d.recency_bonus)

-- `sorted(candidates, key=_document_value, reverse=True)`, which keeps the order of equals
unfoldable pub insert_by_value : Document → List Document → List Document
unfolding document_value
insert_by_value d [] = d ∷ []
insert_by_value d (e ∷ ds) =
    let rest = insert_by_value d ds in
    if leb (document_value e) (document_value d) then d ∷ e ∷ ds else e ∷ rest

unfoldable pub sort_by_value : List Document → List Document
unfolding insert_by_value
sort_by_value [] = []
sort_by_value (d ∷ ds) = insert_by_value d (sort_by_value ds)

-- `sum(_document_cost(item) for item in selected)`
unfoldable pub total_cost : Codecs → List Document → ℕ
total_cost codecs [] = 0
total_cost codecs (d ∷ ds) = cost_of codecs d + total_cost codecs ds

-- The greedy loop, with what is selected, used and gained so far.
unfoldable pub take_fitting :
    Codecs → ℕ → List Document → List Document → ℕ → ℕ → List Document × ℕ × ℕ
take_fitting codecs max_tokens [] selected used value = (selected, used, value)
take_fitting codecs max_tokens (d ∷ ds) selected used value =
    let cost = cost_of codecs d in
    let skipped = take_fitting codecs max_tokens ds selected used value in
    let taken =
      take_fitting codecs max_tokens ds (selected ++ d ∷ []) (used + cost)
        (value + document_value d) in
    if ltb max_tokens (used + cost) then skipped else taken

unfoldable pub select_greedy : Codecs → ℕ → Strategy → List Document → PackingDecision
unfolding take_fitting sort_by_value
select_greedy codecs max_tokens fallback candidates =
    let (selected, used, value) =
      take_fitting codecs max_tokens (sort_by_value candidates) [] 0 0 in
    record {
      documents = selected;
      strategy = fallback;
      estimated_tokens = used;
      estimated_value = value;
    }

-- `max(1, (_document_cost(item) + quantum - 1) // quantum)`, for a quantum that is not 0: with 0 the
-- capacity has raised before
unfoldable pub units : Codecs → ℕ → Document → ℕ
units codecs quantum d = max 1 ((cost_of codecs d + quantum - 1) / quantum)

-- `max(1, max_tokens // quantum)`, where the quantum is not 0
unfoldable pub capacity_of : ℕ → ℕ → ℕ
capacity_of max_tokens quantum = max 1 (max_tokens / quantum)

abbrev pub number_key : Key ℕ
number_key = record { same = ◌==◌; same_iff = ==→eq; same_refl = λ a. eq→== a a refl }

abbrev pub packing_move : Codecs → ℕ → ℕ → Document → Move ℕ Document
packing_move codecs quantum capacity d = record {
  step = λ used.
      if ltb capacity (used + units codecs quantum d)
      then none
      else some (used + units codecs quantum d);
  gain = document_value d;
  item = d;
}

abbrev pub packing_stages : Codecs → ℕ → ℕ → List Document → List (List (Move ℕ Document))
packing_stages codecs quantum capacity candidates =
    map (λ d. packing_move codecs quantum capacity d ∷ []) candidates

-- `(item[1][0], -item[0])`
abbrev pub less_packed : Entry ℕ Document → Entry ℕ Document → Bool
less_packed s t = ltb s.value t.value || s.value == t.value && ltb t.key s.key

abbrev pub nothing_packed : Entry ℕ Document
nothing_packed = record { key = 0; value = 0; selected = [] }

-- The last states of the dynamic program.
unfoldable pub packing_states : Codecs → ℕ → ℕ → List Document → List (Entry ℕ Document)
packing_states codecs quantum capacity candidates =
    run_stages number_key (λ states. states) (packing_stages codecs quantum capacity candidates)
      (nothing_packed ∷ [])

abbrev pub packed : Codecs → Entry ℕ Document → PackingDecision
packed codecs s = record {
  documents = s.selected;
  strategy = dp;
  estimated_tokens = total_cost codecs s.selected;
  estimated_value = s.value;
}

-- `max_tokens // quantum` comes first, then the candidates' counts.
unfoldable pub select_dp : Codecs → ℕ → ℕ → List Document → Answer PackingDecision
select_dp codecs max_tokens quantum candidates =
    if quantum == 0
    then zero_division_error
    else if not (all (is_counted codecs) candidates)
    then encoder_error
    else elim (max_entry less_packed
        (packing_states codecs quantum (capacity_of max_tokens quantum) candidates)) [
          | none ↦ value_error
          | some s ↦ answered (packed codecs s)
        ]

abbrev pub is_exact : Codecs → Bool
is_exact codecs = elim codecs.tokenizer [ none ↦ false | some t ↦ true ]

-- `wants_dp`: the strategy that is asked for is "dp"
unfoldable pub select_context_documents :
    Codecs → List Document → ℕ → Bool → ℕ → ℕ → Answer PackingDecision
select_context_documents codecs documents max_tokens wants_dp quantum max_candidates =
    let candidates = take max_candidates documents in
    if not wants_dp || not (nonempty candidates) || not (is_exact codecs)
    then if all (is_counted codecs) candidates
      then answered (
          select_greedy codecs max_tokens (if wants_dp then greedy_no_exact_tokenizer else greedy)
            candidates)
      else encoder_error
    else select_dp codecs max_tokens quantum candidates
