-- ===== src/Packing/Tests.antt =====
-- Three documents, of 3, 3 and 4 tokens, for a budget of six: one token for each code point.
use google_connector_app.Prelude.{
  ℕ, ◌≡◌, true, false, none, some, List, [], ◌∷◌, arith, all, refl, take,
}
use google_connector_app.Windows.{Text, Codec, Codecs, token_count}
use google_connector_app.Knapsack.{answered, zero_division_error}
use google_connector_app.Packing.{
  Document, PackingDecision, capacity_of, select_dp, select_context_documents, is_counted,
  document_cost,
}
use google_connector_app.Packing.Best.{IsBest, select_dp-optimal}
use google_connector_app.Packing.Fitting.{IsWithin, select_context_documents-IsWithin}

abbrev plain : Codec
plain = record { encode = λ t. some t; decode = λ t. t }

abbrev codecs : Codecs
codecs = record { tokenizer = some plain; utf8 = plain }

abbrev document : Text → ℕ → Document
document content score = record {
  content = content;
  ranking_score = none;
  score = some score;
  has_citation = false;
  recency_bonus = 0;
}

abbrev documents : List Document
documents =
    document (1 ∷ 2 ∷ 3 ∷ []) 50
    ∷ document (4 ∷ 5 ∷ 6 ∷ []) 40
    ∷ document (7 ∷ 8 ∷ 9 ∷ 9 ∷ []) 60
    ∷ []

all_counted : all (is_counted codecs) documents ≡ true
unfolding document_cost token_count
all_counted = refl

-- Six units of one token each.
select_dp-optimal_example :
    (p : PackingDecision) × (select_dp codecs 6 1 documents ≡ answered p)
    × IsBest codecs 1 (capacity_of 6 1) documents p
select_dp-optimal_example = select_dp-optimal codecs 6 1 documents (omega arith) all_counted

no_quantum : select_dp codecs 6 0 documents ≡ zero_division_error
unfolding select_dp
no_quantum = refl

select_context_documents-IsWithin_example :
    (p : PackingDecision) × (select_context_documents codecs documents 6 true 1 50 ≡ answered p)
    × IsWithin codecs (take 50 documents) 6 p
select_context_documents-IsWithin_example =
    select_context_documents-IsWithin codecs documents 6 true 1 50 (omega arith) (omega arith)
      all_counted
