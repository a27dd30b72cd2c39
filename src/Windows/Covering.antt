-- ===== src/Windows/Covering.antt =====
-- The windows of a text cover it.
use google_connector_app.Prelude.{
  ℕ, zero, suc, ◌+◌, ◌-◌, ◌≤◌, ◌<◌, ◌≡◌, refl, ap, ◌∙◌, true, false, ◌||◌, Option, some, List, [],
  ◌∷◌, ◌++◌, map, arith, all, nonempty, length, drop, slice, slice-append-drop, drop-slice,
  length-take-le, length-drop, take-length, le→leb, leb→le, lt→ltb, drop-drop, append-nil, ltb, leb,
  ◌==◌, min, Bool-cases, inl, inr,
}
use google_connector_app.Windows.{
  Codec, Codecs, Text, all_windows, cut_windows, token_windows, windows, squeeze, shown,
}

-- The windows after the first, each without the tokens that it shares with the one before.
abbrev pub unshared : ℕ → List (List ℕ) → List ℕ
unshared overlap [] = []
unshared overlap (w ∷ ws) = drop overlap w ++ unshared overlap ws

-- The tokens that windows come from.
abbrev pub joined : ℕ → List (List ℕ) → List ℕ
joined overlap [] = []
joined overlap (w ∷ ws) = w ++ unshared overlap ws

-- Windows of at most `size` tokens from `start` on, of which none is left out.
pub record IsCut (size overlap start : ℕ) (tokens : List ℕ) (o : Option (List (List ℕ)))
    : Type 0 where
  pub ws : List (List ℕ)
  pub found : o ≡ some ws
  pub small : all (λ w. leb (length w) size) ws ≡ true
  pub first : joined overlap ws ≡ drop start tokens
  pub later : unshared overlap ws ≡ drop (start + overlap) tokens

module _ (size overlap : ℕ) (tokens : List ℕ) where
  cut_windows-last :
      (fuel start : ℕ)
      → start < length tokens
      → length tokens ≤ start + size
      → cut_windows (suc fuel) size overlap start tokens ≡ some (drop start tokens ∷ [])
  unfolding cut_windows
  cut_windows-last fuel start h k =
      let e : min (length tokens) (start + size) ≡ length tokens = ground arith in
      let whole : slice start (length tokens) tokens ≡ drop start tokens =
        take-length (length tokens - start) (drop start tokens)
          (omega (arith, length-drop start tokens)) in
      rw (e, lt→ltb _ _ h, le→leb (length tokens) (length tokens) (omega arith), whole)

  cut_windows-next :
      (fuel start : ℕ) (ws : List (List ℕ))
      → start + size < length tokens
      → cut_windows fuel size overlap (start + size - overlap) tokens ≡ some ws
      → cut_windows (suc fuel) size overlap start tokens
        ≡ some (slice start (start + size) tokens ∷ ws)
  unfolding cut_windows
  cut_windows-next fuel start ws h k =
      let e : min (length tokens) (start + size) ≡ start + size = ground arith in
      let more : leb (length tokens) (start + size) ≡ false = ground arith in
      let here : ltb start (length tokens) ≡ true = ground arith in rw (e, here, more, k, e)

  -- Enough fuel for the rest of the tokens.
  cut_windows-IsCut :
      (fuel start : ℕ)
      → overlap < size
      → start < length tokens
      → length tokens - start < fuel
      → IsCut size overlap start tokens (cut_windows fuel size overlap start tokens)
  cut_windows-IsCut zero start lt here enough = absurd (omega arith)
  cut_windows-IsCut (suc fuel) start lt here enough =
      elim (Bool-cases (leb (length tokens) (start + size))) [
        | inl last ↦ record {
          ws = drop start tokens ∷ [];
          found = cut_windows-last fuel start here (leb→le _ _ last);
          small =
              let bound : leb (length (drop start tokens)) size ≡ true = le→leb _ _ (
                omega
                  (arith, length-drop start tokens, leb→le (length tokens) (start + size) last)) in
              rw bound refl;
          first = append-nil _;
          later = append-nil _ ∙ drop-drop overlap start tokens;
        }
        | inr more ↦
            let next : start + size < length tokens = ground arith in
            let v =
              cut_windows-IsCut fuel (start + size - overlap) lt (omega arith) (omega arith) in
            let back : start + size - overlap + overlap ≡ start + size = omega arith in
            let after : unshared overlap v.ws ≡ drop (start + size) tokens =
              v.later ∙ ap (λ k. drop k tokens) back in
            record {
              ws = slice start (start + size) tokens ∷ v.ws;
              found = cut_windows-next fuel start v.ws next v.found;
              small =
                  let short = length-take-le (start + size - start) (drop start tokens) in
                  let bound : leb (length (slice start (start + size) tokens)) size ≡ true =
                    le→leb _ _ (omega arith) in
                  rw bound v.small;
              first =
                  ap (λ ys. slice start (start + size) tokens ++ ys) after
                  ∙ slice-append-drop start (start + size) tokens (omega arith);
              later =
                  ap (λ ys. ys ++ unshared overlap v.ws)
                    (drop-slice overlap start (start + size) tokens)
                  ∙ ap (λ ys. slice (start + overlap) (start + size) tokens ++ ys) after
                  ∙ slice-append-drop (start + overlap) (start + size) tokens (omega arith);
            }
      ]

-- Windows of at most `size` tokens, from which all of `tokens` can be read off.
pub record IsCovered (size overlap : ℕ) (tokens : List ℕ) (ws : List (List ℕ)) : Type 0 where
  pub small : all (λ w. leb (length w) size) ws ≡ true
  pub covers : joined overlap ws ≡ tokens

no-tokens : (size overlap : ℕ) → all_windows size overlap [] ≡ some []
unfolding cut_windows
no-tokens size overlap = refl

all_windows-IsCovered :
    (size overlap : ℕ) (tokens : List ℕ)
    → overlap < size
    → (ws : List (List ℕ)) × (all_windows size overlap tokens ≡ some ws)
      × IsCovered size overlap tokens ws
all_windows-IsCovered size overlap [] lt =
    ([], no-tokens size overlap, record { small = refl; covers = refl })
all_windows-IsCovered size overlap (t ∷ tokens) lt =
    let v =
      cut_windows-IsCut size overlap (t ∷ tokens) (suc (length (t ∷ tokens))) 0 lt (omega arith)
        (omega arith) in
    (v.ws, v.found, record { small = v.small; covers = v.first })

-- With an exact tokenizer, a text that is not blank and whose squeezed form the tokenizer encodes
-- has windows wherever the overlap is below the size: the loop ends; the windows are the decoded and
-- stripped parts of a cut of the tokens, each of at most `size` of them; and the first part, followed
-- by each later part less the `overlap` tokens that it shares with the one before, gives all the
-- tokens in their order.
pub token_windows-covers :
    (codecs : Codecs) (tokenizer : Codec) (text : Text) (size overlap : ℕ) (tokens : List ℕ)
    → codecs.tokenizer ≡ some tokenizer
    → nonempty (squeeze text) ≡ true
    → tokenizer.encode (squeeze text) ≡ some tokens
    → overlap < size
    → (ws : List (List ℕ)) × (token_windows codecs text size overlap
        ≡ windows (map (shown tokenizer) ws))
      × IsCovered size overlap tokens ws
unfolding token_windows
token_windows-covers codecs tokenizer text size overlap tokens exact text_here encoded lt =
    let (ws, found, covered) = all_windows-IsCovered size overlap tokens lt in
    let fits : (size == 0 || leb size overlap) ≡ false = ground arith in
    (ws, rw (text_here, fits, exact, encoded, found) refl, covered)
