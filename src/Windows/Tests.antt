-- ===== src/Windows/Tests.antt =====
-- A text of six characters, one token each, in windows of three that share one.
use google_connector_app.Prelude.{ℕ, ◌≡◌, refl, some, List, [], ◌∷◌, arith, map}
use google_connector_app.Windows.{
  Text, Codec, Codecs, token_windows, windows, shown, squeeze, squeeze_from, cut_windows, strip,
  lstrip, rstrip,
}
use google_connector_app.Windows.Covering.{IsCovered, token_windows-covers}

abbrev letters : Codec
letters = record { encode = λ t. some t; decode = λ t. t }

abbrev codecs : Codecs
codecs = record { tokenizer = some letters; utf8 = letters }

abbrev text : Text
text = 32 ∷ 65 ∷ 66 ∷ 10 ∷ 32 ∷ 67 ∷ 68 ∷ 69 ∷ 32 ∷ []

cut_text :
    token_windows codecs text 3 1 ≡ windows ((65 ∷ 66 ∷ []) ∷ (67 ∷ 68 ∷ []) ∷ (68 ∷ 69 ∷ []) ∷ [])
unfolding token_windows squeeze squeeze_from cut_windows strip lstrip rstrip
cut_text = refl

token_windows-covers_example :
    (ws : List (List ℕ)) × (token_windows codecs text 3 1 ≡ windows (map (shown letters) ws))
    × IsCovered 3 1 (squeeze text) ws
unfolding squeeze squeeze_from
token_windows-covers_example =
    token_windows-covers codecs letters text 3 1 (squeeze text) refl refl refl (omega arith)
