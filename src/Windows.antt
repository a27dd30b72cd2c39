-- ===== src/Windows.antt =====
-- Token windows: app/utils/tokenizer.py. A text is the list of its code points. The tokenizer of
-- tiktoken, which may be missing, and the UTF-8 codec are parameters.
pub mod Covering
mod Tests
use mathlib.Core.Option
use google_connector_app.Prelude.{
  ℕ, zero, suc, ◌+◌, ◌-◌, Bool, true, false, not, ◌&&◌, ◌||◌, Option, none, some, List, [], ◌∷◌,
  ◌++◌, map, keep, length, take, drop, slice, nonempty, ltb, leb, ◌==◌, min, max, if◌then◌else◌,
}

abbrev pub Text : Type 0
Text = List ℕ

-- `encoding.encode` and `.decode`, or `.encode("utf-8")` and `.decode("utf-8", errors="ignore")`. An
-- encoder that raises gives `none`: tiktoken's raises a ValueError on the text of a special token,
-- UTF-8 a UnicodeEncodeError on a lone surrogate.
pub record Codec : Type 0 where
  pub encode : Text → Option (List ℕ)
  pub decode : List ℕ → Text

-- `exact_tokenizer()` is `none` where tiktoken does not load.
pub record Codecs : Type 0 where
  pub tokenizer : Option Codec
  pub utf8 : Codec

-- `str.isspace` of one character
abbrev is_space : ℕ → Bool
is_space c =
    leb 9 c && leb c 13
    || leb 28 c && leb c 32
    || c == 133
    || c == 160
    || c == 5760
    || leb 8192 c && leb c 8202
    || c == 8232
    || c == 8233
    || c == 8239
    || c == 8287
    || c == 12288

unfoldable pub lstrip : Text → Text
lstrip [] = []
lstrip (c ∷ s) = let rest = lstrip s in if is_space c then rest else c ∷ s

unfoldable pub rstrip : Text → Text
rstrip [] = []
rstrip (c ∷ s) = let rest = rstrip s in if is_space c && not (nonempty rest) then [] else c ∷ rest

unfoldable pub strip : Text → Text
unfolding lstrip rstrip
strip s = rstrip (lstrip s)

-- `" ".join(s.split())`: spaces at the ends go, and a run of them becomes one. `open` tells that a
-- word is being read.
unfoldable pub squeeze_from : Bool → Text → Text
squeeze_from reading [] = []
squeeze_from reading (c ∷ s) =
    let rest = squeeze_from (not (is_space c)) s in
    if is_space c then (if reading && nonempty rest then 32 ∷ rest else rest) else c ∷ rest

unfoldable pub squeeze : Text → Text
unfolding squeeze_from
squeeze s = squeeze_from false s

-- `none`: the encoder raises
unfoldable pub token_count : Codecs → Text → Option ℕ
token_count codecs value = elim codecs.tokenizer [
  | some t ↦ Option.map length (t.encode value)
  | none ↦ Option.map (λ raw. max 1 (length raw)) (codecs.utf8.encode value)
]

unfoldable pub truncate_tokens : Codecs → Text → ℕ → Option Text
truncate_tokens codecs value max_tokens = elim codecs.tokenizer [
  | some t ↦ Option.map (λ tokens. t.decode (take max_tokens tokens)) (t.encode value)
  | none ↦ Option.map (λ raw. codecs.utf8.decode (take max_tokens raw)) (codecs.utf8.encode value)
]

-- The loop of token_windows from `start` on; `none` means that the fuel ran out.
unfoldable pub cut_windows : ℕ → ℕ → ℕ → ℕ → List ℕ → Option (List (List ℕ))
cut_windows zero size overlap start tokens = none
cut_windows (suc fuel) size overlap start tokens =
    let end = min (length tokens) (start + size) in
    let window = slice start end tokens in
    let rest = cut_windows fuel size overlap (end - overlap) tokens in
    if ltb start (length tokens)
    then (if leb (length tokens) end
        then some (window ∷ [])
        else elim rest [ none ↦ none | some windows ↦ some (window ∷ windows) ])
    else some []

pub data Windows : Type 0 where
  value_error encoder_error out_of_fuel : Windows
  windows : List Text → Windows

abbrev pub all_windows : ℕ → ℕ → List ℕ → Option (List (List ℕ))
all_windows size overlap tokens = cut_windows (suc (length tokens)) size overlap 0 tokens

abbrev pub or_out_of_fuel : (List (List ℕ) → List Text) → Option (List (List ℕ)) → Windows
or_out_of_fuel f none = out_of_fuel
or_out_of_fuel f (some ws) = windows (f ws)

-- The windows of what a text is encoded to.
abbrev pub windows_of : (List (List ℕ) → List Text) → ℕ → ℕ → Option (List ℕ) → Windows
windows_of f size overlap none = encoder_error
windows_of f size overlap (some tokens) = or_out_of_fuel f (all_windows size overlap tokens)

-- `codec.decode(window).strip()`
abbrev pub shown : Codec → List ℕ → Text
shown codec window = strip (codec.decode window)

unfoldable pub token_windows : Codecs → Text → ℕ → ℕ → Windows
unfolding squeeze cut_windows strip
token_windows codecs text size overlap =
    let value = squeeze text in
    if not (nonempty value)
    then windows []
    else if size == 0 || leb size overlap
    then value_error
    else elim codecs.tokenizer [
      | some t ↦ windows_of (map (shown t)) size overlap (t.encode value)
      | none ↦
          windows_of (λ ws. keep nonempty (map (shown codecs.utf8) ws)) size overlap
            (codecs.utf8.encode value)
    ]
