-- ===== src/Prelude/Slices.antt =====
-- Parts of lists: taking, dropping and joining them.
use Prim.Native.Nat.{ℕ, zero, suc, ◌+◌, ◌-◌, ◌≤◌}
use mathlib.Core.Path.{◌≡◌, refl, ap, ◌∙◌, sym}
use mathlib.Core.List.{List, [], ◌∷◌, ◌++◌}
use native.Mathlib.Omega.{arith}
use google_connector_app.Prelude.Lists.{length, take, drop}

module _ {ℓ} {A : Type ℓ} where
  -- `xs[start:end]`
  abbrev pub slice : ℕ → ℕ → List A → List A
  slice start end xs = take (end - start) (drop start xs)

  pub take-append-drop : (n : ℕ) (xs : List A) → take n xs ++ drop n xs ≡ xs
  take-append-drop zero xs = refl
  take-append-drop (suc n) [] = refl
  take-append-drop (suc n) (x ∷ xs) = ap (λ ys. x ∷ ys) (take-append-drop n xs)

  drop-nil : (n : ℕ) → drop n [] ≡ (let e : List A = [] in e)
  drop-nil zero = refl
  drop-nil (suc n) = refl

  pub drop-drop : (m n : ℕ) (xs : List A) → drop m (drop n xs) ≡ drop (n + m) xs
  drop-drop m zero xs = rw (let e : zero + m ≡ m = omega arith in e)
  drop-drop m (suc n) [] = drop-nil m ∙ sym (drop-nil (suc n + m))
  drop-drop m (suc n) (x ∷ xs) =
      let e : suc (n + m) ≡ suc n + m = omega arith in
      drop-drop m n xs ∙ ap (λ k. drop k (x ∷ xs)) e

  take-nil : (n : ℕ) → take n [] ≡ (let e : List A = [] in e)
  take-nil zero = refl
  take-nil (suc n) = refl

  drop-take : (m n : ℕ) (xs : List A) → drop m (take n xs) ≡ take (n - m) (drop m xs)
  drop-take zero n xs = ground arith
  drop-take (suc m) zero xs = ground arith
  drop-take (suc m) (suc n) [] = ground (arith, take-nil (suc n - suc m))
  drop-take (suc m) (suc n) (x ∷ xs) = ground (arith, drop-take m n xs)

  pub length-take-le : (n : ℕ) (xs : List A) → length (take n xs) ≤ n
  length-take-le zero xs = omega arith
  length-take-le (suc n) [] = omega arith
  length-take-le (suc n) (x ∷ xs) = omega (arith, length-take-le n xs)

  pub drop-length : (n : ℕ) (xs : List A) → length xs ≤ n → drop n xs ≡ []
  drop-length zero [] h = refl
  drop-length zero (x ∷ xs) h = absurd (omega arith)
  drop-length (suc n) [] h = refl
  drop-length (suc n) (x ∷ xs) h = drop-length n xs (omega arith)

  pub take-length : (n : ℕ) (xs : List A) → length xs ≤ n → take n xs ≡ xs
  take-length zero [] h = refl
  take-length zero (x ∷ xs) h = absurd (omega arith)
  take-length (suc n) [] h = refl
  take-length (suc n) (x ∷ xs) h = ap (λ ys. x ∷ ys) (take-length n xs (omega arith))

  pub length-drop : (n : ℕ) (xs : List A) → length (drop n xs) ≡ length xs - n
  length-drop zero xs = omega arith
  length-drop (suc n) [] = omega arith
  length-drop (suc n) (x ∷ xs) = omega (arith, length-drop n xs)

  -- A slice and what stands after it.
  pub slice-append-drop :
      (start end : ℕ) (xs : List A)
      → start ≤ end
      → slice start end xs ++ drop end xs ≡ drop start xs
  slice-append-drop start end xs h =
      let e : start + (end - start) ≡ end = omega arith in
      let later : drop (end - start) (drop start xs) ≡ drop end xs =
        drop-drop (end - start) start xs ∙ ap (λ k. drop k xs) e in
      ap (λ ys. slice start end xs ++ ys) (sym later)
      ∙ take-append-drop (end - start) (drop start xs)

  -- A slice without its first elements is a slice.
  pub drop-slice :
      (n start end : ℕ) (xs : List A) → drop n (slice start end xs) ≡ slice (start + n) end xs
  drop-slice n start end xs =
      let e : end - start - n ≡ end - (start + n) = omega arith in
      drop-take n (end - start) (drop start xs)
      ∙ ap (λ k. take k (drop n (drop start xs))) e
      ∙ ap (λ ys. take (end - (start + n)) ys) (drop-drop n start xs)
