-- ===== src/Prelude/Updates.antt =====
-- Laws of `UPDATE … WHERE` over a table, and of searching in one.
use mathlib.Core.Path.{◌≡◌, refl, sym, ◌∙◌}
use mathlib.Core.Bool.{Bool, true, false, not}
use mathlib.Core.Option.{some}
use mathlib.Core.List.{List, [], ◌∷◌, ◌++◌, Memᴰ}
use mathlib.Core.Logic.{◌⊎◌, inl, inr}
use Prim.Native.Nat.{ℕ, ◌+◌, ◌≤◌}
use native.Mathlib.Omega.{arith}
use google_connector_app.Prelude.Tests.{if◌then◌else◌, Bool-cases}
use google_connector_app.Prelude.Lists.{any, all, keep, find, update_where, nonempty}

-- Rows on which a test holds.
abbrev pub count_where {ℓ} : {A : Type ℓ} → (A → Bool) → List A → ℕ
count_where p [] = 0
count_where p (x ∷ xs) = (if p x then 1 else 0) + count_where p xs

module _ {ℓ} {A : Type ℓ} (p : A → Bool) where
  pub find-mem : (xs : List A) (a : A) → find p xs ≡ some a → Memᴰ a xs × (p a ≡ true)
  find-mem [] a h = cc
  find-mem (x ∷ xs) a h = elim (Bool-cases (p x)) [
    | inl t ↦ let e : a ≡ x = ground arith in (Memᴰ.head e, rw e t)
    | inr f ↦
        let later : find p xs ≡ some a = ground arith in
        let (m, t) = find-mem xs a later in (Memᴰ.tail m, t)
  ]

  pub mem→any : (xs : List A) (a : A) → Memᴰ a xs → p a ≡ true → any p xs ≡ true
  mem→any [] a m t = elim m [ ]
  mem→any (x ∷ xs) a (Memᴰ.head e) t = let here : p x ≡ true = rw (← e) t in rw here
  mem→any (x ∷ xs) a (Memᴰ.tail m) t = ground (arith, mem→any xs a m t)

  mem-head {κ} : {B : Type κ} (b c : B) (xs : List B) → Memᴰ b (c ∷ xs) → (b ≡ c) ⊎ Memᴰ b xs
  mem-head b c xs (Memᴰ.head e) = inl e
  mem-head b c xs (Memᴰ.tail m) = inr m

  pub mem-keep : (xs : List A) (x : A) → Memᴰ x (keep p xs) → Memᴰ x xs × (p x ≡ true)
  mem-keep [] x m = elim m [ ]
  mem-keep (y ∷ ys) x m = elim (Bool-cases (p y)) [
    | inl t ↦ elim (mem-head x y (keep p ys) (rw t at m)) [
      | inl e ↦ (Memᴰ.head e, rw e t)
      | inr later ↦ let (n, u) = mem-keep ys x later in (Memᴰ.tail n, u)
    ]
    | inr f ↦ let (n, u) = mem-keep ys x (rw f at m) in (Memᴰ.tail n, u)
  ]

  pub keep-mem : (xs : List A) (x : A) → Memᴰ x xs → p x ≡ true → Memᴰ x (keep p xs)
  keep-mem [] x m t = elim m [ ]
  keep-mem (y ∷ ys) x (Memᴰ.head e) t = let here : p y ≡ true = rw (← e) t in rw here (Memᴰ.head e)
  keep-mem (y ∷ ys) x (Memᴰ.tail m) t = elim (Bool-cases (p y)) [
    | inl u ↦ rw u (Memᴰ.tail (keep-mem ys x m t))
    | inr f ↦ rw f (keep-mem ys x m t)
  ]

  pub nonempty-keep : (xs : List A) → nonempty (keep p xs) ≡ any p xs
  nonempty-keep [] = refl
  nonempty-keep (x ∷ xs) = ground (arith, nonempty-keep xs)

  pub any-false→count : (xs : List A) → count_where p xs ≡ 0 → any p xs ≡ false
  any-false→count [] h = refl
  any-false→count (x ∷ xs) h = ground (arith, any-false→count xs)

  -- Rows that the condition does not select stay as they were.
  pub keep-update_where_others :
      (f : A → A) (preserves : (x : A) → p x ≡ true → p (f x) ≡ true) (xs : List A)
      → keep (λ x. not (p x)) (update_where p f xs) ≡ keep (λ x. not (p x)) xs
  keep-update_where_others f preserves [] = refl
  keep-update_where_others f preserves (x ∷ xs) =
      ground (arith, preserves x, keep-update_where_others f preserves xs)

  -- So do the rows of a wider condition's complement.
  pub keep-update_where_within :
      (q : A → Bool) (f : A → A)
      → ((x : A) → p x ≡ true → q x ≡ true)
      → ((x : A) → p x ≡ true → q (f x) ≡ true)
      → (xs : List A) → keep (λ x. not (q x)) (update_where p f xs) ≡ keep (λ x. not (q x)) xs
  keep-update_where_within q f within stays [] = refl
  keep-update_where_within q f within stays (x ∷ xs) =
      ground (arith, within x, stays x, keep-update_where_within q f within stays xs)

  -- A selection that the updated rows are outside of, before and after, does not change.
  pub keep-update_where_outside :
      (q : A → Bool) (f : A → A)
      → ((x : A) → p x ≡ true → q x ≡ false)
      → ((x : A) → p x ≡ true → q (f x) ≡ false)
      → (xs : List A) → keep q (update_where p f xs) ≡ keep q xs
  keep-update_where_outside q f before after [] = refl
  keep-update_where_outside q f before after (x ∷ xs) =
      ground (arith, before x, after x, keep-update_where_outside q f before after xs)

  pub update_where-none : (f : A → A) (xs : List A) → any p xs ≡ false → update_where p f xs ≡ xs
  update_where-none f [] h = refl
  update_where-none f (x ∷ xs) h = ground (arith, update_where-none f xs)

  -- After an update whose result the condition no longer selects, it selects nothing.
  pub any-update_where :
      (f : A → A) (clears : (x : A) → p (f x) ≡ false) (xs : List A)
      → any p (update_where p f xs) ≡ false
  any-update_where f clears [] = refl
  any-update_where f clears (x ∷ xs) = ground (arith, clears x, any-update_where f clears xs)

  -- What the updated rows satisfy, every row that the condition selects satisfies.
  pub all-update_where :
      (f : A → A) (q : A → Bool) (holds : (x : A) → p x ≡ true → q (f x) ≡ true) (xs : List A)
      → ((x : A) → p x ≡ false → q x ≡ true)
      → all q (update_where p f xs) ≡ true
  all-update_where f q holds [] other = refl
  all-update_where f q holds (x ∷ xs) other =
      ground (arith, holds x, other x, all-update_where f q holds xs other)

  -- A test that the update keeps.
  pub all-update_where_keeps :
      (f : A → A) (q : A → Bool)
      → ((x : A) → p x ≡ true → q x ≡ true → q (f x) ≡ true)
      → (xs : List A) → all q xs ≡ true
      → all q (update_where p f xs) ≡ true
  all-update_where_keeps f q keeps [] h = refl
  all-update_where_keeps f q keeps (x ∷ xs) h =
      ground (arith, keeps x, all-update_where_keeps f q keeps xs)

  -- A test that does not see the update.
  pub any-update_where_same :
      (f : A → A) (q : A → Bool)
      → ((x : A) → q (f x) ≡ q x)
      → (xs : List A) → any q (update_where p f xs) ≡ any q xs
  any-update_where_same f q same [] = refl
  any-update_where_same f q same (x ∷ xs) =
      ground (arith, same x, any-update_where_same f q same xs)

  -- What holds of all rows holds of a row among them.
  pub all-mem : (xs : List A) (a : A) → all p xs ≡ true → Memᴰ a xs → p a ≡ true
  all-mem [] a h m = elim m [ ]
  all-mem (x ∷ xs) a h (Memᴰ.head e) = let here : p x ≡ true = ground arith in rw e here
  all-mem (x ∷ xs) a h (Memᴰ.tail m) =
      let rest : all p xs ≡ true = ground arith in all-mem xs a rest m

  -- A test of all rows that follows from another, row by row.
  pub all-weaken :
      (q : A → Bool) (xs : List A)
      → ((x : A) → Memᴰ x xs → p x ≡ true → q x ≡ true)
      → all p xs ≡ true
      → all q xs ≡ true
  all-weaken q [] h k = refl
  all-weaken q (x ∷ xs) h k =
      let here : p x ≡ true = ground arith in
      let rest : all p xs ≡ true = ground arith in
      rw (h x (Memᴰ.head refl) here) (all-weaken q xs (λ y m. h y (Memᴰ.tail m)) rest)

  pub all-append : (xs ys : List A) → all p xs ≡ true → all p ys ≡ true → all p (xs ++ ys) ≡ true
  all-append [] ys h k = k
  all-append (x ∷ xs) ys h k = ground (arith, all-append xs ys)

  pub any-append_right : (xs ys : List A) → any p ys ≡ true → any p (xs ++ ys) ≡ true
  any-append_right [] ys h = h
  any-append_right (x ∷ xs) ys h = ground (arith, any-append_right xs ys)

  -- The same for an update, which may look at the row's place in the table.
  pub all-update_where_mem :
      (f : A → A) (q : A → Bool) (xs : List A)
      → ((x : A) → Memᴰ x xs → p x ≡ true → q x ≡ true → q (f x) ≡ true)
      → all q xs ≡ true
      → all q (update_where p f xs) ≡ true
  all-update_where_mem f q [] keeps h = refl
  all-update_where_mem f q (x ∷ xs) keeps h =
      let rest : all q xs ≡ true = ground arith in
      let later = all-update_where_mem f q xs (λ y m. keeps y (Memᴰ.tail m)) rest in
      let here : q x ≡ true = ground arith in
      let now = keeps x (Memᴰ.head refl) in
      elim (Bool-cases (p x)) [
        | inl t ↦ let new : q (f x) ≡ true = now t here in rw (t, new) later
        | inr u ↦ rw (u, here) later
      ]

  mem→count : (xs : List A) (a : A) → Memᴰ a xs → p a ≡ true → 1 ≤ count_where p xs
  mem→count [] a m t = elim m [ ]
  mem→count (x ∷ xs) a (Memᴰ.head e) t = let here : p x ≡ true = rw (← e) t in ground arith
  mem→count (x ∷ xs) a (Memᴰ.tail m) t = ground (arith, mem→count xs a m t)

  -- Two rows that pass a test that at most one row passes.
  pub unique-eq :
      (xs : List A) (a b : A)
      → count_where p xs ≤ 1
      → Memᴰ a xs
      → Memᴰ b xs
      → p a ≡ true
      → p b ≡ true
      → a ≡ b
  unique-eq [] a b one m n s t = elim m [ ]
  unique-eq (x ∷ xs) a b one (Memᴰ.head e) (Memᴰ.head d) s t = e ∙ sym d
  unique-eq (x ∷ xs) a b one (Memᴰ.head e) (Memᴰ.tail n) s t =
      let here : p x ≡ true = rw (← e) s in
      let more = mem→count xs b n t in
      absurd (let two : 2 ≤ count_where p (x ∷ xs) = ground arith in omega arith)
  unique-eq (x ∷ xs) a b one (Memᴰ.tail m) (Memᴰ.head d) s t =
      let here : p x ≡ true = rw (← d) t in
      let more = mem→count xs a m s in
      absurd (let two : 2 ≤ count_where p (x ∷ xs) = ground arith in omega arith)
  unique-eq (x ∷ xs) a b one (Memᴰ.tail m) (Memᴰ.tail n) s t =
      let fewer : count_where p xs ≤ 1 = ground arith in unique-eq xs a b fewer m n s t
