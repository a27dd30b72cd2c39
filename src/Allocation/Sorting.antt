-- ===== src/Allocation/Sorting.antt =====
-- Sorting, pruning and grouping bring nothing in, and name each task once.
use mathlib.Core.Path.{subst}
use mathlib.Core.List.{Memᴰ}
use google_connector_app.Prelude.{
  ℕ, ◌+◌, ◌≤◌, ◌≡◌, refl, String, Bool, false, List, [], ◌∷◌, ◌++◌, take, zero, suc, arith,
  contains, count_where, length, str_eq, leb, if◌then◌else◌, Bool-cases, inl, inr, ◌⊎◌, le_trans,
  str_eq→eq,
}
use google_connector_app.Knapsack.{Entry}
use google_connector_app.Allocation.{
  AllocationOption, str_leb, insert_sorted, sort_by, task_ids, prune_states, sorted_tasks,
}

-- Sorting and cutting a list off bring nothing in.
module _ {A : Type 0} where
  pub mem_cases : (x y : A) (xs : List A) → Memᴰ x (y ∷ xs) → (x ≡ y) ⊎ Memᴰ x xs
  mem_cases x y xs (Memᴰ.head e) = inl e
  mem_cases x y xs (Memᴰ.tail m) = inr m

  pub insert_sorted-mem :
      (first : A → A → Bool) (a x : A) (xs : List A)
      → Memᴰ x (insert_sorted first a xs)
      → Memᴰ x (a ∷ xs)
  unfolding insert_sorted
  insert_sorted-mem first a x [] m = m
  insert_sorted-mem first a x (b ∷ xs) m = elim (Bool-cases (first a b)) [
    | inl t ↦ rw t at m
    | inr f ↦ elim (mem_cases x b (insert_sorted first a xs) (rw f at m)) [
      | inl here ↦ Memᴰ.tail (Memᴰ.head here)
      | inr later ↦ elim (mem_cases x a xs (insert_sorted-mem first a x xs later)) [
        | inl own ↦ Memᴰ.head own
        | inr old ↦ Memᴰ.tail (Memᴰ.tail old)
      ]
    ]
  ]

  pub sort_by-mem :
      (first : A → A → Bool) (x : A) (xs : List A) → Memᴰ x (sort_by first xs) → Memᴰ x xs
  unfolding sort_by
  sort_by-mem first x [] m = m
  sort_by-mem first x (a ∷ xs) m =
      elim (mem_cases x a (sort_by first xs) (insert_sorted-mem first a x (sort_by first xs) m)) [
        | inl own ↦ Memᴰ.head own
        | inr old ↦ Memᴰ.tail (sort_by-mem first x xs old)
      ]

  pub take-mem : (n : ℕ) (x : A) (xs : List A) → Memᴰ x (take n xs) → Memᴰ x xs
  take-mem zero x xs m = elim m [ ]
  take-mem (suc n) x [] m = m
  take-mem (suc n) x (y ∷ xs) (Memᴰ.head e) = Memᴰ.head e
  take-mem (suc n) x (y ∷ xs) (Memᴰ.tail m) = Memᴰ.tail (take-mem n x xs m)

  pub insert_sorted-count :
      (first : A → A → Bool) (p : A → Bool) (a : A) (xs : List A)
      → count_where p (insert_sorted first a xs) ≡ (if p a then 1 else 0) + count_where p xs
  unfolding insert_sorted
  insert_sorted-count first p a [] = refl
  insert_sorted-count first p a (b ∷ xs) = elim (Bool-cases (first a b)) [
    | inl t ↦ rw t refl
    | inr f ↦ rw f (omega (arith, insert_sorted-count first p a xs))
  ]

  pub sort_by-count :
      (first : A → A → Bool) (p : A → Bool) (xs : List A)
      → count_where p (sort_by first xs) ≡ count_where p xs
  unfolding sort_by
  sort_by-count first p [] = refl
  sort_by-count first p (a ∷ xs) =
      omega (arith, insert_sorted-count first p a (sort_by first xs), sort_by-count first p xs)

  pub take-count :
      (n : ℕ) (p : A → Bool) (xs : List A) → count_where p (take n xs) ≤ count_where p xs
  take-count zero p xs = omega arith
  take-count (suc n) p [] = omega arith
  take-count (suc n) p (x ∷ xs) = omega (arith, take-count n p xs)

  pub count-snoc :
      (p : A → Bool) (xs : List A) (a : A)
      → count_where p (xs ++ a ∷ []) ≡ count_where p xs + (if p a then 1 else 0)
  count-snoc p [] a = omega arith
  count-snoc p (x ∷ xs) a = omega (arith, count-snoc p xs a)

  pub mem-snoc : (xs : List A) (a x : A) → Memᴰ x (xs ++ a ∷ []) → Memᴰ x xs ⊎ (x ≡ a)
  mem-snoc [] a x (Memᴰ.head e) = inr e
  mem-snoc [] a x (Memᴰ.tail m) = elim m [ ]
  mem-snoc (y ∷ xs) a x (Memᴰ.head e) = inl (Memᴰ.head e)
  mem-snoc (y ∷ xs) a x (Memᴰ.tail m) = elim (mem-snoc xs a x m) [
    | inl n ↦ inl (Memᴰ.tail n)
    | inr e ↦ inr e
  ]

pub prune_states-mem :
    (limit : ℕ) (states : List (Entry (ℕ × ℕ) AllocationOption))
    (x : Entry (ℕ × ℕ) AllocationOption)
    → Memᴰ x (prune_states limit states)
    → Memᴰ x states
unfolding prune_states
prune_states-mem limit states x m = elim (Bool-cases (leb (length states) limit)) [
  | inl t ↦ rw t at m
  | inr f ↦ sort_by-mem _ x states (take-mem limit x _ (rw f at m))
]

-- Each task stands once among the keys.
abbrev pub named : String → String → Bool
named task t = str_eq t task

pub task_ids-once :
    (options : List AllocationOption) (seen : List String) (task : String)
    → count_where (named task) (task_ids options seen) ≤ (if contains seen task then 0 else 1)
unfolding task_ids
task_ids-once [] seen task = ground arith
task_ids-once (o ∷ options) seen task = elim (Bool-cases (contains seen o.task_id)) [
  | inl known ↦ rw known (task_ids-once options seen task)
  | inr new ↦
      let rest = task_ids-once options (o.task_id ∷ seen) task in
      elim (Bool-cases (str_eq o.task_id task)) [
        | inl same ↦
            let absent_task : contains seen task ≡ false =
              subst (λ t. contains seen t ≡ false) (str_eq→eq o.task_id task same) new in
            ground arith
        | inr differ ↦ ground arith
      ]
]

pub sorted_tasks-once :
    (max_tasks : ℕ) (source : List AllocationOption) (task : String)
    → count_where (named task) (sorted_tasks max_tasks source) ≤ 1
unfolding sorted_tasks
sorted_tasks-once max_tasks source task =
    let ids : List String = task_ids source [] in
    le_trans (take-count max_tasks (named task) (sort_by str_leb ids))
      (rw (sort_by-count str_leb (named task) ids) (task_ids-once source [] task))
