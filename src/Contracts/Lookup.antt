-- ===== src/Contracts/Lookup.antt =====
-- Looking a contract up fails closed.
use google_connector_app.Prelude.{
  String, ◌≡◌, Bool, true, Option, some, List, [], ◌∷◌, arith, any, find, contains, subset,
  str_eq→eq, &&-left, &&-right,
}
use google_connector_app.Contracts.{
  WriteContract, has_key, or_empty, write_contracts, write_contract_for, lookup_contract,
  in_write_tools,
}

module _ {ℓ} {A : Type ℓ} (p : A → Bool) where
  find-holds : (xs : List A) (a : A) → find p xs ≡ some a → p a ≡ true
  find-holds [] a h = cc
  find-holds (x ∷ xs) a h = ground (arith, find-holds xs a)

  -- What the hit satisfies, something in the list satisfies.
  find-any :
      (q : A → Bool) (xs : List A) (a : A) → find p xs ≡ some a → q a ≡ true → any q xs ≡ true
  find-any q [] a h t = cc
  find-any q (x ∷ xs) a h t = ground (arith, find-any q xs a)

all-contains :
    (allowed xs : List String) (t : String)
    → subset xs allowed ≡ true
    → contains xs t ≡ true
    → contains allowed t ≡ true
all-contains allowed [] t h m = cc
all-contains allowed (x ∷ xs) t h m = ground (arith, str_eq→eq x t, all-contains allowed xs t)

-- The same over any table.
IsWithin-table :
    (table : List WriteContract) (service operation : String) (allowed : List String)
    (c : WriteContract) (t : String)
    → lookup_contract table service operation (some allowed) ≡ some c
    → contains c.required_tools t ≡ true
    → (c.service ≡ service)
      × (c.operation ≡ operation)
      × (contains allowed t ≡ true)
      × (any (λ d. contains d.required_tools t) table ≡ true)
unfolding lookup_contract
IsWithin-table table service operation allowed c t h m =
    let p = has_key service operation in
    let found : find p table ≡ some c = ground arith in
    let keyed : p c ≡ true = find-holds p table c found in
    let inside : subset c.required_tools allowed ≡ true = ground arith in
    (
      str_eq→eq _ _ (&&-left _ _ keyed),
      str_eq→eq _ _ (&&-right _ _ keyed),
      all-contains allowed c.required_tools t inside m,
      find-any p (λ d. contains d.required_tools t) table c found m,
    )

-- A contract that is found under an allowed-tools ceiling is the one of its service and operation,
-- and each tool that it requires is within the ceiling and is a known write tool.
pub write_contract_for-IsWithin :
    (service operation : Option String) (allowed : List String) (c : WriteContract) (t : String)
    → write_contract_for service operation (some allowed) ≡ some c
    → contains c.required_tools t ≡ true
    → (c.service ≡ or_empty service)
      × (c.operation ≡ or_empty operation)
      × (contains allowed t ≡ true)
      × (in_write_tools t ≡ true)
unfolding write_contract_for in_write_tools
write_contract_for-IsWithin service operation allowed c t =
    IsWithin-table write_contracts (or_empty service) (or_empty operation) allowed c t
