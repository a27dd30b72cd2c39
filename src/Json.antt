-- ===== src/Json.antt =====
-- JSON values as Python's `dict`, `list` and scalars hold them. Numbers are integers: no modelled
-- code computes with a float that comes out of a tool result.
use google_connector_app.Prelude.{
  ℕ, zero, suc, String, Bool, true, false, List, [], ◌∷◌, str_eq, if◌then◌else◌,
}

mutual
  pub data Value : Type 0 where
    null : Value
    bool : Bool → Value
    num neg : ℕ → Value
    text : String → Value
    dict : Fields → Value
    list : Items → Value

  pub data Fields : Type 0 where
    end : Fields
    field : String → Value → Fields → Fields

  pub data Items : Type 0 where
    nil : Items
    cons : Value → Items → Items

-- `d.get(key)`, where a missing key reads as `None`
abbrev pub get : String → Fields → Value
get k end = null
get k (field j v rest) = if str_eq j k then v else get k rest

-- `{**d, key: value}`
abbrev pub put : String → Value → Fields → Fields
put k v end = field k v end
put k v (field j w rest) = if str_eq j k then field j v rest else field j w (put k v rest)

-- `bool(value)`; `neg n` is -(n + 1)
abbrev pub truthy : Value → Bool
truthy null = false
truthy (bool b) = b
truthy (num zero) = false
truthy (num (suc n)) = true
truthy (neg n) = true
truthy (text s) = if str_eq s "" then false else true
truthy (list nil) = false
truthy (list (cons x xs)) = true
truthy (dict end) = false
truthy (dict (field k v rest)) = true

-- `value is False`
abbrev pub is_false : Value → Bool
is_false (bool false) = true
is_false v = false

-- `isinstance(value, dict)`
abbrev pub is_dict : Value → Bool
is_dict (dict f) = true
is_dict v = false

-- the fields of a dict; anything else has none
abbrev pub fields : Value → Fields
fields (dict f) = f
fields v = end

abbrev texts_of : Items → List String
texts_of nil = []
texts_of (cons (text t) rest) = t ∷ texts_of rest
texts_of (cons v rest) = texts_of rest

-- the texts of a list of texts; anything else has none
abbrev pub texts : Value → List String
texts (list xs) = texts_of xs
texts v = []

-- `value == t`
abbrev pub is_text : String → Value → Bool
is_text t (text s) = str_eq s t
is_text t v = false
