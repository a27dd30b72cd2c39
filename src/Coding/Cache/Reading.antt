-- ===== src/Coding/Cache/Reading.antt =====
-- What is read from the cache.
use google_connector_app.Prelude.{
  ℕ, ◌+◌, ◌<◌, String, ◌≡◌, refl, sym, ap, ◌∙◌, Bool, true, false, none, some, List, [], ◌∷◌, ◌++◌,
  arith, find, any, update_where, str_eq, ltb, eq→str_eq, Bool-cases, inl, inr, lt→ltb, &&-left,
  str_eq→eq,
}
use google_connector_app.Json.{Value}
use google_connector_app.Coding.Cache.{
  Codec, CacheEntry, CacheScope, select_cache_policy, cache_key_of, in_scope, has_cache_key,
  new_entry, refreshed, upsert, put_cache_entry, is_live, accessed, get_cache_entry, is_valid_in,
  outdated, invalidate_cache_scope,
}

-- After an upsert the first live row of the key holds the new payload.
module _ (scope : CacheScope) (key : String) (now : ℕ) (n : CacheEntry) where
  update-live :
      (entries : List CacheEntry)
      → n.invalidated ≡ false
      → ltb now n.expires_at ≡ true
      → any (has_cache_key scope key) entries ≡ true
      → (e : CacheEntry) × (find
            (is_live scope key now)
            (update_where (has_cache_key scope key) (refreshed n) entries)
          ≡ some e)
        × (e.encrypted_payload ≡ n.encrypted_payload)
  update-live [] valid fresh some_row = cc
  update-live (x ∷ entries) valid fresh some_row = elim (Bool-cases (has_cache_key scope key x)) [
    | inl t ↦ (refreshed n x, ground (arith), refl)
    | inr f ↦
        let (e, found, same) = update-live entries valid fresh (ground arith) in
        (e, ground arith, same)
  ]

  append-live :
      (entries : List CacheEntry)
      → is_live scope key now n ≡ true
      → any (has_cache_key scope key) entries ≡ false
      → find (is_live scope key now) (entries ++ n ∷ []) ≡ some n
  append-live [] live absent_row = ground arith
  append-live (x ∷ entries) live absent_row = ground (arith, append-live entries)

module _ (scope : CacheScope) (key : String) (now : ℕ) where
  upsert-live :
      (n : CacheEntry) (entries : List CacheEntry)
      → n.invalidated ≡ false
      → ltb now n.expires_at ≡ true
      → has_cache_key scope key n ≡ true
      → (e : CacheEntry) × (find
            (is_live scope key now)
            (upsert (has_cache_key scope key) n entries)
          ≡ some e)
        × (e.encrypted_payload ≡ n.encrypted_payload)
  unfolding upsert
  upsert-live n entries valid fresh own =
      elim (Bool-cases (any (has_cache_key scope key) entries)) [
        | inl conflict ↦
            let (e, found, same) = update-live scope key now n entries valid fresh conflict in
            (e, rw conflict found, same)
        | inr absent_row ↦ (
          n,
          rw absent_row
              (append-live scope key now n entries (rw (own, valid, fresh) refl) absent_row),
          refl,
        )
      ]

-- Rows that the test is false on, before and after, do not change what it finds.
find-update_where_outside :
    (p q : CacheEntry → Bool) (f : CacheEntry → CacheEntry)
    → ((x : CacheEntry) → p x ≡ true → q x ≡ false)
    → ((x : CacheEntry) → p x ≡ true → q (f x) ≡ false)
    → (xs : List CacheEntry) → find q (update_where p f xs) ≡ find q xs
find-update_where_outside p q f before after [] = refl
find-update_where_outside p q f before after (x ∷ xs) =
    ground (arith, before x, after x, find-update_where_outside p q f before after xs)

find-append_outside :
    (q : CacheEntry → Bool) (n : CacheEntry) (xs : List CacheEntry)
    → q n ≡ false
    → find q (xs ++ n ∷ []) ≡ find q xs
find-append_outside q n [] h = ground arith
find-append_outside q n (x ∷ xs) h = ground (arith, find-append_outside q n xs)

own-key :
    (scope : CacheScope) (codec : Codec) (producer source : String) (payload : Value) (now : ℕ)
    → has_cache_key scope
        (cache_key_of codec scope source)
        (new_entry codec scope producer source payload now)
      ≡ true
own-key scope codec producer source payload now =
    rw
      (
        eq→str_eq scope.user_id _ refl,
        eq→str_eq scope.entity_type _ refl,
        eq→str_eq scope.scope_key _ refl,
        eq→str_eq (cache_key_of codec scope source) _ refl,
      )
      refl

-- A payload that was put is what is read: for an entity that may be cached, until its time to live
-- is over, under the same scope and source version, whatever the table held before, and where the
-- payload survives the JSON text and the encryption, which are undone.
pub get_cache_entry-put :
    (codec : Codec) (scope : CacheScope) (producer source : String) (payload : Value)
    (now later : ℕ) (entries : List CacheEntry)
    → (select_cache_policy scope.entity_type).cacheable ≡ true
    → later < now + (select_cache_policy scope.entity_type).ttl_seconds
    → codec.decrypt (codec.encrypt (codec.dumps payload)) ≡ codec.dumps payload
    → codec.loads (codec.dumps payload) ≡ payload
    → let entries' = (put_cache_entry codec scope producer source payload now entries).1 in
      (get_cache_entry codec scope source later entries').0 ≡ some payload
unfolding put_cache_entry get_cache_entry
get_cache_entry-put codec scope producer source payload now later entries allowed soon secret
      exact =
    let n : CacheEntry = new_entry codec scope producer source payload now in
    let key : String = cache_key_of codec scope source in
    let (e, found, same) =
      upsert-live scope key later n entries refl (lt→ltb _ _ soon)
        (own-key scope codec producer source payload now) in
    let read : codec.loads (codec.decrypt e.encrypted_payload) ≡ payload =
      ap (λ x. codec.loads (codec.decrypt x)) same ∙ ap codec.loads secret ∙ exact in
    rw (allowed, found) (ap some read)

no_live :
    (scope : CacheScope) (key : String) (now : ℕ) (entries : List CacheEntry)
    → find (is_live scope key now) (update_where (is_valid_in scope) outdated entries) ≡ none
no_live scope key now [] = refl
no_live scope key now (x ∷ entries) = ground (arith, no_live scope key now entries)

-- After a scope is invalidated nothing is read from it, under any source version and at any time.
pub get_cache_entry-invalidated :
    (codec : Codec) (scope : CacheScope) (source : String) (now : ℕ) (entries : List CacheEntry)
    → (get_cache_entry codec scope source now (invalidate_cache_scope scope entries).1).0 ≡ none
unfolding get_cache_entry invalidate_cache_scope
get_cache_entry-invalidated codec scope source now entries =
    ground (arith, no_live scope (cache_key_of codec scope source) now entries)

live-scope :
    (scope : CacheScope) (key : String) (now : ℕ) (x : CacheEntry)
    → is_live scope key now x ≡ true
    → in_scope scope x ≡ true
live-scope scope key now x h = ground arith

read-same :
    (codec : Codec) (scope : CacheScope) (source : String) (now : ℕ) (xs ys : List CacheEntry)
    → find (is_live scope (cache_key_of codec scope source) now) xs
      ≡ find (is_live scope (cache_key_of codec scope source) now) ys
    → (get_cache_entry codec scope source now xs).0 ≡ (get_cache_entry codec scope source now ys).0
unfolding get_cache_entry
read-same codec scope source now xs ys h = ground arith

-- A row of one user is no live row of another.
other_live :
    (scope other : CacheScope) (key : String) (now : ℕ) (x : CacheEntry)
    → str_eq scope.user_id other.user_id ≡ false
    → in_scope scope x ≡ true
    → is_live other key now x ≡ false
other_live scope other key now x apart h = elim (Bool-cases (str_eq x.user_id other.user_id)) [
  | inl same ↦
      let a : x.user_id ≡ other.user_id = str_eq→eq _ _ same in
      let own : str_eq x.user_id scope.user_id ≡ true = ground arith in
      let b : x.user_id ≡ scope.user_id = str_eq→eq _ _ own in
      cc (eq→str_eq scope.user_id other.user_id (sym b ∙ a))
  | inr differ ↦ rw differ refl
]

put-outside :
    (codec : Codec) (scope other : CacheScope) (producer source : String) (payload : Value)
    (now later : ℕ) (key : String) (entries : List CacheEntry)
    → str_eq scope.user_id other.user_id ≡ false
    → find
        (is_live other key later)
        (put_cache_entry codec scope producer source payload now entries).1
      ≡ find (is_live other key later) entries
unfolding put_cache_entry upsert
put-outside codec scope other producer source payload now later key entries apart =
    let own : String = cache_key_of codec scope source in
    let n : CacheEntry = new_entry codec scope producer source payload now in
    let mine = own-key scope codec producer source payload now in
    let updated =
      find-update_where_outside (has_cache_key scope own) (is_live other key later) (refreshed n)
        (λ x h. other_live scope other key later x apart (&&-left _ _ h))
        (λ x h. other_live scope other key later (refreshed n x) apart (&&-left _ _ h)) entries in
    let appended =
      find-append_outside (is_live other key later) n entries
        (other_live scope other key later n apart (&&-left _ _ mine)) in
    ground arith

get-outside :
    (codec : Codec) (scope other : CacheScope) (source : String) (now later : ℕ) (key : String)
    (entries : List CacheEntry)
    → str_eq scope.user_id other.user_id ≡ false
    → find (is_live other key later) (get_cache_entry codec scope source now entries).1
      ≡ find (is_live other key later) entries
unfolding get_cache_entry
get-outside codec scope other source now later key entries apart =
    let own : String = cache_key_of codec scope source in
    let updated =
      find-update_where_outside (is_live scope own now) (is_live other key later) accessed
        (λ x h. other_live scope other key later x apart (live-scope scope own now x h))
        (λ x h. other_live scope other key later (accessed x) apart (live-scope scope own now x h))
        entries in
    ground arith

-- What another user reads does not change by a payload that is put, a read or an invalidation.
pub get_cache_entry-others :
    (codec : Codec) (scope other : CacheScope) (producer source source' : String) (payload : Value)
    (now later : ℕ) (entries : List CacheEntry)
    → str_eq scope.user_id other.user_id ≡ false
    → let read = λ (table : List CacheEntry). (get_cache_entry codec other source' later table).0 in
      (read (put_cache_entry codec scope producer source payload now entries).1 ≡ read entries)
      × (read (get_cache_entry codec scope source now entries).1 ≡ read entries)
      × (read (invalidate_cache_scope scope entries).1 ≡ read entries)
unfolding invalidate_cache_scope
get_cache_entry-others codec scope other producer source source' payload now later entries apart =
    let key : String = cache_key_of codec other source' in
    let outside = λ (x : CacheEntry) (h : in_scope scope x ≡ true).
      other_live scope other key later x apart h in
    (
      read-same codec other source' later _ entries
          (put-outside codec scope other producer source payload now later key entries apart),
      read-same codec other source' later _ entries
          (get-outside codec scope other source now later key entries apart),
      read-same codec other source' later _ entries (
          find-update_where_outside (is_valid_in scope) (is_live other key later) outdated
            (λ x h. outside x (&&-left _ _ h)) (λ x h. outside (outdated x) (&&-left _ _ h))
            entries),
    )
