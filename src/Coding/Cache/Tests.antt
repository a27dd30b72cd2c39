-- ===== src/Coding/Cache/Tests.antt =====
-- An inventory that is put, read, and read by another user.
use google_connector_app.Prelude.{String, ◌≡◌, refl, some, List, [], arith}
use google_connector_app.Json.{Value, text}
use google_connector_app.Coding.Cache.{
  Codec, CacheEntry, CacheScope, select_cache_policy, lookup_policy, put_cache_entry,
  get_cache_entry,
}
use google_connector_app.Coding.Cache.Reading.{get_cache_entry-put}

abbrev read_text : String → Value
read_text s = text s

abbrev codec : Codec
codec = record {
  cache_digest = λ a b c. c;
  content_digest = λ s. s;
  dumps = λ v. elim v [ text t ↦ t | _ ↦ "" ];
  loads = read_text;
  encrypt = λ s. s;
  decrypt = λ s. s;
}

abbrev inventory : CacheScope
inventory = record { user_id = "ana"; entity_type = "repository_inventory"; scope_key = "repo" }

abbrev of_bo : CacheScope
of_bo = record inventory { user_id = "bo" }

abbrev table : List CacheEntry
table = (put_cache_entry codec inventory "p1" "c1" (text "files") 100 []).1

get_cache_entry-put_example :
    (get_cache_entry codec inventory "c1" 200 table).0 ≡ some (text "files")
unfolding select_cache_policy lookup_policy
get_cache_entry-put_example =
    get_cache_entry-put codec inventory "p1" "c1" (text "files") 100 200 [] refl (omega arith) refl
      refl
