-- ===== src/Coding/Cache.antt =====
-- The cache of coding observations: app/coding/cache_policy.py. The SHA-256 of the key's parts, the
-- JSON printer and parser, and the encryption of payloads are parameters; instants are numbers of
-- seconds.
pub mod Reading
mod Tests
use google_connector_app.Prelude.{
  ℕ, ◌+◌, ◌*◌, String, Bool, true, false, not, ◌&&◌, Option, none, some, List, [], ◌∷◌, ◌++◌, find,
  any, update_where, count_where, str_eq, ltb, if◌then◌else◌,
}
use google_connector_app.Json.{Value}

pub record CacheDecision : Type 0 where
  pub cacheable : Bool
  pub ttl_seconds : ℕ
  pub invalidation : String
  pub reason : String
  pub may_satisfy_live_postcondition : Bool

abbrev decision : Bool → ℕ → String → String → CacheDecision
decision cacheable ttl invalidation reason = record {
  cacheable = cacheable;
  ttl_seconds = ttl;
  invalidation = invalidation;
  reason = reason;
  may_satisfy_live_postcondition = false;
}

abbrev cached : ℕ → String → String → CacheDecision
cached ttl invalidation reason = decision true ttl invalidation reason

abbrev never : String → CacheDecision
never reason = decision false 0 "never" reason

-- POLICIES
abbrev policies : List (String × CacheDecision)
policies =
    (
      "immutable_source",
      cached (90 * 86400) "content_hash_changed" "immutable source is content-addressed",
    )
    ∷ (
      "repository_inventory",
      cached 86400 "commit_or_worktree_identity_changed" "inventory is commit-scoped",
    )
    ∷ (
      "source_excerpt",
      cached (7 * 86400) "file_hash_changed" "excerpt is keyed by the complete file hash",
    )
    ∷ (
      "database_schema",
      cached 300 "migration_revision_changed" "schema is revision-scoped and short-lived",
    )
    ∷ (
      "validation_evidence",
      cached (90 * 86400) "tree_or_toolchain_changed"
          "validation is immutable for one tree and toolchain",
    )
    ∷ (
      "okf_bundle",
      cached (30 * 86400) "trusted_bundle_hash_changed" "trusted OKF is version-addressed",
    )
    ∷ (
      "process_health",
      cached 5 "time_or_process_identity_changed" "health is momentary and never completion proof",
    )
    ∷ ("log_tail", cached 5 "file_size_or_mtime_changed" "log tails are momentary observations")
    ∷ (
      "deployment_status",
      cached 5 "deployment_id_or_time_changed" "deployment status is live external state",
    )
    ∷ ("secret", never "credentials and tokens are never cached")
    ∷ ("raw_private_content", never "raw private content is never cached here")
    ∷ ("write_result", never "write completion requires authoritative verification")
    ∷ ("approval", never "human decisions are durable records, not cache entries")
    ∷ []

abbrev unclassified : CacheDecision
unclassified = decision false 0 "unclassified" "unclassified entities fail closed"

unfoldable pub lookup_policy : String → List (String × CacheDecision) → CacheDecision
lookup_policy entity_type [] = unclassified
lookup_policy entity_type ((name, d) ∷ rest) =
    if str_eq name entity_type then d else lookup_policy entity_type rest

unfoldable pub select_cache_policy : String → CacheDecision
unfolding lookup_policy
select_cache_policy entity_type = lookup_policy entity_type policies

pub record Codec : Type 0 where
  pub cache_digest : String → String → String → String
  pub content_digest : String → String
  pub dumps : Value → String
  pub loads : String → Value
  pub encrypt : String → String
  pub decrypt : String → String

-- A row of coding_cache_entries.
pub record CacheEntry : Type 0 where
  pub user_id : String
  pub entity_type : String
  pub scope_key : String
  pub cache_key : String
  pub producer_version : String
  pub source_version : String
  pub content_hash : String
  pub encrypted_payload : String
  pub policy_reason : String
  pub expires_at : ℕ
  pub invalidated : Bool
  pub access_count : ℕ

-- What an observation is about.
pub record CacheScope : Type 0 where
  pub user_id : String
  pub entity_type : String
  pub scope_key : String

unfoldable pub cache_key_of : Codec → CacheScope → String → String
cache_key_of codec scope source_version =
    codec.cache_digest scope.entity_type scope.scope_key source_version

-- `user_id=$1 AND entity_type=$2 AND scope_key=$3`
abbrev pub in_scope : CacheScope → CacheEntry → Bool
in_scope scope e =
    str_eq e.user_id scope.user_id
    && str_eq e.entity_type scope.entity_type
    && str_eq e.scope_key scope.scope_key

-- The columns of the unique constraint.
abbrev pub has_cache_key : CacheScope → String → CacheEntry → Bool
has_cache_key scope key e = in_scope scope e && str_eq e.cache_key key

abbrev pub new_entry : Codec → CacheScope → String → String → Value → ℕ → CacheEntry
new_entry codec scope producer_version source_version payload now = record {
  user_id = scope.user_id;
  entity_type = scope.entity_type;
  scope_key = scope.scope_key;
  cache_key = cache_key_of codec scope source_version;
  producer_version = producer_version;
  source_version = source_version;
  content_hash = codec.content_digest (codec.dumps payload);
  encrypted_payload = codec.encrypt (codec.dumps payload);
  policy_reason = (select_cache_policy scope.entity_type).reason;
  expires_at = now + (select_cache_policy scope.entity_type).ttl_seconds;
  invalidated = false;
  access_count = 0;
}

-- The conflicting row keeps its key and its source_version.
abbrev pub refreshed : CacheEntry → CacheEntry → CacheEntry
refreshed n e = record e {
  producer_version = n.producer_version;
  content_hash = n.content_hash;
  encrypted_payload = n.encrypted_payload;
  policy_reason = n.policy_reason;
  expires_at = n.expires_at;
  invalidated = false;
  access_count = 0;
}

-- `INSERT … ON CONFLICT … DO UPDATE`
unfoldable pub upsert : (CacheEntry → Bool) → CacheEntry → List CacheEntry → List CacheEntry
upsert conflicts n entries =
    if any conflicts entries
    then update_where conflicts (refreshed n) entries
    else entries ++ n ∷ []

unfoldable pub put_cache_entry :
    Codec
    → CacheScope
    → String
    → String
    → Value
    → ℕ
    → List CacheEntry
    → Option CacheEntry × List CacheEntry
put_cache_entry codec scope producer_version source_version payload now entries =
    if not (select_cache_policy scope.entity_type).cacheable
    then (none, entries)
    else let key = cache_key_of codec scope source_version in
      let n = new_entry codec scope producer_version source_version payload now in
      let table = upsert (has_cache_key scope key) n entries in
      (find (has_cache_key scope key) table, table)

-- `invalidated_at IS NULL AND expires_at>now()`, besides the key
abbrev pub is_live : CacheScope → String → ℕ → CacheEntry → Bool
is_live scope key now e = has_cache_key scope key e && not e.invalidated && ltb now e.expires_at

abbrev pub accessed : CacheEntry → CacheEntry
accessed e = record e { access_count = e.access_count + 1 }

unfoldable pub get_cache_entry :
    Codec → CacheScope → String → ℕ → List CacheEntry → Option Value × List CacheEntry
get_cache_entry codec scope source_version now entries =
    if not (select_cache_policy scope.entity_type).cacheable
    then (none, entries)
    else let live = is_live scope (cache_key_of codec scope source_version) now in
      elim (find live entries) [
        | none ↦ (none, entries)
        | some e ↦ (
          some (codec.loads (codec.decrypt e.encrypted_payload)),
          update_where live accessed entries,
        )
      ]

abbrev pub is_valid_in : CacheScope → CacheEntry → Bool
is_valid_in scope e = in_scope scope e && not e.invalidated

abbrev pub outdated : CacheEntry → CacheEntry
outdated e = record e { invalidated = true }

unfoldable pub invalidate_cache_scope : CacheScope → List CacheEntry → ℕ × List CacheEntry
invalidate_cache_scope scope entries =
    (count_where (is_valid_in scope) entries, update_where (is_valid_in scope) outdated entries)
