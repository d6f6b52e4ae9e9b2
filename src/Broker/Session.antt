-- ===== src/Broker/Session.antt =====
-- application/firstrade_client.py: the cache of a broker session, a local file and a durable object.
pub mod Cached
mod Tests
use firstrade_platform.Prelude.{
  ℕ, Bool, true, false, not, ◌&&◌, ◌||◌, Option, none, some, Text, codes, strip, is_empty, leb,
  Float, flt, fle, if◌then◌else◌,
}

-- `payload.get(key)` of a token: nothing, another JSON value with its truth, or a text.
pub data Token : Type 0 where
  absent : Token
  not_text : Bool → Token
  token : Text → Token

-- `payload.get("saved_at") or 0.0`: nothing, no number, or a number.
pub data SavedAt (F : Type 0) : Type 0 where
  never : SavedAt F
  unreadable : SavedAt F
  at : F → SavedAt F

pub record CachePayload (F : Type 0) : Type 0 where
  pub access_token : Token
  pub ftat : Token
  pub sid : Token
  pub saved_at : SavedAt F

-- What is stored under a name: nothing, something that is no dictionary, or a payload.
pub data Stored (F : Type 0) : Type 0 where
  nothing : Stored F
  no_mapping : Stored F
  payload : CachePayload F → Stored F

-- The local file and the durable store. A store may be missing, and either may refuse.
pub record SessionCache (F : Type 0) : Type 0 where
  pub file : Stored F
  pub file_writable : Bool
  pub has_store : Bool
  pub store : Stored F
  pub store_reachable : Bool

pub record CacheSettings : Type 0 where
  pub reuse_session : Bool
  pub persist_session_cache : Bool
  pub has_own_store : Bool
  pub session_cache_ttl_seconds : ℕ

-- `bool(value)`
abbrev pub token_truth : Token → Bool
token_truth absent = false
token_truth (not_text b) = b
token_truth (token t) = not (is_empty t)

-- `isinstance(value, str) and value.strip()`
abbrev pub is_token : Token → Bool
is_token absent = false
is_token (not_text b) = false
is_token (token t) = not (is_empty (strip t))

abbrev pub at_least_one : ℕ → ℕ
at_least_one n = if leb 1 n then n else 1

-- How the cached-only load ends: the reason codes of `FirstradeCachedSessionError`.
pub data ReadOnly (F : Type 0) : Type 0 where
  found : CachePayload F → ReadOnly F
  missing_or_stale config_error read_failed cache_missing cache_stale cache_invalid : ReadOnly F

module _ {F : Type 0} ⦃d : Float F⦄ where
  open d use {nought, minus, of_ℕ}

  unfoldable pub saved_time : SavedAt F → Option F
  saved_time never = some nought
  saved_time unreadable = none
  saved_time (at t) = some t

  unfoldable pub is_fresh : ℕ → F → Option F → Bool
  is_fresh ttl now none = false
  is_fresh ttl now (some t) =
      flt nought t && fle nought (minus now t) && fle (minus now t) (of_ℕ (at_least_one ttl))

  unfoldable pub is_valid_session_cache_payload : ℕ → F → Stored F → Bool
  is_valid_session_cache_payload ttl now nothing = false
  is_valid_session_cache_payload ttl now no_mapping = false
  is_valid_session_cache_payload ttl now (payload p) =
      is_fresh ttl now (saved_time p.saved_at) && is_token p.ftat && is_token p.sid

  abbrev pub loaded : Bool → Stored F → Option (CachePayload F)
  loaded true (payload p) = some p
  loaded true nothing = none
  loaded true no_mapping = none
  loaded false s = none

  abbrev pub check : ℕ → F → Stored F → Option (CachePayload F)
  check ttl now s = loaded (is_valid_session_cache_payload ttl now s) s

  -- A store that refuses is as good as an empty one.
  unfoldable pub load_from_store : ℕ → F → SessionCache F → Option (CachePayload F)
  load_from_store ttl now c =
      if c.has_store && c.store_reachable then check ttl now c.store else none

  abbrev pub or_store : Option (CachePayload F) → Option (CachePayload F) → Option (CachePayload F)
  or_store none q = q
  or_store (some p) q = some p

  unfoldable pub load_session_cache : ℕ → F → SessionCache F → Option (CachePayload F)
  load_session_cache ttl now c = or_store (check ttl now c.file) (load_from_store ttl now c)

  abbrev pub written_file : SessionCache F → CachePayload F → SessionCache F
  written_file c p = if c.file_writable then record c { file = payload p } else c

  abbrev pub written_store : SessionCache F → CachePayload F → SessionCache F
  written_store c p = if c.has_store && c.store_reachable then record c { store = payload p } else c

  -- `_save_session_cache` with the headers of a session, if there is one. Failures are passed over.
  unfoldable pub save_session_cache :
      CacheSettings → Option (CachePayload F) → F → SessionCache F → SessionCache F
  save_session_cache s none now c = c
  save_session_cache s (some headers) now c =
      let p = record headers { saved_at = at now } in
      if not s.reuse_session || not (token_truth p.ftat) || not (token_truth p.sid)
      then c
      else written_store (written_file c p) p

  -- `save_verified_session_cache`; nothing where it raises.
  unfoldable pub save_verified_session_cache :
      CacheSettings → Option (CachePayload F) → F → SessionCache F → Option (SessionCache F)
  save_verified_session_cache s none now c = none
  save_verified_session_cache s (some headers) now c =
      let p = record headers { saved_at = at now } in
      let complete = is_token p.access_token && is_token p.ftat && is_token p.sid in
      if not s.reuse_session
        || not s.persist_session_cache
        || not complete
        || not (c.has_store && c.store_reachable)
      then none
      else some (written_file (record c { store = payload p }) p)

  abbrev pub is_stale : ℕ → F → Option F → Bool
  is_stale ttl now none = false
  is_stale ttl now (some t) =
      flt nought t && not (fle nought (minus now t) && fle (minus now t) (of_ℕ (at_least_one ttl)))

  abbrev pub or_missing : Option (CachePayload F) → ReadOnly F
  or_missing none = missing_or_stale
  or_missing (some p) = found p

  abbrev pub stale_or_invalid : Bool → ReadOnly F
  stale_or_invalid true = cache_stale
  stale_or_invalid false = cache_invalid

  unfoldable pub judge : ℕ → F → Stored F → ReadOnly F
  judge ttl now nothing = cache_missing
  judge ttl now no_mapping = read_failed
  judge ttl now (payload p) =
      if is_valid_session_cache_payload ttl now (payload p)
      then found p
      else stale_or_invalid (is_stale ttl now (saved_time p.saved_at))

  -- `_load_read_only_session_cache`, and the test of `connect_read_only` for an empty answer
  unfoldable pub load_read_only_session_cache : CacheSettings → F → SessionCache F → ReadOnly F
  load_read_only_session_cache s now c =
      if not s.persist_session_cache && not s.has_own_store
      then or_missing (load_session_cache s.session_cache_ttl_seconds now c)
      else if not c.has_store
      then config_error
      else if not c.store_reachable
      then read_failed
      else judge s.session_cache_ttl_seconds now c.store
