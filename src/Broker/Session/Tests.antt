-- ===== src/Broker/Session/Tests.antt =====
-- The theorems on the cache of a session at one small cache.
use firstrade_platform.Prelude.{
  ℕ, ◌≡◌, refl, true, false, none, some, codes, strip, lstrip, ℤ, cents_float,
}
use firstrade_platform.Broker.Session.{
  CachePayload, token, SavedAt, at, nothing, payload, SessionCache, CacheSettings, is_fresh,
  is_token, load_session_cache, save_session_cache, load_read_only_session_cache,
}
use firstrade_platform.Broker.Session.Cached.{
  IsUsableIfRead, cached_session_is_fresh, load-save_session_cache,
}

abbrev dollars_of : ℕ → ℤ
dollars_of n = cents_float.of_ℕ n

abbrev some_headers : CachePayload ℤ
some_headers = record {
  access_token = token (codes "a");
  ftat = token (codes "f");
  sid = token (codes "s");
  saved_at = SavedAt.never;
}

abbrev empty_cache : SessionCache ℤ
empty_cache = record {
  file = nothing;
  file_writable = true;
  has_store = true;
  store = nothing;
  store_reachable = false;
}

abbrev some_settings : CacheSettings
some_settings = record {
  reuse_session = true;
  persist_session_cache = true;
  has_own_store = false;
  session_cache_ttl_seconds = 3600;
}

cached_session_is_fresh_example : IsUsableIfRead 3600 (dollars_of 20) (
    load_read_only_session_cache some_settings (dollars_of 20) (record empty_cache {
      store = payload (record some_headers { saved_at = at (dollars_of 10) });
      store_reachable = true;
    }))
cached_session_is_fresh_example =
    cached_session_is_fresh some_settings (dollars_of 20) (record empty_cache {
      store = payload (record some_headers { saved_at = at (dollars_of 10) });
      store_reachable = true;
    })

header-is_token : (is_token some_headers.ftat ≡ true) × (is_token some_headers.sid ≡ true)
unfolding strip lstrip firstrade_platform.Prelude.is_space
header-is_token = (refl, refl)

saved-is_fresh : is_fresh 3600 (dollars_of 20) (some (dollars_of 10)) ≡ true
unfolding is_fresh firstrade_platform.Prelude.◌-ℤ◌
saved-is_fresh = refl

load-save_session_cache_example :
    load_session_cache 3600
      (dollars_of 20)
      (save_session_cache some_settings (some some_headers) (dollars_of 10) empty_cache)
    ≡ some (record some_headers { saved_at = at (dollars_of 10) })
load-save_session_cache_example =
    load-save_session_cache some_settings some_headers (dollars_of 10) (dollars_of 20) empty_cache
      3600 refl header-is_token.0 header-is_token.1 refl saved-is_fresh
