-- ===== src/Broker/Session/Cached.antt =====
-- Cached sessions: which ones are used again.
use firstrade_platform.Prelude.{
  ℕ, ◌≡◌, refl, Bool, true, false, not, ◌&&◌, Option, none, some, Float, Bool-cases, inl, inr,
  arith, either, [], ◌∷◌, strip, lstrip,
}
use firstrade_platform.Broker.Session.{
  Stored, nothing, no_mapping, payload, CachePayload, SessionCache, CacheSettings, Token, absent,
  not_text, token, token_truth, is_token, at, saved_time, is_fresh, is_valid_session_cache_payload,
  loaded, check, load_from_store, load_session_cache, or_store, save_session_cache, ReadOnly, found,
  judge, load_read_only_session_cache, or_missing, stale_or_invalid, is_stale,
}

is_token-token_truth : (t : Token) → is_token t ≡ true → token_truth t ≡ true
unfolding strip lstrip
is_token-token_truth absent h = cc
is_token-token_truth (not_text b) h = cc
is_token-token_truth (token []) h = h
is_token-token_truth (token (c ∷ s)) h = refl

module _ {F : Type 0} ⦃d : Float F⦄ where
  open d use {nought, minus, of_ℕ}

  abbrev IsUsable : ℕ → F → CachePayload F → Type 0
  IsUsable ttl now p = is_valid_session_cache_payload ttl now (payload p) ≡ true

  abbrev IsUsableIfFound : ℕ → F → Option (CachePayload F) → Type 0
  IsUsableIfFound ttl now none = Unit
  IsUsableIfFound ttl now (some p) = IsUsable ttl now p

  loaded-IsUsable :
      (ttl : ℕ) (now : F) (s : Stored F) (b : Bool)
      → is_valid_session_cache_payload ttl now s ≡ b
      → IsUsableIfFound ttl now (loaded b s)
  loaded-IsUsable ttl now nothing true e = tt
  loaded-IsUsable ttl now no_mapping true e = tt
  loaded-IsUsable ttl now (payload p) true e = e
  loaded-IsUsable ttl now s false e = tt

  check-IsUsable : (ttl : ℕ) (now : F) (s : Stored F) → IsUsableIfFound ttl now (check ttl now s)
  check-IsUsable ttl now s =
      loaded-IsUsable ttl now s (is_valid_session_cache_payload ttl now s) refl

  or_store-IsUsable :
      (ttl : ℕ) (now : F) (p q : Option (CachePayload F))
      → IsUsableIfFound ttl now p
      → IsUsableIfFound ttl now q
      → IsUsableIfFound ttl now (or_store p q)
  or_store-IsUsable ttl now none q hp hq = hq
  or_store-IsUsable ttl now (some p) q hp hq = hp

  load-IsUsable :
      (ttl : ℕ) (now : F) (c : SessionCache F)
      → IsUsableIfFound ttl now (load_session_cache ttl now c)
  unfolding load_session_cache load_from_store
  load-IsUsable ttl now c =
      or_store-IsUsable ttl now (check ttl now c.file) _ (check-IsUsable ttl now c.file) (
        either (IsUsableIfFound ttl now) (c.has_store && c.store_reachable) _ _
          (check-IsUsable ttl now c.store) tt)

  abbrev pub IsUsableIfRead : ℕ → F → ReadOnly F → Type 0
  IsUsableIfRead ttl now (found p) =
      (is_fresh ttl now (saved_time p.saved_at) ≡ true)
      × (is_token p.ftat ≡ true)
      × (is_token p.sid ≡ true)
  IsUsableIfRead ttl now _ = Unit

  usable-parts :
      (ttl : ℕ) (now : F) (p : CachePayload F)
      → IsUsable ttl now p
      → IsUsableIfRead ttl now (found p)
  unfolding is_valid_session_cache_payload
  usable-parts ttl now p h = ground arith

  or_missing-IsUsable :
      (ttl : ℕ) (now : F) (o : Option (CachePayload F))
      → IsUsableIfFound ttl now o
      → IsUsableIfRead ttl now (or_missing o)
  or_missing-IsUsable ttl now none h = tt
  or_missing-IsUsable ttl now (some p) h = usable-parts ttl now p h

  stale-IsUsable : (ttl : ℕ) (now : F) (b : Bool) → IsUsableIfRead ttl now (stale_or_invalid b)
  stale-IsUsable ttl now true = tt
  stale-IsUsable ttl now false = tt

  judge-IsUsable : (ttl : ℕ) (now : F) (s : Stored F) → IsUsableIfRead ttl now (judge ttl now s)
  unfolding judge
  judge-IsUsable ttl now nothing = tt
  judge-IsUsable ttl now no_mapping = tt
  judge-IsUsable ttl now (payload p) =
      elim (Bool-cases (is_valid_session_cache_payload ttl now (payload p))) [
        | inl valid ↦ rw valid (usable-parts ttl now p valid)
        | inr invalid ↦
            rw invalid (stale-IsUsable ttl now (is_stale ttl now (saved_time p.saved_at)))
      ]

  -- A session that the cached-only connection finds, in the file or in the store, was saved at a
  -- positive time that is not after now and no longer ago than the time to live, which counts as
  -- one second at least, and its two tokens are texts that are not blank.
  pub cached_session_is_fresh :
      (s : CacheSettings) (now : F) (c : SessionCache F)
      → IsUsableIfRead s.session_cache_ttl_seconds now (load_read_only_session_cache s now c)
  unfolding load_read_only_session_cache
  cached_session_is_fresh s now c =
      let ttl = s.session_cache_ttl_seconds in
      let P : ReadOnly F → Type 0 = IsUsableIfRead ttl now in
      either P (not s.persist_session_cache && not s.has_own_store) _ _
        (or_missing-IsUsable ttl now (load_session_cache ttl now c) (load-IsUsable ttl now c))
        (either P (not c.has_store) _ _ tt
          (either P (not c.store_reachable) _ _ tt (judge-IsUsable ttl now c.store)))

  -- A session that was saved by a client that reuses sessions, with tokens that are not blank and a
  -- file that can be written, is the one that is loaded later, as long as it is fresh then.
  pub load-save_session_cache :
      (s : CacheSettings) (headers : CachePayload F) (now later : F) (c : SessionCache F) (ttl : ℕ)
      → s.reuse_session ≡ true
      → is_token headers.ftat ≡ true
      → is_token headers.sid ≡ true
      → c.file_writable ≡ true
      → is_fresh ttl later (some now) ≡ true
      → load_session_cache ttl later (save_session_cache s (some headers) now c)
        ≡ some (record headers { saved_at = at now })
  unfolding save_session_cache load_session_cache is_valid_session_cache_payload saved_time
  load-save_session_cache s headers now later c ttl reuse ftat sid writable fresh =
      ground (arith, is_token-token_truth headers.ftat ftat, is_token-token_truth headers.sid sid)
