-- ===== src/Security/Client/Fetched.antt =====
-- Where the tokens that `fetchProxyToken` returns come from.
use ezbake_common_cpp.Cache.Lru.Min.{IsRange}
use ezbake_common_cpp.Cache.Lru.Spec.{find_first, after_get, get-after_get}
use ezbake_common_cpp.Cache.Timed
use ezbake_common_cpp.Cache.Timed.{CacheValue, TimedCache, value_eq, expired}
use ezbake_common_cpp.Common.Result.{Exception, Result, Result-cases, ok}
use ezbake_common_cpp.Common.{
  ℕ, ◌≡◌, ◌⊎◌, sym, ap, ◌∙◌, Option-cases, Bool-cases, Bool, true, false, none, some, List, Text,
  text_Eq, inl, inr,
}
use ezbake_common_cpp.Security.Client.{
  Response, Service, Client, Now, response_eq, proxy_cache_key, fetch_from_cache,
  fetch_proxy_token_from_cache, call_service, fetch_proxy_token,
}
use ezbake_common_cpp.Security.Tokens.Json.{PicoJson, is_proxy_token_response_expired}
use ezbake_common_cpp.Security.Tokens.{ProxyTokenRequest}

-- Under the key the cache has the response, with a time stamp that is not too old.
abbrev pub IsCached : TimedCache Text Response → ℕ → Text → Response → Type 0
IsCached cache micros key response =
    (stored : CacheValue Response) × (find_first key cache.cache.items ≡ some stored)
    × (stored.value ≡ response)
    × (expired cache.expiration micros stored.timestamp ≡ false)

module _ {Pool Connection : Type 0} (service : Service Pool Connection)
    (range : Text → List (Text × CacheValue Response) → List ℕ)
    (order : List (Text × CacheValue Response) → List (Text × CacheValue Response))
    (json : PicoJson) (law : IsRange range) where
  -- What `get` of the timed cache returns stands in the cache, and is not older than its expiration.
  get-IsCached :
      (cache : TimedCache Text Response) (micros : ℕ) (key : Text) (response : Response)
      → (Timed.get range order cache micros key).1 ≡ some response
      → IsCached cache micros key response
  unfolding Timed.get Timed.expunge_expired after_get
  get-IsCached cache micros key response h =
      let seen = get-after_get range law cache.cache key in
      elim (Option-cases (find_first key cache.cache.items)) [
        | inl miss ↦ absurd (cc (rw (seen, miss, Timed.get) at h))
        | inr (w, hit) ↦ elim (Bool-cases (expired cache.expiration micros w.timestamp)) [
          | inl stale ↦ absurd (cc (rw (seen, hit, Timed.get, stale) at h))
          | inr fresh ↦
              let same : w.value ≡ response = cc (rw (seen, hit, Timed.get, fresh) at h) in
              (w, hit, same, fresh)
        ]
      ]

  fetch_from_cache_fresh :
      (is_expired : Text → Result Bool) (cache : TimedCache Text Response) (micros : ℕ) (key : Text)
      (response : Response)
      → (fetch_from_cache range order is_expired cache micros key).1 ≡ ok (some response)
      → (is_expired response.token ≡ ok false) × IsCached cache micros key response
  unfolding fetch_from_cache
  fetch_from_cache_fresh is_expired cache micros key response h =
      elim (Option-cases (Timed.get range order cache micros key).1) [
        | inl miss ↦ absurd (cc (rw (miss, fetch_from_cache) at h))
        | inr (r, hit) ↦
            let seen = rw (hit, fetch_from_cache) at h in
            elim (Result-cases (is_expired r.token)) [
              | inl (true, stale) ↦ absurd (cc (rw stale at seen))
              | inl (false, fresh) ↦
                  let same : r ≡ response = cc (rw fresh at seen) in
                  (rw (sym same) fresh, get-IsCached cache micros key response (hit ∙ ap some same))
              | inr (inl (e, thrown)) ↦ absurd (cc (rw thrown at seen))
              | inr (inr (inl hung)) ↦ absurd (cc (rw hung at seen))
              | inr (inr (inr crashed)) ↦ absurd (cc (rw crashed at seen))
            ]
      ]

  call_service_ok :
      (rethrown : Exception → Exception) (pool : Pool) (request : Connection → Result Response)
      (response : Response)
      → (call_service range order json service rethrown pool request).1 ≡ ok response
      → (c : Connection) × ((service.get_client pool).1 ≡ ok c) × (request c ≡ ok response)
  unfolding call_service
  call_service_ok rethrown pool request response h =
      elim (Result-cases (service.get_client pool).1) [
        | inl (c, lent) ↦
            let seen = rw (lent, call_service) at h in
            elim (Result-cases (request c)) [
              | inl (r, answered) ↦
                  let same : r ≡ response = cc (rw answered at seen) in
                  (c, lent, answered ∙ ap ok same)
              | inr (inl (e, thrown)) ↦ absurd (cc (rw thrown at seen))
              | inr (inr (inl hung)) ↦ absurd (cc (rw hung at seen))
              | inr (inr (inr crashed)) ↦ absurd (cc (rw crashed at seen))
            ]
        | inr (inl (e, thrown)) ↦ absurd (cc (rw (thrown, call_service) at h))
        | inr (inr (inl hung)) ↦ absurd (cc (rw (hung, call_service) at h))
        | inr (inr (inr crashed)) ↦ absurd (cc (rw (crashed, call_service) at h))
      ]

  -- A token that `fetchProxyToken` returns was in the cache, the least recently used under the key of
  -- the request, and neither its time in the cache nor the token has expired, or it is the answer of
  -- the service to this request.
  pub fetch_proxy_token_fresh :
      (client : Client Pool) (now : Now) (request : ProxyTokenRequest) (response : Response)
      → (fetch_proxy_token range order json service client now request).1 ≡ ok response
      → ((is_proxy_token_response_expired json now.millis response.token ≡ ok false)
          × IsCached client.proxy_token_cache now.micros (proxy_cache_key request) response)
        ⊎ ((c : Connection) × ((service.get_client client.pool).1 ≡ ok c)
            × (service.request_proxy_token c request ≡ ok response))
  unfolding fetch_proxy_token fetch_proxy_token_from_cache
  fetch_proxy_token_fresh client now request response h =
      let looked =
        (fetch_proxy_token_from_cache range order json client.proxy_token_cache now request).1 in
      elim (Result-cases looked) [
        | inl (some r, hit) ↦
            let same : r ≡ response = cc (rw (hit, fetch_proxy_token) at h) in
            inl (
              fetch_from_cache_fresh (λ s. is_proxy_token_response_expired json now.millis s)
                client.proxy_token_cache now.micros (proxy_cache_key request) response
                (hit ∙ ap (λ x. ok (some x)) same))
        | inl (none, miss) ↦ inr (
            call_service_ok service.token_rethrown client.pool
              (λ c. service.request_proxy_token c request) response
              (rw (miss, fetch_proxy_token) at h))
        | inr (inl (e, thrown)) ↦ absurd (cc (rw (thrown, fetch_proxy_token) at h))
        | inr (inr (inl hung)) ↦ absurd (cc (rw (hung, fetch_proxy_token) at h))
        | inr (inr (inr crashed)) ↦ absurd (cc (rw (crashed, fetch_proxy_token) at h))
      ]
