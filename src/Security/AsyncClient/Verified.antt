-- ===== src/Security/AsyncClient/Verified.antt =====
-- Tokens that the asynchronous client passes on without an error, and how often its callback is called.
use ezbake_common_cpp.Cache.Timed
use ezbake_common_cpp.Cache.Timed.{CacheValue, TimedCache}
use ezbake_common_cpp.Common.Async.{
  CalledTimes, once_more, finished, call, run, Settles, run-Settles,
}
use ezbake_common_cpp.Common.Result.{Exception, Result-cases, ok}
use ezbake_common_cpp.Common.{
  zero, suc, ℕ, ◌≡◌, refl, sym, ap, ◌∙◌, true, false, Option, none, some, inl, inr, ◌⊎◌, List, Text,
  text_Eq,
}
use ezbake_common_cpp.Config.Helpers.Security.{Crypto, SecurityConfiguration}
use ezbake_common_cpp.Security.AsyncClient.{
  ask, get_client, got_client, request_proxy_token, invoked, with_client, Completion, refused,
  null_client, received, ServiceOp, ServiceReply, Serviced, dispatch,
  handle_fetch_proxy_token_response, fetch_proxy_token,
}
use ezbake_common_cpp.Security.Client.{
  Response, Client, Now, response_eq, proxy_cache_key, fetch_proxy_token_from_cache,
}
use ezbake_common_cpp.Security.Tokens.Json.{PicoJson}
use ezbake_common_cpp.Security.Tokens.Signed.{verify_proxy_user_token_text}
use ezbake_common_cpp.Security.Tokens.{ProxyTokenRequest}

-- The caches with the token.
abbrev pub cached :
    {Pool : Type 0} (range : Text → List (Text × CacheValue Response) → List ℕ)
    (order : List (Text × CacheValue Response) → List (Text × CacheValue Response))
    → ProxyTokenRequest
    → Client Pool
    → Now
    → Response
    → Client Pool
cached range order request client now token = record client {
  proxy_token_cache =
      Timed.put range order client.proxy_token_cache now.micros (proxy_cache_key request) token;
}

module _ {Pool : Type 0} (Connection : Type 0) (diagnostic : Exception → Text)
    (range : Text → List (Text × CacheValue Response) → List ℕ)
    (order : List (Text × CacheValue Response) → List (Text × CacheValue Response))
    {PrivateKey PublicKey : Type 0} (crypto : Crypto PrivateKey PublicKey)
    (security_config : SecurityConfiguration PrivateKey PublicKey) where
  abbrev handled :
      ProxyTokenRequest
      → Client Pool × Now
      → Completion Response
      → Serviced Pool Connection (Option Response)
  handled = handle_fetch_proxy_token_response diagnostic range order crypto security_config

  -- A token that the callback is given without an error is the one that the service sent, its signature
  -- was verified, and it is in the cache under the key of the request.
  pub handle_fetch_proxy_token_response_verified :
      (request : ProxyTokenRequest) (client : Client Pool) (now : Now)
      (completion : Completion Response) (later : Client Pool) (token : Response)
      (rest : Serviced Pool Connection (Option Response))
      → handled request (client, now) completion ≡ call (later, (none, some token)) rest
      → (completion ≡ received token none)
        × (verify_proxy_user_token_text crypto security_config token.token token.signature
            ≡ ok true)
        × (later ≡ cached range order request client now token)
  unfolding handle_fetch_proxy_token_response
  handle_fetch_proxy_token_response_verified request client now (refused e) later token rest h =
      absurd (cc h)
  handle_fetch_proxy_token_response_verified request client now null_client later token rest h =
      absurd (cc h)
  handle_fetch_proxy_token_response_verified request client now (received result (some e)) later
        token rest h =
      absurd (cc h)
  handle_fetch_proxy_token_response_verified request client now (received result none) later token
        rest h =
      elim (Result-cases
        (verify_proxy_user_token_text crypto security_config result.token result.signature)) [
          | inl (true, verified) ↦
              let seen = rw (verified, handle_fetch_proxy_token_response) at h in
              let same : result ≡ token = cc seen in
              let kept : cached range order request client now result ≡ later = cc seen in
              (
                ap (λ r. received r none) same,
                rw same at verified,
                sym kept ∙ ap (cached range order request client now) same,
              )
          | inl (false, forged) ↦ absurd (cc (rw (forged, handle_fetch_proxy_token_response) at h))
          | inr (inl (e, thrown)) ↦
              absurd (cc (rw (thrown, handle_fetch_proxy_token_response) at h))
          | inr (inr (inl hung)) ↦ absurd (cc (rw (hung, handle_fetch_proxy_token_response) at h))
          | inr (inr (inr crashing)) ↦
              absurd (cc (rw (crashing, handle_fetch_proxy_token_response) at h))
        ]

  abbrev Any : (op : ServiceOp Pool Connection) → ServiceReply Pool Connection op → Type 0
  Any op reply = Unit

  handle_fetch_proxy_token_response-Settles :
      (request : ProxyTokenRequest) (now : Client Pool × Now) (completion : Completion Response)
      → Settles Any ⊥ (handled request now completion)
  unfolding handle_fetch_proxy_token_response
  handle_fetch_proxy_token_response-Settles request (client, now) (refused e) = refl
  handle_fetch_proxy_token_response-Settles request (client, now) null_client = refl
  handle_fetch_proxy_token_response-Settles request (client, now) (received result (some e)) = refl
  handle_fetch_proxy_token_response-Settles request (client, now) (received result none) =
      elim (Result-cases
        (verify_proxy_user_token_text crypto security_config result.token result.signature)) [
          | inl (true, verified) ↦ rw (verified, handle_fetch_proxy_token_response) refl
          | inl (false, forged) ↦ rw (forged, handle_fetch_proxy_token_response) refl
          | inr (inl (e, thrown)) ↦ rw (thrown, handle_fetch_proxy_token_response) refl
          | inr (inr (inl hung)) ↦ rw (hung, handle_fetch_proxy_token_response) tt
          | inr (inr (inr crashing)) ↦ rw (crashing, handle_fetch_proxy_token_response) tt
        ]

  dispatch-Settles :
      {R : Type 0} (no_result : R) (client : Client Pool)
      (got : Option Exception × Option Connection) (send : Connection → Serviced Pool Connection R)
      → ((c : Connection) → Settles Any ⊥ (send c))
      → Settles Any ⊥ (dispatch diagnostic no_result client got send)
  unfolding dispatch
  dispatch-Settles no_result client (some err, connection) send h = refl
  dispatch-Settles no_result client (none, none) send h = refl
  dispatch-Settles no_result client (none, some connection) send h = h connection

  module _ {S : Type 0}
      (step : S → (op : ServiceOp Pool Connection) → S × ServiceReply Pool Connection op) where
    invoked_told :
        {R : Type 0} (times : ℕ) (thrown : Option Exception) (client : Client Pool)
        (callback : Client Pool × Now
          → Option Exception × Option Connection
          → Serviced Pool Connection R)
        (s : S)
        → ((now : Client Pool × Now) (got : Option Exception × Option Connection)
            → Settles Any ⊥ (callback now got))
        → CalledTimes times (run step (invoked times thrown client callback) s)
    unfolding invoked run
    invoked_told zero none client callback s h = inl refl
    invoked_told zero (some e) client callback s h = inr (λ q. cc)
    invoked_told (suc times) thrown client callback s h =
        let first = run step (ask client got_client callback) s in
        once_more first (run step (invoked times thrown client callback) first.world) times
          (run-Settles step Any (λ t op. tt) (ask client got_client callback) s
            (λ reply good. h reply.0 reply.1))
          (invoked_told times thrown client callback first.world h)

    -- One dispatch for each invocation of the callback of `getClient`.
    fetch_told :
        (looked : Client Pool) (app_name : Text) (request : ProxyTokenRequest) (s : S)
        → let asked : ServiceOp Pool Connection = record {
          client = looked;
          request = get_client app_name;
        } in
          CalledTimes (step s asked).1.1.0 (
            run step
              (with_client looked app_name (λ got_at got.
                dispatch diagnostic none got_at.0 got (λ connection.
                  ask got_at.0
                    (request_proxy_token connection request)
                    (λ later completion. handled request later completion))))
              s)
    unfolding with_client run
    fetch_told looked app_name request s =
        let r = step s (record { client = looked; request = get_client app_name }) in
        let callback : Client Pool × Now
            → Option Exception × Option Connection
            → Serviced Pool Connection (Option Response) =
          λ got_at got. dispatch diagnostic none got_at.0 got (λ connection.
            ask got_at.0 (request_proxy_token connection request)
              (λ later completion. handled request later completion)) in
        invoked_told r.1.1.0 r.1.1.1 r.1.0.0 callback r.0 (λ got_at got.
          dispatch-Settles none got_at.0 got
            (λ connection.
              ask got_at.0 (request_proxy_token connection request)
                (λ later completion. handled request later completion))
            (λ c reply good. handle_fetch_proxy_token_response-Settles request reply.0 reply.1))

    -- `fetchProxyToken` gives a token of the cache at once and asks for nothing, or it gives none, and
    -- then its callback is called once for each time that the pool's `getClient` invokes its own, unless
    -- an exception leaves a handler.
    pub fetch_proxy_token_told :
        (json : PicoJson) (client : Client Pool) (now : Now) (app_name : Text)
        (request : ProxyTokenRequest) (s : S)
        → let (looked, (given, left)) =
            fetch_proxy_token diagnostic range order crypto security_config json client now app_name
              request in
          let asked : ServiceOp Pool Connection = record {
            client = looked;
            request = get_client app_name;
          } in
          ((token : Response) × ((fetch_proxy_token_from_cache range order json
                client.proxy_token_cache now request).1
              ≡ ok (some token))
            × (given ≡ some token)
            × (left ≡ finished))
          ⊎ ((given ≡ none) × CalledTimes (step s asked).1.1.0 (run step left s))
    unfolding fetch_proxy_token with_client run
    fetch_proxy_token_told json client now app_name request s =
        let (cache, found) =
          fetch_proxy_token_from_cache range order json client.proxy_token_cache now request in
        let looked = record client { proxy_token_cache = cache } in
        elim (Result-cases found) [
          | inl (some token, hit) ↦ rw (hit, fetch_proxy_token) (inl (token, refl, refl, refl))
          | inl (none, miss) ↦
              rw (miss, fetch_proxy_token) (inr (refl, fetch_told looked app_name request s))
          | inr (inl (e, thrown)) ↦ rw (thrown, fetch_proxy_token) (inr (refl, inr (λ q. cc)))
          | inr (inr (inl hung)) ↦ rw (hung, fetch_proxy_token) (inr (refl, inr (λ q. cc)))
          | inr (inr (inr crashing)) ↦ rw (crashing, fetch_proxy_token) (inr (refl, inr (λ q. cc)))
        ]
