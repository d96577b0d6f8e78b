-- ===== src/Security/Client.antt =====
-- `CommonClient` and `SyncClient` of security/client/src/main/cpp: tokens and user data from the
-- cache, or else from the security service. The two caches are `LRUTimedCache`s; the pool of
-- connections and the service are the record `Service`.
pub mod Fetched
mod Tests
use ezbake_common_cpp.Cache.Timed
use ezbake_common_cpp.Cache.Timed.{CacheValue, TimedCache}
use ezbake_common_cpp.Common.Int.{ℤ}
use ezbake_common_cpp.Common.Result.{Exception, Result, ok, throw, hang, crash, ◌>>=◌}
use ezbake_common_cpp.Common.{
  ℕ, ◌≡◌, ◌↔◌, Bool, true, false, ◌&&◌, Option, none, some, List, ◌++◌, Eq, Text, text_Eq, text_eq,
  text_eq_iff, arith,
}
use ezbake_common_cpp.Config.Helpers.Security.{Crypto, SecurityConfiguration}
use ezbake_common_cpp.Security.Tokens.Json.{
  PicoJson, is_proxy_token_response_expired, is_ez_security_token_json_expired,
}
use ezbake_common_cpp.Security.Tokens.Signed.{token_request_signature}
use ezbake_common_cpp.Security.Tokens.{ProxyTokenRequest, TokenRequest, or_empty}

-- `ProxyTokenResponse`, and `EzSecurityTokenJson` with its text in the field `token`.
pub record Response : Type 0 where
  pub token : Text
  pub signature : Text

-- What the code asks of the pool and of the service; `token_rethrown` and `json_rethrown` are the
-- exceptions that leave `fetchProxyToken` and `fetchUserJson` for one that their call throws: another
-- for those that the function catches, and else the same.
pub record Service (Pool Connection : Type 0) : Type 0 where
  pub get_client : Pool → Pool × Result Connection
  pub return_client : Pool → Connection → Pool
  pub request_proxy_token : Connection → ProxyTokenRequest → Result Response
  pub request_user_info_as_json : Connection → TokenRequest → Text → Result Response
  pub token_rethrown : Exception → Exception
  pub json_rethrown : Exception → Exception

pub record Client (Pool : Type 0) : Type 0 where
  pub proxy_token_cache : TimedCache Text Response
  pub user_json_cache : TimedCache Text Response
  pub pool : Pool

unfoldable pub request_cache_key : TokenRequest → Text
request_cache_key request = request.principal.principal ++ request.security_id

unfoldable pub proxy_cache_key : ProxyTokenRequest → Text
proxy_cache_key request = request.x509.subject ++ or_empty request.x509.issuer

-- The clock of the cache and that of the tokens, in microseconds and in milliseconds.
pub record Now : Type 0 where
  pub micros : ℕ
  pub millis : ℤ

unfoldable pub same_response : Response → Response → Bool
same_response r s = text_eq r.token s.token && text_eq r.signature s.signature

pub same_response_iff : (r s : Response) → (same_response r s ≡ true) ↔ (r ≡ s)
unfolding same_response
same_response_iff r s =
    ground (arith, text_eq_iff r.token s.token, text_eq_iff r.signature s.signature)

instance abbrev pub response_eq : Eq Response
response_eq = record { beq = same_response; beq_iff = same_response_iff }

module _ (range : Text → List (Text × CacheValue Response) → List ℕ)
    (order : List (Text × CacheValue Response) → List (Text × CacheValue Response)) where
  -- A response from the cache; one that has expired is removed.
  unfoldable pub fetch_from_cache :
      (Text → Result Bool)
      → TimedCache Text Response
      → ℕ
      → Text
      → TimedCache Text Response × Result (Option Response)
  fetch_from_cache is_expired cache micros key =
      let (after, token_opt) = Timed.get range order cache micros key in
      elim token_opt [
        | none ↦ (after, ok none)
        | some response ↦ elim (is_expired response.token) [
          | ok true ↦ ((Timed.remove range order after key).0, ok none)
          | ok false ↦ (after, ok (some response))
          | throw e ↦ (after, throw e)
          | hang ↦ (after, hang)
          | crash ↦ (after, crash)
        ]
      ]

  module _ (json : PicoJson) where
    unfoldable pub fetch_proxy_token_from_cache :
        TimedCache Text Response
        → Now
        → ProxyTokenRequest
        → TimedCache Text Response × Result (Option Response)
    unfolding fetch_from_cache proxy_cache_key is_proxy_token_response_expired
    fetch_proxy_token_from_cache cache now request =
        fetch_from_cache (λ s. is_proxy_token_response_expired json now.millis s) cache now.micros
          (proxy_cache_key request)

    unfoldable pub fetch_user_json_from_cache :
        TimedCache Text Response
        → Now
        → TokenRequest
        → TimedCache Text Response × Result (Option Response)
    unfolding fetch_from_cache request_cache_key is_ez_security_token_json_expired
    fetch_user_json_from_cache cache now request =
        fetch_from_cache (λ s. is_ez_security_token_json_expired json now.millis s) cache now.micros
          (request_cache_key request)

    module _ {Pool Connection : Type 0} (service : Service Pool Connection) where
      -- The call of the service: a connection is lent, used and given back; it is not given back
      -- after an exception.
      unfoldable pub call_service :
          (Exception → Exception) → Pool → (Connection → Result Response) → Pool × Result Response
      call_service rethrown pool request =
          let (lent, connection) = service.get_client pool in
          elim connection [
            | ok c ↦ elim (request c) [
              | ok response ↦ (service.return_client lent c, ok response)
              | throw e ↦ (lent, throw (rethrown e))
              | hang ↦ (lent, hang)
              | crash ↦ (lent, crash)
            ]
            | throw e ↦ (lent, throw e)
            | hang ↦ (lent, hang)
            | crash ↦ (lent, crash)
          ]

      -- The cache after a call: what the service returned is put into it, at the time `micros`.
      unfoldable pub keep_response :
          TimedCache Text Response → ℕ → Text → Result Response → TimedCache Text Response
      keep_response cache micros key (ok response) = Timed.put range order cache micros key response
      keep_response cache micros key (throw e) = cache
      keep_response cache micros key hang = cache
      keep_response cache micros key crash = cache

      unfoldable pub fetch_proxy_token :
          Client Pool → Now → ProxyTokenRequest → Client Pool × Result Response
      unfolding fetch_proxy_token_from_cache call_service keep_response
      fetch_proxy_token client now request =
          let (cache, cached) = fetch_proxy_token_from_cache client.proxy_token_cache now request in
          let looked = record client { proxy_token_cache = cache } in
          elim cached [
            | ok (some response) ↦ (looked, ok response)
            | ok none ↦
                let (pool, outcome) =
                  call_service service.token_rethrown client.pool
                    (λ c. service.request_proxy_token c request) in
                (
                  record looked {
                    proxy_token_cache =
                        keep_response cache now.micros (proxy_cache_key request) outcome;
                    pool = pool;
                  },
                  outcome,
                )
            | throw e ↦ (looked, throw e)
            | hang ↦ (looked, hang)
            | crash ↦ (looked, crash)
          ]

      module _ {PrivateKey PublicKey : Type 0} (crypto : Crypto PrivateKey PublicKey)
          (security_config : SecurityConfiguration PrivateKey PublicKey) where
        -- The request is signed before it is sent.
        unfoldable pub request_user_json : TokenRequest → Connection → Result Response
        unfolding token_request_signature
        request_user_json request c =
            token_request_signature crypto security_config request >>= λ signature.
            service.request_user_info_as_json c request signature

        unfoldable pub fetch_user_json :
            Client Pool → Now → TokenRequest → Client Pool × Result Response
        unfolding fetch_user_json_from_cache call_service keep_response request_user_json
        fetch_user_json client now request =
            let (cache, cached) = fetch_user_json_from_cache client.user_json_cache now request in
            let looked = record client { user_json_cache = cache } in
            elim cached [
              | ok (some response) ↦ (looked, ok response)
              | ok none ↦
                  let (pool, outcome) =
                    call_service service.json_rethrown client.pool (request_user_json request) in
                  (
                    record looked {
                      user_json_cache =
                          keep_response cache now.micros (request_cache_key request) outcome;
                      pool = pool;
                    },
                    outcome,
                  )
              | throw e ↦ (looked, throw e)
              | hang ↦ (looked, hang)
              | crash ↦ (looked, crash)
            ]
