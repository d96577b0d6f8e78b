-- ===== src/Security/AsyncClient.antt =====
-- `AsyncClient` of security/client/src/main/cpp/AsyncClient.cpp. What is asked of the pool and of the
-- security service is the type `ServiceRequest`; it completes with the caches as they are then, and
-- the time.
pub mod Verified
mod Tests
use ezbake_common_cpp.Cache.Timed
use ezbake_common_cpp.Cache.Timed.{CacheValue}
use ezbake_common_cpp.Common.Async.{Async, finished, crashed, raised, wait, both, answer}
use ezbake_common_cpp.Common.Result.{
  Exception, ok, throw, hang, crash, runtime_error, thrift_exception,
}
use ezbake_common_cpp.Common.{
  ℕ, zero, suc, Bool, true, false, Option, none, some, List, [], Text, text_Eq, codes,
}
use ezbake_common_cpp.Config.Helpers.Security.{Crypto, SecurityConfiguration}
use ezbake_common_cpp.Security.Client.{
  response_eq, Response, Client, Now, request_cache_key, proxy_cache_key,
  fetch_proxy_token_from_cache, fetch_user_json_from_cache,
}
use ezbake_common_cpp.Security.Tokens.Json.{PicoJson}
use ezbake_common_cpp.Security.Tokens.Signed.{verify_proxy_user_token_text, token_request_signature}
use ezbake_common_cpp.Security.Tokens.{ProxyTokenRequest, TokenRequest}

-- A call of the service: it throws at once, completes without a client, or completes with what was
-- read and the exception that ended the reading.
pub data Completion (R : Type 0) : Type 0 where
  refused : Exception → Completion R
  null_client : Completion R
  received : R → Option Exception → Completion R

-- `getClient` of the pool may invoke its callback more than once, and may throw: its answer is how often
-- it does, and what it throws. What it invokes the callback with is the answer to `got_client`, one for
-- each time.
module _ (Connection : Type 0) where
  pub data ServiceRequest : Type 0 where
    get_client : (app_name : Text) → ServiceRequest
    got_client : ServiceRequest
    send_ping : Connection → ServiceRequest
    request_proxy_token : Connection → ProxyTokenRequest → ServiceRequest
    request_user_info_as_json : Connection → TokenRequest → Text → ServiceRequest

abbrev pub ServiceAnswer : (Connection : Type 0) → ServiceRequest Connection → Type 0
ServiceAnswer Connection (get_client app_name) = ℕ × Option Exception
ServiceAnswer Connection got_client = Option Exception × Option Connection
ServiceAnswer Connection (send_ping c) = Completion Bool
ServiceAnswer Connection (request_proxy_token c request) = Completion Response
ServiceAnswer Connection (request_user_info_as_json c request signature) = Completion Response

pub record ServiceOp (Pool Connection : Type 0) : Type 0 where
  pub client : Client Pool
  pub request : ServiceRequest Connection

abbrev pub ServiceReply : (Pool Connection : Type 0) → ServiceOp Pool Connection → Type 0
ServiceReply Pool Connection op = (Client Pool × Now) × ServiceAnswer Connection op.request

-- What a callback is invoked with: the error, and the result; the caches are those at that time.
abbrev pub Told : (Pool R : Type 0) → Type 0
Told Pool R = Client Pool × (Option Exception × R)

abbrev pub Serviced : (Pool Connection R : Type 0) → Type 0
Serviced Pool Connection R = Async (ServiceReply Pool Connection) (Told Pool R)

module _ {Pool Connection R : Type 0} where
  abbrev pub ask :
      Client Pool
      → (r : ServiceRequest Connection)
      → (Client Pool × Now → ServiceAnswer Connection r → Serviced Pool Connection R)
      → Serviced Pool Connection R
  ask client r k = wait (record { client = client; request = r }) (λ reply. k reply.0 reply.1)

module _ {Pool Connection R : Type 0} where
  -- The callback of `getClient`, as often as it is invoked.
  unfoldable pub invoked :
      (times : ℕ) (thrown : Option Exception)
      → Client Pool
      → (Client Pool × Now → Option Exception × Option Connection → Serviced Pool Connection R)
      → Serviced Pool Connection R
  invoked zero none client callback = finished
  invoked zero (some e) client callback = raised e
  invoked (suc times) thrown client callback =
      both (ask client got_client callback) (invoked times thrown client callback)

  unfoldable pub with_client :
      Client Pool
      → (app_name : Text)
      → (Client Pool × Now → Option Exception × Option Connection → Serviced Pool Connection R)
      → Serviced Pool Connection R
  unfolding invoked
  with_client client app_name callback =
      ask client (get_client app_name) (λ now called. invoked called.0 called.1 now.0 callback)

-- `rtnError`: `diagnostic` is the text that the handler of the exception that was caught makes of it.
abbrev pub return_error : (Exception → Text) → Exception → Option Exception
return_error diagnostic e = some (runtime_error (diagnostic e))

module _ {Pool Connection R : Type 0} (diagnostic : Exception → Text) where
  -- The part that the three functions named `dispatch…` share: `send` is what they do with the client.
  unfoldable pub dispatch :
      (no_result : R)
      → Client Pool
      → Option Exception × Option Connection
      → (send : Connection → Serviced Pool Connection R) → Serviced Pool Connection R
  dispatch no_result client (some err, connection) send =
      answer (client, (return_error diagnostic err, no_result))
  dispatch no_result client (none, none) send = answer (
    client,
    (return_error diagnostic (runtime_error (codes "Error! Null client created")), no_result),
  )
  dispatch no_result client (none, some connection) send = send connection

module _ {Pool Connection : Type 0} (diagnostic : Exception → Text) where
  unfoldable pub handle_ping_response :
      Client Pool → Completion Bool → Serviced Pool Connection Bool
  handle_ping_response client (refused e) = answer (client, (return_error diagnostic e, false))
  handle_ping_response client null_client = answer (
    client,
    (
      return_error diagnostic
          (thrift_exception (codes "Error! Null client returned in handling ping")),
      false,
    ),
  )
  handle_ping_response client (received result none) = answer (client, (none, result))
  handle_ping_response client (received result (some e)) =
      answer (client, (return_error diagnostic e, false))

  unfoldable pub ping : Client Pool → (app_name : Text) → Serviced Pool Connection Bool
  unfolding with_client dispatch handle_ping_response
  ping client app_name = with_client client app_name (λ now got.
      dispatch diagnostic false now.0 got (λ connection.
        ask now.0 (send_ping connection)
          (λ later completion. handle_ping_response later.0 completion)))

module _ {Pool Connection : Type 0} (diagnostic : Exception → Text)
    (range : Text → List (Text × CacheValue Response) → List ℕ)
    (order : List (Text × CacheValue Response) → List (Text × CacheValue Response))
    {PrivateKey PublicKey : Type 0} (crypto : Crypto PrivateKey PublicKey)
    (security_config : SecurityConfiguration PrivateKey PublicKey) where
  -- What was read is checked before it goes into the cache. The callback has it with an error too.
  unfoldable pub handle_fetch_proxy_token_response :
      ProxyTokenRequest
      → Client Pool × Now
      → Completion Response
      → Serviced Pool Connection (Option Response)
  unfolding verify_proxy_user_token_text proxy_cache_key
  handle_fetch_proxy_token_response request (client, now) (refused e) =
      answer (client, (return_error diagnostic e, none))
  handle_fetch_proxy_token_response request (client, now) null_client = answer (
    client,
    (
      return_error diagnostic
          (thrift_exception (codes "Error! Null client returned in handling UserDn response")),
      none,
    ),
  )
  handle_fetch_proxy_token_response request (client, now) (received result (some e)) =
      answer (client, (return_error diagnostic e, some result))
  handle_fetch_proxy_token_response request (client, now) (received result none) =
      elim (verify_proxy_user_token_text crypto security_config result.token result.signature) [
        | ok true ↦ answer (
          record client {
            proxy_token_cache =
                Timed.put range order client.proxy_token_cache now.micros (proxy_cache_key request)
                  result;
          },
          (none, some result),
        )
        | ok false ↦ answer (
          client,
          (
            return_error diagnostic (
                runtime_error (
                  codes "Invalid signature for ProxyTokenResponse received form security service")),
            some result,
          ),
        )
        | throw e ↦ answer (client, (return_error diagnostic e, some result))
        | hang ↦ crashed
        | crash ↦ crashed
      ]

  unfoldable pub handle_fetch_user_json_response :
      TokenRequest
      → Client Pool × Now
      → Completion Response
      → Serviced Pool Connection (Option Response)
  unfolding request_cache_key
  handle_fetch_user_json_response request (client, now) (refused e) =
      answer (client, (return_error diagnostic e, none))
  handle_fetch_user_json_response request (client, now) null_client = answer (
    client,
    (
      return_error diagnostic
          (thrift_exception (codes "Error! Null client returned in handling UserJson response")),
      none,
    ),
  )
  handle_fetch_user_json_response request (client, now) (received result (some e)) =
      answer (client, (return_error diagnostic e, some result))
  handle_fetch_user_json_response request (client, now) (received result none) = answer (
    record client {
      user_json_cache =
          Timed.put range order client.user_json_cache now.micros (request_cache_key request)
            result;
    },
    (none, some result),
  )

  module _ (json : PicoJson) where
    -- The token of the cache, or none and the calls that are left to the callback.
    unfoldable pub fetch_proxy_token :
        Client Pool
        → Now
        → (app_name : Text) → ProxyTokenRequest
        → Client Pool × (Option Response × Serviced Pool Connection (Option Response))
    unfolding with_client fetch_proxy_token_from_cache dispatch handle_fetch_proxy_token_response
    fetch_proxy_token client now app_name request =
        let (cache, cached) =
          fetch_proxy_token_from_cache range order json client.proxy_token_cache now request in
        let looked = record client { proxy_token_cache = cache } in
        (
          looked,
          elim cached [
            | ok (some token) ↦ (some token, finished)
            | ok none ↦ (
              none,
              with_client looked app_name (λ got_at got.
                  dispatch diagnostic none got_at.0 got (λ connection.
                    ask got_at.0 (request_proxy_token connection request) (λ later completion.
                      handle_fetch_proxy_token_response request later completion))),
            )
            | throw e ↦ (none, raised e)
            | hang ↦ (none, crashed)
            | crash ↦ (none, crashed)
          ],
        )

    unfoldable pub send_user_json_request :
        TokenRequest → Client Pool × Now → Connection → Serviced Pool Connection (Option Response)
    unfolding token_request_signature handle_fetch_user_json_response
    send_user_json_request request now connection =
        elim (token_request_signature crypto security_config request) [
          | ok signature ↦
              ask now.0 (request_user_info_as_json connection request signature)
                (λ later completion. handle_fetch_user_json_response request later completion)
          | throw e ↦ answer (now.0, (return_error diagnostic e, none))
          | hang ↦ crashed
          | crash ↦ crashed
        ]

    unfoldable pub fetch_user_json :
        Client Pool
        → Now
        → (app_name : Text) → TokenRequest
        → Client Pool × (Option Response × Serviced Pool Connection (Option Response))
    unfolding with_client fetch_user_json_from_cache dispatch send_user_json_request
    fetch_user_json client now app_name request =
        let (cache, cached) =
          fetch_user_json_from_cache range order json client.user_json_cache now request in
        let looked = record client { user_json_cache = cache } in
        (
          looked,
          elim cached [
            | ok (some token) ↦ (some token, finished)
            | ok none ↦ (
              none,
              with_client looked app_name (λ got_at got.
                  dispatch diagnostic none got_at.0 got
                    (λ connection. send_user_json_request request got_at connection)),
            )
            | throw e ↦ (none, raised e)
            | hang ↦ (none, crashed)
            | crash ↦ (none, crashed)
          ],
        )
