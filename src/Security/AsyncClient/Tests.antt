-- ===== src/Security/AsyncClient/Tests.antt =====
-- The theorems on the asynchronous client for a token that the service sends.
use ezbake_common_cpp.Cache.Timed.{CacheValue}
use ezbake_common_cpp.Common.Async.{finished, CalledTimes, run}
use ezbake_common_cpp.Common.Int.{pos}
use ezbake_common_cpp.Common.Result.{ok}
use ezbake_common_cpp.Common.{ℕ, ◌≡◌, ◌⊎◌, refl, true, none, some, List, [], Text, codes, text_eq}
use ezbake_common_cpp.Config.Helpers.Security.{Crypto, SecurityConfiguration}
use ezbake_common_cpp.Security.AsyncClient.Verified.{
  cached, handle_fetch_proxy_token_response_verified, fetch_proxy_token_told,
}
use ezbake_common_cpp.Security.AsyncClient.{
  handle_fetch_proxy_token_response, null_client, received, ServiceRequest, get_client, got_client,
  send_ping, request_proxy_token, request_user_info_as_json, ServiceAnswer, ServiceOp, ServiceReply,
  fetch_proxy_token,
}
use ezbake_common_cpp.Security.Client.{fetch_proxy_token_from_cache, Response, Client, Now}
use ezbake_common_cpp.Security.Tokens.Json.{PicoJson}
use ezbake_common_cpp.Security.Tokens.Signed.{verify_proxy_user_token_text}
use ezbake_common_cpp.Security.Tokens.{ProxyTokenRequest}

abbrev crypto : Crypto ℕ ℕ
crypto = record {
  fopen = λ path. some path;
  read_private_key = λ file. some 7;
  read_public_key = λ file. some 8;
  digest = λ text. some text;
  rsa_sign = λ key digest. some digest;
  rsa_verify = λ key digest signature. text_eq digest signature;
  bio = record { write_flush = λ text. text; read = λ text n. some text };
  what = λ error. [];
}

abbrev security_config : SecurityConfiguration ℕ ℕ
security_config = record {
  base = record { ez_configuration = []; namespace_prefix = [] };
  private_key = some 7;
  public_key = some 8;
}

abbrev range : Text → List (Text × CacheValue Response) → List ℕ
range key items = []

abbrev order : List (Text × CacheValue Response) → List (Text × CacheValue Response)
order items = items

abbrev json : PicoJson
json = record { parse = λ s. none; parse_error = λ s. []; serialize = λ v. [] }

-- Signed with itself, as `crypto` has it.
abbrev response : Response
response = record { token = codes "t"; signature = codes "t" }

abbrev client : Client ℕ
client = record {
  proxy_token_cache = record { cache = record { capacity = 0; items = [] }; expiration = 3 };
  user_json_cache = record { cache = record { capacity = 0; items = [] }; expiration = 3 };
  pool = 0;
}

abbrev now : Now
now = record { micros = 6000000; millis = pos 80 }

abbrev request : ProxyTokenRequest
request = record {
  x509 = record { subject = codes "CN=me"; issuer = none };
  validity = record {
    issuer = codes "ca";
    issued_to = codes "app";
    issued_for = none;
    not_before = none;
    not_after = pos 90;
    issued_time = none;
    signature = [];
  };
}

-- `getClient` invokes its callback twice.
abbrev answers : (r : ServiceRequest ℕ) → ServiceAnswer ℕ r
answers (get_client app_name) = (2, none)
answers got_client = (none, some 7)
answers (send_ping c) = received true none
answers (request_proxy_token c r) = received response none
answers (request_user_info_as_json c r signature) = null_client

abbrev step : ℕ → (op : ServiceOp ℕ ℕ) → ℕ × ServiceReply ℕ ℕ op
step s op = (s, ((op.client, now), answers op.request))

handle_fetch_proxy_token_response_verified_example :
    (received response none ≡ received response none)
    × (verify_proxy_user_token_text crypto security_config (codes "t") (codes "t") ≡ ok true)
    × (cached range order request client now response
        ≡ cached range order request client now response)
unfolding handle_fetch_proxy_token_response text_eq
handle_fetch_proxy_token_response_verified_example =
    handle_fetch_proxy_token_response_verified ℕ (λ e. []) range order crypto security_config
      request client now (received response none) (cached range order request client now response)
      response finished refl

fetch_proxy_token_told_example :
    let (looked, (given, left)) =
      fetch_proxy_token {Connection = ℕ}
        (λ e. [])
        range
        order
        crypto
        security_config
        json
        client
        now
        []
        request in
    ((token : Response) × ((fetch_proxy_token_from_cache range order json client.proxy_token_cache
          now request).1
        ≡ ok (some token))
      × (given ≡ some token)
      × (left ≡ finished))
    ⊎ ((given ≡ none) × CalledTimes 2 (run step left 0))
fetch_proxy_token_told_example =
    fetch_proxy_token_told ℕ (λ e. []) range order crypto security_config step json client now []
      request 0
