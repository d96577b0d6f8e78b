-- ===== src/Security/Client/Tests.antt =====
-- The theorem on fetched tokens for a token that the cache holds.
use ezbake_common_cpp.Cache.Lru.Min.{positions, IsRange}
use ezbake_common_cpp.Cache.Lru
use ezbake_common_cpp.Cache.Timed
use ezbake_common_cpp.Cache.Timed.{CacheValue}
use ezbake_common_cpp.Common.Int.{pos}
use ezbake_common_cpp.Common.Result.{ok}
use ezbake_common_cpp.Common.{
  Text, List, ℕ, ◌≡◌, ◌⊎◌, refl, false, none, some, [], ◌∷◌, text_Eq, codes,
}
use ezbake_common_cpp.Security.Client.Fetched.{IsCached, fetch_proxy_token_fresh}
use ezbake_common_cpp.Security.Client.{
  proxy_cache_key, Response, Service, Client, Now, fetch_proxy_token,
}
use ezbake_common_cpp.Security.Tokens.Json.{
  PicoJson, object, token_members, is_proxy_token_response_expired,
}
use ezbake_common_cpp.Security.Tokens.{ProxyUserToken, ProxyTokenRequest}

abbrev proxy_user_token : ProxyUserToken
proxy_user_token = record {
  x509 = record { subject = codes "CN=me"; issuer = none };
  issued_by = codes "ca";
  issued_to = codes "app";
  issued_for = none;
  not_after = pos 90;
  not_before = none;
}

-- A picojson that knows one value.
abbrev json : PicoJson
json = record {
  parse = λ s. some (object (token_members proxy_user_token));
  parse_error = λ s. [];
  serialize = λ v. codes "{}";
}

abbrev response : Response
response = record { token = codes "{}"; signature = codes "sig" }

-- A service with one connection, that answers with another token.
abbrev service : Service ℕ ℕ
service = record {
  get_client = λ pool. (pool, ok 7);
  return_client = λ pool c. pool;
  request_proxy_token = λ c request. ok (record { token = codes "new"; signature = [] });
  request_user_info_as_json = λ c request signature. ok (record { token = []; signature = [] });
  token_rethrown = λ e. e;
  json_rethrown = λ e. e;
}

abbrev client : Client ℕ
client = record {
  proxy_token_cache = record {
    cache = record {
      capacity = 0;
      items = (codes "CN=me", record { timestamp = 5; value = response }) ∷ [];
    };
    expiration = 3;
  };
  user_json_cache = record { cache = record { capacity = 0; items = [] }; expiration = 3 };
  pool = 0;
}

abbrev now : Now
now = record { micros = 6000000; millis = pos 80 }

abbrev request : ProxyTokenRequest
request = record {
  x509 = record { subject = codes "CN=me"; issuer = none };
  validity = record {
    issuer = codes "ca";
    issued_to = codes "app";
    issued_for = none;
    not_before = none;
    not_after = pos 90;
    issued_time = none;
    signature = [];
  };
}

abbrev range : Text → List (Text × CacheValue Response) → List ℕ
range key items = positions 0 key items

range-IsRange : IsRange range
range-IsRange = record { same = λ key items i. refl }

fetch_proxy_token_fresh_example :
    ((is_proxy_token_response_expired json now.millis response.token ≡ ok false)
      × IsCached client.proxy_token_cache now.micros (codes "CN=me") response)
    ⊎ ((c : ℕ) × ((service.get_client client.pool).1 ≡ ok c)
        × (service.request_proxy_token c request ≡ ok response))
unfolding fetch_proxy_token Timed.get Lru.get Lru.has_key positions Lru.scan_lru Timed.expired
    token_members proxy_cache_key
fetch_proxy_token_fresh_example =
    fetch_proxy_token_fresh service range (λ items. items) json range-IsRange client now request
      response refl
