-- ===== src/Security/Tokens/Json/RoundTrip.antt =====
-- A token written as JSON is read back.
use ezbake_common_cpp.Common.Int.{ℤ, int_ltb}
use ezbake_common_cpp.Common.Result.{ok}
use ezbake_common_cpp.Common.{◌≡◌, refl, not, Option, none, some, Text}
use ezbake_common_cpp.Security.Tokens.Json.{
  object, PicoJson, x509_members, token_members, read_x509, read_token,
  serialize_proxy_user_token_to_json, parse_object, deserialize_proxy_user_token,
  get_proxy_token_response_expiration, is_proxy_token_response_expired,
}
use ezbake_common_cpp.Security.Tokens.{X509Info, ProxyUserToken}

read_x509-x509_members : (x509 : X509Info) → read_x509 (x509_members x509) ≡ ok x509
unfolding read_x509 x509_members
read_x509-x509_members x509 = fields x509.subject x509.issuer
  where
    fields :
        (subject : Text) (issuer : Option Text)
        → read_x509 (x509_members (record { subject = subject; issuer = issuer }))
          ≡ ok (record { subject = subject; issuer = issuer })
    fields subject none = refl
    fields subject (some issuer) = refl

read_token-token_members : (token : ProxyUserToken) → read_token (token_members token) ≡ ok token
unfolding read_token token_members
read_token-token_members token =
    fields token.x509 token.issued_by token.issued_to token.issued_for token.not_after
      token.not_before
  where
    fields :
        (x509 : X509Info) (issued_by issued_to : Text) (issued_for : Option Text) (not_after : ℤ)
        (not_before : Option ℤ)
        → let token : ProxyUserToken = record {
          x509 = x509;
          issued_by = issued_by;
          issued_to = issued_to;
          issued_for = issued_for;
          not_after = not_after;
          not_before = not_before;
        } in
          read_token (token_members token) ≡ ok token
    fields x509 issued_by issued_to none not_after none = rw (read_x509-x509_members x509)
    fields x509 issued_by issued_to none not_after (some n) = rw (read_x509-x509_members x509)
    fields x509 issued_by issued_to (some s) not_after none = rw (read_x509-x509_members x509)
    fields x509 issued_by issued_to (some s) not_after (some n) = rw (read_x509-x509_members x509)

module _ (json : PicoJson) (token : ProxyUserToken)
    (reads : json.parse (json.serialize (object (token_members token)))
      ≡ some (object (token_members token))) where
  -- Where picojson reads back what it writes for the token, a proxy user token written as JSON is
  -- read back, with the optional fields that were set and no others.
  pub deserialize_proxy_user_token_lem :
      deserialize_proxy_user_token json (serialize_proxy_user_token_to_json json token) ≡ ok token
  unfolding deserialize_proxy_user_token serialize_proxy_user_token_to_json parse_object
  deserialize_proxy_user_token_lem =
      rw (reads, parse_object, deserialize_proxy_user_token, read_token-token_members token)

  -- Where picojson reads back what it writes for the token, a response that holds the token as JSON
  -- is expired exactly if its `notAfter` is not after the time.
  pub is_proxy_token_response_expired_lem :
      (now : ℤ)
      → is_proxy_token_response_expired json now (serialize_proxy_user_token_to_json json token)
        ≡ ok (not (int_ltb now token.not_after))
  unfolding is_proxy_token_response_expired get_proxy_token_response_expiration
  is_proxy_token_response_expired_lem now = rw deserialize_proxy_user_token_lem
