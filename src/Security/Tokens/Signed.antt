-- ===== src/Security/Tokens/Signed.antt =====
-- The signing and the verification of tokens and requests in EzSecurityTokenUtils.cpp, on top of
-- `SecurityConfiguration`, and the check of a received token. The clock is an argument.
pub mod Received
pub mod Same
use ezbake_common_cpp.Common.Int.{ℤ, int_ltb}
use ezbake_common_cpp.Common.Result.{Result, ok, throw, hang, crash, runtime_error, ◌>>=◌}
use ezbake_common_cpp.Common.{
  Bool, false, not, none, some, ◌++◌, if◌then◌else◌, Text, codes, text_eq,
}
use ezbake_common_cpp.Config.Helpers.Security.{Crypto, SecurityConfiguration, sign, verify}
use ezbake_common_cpp.Security.Tokens.Json.{PicoJson, serialize_proxy_user_token_to_json}
use ezbake_common_cpp.Security.Tokens.{
  EzSecurityToken, EzSecurityPrincipal, TokenRequest, ProxyTokenRequest, ProxyUserToken,
  serialize_token, serialize_principal, serialize_token_request, serialize_proxy_token_request,
  serialize_proxy_user_token,
}

-- A `catch` that logs the exception and goes on to `return verifies`.
unfoldable pub false_if_thrown : Result Bool → Result Bool
false_if_thrown (ok b) = ok b
false_if_thrown (throw e) = ok false
false_if_thrown hang = hang
false_if_thrown crash = crash

module _ {PrivateKey PublicKey : Type 0} (crypto : Crypto PrivateKey PublicKey)
    (security_config : SecurityConfiguration PrivateKey PublicKey) where
  -- A `catch` that throws again, with the message before what was thrown.
  unfoldable pub thrown_again : Text → Result Text → Result Text
  thrown_again message (ok s) = ok s
  thrown_again message (throw e) = throw (runtime_error (message ++ crypto.what e))
  thrown_again message hang = hang
  thrown_again message crash = crash

  unfoldable pub token_request_signature : TokenRequest → Result Text
  unfolding thrown_again sign serialize_token_request
  token_request_signature request =
      thrown_again (codes "Unable to generate TokenRequest signature: ")
        (serialize_token_request request >>= λ s. sign crypto security_config s)

  unfoldable pub verify_token_request_signature : TokenRequest → Text → Result Bool
  unfolding false_if_thrown verify serialize_token_request
  verify_token_request_signature request signature =
      false_if_thrown
        (serialize_token_request request >>= λ s. verify crypto security_config s signature)

  unfoldable pub proxy_token_request_signature : ProxyTokenRequest → Result Text
  unfolding thrown_again sign serialize_proxy_token_request
  proxy_token_request_signature request =
      thrown_again (codes "Unable to generate ProxyTokenRequest signature: ")
        (sign crypto security_config (serialize_proxy_token_request request))

  unfoldable pub verify_proxy_token_request : ProxyTokenRequest → Result Bool
  unfolding false_if_thrown verify serialize_proxy_token_request
  verify_proxy_token_request request = false_if_thrown (
      verify crypto security_config (serialize_proxy_token_request request)
        request.validity.signature)

  unfoldable pub proxy_user_token_signature : ProxyUserToken → Result Text
  unfolding thrown_again sign serialize_proxy_user_token
  proxy_user_token_signature token =
      thrown_again (codes "Unable to generate ProxyUserToken signature: ")
        (sign crypto security_config (serialize_proxy_user_token token))

  -- The overload on the text of a token.
  unfoldable pub verify_proxy_user_token_text : Text → Text → Result Bool
  unfolding false_if_thrown verify
  verify_proxy_user_token_text token signature =
      false_if_thrown (verify crypto security_config token signature)

  unfoldable pub verify_proxy_user_token : PicoJson → ProxyUserToken → Text → Result Bool
  unfolding verify_proxy_user_token_text serialize_proxy_user_token_to_json
  verify_proxy_user_token json token signature =
      verify_proxy_user_token_text (serialize_proxy_user_token_to_json json token) signature

  unfoldable pub token_signature : EzSecurityToken → Result Text
  unfolding thrown_again sign serialize_token
  token_signature token =
      thrown_again (codes "Unable to generate EzSecurityToken signature: ")
        (serialize_token token >>= λ s. sign crypto security_config s)

  unfoldable pub verify_token_signature : EzSecurityToken → Result Bool
  unfolding false_if_thrown verify serialize_token
  verify_token_signature token =
      false_if_thrown
        (serialize_token token >>= λ s. verify crypto security_config s token.validity.signature)

  unfoldable pub principal_signature : EzSecurityPrincipal → Result Text
  unfolding thrown_again sign serialize_principal
  principal_signature principal =
      thrown_again (codes "Unable to generate EzSecurityToken signature: ")
        (sign crypto security_config (serialize_principal principal))

  unfoldable pub verify_principal_signature : EzSecurityPrincipal → Result Bool
  unfolding false_if_thrown verify serialize_principal
  verify_principal_signature principal =
      false_if_thrown
        (verify crypto security_config (serialize_principal principal) principal.validity.signature)

  -- The two tests before the signature and the two after it; the clock is read at `now` and, after
  -- the verification, at `later`.
  unfoldable pub verify_received_token : ℤ → ℤ → EzSecurityToken → Text → Result Bool
  unfolding verify_token_signature int_ltb text_eq
  verify_received_token now later token id = elim token.validity.issued_for [
    | none ↦ ok false
    | some issued_for ↦
        if not (text_eq issued_for id)
        then ok false
        else if not (int_ltb now token.validity.not_after)
        then ok false
        else verify_token_signature token >>= λ verifies.
            if not verifies
            then ok false
            else if not (text_eq issued_for id)
            then ok false
            else ok (int_ltb later token.validity.not_after)
  ]
