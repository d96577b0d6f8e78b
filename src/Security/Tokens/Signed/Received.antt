-- ===== src/Security/Tokens/Signed/Received.antt =====
-- What a received token that verifies is, and that a token signed here verifies where it is for.
use ezbake_common_cpp.Common.Int.{ℤ, int_ltb}
use ezbake_common_cpp.Common.Result.{Result, ok, throw, hang, crash, ◌>>=◌}
use ezbake_common_cpp.Common.{
  ◌<◌, refl, length, ◌≡◌, ◌↔◌, Bool, true, false, not, Option, none, some, if◌then◌else◌, Text,
  text_eq, text_eq_iff, arith,
}
use ezbake_common_cpp.Config.CryptoUtil.{IsBio}
use ezbake_common_cpp.Config.Helpers.Security.Signature.{verify-sign}
use ezbake_common_cpp.Config.Helpers.Security.{Crypto, SecurityConfiguration}
use ezbake_common_cpp.Security.Tokens.Signed.{
  thrown_again, false_if_thrown, token_signature, verify_token_signature, verify_received_token,
}
use ezbake_common_cpp.Security.Tokens.{
  EzSecurityToken, token_text, serialize_token, serialize_token_type,
}

-- The tests of `verify_received_token`, on their outcomes.
abbrev checked : Option Text → Text → Bool → Result Bool → Bool → Result Bool
checked issued_for id fresh verified still_fresh = elim issued_for [
  | none ↦ ok false
  | some receiver ↦
      if not (text_eq receiver id)
      then ok false
      else if not fresh
      then ok false
      else verified >>= λ verifies.
          if not verifies
          then ok false
          else if not (text_eq receiver id)
          then ok false
          else ok still_fresh
]

checked_lem :
    (issued_for : Option Text) (id : Text) (fresh : Bool) (verified : Result Bool)
    (still_fresh : Bool)
    → checked issued_for id fresh verified still_fresh ≡ ok true
      ↔ (issued_for ≡ some id) × (verified ≡ ok true) × ((fresh ≡ true) × (still_fresh ≡ true))
checked_lem none id fresh verified still_fresh = ((λ h. cc), (λ h. cc))
checked_lem (some receiver) id fresh (throw e) still_fresh = ground (arith, text_eq_iff receiver id)
checked_lem (some receiver) id fresh hang still_fresh = ground (arith, text_eq_iff receiver id)
checked_lem (some receiver) id fresh crash still_fresh = ground (arith, text_eq_iff receiver id)
checked_lem (some receiver) id fresh (ok b) still_fresh = ground (arith, text_eq_iff receiver id)

module _ {PrivateKey PublicKey : Type 0} (crypto : Crypto PrivateKey PublicKey)
    (security_config : SecurityConfiguration PrivateKey PublicKey) where
  -- A received token is accepted exactly if it is issued for the receiver, its signature verifies,
  -- and it has not expired, neither before the verification nor after it.
  pub verify_received_token_lem :
      (now later : ℤ) (token : EzSecurityToken) (id : Text)
      → verify_received_token crypto security_config now later token id ≡ ok true
        ↔ (token.validity.issued_for ≡ some id)
          × (verify_token_signature crypto security_config token ≡ ok true)
          × ((int_ltb now token.validity.not_after ≡ true)
              × (int_ltb later token.validity.not_after ≡ true))
  unfolding verify_received_token
  verify_received_token_lem now later token id =
      checked_lem token.validity.issued_for id (int_ltb now token.validity.not_after)
        (verify_token_signature crypto security_config token)
        (int_ltb later token.validity.not_after)

abbrev pub with_signature : EzSecurityToken → Text → EzSecurityToken
with_signature token signature = record token {
  validity = record token.validity { signature = signature };
}

-- Both keys are set, and the public key verifies what the private key signs, which is never empty.
pub record IsMatched {PrivateKey PublicKey : Type 0} (crypto : Crypto PrivateKey PublicKey)
    (security_config : SecurityConfiguration PrivateKey PublicKey) : Type 0 where
  pub private_key : PrivateKey
  pub public_key : PublicKey
  pub private_set : security_config.private_key ≡ some private_key
  pub public_set : security_config.public_key ≡ some public_key
  pub base64 : IsBio crypto.bio
  pub verifies :
      (digest sig : Text)
      → crypto.rsa_sign private_key digest ≡ some sig
      → (crypto.rsa_verify public_key digest sig ≡ true) × (0 < length sig)

serialize_token-named :
    (token : EzSecurityToken) (kind : Text)
    → serialize_token_type token.kind ≡ ok kind
    → (signature : Text)
    → serialize_token (with_signature token signature) ≡ ok (token_text token kind)
unfolding serialize_token token_text
serialize_token-named token kind h signature = rw h refl

-- With matched keys, a token whose text has a digest that `RSA_sign` signs is signed, and with that
-- signature the app that it is issued for accepts it, as long as the clock is before its `notAfter`.
pub verify_received_token-token_signature :
    {PrivateKey PublicKey : Type 0} (crypto : Crypto PrivateKey PublicKey)
    (security_config : SecurityConfiguration PrivateKey PublicKey) (now later : ℤ)
    (token : EzSecurityToken) (id kind digest raw : Text) (m : IsMatched crypto security_config)
    → serialize_token_type token.kind ≡ ok kind
    → crypto.digest (token_text token kind) ≡ some digest
    → crypto.rsa_sign m.private_key digest ≡ some raw
    → token.validity.issued_for ≡ some id
    → int_ltb now token.validity.not_after ≡ true
    → int_ltb later token.validity.not_after ≡ true
    → (signature : Text) × (token_signature crypto security_config token ≡ ok signature)
      × (verify_received_token crypto security_config now later (with_signature token signature) id
          ≡ ok true)
unfolding token_signature thrown_again verify_token_signature false_if_thrown
verify_received_token-token_signature crypto security_config now later token id kind digest raw m
      named digested signed for_id fresh still_fresh =
    let serialized = serialize_token-named token kind named in
    let (accepted, there) = m.verifies digest raw signed in
    let (signature, signs, verified) =
      verify-sign crypto security_config m.private_key m.public_key (token_text token kind) digest
        raw m.base64 m.private_set m.public_set digested signed accepted there in
    (
      signature,
      rw (serialized token.validity.signature, token_signature, signs, thrown_again),
      (verify_received_token_lem crypto security_config now later (with_signature token signature)
            id).1
          (
            for_id,
            rw (serialized signature, verify_token_signature, verified, false_if_thrown),
            (fresh, still_fresh),
          ),
    )
