-- ===== src/Config/Helpers/Security.antt =====
-- `SecurityConfiguration` of configuration/src/main/cpp/helpers/SecurityConfiguration.cpp: the paths
-- of the keys, their loading, and signatures. OpenSSL and the file system are a parameter.
pub mod Signature
use ezbake_common_cpp.Common.Result.{
  Exception, Result, ok, throw, hang, crash, runtime_error, invalid_argument, ◌>>=◌,
}
use ezbake_common_cpp.Common.{
  ℕ, Bool, true, false, ◌&&◌, not, Option, none, some, [], ◌∷◌, ◌++◌, if◌then◌else◌, Text, codes,
  text_eq, is_blank,
}
use ezbake_common_cpp.Config.CryptoUtil.{Bio, encode, decode}
use ezbake_common_cpp.Config.EzConfiguration.{get_string, get_boolean, get_number}
use ezbake_common_cpp.Config.Helpers.Application.{get_certificates_dir}
use ezbake_common_cpp.Config.Helpers.Base.{BaseConfiguration, parse_key}
use ezbake_common_cpp.Config.Helpers.Constants.{Constants}
use ezbake_common_cpp.Config.Helpers.SystemLog.{file_separator}

-- `UserCacheType`, which is its name.
unfoldable pub value_of : Text → Result Text
value_of val =
    if text_eq (codes "REDIS") val
    then ok (codes "REDIS")
    else if not (text_eq (codes "MEMORY") val)
    then throw (invalid_argument (val ++ codes " is not a supported user cache mode"))
    else ok (codes "MEMORY")

unfoldable pub parse_service_key : Text → Text → Text
unfolding is_blank
parse_service_key key service_name =
    if not (is_blank service_name) then key ++ (b'.' ∷ service_name) else key

module _ (g : Constants) (b : BaseConfiguration) where
  unfoldable pub is_peer_auth_required : Bool
  is_peer_auth_required =
      get_boolean b.ez_configuration (parse_key b g.ezbake_ssl_peer_auth_required) true

  unfoldable pub use_forward_proxy : Bool
  use_forward_proxy = get_boolean b.ez_configuration (parse_key b g.ezbake_use_forward_proxy) false

  unfoldable pub get_cache_type : Result Text
  get_cache_type =
      value_of
        (get_string b.ez_configuration (parse_key b g.ezbake_user_cache_type) (codes "MEMORY"))

  unfoldable pub get_ssl_ciphers : Text
  get_ssl_ciphers =
      get_string b.ez_configuration (parse_key b g.ezbake_ssl_ciphers_key)
        (codes "HIGH:!DSS:!aNULL@STRENGTH")

  unfoldable pub get_ssl_protocols : Text
  get_ssl_protocols =
      get_string b.ez_configuration (parse_key b g.ezbake_ssl_protocol_key) (codes "TLSv1")

  -- `getString(parseServiceKey(parseKey(key), serviceName), default)`
  unfoldable pub service_file : Text → Text → Text → Text
  unfolding parse_service_key
  service_file key default_value service_name =
      get_string b.ez_configuration (parse_service_key (parse_key b key) service_name) default_value

  unfoldable pub trusted_cert : Text → Text
  trusted_cert = service_file g.ezbake_application_trusted_cert (codes "ezbakeca.crt")

  unfoldable pub private_key_file : Text → Text
  private_key_file = service_file g.ezbake_application_private_key_file (codes "application.priv")

  unfoldable pub certificate : Text → Text
  certificate = service_file g.ezbake_application_cert_file (codes "application.crt")

  unfoldable pub service_public_key : Text → Text
  service_public_key =
      service_file g.ezbake_application_public_key_file (codes "ezbakesecurityservice.pub")

  -- `getCertificatesDir() + FILE_SEPARATOR + …`
  unfoldable pub in_certificates_dir : Text → Text
  in_certificates_dir file = get_certificates_dir g b ++ (file_separator ∷ file)

  unfoldable pub get_private_key : Text → Text
  get_private_key service_name = in_certificates_dir (private_key_file service_name)

  unfoldable pub get_trusted_ssl_certs : Text → Text
  get_trusted_ssl_certs service_name = in_certificates_dir (trusted_cert service_name)

  unfoldable pub get_ssl_certificate : Text → Text
  get_ssl_certificate service_name = in_certificates_dir (certificate service_name)

  unfoldable pub get_service_public_key : Text → Text
  get_service_public_key service_name = in_certificates_dir (service_public_key service_name)

-- `Number` is the integer type, `number` its literals and `lexical_cast` Boost's reader of it.
module _ (g : Constants) (b : BaseConfiguration) {Number : Type 0} (number : ℕ → Number)
    (lexical_cast : Text → Option Number) where
  unfoldable pub get_user_cache_ttl : Result Number
  get_user_cache_ttl =
      get_number lexical_cast b.ez_configuration (parse_key b g.ezbake_user_cache_ttl)
        (number 43200)

  unfoldable pub get_user_cache_size : Result Number
  get_user_cache_size =
      get_number lexical_cast b.ez_configuration (parse_key b g.ezbake_user_cache_size)
        (number 1000)

-- What the code uses of OpenSSL and of the file system. The parsed keys are the types
-- `PrivateKey` and `PublicKey`; `none` stands for NULL and for a failure.
pub record Crypto (PrivateKey PublicKey : Type 0) : Type 0 where
  pub fopen : Text → Option Text
  pub read_private_key : Text → Option PrivateKey
  pub read_public_key : Text → Option PublicKey
  -- the three calls of the digest
  pub digest : Text → Option Text
  pub rsa_sign : PrivateKey → Text → Option Text
  pub rsa_verify : PublicKey → Text → Text → Bool
  pub bio : Bio
  pub what : Exception → Text

pub record SecurityConfiguration (PrivateKey PublicKey : Type 0) : Type 0 where
  pub base : BaseConfiguration
  pub private_key : Option PrivateKey
  pub public_key : Option PublicKey

abbrev pub is_set : {A : Type 0} → Option A → Bool
is_set none = false
is_set (some _) = true

module _ {PrivateKey PublicKey : Type 0} where
  unfoldable pub has_private_key_set : SecurityConfiguration PrivateKey PublicKey → Bool
  has_private_key_set s = is_set s.private_key

  unfoldable pub has_public_key_set : SecurityConfiguration PrivateKey PublicKey → Bool
  has_public_key_set s = is_set s.public_key

  unfoldable pub has_keys_set : SecurityConfiguration PrivateKey PublicKey → Bool
  unfolding has_private_key_set has_public_key_set
  has_keys_set s = has_private_key_set s && has_public_key_set s

module _ {PrivateKey PublicKey : Type 0} (crypto : Crypto PrivateKey PublicKey) where
  unfoldable pub generate_digest : Text → Result Text
  generate_digest data_bytes = elim (crypto.digest data_bytes) [
    | none ↦ throw (runtime_error (codes "Error in generating digest"))
    | some md ↦ ok md
  ]

  -- `RSA_sign`, whose result the code ignores: after a failure the signature has length 0.
  unfoldable pub raw_signature : PrivateKey → Text → Text
  raw_signature key digest = elim (crypto.rsa_sign key digest) [ none ↦ [] | some s ↦ s ]

  unfoldable pub sign : SecurityConfiguration PrivateKey PublicKey → Text → Result Text
  unfolding generate_digest raw_signature encode
  sign s serialized_data = elim s.private_key [
    | none ↦ throw (
        runtime_error (
          codes
            "Cannot sign data. Private key has not been set. Did you call setPrivateKey/setKeys?"))
    | some key ↦ elim (generate_digest serialized_data) [
      | ok digest ↦ ok (encode crypto.bio (raw_signature key digest))
      | throw e ↦ throw (runtime_error (codes "Error in signing data: " ++ crypto.what e))
      | hang ↦ hang
      | crash ↦ crash
    ]
  ]

  unfoldable pub verify : SecurityConfiguration PrivateKey PublicKey → Text → Text → Result Bool
  unfolding generate_digest decode
  verify s data_bytes base64_signature = elim s.public_key [
    | none ↦ throw (
        runtime_error (
          codes
            "Cannot verify data. Public key has not been set. Did you call setPublicKey/setKeys?"))
    | some key ↦
        elim (generate_digest data_bytes >>= λ digest.
        decode crypto.bio base64_signature >>= λ signature.
        ok (crypto.rsa_verify key digest signature)) [
          | ok verified ↦ ok verified
          | throw e ↦ throw (runtime_error (codes "Error in verifying data: " ++ crypto.what e))
          | hang ↦ hang
          | crash ↦ crash
        ]
  ]
