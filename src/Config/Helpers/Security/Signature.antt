-- ===== src/Config/Helpers/Security/Signature.antt =====
-- The loading of the keys, and what is signed with them.
use ezbake_common_cpp.Common.Result.{Result, ok, throw, runtime_error}
use ezbake_common_cpp.Common.{
  ◌≡◌, ◌<◌, refl, length, inl, inr, true, not, none, some, [], if◌then◌else◌, Text, codes, arith,
  Option-cases,
}
use ezbake_common_cpp.Config.CryptoUtil.{encode, IsBio, decode-encode}
use ezbake_common_cpp.Config.Helpers.Constants.{Constants}
use ezbake_common_cpp.Config.Helpers.Security.{
  Crypto, SecurityConfiguration, get_private_key, get_service_public_key, is_set, has_keys_set,
  has_private_key_set, has_public_key_set, generate_digest, raw_signature, sign, verify,
}

module _ (g : Constants) {PrivateKey PublicKey : Type 0}
    (crypto : Crypto PrivateKey PublicKey) where
  abbrev State : Type 0
  State = SecurityConfiguration PrivateKey PublicKey

  abbrev Done : Type 0
  Done = State × Result (Unit {0})

  abbrev failed : State → Text → Done
  failed s message = (s, throw (runtime_error message))

  unfoldable pub set_private_key : State → Text → Done
  set_private_key s service_name = elim (crypto.fopen (get_private_key g s.base service_name)) [
    | none ↦ failed s (codes "Error in opening private key file")
    | some file ↦
        let after = record s { private_key = crypto.read_private_key file } in
        if is_set (crypto.read_private_key file)
        then (after, ok tt)
        else failed after
            (codes "Error in reading private key: PEM_read_RSAPrivateKey returned NULL")
  ]

  unfoldable pub set_public_key : State → Text → Done
  set_public_key s service_name =
      elim (crypto.fopen (get_service_public_key g s.base service_name)) [
        | none ↦ failed s (codes "Error in opening public key file")
        | some file ↦
            let after = record s { public_key = crypto.read_public_key file } in
            if is_set (crypto.read_public_key file)
            then (after, ok tt)
            else failed after
                (codes "Error in reading public key: PEM_read_RSA_PUBKEY returned NULL")
      ]

  -- The tests at the end of `setKeys`.
  unfoldable pub check_keys : State → Done
  unfolding has_private_key_set has_public_key_set
  check_keys s =
      if not (has_private_key_set s)
      then failed s (codes "Error in reading private key: PEM_read_RSAPrivateKey returned NULL")
      else if not (has_public_key_set s)
      then failed s (codes "Error in reading public key: PEM_read_RSA_PUBKEY returned NULL")
      else (s, ok tt)

  -- The default of `serviceName` is empty.
  unfoldable pub set_keys : State → Done
  unfolding check_keys
  set_keys s = elim (crypto.fopen (get_private_key g s.base [])) [
    | none ↦ failed s (codes "Error in opening private key file")
    | some private_file ↦
        let loaded = record s { private_key = crypto.read_private_key private_file } in
        elim (crypto.fopen (get_service_public_key g s.base [])) [
          | none ↦ failed loaded (codes "Error in opening public key file")
          | some public_file ↦
              check_keys (record loaded { public_key = crypto.read_public_key public_file })
        ]
  ]

  check_keys_ok : (s : State) → (check_keys s).1 ≡ ok tt → (check_keys s).0 ≡ s
  unfolding check_keys
  check_keys_ok s h = ground arith

  check_keys_set : (s : State) → (check_keys s).1 ≡ ok tt → has_keys_set s ≡ true
  unfolding check_keys has_keys_set
  check_keys_set s h = ground arith

  -- After a `setKeys` that succeeds both keys are set.
  pub set_keys_lem : (s : State) → (set_keys s).1 ≡ ok tt → has_keys_set (set_keys s).0 ≡ true
  unfolding set_keys
  set_keys_lem s h = elim (Option-cases (crypto.fopen (get_private_key g s.base []))) [
    | inl gone ↦ absurd (cc (rw (gone, set_keys) at h))
    | inr (private_file, there) ↦
        elim (Option-cases (crypto.fopen (get_service_public_key g s.base []))) [
          | inl gone ↦ absurd (cc (rw (there, gone, set_keys) at h))
          | inr (public_file, here) ↦
              let loaded : State = record s {
                private_key = crypto.read_private_key private_file;
                public_key = crypto.read_public_key public_file;
              } in
              let done : (check_keys loaded).1 ≡ ok tt = rw (there, here, set_keys) at h in
              rw (there, here, set_keys, check_keys_ok loaded done) (check_keys_set loaded done)
        ]
  ]

-- A signature that `RSA_sign` makes and `RSA_verify` accepts, `sign` encodes and `verify` decodes.
pub verify-sign :
    {PrivateKey PublicKey : Type 0} (crypto : Crypto PrivateKey PublicKey)
    (s : SecurityConfiguration PrivateKey PublicKey) (private_key : PrivateKey)
    (public_key : PublicKey) (data_bytes digest raw : Text)
    → IsBio crypto.bio
    → s.private_key ≡ some private_key
    → s.public_key ≡ some public_key
    → crypto.digest data_bytes ≡ some digest
    → crypto.rsa_sign private_key digest ≡ some raw
    → crypto.rsa_verify public_key digest raw ≡ true
    → 0 < length raw
    → (signature : Text) × (sign crypto s data_bytes ≡ ok signature)
      × (verify crypto s data_bytes signature ≡ ok true)
unfolding sign verify generate_digest raw_signature
verify-sign crypto s private_key public_key data_bytes digest raw law priv pub_key digested signs
      verifies there =
    (
      encode crypto.bio raw,
      rw (priv, sign, digested, generate_digest, signs, raw_signature) refl,
      rw
          (
            pub_key,
            verify,
            digested,
            generate_digest,
            decode-encode crypto.bio raw law there,
            verifies,
          )
          refl,
    )
