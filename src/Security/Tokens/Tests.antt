-- ===== src/Security/Tokens/Tests.antt =====
-- The theorems on tokens at concrete tokens, keys and times.
use mathlib.Core.List.{Permᴰ}
use ezbake_common_cpp.Common.Int.{pos, negsuc, int_ltb}
use ezbake_common_cpp.Common.Result.{ok}
use ezbake_common_cpp.Common.{
  ◌<◌, Option, length, sym, arith, ℕ, ◌≡◌, ◌↔◌, refl, true, none, some, List, [], ◌∷◌, Text, codes,
  text_eq, text_eq_iff,
}
use ezbake_common_cpp.Config.Helpers.Security.{Crypto, SecurityConfiguration}
use ezbake_common_cpp.Security.Tokens.Json.RoundTrip.{deserialize_proxy_user_token_lem}
use ezbake_common_cpp.Security.Tokens.Json.{
  PicoJson, object, token_members, deserialize_proxy_user_token, serialize_proxy_user_token_to_json,
}
use ezbake_common_cpp.Security.Tokens.Signed.Received.{
  IsMatched, with_signature, verify_received_token_lem, verify_received_token-token_signature,
}
use ezbake_common_cpp.Security.Tokens.Signed.Same.{
  SameCommunities, verify_token_signature_same, verify_token_signature_moved,
}
use ezbake_common_cpp.Security.Tokens.Signed.{
  token_signature, verify_token_signature, verify_received_token,
}
use ezbake_common_cpp.Security.Tokens.{
  token_text, user, ValidityCaveats, ProxyUserToken, EzSecurityToken, CommunityMembership,
  serialize_token_type,
}

abbrev proxy_user_token : ProxyUserToken
proxy_user_token = record {
  x509 = record { subject = codes "CN=me"; issuer = none };
  issued_by = codes "ca";
  issued_to = codes "app";
  issued_for = some (codes "svc");
  not_after = pos 90;
  not_before = some (negsuc 0);
}

-- A picojson that knows one value.
abbrev json : PicoJson
json = record {
  parse = λ s. some (object (token_members proxy_user_token));
  parse_error = λ s. [];
  serialize = λ v. codes "{}";
}

deserialize_proxy_user_token_lem_example :
    deserialize_proxy_user_token json (serialize_proxy_user_token_to_json json proxy_user_token)
    ≡ ok proxy_user_token
deserialize_proxy_user_token_lem_example =
    deserialize_proxy_user_token_lem json proxy_user_token refl

-- An empty digest is refused.
abbrev sign_digest : Text → Option Text
sign_digest [] = none
sign_digest (c ∷ digest) = some (c ∷ digest)

abbrev crypto : Crypto ℕ ℕ
crypto = record {
  fopen = λ path. some path;
  read_private_key = λ file. some 7;
  read_public_key = λ file. some 8;
  digest = λ text. some text;
  rsa_sign = λ key digest. sign_digest digest;
  rsa_verify = λ key digest signature. text_eq digest signature;
  bio = record { write_flush = λ text. text; read = λ text n. some text };
  what = λ error. [];
}

abbrev security_config : SecurityConfiguration ℕ ℕ
security_config = record {
  base = record { ez_configuration = []; namespace_prefix = [] };
  private_key = some 7;
  public_key = some 8;
}

signed_lem :
    (digest sig : Text)
    → crypto.rsa_sign 7 digest ≡ some sig
    → (text_eq digest sig ≡ true) × (0 < length sig)
signed_lem [] sig signed = absurd (cc signed)
signed_lem (c ∷ digest) sig signed =
    let same : c ∷ digest ≡ sig = cc signed in
    ((text_eq_iff (c ∷ digest) sig).1 same, rw (sym same) (omega arith))

crypto-IsMatched : IsMatched crypto security_config
crypto-IsMatched = record {
  private_key = 7;
  public_key = 8;
  private_set = refl;
  public_set = refl;
  base64 = record { longer = λ text. omega arith; reads = λ text n there fits. refl };
  verifies = λ digest sig signed. signed_lem digest sig signed;
}

abbrev validity : ValidityCaveats
validity = record {
  issuer = codes "EzSecurity";
  issued_to = codes "svc1";
  issued_for = some (codes "app");
  not_before = none;
  not_after = pos 90;
  issued_time = none;
  signature = [];
}

abbrev token : EzSecurityToken
token = record {
  validity = validity;
  kind = user;
  token_principal = record { principal = codes "me"; validity = validity; request_chain = none };
  authorization_level = some (codes "U");
  formal_authorizations = some (codes "A" ∷ []);
  external_project_groups = none;
  external_communities = none;
  valid_for_external_request = true;
  citizenship = none;
  organization = none;
}

verify_received_token_lem_example :
    verify_received_token crypto security_config (pos 80) (pos 85) token (codes "other") ≡ ok true
    ↔ (some (codes "app") ≡ some (codes "other"))
      × (verify_token_signature crypto security_config token ≡ ok true)
      × ((int_ltb (pos 80) (pos 90) ≡ true) × (int_ltb (pos 85) (pos 90) ≡ true))
verify_received_token_lem_example =
    verify_received_token_lem crypto security_config (pos 80) (pos 85) token (codes "other")

verify_received_token-token_signature_example :
    (signature : Text) × (token_signature crypto security_config token ≡ ok signature)
    × (verify_received_token crypto security_config
          (pos 80)
          (pos 85)
          (with_signature token signature)
          (codes "app")
        ≡ ok true)
unfolding serialize_token_type int_ltb token_text
verify_received_token-token_signature_example =
    verify_received_token-token_signature crypto security_config (pos 80) (pos 85) token
      (codes "app") (codes "USER") (token_text token (codes "USER"))
      (token_text token (codes "USER")) crypto-IsMatched refl refl refl refl refl refl

abbrev community : List Text → CommunityMembership
community groups = record {
  name = codes "c";
  kind = codes "k";
  organization = codes "o";
  groups = groups;
  topics = [];
  regions = codes "r" ∷ [];
}

abbrev two_one : List (Text × CommunityMembership)
two_one = (codes "c", community (codes "two" ∷ codes "one" ∷ [])) ∷ []

abbrev one_two : List (Text × CommunityMembership)
one_two = (codes "c", community (codes "one" ∷ codes "two" ∷ [])) ∷ []

reordered : SameCommunities two_one one_two
reordered = (
  record {
    same_name = refl;
    same_kind = refl;
    same_organization = refl;
    same_groups = ∣ Permᴰ.swap refl refl ∣₁;
    same_topics = ∣ Permᴰ.nil ∣₁;
    same_regions = ∣ Permᴰ.cons refl Permᴰ.nil ∣₁;
  },
  tt,
)

verify_token_signature_same_example :
    verify_token_signature crypto security_config
      (record token { external_communities = some two_one })
    ≡ verify_token_signature crypto security_config
        (record token { external_communities = some one_two })
verify_token_signature_same_example =
    verify_token_signature_same crypto security_config token two_one one_two reordered

verify_token_signature_moved_example :
    verify_token_signature crypto security_config (record token {
      validity = record validity { issued_to = codes "svc1"; issued_for = some (codes "app") };
    })
    ≡ verify_token_signature crypto security_config (record token {
      validity = record validity { issued_to = codes "svc"; issued_for = some (codes "1app") };
    })
verify_token_signature_moved_example =
    verify_token_signature_moved crypto security_config token (codes "svc") (codes "1")
      (codes "app")
