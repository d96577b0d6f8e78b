-- ===== src/Security/Tokens.antt =====
-- `EzSecurityTokenUtils` of security/client/src/main/cpp/EzSecurityTokenUtils.cpp and of
-- security/client/src/main/include/ezbake/security/core/EzSecurityTokenUtils.h: the texts that are
-- signed. The structures are those that Thrift generates, with the fields that the code reads. An
-- optional field is an `Option`, the field with its `__isset` flag; where the code reads the field
-- without the flag, one that is not set has its default, the empty string or 0.
pub mod Json
pub mod Signed
mod Tests
use ezbake_common_cpp.Common.Int.{ℤ, pos, negsuc, int_ltb}
use ezbake_common_cpp.Common.Result.{Result, ok, throw, runtime_error, ◌>>=◌}
use ezbake_common_cpp.Common.Sort.{sort}
use ezbake_common_cpp.Common.{
  ℕ, ◌+◌, Bool, true, false, Option, none, some, List, [], ◌∷◌, ◌++◌, if◌then◌else◌, Text, codes,
  text_eq,
}
use ezbake_common_cpp.Common.Dict.{lookup}
use ezbake_common_cpp.Net.HostAndPort.{decimal}

-- An enumeration may hold a number that has no name.
pub data TokenType : Type 0 where
  user app : TokenType
  unsupported : ℕ → TokenType

pub record X509Info : Type 0 where
  pub subject : Text
  pub issuer : Option Text

pub record ValidityCaveats : Type 0 where
  pub issuer : Text
  pub issued_to : Text
  pub issued_for : Option Text
  pub not_before : Option ℤ
  pub not_after : ℤ
  pub issued_time : Option ℤ
  pub signature : Text

pub record ProxyUserToken : Type 0 where
  pub x509 : X509Info
  pub issued_by : Text
  pub issued_to : Text
  pub issued_for : Option Text
  pub not_after : ℤ
  pub not_before : Option ℤ

pub record ProxyTokenRequest : Type 0 where
  pub x509 : X509Info
  pub validity : ValidityCaveats

pub record EzSecurityPrincipal : Type 0 where
  pub principal : Text
  pub validity : ValidityCaveats
  pub request_chain : Option (List Text)

pub record CommunityMembership : Type 0 where
  pub name : Text
  pub kind : Text
  pub organization : Text
  pub groups : List Text
  pub topics : List Text
  pub regions : List Text

-- `formal_authorizations` are the authorizations' own field of that name, in the order of the set;
-- the maps are in the order of their keys.
pub record EzSecurityToken : Type 0 where
  pub validity : ValidityCaveats
  pub kind : TokenType
  pub token_principal : EzSecurityPrincipal
  pub authorization_level : Option Text
  pub formal_authorizations : Option (List Text)
  pub external_project_groups : Option (List (Text × List Text))
  pub external_communities : Option (List (Text × CommunityMembership))
  pub valid_for_external_request : Bool
  pub citizenship : Option Text
  pub organization : Option Text

pub record ProxyPrincipal : Type 0 where
  pub proxy_token : Text
  pub signature : Text

pub record TokenRequest : Type 0 where
  pub security_id : Text
  pub target_security_id : Option Text
  pub timestamp : ℤ
  pub kind : TokenType
  pub principal : EzSecurityPrincipal
  pub token_principal : Option EzSecurityToken
  pub proxy_principal : Option ProxyPrincipal

abbrev pub ez_internal_project : Text
ez_internal_project = codes "_Ez_internal_project_"

abbrev pub ez_internal_admin_group : Text
ez_internal_admin_group = codes "_Ez_administrator"

-- `ss << n`
unfoldable pub written : ℤ → Text
unfolding decimal
written (pos n) = decimal n
written (negsuc n) = b'-' ∷ decimal (n + 1)

abbrev pub or_empty : Option Text → Text
or_empty none = []
or_empty (some s) = s

abbrev pub or_zero : Option ℤ → ℤ
or_zero none = pos 0
or_zero (some n) = n

-- `if (isset) { ss << n; }`
unfoldable pub written_if_set : Option ℤ → Text
unfolding written
written_if_set none = []
written_if_set (some n) = written n

-- `BOOST_FOREACH(const std::string& s, l) { ss << s; }`
unfoldable pub write_each : List Text → Text
write_each [] = []
write_each (s ∷ l) = s ++ write_each l

-- The loop, if the list is set.
unfoldable pub write_each_if_set : Option (List Text) → Text
unfolding write_each
write_each_if_set none = []
write_each_if_set (some l) = write_each l

-- `std::find`
unfoldable pub find_group : Text → List Text → Bool
unfolding text_eq
find_group s [] = false
find_group s (g ∷ l) = if text_eq g s then true else find_group s l

unfoldable pub is_ez_admin : EzSecurityToken → Bool
unfolding lookup find_group
is_ez_admin token = elim token.external_project_groups [
  | none ↦ false
  | some groups ↦ elim (lookup ez_internal_project groups) [
    | none ↦ false
    | some names ↦ find_group ez_internal_admin_group names
  ]
]

unfoldable pub serialize_token_type : TokenType → Result Text
serialize_token_type user = ok (codes "USER")
serialize_token_type app = ok (codes "APP")
serialize_token_type (unsupported n) =
    throw (runtime_error (codes "error in serializing TokenRequest. Unsupported TokenType"))

unfoldable pub serialize_boolean : Bool → Text
serialize_boolean true = codes "true"
serialize_boolean false = codes "false"

unfoldable pub serialize_proxy_token_request : ProxyTokenRequest → Text
unfolding written_if_set written
serialize_proxy_token_request request =
    request.x509.subject
    ++ (or_empty request.x509.issuer
        ++ (request.validity.issuer
            ++ (request.validity.issued_to
                ++ (or_empty request.validity.issued_for
                    ++ (written_if_set request.validity.issued_time
                        ++ (written_if_set request.validity.not_before
                            ++ written request.validity.not_after))))))

-- `if (token.notBefore > 0) { ss << token.notBefore; }`
unfoldable pub written_if_positive : ℤ → Text
unfolding written int_ltb
written_if_positive n = if int_ltb (pos 0) n then written n else []

unfoldable pub serialize_proxy_user_token : ProxyUserToken → Text
unfolding written_if_positive written
serialize_proxy_user_token token =
    token.x509.subject
    ++ (or_empty token.x509.issuer
        ++ (token.issued_by
            ++ (token.issued_to
                ++ (or_empty token.issued_for
                    ++ (written token.not_after
                        ++ written_if_positive (or_zero token.not_before))))))

-- One round of the loop over the external communities.
unfoldable pub serialize_community : CommunityMembership → Text
unfolding sort write_each
serialize_community community =
    community.name
    ++ (community.kind
        ++ (community.organization
            ++ (write_each (sort community.groups)
                ++ (write_each (sort community.topics) ++ write_each (sort community.regions)))))

unfoldable pub serialize_communities : List (Text × CommunityMembership) → Text
unfolding serialize_community
serialize_communities [] = []
serialize_communities ((key, community) ∷ l) =
    serialize_community community ++ serialize_communities l

unfoldable pub serialize_communities_if_set : Option (List (Text × CommunityMembership)) → Text
unfolding serialize_communities
serialize_communities_if_set none = []
serialize_communities_if_set (some l) = serialize_communities l

-- What `serializeToken` writes, with the name of the token's type.
unfoldable pub token_text : EzSecurityToken → Text → Text
unfolding written write_each_if_set serialize_communities_if_set
token_text token kind =
    token.validity.issued_to
    ++ (or_empty token.validity.issued_for
        ++ (written token.validity.not_after
            ++ (written (or_zero token.validity.not_before)
                ++ (written (or_zero token.validity.issued_time)
                    ++ (kind
                        ++ (token.token_principal.principal
                            ++ (write_each_if_set token.token_principal.request_chain
                                ++ (or_empty token.authorization_level
                                    ++ (write_each_if_set token.formal_authorizations
                                        ++ (serialize_communities_if_set token.external_communities
                                            ++ (serialize_boolean token.valid_for_external_request
                                                ++ (or_empty token.citizenship
                                                    ++ or_empty token.organization))))))))))))

unfoldable pub serialize_token : EzSecurityToken → Result Text
unfolding serialize_token_type token_text
serialize_token token = do kind ← serialize_token_type token.kind; ok (token_text token kind)

unfoldable pub serialize_principal : EzSecurityPrincipal → Text
unfolding written write_each_if_set
serialize_principal principal =
    principal.principal
    ++ (written principal.validity.not_after ++ write_each_if_set principal.request_chain)

-- The principal at the front of a token request.
unfoldable pub serialize_request_principal : TokenRequest → Result Text
unfolding serialize_token
serialize_request_principal request = elim request.proxy_principal [
  | some proxy ↦ ok (proxy.proxy_token ++ proxy.signature)
  | none ↦ elim request.token_principal [ some token ↦ serialize_token token | none ↦ ok [] ]
]

unfoldable pub serialize_token_request : TokenRequest → Result Text
unfolding serialize_request_principal serialize_token_type written
serialize_token_request request = do
  principal ← serialize_request_principal request
  kind ← serialize_token_type request.kind
  ok (
      principal
      ++ (kind
          ++ (request.security_id
              ++ (or_empty request.target_security_id ++ written request.timestamp))))
