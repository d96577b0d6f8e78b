-- ===== src/Security/Tokens/Signed/Same.antt =====
-- Tokens that have the same signature: the order of a community's groups, topics and regions does
-- not count, and neither does where the text of one field ends and that of the next begins.
use mathlib.Core.List.{Perm, append_assoc}
use ezbake_common_cpp.Common.Result.{Result, ok, throw, hang, crash, ◌>>=◌}
use ezbake_common_cpp.Common.Sort.{sort-Perm}
use ezbake_common_cpp.Common.{◌≡◌, refl, ap, some, List, [], ◌∷◌, ◌++◌, Text}
use ezbake_common_cpp.Config.Helpers.Security.{Crypto, SecurityConfiguration, verify}
use ezbake_common_cpp.Security.Tokens.Signed.{false_if_thrown, verify_token_signature}
use ezbake_common_cpp.Security.Tokens.{
  EzSecurityToken, CommunityMembership, token_text, serialize_token, serialize_token_type,
  serialize_community, serialize_communities, serialize_communities_if_set,
}

-- The same membership, with the groups, topics and regions in any order.
pub record SameMembership (c d : CommunityMembership) : Type 0 where
  pub same_name : c.name ≡ d.name
  pub same_kind : c.kind ≡ d.kind
  pub same_organization : c.organization ≡ d.organization
  pub same_groups : Perm c.groups d.groups
  pub same_topics : Perm c.topics d.topics
  pub same_regions : Perm c.regions d.regions

abbrev pub SameCommunities :
    List (Text × CommunityMembership) → List (Text × CommunityMembership) → Type 0
SameCommunities [] [] = Unit
SameCommunities ((k, c) ∷ l) ((j, d) ∷ m) = SameMembership c d × SameCommunities l m
SameCommunities ((k, c) ∷ l) [] = ⊥
SameCommunities [] ((j, d) ∷ m) = ⊥

serialize_community_same :
    (c d : CommunityMembership) → SameMembership c d → serialize_community c ≡ serialize_community d
unfolding serialize_community
serialize_community_same c d h = rw (
  h.same_name,
  h.same_kind,
  h.same_organization,
  sort-Perm c.groups d.groups h.same_groups,
  sort-Perm c.topics d.topics h.same_topics,
  sort-Perm c.regions d.regions h.same_regions,
)

serialize_communities_same :
    (l m : List (Text × CommunityMembership))
    → SameCommunities l m
    → serialize_communities l ≡ serialize_communities m
unfolding serialize_communities
serialize_communities_same [] [] h = refl
serialize_communities_same ((k, c) ∷ l) ((j, d) ∷ m) h =
    rw (serialize_community_same c d h.0, serialize_communities_same l m h.1)
serialize_communities_same ((k, c) ∷ l) [] h = absurd h
serialize_communities_same [] ((j, d) ∷ m) h = absurd h

regroup : (a b c x : Text) → (a ++ b) ++ (c ++ x) ≡ a ++ ((b ++ c) ++ x)
regroup a b c x = rw (append_assoc a b (c ++ x), append_assoc b c x)

abbrev issued : EzSecurityToken → Text → Text → EzSecurityToken
issued token to for_app = record token {
  validity = record token.validity { issued_to = to; issued_for = some for_app };
}

token_text_moved :
    (token : EzSecurityToken) (to moved for_app kind : Text)
    → token_text (issued token (to ++ moved) for_app) kind
      ≡ token_text (issued token to (moved ++ for_app)) kind
unfolding token_text
token_text_moved token to moved for_app kind = regroup to moved for_app _

>>=-ext :
    (r : Result Text) (f g : Text → Text)
    → ((s : Text) → f s ≡ g s)
    → (r >>= λ s. ok (f s)) ≡ (r >>= λ s. ok (g s))
>>=-ext (ok s) f g h = ap ok (h s)
>>=-ext (throw e) f g h = refl
>>=-ext hang f g h = refl
>>=-ext crash f g h = refl

module _ {PrivateKey PublicKey : Type 0} (crypto : Crypto PrivateKey PublicKey)
    (security_config : SecurityConfiguration PrivateKey PublicKey) where
  -- Whether the signature of a token verifies does not depend on the order of the groups, the topics
  -- and the regions of its external communities.
  pub verify_token_signature_same :
      (token : EzSecurityToken) (l m : List (Text × CommunityMembership))
      → SameCommunities l m
      → verify_token_signature crypto security_config
          (record token { external_communities = some l })
        ≡ verify_token_signature crypto security_config
            (record token { external_communities = some m })
  unfolding verify_token_signature serialize_token token_text serialize_communities_if_set
  verify_token_signature_same token l m h = rw (serialize_communities_same l m h)

  -- The signature of a token verifies exactly if that of the token does in which a tail of
  -- `issuedTo` stands at the front of `issuedFor` instead.
  pub verify_token_signature_moved :
      (token : EzSecurityToken) (to moved for_app : Text)
      → verify_token_signature crypto security_config (record token {
        validity = record token.validity { issued_to = to ++ moved; issued_for = some for_app };
      })
        ≡ verify_token_signature crypto security_config (record token {
          validity = record token.validity { issued_to = to; issued_for = some (moved ++ for_app) };
        })
  unfolding verify_token_signature serialize_token
  verify_token_signature_moved token to moved for_app =
      ap
        (λ r. false_if_thrown (r >>= λ s. verify crypto security_config s token.validity.signature))
        (>>=-ext (serialize_token_type token.kind) (token_text (issued token (to ++ moved) for_app))
          (token_text (issued token to (moved ++ for_app)))
          (token_text_moved token to moved for_app))
