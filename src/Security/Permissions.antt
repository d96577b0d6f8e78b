-- ===== src/Security/Permissions.antt =====
-- `get_user_permissions` of security/permission-utils/src/main/cpp/ezbake_permissions.cpp. An
-- optional field of a Thrift structure is an `Option`, the field with its `__isset` flag. The
-- evaluation of visibility expressions, of ezbake_visibility.cpp, is the parameter `evaluate`, which
-- may throw.
pub mod Granted
pub mod Evaluated
use ezbake_common_cpp.Common.Result.{Result, ok, throw, ◌>>=◌}
use ezbake_common_cpp.Common.{
  ℕ, ◌+◌, ◌/◌, ◌%◌, Bool, false, ◌||◌, not, Option, none, some, List, [], ◌∷◌, ◌==◌, if◌then◌else◌,
  Eq, Text,
}

pub record Authorizations (I : Type 0) : Type 0 where
  pub formal_authorizations : List Text
  pub external_community_authorizations : List Text
  pub platform_object_authorizations : List I

pub record PlatformObjectVisibilities (I : Type 0) : Type 0 where
  pub platform_object_read_visibility : Option (List I)
  pub platform_object_write_visibility : Option (List I)
  pub platform_object_manage_visibility : Option (List I)
  pub platform_object_discover_visibility : Option (List I)

pub record AdvancedMarkings (I : Type 0) : Type 0 where
  pub external_community_visibility : Text
  pub platform_object_visibility : Option (PlatformObjectVisibilities I)

pub record Visibility (I : Type 0) : Type 0 where
  pub formal_visibility : Text
  pub advanced_markings : Option (AdvancedMarkings I)

abbrev pub user_perm_read : ℕ
user_perm_read = 1

abbrev pub user_perm_write : ℕ
user_perm_write = 2

abbrev pub user_perm_manage_visibility : ℕ
user_perm_manage_visibility = 4

abbrev pub user_perm_discover : ℕ
user_perm_discover = 8

abbrev pub no_user_perms : ℕ
no_user_perms = 0

-- `user_perms |= perm`, for a permission, which is a power of two.
unfoldable pub or_perm : ℕ → ℕ → ℕ
or_perm perm user_perms = if (user_perms / perm) % 2 == 1 then user_perms else user_perms + perm

unfoldable pub all_user_perms : ℕ
unfolding or_perm
all_user_perms =
    or_perm user_perm_discover
      (or_perm user_perm_manage_visibility (or_perm user_perm_write user_perm_read))

module _ {I : Type 0} ⦃e : Eq I⦄ where
  unfoldable pub set_has : I → List I → Bool
  set_has x [] = false
  set_has x (y ∷ s) = e.beq y x || set_has x s

  -- The intersection of the sets is not empty.
  unfoldable pub sets_intersect : List I → List I → Bool
  unfolding set_has
  sets_intersect [] s2 = false
  sets_intersect (x ∷ s1) s2 = set_has x s2 || sets_intersect s1 s2

  unfoldable pub check_platform_auth : ℕ → List I → List I → ℕ → ℕ
  unfolding sets_intersect or_perm
  check_platform_auth perm_to_check platform_auth [] user_perms = or_perm perm_to_check user_perms
  check_platform_auth perm_to_check platform_auth (x ∷ platform_vis) user_perms =
      if sets_intersect platform_auth (x ∷ platform_vis)
      then or_perm perm_to_check user_perms
      else user_perms

  -- One of the four `if (pov.__isset…) … else user_perms |= …`.
  unfoldable pub check_if_set : ℕ → List I → Option (List I) → ℕ → ℕ
  unfolding check_platform_auth or_perm
  check_if_set perm platform_auths none user_perms = or_perm perm user_perms
  check_if_set perm platform_auths (some platform_vis) user_perms =
      check_platform_auth perm platform_auths platform_vis user_perms

  unfoldable pub platform_permissions : List I → PlatformObjectVisibilities I → ℕ
  unfolding check_if_set
  platform_permissions platform_auths pov =
      check_if_set user_perm_discover platform_auths pov.platform_object_discover_visibility (
        check_if_set user_perm_manage_visibility platform_auths
          pov.platform_object_manage_visibility
          (check_if_set user_perm_write platform_auths pov.platform_object_write_visibility (
            check_if_set user_perm_read platform_auths pov.platform_object_read_visibility
              no_user_perms)))

  module _ (evaluate : List Text → Text → Result Bool) where
    -- From the test of the external community on.
    unfoldable pub advanced_permissions : Authorizations I → AdvancedMarkings I → Result ℕ
    unfolding platform_permissions all_user_perms
    advanced_permissions auths markings = do
      external_comm_auths_ok ←
          evaluate auths.external_community_authorizations markings.external_community_visibility
      (if not external_comm_auths_ok
          then ok no_user_perms
          else elim markings.platform_object_visibility [
            | none ↦ ok all_user_perms
            | some pov ↦ ok (platform_permissions auths.platform_object_authorizations pov)
          ])

    unfoldable pub get_user_permissions : Authorizations I → Visibility I → Result ℕ
    unfolding advanced_permissions all_user_perms
    get_user_permissions auths visibility = do
      formal_auths_ok ← evaluate auths.formal_authorizations visibility.formal_visibility
      (if not formal_auths_ok then ok no_user_perms else elim visibility.advanced_markings [
        | none ↦ ok all_user_perms
        | some markings ↦ advanced_permissions auths markings
      ])

    -- `ezbake_get_user_permissions`; a NULL handle is `none`. The macro turns an exception into no
    -- permissions and an error text.
    unfoldable pub ezbake_get_user_permissions :
        Option (Authorizations I) → Option (Visibility I) → Result ℕ
    unfolding get_user_permissions all_user_perms
    ezbake_get_user_permissions auths none = ok all_user_perms
    ezbake_get_user_permissions none (some visibility) = ok no_user_perms
    ezbake_get_user_permissions (some auths) (some visibility) =
        elim (get_user_permissions auths visibility) [
          | throw error ↦ ok no_user_perms
          | other ↦ other
        ]
