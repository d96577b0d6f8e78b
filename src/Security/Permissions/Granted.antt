-- ===== src/Security/Permissions/Granted.antt =====
-- Which permissions are granted.
use ezbake_common_cpp.Common.Result.{Exception, Result, ok, throw}
use ezbake_common_cpp.Common.{
  ℕ, ◌+◌, ◌≡◌, ◌⊎◌, inl, inr, refl, Bool, true, false, Option, none, some, List, [], ◌∷◌,
  if◌then◌else◌, Eq, Text,
}
use ezbake_common_cpp.Security.Permissions.{
  Authorizations, PlatformObjectVisibilities, AdvancedMarkings, Visibility, user_perm_read,
  user_perm_write, user_perm_manage_visibility, user_perm_discover, no_user_perms, or_perm,
  sets_intersect, check_platform_auth, check_if_set, platform_permissions, advanced_permissions,
  get_user_permissions, ezbake_get_user_permissions,
}

abbrev pub permission : Bool → ℕ → ℕ
permission granted perm = if granted then perm else 0

or_perms :
    (r w m d : Bool)
    → (if d
        then or_perm 8 (
            if m
            then or_perm 4 (
                if w
                then or_perm 2 (if r then or_perm 1 0 else 0)
                else (if r then or_perm 1 0 else 0))
            else (if w
                then or_perm 2 (if r then or_perm 1 0 else 0)
                else (if r then or_perm 1 0 else 0)))
        else (if m
            then or_perm 4 (
                if w
                then or_perm 2 (if r then or_perm 1 0 else 0)
                else (if r then or_perm 1 0 else 0))
            else (if w
                then or_perm 2 (if r then or_perm 1 0 else 0)
                else (if r then or_perm 1 0 else 0))))
      ≡ permission r 1 + (permission w 2 + (permission m 4 + permission d 8))
unfolding or_perm
or_perms true true true true = refl
or_perms true true true false = refl
or_perms true true false true = refl
or_perms true true false false = refl
or_perms true false true true = refl
or_perms true false true false = refl
or_perms true false false true = refl
or_perms true false false false = refl
or_perms false true true true = refl
or_perms false true true false = refl
or_perms false true false true = refl
or_perms false true false false = refl
or_perms false false true true = refl
or_perms false false true false = refl
or_perms false false false true = refl
or_perms false false false false = refl

module _ {I : Type 0} ⦃e : Eq I⦄ where
  -- A visibility that is not given, or is empty, restricts nothing.
  unfoldable pub is_granted : List I → Option (List I) → Bool
  is_granted auths none = true
  is_granted auths (some []) = true
  is_granted auths (some (x ∷ vis)) = sets_intersect auths (x ∷ vis)

  check_if_set_lem :
      (perm : ℕ) (auths : List I) (o : Option (List I)) (u : ℕ)
      → check_if_set perm auths o u ≡ (if is_granted auths o then or_perm perm u else u)
  unfolding check_if_set check_platform_auth is_granted
  check_if_set_lem perm auths none u = refl
  check_if_set_lem perm auths (some []) u = refl
  check_if_set_lem perm auths (some (x ∷ vis)) u = refl

  -- The permissions are the sum of the four, each counted exactly if its visibility grants it: one
  -- that is not given or is empty does, another if it shares an element with the authorizations.
  pub platform_permissions-is_granted :
      (auths : List I) (pov : PlatformObjectVisibilities I)
      → platform_permissions auths pov
        ≡ permission (is_granted auths pov.platform_object_read_visibility) user_perm_read
          + (permission (is_granted auths pov.platform_object_write_visibility) user_perm_write
              + (permission
                    (is_granted auths pov.platform_object_manage_visibility)
                    user_perm_manage_visibility
                  + permission
                      (is_granted auths pov.platform_object_discover_visibility)
                      user_perm_discover))
  unfolding platform_permissions
  platform_permissions-is_granted auths pov =
      let r = pov.platform_object_read_visibility in
      let w = pov.platform_object_write_visibility in
      let m = pov.platform_object_manage_visibility in
      let d = pov.platform_object_discover_visibility in
      rw
        (
          check_if_set_lem 1 auths r 0,
          check_if_set_lem 2 auths w (if is_granted auths r then or_perm 1 0 else 0),
          check_if_set_lem 4 auths m,
          check_if_set_lem 8 auths d,
        )
        (or_perms (is_granted auths r) (is_granted auths w) (is_granted auths m)
          (is_granted auths d))

  module _ (evaluate : List Text → Text → Result Bool) where
    -- Where the formal authorizations do not pass, or their evaluation throws, the C function
    -- grants nothing.
    pub ezbake_get_user_permissions_closed :
        (auths : Authorizations I) (visibility : Visibility I)
        → (evaluate auths.formal_authorizations visibility.formal_visibility ≡ ok false)
          ⊎ ((error : Exception) × (evaluate auths.formal_authorizations
                  visibility.formal_visibility
                ≡ throw error))
        → ezbake_get_user_permissions evaluate (some auths) (some visibility) ≡ ok no_user_perms
    unfolding ezbake_get_user_permissions get_user_permissions
    ezbake_get_user_permissions_closed auths visibility (inl refused) =
        rw (refused, ezbake_get_user_permissions, get_user_permissions)
    ezbake_get_user_permissions_closed auths visibility (inr (error, thrown)) =
        rw (thrown, ezbake_get_user_permissions, get_user_permissions)

    -- Where the formal authorizations pass and the external community authorizations do not pass the
    -- advanced markings given, no permission is granted, whatever the platform authorizations are.
    pub get_user_permissions_external :
        (auths : Authorizations I) (visibility : Visibility I) (markings : AdvancedMarkings I)
        → evaluate auths.formal_authorizations visibility.formal_visibility ≡ ok true
        → visibility.advanced_markings ≡ some markings
        → evaluate auths.external_community_authorizations markings.external_community_visibility
          ≡ ok false
        → get_user_permissions evaluate auths visibility ≡ ok no_user_perms
    unfolding get_user_permissions advanced_permissions
    get_user_permissions_external auths visibility markings passed given refused =
        rw (passed, get_user_permissions, given, refused, advanced_permissions)
