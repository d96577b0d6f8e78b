-- ===== src/Security/Permissions/Evaluated.antt =====
-- `get_user_permissions` with the evaluation of visibility expressions in place of its parameter.
use ezbake_common_cpp.Common.{
  ◌≡◌, refl, Bool, true, false, not, ◌&&◌, Option, none, some, List, ◌∷◌, if◌then◌else◌, Eq, Text,
  Bool-cases, inl, inr,
}
use ezbake_common_cpp.Common.Result.{ok}
use ezbake_common_cpp.Security.Permissions.{
  Authorizations, PlatformObjectVisibilities, AdvancedMarkings, Visibility, platform_permissions,
  advanced_permissions, get_user_permissions, all_user_perms, no_user_perms,
}
use ezbake_common_cpp.Security.Visibility.Correct.{evaluate_visibility_expression-meaning}
use ezbake_common_cpp.Security.Visibility.Grammar.RoundTrip.{print, HasWords}
use ezbake_common_cpp.Security.Visibility.Grammar.{Expr}
use ezbake_common_cpp.Security.Visibility.Markings.Documented.{IsBoost}
use ezbake_common_cpp.Security.Visibility.Markings.{Boost}
use ezbake_common_cpp.Security.Visibility.Meaning.{meaning, IsClear, IsOrder}
use ezbake_common_cpp.Security.Visibility.{evaluate_visibility_expression}

-- The text of a clear expression.
pub record Expresses (vis_expr : Text) (e : Expr) : Type 0 where
  pub text : vis_expr ≡ print 0 e
  pub has_words : HasWords e
  pub clear : IsClear e

module _ (boost : Boost) (is_boost : IsBoost boost) (order : List Text → List Text)
    (is_order : IsOrder order) where
  evaluate-Expresses :
      (auths : List Text) (vis_expr : Text) (a : Text) (rest : List Text) (e : Expr)
      → auths ≡ a ∷ rest
      → Expresses vis_expr e
      → evaluate_visibility_expression boost order auths vis_expr ≡ ok (meaning auths e)
  evaluate-Expresses auths vis_expr a rest e held x =
      rw (held, x.text)
        (evaluate_visibility_expression-meaning boost is_boost order a rest e x.has_words x.clear
          is_order)

module _ {I : Type 0} ⦃eq : Eq I⦄ (boost : Boost) (is_boost : IsBoost boost)
    (order : List Text → List Text) (is_order : IsOrder order) where
  external_choice :
      (passed : Bool) (pov : Option (PlatformObjectVisibilities I)) (platform_auths : List I)
      → (if not passed then ok no_user_perms else elim pov [
        | none ↦ ok all_user_perms
        | some p ↦ ok (platform_permissions platform_auths p)
      ])
        ≡ ok (
            if passed
            then elim pov [ none ↦ all_user_perms | some p ↦ platform_permissions platform_auths p ]
            else no_user_perms)
  external_choice false pov platform_auths = refl
  external_choice true none platform_auths = refl
  external_choice true (some p) platform_auths = refl

  -- Where the formal visibility and the external community visibility are texts of clear
  -- expressions, and the user has an authorization of each kind, the user has the permissions that
  -- the platform visibilities give, or all if there are none, exactly if both expressions hold of
  -- the authorizations of their kind; else the user has none.
  pub get_user_permissions-meaning :
      (auths : Authorizations I) (visibility : Visibility I) (markings : AdvancedMarkings I)
      (a b : Text) (others more : List Text) (d e : Expr)
      → auths.formal_authorizations ≡ a ∷ others
      → auths.external_community_authorizations ≡ b ∷ more
      → visibility.advanced_markings ≡ some markings
      → Expresses visibility.formal_visibility d
      → Expresses markings.external_community_visibility e
      → get_user_permissions (evaluate_visibility_expression boost order) auths visibility
        ≡ ok (
            if meaning auths.formal_authorizations d
              && meaning auths.external_community_authorizations e
            then elim markings.platform_object_visibility [
              | none ↦ all_user_perms
              | some pov ↦ platform_permissions auths.platform_object_authorizations pov
            ]
            else no_user_perms)
  unfolding get_user_permissions advanced_permissions
  get_user_permissions-meaning auths visibility markings a b others more d e held_d held_e given x
        y =
      rw
        (
          evaluate-Expresses boost is_boost order is_order auths.formal_authorizations
              visibility.formal_visibility a others d held_d x,
          get_user_permissions,
        )
        (elim (Bool-cases (meaning auths.formal_authorizations d)) [
          | inl passed ↦
              rw
                (
                  passed,
                  given,
                  evaluate-Expresses boost is_boost order is_order
                      auths.external_community_authorizations markings.external_community_visibility
                      b more e held_e y,
                  advanced_permissions,
                )
                (external_choice (meaning auths.external_community_authorizations e)
                  markings.platform_object_visibility auths.platform_object_authorizations)
          | inr refused ↦ rw refused
        ])
