-- ===== src/Security/Tests.antt =====
-- The theorems on permissions at concrete authorizations. Expressions are evaluated here by a
-- function that lets the empty one pass and no other.
use ezbake_common_cpp.Common.Result.{Result, ok}
use ezbake_common_cpp.Common.{
  ℕ, ◌≡◌, refl, Bool, true, false, none, some, List, [], ◌∷◌, Text, codes, nat_eq,
}
use ezbake_common_cpp.Security.Permissions.Granted.{is_granted, platform_permissions-is_granted}
use ezbake_common_cpp.Security.Permissions.{
  Authorizations, PlatformObjectVisibilities, AdvancedMarkings, Visibility, sets_intersect, set_has,
  platform_permissions, get_user_permissions,
}
use ezbake_common_cpp.Security.Permissions.Evaluated.{Expresses, get_user_permissions-meaning}
use ezbake_common_cpp.Security.Visibility.Correct.{evaluate_visibility_expression-meaning}
use ezbake_common_cpp.Security.Visibility.Ends.{ezbake_evaluate_visibility_expression_lem}
use ezbake_common_cpp.Security.Visibility.Grammar.RoundTrip.{print, HasWords, parse_or-print}
use ezbake_common_cpp.Security.Visibility.Grammar.{
  Expr, var, op_not, op_and, op_or, matched, parse_or,
}
use ezbake_common_cpp.Security.Sample.{boost, boost-IsBoost}
use ezbake_common_cpp.Security.Visibility.Markings.Documented.{starts_with}
use ezbake_common_cpp.Security.Visibility.Markings.Replace.{words, occurs}
use ezbake_common_cpp.Security.Visibility.Markings.{has_text}
use ezbake_common_cpp.Security.Visibility.Meaning.{meaning, IsClear, IsOrder}
use ezbake_common_cpp.Security.Visibility.{
  evaluate_visibility_expression, ezbake_evaluate_visibility_expression,
}
use ezbake_common_cpp.Common.{◌↔◌, ◌++◌, arith, text_eq}

unfoldable evaluate : List Text → Text → Result Bool
evaluate auths [] = ok true
evaluate auths (c ∷ expression) = ok false

abbrev auths : Authorizations ℕ
auths = record {
  formal_authorizations = codes "U" ∷ [];
  external_community_authorizations = [];
  platform_object_authorizations = 3 ∷ 5 ∷ [];
}

abbrev pov : PlatformObjectVisibilities ℕ
pov = record {
  platform_object_read_visibility = none;
  platform_object_write_visibility = some (4 ∷ 5 ∷ []);
  platform_object_manage_visibility = some (6 ∷ []);
  platform_object_discover_visibility = some [];
}

abbrev markings : AdvancedMarkings ℕ
markings = record {
  external_community_visibility = codes "X";
  platform_object_visibility = some pov;
}

abbrev refused : Visibility ℕ
refused = record { formal_visibility = codes "TS"; advanced_markings = none }

abbrev external : Visibility ℕ
external = record { formal_visibility = []; advanced_markings = some markings }

platform_permissions-is_granted_example : platform_permissions (3 ∷ 5 ∷ []) pov ≡ 11
unfolding is_granted sets_intersect set_has
platform_permissions-is_granted_example = platform_permissions-is_granted (3 ∷ 5 ∷ []) pov

-- The expression "A&!(B|CC)" and the order in which the markings stand.
abbrev expression : Expr
expression = op_and (var (codes "A")) (op_not (op_or (var (codes "B")) (var (codes "CC"))))

abbrev expression_text : Text
expression_text = codes "A&!(B|CC)"

abbrev order : List Text → List Text
order l = l

order-IsOrder : IsOrder order
order-IsOrder = record { same = λ l m. refl }

expression-HasWords : HasWords expression
expression-HasWords = ((refl, tt), ((refl, tt), (refl, (refl, tt))))

expression-IsClear : IsClear expression
unfolding words occurs starts_with text_eq
expression-IsClear = (
  ((refl, (refl, (refl, tt))), refl),
  (((refl, (refl, (refl, tt))), refl), (((refl, (refl, (refl, tt))), refl), tt)),
)

expression-Expresses : Expresses expression_text expression
unfolding print
expression-Expresses = record {
  text = refl;
  has_words = expression-HasWords;
  clear = expression-IsClear;
}

parse_or-print_example : parse_or 41 (expression_text ++ codes ";") ≡ matched expression (codes ";")
unfolding print
parse_or-print_example = parse_or-print expression 41 [] expression-HasWords (omega arith)

evaluate_visibility_expression-meaning_example :
    evaluate_visibility_expression boost order (codes "A" ∷ codes "CC" ∷ []) expression_text
    ≡ ok false
unfolding print meaning has_text text_eq
evaluate_visibility_expression-meaning_example =
    evaluate_visibility_expression-meaning boost boost-IsBoost order (codes "A") (codes "CC" ∷ [])
      expression expression-HasWords expression-IsClear order-IsOrder

ezbake_evaluate_visibility_expression_lem_example :
    (b : Bool) × (ezbake_evaluate_visibility_expression boost order
        (codes "A" ∷ [])
        (some (codes "A&"))
      ≡ ok b)
    × (b ≡ true
        ↔ evaluate_visibility_expression boost order (codes "A" ∷ []) (codes "A&") ≡ ok true)
ezbake_evaluate_visibility_expression_lem_example =
    ezbake_evaluate_visibility_expression_lem boost order (codes "A" ∷ []) (codes "A&")

abbrev user : Authorizations ℕ
user = record {
  formal_authorizations = codes "A" ∷ [];
  external_community_authorizations = codes "CC" ∷ codes "A" ∷ [];
  platform_object_authorizations = 3 ∷ 5 ∷ [];
}

abbrev marked_markings : AdvancedMarkings ℕ
marked_markings = record {
  external_community_visibility = codes "CC";
  platform_object_visibility = some pov;
}

abbrev marked : Visibility ℕ
marked = record { formal_visibility = expression_text; advanced_markings = some marked_markings }

marked-Expresses : Expresses (codes "CC") (var (codes "CC"))
unfolding print words occurs starts_with text_eq
marked-Expresses = record {
  text = refl;
  has_words = (refl, (refl, tt));
  clear = (((refl, tt), refl), tt);
}

get_user_permissions-meaning_example :
    get_user_permissions (evaluate_visibility_expression boost order) user marked ≡ ok 11
unfolding meaning has_text text_eq platform_permissions sets_intersect set_has
get_user_permissions-meaning_example =
    get_user_permissions-meaning boost boost-IsBoost order order-IsOrder user marked marked_markings
      (codes "A") (codes "CC") [] (codes "A" ∷ []) expression (var (codes "CC")) refl refl refl
      expression-Expresses marked-Expresses
