-- ===== src/Security/Visibility/Meaning.antt =====
-- What a visibility expression means, and which expressions and orders the program is right for.
use ezbake_common_cpp.Common.{◌≡◌, Bool, true, false, not, ◌&&◌, ◌||◌, List, Text, All}
use ezbake_common_cpp.Security.Visibility.Grammar.{Expr, var, op_not, op_and, op_or}
use ezbake_common_cpp.Security.Visibility.Markings.Replace.{words, occurs, is_clear}
use ezbake_common_cpp.Security.Visibility.Markings.{true_replace, false_replace, has_text}

-- A marking holds of the authorizations that it is one of.
unfoldable pub meaning : List Text → Expr → Bool
meaning auths (var w) = has_text w auths
meaning auths (op_not e) = not (meaning auths e)
meaning auths (op_and d e) = meaning auths d && meaning auths e
meaning auths (op_or d e) = meaning auths d || meaning auths e

-- No marking contains another, or stands in one of the two words that replace them.
abbrev pub IsClear : Expr → Type 0
IsClear e =
    All
      (λ m.
        All (λ w. is_clear m w ≡ true) (words e)
        × ((occurs m true_replace || occurs m false_replace) ≡ false))
      (words e)

-- What the documented set of markings is: an order of the pieces, each there or not.
pub record IsOrder (order : List Text → List Text) : Type 0 where
  pub same : (l : List Text) (m : Text) → has_text m (order l) ≡ has_text m l
