-- ===== src/Security/Visibility.antt =====
-- `evaluate_visibility_expression` of
-- security/permission-utils/src/main/cpp/ezbake_visibility.cpp: the markings of an expression are
-- replaced by words for true and false (Markings), the result is parsed (Grammar), and the tree is
-- evaluated. The order of the set of markings is the parameter `order`, since its comparator is no
-- strict order.
pub mod Grammar
pub mod Markings
pub mod Meaning
pub mod Rename
pub mod Loop
pub mod Correct
pub mod Ends
use ezbake_common_cpp.Common.Result.{
  Result, ok, throw, hang, ◌>>=◌, invalid_argument, bad_lexical_cast,
}
use ezbake_common_cpp.Common.{
  ◌+◌, ◌*◌, Bool, true, false, not, Option, none, some, List, [], ◌∷◌, ◌++◌, if◌then◌else◌, Text,
  codes, text_eq, length,
}
use Grammar.{
  Expr, var, op_not, op_and, op_or, Parse, matched, mismatch, expected, out_of_fuel, skip, lit,
  parse_or,
}
use Markings.{Boost, true_replace, false_replace, vis_auth_to_parsable}

-- `p > ';'`, with the handler of the expectation failures; what follows the semicolon is not read.
unfoldable pub finish : Parse → Result Expr
finish (matched e rest) = elim (lit b';' rest) [
  | none ↦ throw (invalid_argument (codes "Parse expectation failure at " ++ skip rest))
  | some _ ↦ ok e
]
finish mismatch = throw (invalid_argument (codes "Could not parse expression"))
finish (expected rest) = throw (invalid_argument (codes "Parse expectation failure at " ++ rest))
finish out_of_fuel = hang

-- `phrase_parse`, with four calls to a byte and four more.
unfoldable pub parse : Text → Result Expr
unfolding finish parse_or
parse s = finish (parse_or (4 * length s + 4) s)

module _ (boost : Boost) where
  unfoldable pub eval_word : Text → Result Bool
  unfolding text_eq
  eval_word v =
      if text_eq v true_replace
      then ok true
      else if text_eq v false_replace
      then ok false
      else elim (boost.lexical_cast v) [ none ↦ throw bad_lexical_cast | some b ↦ ok b ]

  -- The class `eval`; `&&` and `||` do not evaluate the second operand where the first decides.
  unfoldable pub eval : Expr → Result Bool
  unfolding eval_word
  eval (var v) = eval_word v
  eval (op_not e) = do b ← eval e; ok (not b)
  eval (op_and d e) = eval d >>= λ b. if b then eval e else ok false
  eval (op_or d e) = eval d >>= λ b. if b then ok true else eval e

  module _ (order : List Text → List Text) where
    unfoldable pub evaluate_visibility_expression : List Text → Text → Result Bool
    unfolding parse eval vis_auth_to_parsable
    evaluate_visibility_expression auths [] = ok true
    evaluate_visibility_expression [] (c ∷ vis_expr) = ok false
    evaluate_visibility_expression (a ∷ auths) (c ∷ vis_expr) = do
      parsed ← parse (vis_auth_to_parsable boost order (a ∷ auths) (c ∷ vis_expr))
      eval parsed

    -- The C function: an exception, caught by the macro, counts as false.
    unfoldable pub ezbake_evaluate_visibility_expression : List Text → Option Text → Result Bool
    unfolding evaluate_visibility_expression
    ezbake_evaluate_visibility_expression auths vis_expr =
        elim (evaluate_visibility_expression auths (elim vis_expr [ none ↦ [] | some s ↦ s ])) [
          | throw e ↦ ok false
          | other ↦ other
        ]
