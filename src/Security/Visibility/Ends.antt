-- ===== src/Security/Visibility/Ends.antt =====
-- The evaluation of a visibility expression always ends, with a value or an exception.
use ezbake_common_cpp.Common.Result.{Ends, Result, ok, throw, hang, crash, ◌>>=◌}
use ezbake_common_cpp.Common.{
  ℕ, ◌+◌, ◌*◌, ◌≡◌, ◌↔◌, refl, ap, Bool, true, false, not, List, [], ◌∷◌, if◌then◌else◌, Text,
  text_eq, arith, length, Bool-cases, Option-cases, inl, inr, some,
}
use ezbake_common_cpp.Security.Visibility.Grammar.Halts.{Within, parse_or-Within}
use ezbake_common_cpp.Security.Visibility.Grammar.{
  Expr, var, op_not, op_and, op_or, Parse, matched, mismatch, expected, out_of_fuel, parse_or, lit,
}
use ezbake_common_cpp.Security.Visibility.Markings.{
  Boost, true_replace, false_replace, vis_auth_to_parsable,
}
use ezbake_common_cpp.Security.Visibility.{
  finish, parse, eval_word, eval, evaluate_visibility_expression,
  ezbake_evaluate_visibility_expression,
}

>>=-Ends {ℓ κ} :
    {A : Type ℓ} {B : Type κ} (r : Result A) (f : A → Result B)
    → Ends r
    → ((a : A) → Ends (f a))
    → Ends (r >>= f)
>>=-Ends (ok a) f h k = k a
>>=-Ends (throw e) f h k = tt
>>=-Ends hang f h k = h
>>=-Ends crash f h k = h

finish-Ends : (n : ℕ) (p : Parse) → Within n p → Ends (finish p)
unfolding finish
finish-Ends n (matched e rest) h = elim (Option-cases (lit b';' rest)) [
  | inl missing ↦ rw (missing, finish) tt
  | inr (after, there) ↦ rw (there, finish) tt
]
finish-Ends n mismatch h = tt
finish-Ends n (expected rest) h = tt
finish-Ends n out_of_fuel h = h

parse-Ends : (s : Text) → Ends (parse s)
unfolding parse
parse-Ends s =
    finish-Ends (length s) (parse_or (4 * length s + 4) s)
      (parse_or-Within (4 * length s + 4) s (omega arith))

module _ (boost : Boost) where
  eval_word-Ends : (v : Text) → Ends (eval_word boost v)
  unfolding eval_word
  eval_word-Ends v = elim (Bool-cases (text_eq v true_replace)) [
    | inl same ↦ rw same tt
    | inr other ↦ elim (Bool-cases (text_eq v false_replace)) [
      | inl same ↦ rw (other, same) tt
      | inr neither ↦ elim (Option-cases (boost.lexical_cast v)) [
        | inl bad ↦ rw (other, neither, bad) tt
        | inr (b, cast) ↦ rw (other, neither, cast) tt
      ]
    ]
  ]

  eval-Ends : (e : Expr) → Ends (eval boost e)
  unfolding eval
  eval-Ends (var v) = eval_word-Ends v
  eval-Ends (op_not e) = >>=-Ends (eval boost e) (λ b. ok (not b)) (eval-Ends e) (λ b. tt)
  eval-Ends (op_and d e) =
      >>=-Ends (eval boost d) (λ b. if b then eval boost e else ok false) (eval-Ends d)
        (λ b. elim b as (λ k. Ends (if k then eval boost e else ok false)) [
          | true ↦ eval-Ends e
          | false ↦ tt
        ])
  eval-Ends (op_or d e) =
      >>=-Ends (eval boost d) (λ b. if b then ok true else eval boost e) (eval-Ends d)
        (λ b. elim b as (λ k. Ends (if k then ok true else eval boost e)) [
          | true ↦ tt
          | false ↦ eval-Ends e
        ])

  module _ (order : List Text → List Text) where
    -- Whatever the authorizations and the expression are, the evaluation returns or throws: the
    -- parser has enough fuel on every text.
    pub evaluate_visibility_expression-Ends :
        (auths : List Text) (vis_expr : Text)
        → Ends (evaluate_visibility_expression boost order auths vis_expr)
    unfolding evaluate_visibility_expression
    evaluate_visibility_expression-Ends auths [] = tt
    evaluate_visibility_expression-Ends [] (c ∷ vis_expr) = tt
    evaluate_visibility_expression-Ends (a ∷ auths) (c ∷ vis_expr) =
        >>=-Ends (parse (vis_auth_to_parsable boost order (a ∷ auths) (c ∷ vis_expr))) (eval boost)
          (parse-Ends (vis_auth_to_parsable boost order (a ∷ auths) (c ∷ vis_expr))) eval-Ends

    -- The C function always returns, with true exactly where the C++ function returns true.
    pub ezbake_evaluate_visibility_expression_lem :
        (auths : List Text) (vis_expr : Text)
        → (b : Bool) × (ezbake_evaluate_visibility_expression boost order auths (some vis_expr)
            ≡ ok b)
          × (b ≡ true ↔ evaluate_visibility_expression boost order auths vis_expr ≡ ok true)
    unfolding ezbake_evaluate_visibility_expression
    ezbake_evaluate_visibility_expression_lem auths vis_expr =
        caught (evaluate_visibility_expression boost order auths vis_expr)
          (evaluate_visibility_expression-Ends auths vis_expr)
      where
        caught :
            (r : Result Bool)
            → Ends r
            → (b : Bool) × ((elim r [ throw e ↦ ok false | other ↦ other ]) ≡ ok b)
              × (b ≡ true ↔ r ≡ ok true)
        caught (ok b) h = (b, refl, ((λ e. ap ok e), (λ e. cc)))
        caught (throw e) h = (false, refl, ((λ e. cc), (λ e. cc)))
        caught hang h = absurd h
        caught crash h = absurd h
