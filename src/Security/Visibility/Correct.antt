-- ===== src/Security/Visibility/Correct.antt =====
-- `evaluate_visibility_expression` computes what an expression means.
use ezbake_common_cpp.Common.Result.{ok}
use ezbake_common_cpp.Common.{
  ℕ, ◌+◌, ◌*◌, ◌≡◌, refl, ap, sym, ◌∙◌, leb, Bool, true, false, ◌||◌, List, [], ◌∷◌, ◌++◌,
  if◌then◌else◌, Text, text_eq, text_eq_iff, arith, length, length-append, All, All-append,
  Bool-cases, inl, inr,
}
use ezbake_common_cpp.Security.Visibility.Grammar.RoundTrip.{
  print, in_parens, IsWord, HasWords, parse_or-print,
}
use ezbake_common_cpp.Security.Visibility.Grammar.{Expr, var, op_not, op_and, op_or, lit}
use ezbake_common_cpp.Security.Visibility.Markings.Extract.{
  with_semicolon-print, get_markings_from_expression-print,
}
use ezbake_common_cpp.Security.Visibility.Markings.Replace.{words, rename, occurs, is_clear}
use ezbake_common_cpp.Security.Visibility.Markings.Documented.{IsBoost}
use ezbake_common_cpp.Security.Visibility.Markings.{
  Boost, true_replace, false_replace, has_text, replace_markings, vis_auth_to_parsable,
}
use ezbake_common_cpp.Security.Visibility.Meaning.{meaning, IsClear, IsOrder}
use ezbake_common_cpp.Security.Visibility.Rename.{
  value, current, rename_cong, rename_same, All-every,
}
use ezbake_common_cpp.Security.Visibility.Loop.{replace_markings-print}
use ezbake_common_cpp.Security.Visibility.{
  finish, parse, eval_word, eval, evaluate_visibility_expression,
}

All-has_text : (P : Text → Type 0) (m : Text) (l : List Text) → All P l → has_text m l ≡ true → P m
unfolding has_text
All-has_text P m [] h k = cc
All-has_text P m (a ∷ l) h k = elim (Bool-cases (text_eq a m)) [
  | inl same ↦ rw (sym ((text_eq_iff a m).0 same)) h.0
  | inr other ↦ All-has_text P m l h.1 (ground arith)
]

All-of_has_text :
    (P : Text → Type 0) (l : List Text) → ((m : Text) → has_text m l ≡ true → P m) → All P l
unfolding has_text
All-of_has_text P [] f = tt
All-of_has_text P (a ∷ l) f =
    (f a (ground (arith, text_eq_iff a a)), All-of_has_text P l (λ m k. f m (ground arith)))

All-order :
    (order : List Text → List Text) (P : Text → Type 0) (l : List Text)
    → IsOrder order
    → All P l
    → All P (order l)
All-order order P l o h =
    All-of_has_text P (order l) (λ m k. All-has_text P m l h (sym (o.same l m) ∙ k))

HasWords-words : (e : Expr) → HasWords e → All IsWord (words e)
unfolding words
HasWords-words (var w) h = (h, tt)
HasWords-words (op_not e) h = HasWords-words e h
HasWords-words (op_and d e) h =
    All-append IsWord (words d) (words e) (HasWords-words d h.0) (HasWords-words e h.1)
HasWords-words (op_or d e) h =
    All-append IsWord (words d) (words e) (HasWords-words d h.0) (HasWords-words e h.1)

value-IsWord : (auths : List Text) (w : Text) → IsWord (value auths w)
value-IsWord auths w = elim (Bool-cases (has_text w auths)) [
  | inl there ↦ rw there (refl, (refl, (refl, (refl, (refl, (refl, (refl, tt)))))))
  | inr gone ↦ rw gone (refl, (refl, (refl, (refl, (refl, (refl, (refl, tt)))))))
]

rename-HasWords : (σ : Text → Text) (e : Expr) → ((w : Text) → IsWord (σ w)) → HasWords (rename σ e)
unfolding rename
rename-HasWords σ (var w) f = f w
rename-HasWords σ (op_not e) f = rename-HasWords σ e f
rename-HasWords σ (op_and d e) f = (rename-HasWords σ d f, rename-HasWords σ e f)
rename-HasWords σ (op_or d e) f = (rename-HasWords σ d f, rename-HasWords σ e f)

-- All words replaced, each by its value.
replace_markings_all :
    (boost : Boost) (is_boost : IsBoost boost) (order : List Text → List Text) (auths : List Text)
    (e : Expr)
    → HasWords e
    → IsClear e
    → IsOrder order
    → replace_markings boost auths (order (words e)) (print 0 e) ≡ print 0 (rename (value auths) e)
unfolding has_text
replace_markings_all boost is_boost order auths e h clear o =
    let marks = order (words e) in
    let start : print 0 (rename (current auths []) e) ≡ print 0 e = ap (print 0) (
      rename_cong (current auths []) (λ w. w) e
        (All-every (λ w. current auths [] w ≡ w) (words e) (λ w. refl))
      ∙ rename_same e) in
    let final =
      rename_cong (λ w. if has_text w marks || has_text w [] then value auths w else w)
        (value auths) e
        (All-of_has_text
          (λ w. (if has_text w marks || has_text w [] then value auths w else w) ≡ value auths w)
          (words e) (λ w k. rw (o.same (words e) w, k))) in
    rw (
      sym start,
      replace_markings-print boost is_boost auths marks [] e
          (All-order order IsWord (words e) o (HasWords-words e h))
          (All-order order
            (λ m.
              All (λ w. is_clear m w ≡ true) (words e)
              × ((occurs m true_replace || occurs m false_replace) ≡ false))
            (words e) o clear),
      final,
    )

parse-print : (e : Expr) → HasWords e → parse (print 0 e ++ (b';' ∷ [])) ≡ ok e
unfolding parse finish lit
parse-print e h = rw (
  parse_or-print e (4 * length (print 0 e ++ (b';' ∷ [])) + 4) [] h
      (omega (arith, length-append (print 0 e) (b';' ∷ []))),
  finish,
)

eval-value :
    (boost : Boost) (auths : List Text) (e : Expr)
    → eval boost (rename (value auths) e) ≡ ok (meaning auths e)
unfolding eval eval_word rename meaning
eval-value boost auths (var w) = elim (Bool-cases (has_text w auths)) [
  | inl there ↦ rw there
  | inr gone ↦ rw gone
]
eval-value boost auths (op_not e) = rw (eval-value boost auths e)
eval-value boost auths (op_and d e) =
    rw (eval-value boost auths d, eval-value boost auths e)
      (elim (Bool-cases (meaning auths d)) [ inl held ↦ rw held | inr failed ↦ rw failed ])
eval-value boost auths (op_or d e) =
    rw (eval-value boost auths d, eval-value boost auths e)
      (elim (Bool-cases (meaning auths d)) [ inl held ↦ rw held | inr failed ↦ rw failed ])

in_parens-cons :
    (b : Bool) (c : ℕ) (s : Text) → (d : ℕ) × (t : Text) × (in_parens b (c ∷ s) ≡ d ∷ t)
unfolding in_parens
in_parens-cons false c s = (c, s, refl)
in_parens-cons true c s = (b'(', _, refl)

print-cons : (n : ℕ) (e : Expr) → HasWords e → (c : ℕ) × (s : Text) × (print n e ≡ c ∷ s)
unfolding print
print-cons n (var []) h = absurd h
print-cons n (var (c ∷ w)) h = (c, w, refl)
print-cons n (op_not e) h = in_parens-cons (leb 3 n) b'!' (print 3 e)
print-cons n (op_and d e) h =
    let (c, s, k) = print-cons 2 d h.0 in
    rw k (in_parens-cons (leb 2 n) c (s ++ (b'&' ∷ print 1 e)))
print-cons n (op_or d e) h =
    let (c, s, k) = print-cons 1 d h.0 in
    rw k (in_parens-cons (leb 1 n) c (s ++ (b'|' ∷ print 0 e)))

-- Of an expression, none of whose markings contains another or stands in a replacement word, written
-- without needless parentheses, and of authorizations that are not empty, the result is what the
-- expression means: a marking holds if it is authorized. This is so for every order of the set of
-- markings.
pub evaluate_visibility_expression-meaning :
    (boost : Boost) (is_boost : IsBoost boost) (order : List Text → List Text) (a : Text)
    (auths : List Text) (e : Expr)
    → HasWords e
    → IsClear e
    → IsOrder order
    → evaluate_visibility_expression boost order (a ∷ auths) (print 0 e)
      ≡ ok (meaning (a ∷ auths) e)
unfolding evaluate_visibility_expression vis_auth_to_parsable
evaluate_visibility_expression-meaning boost is_boost order a auths e h clear o =
    let (c, s, k) = print-cons 0 e h in
    let renamed = rename-HasWords (value (a ∷ auths)) e (value-IsWord (a ∷ auths)) in
    let parsable : vis_auth_to_parsable boost order (a ∷ auths) (print 0 e)
        ≡ print 0 (rename (value (a ∷ auths)) e) ++ (b';' ∷ []) =
      rw
        (
          get_markings_from_expression-print boost is_boost order e h,
          replace_markings_all boost is_boost order (a ∷ auths) e h clear o,
        )
        (with_semicolon-print (rename (value (a ∷ auths)) e) renamed) in
    rw (
      k,
      rw k at parsable,
      parse-print (rename (value (a ∷ auths)) e) renamed,
      eval-value boost (a ∷ auths) e,
    )
