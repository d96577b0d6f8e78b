-- ===== src/Security/Visibility/Markings/Extract.antt =====
-- The markings found in the text of a tree are its words.
use mathlib.Core.List.{append-nil, append_assoc}
use ezbake_common_cpp.Common.{
  ℕ, ◌≡◌, refl, Bool, true, false, not, ◌&&◌, [], ◌∷◌, ◌++◌, ◌==◌, leb, List, Text, arith, length,
  All, All-append,
}
use ezbake_common_cpp.Security.Visibility.Grammar.RoundTrip.{print, in_parens, IsWord, HasWords}
use ezbake_common_cpp.Security.Visibility.Grammar.{
  Expr, var, op_not, op_and, op_or, is_alnum, is_space,
}
use ezbake_common_cpp.Security.Visibility.Markings.Documented.{IsBoost}
use ezbake_common_cpp.Security.Visibility.Markings.Replace.{words}
use ezbake_common_cpp.Security.Visibility.Markings.{
  without_spaces, drop, remove_if_space, is_separator, Boost, nonempty, ends_in_semicolon,
  with_semicolon, get_markings_from_expression,
}

-- The bytes of a printed tree.
abbrev is_printed : ℕ → Bool
is_printed c = not (is_space c) && not (c == b';')

All-alnum-printed : (w : Text) → All (λ d. is_alnum d ≡ true) w → All (λ d. is_printed d ≡ true) w
All-alnum-printed [] h = tt
All-alnum-printed (c ∷ w) h = (ground (arith, h.0), All-alnum-printed w h.1)

word-printed : (w : Text) → IsWord w → All (λ d. is_printed d ≡ true) w
word-printed [] h = absurd h
word-printed (c ∷ w) h = All-alnum-printed (c ∷ w) h

in_parens-printed :
    (b : Bool) (t : Text)
    → All (λ d. is_printed d ≡ true) t
    → All (λ d. is_printed d ≡ true) (in_parens b t)
unfolding in_parens
in_parens-printed false t h = h
in_parens-printed true t h =
    (refl, All-append (λ d. is_printed d ≡ true) t (b')' ∷ []) h (refl, tt))

print-printed : (n : ℕ) (e : Expr) → HasWords e → All (λ d. is_printed d ≡ true) (print n e)
unfolding print
print-printed n (var w) h = word-printed w h
print-printed n (op_not e) h =
    in_parens-printed (leb 3 n) (b'!' ∷ print 3 e) (refl, print-printed 3 e h)
print-printed n (op_and d e) h = in_parens-printed (leb 2 n) (print 2 d ++ (b'&' ∷ print 1 e)) (
    All-append (λ d. is_printed d ≡ true) (print 2 d) (b'&' ∷ print 1 e) (print-printed 2 d h.0)
      (refl, print-printed 1 e h.1))
print-printed n (op_or d e) h = in_parens-printed (leb 1 n) (print 1 d ++ (b'|' ∷ print 0 e)) (
    All-append (λ d. is_printed d ≡ true) (print 1 d) (b'|' ∷ print 0 e) (print-printed 1 d h.0)
      (refl, print-printed 0 e h.1))

without_spaces_same : (s : Text) → All (λ d. is_printed d ≡ true) s → without_spaces s ≡ s
unfolding without_spaces
without_spaces_same [] h = refl
without_spaces_same (c ∷ s) h = ground (arith, without_spaces_same s h.1, h.0)

drop-length : (s : Text) → drop (length s) s ≡ []
drop-length [] = refl
drop-length (c ∷ s) = drop-length s

remove_if_space_same : (s : Text) → All (λ d. is_printed d ≡ true) s → remove_if_space s ≡ s
unfolding remove_if_space
remove_if_space_same s h = rw (without_spaces_same s h, drop-length s) (append-nil s)

pub with_semicolon_end :
    (s : Text) → All (λ d. is_printed d ≡ true) s → with_semicolon s ≡ s ++ (b';' ∷ [])
unfolding with_semicolon
with_semicolon_end s h = rw (last s h)
  where
    last : (s : Text) → All (λ d. is_printed d ≡ true) s → ends_in_semicolon s ≡ false
    last [] h = refl
    last (c ∷ []) h = ground (arith, h.0)
    last (c ∷ d ∷ s) h = last (d ∷ s) h.1

pub with_semicolon-print :
    (e : Expr) → HasWords e → with_semicolon (print 0 e) ≡ print 0 e ++ (b';' ∷ [])
with_semicolon-print e h = with_semicolon_end (print 0 e) (print-printed 0 e h)

-- A text that does not go on with a piece.
abbrev IsBreak : Text → Type 0
IsBreak [] = Unit
IsBreak (c ∷ s) = is_separator c ≡ true

module _ (boost : Boost) (is_boost : IsBoost boost) where
  pieces : Text → List Text
  pieces s = nonempty (boost.split s is_separator)

  split_break :
      (s : Text) → IsBreak s → (rest : List Text) × (boost.split s is_separator ≡ [] ∷ rest)
  split_break [] h = ([], is_boost.split_end is_separator)
  split_break (c ∷ s) h = (boost.split s is_separator, is_boost.split_cut is_separator c s h)

  split_word :
      (w s : Text) (rest : List Text)
      → All (λ d. is_alnum d ≡ true) w
      → boost.split s is_separator ≡ [] ∷ rest
      → boost.split (w ++ s) is_separator ≡ w ∷ rest
  split_word [] s rest h k = k
  split_word (c ∷ w) s rest h k =
      let plain : is_separator c ≡ false = ground (arith, h.0) in
      is_boost.split_keep is_separator c (w ++ s) w rest plain (split_word w s rest h.1 k)

  pieces-word : (w s : Text) → IsWord w → IsBreak s → pieces (w ++ s) ≡ w ∷ pieces s
  unfolding pieces nonempty
  pieces-word [] s h k = absurd h
  pieces-word (c ∷ w) s h k =
      let (rest, e) = split_break s k in rw (e, split_word (c ∷ w) s rest h e)

  pieces-mark : (c : ℕ) (s : Text) → is_separator c ≡ true → pieces (c ∷ s) ≡ pieces s
  unfolding pieces nonempty
  pieces-mark c s h = rw (is_boost.split_cut is_separator c s h)

  in_parens-pieces :
      (b : Bool) (t : Text) (ws : List Text)
      → ((s : Text) → IsBreak s → pieces (t ++ s) ≡ ws ++ pieces s)
      → (s : Text) → IsBreak s
      → pieces (in_parens b t ++ s) ≡ ws ++ pieces s
  unfolding in_parens
  in_parens-pieces false t ws h s k = h s k
  in_parens-pieces true t ws h s k = rw (
    append_assoc t (b')' ∷ []) s,
    pieces-mark b'(' (t ++ (b')' ∷ s)) refl,
    h (b')' ∷ s) refl,
    pieces-mark b')' s refl,
  )

  join-pieces :
      (c : ℕ) (t t' : Text) (ws ws' : List Text)
      → is_separator c ≡ true
      → ((s : Text) → IsBreak s → pieces (t ++ s) ≡ ws ++ pieces s)
      → ((s : Text) → IsBreak s → pieces (t' ++ s) ≡ ws' ++ pieces s)
      → (s : Text) → IsBreak s
      → pieces ((t ++ (c ∷ t')) ++ s) ≡ (ws ++ ws') ++ pieces s
  join-pieces c t t' ws ws' mark h h' s k = rw (
    append_assoc t (c ∷ t') s,
    append_assoc ws ws' (pieces s),
    h (c ∷ (t' ++ s)) mark,
    pieces-mark c (t' ++ s) mark,
    h' s k,
  )

  print-pieces :
      (n : ℕ) (e : Expr)
      → HasWords e
      → (s : Text) → IsBreak s
      → pieces (print n e ++ s) ≡ words e ++ pieces s
  unfolding print words
  print-pieces n (var w) h s k = pieces-word w s h k
  print-pieces n (op_not e) h s k =
      in_parens-pieces (leb 3 n) (b'!' ∷ print 3 e) (words e)
        (λ s k. rw (pieces-mark b'!' (print 3 e ++ s) refl, print-pieces 3 e h s k)) s k
  print-pieces n (op_and d e) h s k =
      in_parens-pieces (leb 2 n) (print 2 d ++ (b'&' ∷ print 1 e)) (words d ++ words e)
        (join-pieces b'&' (print 2 d) (print 1 e) (words d) (words e) refl
          (λ s k. print-pieces 2 d h.0 s k) (λ s k. print-pieces 1 e h.1 s k))
        s k
  print-pieces n (op_or d e) h s k =
      in_parens-pieces (leb 1 n) (print 1 d ++ (b'|' ∷ print 0 e)) (words d ++ words e)
        (join-pieces b'|' (print 1 d) (print 0 e) (words d) (words e) refl
          (λ s k. print-pieces 1 d h.0 s k) (λ s k. print-pieces 0 e h.1 s k))
        s k

  -- The markings found in a printed tree are its words, in the order of the set.
  pub get_markings_from_expression-print :
      (order : List Text → List Text) (e : Expr)
      → HasWords e
      → get_markings_from_expression boost order (print 0 e) ≡ order (words e)
  unfolding get_markings_from_expression pieces nonempty
  get_markings_from_expression-print order e h =
      let found : pieces (print 0 e) ≡ words e =
        rw (append-nil (print 0 e), is_boost.split_end is_separator, append-nil (words e)) at
          (print-pieces 0 e h [] tt) in
      rw (remove_if_space_same (print 0 e) (print-printed 0 e h), found)
