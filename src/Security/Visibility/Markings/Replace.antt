-- ===== src/Security/Visibility/Markings/Replace.antt =====
-- `replace_all` on the text of a tree: where no other word contains the marking, it replaces the
-- marking's own words and nothing else.
use mathlib.Core.List.{append-nil, append_assoc}
use ezbake_common_cpp.Common.{
  ℕ, ◌≡◌, refl, ap, ◌∙◌, Bool, true, false, not, ◌||◌, [], ◌∷◌, ◌++◌, leb, List, if◌then◌else◌,
  Text, text_eq, text_eq_iff, arith, All, Bool-cases, inl, inr,
}
use ezbake_common_cpp.Security.Visibility.Grammar.RoundTrip.{print, in_parens, IsWord}
use ezbake_common_cpp.Security.Visibility.Grammar.{Expr, var, op_not, op_and, op_or, is_alnum}
use ezbake_common_cpp.Security.Visibility.Markings.Documented.{IsBoost, starts_with}
use ezbake_common_cpp.Security.Visibility.Markings.{Boost}

unfoldable pub words : Expr → List Text
words (var w) = w ∷ []
words (op_not e) = words e
words (op_and d e) = words d ++ words e
words (op_or d e) = words d ++ words e

unfoldable pub rename : (Text → Text) → Expr → Expr
rename σ (var w) = var (σ w)
rename σ (op_not e) = op_not (rename σ e)
rename σ (op_and d e) = op_and (rename σ d) (rename σ e)
rename σ (op_or d e) = op_or (rename σ d) (rename σ e)

-- The marking stands somewhere in the word.
unfoldable pub occurs : Text → Text → Bool
occurs m [] = false
occurs m (c ∷ w) = starts_with (c ∷ w) m || occurs m w

-- A text that does not go on with a word.
abbrev pub IsEnd : Text → Type 0
IsEnd [] = Unit
IsEnd (c ∷ s) = is_alnum c ≡ false

starts_with-append :
    (u s m : Text)
    → IsEnd s
    → All (λ d. is_alnum d ≡ true) m
    → starts_with (u ++ s) m ≡ starts_with u m
unfolding starts_with
starts_with-append u s [] h k = ground arith
starts_with-append [] [] (d ∷ m) h k = refl
starts_with-append [] (c ∷ s) (d ∷ m) h k = ground (arith, k.0)
starts_with-append (c ∷ u) s (d ∷ m) h k = ground (arith, starts_with-append u s m h k.1)

pub starts_with_self : (m : Text) → starts_with m m ≡ true
unfolding starts_with
starts_with_self [] = refl
starts_with_self (c ∷ m) = ground (arith, starts_with_self m)

-- What replacing the marking makes of a word.
abbrev pub replaced : Text → Text → Text → Text
replaced m r w = if text_eq w m then r else w

-- The word is the marking, or does not contain it.
abbrev pub is_clear : Text → Text → Bool
is_clear m w = text_eq w m || not (occurs m w)

pub All-left {ℓ κ} : {A : Type ℓ} (P : A → Type κ) (xs ys : List A) → All P (xs ++ ys) → All P xs
All-left P [] ys h = tt
All-left P (x ∷ xs) ys h = (h.0, All-left P xs ys h.1)

pub All-right {ℓ κ} : {A : Type ℓ} (P : A → Type κ) (xs ys : List A) → All P (xs ++ ys) → All P ys
All-right P [] ys h = h
All-right P (x ∷ xs) ys h = All-right P xs ys h.1

module _ (boost : Boost) (is_boost : IsBoost boost) where
  -- A word without the marking stays.
  replace_absent :
      (w m r s : Text)
      → IsEnd s
      → IsWord m
      → occurs m w ≡ false
      → boost.replace_all (w ++ s) m r ≡ w ++ boost.replace_all s m r
  unfolding occurs
  replace_absent [] m r s h k o = refl
  replace_absent (c ∷ w) [] r s h k o = absurd k
  replace_absent (c ∷ w) (d ∷ m) r s h k o =
      is_boost.replace_keep c (w ++ s) (d ∷ m) r
        (starts_with-append (c ∷ w) s (d ∷ m) h k ∙ ground arith)
      ∙ ap (λ t. c ∷ t) (replace_absent w (d ∷ m) r s h k (ground arith))

  -- The marking itself is replaced.
  replace_present :
      (m r s : Text) → IsWord m → boost.replace_all (m ++ s) m r ≡ r ++ boost.replace_all s m r
  replace_present [] r s k = absurd k
  replace_present (d ∷ m) r s k = is_boost.replace_found d m r s

  -- A byte that no word has stays.
  replace_mark :
      (c : ℕ) (m r s : Text)
      → is_alnum c ≡ false
      → IsWord m
      → boost.replace_all (c ∷ s) m r ≡ c ∷ boost.replace_all s m r
  unfolding starts_with
  replace_mark c [] r s h k = absurd k
  replace_mark c (d ∷ m) r s h k = is_boost.replace_keep c s (d ∷ m) r (ground (arith, k.0))

  replace_word :
      (w m r s : Text)
      → IsEnd s
      → IsWord m
      → is_clear m w ≡ true
      → boost.replace_all (w ++ s) m r ≡ replaced m r w ++ boost.replace_all s m r
  replace_word w m r s h k clear = elim (Bool-cases (text_eq w m)) [
    | inl same ↦ let e : w ≡ m = (text_eq_iff w m).0 same in rw (same, e) (replace_present m r s k)
    | inr other ↦ rw other (replace_absent w m r s h k (ground arith))
  ]

  module _ (m r : Text) (is_word : IsWord m) where
    -- Replacing in the text `t`, with anything behind it that is no word, gives the text `u`.
    abbrev Turns : Text → Text → Type 0
    Turns t u = (s : Text) → IsEnd s → boost.replace_all (t ++ s) m r ≡ u ++ boost.replace_all s m r

    in_parens-Turns : (b : Bool) (t u : Text) → Turns t u → Turns (in_parens b t) (in_parens b u)
    unfolding in_parens
    in_parens-Turns false t u h s k = h s k
    in_parens-Turns true t u h s k = rw (
      append_assoc t (b')' ∷ []) s,
      append_assoc u (b')' ∷ []) (boost.replace_all s m r),
      replace_mark b'(' m r (t ++ (b')' ∷ s)) refl is_word,
      h (b')' ∷ s) refl,
      replace_mark b')' m r s refl is_word,
    )

    join-Turns :
        (c : ℕ) (t u t' u' : Text)
        → is_alnum c ≡ false
        → Turns t u
        → Turns t' u'
        → Turns (t ++ (c ∷ t')) (u ++ (c ∷ u'))
    join-Turns c t u t' u' mark h h' s k = rw (
      append_assoc t (c ∷ t') s,
      append_assoc u (c ∷ u') (boost.replace_all s m r),
      h (c ∷ (t' ++ s)) mark,
      replace_mark c m r (t' ++ s) mark is_word,
      h' s k,
    )

    print-Turns :
        (n : ℕ) (e : Expr)
        → All (λ w. is_clear m w ≡ true) (words e)
        → Turns (print n e) (print n (rename (replaced m r) e))
    unfolding print words rename
    print-Turns n (var w) clear = λ s k. replace_word w m r s k is_word clear.0
    print-Turns n (op_not e) clear =
        in_parens-Turns (leb 3 n) (b'!' ∷ print 3 e) (b'!' ∷ print 3 (rename (replaced m r) e))
          (λ s k.
            rw (replace_mark b'!' m r (print 3 e ++ s) refl is_word, print-Turns 3 e clear s k))
    print-Turns n (op_and d e) clear =
        in_parens-Turns (leb 2 n) (print 2 d ++ (b'&' ∷ print 1 e))
          (print 2 (rename (replaced m r) d) ++ (b'&' ∷ print 1 (rename (replaced m r) e)))
          (join-Turns b'&' (print 2 d) (print 2 (rename (replaced m r) d)) (print 1 e)
            (print 1 (rename (replaced m r) e)) refl
            (print-Turns 2 d (All-left (λ w. is_clear m w ≡ true) (words d) (words e) clear))
            (print-Turns 1 e (All-right (λ w. is_clear m w ≡ true) (words d) (words e) clear)))
    print-Turns n (op_or d e) clear =
        in_parens-Turns (leb 1 n) (print 1 d ++ (b'|' ∷ print 0 e))
          (print 1 (rename (replaced m r) d) ++ (b'|' ∷ print 0 (rename (replaced m r) e)))
          (join-Turns b'|' (print 1 d) (print 1 (rename (replaced m r) d)) (print 0 e)
            (print 0 (rename (replaced m r) e)) refl
            (print-Turns 1 d (All-left (λ w. is_clear m w ≡ true) (words d) (words e) clear))
            (print-Turns 0 e (All-right (λ w. is_clear m w ≡ true) (words d) (words e) clear)))

    -- Where each word of the tree is the marking or does not contain it, `replace_all` replaces exactly
    -- the words that are the marking.
    pub replace_all-print :
        (e : Expr)
        → All (λ w. is_clear m w ≡ true) (words e)
        → boost.replace_all (print 0 e) m r ≡ print 0 (rename (replaced m r) e)
    replace_all-print e clear =
        rw
          (
            append-nil (print 0 e),
            is_boost.replace_end m r,
            append-nil (print 0 (rename (replaced m r) e)),
          )
          at (print-Turns 0 e clear [] tt)
