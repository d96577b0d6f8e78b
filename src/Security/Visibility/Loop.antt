-- ===== src/Security/Visibility/Loop.antt =====
-- The loop of `vis_auth_to_parsable` over the markings, on the text of a tree.
use ezbake_common_cpp.Common.{
  ◌≡◌, refl, ap, true, false, ◌||◌, List, [], ◌∷◌, if◌then◌else◌, Text, text_eq, text_eq_iff, arith,
  All, Bool-cases, inl, inr,
}
use ezbake_common_cpp.Security.Visibility.Grammar.RoundTrip.{print, IsWord}
use ezbake_common_cpp.Security.Visibility.Grammar.{Expr}
use ezbake_common_cpp.Security.Visibility.Markings.Replace.{
  words, rename, occurs, replaced, is_clear, replace_all-print, starts_with_self,
}
use ezbake_common_cpp.Security.Visibility.Markings.Documented.{IsBoost, starts_with}
use ezbake_common_cpp.Security.Visibility.Markings.{
  Boost, true_replace, false_replace, has_text, replace_markings,
}
use ezbake_common_cpp.Security.Visibility.Rename.{
  value, current, rename_cong, rename_twice, words-rename, All-map_words, All-every,
}

occurs_self : (m : Text) → IsWord m → occurs m m ≡ true
unfolding occurs starts_with
occurs_self [] h = absurd h
occurs_self (c ∷ m) h = ground (arith, starts_with_self (c ∷ m))

occurs_ne : (m u : Text) → IsWord m → occurs m u ≡ false → text_eq u m ≡ false
occurs_ne m u h absent = elim (Bool-cases (text_eq u m)) [
  | inl same ↦
      let e : u ≡ m = (text_eq_iff u m).0 same in absurd (cc (occurs_self m h, rw e at absent))
  | inr other ↦ other
]

module _ (auths : List Text) where
  value_clear :
      (m w : Text)
      → IsWord m
      → (occurs m true_replace || occurs m false_replace) ≡ false
      → (occurs m (value auths w) ≡ false) × (text_eq (value auths w) m ≡ false)
  value_clear m w h absent = elim (Bool-cases (has_text w auths)) [
    | inl there ↦
        let free : occurs m true_replace ≡ false = ground arith in
        rw there (free, occurs_ne m true_replace h free)
    | inr gone ↦
        let free : occurs m false_replace ≡ false = ground arith in
        rw gone (free, occurs_ne m false_replace h free)
  ]

  current_clear :
      (done : List Text) (m w : Text)
      → IsWord m
      → (occurs m true_replace || occurs m false_replace) ≡ false
      → is_clear m w ≡ true
      → is_clear m (current auths done w) ≡ true
  current_clear done m w h absent clear = elim (Bool-cases (has_text w done)) [
    | inl replaced_before ↦
        let (free, other) = value_clear m w h absent in rw replaced_before (ground arith)
    | inr kept ↦ rw kept clear
  ]

  replaced-current :
      (done : List Text) (m w : Text)
      → IsWord m
      → (occurs m true_replace || occurs m false_replace) ≡ false
      → replaced m (value auths m) (current auths done w) ≡ current auths (m ∷ done) w
  unfolding has_text
  replaced-current done m w h absent = elim (Bool-cases (has_text w done)) [
    | inl before ↦ let (free, other) = value_clear m w h absent in ground (arith, other)
    | inr kept ↦ elim (Bool-cases (text_eq w m)) [
      | inl same ↦
          let e : w ≡ m = (text_eq_iff w m).0 same in
          let back : text_eq m w ≡ true = ground (arith, text_eq_iff m w) in
          ground (arith, ap (value auths) e)
      | inr other ↦ ground (arith, text_eq_iff m w, text_eq_iff w m)
    ]
  ]

module _ (boost : Boost) (is_boost : IsBoost boost) (auths : List Text) where
  -- The loop over the markings replaces exactly the words that are among them.
  pub replace_markings-print :
      (ms done : List Text) (e : Expr)
      → All IsWord ms
      → All
          (λ m.
            All (λ w. is_clear m w ≡ true) (words e)
            × ((occurs m true_replace || occurs m false_replace) ≡ false))
          ms
      → replace_markings boost auths ms (print 0 (rename (current auths done) e))
        ≡ print 0 (rename (λ w. if has_text w ms || has_text w done then value auths w else w) e)
  unfolding replace_markings has_text
  replace_markings-print [] done e h clear = refl
  replace_markings-print (m ∷ ms) done e h clear =
      let here =
        replace_all-print boost is_boost m (value auths m) h.0 (rename (current auths done) e) (
          rw (words-rename (current auths done) e) (
            All-map_words (current auths done) (λ w. is_clear m w ≡ true) (λ w. is_clear m w ≡ true)
              (words e) (λ w k. current_clear auths done m w h.0 clear.0.1 k) clear.0.0)) in
      let twice = rename_twice (replaced m (value auths m)) (current auths done) e in
      let next =
        rename_cong (λ w. replaced m (value auths m) (current auths done w))
          (current auths (m ∷ done)) e
          (All-every
            (λ w. replaced m (value auths m) (current auths done w) ≡ current auths (m ∷ done) w)
            (words e) (λ w. replaced-current auths done m w h.0 clear.0.1)) in
      let rest = replace_markings-print ms (m ∷ done) e h.1 clear.1 in
      let final =
        rename_cong (λ w. if has_text w ms || has_text w (m ∷ done) then value auths w else w)
          (λ w. if has_text w (m ∷ ms) || has_text w done then value auths w else w) e
          (All-every
            (λ w.
              (if has_text w ms || has_text w (m ∷ done) then value auths w else w)
              ≡ (if has_text w (m ∷ ms) || has_text w done then value auths w else w))
            (words e) (λ w. ground arith)) in
      rw (here, twice, next, rest, final)
