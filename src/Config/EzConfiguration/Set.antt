-- ===== src/Config/EzConfiguration/Set.antt =====
-- `get` after `set`.
use ezbake_common_cpp.Common.Dict.{lookup, lookup-insert, first_some}
use ezbake_common_cpp.Common.Result.{Exception, ok, throw}
use ezbake_common_cpp.Common.{
  ◌≡◌, ◌⊎◌, inl, inr, Bool, true, false, none, some, if◌then◌else◌, Text, text_eq, text_eq_iff,
  is_blank, arith, Bool-cases, Option-cases,
}
use ezbake_common_cpp.Config.EzConfiguration.{get, set}
use ezbake_common_cpp.Config.Parser.{Properties}

-- `set` of a key that is not blank succeeds where it should override or the key is new. Then a key
-- that had a value still has it, also the key set; the key set has the new value if it had none.
pub get-set :
    (p : Properties) (k v j : Text) (b : Bool)
    → is_blank k ≡ false
    → (b ≡ true) ⊎ (get p k ≡ none)
    → ((set p k v b).1 ≡ ok tt)
      × (get (set p k v b).0 j ≡ first_some (get p j) (if text_eq k j then some v else none))
unfolding get set
get-set p k v j b h c = (ground arith, ground (arith, lookup-insert k j v p, text_eq_iff k j))

-- Where `set` throws it changes nothing, and the key is blank, or it has a value and `set` should
-- not override.
set_throws :
    (p : Properties) (k v : Text) (b : Bool) (e : Exception)
    → (set p k v b).1 ≡ throw e
    → ((set p k v b).0 ≡ p)
      × ((is_blank k ≡ true) ⊎ ((b ≡ false) × ((w : Text) × (get p k ≡ some w))))
unfolding get set
set_throws p k v b e h = elim (Bool-cases (is_blank k)) [
  | inl blank ↦ (ground arith, inl blank)
  | inr named ↦ elim (Option-cases (lookup k p)) [
    | inl new ↦ absurd (ground arith)
    | inr (w, old) ↦ (ground arith, inr (ground arith, (w, ground arith)))
  ]
]
