-- ===== src/Discovery/Registry/Created.antt =====
-- `createPath` makes the node and the nodes above it.
use mathlib.Core.List.{append-nil, append_assoc}
use ezbake_common_cpp.Common.Result.{ok}
use ezbake_common_cpp.Common.{
  ◌+◌, ◌<◌, ◌≡◌, refl, ◌∙◌, Bool, true, false, ◌||◌, List, [], ◌∷◌, ◌++◌, Text, arith, length,
  length-append, All, All-append, Bool-cases, inl, inr,
}
use ezbake_common_cpp.Discovery.Paths.{path_delim}
use ezbake_common_cpp.Discovery.Paths.RoundTrip.{IsName, join, split_path-join}
use ezbake_common_cpp.Discovery.Registry.Documented.{names_eq, names_eq_iff, IsTree}
use ezbake_common_cpp.Discovery.Registry.{
  ZooKeeper, is_ok_or_exists, is_ok, create_parents, create_path,
}

pub join-append : (p : List Text) (m : Text) → join (p ++ (m ∷ [])) ≡ join p ++ (path_delim ∷ m)
unfolding join
join-append [] m = rw (append-nil m)
join-append (n ∷ p) m = rw (join-append p m, append_assoc n (join p) (path_delim ∷ m))

-- The nodes strictly between `p` and `p` followed by all the names.
unfoldable pub is_between : List Text → List Text → List Text → Bool
unfolding names_eq
is_between p [] q = false
is_between p (n ∷ []) q = false
is_between p (n ∷ m ∷ names) q =
    names_eq q (p ++ (n ∷ [])) || is_between (p ++ (n ∷ [])) (m ∷ names) q

is_between-length :
    (p names q : List Text) → is_between p names q ≡ true → length q < length p + length names
unfolding is_between
is_between-length p [] q h = cc
is_between-length p (n ∷ []) q h = cc
is_between-length p (n ∷ m ∷ names) q h = elim (Bool-cases (names_eq q (p ++ (n ∷ [])))) [
  | inl same ↦
      let e : q ≡ p ++ (n ∷ []) = (names_eq_iff q (p ++ (n ∷ []))).0 same in
      rw e (omega (arith, length-append p (n ∷ [])))
  | inr other ↦
      let later = is_between-length (p ++ (n ∷ [])) (m ∷ names) q (ground arith) in
      omega (arith, length-append p (n ∷ []))
]

is_between-parent :
    (p : List Text) (n : Text) (names : List Text) (m : Text)
    → is_between p ((n ∷ names) ++ (m ∷ [])) (p ++ (n ∷ names)) ≡ true
unfolding is_between
is_between-parent p n [] m = ground (arith, names_eq_iff (p ++ (n ∷ [])) (p ++ (n ∷ [])))
is_between-parent p n (k ∷ names) m =
    let later = is_between-parent (p ++ (n ∷ [])) k names m in
    let same : (p ++ (n ∷ [])) ++ (k ∷ names) ≡ p ++ (n ∷ k ∷ names) =
      append_assoc p (n ∷ []) (k ∷ names) in
    ground (arith, rw same at later)

module _ {Z : Type 0} (zk : ZooKeeper Z) (tree : IsTree zk) where
  -- Making a node under a node that is there: it is there afterwards, and nothing else changes.
  create_ensures :
      (z : Z) (p : List Text) (m : Text)
      → All IsName (p ++ (m ∷ []))
      → tree.node z p ≡ true
      → (is_ok_or_exists (zk.create z (join (p ++ (m ∷ [])))).1 ≡ true)
        × ((q : List Text)
            → tree.node (zk.create z (join (p ++ (m ∷ [])))).0 q
              ≡ (names_eq q (p ++ (m ∷ [])) || tree.node z q))
  unfolding is_ok_or_exists
  create_ensures z p m h there = elim (Bool-cases (tree.node z (p ++ (m ∷ [])))) [
    | inr gone ↦ let (made, nodes) = tree.create_makes z p m h there gone in (rw made, nodes)
    | inl old ↦
        let (kept, nodes) = tree.create_keeps z p m h old in
        (
          rw kept,
          λ q. nodes q ∙ elim (Bool-cases (names_eq q (p ++ (m ∷ [])))) [
            | inl same ↦
                let e : q ≡ p ++ (m ∷ []) = (names_eq_iff q (p ++ (m ∷ []))).0 same in
                rw (same, e, old)
            | inr other ↦ rw other
          ],
        )
  ]

  create_parents-is_between :
      (z : Z) (p : List Text) (n : Text) (names : List Text)
      → All IsName p
      → All IsName (n ∷ names)
      → tree.node z p ≡ true
      → ((create_parents zk z (join p) (n ∷ names)).1 ≡ ok tt)
        × ((q : List Text)
            → tree.node (create_parents zk z (join p) (n ∷ names)).0 q
              ≡ (is_between p (n ∷ names) q || tree.node z q))
  unfolding create_parents is_between
  create_parents-is_between z p n [] h k there = (refl, λ q. refl)
  create_parents-is_between z p n (m ∷ names) h k there =
      let longer = All-append IsName p (n ∷ []) h (k.0, tt) in
      let (fine, nodes) = create_ensures z p n longer there in
      let here : tree.node (zk.create z (join (p ++ (n ∷ [])))).0 (p ++ (n ∷ [])) ≡ true =
        nodes (p ++ (n ∷ [])) ∙ ground (arith, names_eq_iff (p ++ (n ∷ [])) (p ++ (n ∷ []))) in
      let (done, rest) =
        create_parents-is_between (zk.create z (join (p ++ (n ∷ [])))).0 (p ++ (n ∷ [])) m names
          longer k.1 here in
      let e = join-append p n in
      (
        rw (rw e at fine, rw e at done),
        λ q. rw (rw e at fine) (rw e at (rest q) ∙ ground (arith, rw e at (nodes q))),
      )

  -- Where a node has no children, `createPath` succeeds; the node and the nodes above it are there
  -- afterwards, and nothing else changes.
  pub create_path-join :
      (z : Z) (n : Text) (names : List Text) (m : Text)
      → All IsName ((n ∷ names) ++ (m ∷ []))
      → ((k : Text) → tree.node z (((n ∷ names) ++ (m ∷ [])) ++ (k ∷ [])) ≡ false)
      → ((create_path zk z (join ((n ∷ names) ++ (m ∷ [])))).1 ≡ ok tt)
        × ((q : List Text)
            → tree.node (create_path zk z (join ((n ∷ names) ++ (m ∷ [])))).0 q ≡ (
                names_eq q ((n ∷ names) ++ (m ∷ []))
                || (is_between [] ((n ∷ names) ++ (m ∷ [])) q || tree.node z q)))
  unfolding create_path is_ok join
  create_path-join z n names m h leaf =
      let path : List Text = (n ∷ names) ++ (m ∷ []) in
      let removed : Z = (zk.remove z (join path)).0 in
      let gone = tree.remove_takes z (n ∷ names) m h leaf in
      let (done, above) =
        create_parents-is_between removed [] n (names ++ (m ∷ [])) tt h (tree.root removed) in
      let parents : Z = (create_parents zk removed [] path).0 in
      let there : tree.node parents (n ∷ names) ≡ true =
        above (n ∷ names) ∙ ground (arith, is_between-parent [] n names m) in
      let self : names_eq path path ≡ true = (names_eq_iff path path).1 refl in
      let shorter : is_between [] path path ≡ false = elim (Bool-cases (is_between [] path path)) [
        | inl yes_it_is ↦ absurd (omega (arith, is_between-length [] path path yes_it_is))
        | inr between_not ↦ between_not
      ] in
      let free : tree.node parents path ≡ false =
        above path ∙ ground (arith, shorter, gone path, self) in
      let (made, nodes) = tree.create_makes parents (n ∷ names) m h there free in
      let pieces = split_path-join path h in
      (
        rw (pieces, done, create_path, pieces, made),
        λ q. rw (pieces, done, create_path, pieces) (nodes q ∙ ground (arith, above q, gone q)),
      )
