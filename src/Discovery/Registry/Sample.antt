-- ===== src/Discovery/Registry/Sample.antt =====
-- A concrete ZooKeeper for the tests: the list of its nodes, each with its names from the root. It
-- does not look for children when a node is removed, or for the parent when one is made.
use ezbake_common_cpp.Common.{
  ◌≡◌, refl, Bool, true, false, not, ◌&&◌, ◌||◌, Option, none, some, List, [], ◌∷◌, ◌++◌,
  if◌then◌else◌, Text, text_eq, text_eq_iff, arith, Option-cases, inl, inr,
}
use ezbake_common_cpp.Discovery.Paths.{split_path}
use ezbake_common_cpp.Discovery.Paths.RoundTrip.{split_path-join}
use ezbake_common_cpp.Discovery.Registry.Documented.{names_eq, names_eq_iff, is_in, IsTree}
use ezbake_common_cpp.Discovery.Registry.{ZooKeeper, ok_code, no_node, node_exists}

abbrev pub Nodes : Type 0
Nodes = List (List Text)

unfoldable pub has_names : List Text → Nodes → Bool
unfolding names_eq
has_names q [] = false
has_names q (r ∷ z) = names_eq q r || has_names q z

abbrev pub is_root : List Text → Bool
is_root [] = true
is_root (n ∷ q) = false

unfoldable pub has_node : Nodes → List Text → Bool
unfolding has_names
has_node z q = is_root q || has_names q z

unfoldable pub delete : List Text → Nodes → Nodes
unfolding names_eq
delete p [] = []
delete p (r ∷ z) = let rest = delete p z in if names_eq r p then rest else r ∷ rest

-- The last name of a child of `p`.
unfoldable pub child : List Text → List Text → Option Text
child [] (m ∷ []) = some m
child (n ∷ p) (k ∷ q) = if text_eq k n then child p q else none
child _ _ = none

unfoldable pub children : List Text → Nodes → List Text
unfolding child
children p [] = []
children p (r ∷ z) = let rest = children p z in elim (child p r) [ none ↦ rest | some m ↦ m ∷ rest ]

unfoldable pub zk : ZooKeeper Nodes
unfolding has_node delete children split_path
zk = record {
  create = λ z path.
      if has_node z (split_path path) then (z, node_exists) else (split_path path ∷ z, ok_code);
  remove = λ z path. (delete (split_path path) z, ok_code);
  exists = λ z path. if has_node z (split_path path) then ok_code else no_node;
  get_children = λ z path. (ok_code, children (split_path path) z);
  code_text = λ code. [];
}

pub has_names-delete :
    (p q : List Text) (z : Nodes) → has_names q (delete p z) ≡ (has_names q z && not (names_eq q p))
unfolding has_names delete
has_names-delete p q [] = refl
has_names-delete p q (r ∷ z) =
    ground (arith, has_names-delete p q z, names_eq_iff q r, names_eq_iff r p, names_eq_iff q p)

pub not_root : (p : List Text) (m : Text) → is_root (p ++ (m ∷ [])) ≡ false
not_root [] m = refl
not_root (n ∷ p) m = refl

pub root_only : (p q : List Text) (m : Text) → is_root q ≡ true → names_eq q (p ++ (m ∷ [])) ≡ false
unfolding names_eq
root_only [] [] m h = refl
root_only (n ∷ p) [] m h = refl
root_only p (k ∷ q) m h = cc

child-names_eq :
    (p r : List Text) (m : Text)
    → names_eq (p ++ (m ∷ [])) r ≡ (elim (child p r) [ none ↦ false | some k ↦ text_eq k m ])
unfolding child names_eq
child-names_eq [] [] m = refl
child-names_eq [] (k ∷ []) m = ground (arith, text_eq_iff m k, text_eq_iff k m)
child-names_eq [] (k ∷ l ∷ r) m = ground arith
child-names_eq (n ∷ p) [] m = refl
child-names_eq (n ∷ p) (k ∷ r) m =
    ground (arith, child-names_eq p r m, text_eq_iff n k, text_eq_iff k n)

pub is_in-children :
    (p : List Text) (z : Nodes) (m : Text) → is_in m (children p z) ≡ has_names (p ++ (m ∷ [])) z
unfolding is_in children has_names
is_in-children p [] m = refl
is_in-children p (r ∷ z) m = elim (Option-cases (child p r)) [
  | inl other ↦ rw (other, children, is_in-children p z m, child-names_eq p r m, other)
  | inr (k, found) ↦ rw (found, children, is_in-children p z m, child-names_eq p r m, found)
]

unfoldable pub zk-IsTree : IsTree zk
unfolding zk has_node has_names
zk-IsTree = record {
  node = has_node;
  root = λ z. refl;
  create_makes = λ z p m h there gone. (
    rw (split_path-join (p ++ (m ∷ [])) h, gone),
    λ q. rw (split_path-join (p ++ (m ∷ [])) h, gone) (ground arith),
  );
  create_keeps = λ z p m h there. (
    rw (split_path-join (p ++ (m ∷ [])) h, there),
    λ q. rw (split_path-join (p ++ (m ∷ [])) h, there),
  );
  remove_takes = λ z p m h leaf q.
      rw (split_path-join (p ++ (m ∷ [])) h, has_names-delete (p ++ (m ∷ [])) q z)
        (ground (arith, root_only p q m));
  exists_tells = λ z p m h. rw (split_path-join (p ++ (m ∷ [])) h);
  children_are = λ z p h there.
      (refl, λ m is_name. rw (split_path-join p h, is_in-children p z m, not_root p m));
}
