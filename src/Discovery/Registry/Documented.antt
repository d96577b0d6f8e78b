-- ===== src/Discovery/Registry/Documented.antt =====
-- What ZooKeeper documents of the calls that the registry makes: the nodes form a tree.
use ezbake_common_cpp.Common.{
  ◌≡◌, ◌↔◌, Bool, true, false, not, ◌&&◌, ◌||◌, List, [], ◌∷◌, ◌++◌, if◌then◌else◌, Text, text_eq,
  text_eq_iff, arith, All,
}
use ezbake_common_cpp.Discovery.Paths.RoundTrip.{IsName, join}
use ezbake_common_cpp.Discovery.Registry.{ok_code, no_node, node_exists, ZooKeeper}

unfoldable pub names_eq : List Text → List Text → Bool
unfolding text_eq
names_eq [] [] = true
names_eq (a ∷ l) (b ∷ m) = text_eq a b && names_eq l m
names_eq _ _ = false

pub names_eq_iff : (l m : List Text) → (names_eq l m ≡ true) ↔ (l ≡ m)
unfolding names_eq
names_eq_iff (a ∷ l) (b ∷ m) = ground (arith, text_eq_iff a b, names_eq_iff l m)
names_eq_iff [] [] = ground arith
names_eq_iff [] (b ∷ m) = ground arith
names_eq_iff (a ∷ l) [] = ground arith

unfoldable pub is_in : Text → List Text → Bool
unfolding text_eq
is_in m [] = false
is_in m (n ∷ l) = text_eq n m || is_in m l

-- `node z p` says that the state has the node with the names `p` from the root. A node is made under
-- a node that is there, and made again it is left alone; a node without children can be removed.
pub record IsTree {Z : Type 0} (zk : ZooKeeper Z) : Type 0 where
  pub node : Z → List Text → Bool
  pub root : (z : Z) → node z [] ≡ true
  pub create_makes :
      (z : Z) (p : List Text) (m : Text)
      → All IsName (p ++ (m ∷ []))
      → node z p ≡ true
      → node z (p ++ (m ∷ [])) ≡ false
      → ((zk.create z (join (p ++ (m ∷ [])))).1 ≡ ok_code)
        × ((q : List Text)
            → node (zk.create z (join (p ++ (m ∷ [])))).0 q
              ≡ (names_eq q (p ++ (m ∷ [])) || node z q))
  pub create_keeps :
      (z : Z) (p : List Text) (m : Text)
      → All IsName (p ++ (m ∷ []))
      → node z (p ++ (m ∷ [])) ≡ true
      → ((zk.create z (join (p ++ (m ∷ [])))).1 ≡ node_exists)
        × ((q : List Text) → node (zk.create z (join (p ++ (m ∷ [])))).0 q ≡ node z q)
  pub remove_takes :
      (z : Z) (p : List Text) (m : Text)
      → All IsName (p ++ (m ∷ []))
      → ((k : Text) → node z ((p ++ (m ∷ [])) ++ (k ∷ [])) ≡ false)
      → (q : List Text)
      → node (zk.remove z (join (p ++ (m ∷ [])))).0 q
        ≡ (node z q && not (names_eq q (p ++ (m ∷ []))))
  pub exists_tells :
      (z : Z) (p : List Text) (m : Text)
      → All IsName (p ++ (m ∷ []))
      → zk.exists z (join (p ++ (m ∷ []))) ≡ (if node z (p ++ (m ∷ [])) then ok_code else no_node)
  pub children_are :
      (z : Z) (p : List Text)
      → All IsName p
      → node z p ≡ true
      → ((zk.get_children z (join p)).0 ≡ ok_code)
        × ((m : Text) → IsName m → is_in m (zk.get_children z (join p)).1 ≡ node z (p ++ (m ∷ [])))
