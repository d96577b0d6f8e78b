-- ===== src/Discovery/Registry/Registered.antt =====
-- An endpoint that is registered is found.
use ezbake_common_cpp.Common.Result.{ok}
use ezbake_common_cpp.Common.{
  ◌≡◌, refl, ◌∙◌, true, false, ◌||◌, List, [], ◌∷◌, Text, text_eq, text_eq_iff, arith, All,
}
use ezbake_common_cpp.Discovery.Paths.{has_byte, validate_host_and_port}
use ezbake_common_cpp.Discovery.Paths.RoundTrip.{IsName, join, make_zk_path-join}
use ezbake_common_cpp.Discovery.Registry.Created.{is_between, create_path-join}
use ezbake_common_cpp.Discovery.Registry.Documented.{names_eq, is_in, IsTree}
use ezbake_common_cpp.Discovery.Registry.{
  ZooKeeper, ok_code, is_ok_or_none, endpoints_zk_path, check_path_exists, get_children,
  children_if_there, create_path, on_path, register_endpoint, get_endpoints,
}

module _ {Z : Type 0} (zk : ZooKeeper Z) (tree : IsTree zk) where
  -- The endpoints of a service whose node is there are the children of that node.
  get_endpoints-children :
      (z : Z) (app_name service_name : Text)
      → IsName app_name
      → IsName service_name
      → tree.node z (app_name ∷ service_name ∷ endpoints_zk_path ∷ []) ≡ true
      → (endpoints : List Text) × (get_endpoints zk z app_name service_name ≡ ok endpoints)
        × ((m : Text)
            → IsName m
            → is_in m endpoints
              ≡ tree.node z (app_name ∷ service_name ∷ endpoints_zk_path ∷ m ∷ []))
  unfolding get_endpoints children_if_there check_path_exists get_children is_ok_or_none has_byte
  get_endpoints-children z app_name service_name h k there =
      let names : List Text = app_name ∷ service_name ∷ endpoints_zk_path ∷ [] in
      let are_names : All IsName names = (h, (k, (refl, tt))) in
      let told : zk.exists z (join names) ≡ ok_code =
        tree.exists_tells z (app_name ∷ service_name ∷ []) endpoints_zk_path are_names ∙ rw there in
      let (code, children) = tree.children_are z names are_names there in
      (
        (zk.get_children z (join names)).1,
        rw (make_zk_path-join names are_names, told, code),
        children,
      )

  register_endpoint-create_path :
      (z : Z) (app_name service_name point : Text)
      → All IsName (app_name ∷ service_name ∷ endpoints_zk_path ∷ point ∷ [])
      → has_byte b':' point ≡ true
      → register_endpoint zk z app_name service_name point
        ≡ create_path zk z (join (app_name ∷ service_name ∷ endpoints_zk_path ∷ point ∷ []))
  unfolding register_endpoint validate_host_and_port
  register_endpoint-create_path z app_name service_name point are_names colon = rw (
    colon,
    validate_host_and_port,
    register_endpoint,
    make_zk_path-join (app_name ∷ service_name ∷ endpoints_zk_path ∷ point ∷ []) are_names,
    on_path,
  )

  -- Where ZooKeeper keeps a tree, names are not empty and have no delimiter, the endpoint has a colon,
  -- and its node has no children, `registerEndpoint` succeeds, and `getEndpoints` then returns the
  -- endpoint, and of the other names those of the nodes that were there before.
  pub get_endpoints-register_endpoint :
      (z : Z) (app_name service_name point : Text)
      → IsName app_name
      → IsName service_name
      → IsName point
      → has_byte b':' point ≡ true
      → ((k : Text)
          → tree.node z (app_name ∷ service_name ∷ endpoints_zk_path ∷ point ∷ k ∷ []) ≡ false)
      → ((register_endpoint zk z app_name service_name point).1 ≡ ok tt)
        × ((endpoints : List Text) × (get_endpoints zk
                (register_endpoint zk z app_name service_name point).0
                app_name
                service_name
              ≡ ok endpoints)
            × ((m : Text)
                → IsName m
                → is_in m endpoints ≡ (
                    text_eq m point
                    || tree.node z (app_name ∷ service_name ∷ endpoints_zk_path ∷ m ∷ []))))
  unfolding is_between names_eq has_byte
  get_endpoints-register_endpoint z app_name service_name point h k l colon leaf =
      let names : List Text = app_name ∷ service_name ∷ endpoints_zk_path ∷ point ∷ [] in
      let are_names : All IsName names = (h, (k, (refl, (l, tt)))) in
      let (done, nodes) =
        create_path-join zk tree z app_name (service_name ∷ endpoints_zk_path ∷ []) point are_names
          leaf in
      let made = register_endpoint-create_path z app_name service_name point are_names colon in
      let after : Z = (create_path zk z (join names)).0 in
      let parent : tree.node after (app_name ∷ service_name ∷ endpoints_zk_path ∷ []) ≡ true =
        nodes (app_name ∷ service_name ∷ endpoints_zk_path ∷ [])
        ∙ ground (
          arith,
          text_eq_iff app_name app_name,
          text_eq_iff service_name service_name,
          text_eq_iff endpoints_zk_path endpoints_zk_path,
        ) in
      let (endpoints, found, children) =
        get_endpoints-children after app_name service_name h k parent in
      (
        rw (made, done),
        (
          endpoints,
          rw made found,
          λ m is_name.
              children m is_name
              ∙ nodes (app_name ∷ service_name ∷ endpoints_zk_path ∷ m ∷ [])
              ∙ ground (
                arith,
                text_eq_iff app_name app_name,
                text_eq_iff service_name service_name,
                text_eq_iff endpoints_zk_path endpoints_zk_path,
              ),
        ),
      )
