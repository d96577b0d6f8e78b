-- ===== src/Discovery/Registry.antt =====
-- `ServiceDiscoverySyncClient` of discovery/src/main/cpp/ServiceDiscoverySyncClient.cpp, over an
-- interface for the ZooKeeper client: a state, and the calls that the code makes of it.
pub mod Documented
pub mod Created
pub mod Registered
mod Sample
mod Tests
use ezbake_common_cpp.Common.Result.{
  Result, ok, throw, hang, crash, out_of_range, service_discovery_exception, ◌>>=◌,
}
use ezbake_common_cpp.Common.{
  ℕ, Bool, true, false, not, List, [], ◌∷◌, ◌++◌, if◌then◌else◌, Text, codes,
}
use ezbake_common_cpp.Discovery.Paths.{path_delim, make_zk_path, split_path, validate_host_and_port}

pub data ReturnCode : Type 0 where
  ok_code no_node node_exists : ReturnCode
  other_code : ℕ → ReturnCode

pub record ZooKeeper (Z : Type 0) : Type 0 where
  pub create : Z → Text → Z × ReturnCode
  pub remove : Z → Text → Z × ReturnCode
  pub exists : Z → Text → ReturnCode
  pub get_children : Z → Text → ReturnCode × List Text
  -- `ss << response`
  pub code_text : ReturnCode → Text

abbrev pub just_service_app_name : Text
just_service_app_name = codes "common_services"

abbrev pub endpoints_zk_path : Text
endpoints_zk_path = codes "endpoints"

abbrev pub security_zk_path : Text
security_zk_path = codes "security"

abbrev pub security_id_node : Text
security_id_node = codes "security_id"

-- `response != Ok && response != NodeExists`, turned round.
unfoldable pub is_ok_or_exists : ReturnCode → Bool
is_ok_or_exists ok_code = true
is_ok_or_exists node_exists = true
is_ok_or_exists no_node = false
is_ok_or_exists (other_code n) = false

-- `response != Ok && response != NoNode`, turned round.
unfoldable pub is_ok_or_none : ReturnCode → Bool
is_ok_or_none ok_code = true
is_ok_or_none no_node = true
is_ok_or_none node_exists = false
is_ok_or_none (other_code n) = false

unfoldable pub is_ok : ReturnCode → Bool
is_ok ok_code = true
is_ok no_node = false
is_ok node_exists = false
is_ok (other_code n) = false

-- `nodes.size() ? nodes.at(0) : ""`
unfoldable pub first_node : List Text → Text
first_node [] = []
first_node (node ∷ nodes) = node

module _ {Z : Type 0} (zk : ZooKeeper Z) where
  unfoldable pub check_path_exists : Z → Text → Result Bool
  unfolding is_ok_or_none
  check_path_exists z path =
      if not (is_ok_or_none (zk.exists z path))
      then throw (
          service_discovery_exception (
            codes "Error in checking path existence. ZK error: "
            ++ zk.code_text (zk.exists z path)))
      else elim (zk.exists z path) [ no_node ↦ ok false | _ ↦ ok true ]

  unfoldable pub get_children : Z → Text → Result (List Text)
  unfolding is_ok_or_none
  get_children z path =
      let (response, children) = zk.get_children z path in
      if not (is_ok_or_none response)
      then throw (
          service_discovery_exception
            (codes "Error in getting children. ZK error: " ++ zk.code_text response))
      else ok children

  -- The loop of `createPath` over all pieces but the last, with the path made so far.
  unfoldable pub create_parents : Z → Text → List Text → Z × Result (Unit {0})
  unfolding is_ok_or_exists
  create_parents z path_to_create [] = (z, throw (out_of_range (codes "vector::at")))
  create_parents z path_to_create (piece ∷ []) = (z, ok tt)
  create_parents z path_to_create (piece ∷ next ∷ pieces) =
      let path = path_to_create ++ (path_delim ∷ piece) in
      let (after, response) = zk.create z path in
      let rest = create_parents after path (next ∷ pieces) in
      if not (is_ok_or_exists response)
      then (
        after,
        throw (
            service_discovery_exception (
              codes "Error in creating parents for node: "
              ++ (path ++ (codes " ZK error: " ++ zk.code_text response)))),
      )
      else rest

  unfoldable pub create_path : Z → Text → Z × Result (Unit {0})
  unfolding create_parents split_path is_ok
  create_path z path =
      let removed = (zk.remove z path).0 in
      let (parents, outcome) = create_parents removed [] (split_path path) in
      elim outcome [
        | ok u ↦
            let (after, response) = zk.create parents path in
            (
              after,
              if not (is_ok response)
                  then throw (
                      service_discovery_exception (
                        codes "Error in creating node: "
                        ++ (path ++ (codes " ZK error: " ++ zk.code_text response))))
                  else ok tt,
            )
        | other ↦ (parents, other)
      ]

  -- A path is made first; where that throws, nothing is done.
  abbrev pub on_path : {A : Type 0} → Z → List Text → (Text → Z × Result A) → Z × Result A
  on_path z pieces f = elim (make_zk_path pieces) [
    | ok path ↦ f path
    | throw e ↦ (z, throw e)
    | hang ↦ (z, hang)
    | crash ↦ (z, crash)
  ]

  unfoldable pub register_endpoint : Z → Text → Text → Text → Z × Result (Unit {0})
  unfolding create_path validate_host_and_port make_zk_path
  register_endpoint z app_name service_name point = elim (validate_host_and_port point) [
    | ok u ↦ on_path z (app_name ∷ service_name ∷ endpoints_zk_path ∷ point ∷ []) (create_path z)
    | other ↦ (z, other)
  ]

  unfoldable pub register_common_endpoint : Z → Text → Text → Z × Result (Unit {0})
  unfolding register_endpoint
  register_common_endpoint z service_name point =
      register_endpoint z just_service_app_name service_name point

  unfoldable pub unregister_endpoint : Z → Text → Text → Text → Z × Result (Unit {0})
  unfolding is_ok_or_none make_zk_path
  unregister_endpoint z app_name service_name point =
      on_path z (app_name ∷ service_name ∷ endpoints_zk_path ∷ point ∷ []) (λ path.
        let (after, response) = zk.remove z path in
        (
          after,
          if not (is_ok_or_none response)
              then throw
                  (service_discovery_exception (codes "Error in unregistering endpoint: " ++ path))
              else ok tt,
        ))

  unfoldable pub unregister_common_endpoint : Z → Text → Text → Z × Result (Unit {0})
  unfolding unregister_endpoint
  unregister_common_endpoint z service_name point =
      unregister_endpoint z just_service_app_name service_name point

  unfoldable pub get_applications : Z → Result (List Text)
  unfolding get_children
  get_applications z = get_children z []

  -- `checkPathExists(path) ? getChildren(path) : services`
  unfoldable pub children_if_there : Z → Text → Result (List Text)
  unfolding check_path_exists get_children
  children_if_there z path = do
    there ← check_path_exists z path
    (if there then get_children z path else ok [])

  unfoldable pub get_services : Z → Text → Result (List Text)
  unfolding children_if_there make_zk_path
  get_services z app_name = make_zk_path (app_name ∷ []) >>= λ path. children_if_there z path

  unfoldable pub get_common_services : Z → Result (List Text)
  unfolding get_services
  get_common_services z = get_services z just_service_app_name

  unfoldable pub get_endpoints : Z → Text → Text → Result (List Text)
  unfolding children_if_there make_zk_path
  get_endpoints z app_name service_name =
      make_zk_path (app_name ∷ service_name ∷ endpoints_zk_path ∷ []) >>= λ path.
      children_if_there z path

  unfoldable pub get_common_endpoints : Z → Text → Result (List Text)
  unfolding get_endpoints
  get_common_endpoints z service_name = get_endpoints z just_service_app_name service_name

  unfoldable pub set_security_id_for_application : Z → Text → Text → Z × Result (Unit {0})
  unfolding create_path make_zk_path
  set_security_id_for_application z application_name security_id =
      on_path z (application_name ∷ security_zk_path ∷ security_id_node ∷ security_id ∷ [])
        (create_path z)

  unfoldable pub set_security_id_for_common_service : Z → Text → Text → Z × Result (Unit {0})
  unfolding create_path make_zk_path
  set_security_id_for_common_service z service_name security_id =
      on_path z
        (just_service_app_name ∷ service_name ∷ security_zk_path ∷ security_id_node ∷ security_id
          ∷ [])
        (create_path z)

  unfoldable pub get_security_id_for_application : Z → Text → Result Text
  unfolding get_children make_zk_path first_node
  get_security_id_for_application z application_name =
      make_zk_path (application_name ∷ security_zk_path ∷ security_id_node ∷ []) >>= λ path.
      get_children z path >>= λ nodes. ok (first_node nodes)

  unfoldable pub get_security_id_for_common_service : Z → Text → Result Text
  unfolding get_children make_zk_path first_node
  get_security_id_for_common_service z service_name =
      make_zk_path (just_service_app_name ∷ service_name ∷ security_zk_path ∷ security_id_node ∷ [])
      >>= λ path. get_children z path >>= λ nodes. ok (first_node nodes)

  unfoldable pub is_service_common : Z → Text → Result Bool
  unfolding check_path_exists make_zk_path
  is_service_common z service_name =
      make_zk_path (just_service_app_name ∷ service_name ∷ []) >>= λ path. check_path_exists z path
