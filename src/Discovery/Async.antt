-- ===== src/Discovery/Async.antt =====
-- `ServiceDiscoveryAsyncClient` of discovery/src/main/cpp/ServiceDiscoveryAsyncClient.cpp and the
-- callbacks of discovery/src/main/include/ezbake/ezdiscovery/ServiceDiscoveryCallbacks.h. A request to
-- ZooKeeper is an operation of `Async`; the reply is `none` where it could not be dispatched.
pub mod Process
pub mod Same
pub mod Created
use ezbake_common_cpp.Common.Async.{Async, crashed, raised, call, wait, answer}
use ezbake_common_cpp.Common.Result.{
  Result, ok, throw, hang, crash, out_of_range, service_discovery_exception,
}
use ezbake_common_cpp.Common.{
  ℕ, zero, suc, Bool, true, false, not, ◌&&◌, ◌||◌, ◌==◌, Option, none, some, List, [], ◌∷◌, ◌++◌,
  length, get_elem?, if◌then◌else◌, Text, text_eq, codes,
}
use ezbake_common_cpp.Discovery.Paths.{path_delim, make_zk_path, split_path, validate_host_and_port}
use ezbake_common_cpp.Discovery.Registry.{
  ReturnCode, is_ok_or_exists, is_ok_or_none, is_ok, first_node, just_service_app_name,
  endpoints_zk_path, security_zk_path, security_id_node,
}

pub data ZkOp : Type 0 where
  exists get_nodes create remove : Text → ZkOp

abbrev pub ZkReply : ZkOp → Type 0
ZkReply (exists path) = Option ReturnCode
ZkReply (get_nodes path) = Option (ReturnCode × List Text)
ZkReply (create path) = Option (ReturnCode × Text)
ZkReply (remove path) = Option ReturnCode

pub data CallbackResponse : Type 0 where
  ok_response error_response : CallbackResponse

abbrev pub Zk : Type 0 → Type 0
Zk A = Async ZkReply A

-- `process` of the base class, for each kind of request. After an error it goes on to the response
-- that reports none.
unfoldable pub process_exists : ReturnCode → Zk (CallbackResponse × Bool)
process_exists rc =
    let reported = answer (ok_response, is_ok rc) in
    if not (is_ok_or_none rc) then call (error_response, false) reported else reported

unfoldable pub process_children : ReturnCode → List Text → Zk (CallbackResponse × List Text)
process_children rc children =
    let reported = answer (ok_response, children) in
    if not (is_ok_or_none rc) then call (error_response, children) reported else reported

unfoldable pub process_created : ReturnCode → Zk CallbackResponse
process_created rc =
    let reported = answer ok_response in
    if not (is_ok_or_exists rc) then call error_response reported else reported

unfoldable pub process_removed : ReturnCode → Zk CallbackResponse
process_removed rc =
    let reported = answer ok_response in
    if not (is_ok_or_none rc) then call error_response reported else reported

-- `ServiceDiscoveryNodeCallback` passes on the first of the values.
unfoldable pub process_node : ReturnCode → List Text → Zk (CallbackResponse × Text)
unfolding first_node
process_node rc children =
    let reported = answer (ok_response, first_node children) in
    if not (is_ok_or_none rc) then call (error_response, first_node children) reported else reported

module _ {A : Type 0} where
  abbrev pub on_zk_path : Result Text → (Text → Zk A) → Zk A
  on_zk_path (ok path) f = f path
  on_zk_path (throw e) f = raised e
  on_zk_path hang f = crashed
  on_zk_path crash f = crashed

  unfoldable pub get_children : Text → (ReturnCode → List Text → Zk A) → Zk A
  get_children path process = wait (get_nodes path) (λ r. elim r [
    | none ↦ raised (
        service_discovery_exception
          (codes "Error in getting nodes. ZK error: error in dispatching request"))
    | some (rc, children) ↦ process rc children
  ])

unfoldable pub check_path_exists : Text → Zk (CallbackResponse × Bool)
unfolding process_exists
check_path_exists path = wait (exists path) (λ r. elim r [
  | none ↦ raised (
      service_discovery_exception
        (codes "Error in checking path existence. ZK error: error in dispatching request"))
  | some rc ↦ process_exists rc
])

-- `path.find("//", 1) != npos`
unfoldable pub has_double_delim : Text → Bool
has_double_delim [] = false
has_double_delim (c ∷ []) = false
has_double_delim (c ∷ d ∷ s) = (c == path_delim && d == path_delim) || has_double_delim (d ∷ s)

unfoldable pub has_empty_node : Text → Bool
unfolding has_double_delim
has_empty_node [] = false
has_empty_node (c ∷ s) = has_double_delim s

-- `principal.find(created) == 0`
unfoldable pub is_prefix : Text → Text → Bool
is_prefix [] s = true
is_prefix (c ∷ p) [] = false
is_prefix (c ∷ p) (d ∷ s) = c == d && is_prefix p s

-- `CreatePathDelegate::process`; `create_next` makes the node with that path.
unfoldable pub process_create :
    (principal_path : Text)
    → (create_next : Text → Zk CallbackResponse) → (path_requested : Text) → ReturnCode
    → (path_created : Text) → Zk CallbackResponse
unfolding split_path is_prefix
process_create principal_path create_next path_requested rc path_created =
    if not (is_ok_or_exists rc)
    then answer error_response
    else if text_eq path_created principal_path
    then answer ok_response
    else if is_ok rc && not (text_eq path_created path_requested)
    then answer error_response
    else if is_ok rc && not (is_prefix path_created principal_path)
    then answer error_response
    else elim (get_elem? (split_path principal_path) (length (split_path path_requested))) [
      | none ↦ raised (out_of_range (codes "vector::at"))
      | some next_node ↦ create_next (path_requested ++ (path_delim ∷ next_node))
    ]

-- `CreatePathDelegate::createPath(path)`, with the callbacks that follow it; each makes one node more.
unfoldable pub create_node : (fuel : ℕ) (principal_path path : Text) → Zk CallbackResponse
unfolding process_create
create_node zero principal_path path = crashed
create_node (suc fuel) principal_path path = wait (create path) (λ r. elim r [
  | none ↦ answer error_response
  | some (rc, path_created) ↦
      process_create principal_path (λ next. create_node fuel principal_path next) path rc
        path_created
])

-- The node is removed first, and the outcome of that is dropped.
unfoldable pub create_path : Text → Zk CallbackResponse
create_path path = wait (remove path) (λ r.
    if has_empty_node path
    then raised (service_discovery_exception (codes "Invalid path: " ++ path))
    else elim (split_path path) [
      | [] ↦ answer error_response
      | node ∷ nodes ↦ create_node (suc (length nodes)) path (path_delim ∷ node)
    ])

unfoldable pub register_endpoint : Text → Text → Text → Zk CallbackResponse
unfolding create_path validate_host_and_port make_zk_path
register_endpoint app_name service_name point = elim (validate_host_and_port point) [
  | ok u ↦
      on_zk_path (make_zk_path (app_name ∷ service_name ∷ endpoints_zk_path ∷ point ∷ []))
        create_path
  | throw e ↦ raised e
  | hang ↦ crashed
  | crash ↦ crashed
]

unfoldable pub register_common_endpoint : Text → Text → Zk CallbackResponse
unfolding register_endpoint
register_common_endpoint service_name point =
    register_endpoint just_service_app_name service_name point

unfoldable pub unregister_endpoint : Text → Text → Text → Zk CallbackResponse
unfolding process_removed make_zk_path
unregister_endpoint app_name service_name point =
    on_zk_path (make_zk_path (app_name ∷ service_name ∷ endpoints_zk_path ∷ point ∷ [])) (λ path.
      wait (remove path) (λ r. elim r [
        | none ↦ raised (
            service_discovery_exception
              (codes "Error in unregistering endpoint. ZK error: error in dispatching request"))
        | some rc ↦ process_removed rc
      ]))

unfoldable pub unregister_common_endpoint : Text → Text → Zk CallbackResponse
unfolding unregister_endpoint
unregister_common_endpoint service_name point =
    unregister_endpoint just_service_app_name service_name point

unfoldable pub get_applications : Zk (CallbackResponse × List Text)
unfolding get_children process_children
get_applications = get_children [] process_children

unfoldable pub get_services : Text → Zk (CallbackResponse × List Text)
unfolding get_children process_children make_zk_path
get_services app_name =
    on_zk_path (make_zk_path (app_name ∷ [])) (λ path. get_children path process_children)

unfoldable pub get_common_services : Zk (CallbackResponse × List Text)
unfolding get_services
get_common_services = get_services just_service_app_name

unfoldable pub get_endpoints : Text → Text → Zk (CallbackResponse × List Text)
unfolding get_children process_children make_zk_path
get_endpoints app_name service_name =
    on_zk_path (make_zk_path (app_name ∷ service_name ∷ endpoints_zk_path ∷ []))
      (λ path. get_children path process_children)

unfoldable pub get_common_endpoints : Text → Zk (CallbackResponse × List Text)
unfolding get_endpoints
get_common_endpoints service_name = get_endpoints just_service_app_name service_name

unfoldable pub set_security_id_for_application : Text → Text → Zk CallbackResponse
unfolding create_path make_zk_path
set_security_id_for_application application_name security_id =
    on_zk_path
      (make_zk_path (application_name ∷ security_zk_path ∷ security_id_node ∷ security_id ∷ []))
      create_path

unfoldable pub set_security_id_for_common_service : Text → Text → Zk CallbackResponse
unfolding create_path make_zk_path
set_security_id_for_common_service service_name security_id =
    on_zk_path
      (make_zk_path (
        just_service_app_name ∷ service_name ∷ security_zk_path ∷ security_id_node ∷ security_id
        ∷ []))
      create_path

unfoldable pub get_security_id_for_application : Text → Zk (CallbackResponse × Text)
unfolding get_children process_node make_zk_path
get_security_id_for_application application_name =
    on_zk_path (make_zk_path (application_name ∷ security_zk_path ∷ security_id_node ∷ []))
      (λ path. get_children path process_node)

unfoldable pub get_security_id_for_common_service : Text → Zk (CallbackResponse × Text)
unfolding get_children process_node make_zk_path
get_security_id_for_common_service service_name =
    on_zk_path
      (make_zk_path
        (just_service_app_name ∷ service_name ∷ security_zk_path ∷ security_id_node ∷ []))
      (λ path. get_children path process_node)

unfoldable pub is_service_common : Text → Zk (CallbackResponse × Bool)
unfolding check_path_exists make_zk_path
is_service_common service_name =
    on_zk_path (make_zk_path (just_service_app_name ∷ service_name ∷ [])) check_path_exists
