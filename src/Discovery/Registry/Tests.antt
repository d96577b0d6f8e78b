-- ===== src/Discovery/Registry/Tests.antt =====
-- The theorems on the registry at a concrete one.
use ezbake_common_cpp.Common.Async.{run}
use ezbake_common_cpp.Common.Result.{ok}
use ezbake_common_cpp.Common.{◌≡◌, refl, ◌||◌, List, [], ◌∷◌, Text, codes, text_eq}
use ezbake_common_cpp.Discovery.Async
use ezbake_common_cpp.Discovery.Async.Created.{register_endpoint-Agrees, get_endpoints_calls}
use ezbake_common_cpp.Discovery.Async.Same.{zk_step, Agrees}
use ezbake_common_cpp.Discovery.Paths.RoundTrip.{IsName, join, split_path-make_zk_path}
use ezbake_common_cpp.Discovery.Paths.{make_zk_path, split_path, has_byte}
use ezbake_common_cpp.Discovery.Registry.Documented.{is_in, names_eq}
use ezbake_common_cpp.Discovery.Registry.Registered.{get_endpoints-register_endpoint}
use ezbake_common_cpp.Discovery.Registry.Sample.{Nodes, has_node, zk, zk-IsTree}
use ezbake_common_cpp.Discovery.Registry.{
  register_endpoint, get_endpoints, is_ok_or_none, endpoints_zk_path,
}

split_path-make_zk_path_example :
    (path : Text) × (make_zk_path (codes "a" ∷ codes "bc" ∷ []) ≡ ok path)
    × (split_path path ≡ codes "a" ∷ codes "bc" ∷ [])
unfolding has_byte
split_path-make_zk_path_example =
    split_path-make_zk_path (codes "a" ∷ codes "bc" ∷ []) (refl, (refl, tt))

-- One service with one endpoint.
abbrev nodes : Nodes
nodes =
    (codes "a" ∷ [])
    ∷ (codes "a" ∷ codes "s" ∷ [])
    ∷ (codes "a" ∷ codes "s" ∷ endpoints_zk_path ∷ [])
    ∷ (codes "a" ∷ codes "s" ∷ endpoints_zk_path ∷ codes "h:1" ∷ [])
    ∷ []

get_endpoints-register_endpoint_example :
    ((register_endpoint zk nodes (codes "a") (codes "s") (codes "h:2")).1 ≡ ok tt)
    × ((endpoints : List Text) × (get_endpoints zk
            (register_endpoint zk nodes (codes "a") (codes "s") (codes "h:2")).0
            (codes "a")
            (codes "s")
          ≡ ok endpoints)
        × ((m : Text)
            → IsName m
            → is_in m endpoints ≡ (
                text_eq m (codes "h:2")
                || has_node nodes (codes "a" ∷ codes "s" ∷ endpoints_zk_path ∷ m ∷ []))))
unfolding has_byte has_node names_eq zk-IsTree
get_endpoints-register_endpoint_example =
    get_endpoints-register_endpoint zk zk-IsTree nodes (codes "a") (codes "s") (codes "h:2") refl
      refl refl refl (λ k. refl)

register_endpoint-Agrees_example :
    Agrees
      (run (zk_step zk) (Async.register_endpoint (codes "a") (codes "s") (codes "h:2")) nodes)
      (register_endpoint zk nodes (codes "a") (codes "s") (codes "h:2"))
unfolding has_byte
register_endpoint-Agrees_example =
    register_endpoint-Agrees zk (codes "a") (codes "s") (codes "h:2") nodes
      (refl, (refl, (refl, (refl, tt))))

get_endpoints_calls_example :
    (run (zk_step zk) (Async.get_endpoints (codes "a") (codes "s")) nodes).calls
    ≡ (Async.ok_response, codes "h:1" ∷ []) ∷ []
unfolding has_byte is_ok_or_none zk join
get_endpoints_calls_example =
    get_endpoints_calls zk (codes "a") (codes "s") nodes (refl, (refl, (refl, tt)))
