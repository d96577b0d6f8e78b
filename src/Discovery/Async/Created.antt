-- ===== src/Discovery/Async/Created.antt =====
-- `createPath` and `registerEndpoint` of the asynchronous client against those of the other.
use mathlib.Core.List.{append-nil}
use ezbake_common_cpp.Common.Async.{raised, run}
use ezbake_common_cpp.Common.Result.{Exception, throw, service_discovery_exception}
use ezbake_common_cpp.Common.{
  ℕ, ◌≡◌, refl, ◌∙◌, ap, Bool-cases, inl, inr, true, false, ◌==◌, if◌then◌else◌, List, [], ◌∷◌,
  ◌++◌, suc, length, Text, codes, arith, All,
}
use ezbake_common_cpp.Discovery.Async
use ezbake_common_cpp.Discovery.Async.Same.{zk_step, Agrees, made, create_node_lem}
use ezbake_common_cpp.Discovery.Async.{
  CallbackResponse, ok_response, error_response, has_double_delim, has_empty_node, create_node,
}
use ezbake_common_cpp.Discovery.Paths.{path_delim, has_byte, validate_host_and_port}
use ezbake_common_cpp.Discovery.Paths.RoundTrip.{IsName, join, split_path-join, make_zk_path-join}
use ezbake_common_cpp.Discovery.Registry
use ezbake_common_cpp.Discovery.Registry.{
  ZooKeeper, is_ok_or_none, create_parents, just_service_app_name, endpoints_zk_path,
}

has_double_delim-step :
    (c : ℕ) (s : Text) → (c == path_delim) ≡ false → has_double_delim (c ∷ s) ≡ has_double_delim s
unfolding has_double_delim
has_double_delim-step c [] h = refl
has_double_delim-step c (d ∷ s) h = rw h refl

has_double_delim-append :
    (name rest : Text)
    → has_byte path_delim name ≡ false
    → has_double_delim (name ++ rest) ≡ has_double_delim rest
unfolding has_byte
has_double_delim-append [] rest h = refl
has_double_delim-append (c ∷ name) rest h =
    let other : (c == path_delim) ≡ false = ground arith in
    let later : has_byte path_delim name ≡ false = ground arith in
    has_double_delim-step c (name ++ rest) other ∙ has_double_delim-append name rest later

-- A path of names has no empty node.
has_double_delim-join :
    (names : List Text) → All IsName names → has_double_delim (join names) ≡ false
unfolding join has_double_delim has_byte
has_double_delim-join [] h = refl
has_double_delim-join ([] ∷ names) h = absurd h.0
has_double_delim-join ((c ∷ name) ∷ names) h =
    let other : (c == path_delim) ≡ false = ground (arith, h.0) in
    let rest = has_double_delim-append (c ∷ name) (join names) h.0 in
    rw other (rest ∙ has_double_delim-join names h.1)

has_empty_node-join :
    (name : Text) (names : List Text)
    → All IsName (name ∷ names)
    → has_empty_node (join (name ∷ names)) ≡ false
unfolding join has_empty_node
has_empty_node-join [] names h = absurd h.0
has_empty_node-join (c ∷ name) names h =
    has_double_delim-append (c ∷ name) (join names) h.0 ∙ has_double_delim-join names h.1

module _ {Z : Type 0} (zk : ZooKeeper Z) where
  create_path-node :
      (name : Text) (names : List Text) (z : Z)
      → All IsName (name ∷ names)
      → run (zk_step zk) (Async.create_path (join (name ∷ names))) z
        ≡ run
            (zk_step zk)
            (create_node (suc (length names)) (join (name ∷ names)) (path_delim ∷ name))
            (zk.remove z (join (name ∷ names))).0
  unfolding Async.create_path run zk_step
  create_path-node name names z named =
      rw (has_empty_node-join name names named, split_path-join (name ∷ names) named) refl

  create_path-made :
      (names : List Text) (z : Z)
      → All IsName names
      → Registry.create_path zk z (join names)
        ≡ made zk (join names) (create_parents zk (zk.remove z (join names)).0 [] names)
  unfolding Registry.create_path
  create_path-made names z named =
      ap (λ l. made zk (join names) (create_parents zk (zk.remove z (join names)).0 [] l))
        (split_path-join names named)

  -- Of a path of names, the asynchronous `createPath` leaves ZooKeeper as the other does, and its
  -- callback is told in the same way.
  pub create_path-Agrees :
      (name : Text) (names : List Text) (z : Z)
      → All IsName (name ∷ names)
      → Agrees
          (run (zk_step zk) (Async.create_path (join (name ∷ names))) z)
          (Registry.create_path zk z (join (name ∷ names)))
  unfolding join
  create_path-Agrees name names z named =
      let lower = create_node_lem zk [] name names (zk.remove z (join (name ∷ names))).0 named in
      rw (create_path-node name names z named, create_path-made (name ∷ names) z named)
        (rw (append-nil name) at lower)

  register_endpoint-valid :
      (app service point : Text) (z : Z)
      → has_byte b':' point ≡ true
      → All IsName (app ∷ service ∷ endpoints_zk_path ∷ point ∷ [])
      → let path = join (app ∷ service ∷ endpoints_zk_path ∷ point ∷ []) in
        (Async.register_endpoint app service point ≡ Async.create_path path)
        × (Registry.register_endpoint zk z app service point ≡ Registry.create_path zk z path)
  unfolding Async.register_endpoint Registry.register_endpoint validate_host_and_port
  register_endpoint-valid app service point z valid named =
      let made_path = make_zk_path-join (app ∷ service ∷ endpoints_zk_path ∷ point ∷ []) named in
      (
        rw (valid, Async.register_endpoint, made_path) refl,
        rw (valid, Registry.register_endpoint, made_path, Registry.on_path) refl,
      )

  register_endpoint-invalid :
      (app service point : Text) (z : Z)
      → has_byte b':' point ≡ false
      → (e : Exception) × (Async.register_endpoint app service point ≡ raised e)
        × (Registry.register_endpoint zk z app service point ≡ (z, throw e))
  unfolding Async.register_endpoint Registry.register_endpoint validate_host_and_port
  register_endpoint-invalid app service point z portless = (
    service_discovery_exception (codes "Invalid Host:Port format: " ++ point),
    rw (portless, Async.register_endpoint) refl,
    rw (portless, Registry.register_endpoint) refl,
  )

  -- Of names, `registerEndpoint` leaves ZooKeeper as the other client does, whether the endpoint has a
  -- port or not. Its callback is told that it is registered, once and of nothing else, exactly if the
  -- other returns; if the other throws, the callback is told once of an error, or an exception leaves
  -- the caller or a handler and the callback is not called.
  pub register_endpoint-Agrees :
      (app service point : Text) (z : Z)
      → All IsName (app ∷ service ∷ endpoints_zk_path ∷ point ∷ [])
      → Agrees
          (run (zk_step zk) (Async.register_endpoint app service point) z)
          (Registry.register_endpoint zk z app service point)
  unfolding run
  register_endpoint-Agrees app service point z named = elim (Bool-cases (has_byte b':' point)) [
    | inr portless ↦
        let (e, left, right) = register_endpoint-invalid app service point z portless in
        rw (left, right) (refl, ((λ h. absurd (cc h)), (λ h. absurd (cc h))), tt)
    | inl valid ↦
        let (left, right) = register_endpoint-valid app service point z valid named in
        rw (left, right) (create_path-Agrees app (service ∷ endpoints_zk_path ∷ point ∷ []) z named)
  ]

  -- The callback of `getEndpoints` is called with the nodes; after an error of ZooKeeper it is called
  -- twice, the second time as if there had been none.
  pub get_endpoints_calls :
      (app service : Text) (z : Z)
      → All IsName (app ∷ service ∷ endpoints_zk_path ∷ [])
      → let (rc, nodes) = zk.get_children z (join (app ∷ service ∷ endpoints_zk_path ∷ [])) in
        (run (zk_step zk) (Async.get_endpoints app service) z).calls ≡ (
          if is_ok_or_none rc
          then (ok_response, nodes) ∷ []
          else (error_response, nodes) ∷ (ok_response, nodes) ∷ [])
  unfolding Async.get_endpoints Async.get_children Async.process_children run zk_step
  get_endpoints_calls app service z named =
      let names = app ∷ service ∷ endpoints_zk_path ∷ [] in
      elim (Bool-cases (is_ok_or_none (zk.get_children z (join names)).0)) [
        | inl good ↦ rw (make_zk_path-join names named, good, run) refl
        | inr bad ↦ rw (make_zk_path-join names named, bad, run) refl
      ]
