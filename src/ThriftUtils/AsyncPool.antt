-- ===== src/ThriftUtils/AsyncPool.antt =====
-- `ThriftAsyncClientPool`: thrift-utils/src/main/cpp/ThriftAsyncClientPool.cpp and
-- thrift-utils/src/main/include/ezbake/thriftutils/ThriftAsyncClientPool.tcc. A request is issued with
-- the pool as it is then, and completes with the pool as other calls have left it.
pub mod Create
pub mod Borrow
pub mod Discovered
pub mod Twice
pub mod Settled
pub mod Once
pub mod Returned
pub mod Close
use ezbake_common_cpp.Cache.Lru
use ezbake_common_cpp.Common.Async.{Async, crashed, raised, both, finished, wait}
use ezbake_common_cpp.Common.Result.{
  Exception, Result, ok, throw, hang, crash, service_discovery_exception,
}
use ezbake_common_cpp.Common.{
  ℕ, zero, suc, Bool, true, false, ◌==◌, Option, none, some, List, [], ◌∷◌, length, if◌then◌else◌,
  Text, text_Eq, codes, is_blank,
}
use ezbake_common_cpp.Net.HostAndPort.{HostAndPort}
use ezbake_common_cpp.ThriftUtils.ClientPool.{Outside, ClientPool, add_endpoints}
use mathlib.Core.List.{reverse}

module _ (Chan Client : Type 0) where
  pub data PoolRequest : Type 0 where
    discover_services : Option Text → PoolRequest
    discover_endpoints : Option Text → Text → PoolRequest
    create_channel : (secure : Bool) → Text → ℕ → PoolRequest
    connect_channel channel_good shutdown_channel close_channel : Chan → PoolRequest
    make_client : Chan → (compact : Bool) → PoolRequest
    services_again endpoints_again : PoolRequest

-- What comes back. Of service discovery, `none` is a request that was not dispatched, and else whether
-- the response is `OK`, with the names; for endpoints, before that, how many services other invocations
-- have taken out of the delegate since. After an error ZooKeeper's callback is invoked again:
-- `endpoints_again` tells how many services are out by then, the first invocation's included, and
-- `services_again` whether `_nextCb` is `_ownerDispatch` by then; `none` is an exception that the first
-- invocation threw, after which there is no second one. A channel is closed with an exception where it
-- is `false`.
abbrev pub PoolAnswer : (Chan Client : Type 0) → PoolRequest Chan Client → Type 0
PoolAnswer Chan Client (discover_services app) = Option (Bool × List Text)
PoolAnswer Chan Client (discover_endpoints app service) = Option (ℕ × (Bool × List Text))
PoolAnswer Chan Client (create_channel secure host port) = Chan
PoolAnswer Chan Client (connect_channel c) = Option Exception
PoolAnswer Chan Client (channel_good c) = Bool
PoolAnswer Chan Client (shutdown_channel c) = Option Exception
PoolAnswer Chan Client (close_channel c) = Bool
PoolAnswer Chan Client (make_client c compact) = Client
PoolAnswer Chan Client services_again = Option Bool
PoolAnswer Chan Client endpoints_again = Option ℕ

pub record PoolOp (Chan Client : Type 0) : Type 0 where
  pub pool : ClientPool Client
  pub request : PoolRequest Chan Client

abbrev pub PoolReply : (Chan Client : Type 0) → PoolOp Chan Client → Type 0
PoolReply Chan Client op = ClientPool Client × PoolAnswer Chan Client op.request

abbrev pub Pooled : (Chan Client A : Type 0) → Type 0
Pooled Chan Client A = Async (PoolReply Chan Client) A

abbrev pub not_dispatched : Exception
not_dispatched =
    service_discovery_exception
      (codes "Error in getting nodes. ZK error: error in dispatching request")

module _ {Client : Type 0} (outside : Outside Client)
    (range : Text → List (Text × HostAndPort) → List ℕ) where
  -- The endpoints of a service go into the cache, under the service's key if it has one.
  unfoldable pub keep_endpoints :
      ClientPool Client
      → (service_key service : Text) → Bool × List Text
      → ClientPool Client × Result (Unit {0})
  unfolding add_endpoints
  keep_endpoints pool service_key service (false, endpoints) = (pool, ok tt)
  keep_endpoints pool service_key service (true, []) = (pool, ok tt)
  keep_endpoints pool service_key service (true, endpoint ∷ endpoints) =
      let name = if 0 == length service_key then service else service_key in
      let (cache, outcome) =
        add_endpoints outside range pool.service_cache name (endpoint ∷ endpoints) in
      (record pool { service_cache = cache }, outcome)

module _ {Chan Client A : Type 0} where
  abbrev pub ask :
      ClientPool Client
      → (r : PoolRequest Chan Client)
      → (ClientPool Client → PoolAnswer Chan Client r → Pooled Chan Client A)
      → Pooled Chan Client A
  ask pool r k = wait (record { pool = pool; request = r }) (λ reply. k reply.0 reply.1)

  module _ (outside : Outside Client) (range : Text → List (Text × HostAndPort) → List ℕ) where
    -- What one invocation finds is kept, and then the delegate goes on.
    unfoldable pub keep_then :
        ClientPool Client
        → (service_key service : Text) → Bool × List Text
        → (ClientPool Client → Pooled Chan Client A)
        → Pooled Chan Client A
    unfolding keep_endpoints
    keep_then pool service_key service found next =
        let (kept, outcome) = keep_endpoints outside range pool service_key service found in
        elim outcome [ ok u ↦ next kept | throw e ↦ raised e | hang ↦ crashed | crash ↦ crashed ]

    -- After an error `process` is invoked a second time, with `OK`.
    unfoldable pub receive_endpoints :
        ClientPool Client
        → Option (ℕ × (Bool × List Text))
        → (process : ℕ → ClientPool Client → Bool × List Text → Pooled Chan Client A)
        → Pooled Chan Client A
    receive_endpoints now none process = raised not_dispatched
    receive_endpoints now (some (popped, (true, endpoints))) process =
        process popped now (true, endpoints)
    receive_endpoints now (some (popped, (false, endpoints))) process =
        both (process popped now (false, endpoints)) (
          ask now endpoints_again (λ later again. elim again [
            | none ↦ finished
            | some popped' ↦ process popped' later (true, endpoints)
          ]))

    unfoldable pub request_endpoints :
        Option Text
        → (service : Text) → ClientPool Client
        → (process : ℕ → ClientPool Client → Bool × List Text → Pooled Chan Client A)
        → Pooled Chan Client A
    unfolding receive_endpoints
    request_endpoints app service pool process =
        ask pool (discover_endpoints app service) (λ now reply. receive_endpoints now reply process)

    -- `DiscoverEndpointsDelegate::process`; the services are those from the back of its vector when the
    -- request was issued, of which `popped` are out now. With none left the owner is called again.
    unfoldable pub process_endpoints :
        Option Text
        → (service_key : Text) (popped : ℕ) (services : List Text) → ClientPool Client
        → Bool × List Text
        → (ClientPool Client → Pooled Chan Client A)
        → Pooled Chan Client A
    unfolding keep_then request_endpoints
    process_endpoints app service_key popped [] pool found owner_dispatch = owner_dispatch pool
    process_endpoints app service_key (suc popped) (service ∷ services) pool found owner_dispatch =
        process_endpoints app service_key popped services pool found owner_dispatch
    process_endpoints app service_key zero (service ∷ []) pool found owner_dispatch =
        keep_then pool service_key service found owner_dispatch
    process_endpoints app service_key zero (service ∷ next ∷ services) pool found owner_dispatch =
        keep_then pool service_key service found (λ kept.
          request_endpoints app next kept (λ popped now after.
            process_endpoints app service_key popped (next ∷ services) now after owner_dispatch))

    -- `discoverEndpoints()`
    unfoldable pub discover_each :
        Option Text
        → (service_key : Text) → (services : List Text) → ClientPool Client
        → (ClientPool Client → Pooled Chan Client A)
        → Pooled Chan Client A
    unfolding process_endpoints
    discover_each app service_key [] pool owner_dispatch = owner_dispatch pool
    discover_each app service_key (service ∷ services) pool owner_dispatch =
        request_endpoints app service pool (λ popped now found.
          process_endpoints app service_key popped (service ∷ services) now found owner_dispatch)

    -- `DiscoverServicesDelegate::process`: an error is logged, and the services are used all the same.
    unfoldable pub process_services :
        Option Text
        → ClientPool Client
        → List Text
        → (ClientPool Client → Pooled Chan Client A)
        → Pooled Chan Client A
    unfolding discover_each
    process_services app pool services next_cb =
        discover_each app [] (reverse services) pool next_cb

    -- `process` takes whether `_nextCb` is `_ownerDispatch`; it too is invoked twice after an error.
    unfoldable pub receive_services :
        (is_owner : Bool)
        → ClientPool Client
        → Option (Bool × List Text)
        → (process : Bool → ClientPool Client → List Text → Pooled Chan Client A)
        → Pooled Chan Client A
    receive_services is_owner now none process = raised not_dispatched
    receive_services is_owner now (some (true, services)) process = process is_owner now services
    receive_services is_owner now (some (false, services)) process =
        both (process is_owner now services) (
          ask now services_again (λ later again. elim again [
            | none ↦ finished
            | some is_owner' ↦ process is_owner' later services
          ]))

    unfoldable pub request_services :
        Option Text
        → (is_owner : Bool) → ClientPool Client
        → (process : Bool → ClientPool Client → List Text → Pooled Chan Client A)
        → Pooled Chan Client A
    unfolding receive_services
    request_services app is_owner pool process =
        ask pool (discover_services app) (λ now reply. receive_services is_owner now reply process)

    unfoldable pub discover_common_services :
        ClientPool Client → (ClientPool Client → Pooled Chan Client A) → Pooled Chan Client A
    unfolding process_services request_services
    discover_common_services pool owner_dispatch =
        request_services none true pool
          (λ is_owner now services. process_services none now services owner_dispatch)

    unfoldable pub refresh_all_endpoints :
        ClientPool Client → (ClientPool Client → Pooled Chan Client A) → Pooled Chan Client A
    unfolding discover_common_services is_blank
    refresh_all_endpoints pool cb =
        if is_blank pool.application_name
        then discover_common_services pool cb
        else request_services (some pool.application_name) false pool (λ is_owner now services.
          if is_owner
          then process_services none now services cb
          else process_services (some now.application_name) now services
              (λ later. discover_common_services later cb))
