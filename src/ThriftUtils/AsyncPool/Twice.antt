-- ===== src/ThriftUtils/AsyncPool/Twice.antt =====
-- What an error of ZooKeeper does to the discovery that `getClient` starts.
use ezbake_common_cpp.Common.Async.{finished, run}
use ezbake_common_cpp.Common.{
  ap, ◌∙◌, Bool, true, none, ℕ, suc, ◌≡◌, false, Option, some, List, [], ◌∷◌, ◌++◌, Text,
}
use ezbake_common_cpp.Net.HostAndPort.{HostAndPort}
use ezbake_common_cpp.ThriftUtils.AsyncPool.{
  discover_endpoints, endpoints_again, PoolOp, PoolReply, Pooled, keep_endpoints, keep_then,
  receive_endpoints, request_endpoints, process_endpoints, discover_each,
}
use ezbake_common_cpp.ThriftUtils.ClientPool.{Outside, ClientPool}

module _ {Chan Client A S : Type 0} (outside : Outside Client)
    (range : Text → List (Text × HostAndPort) → List ℕ)
    (step : S → (op : PoolOp Chan Client) → S × PoolReply Chan Client op) where
  -- Where the request for the endpoints of a service ends in an error of ZooKeeper, what is to follow
  -- it is started twice: first with nothing kept, and again when the callback is invoked with `OK`.
  pub discover_each_twice :
      (app : Option Text) (service_key service : Text) (pool : ClientPool Client)
      (owner_dispatch : ClientPool Client → Pooled Chan Client A) (s : S) (endpoints : List Text)
      (n : ℕ)
      → let asked = step s (record { pool = pool; request = discover_endpoints app service }) in
        let first = run step (owner_dispatch asked.1.0) asked.0 in
        let again = step first.world (record { pool = asked.1.0; request = endpoints_again }) in
        asked.1.1 ≡ some (0, (false, endpoints))
        → again.1.1 ≡ some (suc n)
        → (run step
            (discover_each outside range app service_key (service ∷ []) pool owner_dispatch)
            s).calls
          ≡ first.calls ++ (run step (owner_dispatch again.1.0) again.0).calls
  unfolding discover_each request_endpoints receive_endpoints process_endpoints keep_then
      keep_endpoints run
  discover_each_twice app service_key service pool owner_dispatch s endpoints n error second =
      let asked = step s (record { pool = pool; request = discover_endpoints app service }) in
      let first = run step (owner_dispatch asked.1.0) asked.0 in
      let again = step first.world (record { pool = asked.1.0; request = endpoints_again }) in
      let process : ℕ → ClientPool Client → Bool × List Text → Pooled Chan Client A =
        λ popped now found.
          process_endpoints outside range app service_key popped (service ∷ []) now found
            owner_dispatch in
      let resumed : Option ℕ → Pooled Chan Client A = λ r. elim r [
        | none ↦ finished
        | some popped ↦ process popped again.1.0 (true, endpoints)
      ] in
      ap
        (λ (r : Option (ℕ × (Bool × List Text))).
          (run step (receive_endpoints outside range asked.1.0 r process) asked.0).calls)
        error
      ∙ ap (λ (r : Option ℕ). first.calls ++ (run step (resumed r) again.0).calls) second
