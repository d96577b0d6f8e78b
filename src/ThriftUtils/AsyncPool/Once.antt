-- ===== src/ThriftUtils/AsyncPool/Once.antt =====
-- How often `getClient` calls its callback.
use ezbake_common_cpp.Cache.Lru
use ezbake_common_cpp.Cache.Timed
use ezbake_common_cpp.Cache.Timed.{CacheValue}
use ezbake_common_cpp.Common.Async.{
  finished, crashed, raised, call, wait, answer, run, both, Run, CalledOrEscaped,
  run-Settles_called, OnceOrEscaped, run-Settles,
}
use ezbake_common_cpp.Common.Result.{Exception}
use ezbake_common_cpp.Common.{
  ℕ, refl, Bool-cases, Option-cases, Option, none, some, inl, inr, List, [], ◌∷◌, Eq, Text, text_Eq,
}
use ezbake_common_cpp.Config.Helpers.Application.{get_application_service_name}
use ezbake_common_cpp.Config.Helpers.Base.{BaseConfiguration}
use ezbake_common_cpp.Config.Helpers.Constants.{Constants}
use ezbake_common_cpp.Net.HostAndPort.{HostAndPort}
use ezbake_common_cpp.ThriftUtils.AsyncPool.Borrow.{
  rethrow, is_at_once, reuse_client, new_client, get_client,
}
use ezbake_common_cpp.ThriftUtils.AsyncPool.Create.{create_client}
use ezbake_common_cpp.ThriftUtils.AsyncPool.{PoolOp, PoolReply, Pooled}
use ezbake_common_cpp.ThriftUtils.ClientPool.{
  Outside, ClientPool, host_eq, get_thrift_connection_key, get_protocol_attempts,
}
use ezbake_common_cpp.ThriftUtils.AsyncPool.Discovered.{
  any_answer, Replied, Settled, discover_each-Settles,
}
use ezbake_common_cpp.ThriftUtils.AsyncPool.Settled.{create_client-Settles}

-- An exception that is thrown on is still an exception.
rethrow-Settles :
    {Chan Client A : Type 0} (Twice : Type 0) (diagnostic : Exception → Text)
    (p : Pooled Chan Client A)
    → Settled Twice p
    → Settled Twice (rethrow diagnostic p)
unfolding rethrow
rethrow-Settles Twice diagnostic finished h = h
rethrow-Settles Twice diagnostic crashed h = tt
rethrow-Settles Twice diagnostic (raised e) h = tt
rethrow-Settles Twice diagnostic (call a rest) h = rw h refl
rethrow-Settles Twice diagnostic (wait op k) h = λ reply good.
    elim (Bool-cases (is_at_once op.request reply.1)) [
      | inl now ↦ rw now (rethrow-Settles Twice diagnostic (k reply) (h reply good))
      | inr later ↦ rw later (h reply good)
    ]
rethrow-Settles Twice diagnostic (both p q) h = (h.0, rethrow-Settles Twice diagnostic p h.1)

module _ {Chan Client : Type 0} ⦃eC : Eq Client⦄
    (pooled_range : Text → List (Text × CacheValue Client) → List ℕ)
    (pooled_order : List (Text × CacheValue Client) → List (Text × CacheValue Client))
    (outside : Outside Client) (range : Text → List (Text × HostAndPort) → List ℕ)
    (channel_of : Client → Chan) (g : Constants) (thrift_config : BaseConfiguration) where
  abbrev pub Got : Type 0
  Got = ClientPool Client × (Option Exception × Option Client)

  abbrev pub principal :
      ClientPool Client → Option Exception → Option Client → Pooled Chan Client Got
  principal p e c = answer (p, (e, c))

  told :
      (Twice : Type 0) (p : ClientPool Client) (e : Option Exception) (c : Option Client)
      → Settled Twice (principal p e c)
  told Twice p e c = refl

  reuse_client-Settles :
      (Twice : Type 0) (pool : ClientPool Client) (client : Client)
      → Settled Twice (
          reuse_client pooled_range pooled_order outside range channel_of g thrift_config pool
            client principal)
  unfolding reuse_client
  reuse_client-Settles Twice pool client = λ reply good. elim (Bool-cases reply.1) [
    | inl fine ↦ rw fine refl
    | inr closed ↦ rw closed (λ later fine. refl)
  ]

  new_client-Settles :
      (Twice : Type 0) (pool : ClientPool Client) (app : Option Text) (service_name key : Text)
      → Settled Twice (
          new_client pooled_range pooled_order outside range channel_of g thrift_config pool app
            service_name key principal)
  unfolding new_client
  new_client-Settles Twice pool none service_name key =
      create_client-Settles Twice outside range g thrift_config principal (told Twice)
        get_protocol_attempts pool service_name service_name key
  new_client-Settles Twice pool (some app) service_name key =
      let service_cache_key = get_application_service_name app service_name in
      let created : (now : ClientPool Client)
          → Settled Twice (
              create_client outside range g thrift_config principal get_protocol_attempts now
                service_name service_cache_key key) =
        λ now.
          create_client-Settles Twice outside range g thrift_config principal (told Twice)
            get_protocol_attempts now service_name service_cache_key key in
      elim (Bool-cases (Lru.contains_key pool.service_cache service_cache_key)) [
        | inl cached ↦ rw cached (created pool)
        | inr unknown ↦ rw unknown (
            discover_each-Settles Twice outside range (some app) service_cache_key
              (service_name ∷ []) pool _ created)
      ]

  get_client-Settles :
      (Twice : Type 0) (pool : ClientPool Client) (now : ℕ) (type_name : Text) (app : Option Text)
      (service_name : Text)
      → Settled Twice (
          get_client pooled_range pooled_order outside range channel_of g thrift_config pool now
            type_name app service_name principal)
  unfolding get_client
  get_client-Settles Twice pool now type_name app service_name =
      let key = get_thrift_connection_key type_name service_name in
      let (connections, cached) =
        Timed.pop pooled_range pooled_order pool.connection_cache now key in
      let popped = record pool { connection_cache = connections } in
      rethrow-Settles Twice outside.diagnostic _ (elim (Option-cases cached) [
        | inl miss ↦ rw miss (new_client-Settles Twice popped app service_name key)
        | inr (client, hit) ↦ elim (Bool-cases (outside.is_a client)) [
          | inl right ↦ rw (hit, right) (reuse_client-Settles Twice popped client)
          | inr wrong ↦ rw (hit, wrong) (new_client-Settles Twice popped app service_name key)
        ]
      ])

  abbrev got :
      {S : Type 0}
      → (step : S → (op : PoolOp Chan Client) → S × PoolReply Chan Client op) → S
      → ClientPool Client
      → ℕ
      → (type_name : Text) → Option Text
      → (service_name : Text) → Run S Got
  got step s pool now type_name app service_name =
      run step
        (get_client pooled_range pooled_order outside range channel_of g thrift_config pool now
          type_name app service_name principal)
        s

  -- Whatever service discovery and the sockets do, the callback of `getClient` is called, unless an
  -- exception leaves a handler.
  pub get_client_called :
      {S : Type 0} (step : S → (op : PoolOp Chan Client) → S × PoolReply Chan Client op) (s : S)
      (pool : ClientPool Client) (now : ℕ) (type_name : Text) (app : Option Text)
      (service_name : Text)
      → CalledOrEscaped (got step s pool now type_name app service_name)
  get_client_called step s pool now type_name app service_name =
      run-Settles_called step (Replied Unit) (λ t op. any_answer op.request (step t op).1.1) Unit _
        s (get_client-Settles Unit pool now type_name app service_name)

  -- As long as no request to service discovery ends in an error of ZooKeeper, which invokes handlers
  -- twice, the callback of `getClient` is called exactly once, unless an exception leaves a handler, and
  -- then it is not called.
  pub get_client_once :
      {S : Type 0} (step : S → (op : PoolOp Chan Client) → S × PoolReply Chan Client op) (s : S)
      (pool : ClientPool Client) (now : ℕ) (type_name : Text) (app : Option Text)
      (service_name : Text)
      → ((t : S) (op : PoolOp Chan Client) → Replied ⊥ op (step t op).1)
      → OnceOrEscaped (got step s pool now type_name app service_name)
  get_client_once step s pool now type_name app service_name no_error =
      run-Settles step (Replied ⊥) no_error _ s
        (get_client-Settles ⊥ pool now type_name app service_name)
