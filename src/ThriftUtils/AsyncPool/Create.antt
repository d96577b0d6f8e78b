-- ===== src/ThriftUtils/AsyncPool/Create.antt =====
-- The creation of clients by `ThriftAsyncClientPool`: `createClient`, `createClientToEndpoint` and
-- `handleCreateClientChannelConnect` of ThriftAsyncClientPool.tcc.
use ezbake_common_cpp.Cache.Lru
use ezbake_common_cpp.Common.Async.{crashed, raised}
use ezbake_common_cpp.Common.Result.{
  Exception, Result, ok, throw, hang, crash, runtime_error, thrift_exception,
}
use ezbake_common_cpp.Common.{
  ℕ, zero, suc, Bool, Option, none, some, List, ◌∷◌, ◌++◌, if◌then◌else◌, Eq, Text, text_Eq, codes,
}
use ezbake_common_cpp.Config.Helpers.Base.{BaseConfiguration}
use ezbake_common_cpp.Config.Helpers.Constants.{Constants}
use ezbake_common_cpp.Config.Helpers.Thrift.{hs_ha, same_mode, get_server_mode, use_ssl}
use ezbake_common_cpp.Net.HostAndPort.{HostAndPort, get_port, decimal}
use ezbake_common_cpp.ThriftUtils.ClientPool.{Outside, ClientPool, host_eq, erase_client}
use ezbake_common_cpp.ThriftUtils.AsyncPool.{
  create_channel, connect_channel, channel_good, make_client, Pooled, ask, refresh_all_endpoints,
}

module _ {Chan Client A : Type 0} ⦃eC : Eq Client⦄ (outside : Outside Client)
    (range : Text → List (Text × HostAndPort) → List ℕ) where
  module _ (g : Constants) (thrift_config : BaseConfiguration)
      (cb : ClientPool Client → Option Exception → Option Client → Pooled Chan Client A) where
    abbrev failure : Text → Option Exception
    failure message = some (thrift_exception (outside.diagnostic (runtime_error message)))

    -- A channel to the endpoint, and whether the protocol is the compact one.
    unfoldable pub channel_settings : HostAndPort → Result (ℕ × Bool)
    unfolding get_port get_server_mode same_mode
    channel_settings end_point = elim (get_port end_point) [
      | ok port ↦ elim (get_server_mode g thrift_config) [
        | ok mode ↦ ok (port, same_mode mode hs_ha)
        | throw e ↦ throw e
        | hang ↦ hang
        | crash ↦ crash
      ]
      | throw e ↦ throw e
      | hang ↦ hang
      | crash ↦ crash
    ]

    -- The channel is connected: the client is made, and remembered under its key.
    unfoldable pub finish_client :
        ClientPool Client → (key : Text) → Chan → Bool → Pooled Chan Client A
    finish_client pool key channel compact = ask pool (channel_good channel) (λ now good.
        if good
        then ask now (make_client channel compact) (λ later client.
          cb
            (record later {
              reverse_lookup = (client, key) ∷ erase_client client later.reverse_lookup;
            })
            none (some client))
        else cb now
            (some (
              thrift_exception (
                outside.diagnostic
                  (thrift_exception (codes "Async channel connect in invalid state")))))
            none)

    -- `createClientToEndpoint`, for one endpoint; `on_error` is what the handler of the connection
    -- does after an error.
    unfoldable pub try_endpoint :
        (iteration num_endpoints : ℕ)
        → (on_error : ClientPool Client → Pooled Chan Client A) → ClientPool Client
        → (service_name service_cache_key key : Text) → Pooled Chan Client A
    unfolding channel_settings finish_client use_ssl decimal
    try_endpoint iteration num_endpoints on_error pool service_name service_cache_key key =
        let (cache, end_point) = Lru.get range pool.service_cache service_cache_key in
        let got = record pool { service_cache = cache } in
        elim end_point [
          | none ↦
              cb got
                (failure (
                  codes "Could not get endpoint for service "
                  ++ (service_name
                      ++ (codes " (@iteration "
                          ++ (decimal iteration
                              ++ (codes ". Found "
                                  ++ (decimal num_endpoints ++ codes " endpoints)")))))))
                none
          | some h ↦ elim (channel_settings h) [
            | throw e ↦ raised e
            | hang ↦ crashed
            | crash ↦ crashed
            | ok settings ↦
                ask got (create_channel (use_ssl g thrift_config) h.host settings.0) (λ now channel.
                  ask now (channel_good channel) (λ fresh good.
                    if good
                    then ask fresh (make_client channel settings.1)
                        (λ later client. cb later none (some client))
                    else ask fresh (connect_channel channel) (λ later err. elim err [
                      | none ↦ finish_client later key channel settings.1
                      | some e ↦ on_error later
                    ])))
          ]
        ]

    -- All endpoints failed; `again` is the next attempt of `createClient`, if one is left.
    unfoldable pub after_endpoints :
        (num_endpoints : ℕ)
        → (again : Option (ClientPool Client → Pooled Chan Client A)) → (service_name : Text)
        → ClientPool Client
        → Pooled Chan Client A
    unfolding refresh_all_endpoints decimal
    after_endpoints num_endpoints (some attempt) service_name pool =
        refresh_all_endpoints outside range pool attempt
    after_endpoints num_endpoints none service_name pool =
        cb pool
          (failure (
            codes "Could not find service "
            ++ (service_name
                ++ (codes " (found " ++ (decimal num_endpoints ++ codes " endpoints)")))))
          none

    -- `createClientToEndpoint`, with `left` endpoints after this one.
    unfoldable pub create_client_to_endpoint :
        (left iteration num_endpoints : ℕ)
        → (again : Option (ClientPool Client → Pooled Chan Client A)) → ClientPool Client
        → (service_name service_cache_key key : Text) → Pooled Chan Client A
    unfolding try_endpoint after_endpoints
    create_client_to_endpoint zero iteration num_endpoints again pool service_name service_cache_key
          key =
        try_endpoint iteration num_endpoints (after_endpoints num_endpoints again service_name) pool
          service_name service_cache_key key
    create_client_to_endpoint (suc left) iteration num_endpoints again pool service_name
          service_cache_key key =
        try_endpoint iteration num_endpoints
          (λ later.
            create_client_to_endpoint left (suc iteration) num_endpoints again later service_name
              service_cache_key key)
          pool service_name service_cache_key key

    -- One attempt of `createClient`.
    unfoldable pub start_attempt :
        (again : Option (ClientPool Client → Pooled Chan Client A))
        → ClientPool Client
        → (service_name service_cache_key key : Text) → Pooled Chan Client A
    unfolding create_client_to_endpoint
    start_attempt again pool service_name service_cache_key key =
        elim (Lru.value_range range pool.service_cache service_cache_key) [
          | suc others ↦
              create_client_to_endpoint others 1 (suc others) again pool service_name
                service_cache_key key
          | zero ↦ elim again [
            | some attempt ↦ refresh_all_endpoints outside range pool attempt
            | none ↦
                cb pool (failure (codes "Could not get an endpoint for service " ++ service_name))
                  none
          ]
        ]

    -- `createClient`, with `left` attempts after this one.
    unfoldable pub create_client :
        (left : ℕ)
        → ClientPool Client
        → (service_name service_cache_key key : Text) → Pooled Chan Client A
    unfolding start_attempt
    create_client zero pool service_name service_cache_key key =
        start_attempt none pool service_name service_cache_key key
    create_client (suc left) pool service_name service_cache_key key =
        start_attempt (some (λ later. create_client left later service_name service_cache_key key))
          pool service_name service_cache_key key
