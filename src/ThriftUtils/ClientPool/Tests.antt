-- ===== src/ThriftUtils/ClientPool/Tests.antt =====
-- The theorems on the pool at a concrete cache, with clients that are numbers.
use ezbake_common_cpp.Cache.Lru
use ezbake_common_cpp.Cache.Lru.Min.{positions, IsRange}
use ezbake_common_cpp.Cache.Lru.Writes.{holds}
use ezbake_common_cpp.Cache.Lru.{Cache}
use ezbake_common_cpp.Cache.Timed
use ezbake_common_cpp.Cache.Timed.{CacheValue, TimedCache, expired, value_eq}
use ezbake_common_cpp.Common.Async.{CalledOrEscaped, OnceOrEscaped, run, answer}
use ezbake_common_cpp.Common.Result.{Exception, ok}
use ezbake_common_cpp.Common.{
  Bool, ◌&&◌, not, ℕ, ◌≡◌, refl, true, Option, none, some, List, [], ◌∷◌, ◌==◌, if◌then◌else◌, Text,
  codes, text_Eq, text_eq, nat_eq, arith, false,
}
use ezbake_common_cpp.Common.Dict.{lookup}
use ezbake_common_cpp.Config.EzConfiguration.{get_string}
use ezbake_common_cpp.Config.Helpers.Thrift.{value_of, hs_ha, get_server_mode}
use ezbake_common_cpp.Config.Helpers.Base.{BaseConfiguration}
use ezbake_common_cpp.Config.Helpers.Sample.{names}
use ezbake_common_cpp.Net.HostAndPort.{HostAndPort, equals}
use ezbake_common_cpp.ThriftUtils.AsyncPool
use ezbake_common_cpp.ThriftUtils.AsyncPool.Discovered.{Answered}
use ezbake_common_cpp.ThriftUtils.AsyncPool.Once.{get_client_once, get_client_called}
use ezbake_common_cpp.ThriftUtils.AsyncPool.Returned.{return_to_pool_lost}
use ezbake_common_cpp.ThriftUtils.AsyncPool.{
  PoolRequest, discover_services, discover_endpoints, create_channel, connect_channel, channel_good,
  shutdown_channel, close_channel, make_client, services_again, endpoints_again, PoolAnswer, PoolOp,
  PoolReply,
}
use ezbake_common_cpp.ThriftUtils.ClientPool.Balance.{values_of}
use ezbake_common_cpp.ThriftUtils.ClientPool.Borrow.Returned.{return_to_pool-get_client}
use ezbake_common_cpp.ThriftUtils.ClientPool.Borrow.{reuse, get_client, return_to_pool}
use ezbake_common_cpp.ThriftUtils.ClientPool.Create.{AlwaysOpens, create_client-holds}
use ezbake_common_cpp.ThriftUtils.ClientPool.{
  Outside, ClientPool, host_eq, create_client, connect, get_thrift_connection_key, find_client,
  erase_client,
}

-- Port 1 never opens; another port gives the client of that number.
abbrev outside : Outside ℕ
outside = record {
  open_client = λ round try wire host port. if port == 1 then none else some port;
  reopen = λ client. true;
  close_client = λ client. true;
  is_a = λ client. true;
  get_services = λ round app. none;
  get_endpoints = λ round app service. none;
  lexical_cast = λ s. none;
  diagnostic = λ e. [];
}

abbrev config : BaseConfiguration
config = record { ez_configuration = []; namespace_prefix = [] }

abbrev range : Text → List (Text × HostAndPort) → List ℕ
range k l = positions 0 k l

law : IsRange range
law = record { same = λ k l i. refl }

abbrev at_port : ℕ → HostAndPort
at_port p = record { host = codes "h"; port = some p }

abbrev services : Cache Text HostAndPort
services = record {
  capacity = 0;
  items = (codes "s", at_port 1) ∷ (codes "t", at_port 5) ∷ (codes "s", at_port 7) ∷ [];
}

seven_opens : AlwaysOpens outside names config (at_port 7)
unfolding connect value_of text_eq get_string lookup
seven_opens = λ round try. (7, refl)

create_client-holds_example :
    (client : ℕ) × ((create_client outside range names config (codes "a") services (codes "s")).1
      ≡ ok client)
unfolding values_of holds text_eq equals
create_client-holds_example =
    create_client-holds outside range law names config (codes "a") services (codes "s") (at_port 7)
      (omega arith) refl seven_opens

abbrev pooled_range : Text → List (Text × CacheValue ℕ) → List ℕ
pooled_range k l = positions 0 k l

abbrev pooled_order : List (Text × CacheValue ℕ) → List (Text × CacheValue ℕ)
pooled_order l = l

-- The client 7 has been taken out under the key "s|T".
abbrev lent : ClientPool ℕ
lent = record {
  application_name = codes "a";
  service_cache = services;
  connection_cache = record { cache = record { capacity = 0; items = [] }; expiration = 0 };
  reverse_lookup = (7, codes "s|T") ∷ [];
}

abbrev returned : ClientPool ℕ
returned = return_to_pool outside range pooled_range pooled_order names config lent 1000000 7

abbrev lent_again : ClientPool ℕ
lent_again =
    (get_client outside range pooled_range pooled_order names config returned 2000000 (codes "T")
      none (codes "s")).0

return_to_pool-get_client_example :
    return_to_pool outside range pooled_range pooled_order names config lent_again 3000000 7
    ≡ lent_again
unfolding return_to_pool reuse Timed.pop Lru.pop Lru.has_key value_of text_eq get_string lookup
    Timed.put Lru.put Lru.scan_value positions get_thrift_connection_key Lru.scan_lru expired
return_to_pool-get_client_example =
    return_to_pool-get_client outside range pooled_range pooled_order names config lent 1000000
      2000000 3000000 7 (codes "T") none (codes "s") refl

-- Service discovery finds nothing, with that response, and a channel of that number is connected.
abbrev answers : Bool → (r : PoolRequest ℕ ℕ) → PoolAnswer ℕ ℕ r
answers response (discover_services app) = some (response, [])
answers response (discover_endpoints app service) = some (0, (response, []))
answers response (create_channel secure host port) = port
answers response (connect_channel c) = none
answers response (channel_good c) = true
answers response (shutdown_channel c) = none
answers response (close_channel c) = true
answers response (make_client c compact) = c
answers response services_again = some true
answers response endpoints_again = some 1

abbrev step : Bool → ℕ → (op : PoolOp ℕ ℕ) → ℕ × PoolReply ℕ ℕ op
step response s op = (s, (op.pool, answers response op.request))

answers-Answered : (r : PoolRequest ℕ ℕ) → Answered ⊥ r (answers true r)
answers-Answered (discover_services app) = tt
answers-Answered (discover_endpoints app service) = tt
answers-Answered (create_channel secure host port) = tt
answers-Answered (connect_channel c) = tt
answers-Answered (channel_good c) = tt
answers-Answered (shutdown_channel c) = tt
answers-Answered (close_channel c) = tt
answers-Answered (make_client c compact) = tt
answers-Answered services_again = tt
answers-Answered endpoints_again = tt

get_client_once_example : OnceOrEscaped (
    run
      (step true)
      (AsyncPool.Borrow.get_client {A = ClientPool ℕ × (Option Exception × Option ℕ)} pooled_range
        pooled_order outside range
        (λ client. client)
        names
        config
        lent
        1000000
        (codes "T")
        none
        (codes "s")
        (λ p e c. answer (p, (e, c))))
      0)
get_client_once_example =
    get_client_once pooled_range pooled_order outside range (λ client. client) names config
      (step true) 0 lent 1000000 (codes "T") none (codes "s") (λ t op. answers-Answered op.request)

-- Of another application, with an error of ZooKeeper.
get_client_called_example : CalledOrEscaped (
    run
      (step false)
      (AsyncPool.Borrow.get_client {A = ClientPool ℕ × (Option Exception × Option ℕ)} pooled_range
        pooled_order outside range
        (λ client. client)
        names
        config
        lent
        1000000
        (codes "T")
        (some (codes "b"))
        (codes "s")
        (λ p e c. answer (p, (e, c))))
      0)
get_client_called_example =
    get_client_called pooled_range pooled_order outside range (λ client. client) names config
      (step false) 0 lent 1000000 (codes "T") (some (codes "b")) (codes "s")

abbrev half_sync : BaseConfiguration
half_sync = record {
  ez_configuration = (names.thrift_server_mode, codes "HsHa") ∷ [];
  namespace_prefix = [];
}

abbrev pooled_law : IsRange pooled_range
pooled_law = record { same = λ k l i. refl }

abbrev at_second : CacheValue ℕ
at_second = record { timestamp = 1; value = 7 }

return_to_pool_lost_example :
    (after : ClientPool ℕ) × (AsyncPool.Borrow.return_to_pool {Chan = ℕ} {A = List (ℕ × Text)}
        pooled_range pooled_order outside range
        (λ client. client)
        names
        half_sync
        lent
        1000000
        7
        (λ p. answer p.reverse_lookup)
      ≡ answer after.reverse_lookup)
    × ((holds (codes "s|T") at_second after.connection_cache.cache.items
          && not (holds (codes "s|T") at_second lent.connection_cache.cache.items))
        ≡ false)
    × (find_client 7 after.reverse_lookup ≡ some [])
unfolding value_of text_eq get_string lookup find_client erase_client get_server_mode
    get_thrift_connection_key
return_to_pool_lost_example =
    return_to_pool_lost pooled_range pooled_order outside range (λ client. client) names half_sync
      lent 1000000 7 (codes "s|T") (λ p. answer p.reverse_lookup) hs_ha (codes "T") (codes "s")
      at_second refl refl refl pooled_law tt
