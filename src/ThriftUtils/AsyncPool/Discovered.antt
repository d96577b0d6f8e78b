-- ===== src/ThriftUtils/AsyncPool/Discovered.antt =====
-- How often what `refreshAllEndpoints` and the delegates of service discovery end with is called.
use ezbake_common_cpp.Common.Async.{Settles}
use ezbake_common_cpp.Common.Result.{Result-cases}
use ezbake_common_cpp.Common.{
  ℕ, zero, suc, Bool, true, false, Bool-cases, Option, none, some, inl, inr, List, [], ◌∷◌, Eq,
  Text, text_Eq, is_blank,
}
use mathlib.Core.List.{reverse}
use ezbake_common_cpp.Net.HostAndPort.{HostAndPort}
use ezbake_common_cpp.ThriftUtils.AsyncPool.{
  PoolRequest, discover_services, discover_endpoints, create_channel, connect_channel, channel_good,
  shutdown_channel, close_channel, make_client, services_again, endpoints_again, PoolAnswer, PoolOp,
  PoolReply, Pooled, keep_endpoints, keep_then, receive_endpoints, request_endpoints,
  process_endpoints, discover_each, receive_services, request_services, process_services,
  discover_common_services, refresh_all_endpoints,
}
use ezbake_common_cpp.ThriftUtils.ClientPool.{Outside, ClientPool, host_eq}

module _ {Chan Client : Type 0} (Twice : Type 0) where
  -- That service discovery answers with an error is a proof of `Twice`.
  abbrev pub Answered : (r : PoolRequest Chan Client) → PoolAnswer Chan Client r → Type 0
  Answered (discover_services app) (some (false, services)) = Twice
  Answered (discover_endpoints app service) (some (popped, (false, endpoints))) = Twice
  Answered other reply = Unit

  abbrev pub Replied : (op : PoolOp Chan Client) → PoolReply Chan Client op → Type 0
  Replied op reply = Answered op.request reply.1

  abbrev pub Settled : {A : Type 0} → Pooled Chan Client A → Type 0
  Settled = Settles Replied Twice

-- Any answer is allowed where the second chain needs no proof.
pub any_answer :
    {Chan Client : Type 0} (r : PoolRequest Chan Client) (reply : PoolAnswer Chan Client r)
    → Answered Unit r reply
any_answer (discover_services app) none = tt
any_answer (discover_services app) (some (true, services)) = tt
any_answer (discover_services app) (some (false, services)) = tt
any_answer (discover_endpoints app service) none = tt
any_answer (discover_endpoints app service) (some (popped, (true, endpoints))) = tt
any_answer (discover_endpoints app service) (some (popped, (false, endpoints))) = tt
any_answer (create_channel secure host port) reply = tt
any_answer (connect_channel c) reply = tt
any_answer (channel_good c) reply = tt
any_answer (shutdown_channel c) reply = tt
any_answer (close_channel c) reply = tt
any_answer (make_client c compact) reply = tt
any_answer services_again reply = tt
any_answer endpoints_again reply = tt

module _ {Chan Client A : Type 0} ⦃eC : Eq Client⦄ (Twice : Type 0) (outside : Outside Client)
    (range : Text → List (Text × HostAndPort) → List ℕ) where
  keep_then-Settles :
      (pool : ClientPool Client) (service_key service : Text) (found : Bool × List Text)
      (next : ClientPool Client → Pooled Chan Client A)
      → ((p : ClientPool Client) → Settled Twice (next p))
      → Settled Twice (keep_then outside range pool service_key service found next)
  unfolding keep_then
  keep_then-Settles pool service_key service found next h =
      let (kept, outcome) = keep_endpoints outside range pool service_key service found in
      elim (Result-cases outcome) [
        | inl (u, good) ↦ rw (good, keep_then) (h kept)
        | inr (inl (e, thrown)) ↦ rw (thrown, keep_then) tt
        | inr (inr (inl hung)) ↦ rw (hung, keep_then) tt
        | inr (inr (inr crashing)) ↦ rw (crashing, keep_then) tt
      ]

  receive_endpoints-Settles :
      (app : Option Text) (service : Text) (now : ClientPool Client)
      (reply : Option (ℕ × (Bool × List Text)))
      (process : ℕ → ClientPool Client → Bool × List Text → Pooled Chan Client A)
      → ((n : ℕ) (p : ClientPool Client) (found : Bool × List Text)
          → Settled Twice (process n p found))
      → Answered {Chan = Chan} {Client = Client} Twice (discover_endpoints app service) reply
      → Settled Twice (receive_endpoints outside range now reply process)
  unfolding receive_endpoints
  receive_endpoints-Settles app service now none process h good = tt
  receive_endpoints-Settles app service now (some (popped, (true, endpoints))) process h good =
      h popped now (true, endpoints)
  receive_endpoints-Settles app service now (some (popped, (false, endpoints))) process h good =
      (good, h popped now (false, endpoints))

  request_endpoints-Settles :
      (app : Option Text) (service : Text) (pool : ClientPool Client)
      (process : ℕ → ClientPool Client → Bool × List Text → Pooled Chan Client A)
      → ((n : ℕ) (p : ClientPool Client) (found : Bool × List Text)
          → Settled Twice (process n p found))
      → Settled Twice (request_endpoints outside range app service pool process)
  unfolding request_endpoints
  request_endpoints-Settles app service pool process h =
      λ reply good. receive_endpoints-Settles app service reply.0 reply.1 process h good

  process_endpoints-Settles :
      (app : Option Text) (service_key : Text) (popped : ℕ) (services : List Text)
      (pool : ClientPool Client) (found : Bool × List Text)
      (k : ClientPool Client → Pooled Chan Client A)
      → ((p : ClientPool Client) → Settled Twice (k p))
      → Settled Twice (process_endpoints outside range app service_key popped services pool found k)
  unfolding process_endpoints
  process_endpoints-Settles app service_key popped [] pool found k h = h pool
  process_endpoints-Settles app service_key (suc popped) (service ∷ services) pool found k h =
      process_endpoints-Settles app service_key popped services pool found k h
  process_endpoints-Settles app service_key zero (service ∷ []) pool found k h =
      keep_then-Settles pool service_key service found k h
  process_endpoints-Settles app service_key zero (service ∷ next ∷ services) pool found k h =
      let process : ℕ → ClientPool Client → Bool × List Text → Pooled Chan Client A = λ n now after.
        process_endpoints outside range app service_key n (next ∷ services) now after k in
      keep_then-Settles pool service_key service found
        (λ kept. request_endpoints outside range app next kept process)
        (λ kept. request_endpoints-Settles app next kept process (λ n now after.
          process_endpoints-Settles app service_key n (next ∷ services) now after k h))

  pub discover_each-Settles :
      (app : Option Text) (service_key : Text) (services : List Text) (pool : ClientPool Client)
      (k : ClientPool Client → Pooled Chan Client A)
      → ((p : ClientPool Client) → Settled Twice (k p))
      → Settled Twice (discover_each outside range app service_key services pool k)
  unfolding discover_each
  discover_each-Settles app service_key [] pool k h = h pool
  discover_each-Settles app service_key (service ∷ services) pool k h =
      request_endpoints-Settles app service pool _ (λ popped now found.
        process_endpoints-Settles app service_key popped (service ∷ services) now found k h)

  receive_services-Settles :
      (app : Option Text) (is_owner : Bool) (now : ClientPool Client)
      (reply : Option (Bool × List Text))
      (process : Bool → ClientPool Client → List Text → Pooled Chan Client A)
      → ((b : Bool) (p : ClientPool Client) (services : List Text)
          → Settled Twice (process b p services))
      → Answered {Chan = Chan} {Client = Client} Twice (discover_services app) reply
      → Settled Twice (receive_services outside range is_owner now reply process)
  unfolding receive_services
  receive_services-Settles app is_owner now none process h good = tt
  receive_services-Settles app is_owner now (some (true, services)) process h good =
      h is_owner now services
  receive_services-Settles app is_owner now (some (false, services)) process h good =
      (good, h is_owner now services)

  request_services-Settles :
      (app : Option Text) (is_owner : Bool) (pool : ClientPool Client)
      (process : Bool → ClientPool Client → List Text → Pooled Chan Client A)
      → ((b : Bool) (p : ClientPool Client) (services : List Text)
          → Settled Twice (process b p services))
      → Settled Twice (request_services outside range app is_owner pool process)
  unfolding request_services
  request_services-Settles app is_owner pool process h =
      λ reply good. receive_services-Settles app is_owner reply.0 reply.1 process h good

  process_services-Settles :
      (app : Option Text) (pool : ClientPool Client) (services : List Text)
      (k : ClientPool Client → Pooled Chan Client A)
      → ((p : ClientPool Client) → Settled Twice (k p))
      → Settled Twice (process_services outside range app pool services k)
  unfolding process_services
  process_services-Settles app pool services k h =
      discover_each-Settles app [] (reverse services) pool k h

  discover_common_services-Settles :
      (pool : ClientPool Client) (k : ClientPool Client → Pooled Chan Client A)
      → ((p : ClientPool Client) → Settled Twice (k p))
      → Settled Twice (discover_common_services outside range pool k)
  unfolding discover_common_services
  discover_common_services-Settles pool k h =
      request_services-Settles none true pool _
        (λ b now services. process_services-Settles none now services k h)

  pub refresh_all_endpoints-Settles :
      (pool : ClientPool Client) (k : ClientPool Client → Pooled Chan Client A)
      → ((p : ClientPool Client) → Settled Twice (k p))
      → Settled Twice (refresh_all_endpoints outside range pool k)
  unfolding refresh_all_endpoints
  refresh_all_endpoints-Settles pool k h = elim (Bool-cases (is_blank pool.application_name)) [
    | inl blank ↦ rw (blank, refresh_all_endpoints) (discover_common_services-Settles pool k h)
    | inr named ↦
        rw (named, refresh_all_endpoints)
          (request_services-Settles (some pool.application_name) false pool _
            (λ is_owner now services. elim (Bool-cases is_owner) [
              | inl owner ↦ rw owner (process_services-Settles none now services k h)
              | inr first ↦ rw first (
                  process_services-Settles (some now.application_name) now services _
                    (λ later. discover_common_services-Settles later k h))
            ]))
  ]
