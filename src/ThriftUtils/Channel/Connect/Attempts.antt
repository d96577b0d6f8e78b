-- ===== src/ThriftUtils/Channel/Connect/Attempts.antt =====
-- Which endpoint a channel connects to, and what its callback is told.
use ezbake_common_cpp.Common.Async.{crashed, wait, Once, run, answer}
use ezbake_common_cpp.Common.{
  ℕ, ◌≡◌, ◌↔◌, refl, sym, ◌∙◌, if◌then◌else◌, Bool, Bool-cases, Option-cases, inl, inr, true, false,
  ◌||◌, none, some, List, [], ◌∷◌, Text,
}
use ezbake_common_cpp.Net.HostAndPort.{decimal}
use ezbake_common_cpp.ThriftUtils.Channel.Connect.{
  failed_on_all, handle_connect, reset_socket, connect_to_resolved_endpoint, handle_resolve,
  connect, handle_handshake, initiate_handshake, connect_ssl, handle_shutdown, shutdown,
}
use ezbake_common_cpp.ThriftUtils.Channel.{
  ErrorCode, Failure, SocketOp, SocketReply, Channel, resolve, connect_to, is_open, close_socket,
  shutdown_stream, handshake,
}

-- Endpoints accept connections or refuse them, and a socket is closed without an error.
pub record IsNetwork {S Endpoint : Type 0}
    (step : S → (op : SocketOp Endpoint) → S × SocketReply Endpoint op) (accepts : Endpoint → Bool)
    : Type 0 where
  pub closes : (s : S) → (step s close_socket).1 ≡ none
  pub accepted : (s : S) (e : Endpoint) → accepts e ≡ true → (step s (connect_to e)).1 ≡ none
  pub refused :
      (s : S) (e : Endpoint)
      → accepts e ≡ false
      → (message : Text) × ((step s (connect_to e)).1 ≡ some message)

abbrev pub any_accepts : {Endpoint : Type 0} → (Endpoint → Bool) → List Endpoint → Bool
any_accepts accepts [] = false
any_accepts accepts (e ∷ endpoints) = accepts e || any_accepts accepts endpoints

-- What the callback is told after the endpoints were tried.
abbrev pub attempted : Bool → Failure
attempted b = if b then none else some failed_on_all

module _ {S Endpoint A : Type 0} (step : S → (op : SocketOp Endpoint) → S × SocketReply Endpoint op)
    (accepts : Endpoint → Bool) (law : IsNetwork step accepts) where
  reset_socket_lem :
      (connection : Channel Endpoint A) (s : S)
      → (later : S) × (run step (reset_socket connection) s ≡ run step connection later)
  unfolding reset_socket run
  reset_socket_lem connection s = elim (Bool-cases (step s is_open).1) [
    | inl opened ↦
        let closed = law.closes (step s is_open).0 in
        ((step (step s is_open).0 close_socket).0, rw (opened, run, closed) refl)
    | inr shut ↦ ((step s is_open).0, rw (shut, run) refl)
  ]

  -- The endpoints are tried in their order until one accepts; the callback is told of a failure only
  -- if none of them does.
  pub connect_to_resolved_endpoint_lem :
      (e : Endpoint) (endpoints : List Endpoint) (cb : Failure → Channel Endpoint A) (s : S)
      → (later : S) × (run step (connect_to_resolved_endpoint (e ∷ endpoints) cb) s
          ≡ run step (cb (attempted (any_accepts accepts (e ∷ endpoints)))) later)
  unfolding connect_to_resolved_endpoint run handle_connect
  connect_to_resolved_endpoint_lem e [] cb s =
      let (ready, reset) =
        reset_socket_lem (wait (connect_to e) (λ r. handle_connect r [] crashed cb)) s in
      elim (Bool-cases (accepts e)) [
        | inl good ↦ (
          (step ready (connect_to e)).0,
          rw good (reset ∙ rw (run, law.accepted ready e good, handle_connect) refl),
        )
        | inr bad ↦
            let (message, failed) = law.refused ready e bad in
            ((step ready (connect_to e)).0, rw bad (reset ∙ rw (run, failed, handle_connect) refl))
      ]
  connect_to_resolved_endpoint_lem e (next ∷ endpoints) cb s =
      let retry = connect_to_resolved_endpoint (next ∷ endpoints) cb in
      let (ready, reset) =
        reset_socket_lem (wait (connect_to e) (λ r. handle_connect r (next ∷ endpoints) retry cb))
          s in
      let after = (step ready (connect_to e)).0 in
      elim (Bool-cases (accepts e)) [
        | inl good ↦
            (after, rw good (reset ∙ rw (run, law.accepted ready e good, handle_connect) refl))
        | inr bad ↦
            let (message, failed) = law.refused ready e bad in
            let (later, tried) = connect_to_resolved_endpoint_lem next endpoints cb after in
            (later, rw bad (reset ∙ rw (run, failed, handle_connect) tried))
      ]

  -- Of a host that resolves, the callback is told of a connection if an endpoint accepts, and else that
  -- all of them failed.
  pub connect_lem :
      (host : Text) (port : ℕ) (e : Endpoint) (endpoints : List Endpoint)
      (cb : Failure → Channel Endpoint A) (s : S)
      → (step s (resolve host (decimal port))).1 ≡ (none, e ∷ endpoints)
      → (later : S) × (run step (connect host port cb) s
          ≡ run step (cb (attempted (any_accepts accepts (e ∷ endpoints)))) later)
  unfolding connect run handle_resolve
  connect_lem host port e endpoints cb s resolved =
      let (later, tried) =
        connect_to_resolved_endpoint_lem e endpoints cb (step s (resolve host (decimal port))).0 in
      (later, rw (run, resolved, handle_resolve) tried)

module _ {S Endpoint : Type 0}
    (step : S → (op : SocketOp Endpoint) → S × SocketReply Endpoint op) where
  handle_handshake-Once : (e : ErrorCode) (s : S) → Once (run step (handle_handshake e answer) s)
  unfolding handle_handshake run
  handle_handshake-Once none s = (_, refl, refl)
  handle_handshake-Once (some message) s = (_, refl, refl)

  initiate_handshake-Once :
      (failure : Failure) (s : S) → Once (run step (initiate_handshake failure answer) s)
  unfolding initiate_handshake run
  initiate_handshake-Once none s = handle_handshake-Once (step s handshake).1 (step s handshake).0
  initiate_handshake-Once (some e) s = (_, refl, refl)

  -- Of a host that resolves, the callback of an SSL channel that connects is called once, whether an
  -- endpoint accepts or not and whether the handshake succeeds or not.
  pub connect_ssl-Once :
      (accepts : Endpoint → Bool) (host : Text) (port : ℕ) (e : Endpoint)
      (endpoints : List Endpoint) (s : S)
      → IsNetwork step accepts
      → (step s (resolve host (decimal port))).1 ≡ (none, e ∷ endpoints)
      → Once (run step (connect_ssl host port answer) s)
  unfolding connect_ssl
  connect_ssl-Once accepts host port e endpoints s law resolved =
      let failure = attempted (any_accepts accepts (e ∷ endpoints)) in
      let (later, eq) =
        connect_lem step accepts law host port e endpoints (λ f. initiate_handshake f answer) s
          resolved in
      rw eq (initiate_handshake-Once failure later)

  handle_shutdown-Once : (e : ErrorCode) (s : S) → Once (run step (handle_shutdown e answer) s)
  unfolding handle_shutdown run
  handle_shutdown-Once (some message) s = (_, refl, refl)
  handle_shutdown-Once none s = elim (Bool-cases (step s is_open).1) [
    | inr shut ↦ rw (shut, run) (_, refl, refl)
    | inl opened ↦ elim (Option-cases (step (step s is_open).0 close_socket).1) [
      | inl closed ↦ rw (opened, run, closed, run) (_, refl, refl)
      | inr (message, failed) ↦ rw (opened, run, failed, run) (_, refl, refl)
    ]
  ]

  shutdown-Once : (s : S) → (step s is_open).1 ≡ true → Once (run step (shutdown answer) s)
  unfolding shutdown run
  shutdown-Once s opened =
      let after = step (step s is_open).0 shutdown_stream in
      rw (opened, run) (handle_shutdown-Once after.1 after.0)

  -- `shutdown` of an SSL channel never calls its callback where the channel is not open, and only there.
  pub shutdown_dropped :
      (s : S) → ((step s is_open).1 ≡ false) ↔ ((run step (shutdown answer) s).calls ≡ [])
  unfolding shutdown run
  shutdown_dropped s = (
    λ shut. rw (shut, run) refl,
    λ silent. elim (Bool-cases (step s is_open).1) [
      | inr shut ↦ shut
      | inl opened ↦
          let (a, told, ended) = shutdown-Once s opened in absurd (cc (sym told ∙ silent))
    ],
  )
