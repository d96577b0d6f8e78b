-- ===== src/ThriftUtils/Channel/Connect.antt =====
-- How a channel connects, and how it is closed: thrift-utils/src/main/cpp/tasync, with the SSL channel.
-- A function that returns to its caller ends with a callback too, and an exception is `raised`.
pub mod Attempts
use ezbake_common_cpp.Common.Async.{finished, crashed, raised, wait}
use ezbake_common_cpp.Common.Result.{Exception, thrift_exception}
use ezbake_common_cpp.Common.{ℕ, if◌then◌else◌, none, some, List, [], ◌∷◌, ◌++◌, Text, codes}
use ezbake_common_cpp.Net.HostAndPort.{decimal}
use ezbake_common_cpp.ThriftUtils.Channel.{
  ErrorCode, Failure, Channel, resolve, connect_to, is_open, close_socket, shutdown_stream,
  shutdown_now, handshake,
}

abbrev pub failed_on_all : Exception
failed_on_all =
    thrift_exception (codes "TAsyncCommonSocketChannel failed after trying all endpoints")

module _ {Endpoint A : Type 0} where
  -- `handleConnect`; `retry` is the connection to the next endpoint, where there is one.
  unfoldable pub handle_connect :
      ErrorCode
      → List Endpoint
      → (retry : Channel Endpoint A) → (Failure → Channel Endpoint A)
      → Channel Endpoint A
  handle_connect none endpoints retry cb = cb none
  handle_connect (some message) (e ∷ endpoints) retry cb = retry
  handle_connect (some message) [] retry cb = cb (some failed_on_all)

  -- The socket is closed before the next endpoint; an exception of `close` leaves the handler.
  unfoldable pub reset_socket : Channel Endpoint A → Channel Endpoint A
  reset_socket connection = wait is_open (λ o.
      if o
      then wait close_socket
          (λ e. elim e [ none ↦ connection | some message ↦ raised (thrift_exception message) ])
      else connection)

  -- There is no endpoint to read at the end of the resolved ones.
  unfoldable pub connect_to_resolved_endpoint :
      List Endpoint → (Failure → Channel Endpoint A) → Channel Endpoint A
  unfolding handle_connect reset_socket
  connect_to_resolved_endpoint [] cb = crashed
  connect_to_resolved_endpoint (endpoint ∷ endpoints) cb = reset_socket (
      wait (connect_to endpoint)
        (λ e. handle_connect e endpoints (connect_to_resolved_endpoint endpoints cb) cb))

  unfoldable pub handle_resolve :
      ErrorCode × List Endpoint → (Failure → Channel Endpoint A) → Channel Endpoint A
  unfolding connect_to_resolved_endpoint
  handle_resolve (none, endpoints) cb = connect_to_resolved_endpoint endpoints cb
  handle_resolve (some message, endpoints) cb = cb (
      some (
        thrift_exception
          (codes "TAsyncCommonSocketChannel error in handling resolve: " ++ message)))

  unfoldable pub connect :
      (host : Text) (port : ℕ) → (Failure → Channel Endpoint A) → Channel Endpoint A
  unfolding handle_resolve decimal
  connect host port cb = wait (resolve host (decimal port)) (λ r. handle_resolve r cb)

  -- `TAsyncSocketChannel::close`
  unfoldable pub close : (Failure → Channel Endpoint A) → Channel Endpoint A
  close cb = wait is_open (λ o.
      if o
      then wait close_socket (λ e. elim e [
        | none ↦ cb none
        | some message ↦
            raised (thrift_exception (codes "Error in closing underlying socket: " ++ message))
      ])
      else cb none)

  unfoldable pub handle_handshake : ErrorCode → (Failure → Channel Endpoint A) → Channel Endpoint A
  handle_handshake none cb = cb none
  handle_handshake (some message) cb =
      cb (some (thrift_exception (codes "SSL handshake failed: " ++ message)))

  unfoldable pub initiate_handshake : Failure → (Failure → Channel Endpoint A) → Channel Endpoint A
  unfolding handle_handshake
  initiate_handshake none cb = wait handshake (λ e. handle_handshake e cb)
  initiate_handshake (some exception) cb = cb (some exception)

  -- `TAsyncSSLSocketChannel::connect`
  unfoldable pub connect_ssl :
      (host : Text) (port : ℕ) → (Failure → Channel Endpoint A) → Channel Endpoint A
  unfolding connect initiate_handshake
  connect_ssl host port cb = connect host port (λ failure. initiate_handshake failure cb)

  unfoldable pub handle_shutdown : ErrorCode → (Failure → Channel Endpoint A) → Channel Endpoint A
  handle_shutdown (some message) cb =
      cb (some (thrift_exception (codes "SSL shutdown failed: " ++ message)))
  handle_shutdown none cb = wait is_open (λ o.
      if o
      then wait close_socket (λ e. elim e [
        | none ↦ cb none
        | some message ↦ cb (
            some (
              thrift_exception
                (codes "SSL shutdown failed: Error in closing underlying socket: " ++ message)))
      ])
      else cb none)

  -- `TAsyncSSLSocketChannel::shutdown`, which does nothing on a channel that is not open.
  unfoldable pub shutdown : (Failure → Channel Endpoint A) → Channel Endpoint A
  unfolding handle_shutdown
  shutdown cb =
      wait is_open (λ o. if o then wait shutdown_stream (λ e. handle_shutdown e cb) else finished)

  -- `TAsyncSSLSocketChannel::close`
  unfoldable pub close_ssl : (Failure → Channel Endpoint A) → Channel Endpoint A
  close_ssl cb =
      let failing : Text → Channel Endpoint A = λ message.
        raised (thrift_exception (codes "Error in closing underlying socket: " ++ message)) in
      wait is_open (λ good.
        if good
        then wait shutdown_now (λ e. elim e [
          | some message ↦ failing message
          | none ↦ wait is_open (λ o.
              if o
              then wait close_socket
                  (λ e'. elim e' [ none ↦ cb none | some message ↦ failing message ])
              else cb none)
        ])
        else cb none)
