-- ===== src/ThriftUtils/Channel.antt =====
-- The asynchronous socket channels of thrift-utils: `TAsyncCommonSocketChannel` and its subclasses,
-- thrift-utils/src/main/cpp/tasync. What is asked of a socket is the type `SocketOp`; the functions
-- take the callback that they end with. Strands run the handlers of a channel one after the other.
pub mod Frame
mod Tests
pub mod Connect
pub mod Transfer
use ezbake_common_cpp.Common.Async.{Async}
use ezbake_common_cpp.Common.Result.{Exception}
use ezbake_common_cpp.Common.{ℕ, Bool, Option, List, [], Text}

-- `error_code`: its message, or `none` where it is false.
abbrev pub ErrorCode : Type 0
ErrorCode = Option Text

-- `shared_ptr<TTransportException>`
abbrev pub Failure : Type 0
Failure = Option Exception

module _ (Endpoint : Type 0) where
  pub data SocketOp : Type 0 where
    resolve : (host port : Text) → SocketOp
    connect_to : Endpoint → SocketOp
    is_open close_socket shutdown_stream shutdown_now handshake : SocketOp
    write : Text → SocketOp
    read : ℕ → SocketOp

-- What comes back: the endpoints of a host, the bytes read, or nothing but an error.
abbrev pub SocketReply : (Endpoint : Type 0) → SocketOp Endpoint → Type 0
SocketReply Endpoint (resolve host port) = ErrorCode × List Endpoint
SocketReply Endpoint is_open = Bool
SocketReply Endpoint (read n) = ErrorCode × Text
SocketReply Endpoint other = ErrorCode

abbrev pub Channel : Type 0 → Type 0 → Type 0
Channel Endpoint A = Async (SocketReply Endpoint) A
