-- ===== src/ThriftUtils/Channel/Transfer.antt =====
-- Messages over a channel: `sendMessage…`, `recvMessage…` and `sendAndRecvMessage…` of
-- TAsyncCommonSocketChannel.h and TAsyncCommonSocketChannel.cpp. `what` is that of the exceptions.
pub mod Exchange
use ezbake_common_cpp.Common.Async.{raised}
use ezbake_common_cpp.Common.Result.{Exception, thrift_exception}
use ezbake_common_cpp.Common.{Option, none, some, [], ◌++◌, Text, codes}
use ezbake_common_cpp.ThriftUtils.Channel.Frame.{
  OutputTransport, BufferBase, MemoryBuffer, write_from_buffer, read_frame,
}
use ezbake_common_cpp.ThriftUtils.Channel.{Failure, Channel}

module _ {Endpoint M A : Type 0} (memory : MemoryBuffer M) (what : Exception → Text) where
  unfoldable pub recv_message : M → (Failure → M → Channel Endpoint A) → Channel Endpoint A
  unfolding read_frame
  recv_message recv_buf cb = read_frame memory cb recv_buf

  unfoldable pub handle_send_and_recv :
      Failure → M → (Failure → M → Channel Endpoint A) → Channel Endpoint A
  unfolding recv_message
  handle_send_and_recv (some exception) recv_buf cb =
      cb (some (thrift_exception (codes "Failure in sending message: " ++ what exception))) recv_buf
  handle_send_and_recv none recv_buf cb = recv_message recv_buf cb

  module _ (base : BufferBase) where
    unfoldable pub send_and_recv_message_with_return_callback :
        OutputTransport
        → Text
        → M
        → (Failure → M → Channel Endpoint A)
        → OutputTransport × Channel Endpoint A
    unfolding write_from_buffer handle_send_and_recv
    send_and_recv_message_with_return_callback t send_buf recv_buf cb =
        write_from_buffer base t send_buf (λ failure. handle_send_and_recv failure recv_buf cb)

    -- A failure is logged, and the principal's callback is not told.
    unfoldable pub handle_send_and_recv_message_completion :
        (M → Channel Endpoint A) → Failure → M → Channel Endpoint A
    handle_send_and_recv_message_completion principal_cb failure recv_buf = principal_cb recv_buf

    unfoldable pub send_and_recv_message :
        OutputTransport
        → Option Text
        → Option M
        → (M → Channel Endpoint A)
        → OutputTransport × Channel Endpoint A
    unfolding send_and_recv_message_with_return_callback handle_send_and_recv_message_completion
    send_and_recv_message t none recv_buf cb =
        (t, raised (thrift_exception (codes "sendBuf_ptr is NULL")))
    send_and_recv_message t (some send_buf) none cb =
        (t, raised (thrift_exception (codes "recvBuf_ptr is NULL")))
    send_and_recv_message t (some send_buf) (some recv_buf) cb =
        send_and_recv_message_with_return_callback t send_buf recv_buf
          (λ failure m. handle_send_and_recv_message_completion cb failure m)
