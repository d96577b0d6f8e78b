-- ===== src/ThriftUtils/Channel/Transfer/Exchange.antt =====
-- A request and its response over a channel.
use mathlib.Core.List.{append-nil}
use ezbake_common_cpp.Common.Async.{wait, run, answer, Answers}
use ezbake_common_cpp.Common.Result.{Exception}
use ezbake_common_cpp.Common.{
  ◌+◌, ◌≤◌, ◌<◌, ◌≡◌, refl, ◌∙◌, false, ◌==◌, none, [], ◌++◌, length, Text, arith,
}
use ezbake_common_cpp.ThriftUtils.Channel.Frame.Received.{IsMemory, IsStream, read_frame_lem}
use ezbake_common_cpp.ThriftUtils.Channel.Frame.Sent.{IsBufferBase, IsClean, write_from_buffer_lem}
use ezbake_common_cpp.ThriftUtils.Channel.Frame.{
  OutputTransport, BufferBase, MemoryBuffer, htonl_bytes, handle_flush_complete,
}
use ezbake_common_cpp.ThriftUtils.Channel.Transfer.{
  recv_message, handle_send_and_recv, send_and_recv_message_with_return_callback,
}
use ezbake_common_cpp.ThriftUtils.Channel.{Failure, SocketOp, SocketReply, Channel, write}

abbrev pub frame : Text → Text
frame payload = htonl_bytes (length payload) ++ payload

-- A server that answers a request with the response that `serve` gives.
pub record IsServer {S Endpoint : Type 0}
    (step : S → (op : SocketOp Endpoint) → S × SocketReply Endpoint op) (incoming : S → Text)
    (serve : Text → Text) : Type 0 where
  pub stream : IsStream step incoming
  pub serves :
      (s : S) (request : Text)
      → incoming s ≡ []
      → ((step s (write (frame request))).1 ≡ none)
        × (incoming (step s (write (frame request))).0 ≡ frame (serve request))
  pub short : (request : Text) → length (serve request) < 2147483648

module _ {Endpoint M S : Type 0} (memory : MemoryBuffer M) (what : Exception → Text)
    (base : BufferBase) (base_law : IsBufferBase base)
    (step : S → (op : SocketOp Endpoint) → S × SocketReply Endpoint op) where
  abbrev principal : Failure → M → Channel Endpoint (Failure × M)
  principal failure m = answer (failure, m)

  -- Of a request that is neither empty nor too long, the callback is called once with what the server
  -- answers behind what the buffer held, the stream is empty again, and so is the output transport.
  pub send_and_recv_lem :
      (contents : M → Text) (incoming : S → Text) (serve : Text → Text) (t : OutputTransport)
      (request : Text) (m : M) (s : S)
      → IsMemory memory contents
      → IsServer step incoming serve
      → IsClean t
      → 0 < length request
      → length request + 4 ≤ 2147483647
      → incoming s ≡ []
      → (after : OutputTransport) × (sent : Channel Endpoint (Failure × M)) × (filled : M)
        × (send_and_recv_message_with_return_callback memory what base t request m principal
            ≡ (after, sent))
        × IsClean after
        × (contents filled ≡ contents m ++ serve request)
        × Answers (run step sent s) (none, filled)
        × (incoming (run step sent s).world ≡ [])
  unfolding send_and_recv_message_with_return_callback run handle_send_and_recv recv_message
      handle_flush_complete
  send_and_recv_lem contents incoming serve t request m s memory_law server clean some_bytes short
        idle =
      let cb : Failure → Channel Endpoint (Failure × M) =
        λ failure. handle_send_and_recv memory what failure m principal in
      let (after, still, sent) = write_from_buffer_lem base base_law t request cb clean short in
      let some_left : (0 == length request) ≡ false = ground arith in
      let (wrote, response) = server.serves s request idle in
      let (filled, later, held, left, received) =
        read_frame_lem memory step contents incoming principal m (step s (write (frame request))).0
          (serve request) [] memory_law server.stream (server.short request)
          (response ∙ simp append-nil) in
      let answered : run step (wait (write (frame request)) (λ e. handle_flush_complete e cb)) s
          ≡ run step (principal none filled) later =
        rw (run, wrote) received in
      (
        after,
        wait (write (frame request)) (λ e. handle_flush_complete e cb),
        filled,
        sent ∙ rw some_left refl,
        still,
        held,
        rw answered (refl, refl),
        rw answered left,
      )
