-- ===== src/ThriftUtils/Channel/Tests.antt =====
-- The theorems on channels at a concrete one: a stream of bytes, endpoints that are numbers, and a server
-- that answers each request with the same text.
use ezbake_common_cpp.Common.Async.{wait, Once, Answers, run, answer}
use ezbake_common_cpp.Common.Result.{Exception, ok}
use ezbake_common_cpp.Common.{
  ℕ, zero, suc, ◌+◌, ◌≡◌, ◌↔◌, refl, ap, leb, ◌==◌, if◌then◌else◌, true, false, none, some, [], ◌∷◌,
  ◌++◌, length, Text, codes, arith,
}
use ezbake_common_cpp.ThriftUtils.Channel.Connect.Attempts.{
  IsNetwork, connect_lem, shutdown_dropped,
}
use ezbake_common_cpp.ThriftUtils.Channel.Connect.{connect, shutdown}
use ezbake_common_cpp.ThriftUtils.Channel.Frame.Received.{IsMemory, IsStream, read_frame-Once}
use ezbake_common_cpp.ThriftUtils.Channel.Frame.Sent.{IsBufferBase, IsClean, write_from_buffer_lem}
use ezbake_common_cpp.ThriftUtils.Channel.Frame.{
  OutputTransport, BufferBase, MemoryBuffer, htonl_bytes, handle_flush_complete, write_from_buffer,
  read_frame,
}
use ezbake_common_cpp.ThriftUtils.Channel.Transfer.Exchange.{frame, IsServer, send_and_recv_lem}
use ezbake_common_cpp.ThriftUtils.Channel.Transfer.{send_and_recv_message_with_return_callback}
use ezbake_common_cpp.ThriftUtils.Channel.{
  Failure, SocketOp, SocketReply, Channel, resolve, connect_to, is_open, close_socket,
  shutdown_stream, shutdown_now, handshake, write, read,
}

abbrev take : ℕ → Text → Text
take zero s = []
take (suc n) [] = []
take (suc n) (c ∷ s) = c ∷ take n s

abbrev drop : ℕ → Text → Text
drop zero s = s
drop (suc n) [] = []
drop (suc n) (c ∷ s) = drop n s

take-append : (a b : Text) → take (length a) (a ++ b) ≡ a
take-append [] b = refl
take-append (c ∷ a) b = ap (◌∷◌ c) (take-append a b)

drop-append : (a b : Text) → drop (length a) (a ++ b) ≡ b
drop-append [] b = refl
drop-append (c ∷ a) b = drop-append a b

-- The endpoint 2 accepts, and the socket is closed.
abbrev step : Text → (op : SocketOp ℕ) → Text × SocketReply ℕ op
step s (resolve host port) = (s, (none, 1 ∷ 2 ∷ []))
step s (connect_to e) = (s, if e == 2 then none else some (codes "refused"))
step s is_open = (s, false)
step s close_socket = (s, none)
step s shutdown_stream = (s, none)
step s shutdown_now = (s, none)
step s handshake = (s, none)
step s (write bytes) = (frame (codes "ok"), none)
step s (read n) = (drop n s, (none, take n s))

abbrev base : BufferBase
base slow t buf =
    if leb (length buf + length t.written) t.w_buf_size
    then ok (record t { written = t.written ++ buf })
    else slow t buf

abbrev memory : MemoryBuffer Text
memory = record {
  get_write_ptr = λ m n. some m;
  wrote_bytes = λ m bytes. some (m ++ bytes);
  reset_buffer = λ m. [];
  diagnostic_information = [];
}

abbrev incoming : Text → Text
incoming s = s

base-IsBufferBase : IsBufferBase base
base-IsBufferBase = record {
  fits = λ slow t buf h.
      let room : leb (length buf + length t.written) t.w_buf_size ≡ true = ground arith in
      rw room refl;
  full = λ slow t buf h.
      let none_left : leb (length buf + length t.written) t.w_buf_size ≡ false = ground arith in
      rw none_left refl;
}

memory-IsMemory : IsMemory memory incoming
memory-IsMemory = record { room = λ m n. (m, refl, λ bytes h. (m ++ bytes, refl, refl)) }

step-IsStream : IsStream step incoming
step-IsStream = record {
  reads = λ s bytes rest h. (rw (h, take-append bytes rest) refl, rw h (drop-append bytes rest));
}

step-IsServer : IsServer step incoming (λ request. codes "ok")
step-IsServer = record {
  stream = step-IsStream;
  serves = λ s request h. (refl, refl);
  short = λ request. omega arith;
}

step-IsNetwork : IsNetwork step (λ e. e == 2)
step-IsNetwork = record {
  closes = λ s. refl;
  accepted = λ s e h. rw h refl;
  refused = λ s e h. (codes "refused", rw h refl);
}

abbrev new_transport : OutputTransport
new_transport = record { written = 0 ∷ 0 ∷ 0 ∷ 0 ∷ []; w_buf_size = 512 }

new_transport-IsClean : IsClean new_transport
new_transport-IsClean = record { pad = refl; room = omega arith; bounded = omega arith }

abbrev what : Exception → Text
what e = []

abbrev principal : Failure → Text → Channel ℕ (Failure × Text)
principal failure m = answer (failure, m)

send_and_recv_lem_example :
    (after : OutputTransport) × (sent : Channel ℕ (Failure × Text)) × (filled : Text)
    × (send_and_recv_message_with_return_callback memory what base new_transport
          (codes "hi")
          (codes "-")
          principal
        ≡ (after, sent))
    × IsClean after
    × (filled ≡ codes "-" ++ codes "ok")
    × Answers (run step sent []) (none, filled)
    × ((run step sent []).world ≡ [])
send_and_recv_lem_example =
    send_and_recv_lem memory what base base-IsBufferBase step incoming incoming
      (λ request. codes "ok") new_transport (codes "hi") (codes "-") [] memory-IsMemory
      step-IsServer new_transport-IsClean (omega arith) (omega arith) refl

write_from_buffer_lem_example :
    (after : OutputTransport) × IsClean after
    × (write_from_buffer base new_transport (codes "hi") (λ failure. principal failure []) ≡ (
      after,
      wait
          (write (htonl_bytes 2 ++ codes "hi"))
          (λ e. handle_flush_complete e (λ failure. principal failure [])),
    ))
write_from_buffer_lem_example =
    write_from_buffer_lem base base-IsBufferBase new_transport (codes "hi")
      (λ failure. principal failure []) new_transport-IsClean (omega arith)

read_frame-Once_example :
    Once (run step (read_frame memory principal []) (0 ∷ 0 ∷ 0 ∷ 2 ∷ codes "ok"))
read_frame-Once_example = read_frame-Once memory step [] (0 ∷ 0 ∷ 0 ∷ 2 ∷ codes "ok")

connect_lem_example :
    (later : Text) × (run step (connect (codes "h") 80 (λ failure. principal failure [])) []
      ≡ run step (principal none []) later)
connect_lem_example =
    connect_lem step (λ e. e == 2) step-IsNetwork (codes "h") 80 1 (2 ∷ [])
      (λ failure. principal failure []) [] refl

shutdown_dropped_example : (false ≡ false) ↔ ((run step (shutdown answer) []).calls ≡ [])
shutdown_dropped_example = shutdown_dropped step []
