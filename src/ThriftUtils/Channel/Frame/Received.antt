-- ===== src/ThriftUtils/Channel/Frame/Received.antt =====
-- What `readToBuffer` reads, and how often it calls its callback.
use ezbake_common_cpp.Common.Async.{Once, run, answer}
use ezbake_common_cpp.Common.{
  ℕ, ◌<◌, ◌≡◌, refl, ltb, leb, Bool-cases, Option-cases, inl, inr, false, none, some, ◌++◌, length,
  Text, arith,
}
use ezbake_common_cpp.ThriftUtils.Channel.Frame.Bytes.{ntohl_value-htonl_bytes}
use ezbake_common_cpp.ThriftUtils.Channel.Frame.{
  MemoryBuffer, htonl_bytes, ntohl_value, unable_to_read, handle_read_frame_payload,
  read_frame_payload, handle_read_frame_length, read_frame,
}
use ezbake_common_cpp.ThriftUtils.Channel.{ErrorCode, Failure, SocketOp, SocketReply, Channel, read}

-- A `TMemoryBuffer` that has room: what is written to it goes behind what it holds.
pub record IsMemory {M : Type 0} (memory : MemoryBuffer M) (contents : M → Text) : Type 0 where
  pub room :
      (m : M) (n : ℕ)
      → (grown : M) × (memory.get_write_ptr m n ≡ some grown)
        × ((bytes : Text)
            → length bytes ≡ n
            → (filled : M) × (memory.wrote_bytes grown bytes ≡ some filled)
              × (contents filled ≡ contents m ++ bytes))

-- A stream without errors: a read takes the bytes in front.
pub record IsStream {S Endpoint : Type 0}
    (step : S → (op : SocketOp Endpoint) → S × SocketReply Endpoint op) (incoming : S → Text)
    : Type 0 where
  pub reads :
      (s : S) (bytes rest : Text)
      → incoming s ≡ bytes ++ rest
      → ((step s (read (length bytes))).1 ≡ (none, bytes))
        × (incoming (step s (read (length bytes))).0 ≡ rest)

module _ {Endpoint M S A : Type 0} (memory : MemoryBuffer M)
    (step : S → (op : SocketOp Endpoint) → S × SocketReply Endpoint op) where
  handle_read_frame_length_lem :
      (cb : Failure → M → Channel Endpoint A) (m : M) (n : ℕ)
      → n < 2147483648
      → handle_read_frame_length memory cb m (none, htonl_bytes n)
        ≡ read_frame_payload memory cb m n
  unfolding handle_read_frame_length htonl_bytes
  handle_read_frame_length_lem cb m n short =
      let small : leb 2147483648 n ≡ false = ground arith in
      rw (ntohl_value-htonl_bytes n (omega arith), small) refl

  read_frame_payload_lem :
      (contents : M → Text) (incoming : S → Text) (cb : Failure → M → Channel Endpoint A) (m : M)
      (s : S) (payload rest : Text)
      → IsMemory memory contents
      → IsStream step incoming
      → incoming s ≡ payload ++ rest
      → (filled : M) × (later : S) × (contents filled ≡ contents m ++ payload)
        × (incoming later ≡ rest)
        × (run step (read_frame_payload memory cb m (length payload)) s
            ≡ run step (cb none filled) later)
  unfolding read_frame_payload run handle_read_frame_payload
  read_frame_payload_lem contents incoming cb m s payload rest law stream arrived =
      let (body, remaining) = stream.reads s payload rest arrived in
      let (grown, reserved, fill) = law.room m (length payload) in
      let (filled, wrote, held) = fill payload refl in
      (
        filled,
        (step s (read (length payload))).0,
        held,
        remaining,
        rw (reserved, read_frame_payload, run, body, handle_read_frame_payload, wrote) refl,
      )

  -- From a stream that starts with a frame the payload is read, and nothing behind it.
  pub read_frame_lem :
      (contents : M → Text) (incoming : S → Text) (cb : Failure → M → Channel Endpoint A) (m : M)
      (s : S) (payload rest : Text)
      → IsMemory memory contents
      → IsStream step incoming
      → length payload < 2147483648
      → incoming s ≡ htonl_bytes (length payload) ++ (payload ++ rest)
      → (filled : M) × (later : S) × (contents filled ≡ contents m ++ payload)
        × (incoming later ≡ rest)
        × (run step (read_frame memory cb m) s ≡ run step (cb none filled) later)
  unfolding read_frame run htonl_bytes
  read_frame_lem contents incoming cb m s payload rest law stream short arrived =
      let (header, left) =
        stream.reads s (htonl_bytes (length payload)) (payload ++ rest) arrived in
      let after = (step s (read (length (htonl_bytes (length payload))))).0 in
      let sized : (step s (read 4)).1 ≡ (none, htonl_bytes (length payload)) = header in
      let (filled, later, held, remaining, eq) =
        read_frame_payload_lem contents incoming cb m after payload rest law stream left in
      (
        filled,
        later,
        held,
        remaining,
        rw (run, sized, handle_read_frame_length_lem cb m (length payload) short) eq,
      )

module _ {Endpoint M S : Type 0} (memory : MemoryBuffer M)
    (step : S → (op : SocketOp Endpoint) → S × SocketReply Endpoint op) where
  abbrev principal : Failure → M → Channel Endpoint (Failure × M)
  principal failure m = answer (failure, m)

  unable_to_read-Once : (m : M) (s : S) → Once (run step (unable_to_read memory principal m) s)
  unfolding unable_to_read run
  unable_to_read-Once m s = (_, refl, refl)

  handle_read_frame_payload-Once :
      (m : M) (r : ErrorCode × Text) (s : S)
      → Once (run step (handle_read_frame_payload memory principal m r) s)
  unfolding handle_read_frame_payload run
  handle_read_frame_payload-Once m (some message, bytes) s = (_, refl, refl)
  handle_read_frame_payload-Once m (none, bytes) s =
      elim (Option-cases (memory.wrote_bytes m bytes)) [
        | inl refused ↦ rw (refused, handle_read_frame_payload) (unable_to_read-Once m s)
        | inr (filled, wrote) ↦ rw (wrote, handle_read_frame_payload, run) (_, refl, refl)
      ]

  read_frame_payload-Once :
      (m : M) (n : ℕ) (s : S) → Once (run step (read_frame_payload memory principal m n) s)
  unfolding read_frame_payload run
  read_frame_payload-Once m n s = elim (Option-cases (memory.get_write_ptr m n)) [
    | inl refused ↦ rw (refused, read_frame_payload) (unable_to_read-Once m s)
    | inr (grown, reserved) ↦
        rw (reserved, read_frame_payload, run)
          (handle_read_frame_payload-Once grown (step s (read n)).1 (step s (read n)).0)
  ]

  handle_read_frame_length-Once :
      (m : M) (r : ErrorCode × Text) (s : S)
      → Once (run step (handle_read_frame_length memory principal m r) s)
  unfolding handle_read_frame_length run
  handle_read_frame_length-Once m (some message, bytes) s = (_, refl, refl)
  handle_read_frame_length-Once m (none, bytes) s = elim (Bool-cases (ltb (length bytes) 4)) [
    | inl partial ↦ rw (partial, handle_read_frame_length, run) (_, refl, refl)
    | inr whole ↦ elim (Bool-cases (leb 2147483648 (ntohl_value bytes))) [
      | inl negative ↦ rw (whole, handle_read_frame_length, negative, run) (_, refl, refl)
      | inr positive ↦
          rw (whole, handle_read_frame_length, positive)
            (read_frame_payload-Once m (ntohl_value bytes) s)
    ]
  ]

  -- Whatever the stream and the memory do, `readToBuffer` calls its callback once.
  pub read_frame-Once : (m : M) (s : S) → Once (run step (read_frame memory principal m) s)
  unfolding read_frame run
  read_frame-Once m s = handle_read_frame_length-Once m (step s (read 4)).1 (step s (read 4)).0
