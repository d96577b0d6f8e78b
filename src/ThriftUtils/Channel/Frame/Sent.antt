-- ===== src/ThriftUtils/Channel/Frame/Sent.antt =====
-- What `writeFromBuffer` sends, and the buffer it leaves.
use ezbake_common_cpp.Common.Async.{finished, wait}
use ezbake_common_cpp.Common.Result.{Result, ok}
use ezbake_common_cpp.Common.{
  ℕ, ◌+◌, ◌%◌, ◌≤◌, ◌<◌, ◌≡◌, refl, leb, ◌==◌, if◌then◌else◌, Bool-cases, inl, inr, [], ◌∷◌, ◌++◌,
  length, Text, arith,
}
use ezbake_common_cpp.ThriftUtils.Channel.Frame.Bytes.{grow_lem}
use ezbake_common_cpp.ThriftUtils.Channel.Frame.{
  OutputTransport, BufferBase, htonl_bytes, after_pad, write_slow, handle_flush_complete, flush,
  write_from_buffer,
}
use ezbake_common_cpp.ThriftUtils.Channel.{Failure, Channel, write}

-- `TBufferBase::write`: bytes for which there is room go into the buffer, and else `writeSlow` has them.
pub record IsBufferBase (base : BufferBase) : Type 0 where
  pub fits :
      (slow : OutputTransport → Text → Result OutputTransport) (t : OutputTransport) (buf : Text)
      → length buf + length t.written ≤ t.w_buf_size
      → base slow t buf ≡ ok (record t { written = t.written ++ buf })
  pub full :
      (slow : OutputTransport → Text → Result OutputTransport) (t : OutputTransport) (buf : Text)
      → t.w_buf_size < length buf + length t.written
      → base slow t buf ≡ slow t buf

-- Nothing but the pad is in the buffer.
pub record IsClean (t : OutputTransport) : Type 0 where
  pub pad : length t.written ≡ 4
  pub room : 4 < t.w_buf_size
  pub bounded : t.w_buf_size < 4294967296

after_pad-append : (pad payload : Text) → length pad ≡ 4 → after_pad (pad ++ payload) ≡ payload
unfolding after_pad
after_pad-append (a ∷ b ∷ c ∷ d ∷ []) payload h = refl
after_pad-append [] payload h = ground arith
after_pad-append (a ∷ []) payload h = ground arith
after_pad-append (a ∷ b ∷ []) payload h = ground arith
after_pad-append (a ∷ b ∷ c ∷ []) payload h = ground arith
after_pad-append (a ∷ b ∷ c ∷ d ∷ e ∷ pad) payload h = ground arith

write_slow_ok :
    (t : OutputTransport) (buf : Text)
    → 0 < t.w_buf_size
    → t.w_buf_size < 4294967296
    → length buf + length t.written ≤ 2147483647
    → (size : ℕ) × (write_slow t buf
        ≡ ok (record { written = t.written ++ buf; w_buf_size = size }))
      × (t.w_buf_size ≤ size)
      × (size < 4294967296)
unfolding write_slow
write_slow_ok t buf positive bounded short =
    let (size, eq, wide, small, larger) =
      grow_lem t.w_buf_size (length buf + length t.written) positive short bounded in
    let same : (length buf + length t.written) % 4294967296 ≡ length buf + length t.written =
      omega arith in
    (size, rw same (ground (arith, eq)), larger, small)

flush_lem :
    {Endpoint A : Type 0} (pad message : Text) (size : ℕ) (cb : Failure → Channel Endpoint A)
    → length pad ≡ 4
    → 4 < size
    → length message < 2147483648
    → flush (record { written = pad ++ message; w_buf_size = size }) cb ≡ (
      record { written = htonl_bytes (length message); w_buf_size = size },
      if 0 == length message
          then finished
          else wait
              (write (htonl_bytes (length message) ++ message))
              (λ e. handle_flush_complete e cb),
    )
unfolding flush htonl_bytes
flush_lem pad [] size cb padded room short =
    rw (after_pad-append pad [] padded, flush) (ground arith)
flush_lem pad (c ∷ message) size cb padded room short =
    rw (after_pad-append pad (c ∷ message) padded, flush) (ground arith)

module _ (base : BufferBase) (law : IsBufferBase base) where
  -- The buffer after a write that is not too long.
  base-ok :
      (t : OutputTransport) (buf : Text)
      → IsClean t
      → length buf + 4 ≤ 2147483647
      → (size : ℕ) × (base write_slow t buf
          ≡ ok (record { written = t.written ++ buf; w_buf_size = size }))
        × (4 < size)
        × (size < 4294967296)
  base-ok t buf clean short = elim (Bool-cases (leb (length buf + length t.written) t.w_buf_size)) [
    | inl fit ↦ (t.w_buf_size, law.fits write_slow t buf (ground arith), clean.room, clean.bounded)
    | inr over ↦
        let (size, eq, larger, small) =
          write_slow_ok t buf (omega (arith, clean.room)) clean.bounded
            (omega (arith, clean.pad)) in
        (size, rw (law.full write_slow t buf (ground arith)) eq, omega (arith, clean.room), small)
  ]

  -- A message is sent as its length and its bytes, whatever was sent before; an empty one is not sent,
  -- and its callback is dropped.
  pub write_from_buffer_lem :
      {Endpoint A : Type 0} (t : OutputTransport) (message : Text)
      (cb : Failure → Channel Endpoint A)
      → IsClean t
      → length message + 4 ≤ 2147483647
      → (after : OutputTransport) × IsClean after
        × (write_from_buffer base t message cb ≡ (
          after,
          if 0 == length message
              then finished
              else wait
                  (write (htonl_bytes (length message) ++ message))
                  (λ e. handle_flush_complete e cb),
        ))
  unfolding write_from_buffer
  write_from_buffer_lem t message cb clean short =
      let (size, eq, room, bounded) = base-ok t message clean short in
      (
        record { written = htonl_bytes (length message); w_buf_size = size },
        record { pad = refl; room = room; bounded = bounded },
        rw (eq, write_from_buffer)
            (flush_lem t.written message size cb clean.pad room (omega arith)),
      )
