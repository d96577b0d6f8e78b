-- ===== src/ThriftUtils/Channel/Frame.antt =====
-- `TAsioOutputTransport` and `TAsioInputTransport` of
-- thrift-utils/src/main/include/ezbake/thriftutils/tasync/TAsyncAsioTransport.h: frames of a length and
-- a payload. `TBufferBase::write` is a parameter, and so is the `TMemoryBuffer` that is read to.
pub mod Bytes
pub mod Sent
pub mod Received
use ezbake_common_cpp.Common.Async.{finished, crashed, raised, wait}
use ezbake_common_cpp.Common.Result.{Exception, Result, ok, throw, hang, crash, thrift_exception}
use ezbake_common_cpp.Common.{
  ℕ, zero, suc, ◌+◌, ◌*◌, ◌/◌, ◌%◌, ltb, leb, ◌==◌, if◌then◌else◌, ◌||◌, Option, none, some, [],
  ◌∷◌, ◌++◌, length, Text, codes,
}
use ezbake_common_cpp.ThriftUtils.Channel.{ErrorCode, Failure, Channel, write, read}

-- The bytes of the buffer before `wBase_`, and its size.
pub record OutputTransport : Type 0 where
  pub written : Text
  pub w_buf_size : ℕ

-- The bytes of `htonl(n)` in memory.
unfoldable pub htonl_bytes : ℕ → Text
htonl_bytes n = n / 16777216 % 256 ∷ n / 65536 % 256 ∷ n / 256 % 256 ∷ n % 256 ∷ []

-- `ntohl` of the four bytes of `*length`, which holds -1 before they are read.
unfoldable pub ntohl_value : Text → ℕ
ntohl_value (a ∷ b ∷ c ∷ d ∷ []) = a * 16777216 + b * 65536 + c * 256 + d
ntohl_value other = 4294967295

unfoldable pub after_pad : Text → Text
after_pad (a ∷ b ∷ c ∷ d ∷ payload) = payload
after_pad other = []

-- The loop of `writeSlow`: `new_size` is doubled until it suffices, in 32 bits.
unfoldable pub grow : (fuel new_size needed : ℕ) → Option ℕ
grow zero new_size needed = none
grow (suc fuel) new_size needed =
    let rest = grow fuel (if 0 == new_size then 1 else new_size * 2 % 4294967296) needed in
    if ltb new_size needed then rest else some new_size

unfoldable pub write_slow : OutputTransport → Text → Result OutputTransport
write_slow t buf =
    let have = length t.written in
    let needed = (length buf + have) % 4294967296 in
    if ltb needed have || ltb 2147483647 needed
    then throw (thrift_exception (codes "Attempted to write over 2 GB to TAsioOutputTransport."))
    else elim (grow 66 t.w_buf_size needed) [
      | none ↦ hang
      | some new_size ↦ ok (record { written = t.written ++ buf; w_buf_size = new_size })
    ]

abbrev pub BufferBase : Type 0
BufferBase =
    (OutputTransport → Text → Result OutputTransport)
    → OutputTransport
    → Text
    → Result OutputTransport

-- The constructor, with the pad for the frame size.
unfoldable pub new_output : BufferBase → ℕ → Result OutputTransport
unfolding write_slow
new_output base default_buffer_size =
    base write_slow (record { written = []; w_buf_size = default_buffer_size }) (0 ∷ 0 ∷ 0 ∷ 0 ∷ [])

module _ {Endpoint A : Type 0} where
  unfoldable pub handle_flush_complete :
      ErrorCode → (Failure → Channel Endpoint A) → Channel Endpoint A
  handle_flush_complete none cb = cb none
  handle_flush_complete (some message) cb =
      cb (some (thrift_exception (codes "Async write error: " ++ message)))

  -- The frame size, an `int32_t`, goes over the pad. The buffer is emptied before the write starts.
  unfoldable pub flush :
      OutputTransport → (Failure → Channel Endpoint A) → OutputTransport × Channel Endpoint A
  unfolding htonl_bytes after_pad handle_flush_complete
  flush t cb =
      if leb t.w_buf_size 4
      then (t, crashed)
      else (let payload = after_pad t.written in
          let size = htonl_bytes (length payload) in
          if 0 == length payload || leb 2147483648 (length payload)
          then (record t { written = size ++ payload }, finished)
          else (
            record t { written = size },
            wait (write (size ++ payload)) (λ e. handle_flush_complete e cb),
          ))

  unfoldable pub write_from_buffer :
      BufferBase
      → OutputTransport
      → Text
      → (Failure → Channel Endpoint A)
      → OutputTransport × Channel Endpoint A
  unfolding flush
  write_from_buffer base t buffer cb = elim (base write_slow t buffer) [
    | ok filled ↦ flush filled cb
    | throw e ↦ (t, raised e)
    | hang ↦ (t, crashed)
    | crash ↦ (t, crashed)
  ]

-- The `TMemoryBuffer` that is read to; `none` where it throws.
pub record MemoryBuffer (M : Type 0) : Type 0 where
  pub get_write_ptr : M → ℕ → Option M
  pub wrote_bytes : M → Text → Option M
  pub reset_buffer : M → M
  pub diagnostic_information : Text

module _ {Endpoint M A : Type 0} (memory : MemoryBuffer M)
    (cb : Failure → M → Channel Endpoint A) where
  unfoldable pub unable_to_read : M → Channel Endpoint A
  unable_to_read m =
      cb
        (some (
          thrift_exception (
            codes "ERROR! Unable to read payload (Exception in TMemoryBuffer): "
            ++ memory.diagnostic_information)))
        (memory.reset_buffer m)

  unfoldable pub handle_read_frame_payload : M → ErrorCode × Text → Channel Endpoint A
  unfolding unable_to_read
  handle_read_frame_payload m (some message, bytes) =
      cb (some (thrift_exception (codes "Async read error: " ++ message))) m
  handle_read_frame_payload m (none, bytes) = elim (memory.wrote_bytes m bytes) [
    | some filled ↦ cb none filled
    | none ↦ unable_to_read m
  ]

  unfoldable pub read_frame_payload : M → ℕ → Channel Endpoint A
  unfolding handle_read_frame_payload unable_to_read
  read_frame_payload m bytes_to_read = elim (memory.get_write_ptr m bytes_to_read) [
    | some grown ↦ wait (read bytes_to_read) (λ r. handle_read_frame_payload grown r)
    | none ↦ unable_to_read m
  ]

  unfoldable pub handle_read_frame_length : M → ErrorCode × Text → Channel Endpoint A
  unfolding ntohl_value read_frame_payload
  handle_read_frame_length m (some message, bytes) =
      cb (some (thrift_exception (codes "Async read error: " ++ message))) m
  handle_read_frame_length m (none, bytes) =
      let frame_length = ntohl_value bytes in
      if ltb (length bytes) 4
      then cb
          (some (
            thrift_exception
              (codes "Async read error: No more data to read after reading partial frame header.")))
          m
      else if leb 2147483648 frame_length
      then cb (some (thrift_exception (codes "Frame size has negative value."))) m
      else read_frame_payload m frame_length

  -- `readToBuffer`, which calls `readFrame`.
  unfoldable pub read_frame : M → Channel Endpoint A
  unfolding handle_read_frame_length
  read_frame m = wait (read 4) (λ r. handle_read_frame_length m r)
