-- ===== src/ThriftUtils/Channel/Frame/Bytes.antt =====
-- The length of a frame, written and read back, and the buffer that grows.
use ezbake_common_cpp.Common.{
  ℕ, zero, suc, ◌*◌, ◌%◌, ◌≤◌, ◌<◌, ◌≡◌, ltb, Bool-cases, inl, inr, some, arith,
}
use ezbake_common_cpp.ThriftUtils.Channel.Frame.{htonl_bytes, ntohl_value, grow}

pub ntohl_value-htonl_bytes : (n : ℕ) → n < 4294967296 → ntohl_value (htonl_bytes n) ≡ n
unfolding ntohl_value htonl_bytes
ntohl_value-htonl_bytes n h = omega arith

-- Doubled as often as the fuel says.
abbrev doubled : (fuel size : ℕ) → ℕ
doubled zero size = size
doubled (suc fuel) size = doubled fuel (size * 2)

-- Of a buffer that is not empty, the new size is found, is large enough and fits in 32 bits.
grow-doubled :
    (fuel size needed : ℕ)
    → 0 < size
    → needed ≤ 2147483647
    → size < 4294967296
    → needed ≤ doubled fuel size
    → (new_size : ℕ) × (grow (suc fuel) size needed ≡ some new_size)
      × (needed ≤ new_size)
      × (new_size < 4294967296)
      × (size ≤ new_size)
unfolding grow
grow-doubled zero size needed positive small fits enough =
    (size, ground arith, ground arith, ground arith, ground arith)
grow-doubled (suc fuel) size needed positive small fits enough =
    elim (Bool-cases (ltb size needed)) [
      | inr large ↦ (size, ground arith, ground arith, ground arith, ground arith)
      | inl little ↦
          let below : size < needed = ground arith in
          let same : size * 2 % 4294967296 ≡ size * 2 = omega arith in
          let (new_size, eq, wide, bounded, larger) =
            grow-doubled fuel (size * 2) needed (omega arith) small (omega arith) enough in
          (new_size, ground (arith, eq), wide, bounded, omega arith)
    ]

pub grow_lem :
    (size needed : ℕ)
    → 0 < size
    → needed ≤ 2147483647
    → size < 4294967296
    → (new_size : ℕ) × (grow 66 size needed ≡ some new_size)
      × (needed ≤ new_size)
      × (new_size < 4294967296)
      × (size ≤ new_size)
grow_lem size needed positive small fits =
    grow-doubled 65 size needed positive small fits (omega arith)
