-- ===== src/Config/CryptoUtil.antt =====
-- `CryptoUtil` of configuration/src/main/cpp/util/CryptoUtil.cpp, over the base64 filter of OpenSSL. The
-- lengths are those that an `int` holds.
use ezbake_common_cpp.Common.Result.{Result, ok, throw, length_error}
use ezbake_common_cpp.Common.{ℕ, ◌≤◌, ◌<◌, ◌≡◌, refl, Option, none, some, length, Text, codes}

-- What is read back from a memory buffer after a `BIO_write` and a `BIO_flush`, and `BIO_read` of at
-- most so many bytes, `none` where it is negative.
pub record Bio : Type 0 where
  pub write_flush : Text → Text
  pub read : Text → ℕ → Option Text

unfoldable pub encode : Bio → Text → Text
encode bio data_bytes = bio.write_flush data_bytes

-- The constructor of the string refuses a length below 0.
unfoldable pub decode : Bio → Text → Result Text
decode bio encoded = elim (bio.read encoded (length encoded)) [
  | none ↦ throw (length_error (codes "basic_string::_S_create"))
  | some raw_data ↦ ok raw_data
]

-- Base64 does not shorten, and what it wrote it reads back into room for that.
pub record IsBio (bio : Bio) : Type 0 where
  pub longer : (text : Text) → length text ≤ length (bio.write_flush text)
  pub reads :
      (text : Text) (n : ℕ)
      → 0 < length text
      → length text ≤ n
      → bio.read (bio.write_flush text) n ≡ some text

pub decode-encode :
    (bio : Bio) (text : Text) → IsBio bio → 0 < length text → decode bio (encode bio text) ≡ ok text
unfolding decode encode
decode-encode bio text law there =
    rw (law.reads text (length (bio.write_flush text)) there (law.longer text), decode) refl
