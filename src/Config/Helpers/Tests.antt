-- ===== src/Config/Helpers/Tests.antt =====
-- The theorems on the helpers at concrete configurations.
use ezbake_common_cpp.Common.{ℕ, ◌≡◌, refl, none, some, [], codes, text_eq}
use ezbake_common_cpp.Config.Helpers.Base.{BaseConfiguration, parse_key_inj}
use ezbake_common_cpp.Config.Helpers.Security.{Crypto, SecurityConfiguration}

abbrev helper : BaseConfiguration
helper = record { ez_configuration = []; namespace_prefix = codes "app" }

parse_key_inj_example : codes "db" ≡ codes "db"
parse_key_inj_example = parse_key_inj helper (codes "db") (codes "db") refl

-- A key is a number, and a signature is the digest.
abbrev crypto : Crypto ℕ ℕ
crypto = record {
  fopen = λ path. some path;
  read_private_key = λ file. some 7;
  read_public_key = λ file. some 8;
  digest = λ text. some text;
  rsa_sign = λ key digest. some digest;
  rsa_verify = λ key digest signature. text_eq digest signature;
  bio = record { write_flush = λ text. text; read = λ text n. some text };
  what = λ error. [];
}

abbrev unloaded : SecurityConfiguration ℕ ℕ
unloaded = record { base = helper; private_key = none; public_key = none }

abbrev loaded : SecurityConfiguration ℕ ℕ
loaded = record { base = helper; private_key = some 7; public_key = some 8 }
