-- ===== src/Net/Tests.antt =====
-- The theorems on `HostAndPort` at concrete addresses, with a reader of decimal digits for
-- `lexical_cast`.
use ezbake_common_cpp.Common.Result.{ok, throw, bad_lexical_cast}
use ezbake_common_cpp.Common.{
  ℕ, ◌+◌, ◌*◌, ◌-◌, ◌≡◌, refl, ◌&&◌, Option, none, some, [], ◌∷◌, leb, if◌then◌else◌, Text, codes,
  arith,
}
use ezbake_common_cpp.Net.HostAndPort.Parse.{InRange, from_string-to_string, from_string-InRange}
use ezbake_common_cpp.Net.HostAndPort.{
  HostAndPort, decimal, split_delim, from_host, from_parts, from_string, to_string,
}

unfoldable digits : ℕ → Text → Option ℕ
digits n [] = some n
digits n (c ∷ s) =
    let rest = digits (n * 10 + (c - b'0')) s in if leb b'0' c && leb c b'9' then rest else none

unfoldable cast : Text → Option ℕ
unfolding digits
cast [] = none
cast (c ∷ s) = digits 0 (c ∷ s)

abbrev server : HostAndPort
server = record { host = codes "db"; port = some 8080 }

abbrev second_server : HostAndPort
second_server = record { host = codes "db"; port = some 9090 }

abbrev third_server : HostAndPort
third_server = record { host = codes "zk"; port = some 80 }

abbrev portless : HostAndPort
portless = record { host = codes "db"; port = none }

from_string-to_string_example : from_string cast (to_string server) ≡ ok server
unfolding cast decimal
from_string-to_string_example =
    from_string-to_string cast (codes "db") 8080 (refl, (refl, tt)) (omega arith) refl

from_string-InRange_example : InRange server.port
unfolding from_string cast split_delim from_parts
from_string-InRange_example = from_string-InRange cast (codes "db:8080") {h = server} refl

-- A port out of range, and a text that is no number.
from_string_out_of_range : from_string cast (codes "db:70000") ≡ from_parts (codes "db") 70000
unfolding from_string cast split_delim
from_string_out_of_range = refl

from_string_bad_cast : from_string cast (codes "db:http") ≡ throw bad_lexical_cast
unfolding from_string cast split_delim
from_string_bad_cast = refl

from_string_whole : from_string cast (codes "db") ≡ ok (from_host (codes "db"))
unfolding from_string split_delim
from_string_whole = refl
