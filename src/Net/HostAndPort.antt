-- ===== src/Net/HostAndPort.antt =====
-- `HostAndPort` of configuration/src/main/cpp/util/HostAndPort.cpp, and its twin in
-- common/src/main/include/ezbake/common/HostAndPort.h. Boost's `lexical_cast<unsigned int>` is the
-- parameter `lexical_cast`; `none` is its `bad_lexical_cast`.
pub mod Parse
pub mod Order
use ezbake_common_cpp.Common.Result.{
  Result, ok, throw, bad_lexical_cast, invalid_argument, out_of_range,
}
use ezbake_common_cpp.Common.{
  ℕ, zero, suc, ◌+◌, ◌/◌, ◌%◌, Bool, true, false, not, ◌&&◌, Option, none, some, [], ◌∷◌, ◌++◌,
  ◌==◌, ltb, if◌then◌else◌, Text, codes, text_eq,
}

pub record HostAndPort : Type 0 where
  pub host : Text
  pub port : Option ℕ

abbrev pub delim : ℕ
delim = b':'

abbrev pub max_port : ℕ
max_port = 65535

-- `std::to_string`: the decimal digits, the last one first found.
unfoldable pub decimal_onto : ℕ → ℕ → Text → Text
decimal_onto zero n acc = acc
decimal_onto (suc fuel) n acc =
    let digits = (b'0' + n % 10) ∷ acc in
    let more = decimal_onto fuel (n / 10) digits in if ltb n 10 then digits else more

unfoldable pub decimal : ℕ → Text
unfolding decimal_onto
decimal n = decimal_onto (n + 1) n []

-- `str.find(DELIM)` with the two `substr` calls: what stands before and after it.
unfoldable pub split_delim : Text → Option (Text × Text)
split_delim [] = none
split_delim (c ∷ s) =
    let rest = split_delim s in
    if c == delim
    then some ([], s)
    else elim rest [ none ↦ none | some (host, port) ↦ some (c ∷ host, port) ]

unfoldable pub from_host : Text → HostAndPort
from_host host = record { host = host; port = none }

unfoldable pub from_parts : Text → ℕ → Result HostAndPort
from_parts host port =
    if ltb max_port port
    then throw (out_of_range (codes "port out of range"))
    else ok (record { host = host; port = some port })

unfoldable pub from_string : (Text → Option ℕ) → Text → Result HostAndPort
unfolding split_delim from_host from_parts
from_string lexical_cast str = elim (split_delim str) [
  | none ↦ ok (from_host str)
  | some (host, port) ↦ elim (lexical_cast port) [
    | none ↦ throw bad_lexical_cast
    | some p ↦ from_parts host p
  ]
]

unfoldable pub get_port : HostAndPort → Result ℕ
get_port h = elim h.port [
  | none ↦ throw (invalid_argument (codes "no port defined"))
  | some p ↦ ok p
]

-- The handler catches `invalid_argument` alone.
unfoldable pub get_port_or_default : HostAndPort → ℕ → Result ℕ
unfolding get_port
get_port_or_default h default_port = elim (get_port h) [
  | throw (invalid_argument _) ↦ ok default_port
  | other ↦ other
]

unfoldable pub has_port : HostAndPort → Bool
has_port h = elim h.port [ none ↦ false | some _ ↦ true ]

unfoldable pub to_string : HostAndPort → Text
unfolding decimal
to_string h = elim h.port [ none ↦ h.host ++ (delim ∷ []) | some p ↦ h.host ++ (delim ∷ decimal p) ]

-- `std::string::operator<`
unfoldable pub text_lt : Text → Text → Bool
text_lt [] [] = false
text_lt [] (d ∷ t) = true
text_lt (c ∷ s) [] = false
text_lt (c ∷ s) (d ∷ t) = if ltb c d then true else (c == d && text_lt s t)

-- `operator==`, on the hosts and then on the ports.
unfoldable pub ports_eq : Option ℕ → Option ℕ → Bool
ports_eq (some p) (some q) = p == q
ports_eq none none = true
ports_eq _ _ = false

unfoldable pub equals : HostAndPort → HostAndPort → Bool
unfolding ports_eq
equals h g = if text_eq h.host g.host then ports_eq h.port g.port else false

unfoldable pub differs : HostAndPort → HostAndPort → Bool
unfolding equals
differs h g = not (equals h g)

-- `operator<`
unfoldable pub ports_lt : Option ℕ → Option ℕ → Bool
ports_lt (some p) (some q) = ltb p q
ports_lt (some p) none = false
ports_lt none q = true

unfoldable pub less : HostAndPort → HostAndPort → Bool
unfolding ports_lt text_lt
less h g = if text_eq h.host g.host then ports_lt h.port g.port else text_lt h.host g.host
