-- ===== src/Net/HostAndPort/Parse.antt =====
-- `fromString` and `toString`: the round trip, its limits, and the range of the ports.
use ezbake_common_cpp.Common.Result.{ok, throw, bad_lexical_cast}
use ezbake_common_cpp.Common.{
  ℕ, ◌≤◌, ◌≡◌, inl, inr, refl, false, Option, none, some, [], ◌∷◌, ◌++◌, ◌==◌, ltb, Text, arith,
  All, Bool-cases, Option-cases,
}
use ezbake_common_cpp.Net.HostAndPort.{
  HostAndPort, delim, max_port, decimal, split_delim, from_host, from_parts, from_string, to_string,
}

-- A host name with no delimiter in it.
abbrev pub IsHost : Text → Type 0
IsHost = All (λ c. (c == delim) ≡ false)

split_delim_host :
    (host rest : Text) → IsHost host → split_delim (host ++ (delim ∷ rest)) ≡ some (host, rest)
unfolding split_delim
split_delim_host [] rest h = refl
split_delim_host (c ∷ host) rest h = rw (h.0, split_delim_host host rest h.1)

-- What `toString` writes for a host without the delimiter and a port in range, `fromString` reads
-- back, provided that `lexical_cast` reads the port's decimal digits back.
pub from_string-to_string :
    (lexical_cast : Text → Option ℕ) (host : Text) (p : ℕ)
    → IsHost host
    → p ≤ max_port
    → lexical_cast (decimal p) ≡ some p
    → from_string lexical_cast (to_string (record { host = host; port = some p }))
      ≡ ok (record { host = host; port = some p })
unfolding from_string to_string
from_string-to_string lexical_cast host p h fits reads =
    rw (split_delim_host host (decimal p) h, from_string, reads) (ground arith)

-- What `toString` writes for an address without a port, `fromString` refuses, provided that
-- `lexical_cast` refuses the empty text.
pub from_string-to_string_no_port :
    (lexical_cast : Text → Option ℕ) (host : Text)
    → IsHost host
    → lexical_cast [] ≡ none
    → from_string lexical_cast (to_string (record { host = host; port = none }))
      ≡ throw bad_lexical_cast
unfolding from_string to_string
from_string-to_string_no_port lexical_cast host h refuses =
    rw (split_delim_host host [] h, from_string, refuses)

abbrev pub InRange : Option ℕ → Type 0
InRange none = Unit
InRange (some p) = p ≤ max_port

from_parts-InRange :
    (host : Text) (p : ℕ) {h : HostAndPort} → from_parts host p ≡ ok h → InRange h.port
unfolding from_parts
from_parts-InRange host p {h} e = elim (Bool-cases (ltb max_port p)) [
  | inl over ↦ absurd (cc (rw (over, from_parts) at e))
  | inr fits ↦ let same : h.port ≡ some p = ground arith in rw same (ground arith)
]

-- Whatever text it is given and whatever `lexical_cast` makes of it, `fromString` returns no
-- address with a port out of range.
pub from_string-InRange :
    (lexical_cast : Text → Option ℕ) (str : Text) {h : HostAndPort}
    → from_string lexical_cast str ≡ ok h
    → InRange h.port
unfolding from_string
from_string-InRange lexical_cast str {h} e = elim (Option-cases (split_delim str)) [
  | inl whole ↦
      let same : h.port ≡ none = unfold from_host in ground (arith, rw (whole, from_string) at e) in
      rw same tt
  | inr ((host, port), split) ↦ elim (Option-cases (lexical_cast port)) [
    | inl bad ↦ absurd (cc (rw (split, bad, from_string) at e))
    | inr (p, good) ↦ from_parts-InRange host p (rw (split, from_string, good) at e)
  ]
]
