-- ===== src/Security/Visibility/Grammar.antt =====
-- The grammar `parser` of ezbake_visibility.cpp, which Boost.Spirit runs: a rule tries its
-- alternatives in order, `>` demands what follows, and blanks are skipped before each token.
pub mod Halts
pub mod RoundTrip
use ezbake_common_cpp.Common.{
  ℕ, zero, suc, Bool, ◌&&◌, ◌||◌, Option, none, some, [], ◌∷◌, ◌==◌, leb, if◌then◌else◌, Text,
}

pub data Expr : Type 0 where
  var : Text → Expr
  op_not : Expr → Expr
  op_and op_or : Expr → Expr → Expr

-- `matched` leaves the unread text; `expected` is an expectation failure, with the text where it
-- arose. `out_of_fuel` has no counterpart in the program.
pub data Parse : Type 0 where
  matched : Expr → Text → Parse
  mismatch : Parse
  expected : Text → Parse
  out_of_fuel : Parse

-- `isspace`, `isalpha` and `isdigit` in the C locale.
abbrev pub is_space : ℕ → Bool
is_space c = c == b' ' || (leb 9 c && leb c 13)

abbrev pub is_alnum : ℕ → Bool
is_alnum c =
    (leb b'a' c && leb c b'z') || ((leb b'A' c && leb c b'Z') || (leb b'0' c && leb c b'9'))

unfoldable pub skip : Text → Text
skip [] = []
skip (c ∷ s) = let rest = skip s in if is_space c then rest else c ∷ s

-- The test of one character, where a token begins.
unfoldable pub starts_token : ℕ → Text → Option Text
starts_token t [] = none
starts_token t (c ∷ s) = if c == t then some s else none

unfoldable pub lit : ℕ → Text → Option Text
unfolding skip starts_token
lit t s = starts_token t (skip s)

-- `+(alpha | digit)`: the longest word, and what follows.
unfoldable pub word : Text → Text × Text
word [] = ([], [])
word (c ∷ s) = let (w, rest) = word s in if is_alnum c then (c ∷ w, rest) else ([], c ∷ s)

unfoldable pub as_var : Text × Text → Parse
as_var ([], rest) = mismatch
as_var (c ∷ w, rest) = matched (var (c ∷ w)) rest

-- `var_`
unfoldable pub parse_var : Text → Parse
unfolding as_var word skip
parse_var s = as_var (word (skip s))

-- `p | q`
unfoldable pub or_else : Parse → Parse → Parse
or_else mismatch q = q
or_else (matched e rest) q = matched e rest
or_else (expected rest) q = expected rest
or_else out_of_fuel q = out_of_fuel

-- What `>` makes of a mismatch before the text `s`.
unfoldable pub demand : Text → Parse → Parse
unfolding skip
demand s mismatch = expected (skip s)
demand s (matched e rest) = matched e rest
demand s (expected rest) = expected rest
demand s out_of_fuel = out_of_fuel

unfoldable pub map_parse : (Expr → Expr) → Parse → Parse
map_parse f (matched e rest) = matched (f e) rest
map_parse f mismatch = mismatch
map_parse f (expected rest) = expected rest
map_parse f out_of_fuel = out_of_fuel

-- `> ')'`
unfoldable pub close : Parse → Parse
unfolding lit skip
close (matched e rest) = elim (lit b')' rest) [
  | none ↦ expected (skip rest)
  | some after ↦ matched e after
]
close mismatch = mismatch
close (expected rest) = expected rest
close out_of_fuel = out_of_fuel

-- `p >> t >> q`, with the tree that `op` builds.
unfoldable pub binary : (Expr → Expr → Expr) → ℕ → Parse → (Text → Parse) → Parse
unfolding lit map_parse
binary op t (matched d rest) q = elim (lit t rest) [
  | none ↦ mismatch
  | some after ↦ map_parse (op d) (q after)
]
binary op t mismatch q = mismatch
binary op t (expected rest) q = expected rest
binary op t out_of_fuel q = out_of_fuel

-- The rules `or_`, `and_`, `not_` and `simple_`, each call for a unit of fuel. The two alternatives
-- of `or_` begin with the same call of `and_`, which reads the same both times; so with `and_`.
unfoldable mutual
  pub parse_or : ℕ → Text → Parse
  parse_or zero s = out_of_fuel
  parse_or (suc f) s =
      let first = parse_and f s in or_else (binary op_or b'|' first (parse_or f)) first

  pub parse_and : ℕ → Text → Parse
  parse_and zero s = out_of_fuel
  parse_and (suc f) s =
      let first = parse_not f s in or_else (binary op_and b'&' first (parse_and f)) first

  pub parse_not : ℕ → Text → Parse
  parse_not zero s = out_of_fuel
  parse_not (suc f) s = elim (lit b'!' s) [
    | none ↦ parse_simple f s
    | some rest ↦ map_parse op_not (demand rest (parse_simple f rest))
  ]

  pub parse_simple : ℕ → Text → Parse
  parse_simple zero s = out_of_fuel
  parse_simple (suc f) s = elim (lit b'(' s) [
    | none ↦ parse_var s
    | some rest ↦ close (demand rest (parse_or f rest))
  ]
