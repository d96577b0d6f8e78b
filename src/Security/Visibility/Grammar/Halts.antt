-- ===== src/Security/Visibility/Grammar/Halts.antt =====
-- Four calls to a byte, and four more, are enough for the grammar; and what it reads is not empty.
use ezbake_common_cpp.Common.{
  ℕ, zero, suc, ◌+◌, ◌*◌, ◌≤◌, ◌<◌, ◌≡◌, inl, inr, refl, some, [], ◌∷◌, Text, arith, length,
  Option-cases,
}
use ezbake_common_cpp.Security.Visibility.Grammar.{
  Expr, op_not, op_and, op_or, Parse, matched, mismatch, expected, out_of_fuel, skip, starts_token,
  lit, word, as_var, parse_var, or_else, demand, map_parse, close, binary, parse_or, parse_and,
  parse_not, parse_simple,
}

-- The call kept within its fuel, and left fewer than `n` bytes if it matched.
abbrev pub Within : ℕ → Parse → Type 0
Within n (matched e rest) = length rest < n
Within n mismatch = Unit
Within n (expected rest) = Unit
Within n out_of_fuel = ⊥

pub length-skip : (s : Text) → length (skip s) ≤ length s
unfolding skip
length-skip [] = omega arith
length-skip (c ∷ s) = ground (arith, length-skip s)

length-starts_token :
    (t : ℕ) (s : Text) {rest : Text} → starts_token t s ≡ some rest → length rest < length s
unfolding starts_token
length-starts_token t [] h = cc
length-starts_token t (c ∷ s) h = ground arith

pub length-lit : (t : ℕ) (s : Text) {rest : Text} → lit t s ≡ some rest → length rest < length s
unfolding lit
length-lit t s h = omega (arith, length-starts_token t (skip s) h, length-skip s)

length-word : (s : Text) → length (word s).0 + length (word s).1 ≡ length s
unfolding word
length-word [] = refl
length-word (c ∷ s) = ground (arith, length-word s)

as_var-Within : (p : Text × Text) (n : ℕ) → length p.0 + length p.1 ≤ n → Within n (as_var p)
unfolding as_var
as_var-Within ([], rest) n h = tt
as_var-Within (c ∷ w, rest) n h = omega arith

parse_var-Within : (s : Text) → Within (length s) (parse_var s)
unfolding parse_var
parse_var-Within s =
    as_var-Within (word (skip s)) (length s) (omega (arith, length-word (skip s), length-skip s))

Within-le : (m n : ℕ) (p : Parse) → m ≤ n → Within m p → Within n p
Within-le m n (matched e rest) h w = omega arith
Within-le m n mismatch h w = tt
Within-le m n (expected rest) h w = tt
Within-le m n out_of_fuel h w = w

or_else-Within : (n : ℕ) (p q : Parse) → Within n p → Within n q → Within n (or_else p q)
unfolding or_else
or_else-Within n (matched e rest) q h k = h
or_else-Within n mismatch q h k = k
or_else-Within n (expected rest) q h k = tt
or_else-Within n out_of_fuel q h k = h

demand-Within : (n : ℕ) (s : Text) (p : Parse) → Within n p → Within n (demand s p)
unfolding demand
demand-Within n s (matched e rest) h = h
demand-Within n s mismatch h = tt
demand-Within n s (expected rest) h = tt
demand-Within n s out_of_fuel h = h

map_parse-Within : (n : ℕ) (f : Expr → Expr) (p : Parse) → Within n p → Within n (map_parse f p)
unfolding map_parse
map_parse-Within n f (matched e rest) h = h
map_parse-Within n f mismatch h = tt
map_parse-Within n f (expected rest) h = tt
map_parse-Within n f out_of_fuel h = h

close-Within : (n : ℕ) (p : Parse) → Within n p → Within n (close p)
unfolding close
close-Within n (matched e rest) h = elim (Option-cases (lit b')' rest)) [
  | inl missing ↦ rw (missing, close) tt
  | inr (after, there) ↦ rw (there, close) (omega (arith, length-lit b')' rest there))
]
close-Within n mismatch h = tt
close-Within n (expected rest) h = tt
close-Within n out_of_fuel h = h

binary-Within :
    (n : ℕ) (op : Expr → Expr → Expr) (t : ℕ) (p : Parse) (q : Text → Parse)
    → Within n p
    → ((rest : Text) → length rest < n → Within n (q rest))
    → Within n (binary op t p q)
unfolding binary
binary-Within n op t (matched d rest) q h k = elim (Option-cases (lit t rest)) [
  | inl missing ↦ rw (missing, binary) tt
  | inr (after, there) ↦
      rw (there, binary)
        (map_parse-Within n (op d) (q after) (k after (omega (arith, length-lit t rest there))))
]
binary-Within n op t mismatch q h k = tt
binary-Within n op t (expected rest) q h k = tt
binary-Within n op t out_of_fuel q h k = h

mutual
  unfolding parse_or

  pub parse_or-Within : (f : ℕ) (s : Text) → 4 * length s + 3 < f → Within (length s) (parse_or f s)
  parse_or-Within zero s h = absurd (omega arith)
  parse_or-Within (suc f) s h =
      let first = parse_and-Within f s (omega arith) in
      or_else-Within (length s) (binary op_or b'|' (parse_and f s) (parse_or f)) (parse_and f s)
        (binary-Within (length s) op_or b'|' (parse_and f s) (parse_or f) first (λ rest k.
          Within-le (length rest) (length s) (parse_or f rest) (omega arith)
            (parse_or-Within f rest (omega arith))))
        first

  pub parse_and-Within :
      (f : ℕ) (s : Text) → 4 * length s + 2 < f → Within (length s) (parse_and f s)
  parse_and-Within zero s h = absurd (omega arith)
  parse_and-Within (suc f) s h =
      let first = parse_not-Within f s (omega arith) in
      or_else-Within (length s) (binary op_and b'&' (parse_not f s) (parse_and f)) (parse_not f s)
        (binary-Within (length s) op_and b'&' (parse_not f s) (parse_and f) first (λ rest k.
          Within-le (length rest) (length s) (parse_and f rest) (omega arith)
            (parse_and-Within f rest (omega arith))))
        first

  pub parse_not-Within :
      (f : ℕ) (s : Text) → 4 * length s + 1 < f → Within (length s) (parse_not f s)
  parse_not-Within zero s h = absurd (omega arith)
  parse_not-Within (suc f) s h = elim (Option-cases (lit b'!' s)) [
    | inl plain ↦ rw (plain, parse_not) (parse_simple-Within f s (omega arith))
    | inr (rest, negated) ↦
        let shorter = length-lit b'!' s negated in
        rw (negated, parse_not)
          (map_parse-Within (length s) op_not (demand rest (parse_simple f rest)) (
            demand-Within (length s) rest (parse_simple f rest) (
              Within-le (length rest) (length s) (parse_simple f rest) (omega arith)
                (parse_simple-Within f rest (omega arith)))))
  ]

  pub parse_simple-Within :
      (f : ℕ) (s : Text) → 4 * length s < f → Within (length s) (parse_simple f s)
  parse_simple-Within zero s h = absurd (omega arith)
  parse_simple-Within (suc f) s h = elim (Option-cases (lit b'(' s)) [
    | inl plain ↦ rw (plain, parse_simple) (parse_var-Within s)
    | inr (rest, opened) ↦
        let shorter = length-lit b'(' s opened in
        rw (opened, parse_simple)
          (close-Within (length s) (demand rest (parse_or f rest)) (
            demand-Within (length s) rest (parse_or f rest) (
              Within-le (length rest) (length s) (parse_or f rest) (omega arith)
                (parse_or-Within f rest (omega arith)))))
  ]
