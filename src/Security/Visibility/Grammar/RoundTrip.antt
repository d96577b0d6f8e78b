-- ===== src/Security/Visibility/Grammar/RoundTrip.antt =====
-- Expressions printed with no more parentheses than they need, and read back.
use mathlib.Core.List.{append_assoc}
use ezbake_common_cpp.Common.{
  ℕ, zero, suc, ◌+◌, ◌*◌, ◌<◌, ◌≡◌, refl, Bool, true, false, ◌&&◌, ◌||◌, none, some, [], ◌∷◌, ◌++◌,
  ◌==◌, leb, if◌then◌else◌, Text, arith, length, length-append, All,
}
use ezbake_common_cpp.Security.Visibility.Grammar.{
  Expr, var, op_not, op_and, op_or, Parse, matched, is_space, is_alnum, skip, starts_token, lit,
  word, as_var, parse_var, or_else, demand, map_parse, close, binary, parse_or, parse_and,
  parse_not, parse_simple,
}

unfoldable pub in_parens : Bool → Text → Text
in_parens false s = s
in_parens true s = b'(' ∷ (s ++ (b')' ∷ []))

-- The text of a tree where the grammar expects `or_` (0), `and_` (1), `not_` (2) or `simple_` (3).
unfoldable pub print : ℕ → Expr → Text
unfolding in_parens
print n (var w) = w
print n (op_or d e) = in_parens (leb 1 n) (print 1 d ++ (b'|' ∷ print 0 e))
print n (op_and d e) = in_parens (leb 2 n) (print 2 d ++ (b'&' ∷ print 1 e))
print n (op_not e) = in_parens (leb 3 n) (b'!' ∷ print 3 e)

-- A word that `var_` reads.
abbrev pub IsWord : Text → Type 0
IsWord [] = ⊥
IsWord (c ∷ w) = All (λ d. is_alnum d ≡ true) (c ∷ w)

abbrev pub HasWords : Expr → Type 0
HasWords (var w) = IsWord w
HasWords (op_not e) = HasWords e
HasWords (op_and d e) = HasWords d × HasWords e
HasWords (op_or d e) = HasWords d × HasWords e

-- What may stand behind a text of the level.
abbrev pub ends : ℕ → ℕ → Bool
ends n c = (c == b')' || c == b';') || ((leb 1 n && c == b'|') || (leb 2 n && c == b'&'))

-- With fuel above its bound the rule reads the whole body and stops before what follows.
abbrev Reads : (ℕ → Text → Parse) → ℕ → ℕ → Text → Expr → Type 0
Reads p slack n body e =
    (f c : ℕ) (rest : Text)
    → 4 * length body + slack < f
    → ends n c ≡ true
    → p f (body ++ (c ∷ rest)) ≡ matched e (c ∷ rest)

abbrev ReadsOr : Text → Expr → Type 0
ReadsOr = Reads parse_or 3 0

abbrev ReadsAnd : Text → Expr → Type 0
ReadsAnd = Reads parse_and 2 1

abbrev ReadsNot : Text → Expr → Type 0
ReadsNot = Reads parse_not 1 2

abbrev ReadsSimple : Text → Expr → Type 0
ReadsSimple = Reads parse_simple 0 3

lit_cons :
    (t c : ℕ) (rest : Text)
    → is_space c ≡ false
    → lit t (c ∷ rest) ≡ (if c == t then some rest else none)
unfolding lit skip starts_token
lit_cons t c rest h = ground arith

word_stops : (c : ℕ) (rest : Text) → is_alnum c ≡ false → word (c ∷ rest) ≡ ([], c ∷ rest)
unfolding word
word_stops c rest h = ground arith

word_whole :
    (w : Text) (c : ℕ) (rest : Text)
    → All (λ d. is_alnum d ≡ true) w
    → is_alnum c ≡ false
    → word (w ++ (c ∷ rest)) ≡ (w, c ∷ rest)
unfolding word
word_whole [] c rest h k = word_stops c rest k
word_whole (d ∷ w) c rest h k = rw (word_whole w c rest h.1 k, h.0)

var-ReadsSimple : (w : Text) → IsWord w → ReadsSimple w (var w)
unfolding parse_simple parse_var as_var skip
var-ReadsSimple [] h f c rest k stop = absurd h
var-ReadsSimple (d ∷ w) h zero c rest k stop = absurd (omega arith)
var-ReadsSimple (d ∷ w) h (suc f) c rest k stop =
    let here : is_space d ≡ false = ground (arith, h.0) in
    let closed : (d == b'(') ≡ false = ground (arith, h.0) in
    rw (
      lit_cons b'(' d (w ++ (c ∷ rest)) here,
      closed,
      parse_simple,
      here,
      word_whole (d ∷ w) c rest h (ground arith),
    )

parens-ReadsSimple : (body : Text) (e : Expr) → ReadsOr body e → ReadsSimple (in_parens true body) e
unfolding parse_simple in_parens demand close
parens-ReadsSimple body e reads zero c rest k stop = absurd (omega arith)
parens-ReadsSimple body e reads (suc f) c rest k stop = rw (
  append_assoc body (b')' ∷ []) (c ∷ rest),
  reads f b')' (c ∷ rest) (omega (arith, length-append body (b')' ∷ []))) refl,
  demand,
  close,
)

-- The texts that do not begin with a negation.
abbrev IsPlain : Text → Type 0
IsPlain [] = ⊥
IsPlain (c ∷ s) = (is_space c || c == b'!') ≡ false

ReadsNot-of_simple : (body : Text) (e : Expr) → IsPlain body → ReadsSimple body e → ReadsNot body e
unfolding parse_not
ReadsNot-of_simple [] e plain reads f c rest k stop = absurd plain
ReadsNot-of_simple (d ∷ body) e plain reads zero c rest k stop = absurd (omega arith)
ReadsNot-of_simple (d ∷ body) e plain reads (suc f) c rest k stop =
    let here : is_space d ≡ false = ground arith in
    let no_mark : (d == b'!') ≡ false = ground arith in
    rw (lit_cons b'!' d (body ++ (c ∷ rest)) here, no_mark, parse_not)
      (reads f c rest (omega arith) (ground arith))

ReadsAnd-of_not : (body : Text) (e : Expr) → ReadsNot body e → ReadsAnd body e
unfolding parse_and binary or_else
ReadsAnd-of_not body e reads zero c rest k stop = absurd (omega arith)
ReadsAnd-of_not body e reads (suc f) c rest k stop =
    let other : (c == b'&') ≡ false = ground arith in
    rw (
      reads f c rest (omega arith) (ground arith),
      binary,
      lit_cons b'&' c rest (ground arith),
      other,
    )

ReadsOr-of_and : (body : Text) (e : Expr) → ReadsAnd body e → ReadsOr body e
unfolding parse_or binary or_else
ReadsOr-of_and body e reads zero c rest k stop = absurd (omega arith)
ReadsOr-of_and body e reads (suc f) c rest k stop =
    let other : (c == b'|') ≡ false = ground arith in
    rw (
      reads f c rest (omega arith) (ground arith),
      binary,
      lit_cons b'|' c rest (ground arith),
      other,
    )

not-ReadsNot : (body : Text) (e : Expr) → ReadsSimple body e → ReadsNot (b'!' ∷ body) (op_not e)
unfolding parse_not demand map_parse lit
not-ReadsNot body e reads zero c rest k stop = absurd (omega arith)
not-ReadsNot body e reads (suc f) c rest k stop =
    rw (reads f c rest (omega arith) (ground arith), demand, map_parse)

and-ReadsAnd :
    (left right : Text) (d e : Expr)
    → ReadsNot left d
    → ReadsAnd right e
    → ReadsAnd (left ++ (b'&' ∷ right)) (op_and d e)
unfolding parse_and binary or_else map_parse
and-ReadsAnd left right d e l r zero c rest k stop = absurd (omega arith)
and-ReadsAnd left right d e l r (suc f) c rest k stop =
    let size = length-append left (b'&' ∷ right) in
    rw (
      append_assoc left (b'&' ∷ right) (c ∷ rest),
      l f b'&' (right ++ (c ∷ rest)) (omega arith) refl,
      binary,
      r f c rest (omega arith) stop,
      map_parse,
      or_else,
    )

or-ReadsOr :
    (left right : Text) (d e : Expr)
    → ReadsAnd left d
    → ReadsOr right e
    → ReadsOr (left ++ (b'|' ∷ right)) (op_or d e)
unfolding parse_or binary or_else map_parse
or-ReadsOr left right d e l r zero c rest k stop = absurd (omega arith)
or-ReadsOr left right d e l r (suc f) c rest k stop =
    let size = length-append left (b'|' ∷ right) in
    rw (
      append_assoc left (b'|' ∷ right) (c ∷ rest),
      l f b'|' (right ++ (c ∷ rest)) (omega arith) refl,
      binary,
      r f c rest (omega arith) stop,
      map_parse,
      or_else,
    )

print_simple-IsPlain : (e : Expr) → HasWords e → IsPlain (print 3 e)
unfolding print
print_simple-IsPlain (var []) h = absurd h
print_simple-IsPlain (var (c ∷ w)) h = ground (arith, h.0)
print_simple-IsPlain (op_not e) h = refl
print_simple-IsPlain (op_and d e) h = refl
print_simple-IsPlain (op_or d e) h = refl

-- The four levels of one tree, from the rule that reads its body.
record ReadsAll (e : Expr) : Type 0 where
  at_or : ReadsOr (print 0 e) e
  at_and : ReadsAnd (print 1 e) e
  at_not : ReadsNot (print 2 e) e
  at_simple : ReadsSimple (print 3 e) e

from_or :
    (e : Expr) (body : Text)
    → print 0 e ≡ body
    → print 1 e ≡ in_parens true body
    → print 2 e ≡ in_parens true body
    → print 3 e ≡ in_parens true body
    → ReadsOr body e
    → ReadsAll e
unfolding in_parens
from_or e body p0 p1 p2 p3 reads =
    let simple = parens-ReadsSimple body e reads in
    let negated = ReadsNot-of_simple (in_parens true body) e refl simple in
    record {
      at_or = rw p0 reads;
      at_and = rw p1 (ReadsAnd-of_not (in_parens true body) e negated);
      at_not = rw p2 negated;
      at_simple = rw p3 simple;
    }

print-ReadsAll : (e : Expr) → HasWords e → ReadsAll e
unfolding print in_parens
print-ReadsAll (var w) h =
    let simple = var-ReadsSimple w h in
    let negated = ReadsNot-of_simple w (var w) (print_simple-IsPlain (var w) h) simple in
    let conj = ReadsAnd-of_not w (var w) negated in
    record {
      at_or = ReadsOr-of_and w (var w) conj;
      at_and = conj;
      at_not = negated;
      at_simple = simple;
    }
print-ReadsAll (op_or d e) (hd, he) =
    from_or (op_or d e) (print 1 d ++ (b'|' ∷ print 0 e)) refl refl refl refl (
      or-ReadsOr (print 1 d) (print 0 e) d e (print-ReadsAll d hd).at_and
        (print-ReadsAll e he).at_or)
print-ReadsAll (op_and d e) (hd, he) =
    let body = print 2 d ++ (b'&' ∷ print 1 e) in
    let conj =
      and-ReadsAnd (print 2 d) (print 1 e) d e (print-ReadsAll d hd).at_not
        (print-ReadsAll e he).at_and in
    let disj = ReadsOr-of_and body (op_and d e) conj in
    let simple = parens-ReadsSimple body (op_and d e) disj in
    record {
      at_or = disj;
      at_and = conj;
      at_not = ReadsNot-of_simple (in_parens true body) (op_and d e) refl simple;
      at_simple = simple;
    }
print-ReadsAll (op_not e) h =
    let body = b'!' ∷ print 3 e in
    let negated = not-ReadsNot (print 3 e) e (print-ReadsAll e h).at_simple in
    let conj = ReadsAnd-of_not body (op_not e) negated in
    let disj = ReadsOr-of_and body (op_not e) conj in
    record {
      at_or = disj;
      at_and = conj;
      at_not = negated;
      at_simple = parens-ReadsSimple body (op_not e) disj;
    }

-- The grammar reads a printed tree off the front of a text in which a semicolon follows it.
pub parse_or-print :
    (e : Expr) (f : ℕ) (rest : Text)
    → HasWords e
    → 4 * length (print 0 e) + 3 < f
    → parse_or f (print 0 e ++ (b';' ∷ rest)) ≡ matched e (b';' ∷ rest)
parse_or-print e f rest h k = (print-ReadsAll e h).at_or f b';' rest k refl
