-- ===== src/Config/Parser/RoundTrip.antt =====
-- The format that `parse` reads: a document as a list of lines, how it is written, and what it
-- means. Also the documents on which `parse` never ends.
use ezbake_common_cpp.Common.Dict
use ezbake_common_cpp.Common.{
  ℕ, ◌*◌, ◌≡◌, inl, inr, refl, true, false, ◌||◌, some, none, List, [], ◌∷◌, ◌++◌, ◌==◌, Text,
  arith, Bool-cases, All, length,
}
use ezbake_common_cpp.Config.Parser.Halts.{
  Runs, here, round, Runs-trans, IsStuck, loop-Runs, loop-never,
}
use ezbake_common_cpp.Config.Parser.Lines.{
  feed, is_special, escape, IsOneLine, begin_mark-Runs, begin_space-Runs, begin_key-Runs,
  key_equals-Runs, element_newline-Runs, key-Runs, element-Runs, key_backslash-Runs,
}
use ezbake_common_cpp.Config.Parser.{
  Properties, Lexer, begin, key, element, is_space, is_newline, parse,
}

pub data Line : Type 0 where
  -- a key and its value
  entry : Text → Text → Line
  -- `#` or `!`, and the rest of the line
  note : ℕ → Text → Line
  -- a blank or a newline
  space : ℕ → Line

unfoldable pub render : List Line → Text
unfolding escape
render [] = []
render (entry k v ∷ ls) = escape k ++ (0x3D ∷ (escape v ++ (0x0A ∷ render ls)))
render (note mark body ∷ ls) = mark ∷ (body ++ (0x0A ∷ render ls))
render (space c ∷ ls) = c ∷ render ls

-- `properties[key] = value` for each entry in turn.
unfoldable pub meaning : List Line → Properties → Properties
meaning [] p = p
meaning (entry k v ∷ ls) p = meaning ls (Dict.assign k v p)
meaning (note mark body ∷ ls) p = meaning ls p
meaning (space c ∷ ls) p = meaning ls p

-- A key that a line can begin with: its first byte is no newline and no comment mark.
abbrev pub IsKey : Text → Type 0
IsKey [] = ⊥
IsKey (c ∷ k) = ((c == 0x23 || c == 0x21) ≡ false) × IsOneLine (c ∷ k)

abbrev pub IsLine : Line → Type 0
IsLine (entry k v) = IsKey k × IsOneLine v
IsLine (note mark body) = ((mark == 0x23 || mark == 0x21) ≡ true) × IsOneLine body
IsLine (space c) = (is_space c || is_newline c) ≡ true

IsKey-IsOneLine : (k : Text) → IsKey k → IsOneLine k
IsKey-IsOneLine [] h = absurd h
IsKey-IsOneLine (c ∷ k) h = h.1

begin_escape-Runs :
    (k rest : Text) (p : Properties)
    → IsKey k
    → Runs (feed begin (escape k ++ rest) [] [] p) (feed key (escape k ++ rest) [] [] p)
unfolding escape
begin_escape-Runs [] rest p h = absurd h
begin_escape-Runs (c ∷ k) rest p h = elim (Bool-cases (is_special c)) [
  | inl special ↦ rw special (begin_key-Runs [] [] p 0x5C (c ∷ (escape k ++ rest)) refl refl)
  | inr plain ↦ rw plain (begin_key-Runs [] [] p c (escape k ++ rest) (ground (arith, h.1.0)) h.0)
]

value-Runs :
    (v rest k : Text) (p : Properties)
    → IsOneLine v
    → Runs
        (feed key (0x3D ∷ (escape v ++ (0x0A ∷ rest))) k [] p)
        (feed element (escape v ++ (0x0A ∷ rest)) k [] p)
unfolding escape
value-Runs [] rest k p h = key_equals-Runs k [] p 0x0A rest refl
value-Runs (c ∷ v) rest k p h = elim (Bool-cases (is_special c)) [
  | inl special ↦ rw special (key_equals-Runs k [] p 0x5C (c ∷ (escape v ++ (0x0A ∷ rest))) refl)
  | inr plain ↦ rw plain (key_equals-Runs k [] p c (escape v ++ (0x0A ∷ rest)) (ground arith))
]

render-Runs :
    (ls : List Line) (p : Properties)
    → All IsLine ls
    → Runs (feed begin (render ls) [] [] p) (feed begin [] [] [] (meaning ls p))
unfolding render meaning
render-Runs [] p h = here
render-Runs (entry k v ∷ ls) p (h, t) =
    let rest = render ls in
    let line = 0x3D ∷ (escape v ++ (0x0A ∷ rest)) in
    Runs-trans (begin_escape-Runs k line p h.0) (
      Runs-trans (key-Runs k line [] [] p (IsKey-IsOneLine k h.0)) (
        Runs-trans (value-Runs v rest k p h.1) (
          Runs-trans (element-Runs v (0x0A ∷ rest) k [] p h.1)
            (Runs-trans (element_newline-Runs k v p rest) (render-Runs ls (Dict.assign k v p) t)))))
render-Runs (note mark body ∷ ls) p (h, t) =
    Runs-trans (begin_mark-Runs [] [] p mark body (render ls) h.0 h.1) (render-Runs ls p t)
render-Runs (space c ∷ ls) p (h, t) =
    Runs-trans (begin_space-Runs [] [] p c (render ls) h) (render-Runs ls p t)

parse_ends :
    (text : Text) (p q : Properties)
    → Runs (feed begin text [] [] p) (feed begin [] [] [] q)
    → parse (3 * length text) text p ≡ some q
unfolding parse
parse_ends [] p q r = loop-Runs 0 r refl (omega arith)
parse_ends (x ∷ rest) p q r = loop-Runs (3 * length (x ∷ rest)) r refl (omega arith)

-- `parse` reads a document back: of entries whose keys and values fit on a line, of comments and
-- of blanks, it stores each entry in turn, within three rounds to a byte.
pub parse-render :
    (ls : List Line) (p : Properties)
    → All IsLine ls
    → parse (3 * length (render ls)) (render ls) p ≡ some (meaning ls p)
parse-render ls p h = parse_ends (render ls) p (meaning ls p) (render-Runs ls p h)

not_begin_end : {p : Properties} {t : Lexer} → Runs (feed begin [] [] [] p) t → IsStuck t → ⊥
not_begin_end here k = cc
not_begin_end (round h r) k = cc h

parse_never :
    (text : Text) (p : Properties) {t : Lexer}
    → Runs (feed begin text [] [] p) t
    → IsStuck t
    → (f : ℕ) → parse f text p ≡ none
unfolding parse
parse_never [] p r k f = absurd (not_begin_end r k)
parse_never (x ∷ rest) p r k f = loop-never r k f

-- On a backslash in a key before a byte other than a delimiter, a backslash or a newline, `parse`
-- ends with no number of rounds, whatever follows.
pub parse-escape_never :
    (k rest : Text) (c : ℕ) (p : Properties) (f : ℕ)
    → IsKey k
    → (is_special c || is_newline c) ≡ false
    → parse f (escape k ++ (0x5C ∷ c ∷ rest)) p ≡ none
parse-escape_never k rest c p f h n =
    let after = 0x5C ∷ c ∷ rest in
    parse_never (escape k ++ after) p
      (Runs-trans (begin_escape-Runs k after p h) (
        Runs-trans (key-Runs k after [] [] p (IsKey-IsOneLine k h))
          (key_backslash-Runs k [] p (c ∷ rest))))
      (record { escaped = refl; running = refl; no_case = n }) f
