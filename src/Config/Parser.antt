-- ===== src/Config/Parser.antt =====
-- `PropertyParser` of configuration/src/main/cpp/util/PropertiesUtil.cpp: the lexer of property
-- files, one round of its loop to a call of `step`. A round reads at most one byte, and may leave
-- the byte for the next mode; in mode KEY_ESCAPE it may also do nothing at all, for ever.
pub mod Halts
pub mod Lines
pub mod RoundTrip
use ezbake_common_cpp.Common.Dict
use ezbake_common_cpp.Common.{
  ℕ, zero, suc, Bool, true, false, ◌||◌, Option, none, some, List, [], ◌∷◌, ◌++◌, ◌==◌,
  if◌then◌else◌, Text,
}

abbrev pub Properties : Type 0
Properties = List (Text × Text)

pub data LexemType : Type 0 where
  begin key key_escape key_continue key_continue2 delimiter : LexemType
  element element_escape element_continue element_continue2 comment : LexemType

-- The variables of `parse`.
pub record Lexer : Type 0 where
  pub lexem_type : LexemType
  pub c : ℕ
  pub input : Text
  pub finished : Bool
  pub key_text : Text
  pub element_text : Text
  pub properties : Properties

-- `if (!get(in, c)) finished = true;`
unfoldable pub advance : Text → Lexer → Lexer
advance [] s = record s { c = 0; finished = true }
advance (x ∷ rest) s = record s { c = x; input = rest }

abbrev pub next : Lexer → Lexer
next s = advance s.input s

abbrev pub enter : LexemType → Lexer → Lexer
enter t s = record s { lexem_type = t }

-- ' ' and 0x08, which the code takes for a tab.
abbrev pub is_space : ℕ → Bool
is_space c = c == 0x20 || c == 0x08

abbrev pub is_newline : ℕ → Bool
is_newline c = c == 0x0A || c == 0x0D

abbrev pub is_delimiter : ℕ → Bool
is_delimiter c = is_space c || (c == 0x3A || c == 0x3D)

abbrev pub append_key : Lexer → Lexer
append_key s = record s { key_text = s.key_text ++ (s.c ∷ []) }

abbrev pub append_element : Lexer → Lexer
append_element s = record s { element_text = s.element_text ++ (s.c ∷ []) }

-- `properties[key] = …; key.erase(…); …`
abbrev pub store : Text → Lexer → Lexer
store value s = record s { properties = Dict.assign s.key_text value s.properties; key_text = [] }

step_begin : ℕ → Lexer → Lexer
step_begin c s =
    if is_space c || is_newline c
    then next s
    else if c == 0x23 || c == 0x21
    then next (enter comment s)
    else enter key s

step_key : ℕ → Lexer → Lexer
step_key c s =
    if c == 0x5C
    then next (enter key_escape s)
    else if is_delimiter c
    then next (enter delimiter s)
    else if is_newline c
    then next (enter begin (store [] s))
    else next (append_key s)

-- No `default` here: another byte leaves everything as it was.
step_key_escape : ℕ → Lexer → Lexer
step_key_escape c s =
    if is_delimiter c || c == 0x5C
    then next (enter key (append_key s))
    else if c == 0x0A
    then next (enter key_continue s)
    else if c == 0x0D
    then next (enter key_continue2 s)
    else s

step_element : ℕ → Lexer → Lexer
step_element c s =
    if c == 0x5C
    then next (enter element_escape s)
    else if is_newline c
    then next (enter begin (record (store s.element_text s) { element_text = [] }))
    else next (append_element s)

step_element_escape : ℕ → Lexer → Lexer
step_element_escape c s =
    if c == 0x0A
    then next (enter element_continue s)
    else if c == 0x0D
    then next (enter element_continue2 s)
    else next (enter element (append_element s))

unfoldable pub step_in : LexemType → Lexer → Lexer
unfolding advance step_begin step_key step_key_escape step_element step_element_escape
step_in begin s = step_begin s.c s
step_in key s = step_key s.c s
step_in key_escape s = step_key_escape s.c s
step_in key_continue s = if is_space s.c then next s else enter key s
step_in key_continue2 s = if s.c == 0x0A then enter key_continue (next s) else enter key_continue s
step_in delimiter s = if is_delimiter s.c then next s else enter element s
step_in element s = step_element s.c s
step_in element_escape s = step_element_escape s.c s
step_in element_continue s = if is_space s.c then next s else enter element s
step_in element_continue2 s =
    if s.c == 0x20 then enter element_continue (next s) else enter element_continue s
step_in comment s = next (if is_newline s.c then enter begin s else s)

abbrev pub step : Lexer → Lexer
step s = step_in s.lexem_type s

-- `if (!key.empty()) properties[key] = element;`
unfoldable pub flush : Text → Lexer → Properties
flush [] s = s.properties
flush (x ∷ k) s = Dict.assign (x ∷ k) s.element_text s.properties

-- The loop, with fuel; `none` means that it still runs when the fuel is gone.
unfoldable pub loop : ℕ → Lexer → Option Properties
unfolding flush
loop zero s = elim s.finished [ true ↦ some (flush s.key_text s) | false ↦ none ]
loop (suc fuel) s = elim s.finished [
  | true ↦ some (flush s.key_text s)
  | false ↦ loop fuel (step s)
]

abbrev pub start : Text → Properties → Lexer
start input properties = record {
  lexem_type = begin;
  c = 0;
  input = input;
  finished = false;
  key_text = [];
  element_text = [];
  properties = properties;
}

-- The variables before the loop, the first byte read.
abbrev pub first : ℕ → Text → Properties → Lexer
first x rest properties = record (start rest properties) { c = x }

-- With no first byte `parse` returns before the loop, and changes nothing.
unfoldable pub parse : ℕ → Text → Properties → Option Properties
unfolding loop step_in
parse fuel [] properties = some properties
parse fuel (x ∷ rest) properties = loop fuel (first x rest properties)
