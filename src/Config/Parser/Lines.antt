-- ===== src/Config/Parser/Lines.antt =====
-- The lexer over the pieces of a line, with any text behind them.
use mathlib.Core.List.{append-nil, append_assoc}
use ezbake_common_cpp.Common.Dict
use ezbake_common_cpp.Common.{
  ℕ, ◌≡◌, inl, inr, refl, Bool, true, false, ◌||◌, [], ◌∷◌, ◌++◌, ◌==◌, if◌then◌else◌, Text, arith,
  Bool-cases, All,
}
use ezbake_common_cpp.Config.Parser.Halts.{Runs, here, round, Runs-trans}
use ezbake_common_cpp.Config.Parser.{
  Properties, LexemType, begin, key, key_escape, delimiter, element, element_escape, comment, Lexer,
  step_in, step, is_space, is_newline, is_delimiter,
}

-- The lexer in mode `m` before the unread text: its first byte is in `c`.
abbrev pub feed : LexemType → Text → Text → Text → Properties → Lexer
feed m [] k e p = record {
  lexem_type = m;
  c = 0;
  input = [];
  finished = true;
  key_text = k;
  element_text = e;
  properties = p;
}
feed m (x ∷ rest) k e p = record {
  lexem_type = m;
  c = x;
  input = rest;
  finished = false;
  key_text = k;
  element_text = e;
  properties = p;
}

abbrev pub is_special : ℕ → Bool
is_special c = is_delimiter c || c == 0x5C

-- A backslash before the bytes that have a meaning.
unfoldable pub escape : Text → Text
escape [] = []
escape (c ∷ s) = let rest = escape s in if is_special c then 0x5C ∷ c ∷ rest else c ∷ rest

-- No newline, which no escape can write.
abbrev pub IsOneLine : Text → Type 0
IsOneLine = All (λ c. is_newline c ≡ false)

Runs-step : {s t : Lexer} → s.finished ≡ false → step s ≡ t → Runs s t
Runs-step h e = round h (rw e here)

module _ (k e : Text) (p : Properties) where
  key_plain :
      (c : ℕ) (l : Text)
      → is_special c ≡ false
      → is_newline c ≡ false
      → step (feed key (c ∷ l) k e p) ≡ feed key l (k ++ (c ∷ [])) e p
  unfolding step_in
  key_plain c [] h n = ground arith
  key_plain c (x ∷ l) h n = ground arith

  key_escaped :
      (c : ℕ) (l : Text)
      → is_special c ≡ true
      → step (feed key_escape (c ∷ l) k e p) ≡ feed key l (k ++ (c ∷ [])) e p
  unfolding step_in
  key_escaped c [] h = ground arith
  key_escaped c (x ∷ l) h = ground arith

  element_plain :
      (c : ℕ) (l : Text)
      → is_special c ≡ false
      → is_newline c ≡ false
      → step (feed element (c ∷ l) k e p) ≡ feed element l k (e ++ (c ∷ [])) p
  unfolding step_in
  element_plain c [] h n = ground arith
  element_plain c (x ∷ l) h n = ground arith

  element_escaped :
      (c : ℕ) (l : Text)
      → is_newline c ≡ false
      → step (feed element_escape (c ∷ l) k e p) ≡ feed element l k (e ++ (c ∷ [])) p
  unfolding step_in
  element_escaped c [] n = ground arith
  element_escaped c (x ∷ l) n = ground arith

  element_newline :
      (l : Text) → step (feed element (0x0A ∷ l) k e p) ≡ feed begin l [] [] (Dict.assign k e p)
  unfolding step_in
  element_newline [] = refl
  element_newline (x ∷ l) = refl

  key_equals : (l : Text) → step (feed key (0x3D ∷ l) k e p) ≡ feed delimiter l k e p
  unfolding step_in
  key_equals [] = refl
  key_equals (x ∷ l) = refl

  delimiter_end :
      (c : ℕ) (l : Text)
      → is_delimiter c ≡ false
      → step (feed delimiter (c ∷ l) k e p) ≡ feed element (c ∷ l) k e p
  unfolding step_in
  delimiter_end c l h = ground arith

  begin_key :
      (c : ℕ) (l : Text)
      → (is_space c || is_newline c) ≡ false
      → (c == 0x23 || c == 0x21) ≡ false
      → step (feed begin (c ∷ l) k e p) ≡ feed key (c ∷ l) k e p
  unfolding step_in
  begin_key c l h n = ground arith

  begin_space :
      (c : ℕ) (l : Text)
      → (is_space c || is_newline c) ≡ true
      → step (feed begin (c ∷ l) k e p) ≡ feed begin l k e p
  unfolding step_in
  begin_space c [] h = ground arith
  begin_space c (x ∷ l) h = ground arith

  begin_mark :
      (c : ℕ) (l : Text)
      → (c == 0x23 || c == 0x21) ≡ true
      → step (feed begin (c ∷ l) k e p) ≡ feed comment l k e p
  unfolding step_in
  begin_mark c [] h = ground arith
  begin_mark c (x ∷ l) h = ground arith

  comment_byte :
      (c : ℕ) (l : Text)
      → step (feed comment (c ∷ l) k e p) ≡ feed (if is_newline c then begin else comment) l k e p
  unfolding step_in
  comment_byte c [] = ground arith
  comment_byte c (x ∷ l) = ground arith

  key_backslash : (l : Text) → step (feed key (0x5C ∷ l) k e p) ≡ feed key_escape l k e p
  unfolding step_in
  key_backslash [] = refl
  key_backslash (x ∷ l) = refl

  element_backslash :
      (l : Text) → step (feed element (0x5C ∷ l) k e p) ≡ feed element_escape l k e p
  unfolding step_in
  element_backslash [] = refl
  element_backslash (x ∷ l) = refl

  pub comment-Runs :
      (body rest : Text)
      → IsOneLine body
      → Runs (feed comment (body ++ (0x0A ∷ rest)) k e p) (feed begin rest k e p)
  comment-Runs [] rest h = Runs-step refl (comment_byte 0x0A rest)
  comment-Runs (c ∷ body) rest h =
      Runs-trans (Runs-step refl (comment_byte c (body ++ (0x0A ∷ rest))))
        (rw h.0 (comment-Runs body rest h.1))

  pub begin_mark-Runs :
      (c : ℕ) (body rest : Text)
      → (c == 0x23 || c == 0x21) ≡ true
      → IsOneLine body
      → Runs (feed begin (c ∷ (body ++ (0x0A ∷ rest))) k e p) (feed begin rest k e p)
  begin_mark-Runs c body rest m h =
      Runs-trans (Runs-step refl (begin_mark c (body ++ (0x0A ∷ rest)) m))
        (comment-Runs body rest h)

  pub begin_space-Runs :
      (c : ℕ) (rest : Text)
      → (is_space c || is_newline c) ≡ true
      → Runs (feed begin (c ∷ rest) k e p) (feed begin rest k e p)
  begin_space-Runs c rest h = Runs-step refl (begin_space c rest h)

  pub begin_key-Runs :
      (c : ℕ) (rest : Text)
      → (is_space c || is_newline c) ≡ false
      → (c == 0x23 || c == 0x21) ≡ false
      → Runs (feed begin (c ∷ rest) k e p) (feed key (c ∷ rest) k e p)
  begin_key-Runs c rest h n = Runs-step refl (begin_key c rest h n)

  pub key_equals-Runs :
      (c : ℕ) (rest : Text)
      → is_delimiter c ≡ false
      → Runs (feed key (0x3D ∷ c ∷ rest) k e p) (feed element (c ∷ rest) k e p)
  key_equals-Runs c rest h =
      Runs-trans (Runs-step refl (key_equals (c ∷ rest))) (Runs-step refl (delimiter_end c rest h))

  pub key_backslash-Runs :
      (rest : Text) → Runs (feed key (0x5C ∷ rest) k e p) (feed key_escape rest k e p)
  key_backslash-Runs rest = Runs-step refl (key_backslash rest)

  pub element_newline-Runs :
      (rest : Text)
      → Runs (feed element (0x0A ∷ rest) k e p) (feed begin rest [] [] (Dict.assign k e p))
  element_newline-Runs rest = Runs-step refl (element_newline rest)

-- An escaped text is read back byte for byte, in a key and in an element.
pub key-Runs :
    (s rest k e : Text) (p : Properties)
    → IsOneLine s
    → Runs (feed key (escape s ++ rest) k e p) (feed key rest (k ++ s) e p)
unfolding escape
key-Runs [] rest k e p h = rw append-nil here
key-Runs (c ∷ s) rest k e p h = elim (Bool-cases (is_special c)) [
  | inl special ↦ rw special (
      Runs-trans (Runs-step refl (key_backslash k e p (c ∷ (escape s ++ rest)))) (
        Runs-trans (Runs-step refl (key_escaped k e p c (escape s ++ rest) special))
          (rw append_assoc at (key-Runs s rest (k ++ (c ∷ [])) e p h.1))))
  | inr plain ↦ rw plain (
      Runs-trans (Runs-step refl (key_plain k e p c (escape s ++ rest) plain h.0))
        (rw append_assoc at (key-Runs s rest (k ++ (c ∷ [])) e p h.1)))
]

pub element-Runs :
    (s rest k e : Text) (p : Properties)
    → IsOneLine s
    → Runs (feed element (escape s ++ rest) k e p) (feed element rest k (e ++ s) p)
unfolding escape
element-Runs [] rest k e p h = rw append-nil here
element-Runs (c ∷ s) rest k e p h = elim (Bool-cases (is_special c)) [
  | inl special ↦ rw special (
      Runs-trans (Runs-step refl (element_backslash k e p (c ∷ (escape s ++ rest)))) (
        Runs-trans (Runs-step refl (element_escaped k e p c (escape s ++ rest) h.0))
          (rw append_assoc at (element-Runs s rest k (e ++ (c ∷ [])) p h.1))))
  | inr plain ↦ rw plain (
      Runs-trans (Runs-step refl (element_plain k e p c (escape s ++ rest) plain h.0))
        (rw append_assoc at (element-Runs s rest k (e ++ (c ∷ [])) p h.1)))
]
