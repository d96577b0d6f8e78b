-- ===== src/Config/Parser/Halts.antt =====
-- When the loop of `parse` ends: three rounds to each byte are enough, or it never ends; and it
-- never ends exactly where it meets a backslash in a key before a byte that has no case there.
use ezbake_common_cpp.Common.{
  ℕ, zero, suc, ◌+◌, ◌*◌, ◌≤◌, ◌<◌, ◌≡◌, ◌⊎◌, inl, inr, refl, true, false, ◌||◌, none, some, [],
  ◌∷◌, ◌==◌, if◌then◌else◌, Text, arith, Bool-cases, length,
}
use ezbake_common_cpp.Config.Parser.{
  Properties, LexemType, begin, key, key_escape, key_continue, key_continue2, delimiter, element,
  element_escape, element_continue, element_continue2, comment, Lexer, step_in, step, is_delimiter,
  flush, loop, first, parse,
}

-- The rounds that may pass before a mode reads a byte.
abbrev pub rank : LexemType → ℕ
rank begin = 1
rank key_continue = 1
rank key_continue2 = 2
rank delimiter = 1
rank element_continue = 1
rank element_continue2 = 2
rank _ = 0

abbrev pub measure : Lexer → ℕ
measure s = if s.finished then 0 else 1 + rank s.lexem_type + 3 * length s.input

-- A backslash in a key, before a byte that `KEY_ESCAPE` has no case for.
pub record IsStuck (s : Lexer) : Type 0 where
  pub escaped : s.lexem_type ≡ key_escape
  pub running : s.finished ≡ false
  pub no_case : ((is_delimiter s.c || s.c == 0x5C) || (s.c == 0x0A || s.c == 0x0D)) ≡ false

abbrev Moves : LexemType → Lexer → Type 0
Moves m s = IsStuck s ⊎ (measure (step_in m s) < measure s)

escape_moves :
    (s : Lexer) (input : Text)
    → s.lexem_type ≡ key_escape
    → s.input ≡ input
    → s.finished ≡ false
    → ((is_delimiter s.c || s.c == 0x5C) || (s.c == 0x0A || s.c == 0x0D)) ≡ true
    → measure (step_in key_escape s) < measure s
unfolding step_in
escape_moves s [] m i h case = ground arith
escape_moves s (x ∷ l) m i h case = ground arith

step_in-Moves :
    (m : LexemType) (s : Lexer) (input : Text)
    → s.lexem_type ≡ m
    → s.input ≡ input
    → s.finished ≡ false
    → Moves m s
unfolding step_in
step_in-Moves begin s [] m i h = inr (ground arith)
step_in-Moves begin s (x ∷ l) m i h = inr (ground arith)
step_in-Moves key s [] m i h = inr (ground arith)
step_in-Moves key s (x ∷ l) m i h = inr (ground arith)
step_in-Moves key_escape s input m i h =
    elim (Bool-cases ((is_delimiter s.c || s.c == 0x5C) || (s.c == 0x0A || s.c == 0x0D))) [
      | inl case ↦ inr (escape_moves s input m i h case)
      | inr no_case ↦ inl (record { escaped = m; running = h; no_case = no_case })
    ]
step_in-Moves key_continue s [] m i h = inr (ground arith)
step_in-Moves key_continue s (x ∷ l) m i h = inr (ground arith)
step_in-Moves key_continue2 s [] m i h = inr (ground arith)
step_in-Moves key_continue2 s (x ∷ l) m i h = inr (ground arith)
step_in-Moves delimiter s [] m i h = inr (ground arith)
step_in-Moves delimiter s (x ∷ l) m i h = inr (ground arith)
step_in-Moves element s [] m i h = inr (ground arith)
step_in-Moves element s (x ∷ l) m i h = inr (ground arith)
step_in-Moves element_escape s [] m i h = inr (ground arith)
step_in-Moves element_escape s (x ∷ l) m i h = inr (ground arith)
step_in-Moves element_continue s [] m i h = inr (ground arith)
step_in-Moves element_continue s (x ∷ l) m i h = inr (ground arith)
step_in-Moves element_continue2 s [] m i h = inr (ground arith)
step_in-Moves element_continue2 s (x ∷ l) m i h = inr (ground arith)
step_in-Moves comment s [] m i h = inr (ground arith)
step_in-Moves comment s (x ∷ l) m i h = inr (ground arith)

-- Every round of a running lexer is stuck for good or brings the end nearer.
step-Moves : (s : Lexer) → s.finished ≡ false → Moves s.lexem_type s
step-Moves s h = step_in-Moves s.lexem_type s s.input refl refl h

step_in-IsStuck : (m : LexemType) (s : Lexer) → m ≡ key_escape → IsStuck s → step_in m s ≡ s
unfolding step_in
step_in-IsStuck m s e k = rw e (ground arith)

-- The lexer comes from `s` to `t` in some rounds.
pub data Runs : Lexer → Lexer → Type 0 where
  here : {s : Lexer} → Runs s s
  round : {s t : Lexer} → s.finished ≡ false → Runs (step s) t → Runs s t

never_here : (s : Lexer) → IsStuck s → (f : ℕ) → loop f s ≡ none
unfolding loop
never_here s k zero = rw (k.running, loop)
never_here s k (suc f) =
    rw (k.running, loop) (rw (step_in-IsStuck s.lexem_type s k.escaped k) (never_here s k f))

never_later :
    (s : Lexer)
    → s.finished ≡ false
    → ((f : ℕ) → loop f (step s) ≡ none)
    → (f : ℕ) → loop f s ≡ none
unfolding loop
never_later s h later zero = rw (h, loop)
never_later s h later (suc f) = rw (h, loop) (later f)

-- A lexer that comes to a stuck state runs for ever: no fuel is enough.
pub loop-never : {s t : Lexer} → Runs s t → IsStuck t → (f : ℕ) → loop f s ≡ none
loop-never {s} here k = never_here s k
loop-never {s} (round h r) k = never_later s h (loop-never r k)

loop_finished : (f : ℕ) (s : Lexer) → s.finished ≡ true → loop f s ≡ some (flush s.key_text s)
unfolding loop
loop_finished zero s h = ground arith
loop_finished (suc f) s h = ground arith

-- With fuel for the measure, the loop ends or comes to a stuck state.
pub loop_decided :
    (f : ℕ) (s : Lexer)
    → measure s ≤ f
    → ((p : Properties) × (loop f s ≡ some p)) ⊎ ((t : Lexer) × Runs s t × IsStuck t)
unfolding loop
loop_decided zero s m = elim (Bool-cases s.finished) [
  | inl done ↦ inl (flush s.key_text s, loop_finished zero s done)
  | inr running ↦ absurd (ground arith)
]
loop_decided (suc f) s m = elim (Bool-cases s.finished) [
  | inl done ↦ inl (flush s.key_text s, loop_finished (suc f) s done)
  | inr running ↦ elim (step-Moves s running) [
    | inl stuck ↦ inr (s, here, stuck)
    | inr moved ↦ elim (loop_decided f (step s) (ground arith)) [
      | inl (p, ends) ↦ inl (p, rw (running, loop) ends)
      | inr (t, runs, stuck) ↦ inr (t, round running runs, stuck)
    ]
  ]
]

-- `parse` ends within three rounds to a byte, or its lexer comes to a backslash in a key before a
-- byte that has no case there, and then it ends with no number of rounds.
pub parse_decided :
    (x : ℕ) (rest : Text) (properties : Properties)
    → ((p : Properties) × (parse (3 * length (x ∷ rest)) (x ∷ rest) properties ≡ some p))
      ⊎ ((t : Lexer) × Runs (first x rest properties) t
          × IsStuck t
          × ((f : ℕ) → parse f (x ∷ rest) properties ≡ none))
unfolding parse
parse_decided x rest properties =
    elim (loop_decided (3 * length (x ∷ rest)) (first x rest properties) (omega arith)) [
      | inl ended ↦ inl ended
      | inr (t, runs, stuck) ↦ inr (t, runs, stuck, loop-never runs stuck)
    ]

-- Runs end where the loop ends: with fuel for the measure, on the same properties.
IsStuck-Runs : {s t : Lexer} → IsStuck s → Runs s t → IsStuck t
IsStuck-Runs k here = k
IsStuck-Runs {s} k (round h r) = IsStuck-Runs (rw (step_in-IsStuck s.lexem_type s k.escaped k) k) r

pub loop-Runs :
    (f : ℕ) {s t : Lexer}
    → Runs s t
    → t.finished ≡ true
    → measure s ≤ f
    → loop f s ≡ some (flush t.key_text t)
unfolding loop
loop-Runs f {s} here h m = loop_finished f s h
loop-Runs zero (round running r) h m = absurd (ground arith)
loop-Runs (suc f) {s} (round running r) h m = elim (step-Moves s running) [
  | inl stuck ↦ absurd (cc ((IsStuck-Runs stuck (round running r)).running, h))
  | inr moved ↦ rw (running, loop) (loop-Runs f r h (ground arith))
]

pub Runs-trans : {s t u : Lexer} → Runs s t → Runs t u → Runs s u
Runs-trans here q = q
Runs-trans (round h r) q = round h (Runs-trans r q)
