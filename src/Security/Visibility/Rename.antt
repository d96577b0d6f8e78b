-- ===== src/Security/Visibility/Rename.antt =====
-- Words of a tree replaced, and what a word has become when some markings are replaced.
use ezbake_common_cpp.Common.{◌≡◌, refl, List, [], ◌∷◌, ◌++◌, if◌then◌else◌, Text, All}
use ezbake_common_cpp.Security.Visibility.Grammar.{Expr, var, op_not, op_and, op_or}
use ezbake_common_cpp.Security.Visibility.Markings.Replace.{words, rename, All-left, All-right}
use ezbake_common_cpp.Security.Visibility.Markings.{true_replace, false_replace, has_text}

module _ (auths : List Text) where
  abbrev pub value : Text → Text
  value m = if has_text m auths then true_replace else false_replace

  -- What a word has become when the markings `done` are replaced.
  abbrev pub current : List Text → Text → Text
  current done w = if has_text w done then value w else w

pub rename_cong :
    (σ τ : Text → Text) (e : Expr) → All (λ w. σ w ≡ τ w) (words e) → rename σ e ≡ rename τ e
unfolding rename words
rename_cong σ τ (var w) h = rw h.0
rename_cong σ τ (op_not e) h = rw (rename_cong σ τ e h)
rename_cong σ τ (op_and d e) h = rw (
  rename_cong σ τ d (All-left (λ w. σ w ≡ τ w) (words d) (words e) h),
  rename_cong σ τ e (All-right (λ w. σ w ≡ τ w) (words d) (words e) h),
)
rename_cong σ τ (op_or d e) h = rw (
  rename_cong σ τ d (All-left (λ w. σ w ≡ τ w) (words d) (words e) h),
  rename_cong σ τ e (All-right (λ w. σ w ≡ τ w) (words d) (words e) h),
)

pub rename_twice : (σ τ : Text → Text) (e : Expr) → rename σ (rename τ e) ≡ rename (λ w. σ (τ w)) e
unfolding rename
rename_twice σ τ (var w) = refl
rename_twice σ τ (op_not e) = rw (rename_twice σ τ e)
rename_twice σ τ (op_and d e) = rw (rename_twice σ τ d, rename_twice σ τ e)
rename_twice σ τ (op_or d e) = rw (rename_twice σ τ d, rename_twice σ τ e)

pub rename_same : (e : Expr) → rename (λ w. w) e ≡ e
unfolding rename
rename_same (var w) = refl
rename_same (op_not e) = rw (rename_same e)
rename_same (op_and d e) = rw (rename_same d, rename_same e)
rename_same (op_or d e) = rw (rename_same d, rename_same e)

pub map_words : (Text → Text) → List Text → List Text
map_words σ [] = []
map_words σ (w ∷ ws) = σ w ∷ map_words σ ws

map_words-append :
    (σ : Text → Text) (xs ys : List Text)
    → map_words σ (xs ++ ys) ≡ map_words σ xs ++ map_words σ ys
unfolding map_words
map_words-append σ [] ys = refl
map_words-append σ (x ∷ xs) ys = rw (map_words-append σ xs ys)

pub words-rename : (σ : Text → Text) (e : Expr) → words (rename σ e) ≡ map_words σ (words e)
unfolding words rename map_words
words-rename σ (var w) = refl
words-rename σ (op_not e) = words-rename σ e
words-rename σ (op_and d e) =
    rw (map_words-append σ (words d) (words e), words-rename σ d, words-rename σ e)
words-rename σ (op_or d e) =
    rw (map_words-append σ (words d) (words e), words-rename σ d, words-rename σ e)

pub All-map_words :
    (σ : Text → Text) (P Q : Text → Type 0) (ws : List Text)
    → ((w : Text) → P w → Q (σ w))
    → All P ws
    → All Q (map_words σ ws)
unfolding map_words
All-map_words σ P Q [] f h = tt
All-map_words σ P Q (w ∷ ws) f h = (f w h.0, All-map_words σ P Q ws f h.1)

pub All-every : (P : Text → Type 0) (ws : List Text) → ((w : Text) → P w) → All P ws
All-every P [] f = tt
All-every P (w ∷ ws) f = (f w, All-every P ws f)
