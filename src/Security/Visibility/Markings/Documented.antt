-- ===== src/Security/Visibility/Markings/Documented.antt =====
-- What Boost documents of `split` and `replace_all`.
use ezbake_common_cpp.Common.{ℕ, ◌≡◌, Bool, true, false, ◌&&◌, List, [], ◌∷◌, ◌++◌, ◌==◌, Text}
use ezbake_common_cpp.Security.Visibility.Markings.{Boost}

unfoldable pub starts_with : Text → Text → Bool
starts_with s [] = true
starts_with [] (d ∷ t) = false
starts_with (c ∷ s) (d ∷ t) = c == d && starts_with s t

-- `split` cuts at each separator; `replace_all` goes through the text from the front, replaces the
-- search text where it stands, goes on behind it, and keeps every other byte.
pub record IsBoost (boost : Boost) : Type 0 where
  pub split_end : (p : ℕ → Bool) → boost.split [] p ≡ [] ∷ []
  pub split_cut :
      (p : ℕ → Bool) (c : ℕ) (s : Text) → p c ≡ true → boost.split (c ∷ s) p ≡ [] ∷ boost.split s p
  pub split_keep :
      (p : ℕ → Bool) (c : ℕ) (s piece : Text) (pieces : List Text)
      → p c ≡ false
      → boost.split s p ≡ piece ∷ pieces
      → boost.split (c ∷ s) p ≡ (c ∷ piece) ∷ pieces
  pub replace_end : (m r : Text) → boost.replace_all [] m r ≡ []
  pub replace_found :
      (d : ℕ) (m r s : Text)
      → boost.replace_all ((d ∷ m) ++ s) (d ∷ m) r ≡ r ++ boost.replace_all s (d ∷ m) r
  pub replace_keep :
      (c : ℕ) (s m r : Text)
      → starts_with (c ∷ s) m ≡ false
      → boost.replace_all (c ∷ s) m r ≡ c ∷ boost.replace_all s m r
