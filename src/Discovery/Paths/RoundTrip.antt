-- ===== src/Discovery/Paths/RoundTrip.antt =====
-- Paths are made of names and split into them again.
use mathlib.Core.List.{append-nil, append_assoc}
use ezbake_common_cpp.Common.Result.{ok}
use ezbake_common_cpp.Common.{◌≡◌, refl, ap, false, List, [], ◌∷◌, ◌++◌, ◌==◌, Text, arith, All}
use ezbake_common_cpp.Discovery.Paths.{
  path_delim, has_byte, has_inner_delim, build_zk_path, strip_delim, make_zk_path, keep_piece,
  split_from, split_path,
}

-- A name of a node: not empty, and without a delimiter.
abbrev pub IsName : Text → Type 0
IsName [] = ⊥
IsName (c ∷ s) = has_byte path_delim (c ∷ s) ≡ false

unfoldable pub join : List Text → Text
join [] = []
join (name ∷ names) = path_delim ∷ (name ++ join names)

build_zk_path-join : (names : List Text) → All IsName names → build_zk_path names ≡ ok (join names)
unfolding build_zk_path has_inner_delim join has_byte
build_zk_path-join [] h = refl
build_zk_path-join ([] ∷ names) h = absurd h.0
build_zk_path-join ((c ∷ s) ∷ names) h =
    let inner : has_byte path_delim s ≡ false = ground (arith, h.0) in
    rw (inner, build_zk_path-join names h.1)

-- A path of names is the names, each after a delimiter.
pub make_zk_path-join :
    (names : List Text) → All IsName names → make_zk_path names ≡ ok (join names)
unfolding make_zk_path strip_delim join has_byte
make_zk_path-join names h = rw (build_zk_path-join names h) (ap ok (strip names h))
  where
    strip : (names : List Text) → All IsName names → strip_delim (join names) ≡ join names
    strip [] h = refl
    strip ([] ∷ names) h = absurd h.0
    strip ((c ∷ s) ∷ names) h = ground (arith, h.0)

split_from-append :
    (acc name rest : Text)
    → has_byte path_delim name ≡ false
    → split_from path_delim false acc (name ++ rest)
      ≡ split_from path_delim false (acc ++ name) rest
unfolding split_from has_byte
split_from-append acc [] rest h = rw (append-nil acc)
split_from-append acc (c ∷ name) rest h =
    let other : (c == path_delim) ≡ false = ground arith in
    let later : has_byte path_delim name ≡ false = ground arith in
    rw (other, split_from-append (acc ++ (c ∷ [])) name rest later, append_assoc acc (c ∷ []) name)

split_from-name :
    (name rest : Text)
    → IsName name
    → split_from path_delim false [] (name ++ rest) ≡ split_from path_delim false name rest
split_from-name [] rest h = absurd h
split_from-name (c ∷ s) rest h = split_from-append [] (c ∷ s) rest h

split_from-join :
    (name : Text) (names : List Text)
    → IsName name
    → All IsName names
    → split_from path_delim false name (join names) ≡ name ∷ names
unfolding split_from keep_piece join
split_from-join [] names h k = absurd h
split_from-join (c ∷ s) [] h k = refl
split_from-join (c ∷ s) (name ∷ names) h k =
    rw (split_from-name name (join names) k.0, split_from-join name names k.0 k.1)

pub split_path-join : (names : List Text) → All IsName names → split_path (join names) ≡ names
unfolding split_path join split_from keep_piece
split_path-join [] h = refl
split_path-join (name ∷ names) h =
    rw (split_from-name name (join names) h.0, split_from-join name names h.0 h.1)

-- A path that is made of names, none of them empty or with a delimiter, is split into these names.
pub split_path-make_zk_path :
    (names : List Text)
    → All IsName names
    → (path : Text) × (make_zk_path names ≡ ok path) × (split_path path ≡ names)
split_path-make_zk_path names h = (join names, make_zk_path-join names h, split_path-join names h)
