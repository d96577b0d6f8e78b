-- ===== src/Discovery/Async/Process.antt =====
-- The texts of paths, and what `CreatePathDelegate::process` does with the completion of a `create`.
use mathlib.Core.List.{append_assoc}
use ezbake_common_cpp.Common.Async.{raised, answer}
use ezbake_common_cpp.Common.Result.{out_of_range}
use ezbake_common_cpp.Common.{
  ℕ, ◌≡◌, ◌⊎◌, refl, inl, inr, true, false, none, some, List, [], ◌∷◌, ◌++◌, length, get_elem?,
  if◌then◌else◌, Text, text_eq, text_eq_iff, codes, arith, All,
}
use ezbake_common_cpp.Discovery.Async.{
  CallbackResponse, ok_response, error_response, Zk, is_prefix, process_create,
}
use ezbake_common_cpp.Discovery.Paths.{path_delim}
use ezbake_common_cpp.Discovery.Paths.RoundTrip.{IsName, join, split_path-join}
use ezbake_common_cpp.Discovery.Registry.Created.{join-append}
use ezbake_common_cpp.Discovery.Registry.{
  ReturnCode, ok_code, no_node, node_exists, other_code, is_ok_or_exists, is_ok,
}

text_eq-longer : (s rest : Text) (c : _) → text_eq s (s ++ (c ∷ rest)) ≡ false
unfolding text_eq
text_eq-longer [] rest c = refl
text_eq-longer (d ∷ s) rest c = ground (arith, text_eq-longer s rest c)

text_eq-nothing : (s rest : Text) (c : _) → text_eq [] (s ++ (c ∷ rest)) ≡ false
unfolding text_eq
text_eq-nothing [] rest c = refl
text_eq-nothing (d ∷ s) rest c = refl

is_prefix-append : (s rest : Text) → is_prefix s (s ++ rest) ≡ true
unfolding is_prefix
is_prefix-append [] rest = refl
is_prefix-append (d ∷ s) rest = ground (arith, is_prefix-append s rest)

get_elem?-end : (l : List Text) → get_elem? l (length l) ≡ none
get_elem?-end [] = refl
get_elem?-end (x ∷ l) = get_elem?-end l

get_elem?-next :
    (l : List Text) (k : Text) (m : List Text) → get_elem? (l ++ (k ∷ m)) (length l) ≡ some k
get_elem?-next [] k m = refl
get_elem?-next (x ∷ l) k m = get_elem?-next l k m

join-join : (l m : List Text) → join (l ++ m) ≡ join l ++ join m
unfolding join
join-join [] m = refl
join-join (n ∷ l) m = rw (join-join l m, append_assoc n (join l) (join m))

All-prefix : (l m : List Text) → All IsName (l ++ m) → All IsName l
All-prefix [] m h = tt
All-prefix (n ∷ l) m h = (h.0, All-prefix l m h.1)

abbrev pub created : ReturnCode → Text → Text
created rc path = if is_ok rc then path else []

module _ (next : Text → Zk CallbackResponse) where
  pub process_create-refused :
      (principal_path requested made_path : Text) (rc : ReturnCode)
      → is_ok_or_exists rc ≡ false
      → process_create principal_path next requested rc made_path ≡ answer error_response
  unfolding process_create
  process_create-refused principal_path requested made_path rc bad = rw bad refl

  -- A node above the last: the one below it is next.
  pub process_create-more :
      (above : List Text) (k : Text) (names : List Text) (rc : ReturnCode)
      → All IsName (above ++ (k ∷ names))
      → is_ok_or_exists rc ≡ true
      → process_create (join (above ++ (k ∷ names))) next (join above) rc (created rc (join above))
        ≡ next (join above ++ (path_delim ∷ k))
  unfolding process_create is_ok_or_exists is_ok join
  process_create-more above k names ok_code named good =
      let named_above = All-prefix above (k ∷ names) named in
      let same : text_eq (join above) (join above) ≡ true =
        (text_eq_iff (join above) (join above)).1 refl in
      let split = split_path-join (above ++ (k ∷ names)) named in
      let longer : text_eq (join above) (join (above ++ (k ∷ names))) ≡ false =
        rw (join-join above (k ∷ names), join)
          (text_eq-longer (join above) (k ++ join names) path_delim) in
      let within : is_prefix (join above) (join (above ++ (k ∷ names))) ≡ true =
        rw (join-join above (k ∷ names)) (is_prefix-append (join above) (join (k ∷ names))) in
      rw
        (
          longer,
          same,
          within,
          split,
          split_path-join above named_above,
          get_elem?-next above k names,
        )
        refl
  process_create-more above k names node_exists named good =
      let named_above = All-prefix above (k ∷ names) named in
      let split = split_path-join (above ++ (k ∷ names)) named in
      let longer : text_eq [] (join (above ++ (k ∷ names))) ≡ false =
        rw (join-join above (k ∷ names), join)
          (text_eq-nothing (join above) (k ++ join names) path_delim) in
      rw (longer, split, split_path-join above named_above, get_elem?-next above k names) refl
  process_create-more above k names no_node named good = absurd (cc good)
  process_create-more above k names (other_code n) named good = absurd (cc good)

  -- The last node; one that is there already makes the handler throw.
  pub process_create-last :
      (names : List Text) (m : Text) (rc : ReturnCode)
      → All IsName (names ++ (m ∷ []))
      → process_create
          (join (names ++ (m ∷ [])))
          next
          (join (names ++ (m ∷ [])))
          rc
          (created rc (join (names ++ (m ∷ []))))
        ≡ elim rc [
          | ok_code ↦ answer ok_response
          | node_exists ↦ raised (out_of_range (codes "vector::at"))
          | other ↦ answer error_response
        ]
  unfolding process_create is_ok_or_exists is_ok
  process_create-last names m ok_code named =
      let path = join (names ++ (m ∷ [])) in
      let same : text_eq path path ≡ true = (text_eq_iff path path).1 refl in rw same refl
  process_create-last names m node_exists named =
      let longer : text_eq [] (join (names ++ (m ∷ []))) ≡ false =
        rw (join-append names m) (text_eq-nothing (join names) m path_delim) in
      rw (longer, split_path-join (names ++ (m ∷ [])) named, get_elem?-end (names ++ (m ∷ []))) refl
  process_create-last names m no_node named = refl
  process_create-last names m (other_code n) named = refl

pub ReturnCode-cases :
    (rc : ReturnCode)
    → (rc ≡ ok_code) ⊎ ((rc ≡ node_exists) ⊎ ((rc ≡ no_node) ⊎ ((n : ℕ) × (rc ≡ other_code n))))
ReturnCode-cases ok_code = inl refl
ReturnCode-cases node_exists = inr (inl refl)
ReturnCode-cases no_node = inr (inr (inl refl))
ReturnCode-cases (other_code n) = inr (inr (inr (n, refl)))
