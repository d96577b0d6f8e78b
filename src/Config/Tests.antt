-- ===== src/Config/Tests.antt =====
-- The theorems on the configuration at concrete properties, texts and systems.
use ezbake_common_cpp.Common.Dict
use ezbake_common_cpp.Common.Dict.{lookup, first_some}
use ezbake_common_cpp.Common.Result.{ok, throw, runtime_error}
use ezbake_common_cpp.Common.{
  ℕ, ◌*◌, ◌≡◌, ◌⊎◌, refl, Bool, true, false, ◌||◌, ◌&&◌, Option, none, some, List, [], ◌∷◌, ◌++◌,
  ◌==◌, if◌then◌else◌, Text, codes, text_eq, length, All,
}
use ezbake_common_cpp.Config.OpenShift.{openshift_repo_dir}
use ezbake_common_cpp.Config.Parser.Halts.{Runs, IsStuck, parse_decided}
use ezbake_common_cpp.Config.Parser.Lines.{escape}
use ezbake_common_cpp.Config.Parser.RoundTrip.{
  IsLine, Line, entry, note, space, render, meaning, parse-render, parse-escape_never,
}
use ezbake_common_cpp.Config.Parser.{Properties, Lexer, first, parse}
use ezbake_common_cpp.Config.Properties.Merge.{IsCollision, merge_properties_checked}
use ezbake_common_cpp.Config.Properties.{System, merge_properties}

unfoldable starts_with : Text → Text → Bool
starts_with s [] = true
starts_with [] (d ∷ t) = false
starts_with (c ∷ s) (d ∷ t) = c == d && starts_with s t

unfoldable ends_with : Text → Text → Bool
ends_with [] t = text_eq [] t
ends_with (c ∷ s) t = text_eq (c ∷ s) t || ends_with s t

unfoldable environment : Text → Option Text
environment name = if text_eq name openshift_repo_dir then some (codes "/repo") else none

-- A container with one property file in every directory.
abbrev system : System
system = record {
  getenv = environment;
  read_file = λ path. some (codes "zk.host=new\n");
  list_directory = λ path. some (codes "a.properties" ∷ []);
  trim = λ s. s;
  starts_with = starts_with;
  ends_with = ends_with;
  what = λ e. codes "error";
}

abbrev old : Properties
old = (codes "zk.host", codes "old") ∷ (codes "zk2", codes "x") ∷ []

abbrev document : List Line
document =
    note b'#' (codes " hosts")
    ∷ entry (codes "zk host") (codes "a:b")
    ∷ space b' '
    ∷ entry (codes "k") []
    ∷ []

parse_decided_example :
    ((p : Properties) × (parse (3 * length (codes "a=b")) (codes "a=b") [] ≡ some p))
    ⊎ ((t : Lexer) × Runs (first b'a' (codes "=b") []) t
        × IsStuck t
        × ((f : ℕ) → parse f (codes "a=b") [] ≡ none))
parse_decided_example = parse_decided b'a' (codes "=b") []

document_lines : All IsLine document
document_lines = (
  (refl, (refl, (refl, (refl, (refl, (refl, (refl, tt))))))),
  (
    (
      (refl, (refl, (refl, (refl, (refl, (refl, (refl, (refl, tt)))))))),
      (refl, (refl, (refl, tt))),
    ),
    (refl, (((refl, (refl, tt)), tt), tt)),
  ),
)

parse-render_example :
    parse (3 * length (render document)) (render document) []
    ≡ some ((codes "zk host", codes "a:b") ∷ (codes "k", []) ∷ [])
unfolding meaning Dict.assign text_eq
parse-render_example = parse-render document [] document_lines

parse-escape_never_example : parse 100 (escape (codes "a") ++ (0x5C ∷ b'x' ∷ codes "y=1")) [] ≡ none
parse-escape_never_example =
    parse-escape_never (codes "a") (codes "y=1") b'x' [] 100 (refl, (refl, tt)) refl

merge_properties_checked_example :
    ((j : Text) × IsCollision old old j
      × (merge_properties old old false
          ≡ (old, throw (runtime_error (j ++ codes " has already been defined")))))
    ⊎ ((j : Text)
        → ((lookup j old ≡ none) ⊎ (lookup j old ≡ none))
          × ((merge_properties old old false).1 ≡ ok tt)
          × (lookup j (merge_properties old old false).0
              ≡ first_some (lookup j old) (lookup j old)))
merge_properties_checked_example = merge_properties_checked old old
