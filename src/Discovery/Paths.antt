-- ===== src/Discovery/Paths.antt =====
-- The paths of discovery/src/main/cpp/ServiceDiscoveryClient.cpp and
-- discovery/src/main/include/ezbake/ezdiscovery/ServiceDiscoveryClient.h: `makeZKPath`, `splitPath`
-- and `validateHostAndPort`.
pub mod RoundTrip
use ezbake_common_cpp.Common.Result.{Result, ok, throw, service_discovery_exception, ◌>>=◌}
use ezbake_common_cpp.Common.{
  ℕ, Bool, false, not, ◌||◌, List, [], ◌∷◌, ◌++◌, ◌==◌, if◌then◌else◌, Text, codes,
}

-- `PATH_DELIM`
abbrev pub path_delim : ℕ
path_delim = b'/'

unfoldable pub has_byte : ℕ → Text → Bool
has_byte d [] = false
has_byte d (c ∷ s) = c == d || has_byte d s

-- `path.find(PATH_DELIM, 1) != npos`
unfoldable pub has_inner_delim : Text → Bool
unfolding has_byte
has_inner_delim [] = false
has_inner_delim (c ∷ s) = has_byte path_delim s

unfoldable pub build_zk_path : List Text → Result Text
unfolding has_inner_delim
build_zk_path [] = ok []
build_zk_path (path ∷ paths) =
    if has_inner_delim path
    then throw (service_discovery_exception (codes "ZK path should not contain \"/\": " ++ path))
    else build_zk_path paths >>= λ rest. ok (path_delim ∷ (path ++ rest))

-- `if (thepath.find("//") == 0) { thepath = thepath.substr(1); }`
unfoldable pub strip_delim : Text → Text
strip_delim [] = []
strip_delim (c ∷ []) = c ∷ []
strip_delim (c ∷ d ∷ s) =
    if c == path_delim then (if d == path_delim then d ∷ s else c ∷ d ∷ s) else c ∷ d ∷ s

unfoldable pub make_zk_path : List Text → Result Text
unfolding build_zk_path strip_delim
make_zk_path paths = build_zk_path paths >>= λ thepath. ok (strip_delim thepath)

-- A piece that is not empty, or any if `keepEmpty`.
unfoldable pub keep_piece : Bool → Text → List Text → List Text
keep_piece keep_empty [] pieces = if keep_empty then [] ∷ pieces else pieces
keep_piece keep_empty (c ∷ piece) pieces = (c ∷ piece) ∷ pieces

-- The loop of `splitPath`; `piece` is the text since `prev`, and what is left at the end of the
-- text is a piece only if it is not empty.
unfoldable pub split_from : ℕ → Bool → Text → Text → List Text
unfolding keep_piece
split_from delimiter keep_empty piece [] = keep_piece false piece []
split_from delimiter keep_empty piece (c ∷ s) =
    let cut = split_from delimiter keep_empty [] s in
    let go_on = split_from delimiter keep_empty (piece ++ (c ∷ [])) s in
    if c == delimiter then keep_piece keep_empty piece cut else go_on

-- `splitPath(absPath)`, with the defaults of the other arguments.
unfoldable pub split_path : Text → List Text
unfolding split_from
split_path abs_path = split_from path_delim false [] abs_path

unfoldable pub validate_host_and_port : Text → Result (Unit {0})
unfolding has_byte
validate_host_and_port host_and_port =
    if has_byte b':' host_and_port
    then ok tt
    else throw (service_discovery_exception (codes "Invalid Host:Port format: " ++ host_and_port))
