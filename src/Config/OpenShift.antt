-- ===== src/Config/OpenShift.antt =====
-- `OpenShiftUtil` of configuration/src/main/cpp/util/OpenShiftUtil.cpp, and its twin in
-- common/src/main/cpp/utils/OpenShiftUtil.cpp. A `std::string` made of NULL is a `crash`.
use ezbake_common_cpp.Common.Result.{
  Result, ok, throw, crash, ◌>>=◌, runtime_error, bad_lexical_cast,
}
use ezbake_common_cpp.Common.{
  ℕ, ◌≡◌, inl, inr, Bool, true, false, not, Option, none, some, [], ◌∷◌, ◌++◌, ◌==◌, if◌then◌else◌,
  Text, codes, is_blank, arith, Option-cases, Bool-cases,
}
use ezbake_common_cpp.Config.Properties.{System}
use ezbake_common_cpp.Net.HostAndPort.{HostAndPort, from_parts}

abbrev pub file_separator : ℕ
file_separator = b'/'

abbrev pub openshift_repo_dir : Text
openshift_repo_dir = codes "OPENSHIFT_REPO_DIR"

abbrev pub openshift_java_thriftrunner_ip : Text
openshift_java_thriftrunner_ip = codes "OPENSHIFT_JAVA_THRIFTRUNNER_IP"

abbrev pub openshift_java_thriftrunner_tcp_port : Text
openshift_java_thriftrunner_tcp_port = codes "OPENSHIFT_JAVA_THRIFTRUNNER_TCP_PORT"

-- `find_last_of(sep) == length() - 1`, on a text that is not empty.
unfoldable pub ends_with_separator : Text → Bool
ends_with_separator [] = false
ends_with_separator (c ∷ []) = c == file_separator
ends_with_separator (c ∷ d ∷ s) = ends_with_separator (d ∷ s)

-- `find(sep) == 0`
unfoldable pub is_absolute : Text → Bool
is_absolute [] = false
is_absolute (c ∷ s) = c == file_separator

not_set : Text → Text
not_set name = codes "environment var " ++ (name ++ codes " not set")

module _ (system : System) where
  unfoldable pub in_open_shift_container : Bool
  unfolding is_blank
  in_open_shift_container = elim (system.getenv openshift_repo_dir) [
    | none ↦ false
    | some env ↦ not (is_blank env)
  ]

  unfoldable pub get_repo_dir : Result Text
  get_repo_dir = elim (system.getenv openshift_repo_dir) [
    | none ↦ crash
    | some dir ↦ elim dir [
      | [] ↦
          throw
            (runtime_error (codes "environment var" ++ (openshift_repo_dir ++ codes " not set")))
      | c ∷ s ↦ ok (c ∷ s)
    ]
  ]

  unfoldable pub get_configuration_dir : Result Text
  unfolding get_repo_dir ends_with_separator
  get_configuration_dir = do
    dir_from_env ← get_repo_dir
    ok (
        if ends_with_separator dir_from_env
        then dir_from_env ++ codes "config"
        else dir_from_env ++ (file_separator ∷ codes "config"))

  unfoldable pub get_repo_path : Text → Result Text
  unfolding is_absolute get_repo_dir
  get_repo_path file =
      if is_absolute file
      then ok file
      else (do dir ← get_repo_dir; ok (dir ++ (file_separator ∷ file)))

  -- `lexical_cast` gives the `unsigned int` that the `int` of `convertToInt` converts to.
  unfoldable pub get_thrift_private_info : (Text → Option ℕ) → Result HostAndPort
  unfolding is_blank not_set
  get_thrift_private_info lexical_cast = elim (system.getenv openshift_java_thriftrunner_ip) [
    | none ↦ crash
    | some ip ↦ elim (system.getenv openshift_java_thriftrunner_tcp_port) [
      | none ↦ crash
      | some port ↦
          if is_blank ip
          then throw (runtime_error (not_set openshift_java_thriftrunner_ip))
          else if is_blank port
          then throw (runtime_error (not_set openshift_java_thriftrunner_tcp_port))
          else elim (lexical_cast port) [ none ↦ throw bad_lexical_cast | some p ↦ from_parts ip p ]
    ]
  ]

  get_repo_dir_in_container :
      in_open_shift_container ≡ true → (dir : Text) × (get_repo_dir ≡ ok dir)
  unfolding in_open_shift_container get_repo_dir
  get_repo_dir_in_container h = elim (Option-cases (system.getenv openshift_repo_dir)) [
    | inl unset ↦ absurd (ground arith)
    | inr (dir, e) ↦ go dir e
  ]
    where
      go :
          (dir : Text)
          → system.getenv openshift_repo_dir ≡ some dir
          → (d : Text) × (get_repo_dir ≡ ok d)
      go [] e = absurd (ground arith)
      go (c ∷ s) e = (c ∷ s, rw (e, get_repo_dir))

  -- In a container the repository directory is set and not blank, so every path resolves, and the
  -- configuration directory too.
  pub get_repo_path_in_container :
      (file : Text)
      → in_open_shift_container ≡ true
      → ((path : Text) × (get_repo_path file ≡ ok path))
        × ((dir : Text) × (get_configuration_dir ≡ ok dir))
  unfolding get_repo_path get_configuration_dir
  get_repo_path_in_container file h =
      let (dir, e) = get_repo_dir_in_container h in (path_of dir e, dir_of dir e)
    where
      path_of :
          (dir : Text) → get_repo_dir ≡ ok dir → (path : Text) × (get_repo_path file ≡ ok path)
      path_of dir e = elim (Bool-cases (is_absolute file)) [
        | inl absolute ↦ (file, rw (absolute, get_repo_path))
        | inr relative ↦ (dir ++ (file_separator ∷ file), rw (relative, get_repo_path, e))
      ]

      dir_of : (d : Text) → get_repo_dir ≡ ok d → (dir : Text) × (get_configuration_dir ≡ ok dir)
      dir_of d e = elim (Bool-cases (ends_with_separator d)) [
        | inl ends ↦ (d ++ codes "config", rw (e, ends, get_configuration_dir))
        | inr plain ↦ (d ++ (file_separator ∷ codes "config"), rw (e, plain, get_configuration_dir))
      ]
