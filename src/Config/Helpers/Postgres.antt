-- ===== src/Config/Helpers/Postgres.antt =====
-- `PostgresConfiguration` of configuration/src/main/cpp/helpers/PostgresConfiguration.cpp: a
-- configuration with a copy of the environment to fall back on.
use ezbake_common_cpp.Common.Dict
use ezbake_common_cpp.Common.Dict.{lookup, lookup-assign}
use ezbake_common_cpp.Common.{
  ◌≡◌, inl, inr, refl, false, Option, none, some, List, [], ◌∷◌, ◌++◌, ◌==◌, if◌then◌else◌, Text,
  codes, text_eq, Option-cases, All,
}
use ezbake_common_cpp.Config.Helpers.Base
use ezbake_common_cpp.Config.Helpers.Base.{BaseConfiguration}
use ezbake_common_cpp.Config.Helpers.Constants.{Constants}

pub record PostgresConfiguration : Type 0 where
  pub base : BaseConfiguration
  pub environment : List (Text × Text)

-- `env.find("=")` with the two `substr` calls.
unfoldable pub split_env : Text → Option (Text × Text)
split_env [] = none
split_env (c ∷ env) =
    let rest = split_env env in
    if c == b'='
    then some ([], env)
    else elim rest [ none ↦ none | some (name, value) ↦ some (c ∷ name, value) ]

-- The loop of the constructor over `environ`.
unfoldable pub read_environ : List Text → List (Text × Text) → List (Text × Text)
unfolding split_env
read_environ [] environment = environment
read_environ (env ∷ environ) environment = elim (split_env env) [
  | none ↦ read_environ environ environment
  | some (name, value) ↦ read_environ environ (Dict.assign name value environment)
]

unfoldable pub init : BaseConfiguration → List Text → PostgresConfiguration
unfolding read_environ
init base environ = record { base = base; environment = read_environ environ [] }

unfoldable pub set_environment : PostgresConfiguration → List (Text × Text) → PostgresConfiguration
set_environment p environment = record p { environment = environment }

unfoldable pub find_value : PostgresConfiguration → Text → Text → Text
find_value p ez_key env_var = elim (Base.get p.base ez_key) [
  | some value ↦ value
  | none ↦ elim (lookup env_var p.environment) [ none ↦ [] | some value ↦ value ]
]

module _ (g : Constants) (p : PostgresConfiguration) where
  unfoldable pub get_host : Text
  get_host = find_value p g.postgres_host (codes "OPENSHIFT_POSTGRESQL_DB_HOST")

  unfoldable pub get_port : Text
  get_port = find_value p g.postgres_port (codes "OPENSHIFT_POSTGRESQL_DB_PORT")

  unfoldable pub get_username : Text
  get_username = find_value p g.postgres_username (codes "OPENSHIFT_POSTGRESQL_DB_USERNAME")

  unfoldable pub get_password : Text
  get_password = find_value p g.postgres_password (codes "OPENSHIFT_POSTGRESQL_DB_PASSWORD")

  unfoldable pub get_database : Text
  get_database = find_value p g.postgres_db (codes "PGDATABASE")

  unfoldable pub get_connection_url : Text
  get_connection_url = codes "postgresql://" ++ (get_host ++ (b':' ∷ get_port))

-- A variable whose name has no equals sign.
abbrev pub IsVariable : Text × Text → Type 0
IsVariable (name, value) = All (λ c. (c == b'=') ≡ false) name

-- `NAME=value`, as the system lays the environment out.
unfoldable pub environ_of : List (Text × Text) → List Text
environ_of [] = []
environ_of ((name, value) ∷ vars) = (name ++ (b'=' ∷ value)) ∷ environ_of vars

split_env_variable :
    (name value : Text)
    → All (λ c. (c == b'=') ≡ false) name
    → split_env (name ++ (b'=' ∷ value)) ≡ some (name, value)
unfolding split_env
split_env_variable [] value h = refl
split_env_variable (c ∷ name) value h = rw (h.0, split_env_variable name value h.1)

-- The last binding of a name among the variables, if there is one.
unfoldable pub last_binding : Text → List (Text × Text) → Option Text → Option Text
last_binding j [] found = found
last_binding j ((name, value) ∷ vars) found =
    last_binding j vars (if text_eq name j then some value else found)

lookup-read_environ :
    (vars m : List (Text × Text)) (j : Text)
    → All IsVariable vars
    → lookup j (read_environ (environ_of vars) m) ≡ last_binding j vars (lookup j m)
unfolding read_environ environ_of last_binding
lookup-read_environ [] m j h = refl
lookup-read_environ ((name, value) ∷ vars) m j (h, t) = rw (
  split_env_variable name value h,
  read_environ,
  lookup-read_environ vars (Dict.assign name value m) j t,
  lookup-assign name j value m,
)

-- A lookup in a helper made in an environment whose names have no equals sign returns the property
-- if the configuration has it, else the last value of the variable, else the empty text.
pub find_value-init :
    (base : BaseConfiguration) (vars : List (Text × Text)) (ez_key env_var : Text)
    → All IsVariable vars
    → find_value (init base (environ_of vars)) ez_key env_var ≡ (elim (Base.get base ez_key) [
      | some value ↦ value
      | none ↦ elim (last_binding env_var vars none) [ none ↦ [] | some value ↦ value ]
    ])
unfolding find_value init lookup
find_value-init base vars ez_key env_var h = elim (Option-cases (Base.get base ez_key)) [
  | inl unset ↦ rw (unset, find_value, lookup-read_environ vars [] env_var h)
  | inr (value, there) ↦ rw (there, find_value)
]
