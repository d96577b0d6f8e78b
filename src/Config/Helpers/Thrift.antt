-- ===== src/Config/Helpers/Thrift.antt =====
-- `ThriftConfiguration` of configuration/src/main/cpp/helpers/ThriftConfiguration.cpp. Its getters
-- look their keys up without the prefix of the helper.
use ezbake_common_cpp.Common.Result.{Result, ok, throw, invalid_argument}
use ezbake_common_cpp.Common.{
  ℕ, ◌*◌, ◌≡◌, ◌⊎◌, inl, inr, refl, Bool, true, false, ◌&&◌, not, Option, ◌++◌, if◌then◌else◌, Text,
  codes, text_eq, text_eq_iff, Bool-cases,
}
use ezbake_common_cpp.Config.EzConfiguration.{get_string, get_boolean, get_number}
use ezbake_common_cpp.Config.Helpers.Base.{BaseConfiguration}
use ezbake_common_cpp.Config.Helpers.Constants.{Constants}

pub record ThriftServerMode : Type 0 where
  pub name : Text
  pub is_blocking : Bool

abbrev pub simple : ThriftServerMode
simple = record { name = codes "Simple"; is_blocking = true }

abbrev pub hs_ha : ThriftServerMode
hs_ha = record { name = codes "HsHa"; is_blocking = false }

abbrev pub threaded_pool : ThriftServerMode
threaded_pool = record { name = codes "ThreadedPool"; is_blocking = true }

unfoldable pub value_of : Text → Result ThriftServerMode
value_of val =
    if text_eq hs_ha.name val
    then ok hs_ha
    else if text_eq threaded_pool.name val
    then ok threaded_pool
    else if not (text_eq simple.name val)
    then throw (invalid_argument (val ++ codes " is not a supported thrift server mode"))
    else ok simple

-- `operator==`
unfoldable pub same_mode : ThriftServerMode → ThriftServerMode → Bool
same_mode m n =
    text_eq m.name n.name && (if m.is_blocking then n.is_blocking else not n.is_blocking)

-- `valueOf` reads exactly the names of the three modes, each as its mode, and throws on any other
-- text.
pub value_of_lem :
    (val : Text)
    → ((m : ThriftServerMode) × (value_of val ≡ ok m)
        × (m.name ≡ val)
        × ((m ≡ simple) ⊎ ((m ≡ hs_ha) ⊎ (m ≡ threaded_pool))))
      ⊎ ((value_of val
            ≡ throw (invalid_argument (val ++ codes " is not a supported thrift server mode")))
          × (text_eq simple.name val ≡ false)
          × (text_eq hs_ha.name val ≡ false)
          × (text_eq threaded_pool.name val ≡ false))
unfolding value_of
value_of_lem val = elim (Bool-cases (text_eq hs_ha.name val)) [
  | inl ha ↦ inl (hs_ha, rw (ha, value_of), (text_eq_iff hs_ha.name val).0 ha, inr (inl refl))
  | inr not_ha ↦ elim (Bool-cases (text_eq threaded_pool.name val)) [
    | inl pool ↦ inl (
      threaded_pool,
      rw (not_ha, pool, value_of),
      (text_eq_iff threaded_pool.name val).0 pool,
      inr (inr refl),
    )
    | inr not_pool ↦ elim (Bool-cases (text_eq simple.name val)) [
      | inl plain ↦ inl (
        simple,
        rw (not_ha, not_pool, plain, value_of),
        (text_eq_iff simple.name val).0 plain,
        inl refl,
      )
      | inr not_plain ↦
          inr (rw (not_ha, not_pool, not_plain, value_of), not_plain, not_ha, not_pool)
    ]
  ]
]

module _ (g : Constants) (b : BaseConfiguration) where
  unfoldable pub get_server_mode : Result ThriftServerMode
  get_server_mode = value_of (get_string b.ez_configuration g.thrift_server_mode (codes "Simple"))

  unfoldable pub use_ssl : Bool
  use_ssl = get_boolean b.ez_configuration g.thrift_use_ssl true

  unfoldable pub get_test_on_borrow : Bool
  get_test_on_borrow = get_boolean b.ez_configuration g.thrift_test_on_borrow false

  unfoldable pub get_test_while_idle : Bool
  get_test_while_idle = get_boolean b.ez_configuration g.thrift_test_while_idle false

-- `Number` is the integer type, `number` its literals and `lexical_cast` Boost's reader of it.
module _ (g : Constants) (b : BaseConfiguration) {Number : Type 0} (number : ℕ → Number)
    (lexical_cast : Text → Option Number) where
  unfoldable pub get_max_idle_clients : Result Number
  get_max_idle_clients =
      get_number lexical_cast b.ez_configuration g.thrift_max_idle_clients (number 10)

  unfoldable pub get_millis_between_client_eviction_checks : Result Number
  get_millis_between_client_eviction_checks =
      get_number lexical_cast b.ez_configuration g.thrift_millis_between_client_eviction_checks
        (number (30 * 1000))

  unfoldable pub get_millis_idle_before_eviction : Result Number
  get_millis_idle_before_eviction =
      get_number lexical_cast b.ez_configuration g.thrift_millis_idle_before_eviction
        (number (2 * 60 * 1000))

  unfoldable pub get_max_pool_clients : Result Number
  get_max_pool_clients =
      get_number lexical_cast b.ez_configuration g.thrift_max_pool_clients (number 10)
