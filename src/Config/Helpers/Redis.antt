-- ===== src/Config/Helpers/Redis.antt =====
-- `RedisConfiguration` of configuration/src/main/cpp/helpers/RedisConfiguration.cpp: its properties and
-- their defaults.
use ezbake_common_cpp.Common.{ℕ, Option, [], Text}
use ezbake_common_cpp.Common.Result.{Result}
use ezbake_common_cpp.Config.EzConfiguration.{get_string, get_number}
use ezbake_common_cpp.Config.Helpers.Base.{BaseConfiguration, parse_key}
use ezbake_common_cpp.Config.Helpers.Constants.{Constants}

module _ (g : Constants) (b : BaseConfiguration) where
  unfoldable pub get_redis_host : Text
  get_redis_host = get_string b.ez_configuration (parse_key b g.redis_host) []

-- `Number` is the integer type, `number` its literals and `lexical_cast` Boost's reader of it.
module _ (g : Constants) (b : BaseConfiguration) {Number : Type 0} (number : ℕ → Number)
    (lexical_cast : Text → Option Number) where
  unfoldable pub get_redis_port : Result Number
  get_redis_port =
      get_number lexical_cast b.ez_configuration (parse_key b g.redis_port) (number 6379)
