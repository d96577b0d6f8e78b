-- ===== src/Config/Helpers/Flume.antt =====
-- `FlumeConfiguration` of configuration/src/main/cpp/helpers/FlumeConfiguration.cpp: its properties and
-- their defaults, and the containers that it fills.
use ezbake_common_cpp.Common.{
  ℕ, Bool, false, Option, List, [], ◌∷◌, ◌++◌, if◌then◌else◌, Text, codes,
}
use ezbake_common_cpp.Common.Result.{Result, ok, throw, hang, crash}
use ezbake_common_cpp.Config.EzConfiguration.{get_string, get_boolean, get_number}
use ezbake_common_cpp.Config.Helpers.Base.{BaseConfiguration, parse_key}
use ezbake_common_cpp.Common.Dict
use ezbake_common_cpp.Config.Parser.{Properties}
use ezbake_common_cpp.Config.Helpers.Constants.{Constants}

module _ (g : Constants) (b : BaseConfiguration) where
  unfoldable pub get_headers : Text
  get_headers = get_string b.ez_configuration (parse_key b g.flume_headers) []

  unfoldable pub get_agent_type : Text
  get_agent_type = get_string b.ez_configuration (parse_key b g.flume_agent_type) (codes "SINGLE")

  unfoldable pub get_hosts : Text
  get_hosts =
      get_string b.ez_configuration (parse_key b g.flume_hosts) (codes "logAgent00 logAgent01")

  unfoldable pub get_host_selector : Text
  get_host_selector =
      get_string b.ez_configuration (parse_key b g.flume_host_selector) (codes "ROUND_ROBIN")

  unfoldable pub get_backoff : Bool
  get_backoff = get_boolean b.ez_configuration (parse_key b g.flume_back_off) false

-- `Number` is the integer type, `number` its literals and `lexical_cast` Boost's reader of it.
module _ (g : Constants) (b : BaseConfiguration) {Number : Type 0} (number : ℕ → Number)
    (lexical_cast : Text → Option Number) where
  unfoldable pub get_batch_size : Result Number
  get_batch_size =
      get_number lexical_cast b.ez_configuration (parse_key b g.flume_batch_size) (number 100)

  unfoldable pub get_max_events : Result Number
  get_max_events =
      get_number lexical_cast b.ez_configuration (parse_key b g.flume_max_events) (number 10000)

  unfoldable pub get_max_attempts : Result Number
  get_max_attempts =
      get_number lexical_cast b.ez_configuration (parse_key b g.flume_max_attempts) (number 2)

  unfoldable pub get_connect_attempts : Result Number
  get_connect_attempts =
      get_number lexical_cast b.ez_configuration (parse_key b g.flume_connect_attempts) (number 10)

  unfoldable pub get_run_interval : Result Number
  get_run_interval =
      get_number lexical_cast b.ez_configuration (parse_key b g.flume_run_interval) (number 1000)

  unfoldable pub get_sleep_interval : Result Number
  get_sleep_interval =
      get_number lexical_cast b.ez_configuration (parse_key b g.flume_sleep_interval) (number 3000)

  unfoldable pub get_connect_timeout : Result Number
  get_connect_timeout =
      get_number lexical_cast b.ez_configuration (parse_key b g.flume_connect_timeout)
        (number 20000)

  unfoldable pub get_request_timeout : Result Number
  get_request_timeout =
      get_number lexical_cast b.ez_configuration (parse_key b g.flume_request_timeout)
        (number 20000)

  unfoldable pub get_max_backoff : Result Number
  get_max_backoff =
      get_number lexical_cast b.ez_configuration (parse_key b g.flume_max_backoff) (number 0)

-- The two static containers, which every object shares.
pub record Shared : Type 0 where
  pub properties : Properties
  pub host_properties : Properties

-- The loop of `setHostProperties`, over the tokens of Boost's tokenizer.
unfoldable pub set_hosts : BaseConfiguration → List Text → Shared → Shared
set_hosts b [] shared = shared
set_hosts b (host ∷ hosts) shared = set_hosts b hosts (record shared {
  host_properties =
      Dict.assign host (get_string b.ez_configuration (parse_key b (codes "hosts." ++ host)) [])
        shared.host_properties;
})

-- `_properties[key] = text;`
unfoldable pub assign_text : Text → Text → Shared → Shared
assign_text key text shared = record shared { properties = Dict.assign key text shared.properties }

-- `_properties[key] = number;` assigns the character of that code. An exception of the getter ends
-- the method, and keeps what was assigned before; the getter is taken to run before the subscript.
unfoldable pub assign_number :
    {Number : Type 0}
    → (Number → ℕ)
    → Text
    → Result Number
    → Shared × Result (Unit {0})
    → Shared × Result (Unit {0})
unfolding assign_text
assign_number to_char key (ok n) (shared, ok _) = (assign_text key (to_char n ∷ []) shared, ok tt)
assign_number to_char key (throw e) (shared, ok _) = (shared, throw e)
assign_number to_char key hang (shared, ok _) = (shared, hang)
assign_number to_char key crash (shared, ok _) = (shared, crash)
assign_number to_char key r (shared, throw e) = (shared, throw e)
assign_number to_char key r (shared, hang) = (shared, hang)
assign_number to_char key r (shared, crash) = (shared, crash)

-- `tokens` is the tokenizer, with the blank for separator, and `to_char` the conversion to `char`.
module _ (g : Constants) (b : BaseConfiguration) {Number : Type 0} (number : ℕ → Number)
    (lexical_cast : Text → Option Number) (to_char : Number → ℕ) (tokens : Text → List Text) where
  unfoldable pub set_host_properties : Text → Shared → Shared
  unfolding set_hosts
  set_host_properties hosts shared = set_hosts b (tokens hosts) shared

  -- The nine assignments of numbers, in turn.
  unfoldable pub assign_numbers : Shared → Shared × Result (Unit {0})
  unfolding assign_number
  assign_numbers shared =
      assign_number to_char g.flume_max_backoff (get_max_backoff g b number lexical_cast) (
        assign_number to_char g.flume_request_timeout (get_request_timeout g b number lexical_cast)
          (assign_number to_char g.flume_connect_timeout
            (get_connect_timeout g b number lexical_cast)
            (assign_number to_char g.flume_sleep_interval
              (get_sleep_interval g b number lexical_cast)
              (assign_number to_char g.flume_run_interval (get_run_interval g b number lexical_cast)
                (assign_number to_char g.flume_connect_attempts
                  (get_connect_attempts g b number lexical_cast)
                  (assign_number to_char g.flume_max_attempts
                    (get_max_attempts g b number lexical_cast)
                    (assign_number to_char g.flume_max_events
                      (get_max_events g b number lexical_cast)
                      (assign_number to_char g.flume_batch_size
                        (get_batch_size g b number lexical_cast) (shared, ok tt)))))))))

  -- The assignments of the texts and of the flag, and the hosts.
  unfoldable pub assign_texts : Shared → Shared
  unfolding assign_text set_host_properties
  assign_texts shared = set_host_properties (get_hosts g b) (
      assign_text g.flume_back_off ((if get_backoff g b then 1 else 0) ∷ []) (
        assign_text g.flume_host_selector (get_host_selector g b) (
          assign_text g.flume_hosts (get_hosts g b) (
            assign_text g.flume_agent_type (get_agent_type g b)
              (assign_text g.flume_headers (get_headers g b) shared)))))

  -- `getProperties`, which returns the container it fills.
  unfoldable pub get_properties : Shared → Shared × Result Properties
  unfolding assign_numbers assign_texts
  get_properties shared =
      let (assigned, outcome) = assign_numbers shared in
      elim outcome [
        | ok _ ↦ (assign_texts assigned, ok (assign_texts assigned).properties)
        | throw e ↦ (assigned, throw e)
        | hang ↦ (assigned, hang)
        | crash ↦ (assigned, crash)
      ]
