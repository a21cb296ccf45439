-- ===== src/Config.antt =====
-- The configuration from the environment (src/core/config): the check at the start (env.validation.ts), and what the
-- application and the forwarder of events then read (app.config.ts, kafka.config.ts). What zod says of the fields of the
-- schema is a parameter; the refinement behind it and the check for production are the program's.
pub mod Brokers
pub mod Startup
pub mod Settings
pub mod Tests
use shiori_api.Shared.{
  Bool, true, false, not, ◌&&◌, Option, none, some, List, [], ◌∷◌, ◌++◌, Str, codes, str_eq, trim,
  filter, map, if◌then◌else◌,
}
use shiori_api.Cors.{
  Env, nonempty, split_commas, drop_slash, is_production, resolve_cors_origins,
  is_valid_in_production,
}

-- process.env, as far as it is read here
pub record Variables : Type 0 where
  pub node_env : Option Str
  pub service_name : Option Str
  pub frontend_url : Option Str
  pub cors_origins : Option Str
  pub kafka_enabled : Option Str
  pub kafka_brokers : Option Str
  pub kafka_client_id : Option Str
  pub kafka_topic_prefix : Option Str
  pub kafka_ssl : Option Str
  pub kafka_sasl_mechanism : Option Str
  pub kafka_sasl_username : Option Str
  pub kafka_sasl_password : Option Str

abbrev pub or_nothing : Option Str → Str
or_nothing none = []
or_nothing (some s) = s

abbrev pub cors_env : Variables → Env
cors_env v = record {
  cors_origins = v.cors_origins;
  frontend_url = v.frontend_url;
  node_env = v.node_env;
}

-- `value?.trim() || fallback`
unfoldable pub trimmed_or : Str → Option Str → Str
unfolding trim
trimmed_or fallback none = fallback
trimmed_or fallback (some s) = if nonempty (trim s) then trim s else fallback

-- `value === expected`
abbrev pub is_set_to : Str → Option Str → Bool
is_set_to expected none = false
is_set_to expected (some s) = str_eq s expected

pub record SaslConfig : Type 0 where
  pub mechanism : Str
  pub username : Str
  pub password : Str

pub record KafkaConfig : Type 0 where
  pub enabled : Bool
  pub client_id : Str
  pub brokers : List Str
  pub topic_prefix : Str
  pub ssl : Bool
  pub sasl : Option SaslConfig

unfoldable pub parse_brokers : Option Str → List Str
unfolding split_commas trim
parse_brokers raw = filter nonempty (map trim (split_commas (or_nothing raw)))

resolve_sasl : Variables → Option SaslConfig
unfolding trimmed_or trim
resolve_sasl v =
    let username = trim (or_nothing v.kafka_sasl_username) in
    let password = trim (or_nothing v.kafka_sasl_password) in
    if nonempty username && nonempty password
    then some (record {
      mechanism = trimmed_or (codes "plain") v.kafka_sasl_mechanism;
      username = username;
      password = password;
    })
    else none

unfoldable pub kafka_config : Variables → KafkaConfig
unfolding resolve_sasl trimmed_or
kafka_config v = record {
  enabled = is_set_to (codes "true") v.kafka_enabled;
  client_id = trimmed_or (codes "shiori-api") v.kafka_client_id;
  brokers = parse_brokers v.kafka_brokers;
  topic_prefix = trimmed_or (codes "shiori-api") v.kafka_topic_prefix;
  ssl = is_set_to (codes "true") v.kafka_ssl;
  sasl = resolve_sasl v;
}

pub record AppConfig : Type 0 where
  pub name : Str
  pub node_env : Str
  pub frontend_url : Str
  pub cors_origins : List Str

abbrev pub or_default : Str → Option Str → Str
or_default fallback none = fallback
or_default fallback (some s) = s

unfoldable pub app_config : Variables → AppConfig
unfolding trimmed_or drop_slash
app_config v = record {
  name = trimmed_or (codes "shiori-api") v.service_name;
  node_env = or_default (codes "development") v.node_env;
  frontend_url = drop_slash (or_default (codes "http://localhost:3001") v.frontend_url);
  cors_origins = resolve_cors_origins (cors_env v);
}

-- an issue of zod, and its result for the fields of the schema: an aborted one does not reach the refinement
pub record Issue : Type 0 where
  pub path : List Str
  pub message : Str

pub data FieldResult : Type 0 where
  valid : FieldResult
  dirty : Issue → List Issue → FieldResult
  aborted : Issue → List Issue → FieldResult

-- `superRefine`
refine : Variables → List Issue
unfolding trim
refine v =
    if is_set_to (codes "true") v.kafka_enabled
      && not (nonempty (trim (or_nothing v.kafka_brokers)))
    then record {
      path = codes "KAFKA_BROKERS" ∷ [];
      message = codes "KAFKA_BROKERS is required when KAFKA_ENABLED is \"true\"";
    }
      ∷ []
    else []

issues_of : FieldResult → Variables → List Issue
unfolding refine
issues_of valid v = refine v
issues_of (dirty issue issues) v = issue ∷ issues ++ refine v
issues_of (aborted issue issues) v = issue ∷ issues

join_with : Str → List Str → Str
join_with separator [] = []
join_with separator (s ∷ []) = s
join_with separator (s ∷ t ∷ ss) = s ++ separator ++ join_with separator (t ∷ ss)

path_text : List Str → Str
unfolding join_with
path_text [] = codes "(root)"
path_text (p ∷ ps) = join_with (codes ".") (p ∷ ps)

format_zod_issues : List Issue → Str
unfolding join_with path_text
format_zod_issues issues =
    join_with (10 ∷ [])
      (map (λ (i : Issue). codes "  - " ++ path_text i.path ++ codes ": " ++ i.message) issues)

-- the variables, or the message of the error
pub data Validated : Type 0 where
  accepted : Variables → Validated
  refused : Str → Validated

abbrev failure : Str → Validated
failure text = refused (codes "Environment validation failed:" ++ 10 ∷ text)

validate_production : Variables → Validated
validate_production v =
    if is_production v.node_env && not (is_valid_in_production (cors_env v))
    then failure (
        codes
          "  - CORS_ORIGINS or FRONTEND_URL: at least one origin must be configured in production")
    else accepted v

validate_issues : List Issue → Variables → Validated
unfolding validate_production format_zod_issues
validate_issues [] v = validate_production v
validate_issues (issue ∷ issues) v = failure (format_zod_issues (issue ∷ issues))

unfoldable pub validate_env : (Variables → FieldResult) → Variables → Validated
unfolding validate_issues issues_of
validate_env fields v = validate_issues (issues_of (fields v) v) v
