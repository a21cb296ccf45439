-- ===== src/Config/Settings.antt =====
-- The settings of the database, of Redis and of OpenTelemetry (src/core/config/postgres.config.ts, redis.config.ts,
-- otel.config.ts). JavaScript's numbers are a parameter: `parseInt` and `Number` of a text, and the tests on the result.
use shiori_api.Shared.{
  ◌≡◌, refl, Bool, true, false, not, ◌||◌, Option, none, some, [], ◌∷◌, ◌++◌, Str, codes, trim,
  if◌then◌else◌, Bool-cases, inl, inr,
}
use shiori_api.Cors.{nonempty}
use shiori_api.Config.{or_default, or_nothing, is_set_to, trimmed_or}

-- process.env, as far as it is read here
pub record Settings : Type 0 where
  pub database_driver : Option Str
  pub database_host : Option Str
  pub database_port : Option Str
  pub database_username : Option Str
  pub database_password : Option Str
  pub database_database : Option Str
  pub database_synchronize : Option Str
  pub database_migrations_run : Option Str
  pub redis_host : Option Str
  pub redis_port : Option Str
  pub redis_password : Option Str
  pub otel_exporter_otlp_endpoint : Option Str
  pub otel_service_name : Option Str
  pub service_name : Option Str
  pub otel_traces_sample_ratio : Option Str

-- What JavaScript says of numbers.
pub record Numbers (N : Type 0) : Type 0 where
  pub parse_int : Str → N
  pub number : Str → N
  pub is_finite : N → Bool
  pub is_negative : N → Bool
  pub is_above_one : N → Bool
  pub one : N

pub record PostgresConfig (N : Type 0) : Type 0 where
  pub driver : Str
  pub host : Option Str
  pub port : N
  pub username : Option Str
  pub password : Option Str
  pub database : Option Str
  pub synchronize : Bool
  pub migrations_run : Bool

pub record RedisConfig (N : Type 0) : Type 0 where
  pub host : Str
  pub port : N
  pub password : Option Str

pub record OtelConfig (N : Type 0) : Type 0 where
  pub enabled : Bool
  pub endpoint : Option Str
  pub service_name : Str
  pub traces_sample_ratio : N

-- a value, or the message of the Error
pub data Configured (A : Type 0) : Type 0 where
  configured : A → Configured A
  refused : Str → Configured A

-- `value || undefined`
unfoldable pub or_undefined : Str → Option Str
or_undefined [] = none
or_undefined (c ∷ s) = some (c ∷ s)

abbrev pub is_given : Option Str → Bool
is_given none = false
is_given (some s) = true

module _ {N : Type 0} (numbers : Numbers N) where
  unfoldable pub postgres_config : Settings → PostgresConfig N
  postgres_config v = record {
    driver = or_default (codes "postgres") v.database_driver;
    host = v.database_host;
    port = numbers.parse_int (or_default (codes "5432") v.database_port);
    username = v.database_username;
    password = v.database_password;
    database = v.database_database;
    synchronize = is_set_to (codes "true") v.database_synchronize;
    migrations_run = not (is_set_to (codes "false") v.database_migrations_run);
  }

  unfoldable pub redis_config : Settings → RedisConfig N
  unfolding or_undefined
  redis_config v = record {
    host = or_default (codes "localhost") v.redis_host;
    port = numbers.parse_int (or_default (codes "6379") v.redis_port);
    password = or_undefined (or_nothing v.redis_password);
  }

  unfoldable pub parse_ratio : Option Str → N → Configured N
  parse_ratio none fallback = configured fallback
  parse_ratio (some value) fallback =
      if not (nonempty (trim value))
      then configured fallback
      else let parsed = numbers.number value in
        if not (numbers.is_finite parsed)
          || (numbers.is_negative parsed || numbers.is_above_one parsed)
        then refused (
            codes "Invalid OTEL_TRACES_SAMPLE_RATIO \""
            ++ value
            ++ codes "\": expected a number between 0 and 1")
        else configured parsed

  with_ratio : Settings → Configured N → Configured (OtelConfig N)
  unfolding or_undefined
  with_ratio v (refused message) = refused message
  with_ratio v (configured ratio) =
      let endpoint = or_undefined (trim (or_nothing v.otel_exporter_otlp_endpoint)) in
      configured (record {
        enabled = is_given endpoint;
        endpoint = endpoint;
        service_name =
            trimmed_or (trimmed_or (codes "shiori-api") v.service_name) v.otel_service_name;
        traces_sample_ratio = ratio;
      })

  unfoldable pub otel_config : Settings → Configured (OtelConfig N)
  unfolding with_ratio parse_ratio
  otel_config v = with_ratio v (parse_ratio v.otel_traces_sample_ratio numbers.one)

  -- a ratio between 0 and 1
  abbrev pub IsRatio : N → Type 0
  IsRatio n =
      (numbers.is_finite n ≡ true)
      × (numbers.is_negative n ≡ false)
      × (numbers.is_above_one n ≡ false)

  abbrev pub IfConfigured : {A : Type 0} → (A → Type 0) → Configured A → Type 0
  IfConfigured P (configured a) = P a
  IfConfigured P (refused message) = Unit

  parse_ratio-IsRatio :
      (value : Option Str) (fallback : N)
      → IsRatio fallback
      → IfConfigured IsRatio (parse_ratio value fallback)
  unfolding parse_ratio
  parse_ratio-IsRatio none fallback h = h
  parse_ratio-IsRatio (some value) fallback h =
      let n = numbers.number value in
      elim (Bool-cases (nonempty (trim value))) [
        | inr e ↦ rw e h
        | inl e ↦ elim (Bool-cases (numbers.is_finite n)) [
          | inr f ↦ rw (e, f) tt
          | inl f ↦ elim (Bool-cases (numbers.is_negative n)) [
            | inl g ↦ rw (e, f, g) tt
            | inr g ↦ elim (Bool-cases (numbers.is_above_one n)) [
              | inl a ↦ rw (e, f, g, a) tt
              | inr a ↦ rw (e, f, g, a) (f, g, a)
            ]
          ]
        ]
      ]

  with_ratio-IsRatio :
      (v : Settings) (r : Configured N)
      → IfConfigured IsRatio r
      → IfConfigured
          (λ c. IsRatio c.traces_sample_ratio × (c.enabled ≡ is_given c.endpoint))
          (with_ratio v r)
  unfolding with_ratio
  with_ratio-IsRatio v (configured ratio) h = (h, refl)
  with_ratio-IsRatio v (refused message) h = tt

  -- OpenTelemetry is enabled exactly where an endpoint is set, and the ratio of traces that goes on is between 0 and 1, as 1
  -- is itself.
  pub otel_config-IsBounded :
      (v : Settings)
      → IsRatio numbers.one
      → IfConfigured
          (λ c. IsRatio c.traces_sample_ratio × (c.enabled ≡ is_given c.endpoint))
          (otel_config v)
  unfolding otel_config
  otel_config-IsBounded v h =
      with_ratio-IsRatio v (parse_ratio v.otel_traces_sample_ratio numbers.one)
        (parse_ratio-IsRatio v.otel_traces_sample_ratio numbers.one h)
