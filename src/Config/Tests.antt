-- ===== src/Config/Tests.antt =====
-- An environment with a text of brokers that names none, and the check at it.
use shiori_api.Shared.{◌≡◌, ◌↔◌, refl, none, some, [], codes, is_space, trim}
use shiori_api.Cors.{is_valid_in_production, normalize_origin}
use shiori_api.Config.{Variables, valid, accepted, validate_env, kafka_config, parse_brokers}
use shiori_api.Config.Startup.{IsRunnable, validate_env_iff}

abbrev variables : Variables
variables = record {
  node_env = some (codes "production");
  service_name = none;
  frontend_url = some (codes "https://a.org/");
  cors_origins = none;
  kafka_enabled = some (codes "true");
  kafka_brokers = some (codes " , ");
  kafka_client_id = none;
  kafka_topic_prefix = none;
  kafka_ssl = none;
  kafka_sasl_mechanism = none;
  kafka_sasl_username = none;
  kafka_sasl_password = none;
}

-- Kafka is enabled, no broker is listed, and the check accepts it.
no_broker : (kafka_config variables).brokers ≡ []
unfolding kafka_config parse_brokers trim is_space
no_broker = refl

no_broker-accepted : validate_env (λ v. valid) variables ≡ accepted variables
unfolding validate_env is_valid_in_production normalize_origin trim is_space
no_broker-accepted = refl

validate_env_iff_example :
    (validate_env (λ v. valid) variables ≡ accepted variables) ↔ IsRunnable (λ v. valid) variables
validate_env_iff_example = validate_env_iff (λ v. valid) variables
