-- ===== src/Settings.antt =====
-- internal/config/config.go: the configuration from the environment. `env` is `os.Getenv`, which gives "" for what is
-- not set; `time.ParseDuration`, `strconv.ParseFloat`, `strings.ToLower` and the `%q` verb are parameters.
pub mod Backend
pub mod Override
pub mod Checks
pub mod Spelled
pub mod Defaults
use Prim.Native.String.{◌++◌ as append}
use nous.Prelude.{
  ℕ, ◌*◌, Bool, true, false, not, ◌&&◌, ◌||◌, Option, none, some, String, if◌then◌else◌, str_eq,
  trim_space,
}
use nous.Prelude.Int.{ℤ, pos, leb_ℤ}
use nous.Prelude.Time.{Duration, second, hour}
use nous.Prelude.Float.{Float64}
use nous.Domain.Errors.{Error, failure, Result, checked}

pub record RiskConfig (F : Type 0) : Type 0 where
  pub overdue_weight : F
  pub due_soon_weight : F
  pub due_soon_window : Duration
  pub confidence_weight : F
  pub signal_weight : F

pub record InterventionConfig (F : Type 0) : Type 0 where
  pub nudge_threshold : F
  pub escalate_threshold : F
  pub automation_confidence : F

pub record ExtractConfig (F : Type 0) : Type 0 where
  pub min_confidence : F

pub record LlmConfig : Type 0 where
  pub provider : String
  pub api_key : String
  pub model : String
  pub base_url : String

pub record Config (F : Type 0) : Type 0 where
  pub grpc_addr : String
  pub http_addr : String
  pub db_type : String
  pub db_dsn : String
  pub tick_interval : Duration
  pub risk : RiskConfig F
  pub intervention : InterventionConfig F
  pub extract : ExtractConfig F
  pub llm : LlmConfig
  pub auth_token : String
  pub jwt_kid : String
  pub jwt_secret_hex : String
  pub jwt_prev_kid : String
  pub jwt_prev_sec_hex : String
  pub jwt_default_ttl : Duration
  pub jwt_rotate_period : Duration
  pub jwt_rotate_overlap : Duration
  pub validation_rules : String
  pub mnemos_addr : String
  pub mnemos_tls_cert : String
  pub mnemos_bearer_token : String
  pub chronos_addr : String
  pub chronos_tls_cert : String
  pub chronos_bearer_token : String
  pub praxis_addr : String
  pub praxis_tls_cert : String
  pub praxis_bearer_token : String
  pub tls_cert_file : String
  pub tls_key_file : String
  pub mtls_client_ca_file : String

abbrev pub getenv : (String → String) → String → String → String
getenv env key fallback = if str_eq (env key) "" then fallback else env key

abbrev pub or_fallback {ℓ} : {A : Type ℓ} → Option A → A → A
or_fallback none fallback = fallback
or_fallback (some a) fallback = a

-- `parseDuration` and `parseFloat`, by the parser of the library.
abbrev pub parse_or {ℓ} : {A : Type ℓ} → (String → Option A) → String → A → A
parse_or parse v fallback = if str_eq v "" then fallback else or_fallback (parse v) fallback

abbrev pub known_type : String → Bool
known_type t =
    str_eq t "memory"
    || str_eq t "sqlite"
    || str_eq t "sqlite3"
    || str_eq t "postgres"
    || str_eq t "postgresql"

abbrev pub known_provider : String → Bool
known_provider p =
    str_eq p ""
    || str_eq p "anthropic"
    || str_eq p "openai"
    || str_eq p "gemini"
    || str_eq p "bedrock"
    || str_eq p "ollama"

-- A provider that wants a key, with none.
abbrev pub lacks_key : LlmConfig → Bool
lacks_key l =
    not (str_eq l.provider "")
    && not (str_eq l.provider "bedrock")
    && not (str_eq l.provider "ollama")
    && str_eq l.api_key ""

module _ {F : Type 0} (to_lower quote : String → String) where
  unfoldable pub validate : Config F → Option Error
  validate c =
      if str_eq c.grpc_addr ""
      then some (failure "config: grpc_addr is required")
      else if not (known_type (to_lower c.db_type))
      then some (failure (append "config: unsupported db_type " (quote c.db_type)))
      else if leb_ℤ c.tick_interval (pos 0)
      then some (failure "config: tick_interval must be positive")
      else if not (known_provider c.llm.provider)
      then some (failure (append "config: unsupported llm provider " (quote c.llm.provider)))
      else if lacks_key c.llm
      then some (
          failure
            (append "config: NOUS_LLM_API_KEY required when NOUS_LLM_PROVIDER=" c.llm.provider))
      else none

module _ {F : Type 0} ⦃fl : Float64 F⦄ (to_lower : String → String)
    (parse_duration : String → Option Duration) (parse_float : String → Option F) where
  -- What `Load` reads before it validates.
  unfoldable pub read_env : (String → String) → Config F
  read_env env =
      let float = λ (key : String). parse_or parse_float (env key) (fl.hundredths 0) in
      let duration = λ (key : String) (d : Duration). parse_or parse_duration (env key) d in
      record {
        grpc_addr = getenv env "NOUS_GRPC_ADDR" ":50051";
        http_addr = env "NOUS_HTTP_ADDR";
        db_type = getenv env "NOUS_DB_TYPE" "sqlite";
        db_dsn = getenv env "NOUS_DB_DSN" "nous.db";
        tick_interval = duration "NOUS_TICK_INTERVAL" (pos (300 * second));
        risk = record {
          overdue_weight = float "NOUS_RISK_OVERDUE_WEIGHT";
          due_soon_weight = float "NOUS_RISK_DUE_SOON_WEIGHT";
          due_soon_window = duration "NOUS_RISK_DUE_SOON_WINDOW" (pos 0);
          confidence_weight = float "NOUS_RISK_CONFIDENCE_WEIGHT";
          signal_weight = float "NOUS_RISK_SIGNAL_WEIGHT";
        };
        intervention = record {
          nudge_threshold = float "NOUS_NUDGE_THRESHOLD";
          escalate_threshold = float "NOUS_ESCALATE_THRESHOLD";
          automation_confidence = float "NOUS_AUTOMATION_CONFIDENCE";
        };
        extract = record { min_confidence = float "NOUS_EXTRACT_MIN_CONFIDENCE" };
        llm = record {
          provider = to_lower (trim_space (env "NOUS_LLM_PROVIDER"));
          api_key = env "NOUS_LLM_API_KEY";
          model = env "NOUS_LLM_MODEL";
          base_url = env "NOUS_LLM_BASE_URL";
        };
        auth_token = env "NOUS_AUTH_TOKEN";
        jwt_kid = env "NOUS_JWT_KID";
        jwt_secret_hex = env "NOUS_JWT_SECRET";
        jwt_prev_kid = env "NOUS_JWT_PREV_KID";
        jwt_prev_sec_hex = env "NOUS_JWT_PREV_SECRET";
        jwt_default_ttl = duration "NOUS_JWT_TTL" (pos hour);
        jwt_rotate_period = duration "NOUS_JWT_ROTATE_PERIOD" (pos 0);
        jwt_rotate_overlap = duration "NOUS_JWT_ROTATE_OVERLAP" (pos 0);
        validation_rules = env "NOUS_VALIDATION_RULES";
        mnemos_addr = env "NOUS_MNEMOS_ADDR";
        mnemos_tls_cert = env "NOUS_MNEMOS_TLS_CERT";
        mnemos_bearer_token = env "NOUS_MNEMOS_BEARER_TOKEN";
        chronos_addr = env "NOUS_CHRONOS_ADDR";
        chronos_tls_cert = env "NOUS_CHRONOS_TLS_CERT";
        chronos_bearer_token = env "NOUS_CHRONOS_BEARER_TOKEN";
        praxis_addr = env "NOUS_PRAXIS_ADDR";
        praxis_tls_cert = env "NOUS_PRAXIS_TLS_CERT";
        praxis_bearer_token = env "NOUS_PRAXIS_BEARER_TOKEN";
        tls_cert_file = env "NOUS_TLS_CERT_FILE";
        tls_key_file = env "NOUS_TLS_KEY_FILE";
        mtls_client_ca_file = env "NOUS_MTLS_CLIENT_CA_FILE";
      }

  unfoldable pub load : (quote : String → String) (env : String → String) → Result (Config F)
  unfolding read_env validate
  load quote env = checked (validate to_lower quote (read_env env)) (read_env env)
