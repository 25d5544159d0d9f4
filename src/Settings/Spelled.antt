-- ===== src/Settings/Spelled.antt =====
-- internal/config/config.go: the environment that spells out a configuration, variable by variable as the comments on the
-- fields of `Config` name them, and whether `Load` reads it back.
use nous.Prelude.{
  true, false, Option, some, String, List, [], ◌∷◌, ◌≡◌, ◌≢◌, ◌⊎◌, if◌then◌else◌, str_eq,
  trim_space,
}
use nous.Prelude.Int.{pos, ltb_ℤ}
use nous.Prelude.Time.{Duration}
use nous.Settings.{Config, LlmConfig}
use nous.Settings.Checks.{type_names}

-- The value under a name, "" where there is none.
abbrev value_of : List (String × String) → String → String
value_of [] key = ""
value_of ((name, value) ∷ env) key =
    let rest = value_of env key in if str_eq name key then value else rest

module _ {F : Type 0} (print_duration : Duration → String) (print_float : F → String) where
  abbrev pub environment_of : Config F → String → String
  environment_of c = value_of (
      ("NOUS_GRPC_ADDR", c.grpc_addr)
      ∷ ("NOUS_HTTP_ADDR", c.http_addr)
      ∷ ("NOUS_DB_TYPE", c.db_type)
      ∷ ("NOUS_DB_DSN", c.db_dsn)
      ∷ ("NOUS_TICK_INTERVAL", print_duration c.tick_interval)
      ∷ ("NOUS_RISK_OVERDUE_WEIGHT", print_float c.risk.overdue_weight)
      ∷ ("NOUS_RISK_DUE_SOON_WEIGHT", print_float c.risk.due_soon_weight)
      ∷ ("NOUS_RISK_DUE_SOON_WINDOW", print_duration c.risk.due_soon_window)
      ∷ ("NOUS_RISK_CONFIDENCE_WEIGHT", print_float c.risk.confidence_weight)
      ∷ ("NOUS_RISK_SIGNAL_WEIGHT", print_float c.risk.signal_weight)
      ∷ ("NOUS_NUDGE_THRESHOLD", print_float c.intervention.nudge_threshold)
      ∷ ("NOUS_ESCALATE_THRESHOLD", print_float c.intervention.escalate_threshold)
      ∷ ("NOUS_AUTOMATION_CONFIDENCE", print_float c.intervention.automation_confidence)
      ∷ ("NOUS_EXTRACT_MIN_CONFIDENCE", print_float c.extract.min_confidence)
      ∷ ("NOUS_LLM_PROVIDER", c.llm.provider)
      ∷ ("NOUS_LLM_API_KEY", c.llm.api_key)
      ∷ ("NOUS_LLM_MODEL", c.llm.model)
      ∷ ("NOUS_LLM_BASE_URL", c.llm.base_url)
      ∷ ("NOUS_AUTH_TOKEN", c.auth_token)
      ∷ ("NOUS_JWT_KID", c.jwt_kid)
      ∷ ("NOUS_JWT_SECRET", c.jwt_secret_hex)
      ∷ ("NOUS_JWT_PREV_KID", c.jwt_prev_kid)
      ∷ ("NOUS_JWT_PREV_SECRET", c.jwt_prev_sec_hex)
      ∷ ("NOUS_JWT_TTL", print_duration c.jwt_default_ttl)
      ∷ ("NOUS_JWT_ROTATE_PERIOD", print_duration c.jwt_rotate_period)
      ∷ ("NOUS_JWT_ROTATE_OVERLAP", print_duration c.jwt_rotate_overlap)
      ∷ ("NOUS_VALIDATION_RULES", c.validation_rules)
      ∷ ("NOUS_MNEMOS_ADDR", c.mnemos_addr)
      ∷ ("NOUS_MNEMOS_TLS_CERT", c.mnemos_tls_cert)
      ∷ ("NOUS_MNEMOS_BEARER_TOKEN", c.mnemos_bearer_token)
      ∷ ("NOUS_CHRONOS_ADDR", c.chronos_addr)
      ∷ ("NOUS_CHRONOS_TLS_CERT", c.chronos_tls_cert)
      ∷ ("NOUS_CHRONOS_BEARER_TOKEN", c.chronos_bearer_token)
      ∷ ("NOUS_PRAXIS_ADDR", c.praxis_addr)
      ∷ ("NOUS_PRAXIS_TLS_CERT", c.praxis_tls_cert)
      ∷ ("NOUS_PRAXIS_BEARER_TOKEN", c.praxis_bearer_token)
      ∷ ("NOUS_TLS_CERT_FILE", c.tls_cert_file)
      ∷ ("NOUS_TLS_KEY_FILE", c.tls_key_file)
      ∷ ("NOUS_MTLS_CLIENT_CA_FILE", c.mtls_client_ca_file)
      ∷ [])

-- A parser reads back what a printer writes, which is never the empty text.
pub record Inverts {A : Type 0} (parse : String → Option A) (print : A → String) : Type 0 where
  pub reads : (a : A) → parse (print a) ≡ some a
  pub solid : (a : A) → str_eq (print a) "" ≡ false

-- The settings that have a default are not blank, and the provider is written in lower case without spaces around it.
pub record IsSpelled {F : Type 0} (to_lower : String → String) (c : Config F) : Type 0 where
  pub addressed : str_eq c.grpc_addr "" ≡ false
  pub typed : str_eq c.db_type "" ≡ false
  pub sourced : str_eq c.db_dsn "" ≡ false
  pub plain : to_lower (trim_space c.llm.provider) ≡ c.llm.provider

-- One of these texts.
abbrev pub IsOneOf : String → List String → Type 0
IsOneOf s [] = ⊥
IsOneOf s (t ∷ ts) = (s ≡ t) ⊎ IsOneOf s ts

-- The providers that need no key, and those that do with one.
abbrev pub IsServed : LlmConfig → Type 0
IsServed l =
    IsOneOf l.provider ("" ∷ "bedrock" ∷ "ollama" ∷ [])
    ⊎ (IsOneOf l.provider ("anthropic" ∷ "openai" ∷ "gemini" ∷ []) × (l.api_key ≢ ""))

-- What it takes to start.
abbrev pub IsStartable : {F : Type 0} → (String → String) → Config F → Type 0
IsStartable to_lower c =
    IsOneOf (to_lower c.db_type) type_names
    × (ltb_ℤ (pos 0) c.tick_interval ≡ true)
    × IsServed c.llm
