-- ===== src/Examples/Settings.antt =====
-- Environments: one that sets nothing, and one that names its database in capitals.
use Prim.Native.Char.{code}
use nous.Prelude.{
  some, ◌≢◌, ◌==◌, All, ℕ, Option, none, String, ◌≡◌, refl, str_eq, if◌then◌else◌, trim_space,
}
use nous.Prelude.Int.{ℤ, pos, negsuc}
use nous.Prelude.Time.{Duration}
use nous.Prelude.Float.Milli.{Milli, num, nan, milli_float}
use nous.Domain.Errors.{ok, err}
use nous.Settings.{Config, read_env, load}
use nous.Settings.Backend.{Backends, open_store, unsupported}
use nous.Settings.Checks.{load_open, IsBackend, type_names}
use nous.Examples.Store.{strokes, stroke_count}

abbrev bare_env : String → String
bare_env key = ""

abbrev shouted : String → String
shouted key = if str_eq key "NOUS_DB_TYPE" then "SQLite" else ""

-- Of the texts that occur here, in lower case.
abbrev lowered : String → String
lowered s = if str_eq s "SQLite" then "sqlite" else s

abbrev quoted : String → String
quoted s = s

abbrev no_duration : String → Option Duration
no_duration s = none

abbrev no_float : String → Option Milli
no_float s = none

abbrev numbered : Backends ℕ
numbered = record { memory = 0; sqlite = λ dsn. ok 1; postgres = λ dsn. ok 2 }

shouted_loads :
    load lowered no_duration no_float quoted shouted
    ≡ ok (read_env lowered no_duration no_float shouted)
unfolding load trim_space read_env
shouted_loads = refl

abbrev pub capital : Config Milli
capital = read_env lowered no_duration no_float shouted

load_open_example :
    (lowered capital.db_type ≡ capital.db_type
      → IsBackend quoted numbered capital.db_type capital.db_dsn
          (open_store quoted numbered capital.db_type capital.db_dsn))
    × (All (λ n. capital.db_type ≢ n) type_names
        → open_store quoted numbered capital.db_type capital.db_dsn
          ≡ err (unsupported quoted capital.db_type))
load_open_example =
    load_open lowered quoted no_duration no_float shouted capital numbered shouted_loads

-- Numbers as strokes behind a sign.
abbrev signed : ℤ → String
signed (pos n) = String.◌∷◌ "+" (strokes n)
signed (negsuc n) = String.◌∷◌ "-" (strokes n)

abbrev unsigned : String → Option ℤ
unsigned String.[] = none
unsigned (String.◌∷◌ c s) =
    if code c == 43 then some (pos (stroke_count s)) else some (negsuc (stroke_count s))

abbrev as_number : Milli → String
as_number (num n) = String.◌∷◌ "+" (strokes n)
as_number nan = String.◌∷◌ "-" String.[]

abbrev read_number : String → Option Milli
read_number String.[] = none
read_number (String.◌∷◌ c s) = if code c == 43 then some (num (stroke_count s)) else some nan

-- The configuration above with a provider.
abbrev openai : Config Milli
openai = record capital {
  tick_interval = pos 2;
  llm = record { provider = "openai"; api_key = "k"; model = ""; base_url = "" };
}
