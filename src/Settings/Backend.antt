-- ===== src/Settings/Backend.antt =====
-- internal/store/store.go, `Open`: the backend that a database type names. A connection `C` and what the
-- three backends give are parameters; `close` and `ping` are always set by `Open`, so `Close` and `Ping` are
-- those of the backend.
use Prim.Native.String.{◌++◌ as append}
use nous.Prelude.{◌||◌, String, if◌then◌else◌, str_eq}
use nous.Domain.Errors.{Error, failure, Result, ok, err}

pub record Backends (C : Type 0) : Type 0 where
  pub memory : C
  pub sqlite : String → Result C
  pub postgres : String → Result C

-- The text of `fmt.Errorf`, `%v` of `SupportedTypes` included.
abbrev pub unsupported : (String → String) → String → Error
unsupported quote t = failure (
    append "store: unsupported database type "
      (append (quote t) " (supported: [memory sqlite postgres])"))

unfoldable pub open_store :
    {C : Type 0} → (String → String) → Backends C → String → String → Result C
open_store quote b db_type conn_str =
    if str_eq db_type "memory"
    then ok b.memory
    else if str_eq db_type "sqlite" || str_eq db_type "sqlite3"
    then b.sqlite conn_str
    else if str_eq db_type "postgres" || str_eq db_type "postgresql"
    then b.postgres conn_str
    else err (unsupported quote db_type)
