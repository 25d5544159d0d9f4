-- ===== src/Settings/Checks.antt =====
-- internal/config/config.go and internal/store/store.go: which environments start the program, and with what.
use nous.Prelude.{
  All, List, [], ◌∷◌, ◌≢◌, Bool, true, false, not, ◌||◌, Option, none, some, String, ◌≡◌, ◌⊎◌, refl,
  subst, arith, if◌then◌else◌, Bool-cases, inl, inr, str_eq, eq_iff, cons_not_empty,
}
use nous.Prelude.Int.{pos, leb_ℤ}
use nous.Prelude.Time.{Duration}
use nous.Prelude.Float.{Float64}
use nous.Domain.Errors.{Error, Result, ok, err, checked, ok_same}
use nous.Settings.{Config, known_type, known_provider, lacks_key, validate, read_env, load, getenv}
use nous.Settings.Backend.{Backends, open_store, unsupported}

-- The names of the database types, aliases included.
abbrev pub type_names : List String
type_names = "memory" ∷ "sqlite" ∷ "sqlite3" ∷ "postgres" ∷ "postgresql" ∷ []

-- What the checks ask of a configuration.
pub record IsUsable {F : Type 0} (to_lower : String → String) (c : Config F) : Type 0 where
  pub listens : str_eq c.grpc_addr "" ≡ false
  pub backed : known_type (to_lower c.db_type) ≡ true
  pub ticks : leb_ℤ c.tick_interval (pos 0) ≡ false
  pub served : known_provider c.llm.provider ≡ true
  pub keyed : lacks_key c.llm ≡ false

pub checked_ok : {A : Type 0} (e : Option Error) (a : A) {b : A} → checked e a ≡ ok b → e ≡ none
checked_ok none a h = refl
checked_ok (some x) a h = cc

checked_same : {A : Type 0} (e : Option Error) (a b : A) → checked e a ≡ ok b → a ≡ b
checked_same none a b h = ok_same h
checked_same (some x) a b h = cc

none_of :
    (a b c d e : Bool)
    → a ≡ false
    → (b || c) ≡ false
    → (d || e) ≡ false
    → (a || b || c || d || e) ≡ true
    → ⊥
none_of a b c d e h k l m = ground arith

each_false :
    (a b c d e : Bool)
    → (a || b || c || d || e) ≡ false
    → (a ≡ false) × ((b || c) ≡ false) × ((d || e) ≡ false)
each_false a b c d e h = ground arith

-- A chain of five tests that all let through.
passed :
    (a b c d e : Bool) (v w x y z : Error)
    → (if a
        then some v
        else if not b
        then some w
        else if c
        then some x
        else if not d
        then some y
        else if e
        then some z
        else none)
      ≡ none
    → (a ≡ false) × (b ≡ true) × (c ≡ false) × (d ≡ true) × (e ≡ false)
passed a b c d e v w x y z h = ground arith

module _ {F : Type 0} (to_lower quote : String → String) where
  pub validate→usable : (c : Config F) → validate to_lower quote c ≡ none → IsUsable to_lower c
  unfolding validate
  validate→usable c h =
      let p =
        passed (str_eq c.grpc_addr "") (known_type (to_lower c.db_type))
          (leb_ℤ c.tick_interval (pos 0)) (known_provider c.llm.provider) (lacks_key c.llm) _ _ _ _
          _ h in
      record { listens = p.0; backed = p.1; ticks = p.2; served = p.3; keyed = p.4 }

  pub usable→validate : (c : Config F) → IsUsable to_lower c → validate to_lower quote c ≡ none
  unfolding validate
  usable→validate c u = rw (u.listens, u.backed, u.ticks, u.served, u.keyed) refl

getenv_solid :
    (env : String → String) (key fallback : String)
    → str_eq fallback "" ≡ false
    → str_eq (getenv env key fallback) "" ≡ false
getenv_solid env key fallback h = elim (Bool-cases (str_eq (env key) "")) [
  | inl e ↦ rw e h
  | inr e ↦ rw e e
]

module _ {F : Type 0} ⦃fl : Float64 F⦄ (to_lower : String → String)
    (parse_duration : String → Option Duration) (parse_float : String → Option F) where
  read : (String → String) → Config F
  read env = read_env to_lower parse_duration parse_float env

  read_listens : (env : String → String) → str_eq (read env).grpc_addr "" ≡ false
  unfolding read read_env
  read_listens env = getenv_solid env "NOUS_GRPC_ADDR" ":50051" (cons_not_empty ":" "50051")

module _ {C : Type 0} (quote : String → String) (b : Backends C) where
  -- What the backend of a type gives, by the names that the type has.
  pub data IsBackend (t dsn : String) (r : Result C) : Type 0 where
    in_memory : t ≡ "memory" → r ≡ ok b.memory → IsBackend t dsn r
    in_sqlite : (t ≡ "sqlite") ⊎ (t ≡ "sqlite3") → r ≡ b.sqlite dsn → IsBackend t dsn r
    in_postgres : (t ≡ "postgres") ⊎ (t ≡ "postgresql") → r ≡ b.postgres dsn → IsBackend t dsn r

  either_name : (t u v : String) → (str_eq t u || str_eq t v) ≡ true → (t ≡ u) ⊎ (t ≡ v)
  either_name t u v h = elim (Bool-cases (str_eq t u)) [
    | inl e ↦ inl ((eq_iff t u).0 e)
    | inr e ↦ inr ((eq_iff t v).0 (rw e at h))
  ]

  open_known : (t dsn : String) → known_type t ≡ true → IsBackend t dsn (open_store quote b t dsn)
  unfolding open_store
  open_known t dsn h = elim (Bool-cases (str_eq t "memory")) [
    | inl e ↦ in_memory ((eq_iff t "memory").0 e) (rw e refl)
    | inr e ↦ elim (Bool-cases (str_eq t "sqlite" || str_eq t "sqlite3")) [
      | inl k ↦ in_sqlite (either_name t "sqlite" "sqlite3" k) (rw (e, k) refl)
      | inr k ↦ elim (Bool-cases (str_eq t "postgres" || str_eq t "postgresql")) [
        | inl l ↦ in_postgres (either_name t "postgres" "postgresql" l) (rw (e, k, l) refl)
        | inr l ↦ absurd (
            none_of (str_eq t "memory") (str_eq t "sqlite") (str_eq t "sqlite3")
              (str_eq t "postgres") (str_eq t "postgresql") e k l h)
      ]
    ]
  ]

  open_unknown :
      (t dsn : String) → known_type t ≡ false → open_store quote b t dsn ≡ err (unsupported quote t)
  unfolding open_store
  open_unknown t dsn h =
      let n =
        each_false (str_eq t "memory") (str_eq t "sqlite") (str_eq t "sqlite3")
          (str_eq t "postgres") (str_eq t "postgresql") h in
      rw (n.0, n.1, n.2) refl

unnamed : (t : String) → All (λ n. t ≢ n) type_names → known_type t ≡ false
unnamed t h = ground (
  arith,
  h.0,
  h.1.0,
  h.1.1.0,
  h.1.1.1.0,
  h.1.1.1.1.0,
  eq_iff t "memory",
  eq_iff t "sqlite",
  eq_iff t "sqlite3",
  eq_iff t "postgres",
  eq_iff t "postgresql",
)

-- When the store of a configuration that loads is opened, and its database type is in lower case, the result is what the
-- backend of that type gives for the data source, its error if it has one: the memory store for "memory", SQLite for "sqlite"
-- and "sqlite3", Postgres for "postgres" and "postgresql". A type that is none of these as it is written, which
-- loads only because the check lowers it, such as "SQLite", is refused.
pub load_open :
    {F : Type 0} ⦃fl : Float64 F⦄ (to_lower quote : String → String)
    (parse_duration : String → Option Duration) (parse_float : String → Option F)
    (env : String → String) (c : Config F) {C : Type 0} (b : Backends C)
    → load to_lower parse_duration parse_float quote env ≡ ok c
    → (to_lower c.db_type ≡ c.db_type
        → IsBackend quote b c.db_type c.db_dsn (open_store quote b c.db_type c.db_dsn))
      × (All (λ n. c.db_type ≢ n) type_names
          → open_store quote b c.db_type c.db_dsn ≡ err (unsupported quote c.db_type))
unfolding load
load_open to_lower quote parse_duration parse_float env c b h =
    let r = read_env to_lower parse_duration parse_float env in
    let u = validate→usable to_lower quote r (checked_ok (validate to_lower quote r) r h) in
    let same = checked_same (validate to_lower quote r) r c h in
    let known : known_type (to_lower c.db_type) ≡ true =
      subst (λ d. known_type (to_lower (Config.db_type d)) ≡ true) same u.backed in
    (
      λ k. open_known quote b c.db_type c.db_dsn (rw k at known),
      λ k. open_unknown quote b c.db_type c.db_dsn (unnamed c.db_type k),
    )
