-- ===== src/Auth/Verifier.antt =====
-- cmd/nous/main.go: `buildJWTVerifier`. `decimal` is `%d`, `decode_hex` is `hex.DecodeString`.
use Prim.Native.String.{◌++◌ as append}
use nous.Prelude.{ℕ, ◌&&◌, ◌≤◌, Option, none, some, String, if◌then◌else◌, ◌≡◌, str_eq, ltb, length}
use nous.Prelude.Time.{Time}
use nous.Domain.Errors.{failure, Result, ok, err}
use nous.Auth.Token.{Key}
use nous.Auth.{KeySet, error_text}
use nous.Settings.{Config}

module _ (decimal : ℕ → String) (decode_hex : String → Result Key) where
  abbrev long_enough : String → Result Key → Result (Option Key)
  long_enough name (err e) =
      err (failure (append "decode " (append name (append ": " (error_text e)))))
  long_enough name (ok raw) =
      if ltb (length raw) 32
      then err (
          failure
            (append name (append " must be ≥ 32 bytes (got " (append (decimal (length raw)) ")"))))
      else ok (some raw)

  -- A secret that is not set stays nil.
  abbrev read_secret : String → String → Result (Option Key)
  read_secret name hex = if str_eq hex "" then ok none else long_enough name (decode_hex hex)

  abbrev keys_of : {F : Type 0} → Config F → Option Key → Option Key → KeySet
  keys_of cfg active previous = record {
    active_kid = cfg.jwt_kid;
    active_secret = active;
    previous_kid = cfg.jwt_prev_kid;
    previous_secret = previous;
  }

  abbrev with_previous :
      {F : Type 0} → Config F → Option Key → Result (Option Key) → Result (Option KeySet)
  with_previous cfg active (err e) = err e
  with_previous cfg active (ok previous) = ok (some (keys_of cfg active previous))

  abbrev with_active : {F : Type 0} → Config F → Result (Option Key) → Result (Option KeySet)
  with_active cfg (err e) = err e
  with_active cfg (ok active) =
      with_previous cfg active (read_secret "NOUS_JWT_PREV_SECRET" cfg.jwt_prev_sec_hex)

  -- `none` is a server without tokens.
  unfoldable pub build_jwt_verifier : {F : Type 0} → Config F → Result (Option KeySet)
  build_jwt_verifier cfg =
      if str_eq cfg.jwt_secret_hex "" && str_eq cfg.jwt_prev_sec_hex ""
      then ok none
      else with_active cfg (read_secret "NOUS_JWT_SECRET" cfg.jwt_secret_hex)

  -- A secret comes from the text that is set for it.
  pub record IsSecret (hex : String) (k : Key) : Type 0 where
    pub decodes : decode_hex hex ≡ ok k
    pub long : 32 ≤ length k

  -- Both secrets are read.
  record IsBuilt {F : Type 0} (cfg : Config F) (ks : KeySet) : Type 0 where
    active : read_secret "NOUS_JWT_SECRET" cfg.jwt_secret_hex ≡ ok ks.active_secret
    previous : read_secret "NOUS_JWT_PREV_SECRET" cfg.jwt_prev_sec_hex ≡ ok ks.previous_secret
