-- ===== src/Auth/Rotator.antt =====
-- internal/auth/rotator.go, and `buildJWTRotator` of cmd/nous/main.go. `fresh` is what `generateSigningKey` gives, `kid_of` is
-- `timeKID`, and the lock makes `RotateNow` and `Snapshot` one step each; `Snapshot` copies the secrets, which are
-- values here. `Run` calls `RotateNow` at each tick, until it is stopped or the context is done.
use Prim.Native.String.{◌++◌ as append}
use nous.Prelude.{◌||◌, Option, none, some, String, if◌then◌else◌, str_eq}
use nous.Prelude.Int.{pos, leb_ℤ, ltb_ℤ}
use nous.Prelude.Time.{Time, Duration, hour}
use nous.Domain.Errors.{Error, failure, Result, ok, err}
use nous.Auth.Token.{Key}
use nous.Auth.{KeySet, blank, bytes, error_text}
use nous.Settings.{Config}

pub record Rotator : Type 0 where
  pub keys : KeySet
  pub period : Duration
  pub overlap : Duration

pub record RotatorConfig : Type 0 where
  pub period : Duration
  pub overlap : Duration

unfoldable pub snapshot : Rotator → KeySet
snapshot r = r.keys

module _ (kid_of : Time → String) where
  abbrev pub seeded : RotatorConfig → Time → Result Key → Result Rotator
  seeded cfg now (err e) = err e
  seeded cfg now (ok k) = ok record {
    keys = record {
      active_kid = kid_of now;
      active_secret = some k;
      previous_kid = "";
      previous_secret = none;
    };
    period = cfg.period;
    overlap = cfg.overlap;
  }

  unfoldable pub new_rotator : Option Key → RotatorConfig → Time → Result Key → Result Rotator
  new_rotator initial cfg now fresh =
      if leb_ℤ cfg.period (pos 0) || leb_ℤ cfg.overlap (pos 0)
      then err (failure "auth: rotator period and overlap must be positive")
      else if ltb_ℤ cfg.period cfg.overlap
      then err (failure "auth: overlap must be ≤ period — otherwise multiple previous keys overlap")
      else seeded cfg now (if blank initial then fresh else ok (bytes initial))

  unfoldable pub rotate_now : Rotator → Time → Result Key → Rotator × Option Error
  rotate_now r now (err e) = (r, some e)
  rotate_now r now (ok fresh) = (
    record r {
      keys = record {
        active_kid = kid_of now;
        active_secret = some fresh;
        previous_kid = r.keys.active_kid;
        previous_secret = r.keys.active_secret;
      };
    },
    none,
  )

-- The overlap that `buildJWTRotator` comes to.
abbrev pub overlap_of : Duration → Duration → Duration
overlap_of overlap ttl =
    let o = if leb_ℤ overlap (pos 0) then ttl else overlap in
    if leb_ℤ o (pos 0) then pos hour else o

abbrev seed_of : Result Key → Result (Option Key)
seed_of (ok k) = ok (some k)
seed_of (err e) = err (failure (append "decode NOUS_JWT_SECRET: " (error_text e)))

abbrev made_of : Result Rotator → Result (Option Rotator)
made_of (ok r) = ok (some r)
made_of (err e) = err e

abbrev from_seed : (Option Key → Result Rotator) → Result (Option Key) → Result (Option Rotator)
from_seed make (err e) = err e
from_seed make (ok initial) = made_of (make initial)

module _ {F : Type 0} (kid_of : Time → String) (decode_hex : String → Result Key) where
  -- `none` is rotation switched off.
  unfoldable pub build_jwt_rotator : Config F → Time → Result Key → Result (Option Rotator)
  unfolding new_rotator
  build_jwt_rotator cfg now fresh =
      let limits : RotatorConfig = record {
        period = cfg.jwt_rotate_period;
        overlap = overlap_of cfg.jwt_rotate_overlap cfg.jwt_default_ttl;
      } in
      if leb_ℤ cfg.jwt_rotate_period (pos 0)
      then ok none
      else from_seed (λ initial. new_rotator kid_of initial limits now fresh)
          (if str_eq cfg.jwt_secret_hex ""
            then ok none
            else seed_of (decode_hex cfg.jwt_secret_hex))
