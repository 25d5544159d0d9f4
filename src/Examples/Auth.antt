-- ===== src/Examples/Auth.antt =====
-- Tokens of one user, under keys of one byte.
use nous.Prelude.{
  Bool, true, false, none, some, String, [], ◌∷◌, ◌*◌, ◌==◌, if◌then◌else◌, ◌≡◌, ◌≢◌, refl, arith,
}
use nous.Prelude.Int.{pos}
use nous.Prelude.Time.{Time, hour}
use nous.Prelude.{ℕ, List, ◌++◌, str_eq, trim_space}
use nous.Prelude.Float.Milli.{Milli}
use nous.Settings.{Config}
use nous.Examples.Settings.{capital}
use nous.Auth.{KeySet}
use nous.Auth.Gate.{bearer_auth}
use nous.Auth.Interceptor.{passes, bearer_interceptor, combined_interceptor, interceptors_agree}
use nous.Domain.Errors.{Result, ok}
use nous.Auth.Token.{Key, Jwt}
use nous.Auth.Token.Sample.{one_token, ada, sign_ada}
use nous.Auth.{issue, verify}
use nous.Auth.Rotator.{Rotator, RotatorConfig, new_rotator, rotate_now, snapshot}
use nous.Auth.Rotation.{survives_rotation}
use nous.Auth.Gate.{combined_auth, is_open_path, after_prefix}
use nous.Auth.Edges.{empty_key_accepts, bare_refused}

abbrev seven : Key → Bool
seven [] = false
seven (b ∷ bs) = b == 7

abbrev empty : Key → Bool
empty [] = true
empty (b ∷ bs) = false

abbrev same_text : String → String
same_text s = s

abbrev era : Time → String
era t = if t == 0 then "k-0" else "k-1"

abbrev rotator : Rotator
rotator = record {
  keys = record {
    active_kid = "k-0";
    active_secret = some (7 ∷ []);
    previous_kid = "";
    previous_secret = none;
  };
  period = pos (24 * hour);
  overlap = pos hour;
}

issued :
    issue (one_token "k-0" seven) rotator.keys (pos hour) "ada" [] (pos hour) 5_000_000_000
    ≡ ok "token"
unfolding issue sign_ada
issued = refl

survives_rotation_example :
    verify
      (one_token "k-0" seven)
      same_text
      (snapshot (rotate_now era rotator 6_000_000_000 (ok (9 ∷ []))).0)
      "token"
      7_000_000_000
    ≡ ok ada
unfolding snapshot
survives_rotation_example =
    survives_rotation (one_token "k-0" seven) same_text era rotator (pos hour) "ada" [] (pos hour)
      5_000_000_000 6_000_000_000 7_000_000_000 (9 ∷ []) "token" issued (omega arith) (omega arith)

bare : Jwt
bare = one_token "" empty

empty_key_accepts_example :
    verify bare same_text
      (record {
        active_kid = "";
        active_secret = none;
        previous_kid = "";
        previous_secret = some (9 ∷ []);
      })
      "token"
      6_000_000_000
    ≡ ok ada
unfolding bare
empty_key_accepts_example =
    empty_key_accepts bare same_text "" (9 ∷ []) "token" 6_000_000_000 refl refl refl
      (record { begun = omega arith; running = omega arith }) refl refl refl

-- A day between rotations, an hour of overlap.
abbrev limits : RotatorConfig
limits = record { period = pos (24 * hour); overlap = pos hour }

started : new_rotator era (some (7 ∷ [])) limits 0 (ok []) ≡ ok rotator
unfolding new_rotator
started = refl

bare_refused_example :
    verify (one_token "" seven) same_text (snapshot rotator) "token" 6_000_000_000 ≢ ok ada
bare_refused_example =
    bare_refused (one_token "" seven) same_text era (some (7 ∷ [])) limits 0 (ok []) rotator "token"
      6_000_000_000 started refl refl ada

guarded : is_open_path "/v1/evaluate" ≡ false
unfolding is_open_path after_prefix
guarded = refl

abbrev one_header : String → List String
one_header k = if str_eq k "authorization" then " Bearer token" ∷ [] else []

interceptors_agree_example :
    (passes (bearer_interceptor "s3cret" (some one_header))
      ≡ passes (bearer_auth "s3cret" "/v1/evaluate" "Bearer token"))
    × (passes (
          combined_interceptor "s3cret"
            (some (λ s. verify (one_token "k-0" seven) same_text rotator.keys s 6_000_000_000))
            (some one_header))
        ≡ passes (
            combined_auth "s3cret"
              (some (λ s. verify (one_token "k-0" seven) same_text rotator.keys s 6_000_000_000))
              "/v1/evaluate"
              "Bearer token"))
unfolding trim_space
interceptors_agree_example =
    interceptors_agree "s3cret"
      (some (λ s. verify (one_token "k-0" seven) same_text rotator.keys s 6_000_000_000))
      "/v1/evaluate" one_header guarded

abbrev eight_sevens : Key
eight_sevens = 7 ∷ 7 ∷ 7 ∷ 7 ∷ 7 ∷ 7 ∷ 7 ∷ 7 ∷ []

abbrev sevens : Key
sevens = eight_sevens ++ eight_sevens ++ eight_sevens ++ eight_sevens

abbrev named : ℕ → String
named n = "n"

abbrev all_sevens : String → Result Key
all_sevens hex = ok sevens

abbrev keyed : Config Milli
keyed = record capital {
  jwt_kid = "k-0";
  jwt_secret_hex = "07";
  jwt_prev_kid = "";
  jwt_prev_sec_hex = "";
}

abbrev built_keys : KeySet
built_keys = record {
  active_kid = "k-0";
  active_secret = some sevens;
  previous_kid = "";
  previous_secret = none;
}
