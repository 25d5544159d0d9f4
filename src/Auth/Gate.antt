-- ===== src/Auth/Gate.antt =====
-- internal/transport/http/auth.go: which requests reach the handlers. The constant-time comparison is equality of texts.
-- `verifier` is `Verify` of the one that is wired, if any, at the instant of the request.
use Prim.Native.Char.{code}
use Prim.Native.String.{◌++◌ as append}
use nous.Prelude.{
  Bool, true, false, not, ◌&&◌, ◌||◌, Option, none, some, String, ◌==◌, if◌then◌else◌, ◌≡◌, ◌⊎◌,
  str_eq,
}
use nous.Prelude.Time.{Time}
use nous.Domain.Errors.{Result, ok, err}
use nous.Auth.Token.{Claims, Jwt}
use nous.Auth.{KeySet}
use nous.Auth.Accepts.{IsGenuine}

-- The text behind a prefix, if it is there.
unfoldable pub after_prefix : String → String → Option String
after_prefix String.[] s = some s
after_prefix (String.◌∷◌ c p) String.[] = none
after_prefix (String.◌∷◌ c p) (String.◌∷◌ d s) =
    let rest = after_prefix p s in if code c == code d then rest else none

abbrev present {ℓ} : {A : Type ℓ} → Option A → Bool
present none = false
present (some a) = true

-- `isOpenPath`
unfoldable pub is_open_path : String → Bool
unfolding after_prefix
is_open_path p = str_eq p "/metrics" || present (after_prefix "/v1/health" p)

pub data Verdict : Type 0 where
  forwarded : Verdict
  unauthorized : String → Verdict

-- `BearerAuthMiddleware`
unfoldable pub bearer_auth : String → String → String → Verdict
unfolding is_open_path
bearer_auth token path got =
    if str_eq token ""
    then forwarded
    else if is_open_path path
    then forwarded
    else if str_eq got "" || not (str_eq got (append "Bearer " token))
    then unauthorized "missing or invalid bearer token"
    else forwarded

module _ {C : Type 0} where
  abbrev let_in : Result C → Bool
  let_in (ok c) = true
  let_in (err e) = false

  -- `verifier != nil && strings.HasPrefix(raw, "Bearer ")`, and the call
  abbrev pub jwt_passes : Option (String → Result C) → Option String → Bool
  jwt_passes none t = false
  jwt_passes (some v) none = false
  jwt_passes (some v) (some t) = let_in (v t)

  abbrev pub unset : Option (String → Result C) → Bool
  unset none = true
  unset (some v) = false

  -- `CombinedAuthMiddleware`
  unfoldable pub combined_auth : String → Option (String → Result C) → String → String → Verdict
  unfolding is_open_path after_prefix
  combined_auth token verifier path raw =
      if str_eq token "" && unset verifier
      then forwarded
      else if is_open_path path
      then forwarded
      else if str_eq raw ""
      then unauthorized "missing bearer token"
      else if not (str_eq token "") && str_eq raw (append "Bearer " token)
      then forwarded
      else if jwt_passes verifier (after_prefix "Bearer " raw)
      then forwarded
      else unauthorized "missing or invalid bearer token"

-- What a request on a protected path presents.
abbrev pub Presents : Jwt → (String → String) → KeySet → Time → String → String → Type 0
Presents jwt quote keys now token raw =
    ((str_eq token "" ≡ false) × (str_eq raw (append "Bearer " token) ≡ true))
    ⊎ ((s : String) × (c : Claims) × (after_prefix "Bearer " raw ≡ some s)
        × IsGenuine jwt quote keys s now c)
