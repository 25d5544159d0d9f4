-- ===== src/Auth.antt =====
-- internal/auth/jwt.go: tokens are issued under the active key, and accepted under the active or the
-- previous one. A secret is `none` where Go has a nil slice. Where `ParseWithClaims` gives no error the token is
-- valid and its claims are of the type asked for, so the test for that is not written again.
pub mod Token
pub mod Accepts
pub mod Rotator
pub mod Survives
pub mod Rotation
pub mod Edges
pub mod Gate
pub mod Interceptor
pub mod Verifier
use Prim.Native.String.{◌++◌ as append}
use nous.Prelude.{
  ℕ, Bool, true, false, not, ◌&&◌, ◌||◌, Option, none, some, String, List, [], ◌∷◌, if◌then◌else◌,
  str_eq,
}
use nous.Prelude.Int.{pos, leb_ℤ}
use nous.Prelude.Time.{Time, Duration, utc, add, hour}
use nous.Domain.Errors.{Error, failure, Result, ok, err}
use nous.Auth.Token.{Key, Header, Claims, contains, Jwt}

pub record KeySet : Type 0 where
  pub active_kid : String
  pub active_secret : Option Key
  pub previous_kid : String
  pub previous_secret : Option Key

abbrev pub bytes : Option Key → Key
bytes none = []
bytes (some k) = k

-- `len(secret) == 0`
abbrev pub is_empty {ℓ} : {A : Type ℓ} → List A → Bool
is_empty [] = true
is_empty (x ∷ xs) = false

abbrev pub blank : Option Key → Bool
blank s = is_empty (bytes s)

abbrev pub issuer_name : String
issuer_name = "nous"

-- The lifetime that `Issue` comes to: its argument, else the issuer's, else an hour.
abbrev pub lifetime : Duration → Duration → Duration
lifetime own ttl =
    let t = if leb_ℤ ttl (pos 0) then own else ttl in if leb_ℤ t (pos 0) then pos hour else t

module _ (jwt : Jwt) where
  abbrev pub new_claims : String → List String → Duration → Time → Claims
  new_claims subject scopes ttl now = record {
    subject = subject;
    scopes = scopes;
    issuer = issuer_name;
    issued_at = some (jwt.numeric_date now);
    not_before = some (jwt.numeric_date now);
    expires_at = some (jwt.numeric_date (add now ttl));
  }

  -- `Issuer_.Issue` at `time.Now()`; `own` is the issuer's lifetime.
  unfoldable pub issue : KeySet → Duration → String → List String → Duration → Time → Result String
  issue keys own subject scopes ttl now =
      if str_eq subject ""
      then err (failure "auth: subject required")
      else if blank keys.active_secret
      then err (failure "auth: no active signing key")
      else jwt.sign (record { alg = "HS256"; kid = keys.active_kid })
          (new_claims subject scopes (lifetime own ttl) (utc now)) (bytes keys.active_secret)

-- The function that `Verify` hands to the library; the cases of its `switch` in their order.
unfoldable pub keyfunc : (String → String) → KeySet → Header → Result Key
keyfunc quote keys h =
    if not (str_eq h.alg "HS256")
    then err (failure (append "auth: unexpected signing method " (quote h.alg)))
    else if str_eq h.kid keys.active_kid
    then ok (bytes keys.active_secret)
    else if str_eq h.kid keys.previous_kid
    then (if blank keys.previous_secret
        then err (failure "auth: previous key not configured")
        else ok (bytes keys.previous_secret))
    else if str_eq h.kid ""
    then ok (bytes keys.active_secret)
    else err (failure (append "auth: unknown key id " (quote h.kid)))

-- `err.Error()`, for the errors that the library gives.
abbrev pub error_text : Error → String
error_text (failure e) = e
error_text other = ""

-- The check of the issuer.
abbrev pub from_nous : (String → String) → Claims → Result Claims
from_nous quote c =
    if not (str_eq c.issuer "") && not (str_eq c.issuer issuer_name)
    then err (failure (append "auth: unexpected issuer " (quote c.issuer)))
    else ok c

module _ (jwt : Jwt) (quote : String → String) where
  -- After the second parse.
  abbrev pub concluded : Result Claims → Result Claims
  concluded (ok c) = from_nous quote c
  concluded (err e) = err (failure (append "auth: parse: " (error_text e)))

  -- After the first parse: a signature that the first key did not make is tried under the previous secret.
  unfoldable pub retried : Option Key → String → Time → Result Claims → Result Claims
  retried previous t now (ok c) = from_nous quote c
  retried none t now (err e) = concluded (err e)
  retried (some k) t now (err e) =
      if contains (error_text e) "signature is invalid"
      then concluded (jwt.parse t (λ h. ok k) now)
      else concluded (err e)

  -- `Verifier.Verify` at an instant, with the keys that `keysetFor` gives.
  unfoldable pub verify : KeySet → String → Time → Result Claims
  unfolding keyfunc retried
  verify keys t now =
      if str_eq t ""
      then err (failure "auth: empty token")
      else if blank keys.active_secret && blank keys.previous_secret
      then err (failure "auth: no keys configured")
      else retried keys.previous_secret t now (jwt.parse t (keyfunc quote keys) now)

-- `Claims.HasScope`
unfoldable pub has_scope : List String → String → Bool
has_scope [] want = false
has_scope (s ∷ scopes) want =
    let rest = has_scope scopes want in if str_eq s "*" || str_eq s want then true else rest
