-- ===== src/Auth/Token.antt =====
-- The library github.com/golang-jwt/jwt/v5 as internal/auth/jwt.go uses it, with what its documentation
-- promises of `ParseWithClaims` and of `SignedString` with a key of bytes. A header's `kid` is "" where there
-- is none or it is no text, which is what the code's type assertion gives.
pub mod Sample
use nous.Prelude.{ℕ, ◌≤◌, ◌<◌, Bool, true, false, Option, none, some, String, List, ◌≡◌, str_eq}
use text.Mathlib.Text.{find?}
use nous.Prelude.Time.{Time}
use nous.Domain.Errors.{Error, failure, Result, ok, err}

abbrev pub Key : Type 0
Key = List ℕ

pub record Header : Type 0 where
  pub alg : String
  pub kid : String

-- `Claims` with the fields of `jwt.RegisteredClaims` that the code sets or reads.
pub record Claims : Type 0 where
  pub subject : String
  pub scopes : List String
  pub issuer : String
  pub issued_at : Option Time
  pub not_before : Option Time
  pub expires_at : Option Time

-- `strings.Contains`
abbrev at_place : Option ℕ → Bool
at_place none = false
at_place (some i) = true

unfoldable pub contains : String → String → Bool
contains s t = at_place (find? s t)

abbrev pub Begun : Option Time → Time → Type 0
Begun none now = Unit
Begun (some t) now = t ≤ now

abbrev pub Running : Option Time → Time → Type 0
Running none now = Unit
Running (some t) now = now < t

-- The library checks `nbf` and `exp` where they are set.
pub record InTime (c : Claims) (now : Time) : Type 0 where
  pub begun : Begun c.not_before now
  pub running : Running c.expires_at now

-- `header_of` and `claims_of` are what a readable token says, `verifies` whether a key made its signature.
pub record Jwt : Type 0 where
  pub parse : String → (Header → Result Key) → Time → Result Claims
  pub sign : Header → Claims → Key → Result String
  pub numeric_date : Time → Time
  pub readable : String → Bool
  pub header_of : String → Header
  pub claims_of : String → Claims
  pub verifies : String → Key → Bool
  -- dates are cut to seconds
  pub numeric_date_le : (t : Time) → numeric_date t ≤ t
  pub signed :
      (h : Header) (c : Claims) (k : Key) (t : String)
      → sign h c k ≡ ok t
      → (str_eq t "" ≡ false)
        × (readable t ≡ true)
        × (header_of t ≡ h)
        × (claims_of t ≡ c)
        × (verifies t k ≡ true)
  pub parse_good :
      (t : String) (keyfunc : Header → Result Key) (now : Time) (k : Key)
      → readable t ≡ true
      → keyfunc (header_of t) ≡ ok k
      → verifies t k ≡ true
      → InTime (claims_of t) now
      → parse t keyfunc now ≡ ok (claims_of t)
  pub parse_unsigned :
      (t : String) (keyfunc : Header → Result Key) (now : Time) (k : Key)
      → readable t ≡ true
      → keyfunc (header_of t) ≡ ok k
      → verifies t k ≡ false
      → (e : String) × (parse t keyfunc now ≡ err (failure e))
        × (contains e "signature is invalid" ≡ true)
  pub parse_accepts :
      (t : String) (keyfunc : Header → Result Key) (now : Time) (c : Claims)
      → parse t keyfunc now ≡ ok c
      → (k : Key) × (keyfunc (header_of t) ≡ ok k)
        × (verifies t k ≡ true)
        × (claims_of t ≡ c)
        × InTime c now
