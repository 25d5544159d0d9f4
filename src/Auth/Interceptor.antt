-- ===== src/Auth/Interceptor.antt =====
-- internal/transport/grpc/auth.go: which calls reach the handlers. `get` is `metadata.MD.Get` of the call's metadata, none
-- where `FromIncomingContext` finds none. `verifier` is `Verify` of the one that is wired, if any, at the instant of the call.
use Prim.Native.String.{◌++◌ as append}
use nous.Prelude.{
  Bool, true, false, not, ◌&&◌, Option, none, some, String, List, [], ◌∷◌, if◌then◌else◌, ◌≡◌, inl,
  inr, refl, Bool-cases, str_eq, trim_space,
}
use nous.Domain.Errors.{Result}
use nous.Auth.Gate.{
  after_prefix, is_open_path, Verdict, forwarded, unauthorized, bearer_auth, jwt_passes, unset,
  combined_auth,
}

-- The first value under the first key that has one.
abbrev first_or : List String → String → String
first_or [] other = other
first_or (v ∷ vs) other = trim_space v

-- `firstAuthHeader`
abbrev first_auth_header : (String → List String) → String
first_auth_header get = first_or (get "authorization") (first_or (get "Authorization") "")

abbrev matched : String → String → Verdict
matched token got =
    if str_eq got ""
    then unauthorized "missing authorization metadata"
    else if not (str_eq got (append "Bearer " token))
    then unauthorized "invalid bearer token"
    else forwarded

abbrev bearer_checked : String → Option (String → List String) → Verdict
bearer_checked token none = unauthorized "missing metadata"
bearer_checked token (some get) = matched token (first_auth_header get)

-- `BearerAuthInterceptor`
unfoldable pub bearer_interceptor : String → Option (String → List String) → Verdict
bearer_interceptor token get = if str_eq token "" then forwarded else bearer_checked token get

module _ {C : Type 0} where
  abbrev either_matched : String → Option (String → Result C) → String → Verdict
  either_matched token verifier got =
      if str_eq got ""
      then unauthorized "missing authorization metadata"
      else if not (str_eq token "") && str_eq got (append "Bearer " token)
      then forwarded
      else if jwt_passes verifier (after_prefix "Bearer " got)
      then forwarded
      else unauthorized "invalid or expired token"

  abbrev either_checked :
      String → Option (String → Result C) → Option (String → List String) → Verdict
  either_checked token verifier none = unauthorized "missing metadata"
  either_checked token verifier (some get) = either_matched token verifier (first_auth_header get)

  -- `CombinedAuthInterceptor`
  unfoldable pub combined_interceptor :
      String → Option (String → Result C) → Option (String → List String) → Verdict
  unfolding after_prefix
  combined_interceptor token verifier get =
      if str_eq token "" && unset verifier then forwarded else either_checked token verifier get

abbrev pub passes : Verdict → Bool
passes forwarded = true
passes (unauthorized m) = false

module _ {C : Type 0} where
  either_agree :
      (token : String) (verifier : Option (String → Result C)) (path raw : String)
      → is_open_path path ≡ false
      → passes (
          if str_eq token "" && unset verifier
          then forwarded
          else either_matched token verifier raw)
        ≡ passes (combined_auth token verifier path raw)
  unfolding combined_auth
  either_agree token verifier path raw o = elim (Bool-cases (str_eq token "" && unset verifier)) [
    | inl a ↦ rw a refl
    | inr a ↦ elim (Bool-cases (str_eq raw "")) [
      | inl b ↦ rw (a, o, b) refl
      | inr b ↦ elim (Bool-cases (not (str_eq token "") && str_eq raw (append "Bearer " token))) [
        | inl d ↦ rw (a, o, b, d) refl
        | inr d ↦ elim (Bool-cases (jwt_passes verifier (after_prefix "Bearer " raw))) [
          | inl e ↦ rw (a, o, b, d, e) refl
          | inr e ↦ rw (a, o, b, d, e) refl
        ]
      ]
    ]
  ]

bearer_agree :
    (token path raw : String)
    → is_open_path path ≡ false
    → passes (if str_eq token "" then forwarded else matched token raw)
      ≡ passes (bearer_auth token path raw)
unfolding bearer_auth
bearer_agree token path raw o = elim (Bool-cases (str_eq token "")) [
  | inl a ↦ rw a refl
  | inr a ↦ elim (Bool-cases (str_eq raw "")) [
    | inl b ↦ rw (a, o, b) refl
    | inr b ↦ elim (Bool-cases (str_eq raw (append "Bearer " token))) [
      | inl d ↦ rw (a, o, b, d) refl
      | inr d ↦ rw (a, o, b, d) refl
    ]
  ]
]

-- The gRPC interceptors and the HTTP middlewares agree: a call whose first authorization value, without the spaces around it,
-- is the Authorization header of a request on a path that is not open gets through exactly when that request does, for the
-- pair with the static token alone and for the pair that takes a verified token too, with or without a verifier.
pub interceptors_agree :
    {C : Type 0} (token : String) (verifier : Option (String → Result C)) (path : String)
    (get : String → List String)
    → is_open_path path ≡ false
    → (passes (bearer_interceptor token (some get))
        ≡ passes (bearer_auth token path (first_auth_header get)))
      × (passes (combined_interceptor token verifier (some get))
          ≡ passes (combined_auth token verifier path (first_auth_header get)))
unfolding bearer_interceptor combined_interceptor
interceptors_agree token verifier path get o = (
  bearer_agree token path (first_auth_header get) o,
  either_agree token verifier path (first_auth_header get) o,
)
