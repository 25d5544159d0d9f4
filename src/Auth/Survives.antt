-- ===== src/Auth/Survives.antt =====
-- internal/auth: how long an issued token is accepted.
use nous.Prelude.{
  ◌≤◌, ◌<◌, true, false, ◌&&◌, Option, none, some, String, List, ◌≡◌, refl, ap, ◌∙◌, arith,
  if◌then◌else◌, Bool-cases, inl, inr, str_eq, str_eq_refl,
}
use nous.Prelude.Time.{Time, Duration, add}
use nous.Domain.Errors.{failure, Result, ok, err}
use nous.Auth.Token.{Key, Claims, contains, InTime, Jwt}
use nous.Auth.{
  KeySet, bytes, blank, keyfunc, retried, verify, issuer_name, issue, new_claims, lifetime,
}
use nous.Auth.Accepts.{err_not_ok}

pub secret_of : (s : Option Key) → blank s ≡ false → (k : Key) × (s ≡ some k)
secret_of none h = cc
secret_of (some k) h = (k, refl)

module _ (jwt : Jwt) where
  -- What `Issue` has made.
  pub record IsIssued (keys : KeySet) (c : Claims) (t : String) : Type 0 where
    pub armed : blank keys.active_secret ≡ false
    pub solid : str_eq t "" ≡ false
    pub readable : jwt.readable t ≡ true
    pub headed : jwt.header_of t ≡ record { alg = "HS256"; kid = keys.active_kid }
    pub says : jwt.claims_of t ≡ c
    pub signed : jwt.verifies t (bytes keys.active_secret) ≡ true

  pub issue-IsIssued :
      (keys : KeySet) (own : Duration) (subject : String) (scopes : List String) (ttl : Duration)
      (now : Time) (t : String)
      → issue jwt keys own subject scopes ttl now ≡ ok t
      → IsIssued keys (new_claims jwt subject scopes (lifetime own ttl) now) t
  unfolding issue
  issue-IsIssued keys own subject scopes ttl now t h = elim (Bool-cases (str_eq subject "")) [
    | inl a ↦ absurd (err_not_ok (rw a at h))
    | inr a ↦ elim (Bool-cases (blank keys.active_secret)) [
      | inl b ↦ absurd (err_not_ok (rw (a, b) at h))
      | inr b ↦
          let s = jwt.signed _ _ _ t (rw (a, b) at h) in
          record { armed = b; solid = s.0; readable = s.1; headed = s.2; says = s.3; signed = s.4 }
    ]
  ]

  pub issued-InTime :
      (subject : String) (scopes : List String) (ttl : Duration) (now later : Time)
      → now ≤ later
      → later < jwt.numeric_date (add now ttl)
      → InTime (new_claims jwt subject scopes ttl now) later
  issued-InTime subject scopes ttl now later h k = record {
    begun = omega (arith, jwt.numeric_date_le now);
    running = k;
  }

  module _ (quote : String → String) where
    -- A token that is not empty, under keys that are not both empty, is accepted if the library takes it
    -- under the key that the code picks, and its issuer is Nous.
    pub accepted :
        (keys : KeySet) (t : String) (now : Time) (c : Claims)
        → str_eq t "" ≡ false
        → (blank keys.active_secret && blank keys.previous_secret) ≡ false
        → retried jwt quote keys.previous_secret t now (jwt.parse t (keyfunc quote keys) now) ≡ ok c
        → verify jwt quote keys t now ≡ ok c
    unfolding verify
    accepted keys t now c a b h = rw (a, b) h

    pub taken :
        (s : Option Key) (t : String) (now : Time) (r : Result Claims) (c : Claims)
        → r ≡ ok c
        → c.issuer ≡ issuer_name
        → retried jwt quote s t now r ≡ ok c
    unfolding retried
    taken s t now r c e i = rw e (rw i refl)

    keyfunc_active :
        (keys : KeySet)
        → keyfunc quote keys (record { alg = "HS256"; kid = keys.active_kid })
          ≡ ok (bytes keys.active_secret)
    unfolding keyfunc
    keyfunc_active keys = rw (str_eq_refl keys.active_kid) refl

    -- A token is accepted, with the claims that it was issued with, from when it is issued until its lifetime
    -- is over, cut to the second, while the keys stay.
    pub issue-verify :
        (keys : KeySet) (own : Duration) (subject : String) (scopes : List String) (ttl : Duration)
        (now later : Time) (t : String)
        → issue jwt keys own subject scopes ttl now ≡ ok t
        → now ≤ later
        → later < jwt.numeric_date (add now (lifetime own ttl))
        → verify jwt quote keys t later ≡ ok (new_claims jwt subject scopes (lifetime own ttl) now)
    issue-verify keys own subject scopes ttl now later t h l m =
        let c = new_claims jwt subject scopes (lifetime own ttl) now in
        let i = issue-IsIssued keys own subject scopes ttl now t h in
        let e =
          jwt.parse_good t (keyfunc quote keys) later (bytes keys.active_secret) i.readable
            (rw i.headed (keyfunc_active keys)) i.signed
            (rw i.says (issued-InTime subject scopes (lifetime own ttl) now later l m)) in
        accepted keys t later c i.solid (ground (arith, i.armed)) (
          taken keys.previous_secret t later (jwt.parse t (keyfunc quote keys) later) c
            (e ∙ ap ok i.says) refl)

    -- The keys after a rotation.
    abbrev pub demoted : KeySet → String → Key → KeySet
    demoted keys kid fresh = record {
      active_kid = kid;
      active_secret = some fresh;
      previous_kid = keys.active_kid;
      previous_secret = keys.active_secret;
    }

    pub keyfunc-demoted :
        (keys : KeySet) (kid : String) (fresh : Key)
        → blank keys.active_secret ≡ false
        → keyfunc quote (demoted keys kid fresh) (record { alg = "HS256"; kid = keys.active_kid })
          ≡ (if str_eq keys.active_kid kid then ok fresh else ok (bytes keys.active_secret))
    unfolding keyfunc
    keyfunc-demoted keys kid fresh h = rw (str_eq_refl keys.active_kid) (rw h refl)

    pub second_try :
        (k : Key) (t : String) (now : Time) (r : Result Claims) (c : Claims) (e : String)
        → r ≡ err (failure e)
        → contains e "signature is invalid" ≡ true
        → jwt.parse t (λ h. ok k) now ≡ ok c
        → c.issuer ≡ issuer_name
        → retried jwt quote (some k) t now r ≡ ok c
    unfolding retried
    second_try k t now r c e a b d i = rw a (rw b (rw d (rw i refl)))
