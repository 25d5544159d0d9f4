-- ===== src/Auth/Rotation.antt =====
-- internal/auth: tokens across rotations of the key.
use nous.Prelude.{
  ◌≤◌, ◌<◌, true, false, some, String, List, ◌≡◌, ◌≢◌, refl, sym, ap, ◌∙◌, subst, arith,
  if◌then◌else◌, Bool-cases, inl, inr, str_eq,
}
use nous.Prelude.Time.{Time, Duration, add}
use nous.Domain.Errors.{Result, ok}
use nous.Auth.Token.{Key, Header, Claims, InTime, Jwt}
use nous.Auth.{KeySet, bytes, keyfunc, retried, verify, issuer_name, issue, new_claims, lifetime}
use nous.Auth.Accepts.{verify-IsGenuine}
use nous.Auth.Rotator.{Rotator, rotate_now, snapshot}
use nous.Auth.Survives.{
  secret_of, IsIssued, issue-IsIssued, issued-InTime, accepted, taken, demoted, keyfunc-demoted,
  second_try,
}

module _ (jwt : Jwt) (quote : String → String) where
  module _ (keys : KeySet) (c : Claims) (t : String) (later : Time) (i : IsIssued jwt keys c t)
      (m : InTime c later) where
    parsed :
        (kf : Header → Result Key) (k : Key)
        → kf (jwt.header_of t) ≡ ok k
        → jwt.verifies t k ≡ true
        → jwt.parse t kf later ≡ ok c
    parsed kf k e v = jwt.parse_good t kf later k i.readable e v (rw i.says m) ∙ ap ok i.says

    picked :
        (kid : String) (fresh : Key)
        → keyfunc quote (demoted jwt quote keys kid fresh) (jwt.header_of t)
          ≡ (if str_eq keys.active_kid kid then ok fresh else ok (bytes keys.active_secret))
    picked kid fresh = rw i.headed (keyfunc-demoted jwt quote keys kid fresh i.armed)

    -- Both keys have one name, as after two rotations within a second: the fresh key is tried, then the
    -- previous one.
    retried-demoted :
        (kid : String) (fresh k : Key)
        → keys.active_secret ≡ some k
        → str_eq keys.active_kid kid ≡ true
        → c.issuer ≡ issuer_name
        → jwt.verifies t fresh ≡ false
        → retried jwt quote keys.active_secret t later
            (jwt.parse t (keyfunc quote (demoted jwt quote keys kid fresh)) later)
          ≡ ok c
    retried-demoted kid fresh k q a n v =
        let kf = keyfunc quote (demoted jwt quote keys kid fresh) in
        let e : kf (jwt.header_of t) ≡ ok fresh = picked kid fresh ∙ rw a refl in
        let u = jwt.parse_unsigned t kf later fresh i.readable e v in
        let w : jwt.verifies t k ≡ true = subst (λ s. jwt.verifies t (bytes s) ≡ true) q i.signed in
        subst (λ s. retried jwt quote s t later (jwt.parse t kf later) ≡ ok c) (sym q)
          (second_try jwt quote k t later (jwt.parse t kf later) c u.0 u.1 u.2
            (parsed (λ h. ok k) k refl w) n)

    -- By the previous key: the code picks it, or picks the fresh key and tries again.
    verify-demoted :
        (kid : String) (fresh : Key)
        → c.issuer ≡ issuer_name
        → verify jwt quote (demoted jwt quote keys kid fresh) t later ≡ ok c
    verify-demoted kid fresh n =
        let new = demoted jwt quote keys kid fresh in
        let kf = keyfunc quote new in
        let q = secret_of keys.active_secret i.armed in
        accepted jwt quote new t later c i.solid (ground (arith, i.armed))
          (elim (Bool-cases (str_eq keys.active_kid kid)) [
            | inr a ↦
                taken jwt quote keys.active_secret t later (jwt.parse t kf later) c
                  (parsed kf (bytes keys.active_secret) (picked kid fresh ∙ rw a refl) i.signed) n
            | inl a ↦ elim (Bool-cases (jwt.verifies t fresh)) [
              | inl v ↦
                  taken jwt quote keys.active_secret t later (jwt.parse t kf later) c
                    (parsed kf fresh (picked kid fresh ∙ rw a refl) v) n
              | inr v ↦ retried-demoted kid fresh q.0 q.1 a n v
            ]
          ])

  -- A token that was issued before a rotation of the key is accepted after it, until its lifetime is over, cut to the
  -- second; also where the fresh key comes to the same name, and whatever the overlap.
  pub survives_rotation :
      (kid_of : Time → String) (r : Rotator) (own : Duration) (subject : String)
      (scopes : List String) (ttl : Duration) (now rotated later : Time) (fresh : Key) (t : String)
      → issue jwt (snapshot r) own subject scopes ttl now ≡ ok t
      → now ≤ later
      → later < jwt.numeric_date (add now (lifetime own ttl))
      → verify jwt quote (snapshot (rotate_now kid_of r rotated (ok fresh)).0) t later
        ≡ ok (new_claims jwt subject scopes (lifetime own ttl) now)
  unfolding rotate_now snapshot
  survives_rotation kid_of r own subject scopes ttl now rotated later fresh t h l m =
      verify-demoted r.keys (new_claims jwt subject scopes (lifetime own ttl) now) t later
        (issue-IsIssued jwt r.keys own subject scopes ttl now t h)
        (issued-InTime jwt subject scopes (lifetime own ttl) now later l m) (kid_of rotated) fresh
        refl

  -- After two rotations a token that neither of the two fresh keys has signed is refused, even within its lifetime
  -- and whatever the overlap.
  pub two_rotations_refuse :
      (kid_of : Time → String) (r : Rotator) (t : String) (first second later : Time) (k1 k2 : Key)
      → jwt.verifies t k1 ≡ false
      → jwt.verifies t k2 ≡ false
      → (c : Claims)
      → verify jwt quote
          (snapshot (rotate_now kid_of (rotate_now kid_of r first (ok k1)).0 second (ok k2)).0)
          t
          later
        ≢ ok c
  unfolding rotate_now snapshot
  two_rotations_refuse kid_of r t first second later k1 k2 h k c e =
      elim (verify-IsGenuine jwt quote _ t later c e).signed [
        | inl v ↦ let z : true ≡ false = sym v ∙ k in cc
        | inr v ↦ let e : some k1 ≡ some v.0 = v.1 in let s : jwt.verifies t v.0 ≡ true = v.2 in cc
      ]
