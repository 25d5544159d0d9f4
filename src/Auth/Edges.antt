-- ===== src/Auth/Edges.antt =====
-- internal/auth: tokens without a key's name, and keys that are left out.
use nous.Prelude.{
  true, false, ◌&&◌, ◌||◌, Option, none, some, String, [], ◌≡◌, ◌≢◌, refl, sym, ap, ◌∙◌, subst,
  arith, Bool-cases, inl, inr, str_eq,
}
use nous.Prelude.Int.{pos, leb_ℤ, ltb_ℤ}
use nous.Prelude.Time.{Time}
use nous.Domain.Errors.{failure, Result, ok, err, ok_same}
use nous.Auth.Token.{Key, Claims, InTime, Jwt}
use nous.Auth.{KeySet, blank, keyfunc, retried, verify, issuer_name}
use nous.Auth.Accepts.{err_not_ok}
use nous.Auth.Survives.{accepted, taken}
use nous.Auth.Rotator.{Rotator, RotatorConfig, snapshot, new_rotator, seeded}

seeded_keys :
    (kid_of : Time → String) (cfg : RotatorConfig) (start : Time) (k : Result Key) (r : Rotator)
    → seeded kid_of cfg start k ≡ ok r
    → (k : Key) × (r.keys ≡ record {
      active_kid = kid_of start;
      active_secret = some k;
      previous_kid = "";
      previous_secret = none;
    })
seeded_keys kid_of cfg start (ok k) r h = (k, sym (ap Rotator.keys (ok_same h)))
seeded_keys kid_of cfg start (err e) r h = absurd (err_not_ok h)

-- The keys of a new rotator: no previous one.
new_rotator_keys :
    (kid_of : Time → String) (initial : Option Key) (cfg : RotatorConfig) (start : Time)
    (fresh : Result Key) (r : Rotator)
    → new_rotator kid_of initial cfg start fresh ≡ ok r
    → (k : Key) × (r.keys ≡ record {
      active_kid = kid_of start;
      active_secret = some k;
      previous_kid = "";
      previous_secret = none;
    })
unfolding new_rotator
new_rotator_keys kid_of initial cfg start fresh r h =
    elim (Bool-cases (leb_ℤ cfg.period (pos 0) || leb_ℤ cfg.overlap (pos 0))) [
      | inl a ↦ absurd (err_not_ok (rw a at h))
      | inr a ↦ elim (Bool-cases (ltb_ℤ cfg.period cfg.overlap)) [
        | inl b ↦ absurd (err_not_ok (rw (a, b) at h))
        | inr b ↦ seeded_keys kid_of cfg start _ r (rw (a, b) at h)
      ]
    ]

module _ (jwt : Jwt) (quote : String → String) where
  -- With the previous secret alone configured, and no name for the active key, a token with no key's name is
  -- checked against the empty key: whoever signs with the empty key is accepted.
  pub empty_key_accepts :
      (previous_kid : String) (previous : Key) (t : String) (now : Time)
      → jwt.readable t ≡ true
      → jwt.header_of t ≡ record { alg = "HS256"; kid = "" }
      → jwt.verifies t [] ≡ true
      → InTime (jwt.claims_of t) now
      → (jwt.claims_of t).issuer ≡ issuer_name
      → str_eq t "" ≡ false
      → blank (some previous) ≡ false
      → verify jwt quote
          (record {
            active_kid = "";
            active_secret = none;
            previous_kid = previous_kid;
            previous_secret = some previous;
          })
          t
          now
        ≡ ok (jwt.claims_of t)
  unfolding keyfunc
  empty_key_accepts previous_kid previous t now r h v m n s p =
      accepted jwt quote _ t now (jwt.claims_of t) s (ground (arith, p)) (
        taken jwt quote (some previous) t now _ (jwt.claims_of t)
          (jwt.parse_good t _ now [] r (rw h refl) v m) n)

  retried-none :
      (t : String) (now : Time) (r : Result Claims) (c : Claims)
      → retried jwt quote none t now r ≡ ok c
      → (d : Claims) × (r ≡ ok d)
  unfolding retried
  retried-none t now (ok d) c h = (d, refl)
  retried-none t now (err x) c h = absurd (err_not_ok h)

  lone : String → Key → KeySet
  lone kid k = record {
    active_kid = kid;
    active_secret = some k;
    previous_kid = "";
    previous_secret = none;
  }

  keyfunc_bare :
      (kid : String) (k : Key)
      → str_eq "" kid ≡ false
      → keyfunc quote (lone kid k) (record { alg = "HS256"; kid = "" })
        ≡ err (failure "auth: previous key not configured")
  unfolding keyfunc lone
  keyfunc_bare kid k h = rw h refl

  bare_never :
      (kid : String) (k : Key) (t : String) (now : Time) (c : Claims)
      → str_eq "" kid ≡ false
      → jwt.header_of t ≡ record { alg = "HS256"; kid = "" }
      → verify jwt quote (lone kid k) t now ≡ ok c
      → ⊥
  unfolding verify lone
  bare_never kid k t now c h e v = elim (Bool-cases (str_eq t "")) [
    | inl a ↦ err_not_ok (rw a at v)
    | inr a ↦ elim (Bool-cases (blank (some k) && blank none)) [
      | inl b ↦ err_not_ok (rw (a, b) at v)
      | inr b ↦
          let kf = keyfunc quote (lone kid k) in
          let d = retried-none t now (jwt.parse t kf now) c (rw (a, b) at v) in
          let p = jwt.parse_accepts t kf now d.0 d.1 in
          err_not_ok (sym (ap kf e ∙ keyfunc_bare kid k h) ∙ p.1)
    ]
  ]

  -- Until the key is rotated for the first time, a token with no key's name is refused, also where the active
  -- key has signed it: "" is taken for the name of the previous key, which is not there.
  pub bare_refused :
      (kid_of : Time → String) (initial : Option Key) (cfg : RotatorConfig) (start : Time)
      (fresh : Result Key) (r : Rotator) (t : String) (now : Time)
      → new_rotator kid_of initial cfg start fresh ≡ ok r
      → str_eq "" (kid_of start) ≡ false
      → jwt.header_of t ≡ record { alg = "HS256"; kid = "" }
      → (c : Claims) → verify jwt quote (snapshot r) t now ≢ ok c
  unfolding snapshot lone
  bare_refused kid_of initial cfg start fresh r t now h k e c v =
      let s = new_rotator_keys kid_of initial cfg start fresh r h in
      bare_never (kid_of start) s.0 t now c k e (subst (λ x. verify jwt quote x t now ≡ ok c) s.1 v)
