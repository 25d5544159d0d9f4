-- ===== src/Auth/Accepts.antt =====
-- internal/auth/jwt.go: which tokens `Verify` accepts.
use nous.Prelude.{
  true, false, ◌&&◌, Option, none, some, String, ◌≡◌, ◌⊎◌, refl, sym, ap, ◌∙◌, subst, Bool-cases,
  inl, inr, str_eq,
}
use nous.Prelude.Time.{Time}
use nous.Domain.Errors.{Error, Result, ok, err, ok_same}
use nous.Auth.Token.{Key, Header, Claims, contains, InTime, Jwt}
use nous.Auth.{
  KeySet, bytes, blank, keyfunc, from_nous, concluded, retried, verify, error_text, issuer_name,
}

pub err_not_ok : {A : Type 0} {a : A} {x : Error} → err x ≡ ok a → ⊥
err_not_ok e = cc e

not_blank : (s : Option Key) → blank s ≡ false → s ≡ some (bytes s)
not_blank none h = cc
not_blank (some k) h = refl

module _ (jwt : Jwt) (quote : String → String) where
  -- One of the two keys made the token's signature, the token is in time, and its issuer is Nous or is left out.
  pub record IsGenuine (keys : KeySet) (t : String) (now : Time) (c : Claims) : Type 0 where
    pub signed :
        (jwt.verifies t (bytes keys.active_secret) ≡ true)
        ⊎ ((k : Key) × (keys.previous_secret ≡ some k) × (jwt.verifies t k ≡ true))
    pub says : jwt.claims_of t ≡ c
    pub in_time : InTime c now
    pub issued_by : (str_eq c.issuer "" ≡ true) ⊎ (str_eq c.issuer issuer_name ≡ true)

  -- The key that is handed to the library is one of the two.
  keyfunc_one :
      (keys : KeySet) (h : Header) (k : Key)
      → keyfunc quote keys h ≡ ok k
      → (k ≡ bytes keys.active_secret) ⊎ (keys.previous_secret ≡ some k)
  unfolding keyfunc
  keyfunc_one keys h k e = elim (Bool-cases (str_eq h.alg "HS256")) [
    | inr a ↦ absurd (err_not_ok (rw a at e))
    | inl a ↦ elim (Bool-cases (str_eq h.kid keys.active_kid)) [
      | inl b ↦ inl (sym (ok_same (rw (a, b) at e)))
      | inr b ↦ elim (Bool-cases (str_eq h.kid keys.previous_kid)) [
        | inl c ↦ elim (Bool-cases (blank keys.previous_secret)) [
          | inl d ↦ absurd (err_not_ok (rw (a, b, c, d) at e))
          | inr d ↦
              inr (not_blank keys.previous_secret d ∙ ap some (ok_same (rw (a, b, c, d) at e)))
        ]
        | inr c ↦ elim (Bool-cases (str_eq h.kid "")) [
          | inl d ↦ inl (sym (ok_same (rw (a, b, c, d) at e)))
          | inr d ↦ absurd (err_not_ok (rw (a, b, c, d) at e))
        ]
      ]
    ]
  ]

  from_nous_ok :
      (c d : Claims)
      → from_nous quote c ≡ ok d
      → (c ≡ d) × ((str_eq c.issuer "" ≡ true) ⊎ (str_eq c.issuer issuer_name ≡ true))
  from_nous_ok c d e = elim (Bool-cases (str_eq c.issuer "")) [
    | inl a ↦ (ok_same (rw a at e), inl a)
    | inr a ↦ elim (Bool-cases (str_eq c.issuer issuer_name)) [
      | inl b ↦ (ok_same (rw (a, b) at e), inr b)
      | inr b ↦ absurd (err_not_ok (rw (a, b) at e))
    ]
  ]

  concluded_ok :
      (r : Result Claims) (d : Claims)
      → concluded jwt quote r ≡ ok d
      → (r ≡ ok d) × (from_nous quote d ≡ ok d)
  concluded_ok (ok c) d e =
      let f = from_nous_ok c d e in (ap ok f.0, subst (λ x. from_nous quote x ≡ ok d) f.0 e)
  concluded_ok (err x) d e = cc

  genuine :
      (keys : KeySet) (t : String) (now : Time) (c : Claims) (kf : Header → Result Key)
      → ((k : Key)
          → kf (jwt.header_of t) ≡ ok k
          → (k ≡ bytes keys.active_secret) ⊎ (keys.previous_secret ≡ some k))
      → jwt.parse t kf now ≡ ok c
      → from_nous quote c ≡ ok c
      → IsGenuine keys t now c
  genuine keys t now c kf one e f =
      let p = jwt.parse_accepts t kf now c e in
      record {
        signed = elim (one p.0 p.1) [
          | inl q ↦ inl (subst (λ k. jwt.verifies t k ≡ true) q p.2)
          | inr q ↦ inr (p.0, q, p.2)
        ];
        says = p.3;
        in_time = p.4;
        issued_by = (from_nous_ok c c f).1;
      }

  retried_ok :
      (keys : KeySet) (s : Option Key) (t : String) (now : Time) (r : Result Claims) (c : Claims)
      → s ≡ keys.previous_secret
      → r ≡ jwt.parse t (keyfunc quote keys) now
      → retried jwt quote s t now r ≡ ok c
      → IsGenuine keys t now c
  unfolding retried
  retried_ok keys s t now (ok d) c q e h =
      let f = from_nous_ok d c h in
      genuine keys t now c (keyfunc quote keys) (keyfunc_one keys (jwt.header_of t))
        (sym e ∙ ap ok f.0) (subst (λ x. from_nous quote x ≡ ok c) f.0 h)
  retried_ok keys none t now (err x) c q e h = absurd (err_not_ok h)
  retried_ok keys (some k) t now (err x) c q e h =
      elim (Bool-cases (contains (error_text x) "signature is invalid")) [
        | inl a ↦
            let f = concluded_ok (jwt.parse t (λ g. ok k) now) c (rw a at h) in
            genuine keys t now c (λ g. ok k) (λ j u. inr (sym q ∙ ap some (ok_same u))) f.0 f.1
        | inr a ↦ absurd (err_not_ok (rw a at h))
      ]

  pub verify-IsGenuine :
      (keys : KeySet) (t : String) (now : Time) (c : Claims)
      → verify jwt quote keys t now ≡ ok c
      → IsGenuine keys t now c
  unfolding verify
  verify-IsGenuine keys t now c h = elim (Bool-cases (str_eq t "")) [
    | inl a ↦ absurd (err_not_ok (rw a at h))
    | inr a ↦ elim (Bool-cases (blank keys.active_secret && blank keys.previous_secret)) [
      | inl b ↦ absurd (err_not_ok (rw (a, b) at h))
      | inr b ↦ retried_ok keys keys.previous_secret t now _ c refl refl (rw (a, b) at h)
    ]
  ]
