-- ===== src/Auth/Token/Sample.antt =====
-- One token of one user, which shows that what `Jwt` asks of the library can be met, for the worked examples. `kid` is
-- the name of the key in its header, and `good` tells the keys that make its signature.
use nous.Prelude.{
  ℕ, ◌-◌, ◌%◌, ◌≤◌, ◌<◌, Bool, true, false, ◌&&◌, Option, none, some, String, List, [], ◌∷◌, ◌≡◌,
  refl, sym, ap, subst, arith, leb, ltb, ◌==◌, if◌then◌else◌, Bool-cases, inl, inr, str_eq, eq_iff,
}
use nous.Prelude.Time.{Time, second}
use nous.Domain.Errors.{Error, failure, Result, ok, err, ok_same}
use nous.Auth.Token.{Key, Header, Claims, contains, InTime, Jwt}

abbrev pub ada : Claims
ada = record {
  subject = "ada";
  scopes = [];
  issuer = "nous";
  issued_at = some 5_000_000_000;
  not_before = some 5_000_000_000;
  expires_at = some 3_605_000_000_000;
}

abbrev no_scopes : List String → Bool
no_scopes [] = true
no_scopes (s ∷ ss) = false

abbrev at : ℕ → Option Time → Bool
at n none = false
at n (some t) = t == n

no_scopes_lem : (l : List String) → no_scopes l ≡ true → l ≡ []
no_scopes_lem [] h = refl
no_scopes_lem (s ∷ ss) h = cc

at_lem : (n : ℕ) (o : Option Time) → at n o ≡ true → o ≡ some n
at_lem n none h = cc
at_lem n (some t) h = ap some (ground arith)

is_ada : Claims → Bool
is_ada c =
    str_eq c.subject "ada"
    && no_scopes c.scopes
    && str_eq c.issuer "nous"
    && at 5_000_000_000 c.issued_at
    && at 5_000_000_000 c.not_before
    && at 3_605_000_000_000 c.expires_at

all_six :
    (a b c d e f : Bool)
    → (a && b && c && d && e && f) ≡ true
    → (a ≡ true) × (b ≡ true) × (c ≡ true) × (d ≡ true) × (e ≡ true) × (f ≡ true)
all_six a b c d e f h = ground arith

is_ada_lem : (c : Claims) → is_ada c ≡ true → ada ≡ c
unfolding is_ada
is_ada_lem c h =
    let s =
      all_six (str_eq c.subject "ada") (no_scopes c.scopes) (str_eq c.issuer "nous")
        (at 5_000_000_000 c.issued_at) (at 5_000_000_000 c.not_before)
        (at 3_605_000_000_000 c.expires_at) h in
    let e1 = (eq_iff c.subject "ada").0 s.0 in
    let e2 = no_scopes_lem c.scopes s.1 in
    let e3 = (eq_iff c.issuer "nous").0 s.2 in
    let e4 = at_lem _ c.issued_at s.3 in
    let e5 = at_lem _ c.not_before s.4 in
    let e6 = at_lem _ c.expires_at s.5 in
    λ i. record {
      subject = sym e1 i;
      scopes = sym e2 i;
      issuer = sym e3 i;
      issued_at = sym e4 i;
      not_before = sym e5 i;
      expires_at = sym e6 i;
    }

all_three : (a b c : Bool) → (a && b && c) ≡ true → (a ≡ true) × (b ≡ true) × (c ≡ true)
all_three a b c h = ground arith

err_not_ok : {A : Type 0} {a : A} {x : Error} → err x ≡ ok a → ⊥
err_not_ok e = cc e

module _ (kid : String) (good : Key → Bool) where
  abbrev pub head : Header
  head = record { alg = "HS256"; kid = kid }

  is_head : Header → Bool
  is_head h = str_eq h.alg "HS256" && str_eq h.kid kid

  is_head_lem : (h : Header) → is_head h ≡ true → head ≡ h
  unfolding is_head
  is_head_lem h e =
      let e1 = (eq_iff h.alg "HS256").0 (ground arith) in
      let e2 = (eq_iff h.kid kid).0 (ground arith) in λ i. record { alg = sym e1 i; kid = sym e2 i }

  unfoldable pub sign_ada : Header → Claims → Key → Result String
  unfolding is_head is_ada
  sign_ada h c k =
      if is_head h && is_ada c && good k then ok "token" else err (failure "not this token")

  abbrev timely : Time → Bool
  timely now = leb 5_000_000_000 now && ltb now 3_605_000_000_000

  abbrev with_key : Time → Result Key → Result Claims
  with_key now (err e) = err (failure "token is unverifiable")
  with_key now (ok k) =
      if good k
      then (if timely now then ok ada else err (failure "token is expired"))
      else err (failure "token signature is invalid")

  unfoldable pub parse_ada : String → (Header → Result Key) → Time → Result Claims
  parse_ada t kf now =
      if str_eq t "token" then with_key now (kf head) else err (failure "token is malformed")

  pub signed_ada :
      (h : Header) (c : Claims) (k : Key) (t : String)
      → sign_ada h c k ≡ ok t
      → (str_eq t "" ≡ false) × (str_eq t "token" ≡ true) × (head ≡ h) × (ada ≡ c) × (good k ≡ true)
  unfolding sign_ada
  signed_ada h c k t e = elim (Bool-cases (is_head h && is_ada c && good k)) [
    | inl a ↦
        let b : (is_head h ≡ true) × (is_ada c ≡ true) × (good k ≡ true) =
          all_three (is_head h) (is_ada c) (good k) a in
        let q : "token" ≡ t = ok_same (rw a at e) in
        rw (sym q) (refl, refl, is_head_lem h b.0, is_ada_lem c b.1, b.2)
    | inr a ↦ absurd (err_not_ok (rw a at e))
  ]

  pub timely-InTime : (now : Time) → timely now ≡ true → InTime ada now
  timely-InTime now h = record { begun = ground arith; running = ground arith }

  InTime-timely : (now : Time) → InTime ada now → timely now ≡ true
  InTime-timely now m =
      let a : 5_000_000_000 ≤ now = m.begun in
      let b : now < 3_605_000_000_000 = m.running in ground arith

  pub good_ada :
      (t : String) (kf : Header → Result Key) (now : Time) (k : Key)
      → str_eq t "token" ≡ true
      → kf head ≡ ok k
      → good k ≡ true
      → InTime ada now
      → parse_ada t kf now ≡ ok ada
  unfolding parse_ada
  good_ada t kf now k r e v m = rw (r, e) (rw (v, InTime-timely now m) refl)

  pub unsigned_ada :
      (t : String) (kf : Header → Result Key) (now : Time) (k : Key)
      → str_eq t "token" ≡ true
      → kf head ≡ ok k
      → good k ≡ false
      → (e : String) × (parse_ada t kf now ≡ err (failure e))
        × (contains e "signature is invalid" ≡ true)
  unfolding parse_ada contains
  unsigned_ada t kf now k r e v = ("token signature is invalid", rw (r, e) (rw v refl), refl)

  with_key_ok :
      (now : Time) (r : Result Key) (c : Claims)
      → with_key now r ≡ ok c
      → (k : Key) × (r ≡ ok k) × (good k ≡ true) × (ada ≡ c) × InTime c now
  with_key_ok now (err e) c h = absurd (err_not_ok h)
  with_key_ok now (ok k) c h = elim (Bool-cases (good k)) [
    | inr a ↦ absurd (err_not_ok (rw a at h))
    | inl a ↦ elim (Bool-cases (timely now)) [
      | inr b ↦ absurd (err_not_ok (rw (a, b) at h))
      | inl b ↦
          let q : ada ≡ c = ok_same (rw (a, b) at h) in
          (k, refl, a, q, subst (λ d. InTime d now) q (timely-InTime now b))
    ]
  ]

  pub accepts_ada :
      (t : String) (kf : Header → Result Key) (now : Time) (c : Claims)
      → parse_ada t kf now ≡ ok c
      → (k : Key) × (kf head ≡ ok k) × (good k ≡ true) × (ada ≡ c) × InTime c now
  unfolding parse_ada
  accepts_ada t kf now c h = elim (Bool-cases (str_eq t "token")) [
    | inl a ↦ with_key_ok now (kf head) c (rw a at h)
    | inr a ↦ absurd (err_not_ok (rw a at h))
  ]

  pub cut_le : (t : Time) → t - t % second ≤ t
  cut_le t = omega arith

  abbrev pub one_token : Jwt
  one_token = record {
    parse = parse_ada;
    sign = sign_ada;
    numeric_date = λ t. t - t % second;
    readable = λ t. str_eq t "token";
    header_of = λ t. head;
    claims_of = λ t. ada;
    verifies = λ t. good;
    numeric_date_le = cut_le;
    signed = signed_ada;
    parse_good = good_ada;
    parse_unsigned = unsigned_ada;
    parse_accepts = accepts_ada;
  }
