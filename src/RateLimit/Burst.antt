-- ===== src/RateLimit/Burst.antt =====
-- internal/transport/http/ratelimit.go: how many requests of a client pass.
use Prim.Native.Nat.{min}
use nous.Prelude.{
  ℕ, zero, suc, ◌-◌, ◌^◌, ◌≤◌, ◌<◌, true, false, none, some, String, if◌then◌else◌, ◌≡◌, refl, sym,
  ◌∙◌, arith, Bool-cases, ltb, inl, inr, ◌⊎◌, str_eq_refl,
}
use nous.Prelude.Int.{pos}
use nous.Prelude.Time.{Time, sub}
use nous.Prelude.Float.{Float64, le_refl, lt→le, le→not_lt}
use nous.RateLimit.{Counting, RateLimiter, put, bucket_or_full, refilled, spent, allow}

le_cases : (m n : ℕ) → m ≤ n → (m ≡ n) ⊎ (m < n)
le_cases m n h = elim (Bool-cases (ltb m n)) [
  | inl e ↦ inr (ground arith)
  | inr e ↦ inl (ground arith)
]

module _ {F : Type 0} ⦃fl : Float64 F⦄ (c : Counting F) where
  -- Calls of one client at one instant, and how many of them pass.
  unfoldable pub calls_at : ℕ → RateLimiter F → String → Time → RateLimiter F × ℕ
  calls_at zero rl key now = (rl, 0)
  calls_at (suc n) rl key now =
      let r = calls_at n rl key now in
      let a = allow c r.0 key now now in (a.0, if a.1 then suc r.1 else r.1)

  sub_self : (t : Time) → sub t t ≡ pos 0
  sub_self t = ground arith

  not_above : (m n : ℕ) → m ≤ n → n ≤ 2 ^ 53 → fl.lt (c.count (pos n)) (c.count (pos m)) ≡ false
  not_above m n h k = elim (le_cases m n h) [
    | inl e ↦ rw e (fl.lt_irrefl (c.count (pos n)))
    | inr l ↦
        le→not_lt (c.count (pos m)) (c.count (pos n))
          (lt→le (c.count (pos m)) (c.count (pos n)) (c.count_lt m n l k))
  ]

  -- At one instant a bucket with `n` tokens is left as it is by the refill.
  refilled_still :
      (rl : RateLimiter F) (n cap : ℕ) (now : Time)
      → rl.capacity ≡ pos cap
      → n ≤ cap
      → cap ≤ 2 ^ 53
      → c.finite rl.rate ≡ true
      → refilled c rl (record { tokens = c.count (pos n); last_check = now }) now ≡ c.count (pos n)
  unfolding refilled
  refilled_still rl n cap now e h k f =
      rw (sub_self now, e)
        (rw (c.no_time n rl.rate (omega (arith, h, k)) f) (rw (not_above n cap h k) refl))

  -- The limiter `rl` has `n` tokens for the key at this instant.
  record HasTokens (rl : RateLimiter F) (key : String) (now : Time) (n : ℕ) : Type 0 where
    full :
        bucket_or_full c (rl.buckets key) rl.capacity now
        ≡ record { tokens = c.count (pos n); last_check = now }
    cap : ℕ
    capped : rl.capacity ≡ pos cap
    below : n ≤ cap
    exact : cap ≤ 2 ^ 53
    steady : c.finite rl.rate ≡ true

  one_token : (n : ℕ) → suc n ≤ 2 ^ 53 → fl.le (fl.hundredths 100) (c.count (pos (suc n))) ≡ true
  one_token zero h = rw c.count_one (le_refl (fl.hundredths 100) (fl.hundredths_number 100))
  one_token (suc n) h = rw (sym c.count_one) (
      lt→le (c.count (pos 1)) (c.count (pos (suc (suc n))))
        (c.count_lt 1 (suc (suc n)) (omega arith) h))

  no_token : fl.le (fl.hundredths 100) (c.count (pos 0)) ≡ false
  no_token = elim (Bool-cases (fl.le (fl.hundredths 100) (c.count (pos 0)))) [
    | inl e ↦
        let l : fl.lt (c.count (pos 0)) (fl.hundredths 100) ≡ true =
          rw c.count_one at (c.count_lt 0 1 (omega arith) (omega arith)) in
        let z : true ≡ false = sym l ∙ le→not_lt (fl.hundredths 100) (c.count (pos 0)) e in cc
    | inr e ↦ e
  ]

  -- What `Allow` does, once its bucket and the refill are known.
  allow_spends :
      (rl : RateLimiter F) (key : String) (now : Time) (n : ℕ)
      → HasTokens rl key now n
      → allow c rl key now now ≡ (
        record rl { buckets = put key (some (spent c (c.count (pos n)) now).0) rl.buckets },
        (spent c (c.count (pos n)) now).1,
      )
  unfolding allow
  allow_spends rl key now n h =
      rw h.full (rw (refilled_still rl n h.cap now h.capped h.below h.exact h.steady) refl)

  allow_passes :
      (rl : RateLimiter F) (key : String) (now : Time) (n : ℕ)
      → HasTokens rl key now (suc n)
      → ((allow c rl key now now).1 ≡ true)
        × HasTokens (allow c rl key now now).0 key now n
        × ((allow c rl key now now).0.capacity ≡ rl.capacity)
  allow_passes rl key now n h =
      let e : spent c (c.count (pos (suc n))) now
          ≡ (record { tokens = c.count (pos n); last_check = now }, true) =
        rw (one_token n (omega (arith, h.below, h.exact)))
          (rw (c.less_one_count n (omega (arith, h.below, h.exact))) refl) in
      rw (allow_spends rl key now (suc n) h) (
        rw e (
          refl,
          record {
            full = rw (str_eq_refl key) refl;
            cap = h.cap;
            capped = h.capped;
            below = omega (arith, h.below);
            exact = h.exact;
            steady = h.steady;
          },
          refl,
        ))

  allow_refuses :
      (rl : RateLimiter F) (key : String) (now : Time)
      → HasTokens rl key now 0
      → ((allow c rl key now now).1 ≡ false)
        × HasTokens (allow c rl key now now).0 key now 0
        × ((allow c rl key now now).0.capacity ≡ rl.capacity)
  allow_refuses rl key now h =
      let e : spent c (c.count (pos 0)) now
          ≡ (record { tokens = c.count (pos 0); last_check = now }, false) =
        rw no_token refl in
      rw (allow_spends rl key now 0 h) (
        rw e (
          refl,
          record {
            full = rw (str_eq_refl key) refl;
            cap = h.cap;
            capped = h.capped;
            below = h.below;
            exact = h.exact;
            steady = h.steady;
          },
          refl,
        ))

  -- After `m` calls that began with `n` tokens.
  record IsSpent (m n : ℕ) (key : String) (now : Time) (r : RateLimiter F × ℕ) : Type 0 where
    left : ℕ
    holds : HasTokens r.0 key now left
    remains : left ≡ n - m
    passed : r.1 ≡ min m n

  one_more :
      (m n left : ℕ) (key : String) (now : Time) (r : RateLimiter F × ℕ)
      → HasTokens r.0 key now left
      → left ≡ n - m
      → r.1 ≡ min m n
      → IsSpent
          (suc m)
          n
          key
          now
          ((allow c r.0 key now now).0, if (allow c r.0 key now now).1 then suc r.1 else r.1)
  one_more m n zero key now r h e p =
      let a = allow_refuses r.0 key now h in
      record { left = 0; holds = a.1; remains = omega arith; passed = rw a.0 (omega arith) }
  one_more m n (suc left) key now r h e p =
      let a = allow_passes r.0 key now left h in
      record { left = left; holds = a.1; remains = omega arith; passed = rw a.0 (omega arith) }

  calls_at-IsSpent :
      (m n : ℕ) (rl : RateLimiter F) (key : String) (now : Time)
      → HasTokens rl key now n
      → IsSpent m n key now (calls_at m rl key now)
  unfolding calls_at
  calls_at-IsSpent zero n rl key now h = record {
    left = n;
    holds = h;
    remains = omega arith;
    passed = omega arith;
  }
  calls_at-IsSpent (suc m) n rl key now h =
      let s = calls_at-IsSpent m n rl key now h in
      one_more m n s.left key now (calls_at m rl key now) s.holds s.remains s.passed

  -- Of any number of requests of one client at one instant, the first ones pass, as many as the capacity, and the others
  -- are refused: at a finite rate, a capacity from 0 to 2^53, and a client that has no bucket yet.
  pub calls_at_burst :
      (m cap : ℕ) (rl : RateLimiter F) (key : String) (now : Time)
      → rl.buckets key ≡ none
      → rl.capacity ≡ pos cap
      → cap ≤ 2 ^ 53
      → c.finite rl.rate ≡ true
      → (calls_at m rl key now).1 ≡ min m cap
  calls_at_burst m cap rl key now h e k f =
      (calls_at-IsSpent m cap rl key now (record {
        full = rw (h, e) refl;
        cap = cap;
        capped = e;
        below = omega arith;
        exact = k;
        steady = f;
      })).passed
