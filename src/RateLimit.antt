-- ===== src/RateLimit.antt =====
-- internal/transport/http/ratelimit.go: a token bucket for each client. `time.Now` is read when a bucket is made and
-- again to fill it up, so both instants are arguments. The mutex makes `Allow` and `Cleanup` one step each. The map is a
-- function. What the counting asks of float64 beyond its order is in `Counting`.
pub mod Burst
pub mod Sample
use nous.Prelude.{
  ℕ, suc, ◌+◌, ◌-◌, ◌^◌, ◌≤◌, ◌<◌, Bool, true, false, Option, none, some, String, List, [], ◌∷◌,
  if◌then◌else◌, ◌≡◌, str_eq,
}
use nous.Prelude.Int.{ℤ, pos, ltb_ℤ}
use nous.Prelude.Time.{Time, Duration, sub}
use nous.Prelude.Float.{Float64}

-- `count n` is `float64(n)`, `less_one x` is `x--`, `seconds` is `Duration.Seconds`. Whole numbers up to 2^53 are exact, and no
-- time adds nothing at a finite rate.
pub record Counting (F : Type 0) ⦃fl : Float64 F⦄ : Type 0 where
  pub count : ℤ → F
  pub less_one : F → F
  pub seconds : Duration → F
  pub finite : F → Bool
  pub count_one : count (pos 1) ≡ fl.hundredths 100
  pub count_lt : (m n : ℕ) → m < n → n ≤ 2 ^ 53 → fl.lt (count (pos m)) (count (pos n)) ≡ true
  pub count_number : (n : ℕ) → fl.eq (count (pos n)) (count (pos n)) ≡ true
  pub less_one_count : (n : ℕ) → suc n ≤ 2 ^ 53 → less_one (count (pos (suc n))) ≡ count (pos n)
  pub no_time :
      (n : ℕ) (rate : F)
      → n ≤ 2 ^ 53
      → finite rate ≡ true
      → fl.add (count (pos n)) (fl.mul (seconds (pos 0)) rate) ≡ count (pos n)

pub record Bucket (F : Type 0) : Type 0 where
  pub tokens : F
  pub last_check : Time

pub record RateLimiter (F : Type 0) : Type 0 where
  pub buckets : String → Option (Bucket F)
  pub rate : F
  pub capacity : ℤ

abbrev pub put {ℓ} : {A : Type ℓ} → String → A → (String → A) → String → A
put k a m j = if str_eq j k then a else m j

module _ {F : Type 0} ⦃fl : Float64 F⦄ (counting : Counting F) where
  abbrev pub new_rate_limiter : F → ℤ → RateLimiter F
  new_rate_limiter rate capacity = record { buckets = λ k. none; rate = rate; capacity = capacity }

  -- The bucket of the key, or a full one.
  abbrev pub bucket_or_full : Option (Bucket F) → ℤ → Time → Bucket F
  bucket_or_full none capacity made = record { tokens = counting.count capacity; last_check = made }
  bucket_or_full (some b) capacity made = b

  -- `min`
  abbrev pub least : F → F → F
  least a b = if fl.lt a b then a else b

  unfoldable pub refilled : RateLimiter F → Bucket F → Time → F
  refilled rl b now =
      least (counting.count rl.capacity)
        (fl.add b.tokens (fl.mul (counting.seconds (sub now b.last_check)) rl.rate))

  abbrev pub spent : F → Time → Bucket F × Bool
  spent tokens now =
      if fl.le (fl.hundredths 100) tokens
      then (record { tokens = counting.less_one tokens; last_check = now }, true)
      else (record { tokens = tokens; last_check = now }, false)

  unfoldable pub allow : RateLimiter F → String → Time → Time → RateLimiter F × Bool
  unfolding refilled
  allow rl key made now =
      let b = bucket_or_full (rl.buckets key) rl.capacity made in
      let r = spent (refilled rl b now) now in
      (record rl { buckets = put key (some r.0) rl.buckets }, r.1)

  abbrev fresh_or_none : Option (Bucket F) → Duration → Time → Option (Bucket F)
  fresh_or_none none max_age now = none
  fresh_or_none (some b) max_age now = if ltb_ℤ max_age (sub now b.last_check) then none else some b

  unfoldable pub cleanup : RateLimiter F → Duration → Time → RateLimiter F
  cleanup rl max_age now = record rl { buckets = λ k. fresh_or_none (rl.buckets k) max_age now }

-- What `clientIP` reads; `split_host` is `net.SplitHostPort`, with the host that it gives along with an error.
pub record Request : Type 0 where
  pub forwarded_for : String
  pub real_ip : String
  pub remote_addr : String

abbrev or_whole : Bool × String → String → String
or_whole (true, host) s = host
or_whole (false, host) s = s

unfoldable pub client_ip : (String → Bool × String) → Request → String
client_ip split_host r =
    if str_eq r.forwarded_for ""
    then (if str_eq r.real_ip "" then (split_host r.remote_addr).1 else r.real_ip)
    else or_whole (split_host r.forwarded_for) r.forwarded_for
