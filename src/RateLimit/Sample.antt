-- ===== src/RateLimit/Sample.antt =====
-- Counts in thousandths, which show that what `Counting` asks of float64 can be met, for the worked examples.
use nous.Prelude.{ℕ, suc, ◌-◌, ◌*◌, ◌/◌, ◌^◌, ◌≤◌, ◌<◌, Bool, true, false, ◌≡◌, refl, ap, arith}
use nous.Prelude.Int.{ℤ, pos, negsuc}
use nous.Prelude.Time.{Duration}
use nous.Prelude.Float.Milli.{
  Milli, nan, num, milli_float, lt_milli, eq_milli, add_milli, mul_milli,
}
use nous.RateLimit.{Counting}

abbrev less_one_milli : Milli → Milli
less_one_milli nan = nan
less_one_milli (num a) = num (a - 1000)

abbrev seconds_milli : Duration → Milli
seconds_milli (pos n) = num (n / 1_000_000)
seconds_milli (negsuc n) = nan

abbrev finite_milli : Milli → Bool
finite_milli nan = false
finite_milli (num a) = true

abbrev count_milli : ℤ → Milli
count_milli (pos n) = num (1000 * n)
count_milli (negsuc n) = num 0

pub count_lt_milli :
    (m n : ℕ) → m < n → n ≤ 2 ^ 53 → lt_milli (count_milli (pos m)) (count_milli (pos n)) ≡ true
count_lt_milli m n h k = ground arith

pub count_number_milli : (n : ℕ) → eq_milli (count_milli (pos n)) (count_milli (pos n)) ≡ true
count_number_milli n = ground arith

pub less_one_count_milli :
    (n : ℕ) → suc n ≤ 2 ^ 53 → less_one_milli (count_milli (pos (suc n))) ≡ count_milli (pos n)
less_one_count_milli n h = ap num (omega arith)

pub no_time_milli :
    (n : ℕ) (rate : Milli)
    → n ≤ 2 ^ 53
    → finite_milli rate ≡ true
    → add_milli (count_milli (pos n)) (mul_milli (seconds_milli (pos 0)) rate) ≡ count_milli (pos n)
no_time_milli n nan h f = cc
no_time_milli n (num r) h f = ap num (omega arith)

abbrev pub counted_milli : Counting Milli
counted_milli = record {
  count = count_milli;
  less_one = less_one_milli;
  seconds = seconds_milli;
  finite = finite_milli;
  count_one = refl;
  count_lt = count_lt_milli;
  count_number = count_number_milli;
  less_one_count = less_one_count_milli;
  no_time = no_time_milli;
}
