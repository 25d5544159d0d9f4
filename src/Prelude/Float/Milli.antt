-- ===== src/Prelude/Float/Milli.antt =====
-- A float that shows that the facts of `Float64` can be met together, for the worked examples: NaN,
-- and the numbers from 0 in thousandths.
use Prim.Native.Nat.{ℕ, ◌+◌, ◌*◌, ◌/◌, ◌≤◌, ◌<◌}
use mathlib.Core.Path.{◌≡◌, refl}
use mathlib.Core.Bool.{Bool, true, false, ◌||◌}
use native.Mathlib.Omega.{arith}
use nous.Prelude.Tests.{ltb, leb, ◌==◌}
use nous.Prelude.Float.{Float64}

pub data Milli : Type 0 where
  nan : Milli
  num : ℕ → Milli

abbrev pub lt_milli : Milli → Milli → Bool
lt_milli (num a) (num b) = ltb a b
lt_milli _ _ = false

abbrev pub le_milli : Milli → Milli → Bool
le_milli (num a) (num b) = leb a b
le_milli _ _ = false

abbrev pub eq_milli : Milli → Milli → Bool
eq_milli (num a) (num b) = a == b
eq_milli _ _ = false

abbrev pub add_milli : Milli → Milli → Milli
add_milli (num a) (num b) = num (a + b)
add_milli _ _ = nan

abbrev pub mul_milli : Milli → Milli → Milli
mul_milli (num a) (num b) = num (a * b / 1000)
mul_milli _ _ = nan

mul_le_thousand : (a b : ℕ) → a ≤ 1000 → a * b ≤ 1000 * b
mul_le_thousand a b h = grind arith

mul-div_le : (a b : ℕ) → a ≤ 1000 → a * b / 1000 ≤ b
mul-div_le a b h = omega (arith, mul_le_thousand a b h)

pub le_def_milli : (a b : Milli) → le_milli a b ≡ (lt_milli a b || eq_milli a b)
le_def_milli (num a) (num b) = ground arith
le_def_milli nan b = refl
le_def_milli (num a) nan = refl

pub lt_irrefl_milli : (a : Milli) → lt_milli a a ≡ false
lt_irrefl_milli a = ground arith

pub lt_trans_milli :
    (a b c : Milli) → lt_milli a b ≡ true → lt_milli b c ≡ true → lt_milli a c ≡ true
lt_trans_milli a b c h k = ground arith

pub lt_le_trans_milli :
    (a b c : Milli) → lt_milli a b ≡ true → le_milli b c ≡ true → lt_milli a c ≡ true
lt_le_trans_milli a b c h k = ground arith

pub le_lt_trans_milli :
    (a b c : Milli) → le_milli a b ≡ true → lt_milli b c ≡ true → lt_milli a c ≡ true
le_lt_trans_milli a b c h k = ground arith

pub le_trans_milli :
    (a b c : Milli) → le_milli a b ≡ true → le_milli b c ≡ true → le_milli a c ≡ true
le_trans_milli a b c h k = ground arith

pub lt_ordered_milli :
    (a b : Milli) → lt_milli a b ≡ true → (eq_milli a a ≡ true) × (eq_milli b b ≡ true)
lt_ordered_milli a b h = ground arith

pub le_total_milli :
    (a b : Milli)
    → eq_milli a a ≡ true
    → eq_milli b b ≡ true
    → lt_milli a b ≡ false
    → le_milli b a ≡ true
le_total_milli a b h k l = ground arith

pub eq_sym_milli : (a b : Milli) → eq_milli a b ≡ true → eq_milli b a ≡ true
eq_sym_milli a b h = ground arith

abbrev pub hundredths_milli : ℕ → Milli
hundredths_milli n = num (10 * n)

pub add_grows_milli :
    (a b : Milli)
    → le_milli (hundredths_milli 0) a ≡ true
    → le_milli (hundredths_milli 0) b ≡ true
    → (le_milli a (add_milli a b) ≡ true) × (le_milli b (add_milli a b) ≡ true)
add_grows_milli a b h k = ground arith

pub add_mono_milli :
    (a b c d : Milli)
    → le_milli (hundredths_milli 0) a ≡ true
    → le_milli (hundredths_milli 0) c ≡ true
    → le_milli a b ≡ true
    → le_milli c d ≡ true
    → le_milli (add_milli a c) (add_milli b d) ≡ true
add_mono_milli a b c d h k l m = ground arith

pub mul_unit_milli :
    (a b : Milli)
    → le_milli (hundredths_milli 0) a ≡ true
    → le_milli a (hundredths_milli 100) ≡ true
    → le_milli (hundredths_milli 0) b ≡ true
    → le_milli b (hundredths_milli 100) ≡ true
    → (le_milli (hundredths_milli 0) (mul_milli a b) ≡ true) × (le_milli (mul_milli a b) b ≡ true)
mul_unit_milli nan b h k l m = cc
mul_unit_milli (num a) nan h k l m = cc
mul_unit_milli (num a) (num b) h k l m = ground (arith, mul-div_le a b)

pub hundredths_lt_milli :
    (m n : ℕ) → m < n → n ≤ 1000 → lt_milli (hundredths_milli m) (hundredths_milli n) ≡ true
hundredths_lt_milli m n h k = ground arith

pub hundredths_number_milli : (n : ℕ) → eq_milli (hundredths_milli n) (hundredths_milli n) ≡ true
hundredths_number_milli n = ground arith

pub hundredths_add_milli :
    (m n : ℕ)
    → m + n ≤ 900
    → lt_milli (add_milli (hundredths_milli m) (hundredths_milli n)) (hundredths_milli (m + n + 1))
      ≡ true
hundredths_add_milli m n h = ground arith

instance abbrev pub milli_float : Float64 Milli
milli_float = record {
  lt = lt_milli;
  le = le_milli;
  eq = eq_milli;
  add = add_milli;
  mul = mul_milli;
  hundredths = hundredths_milli;
  le_def = le_def_milli;
  lt_irrefl = lt_irrefl_milli;
  lt_trans = lt_trans_milli;
  lt_le_trans = lt_le_trans_milli;
  le_lt_trans = le_lt_trans_milli;
  le_trans = le_trans_milli;
  lt_ordered = lt_ordered_milli;
  le_total = le_total_milli;
  eq_sym = eq_sym_milli;
  add_grows = add_grows_milli;
  add_mono = add_mono_milli;
  mul_unit = mul_unit_milli;
  hundredths_lt = hundredths_lt_milli;
  hundredths_number = hundredths_number_milli;
  hundredths_add = hundredths_add_milli;
}
