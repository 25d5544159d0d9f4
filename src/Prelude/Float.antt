-- ===== src/Prelude/Float.antt =====
-- IEEE 754 binary64, Go's `float64`: the operations that the program uses and the documented facts
-- that the proofs use, over any carrier. `eq` is `==` and a NaN is what is not equal to itself; every
-- fact holds of NaN, of both zeros and of both infinities, where its premises do.
-- `hundredths n` is the constant that Go reads for n/100.
pub mod Milli
use Prim.Native.Nat.{ℕ, ◌+◌, ◌*◌, ◌/◌, ◌≤◌, ◌<◌}
use mathlib.Core.Path.{◌≡◌, refl}
use mathlib.Core.Logic.{◌⊎◌}
use mathlib.Core.Bool.{Bool, true, false, ◌||◌}
use native.Mathlib.Omega.{arith}
use nous.Prelude.Tests.{ltb, leb, ◌==◌, if◌then◌else◌}

pub record Float64 (F : Type 0) : Type 0 where
  pub lt : F → F → Bool
  pub le : F → F → Bool
  pub eq : F → F → Bool
  pub add : F → F → F
  pub mul : F → F → F
  pub hundredths : ℕ → F
  -- the order
  pub le_def : (a b : F) → le a b ≡ (lt a b || eq a b)
  pub lt_irrefl : (a : F) → lt a a ≡ false
  pub lt_trans : (a b c : F) → lt a b ≡ true → lt b c ≡ true → lt a c ≡ true
  pub lt_le_trans : (a b c : F) → lt a b ≡ true → le b c ≡ true → lt a c ≡ true
  pub le_lt_trans : (a b c : F) → le a b ≡ true → lt b c ≡ true → lt a c ≡ true
  pub le_trans : (a b c : F) → le a b ≡ true → le b c ≡ true → le a c ≡ true
  pub lt_ordered : (a b : F) → lt a b ≡ true → (eq a a ≡ true) × (eq b b ≡ true)
  pub le_total : (a b : F) → eq a a ≡ true → eq b b ≡ true → lt a b ≡ false → le b a ≡ true
  pub eq_sym : (a b : F) → eq a b ≡ true → eq b a ≡ true
  -- the rounded operations
  pub add_grows :
      (a b : F)
      → le (hundredths 0) a ≡ true
      → le (hundredths 0) b ≡ true
      → (le a (add a b) ≡ true) × (le b (add a b) ≡ true)
  pub add_mono :
      (a b c d : F)
      → le (hundredths 0) a ≡ true
      → le (hundredths 0) c ≡ true
      → le a b ≡ true
      → le c d ≡ true
      → le (add a c) (add b d) ≡ true
  pub mul_unit :
      (a b : F)
      → le (hundredths 0) a ≡ true
      → le a (hundredths 100) ≡ true
      → le (hundredths 0) b ≡ true
      → le b (hundredths 100) ≡ true
      → (le (hundredths 0) (mul a b) ≡ true) × (le (mul a b) b ≡ true)
  -- the constants
  pub hundredths_lt : (m n : ℕ) → m < n → n ≤ 1000 → lt (hundredths m) (hundredths n) ≡ true
  pub hundredths_number : (n : ℕ) → eq (hundredths n) (hundredths n) ≡ true
  pub hundredths_add :
      (m n : ℕ)
      → m + n ≤ 900
      → lt (add (hundredths m) (hundredths n)) (hundredths (m + n + 1)) ≡ true

module _ {F : Type 0} ⦃fl : Float64 F⦄ where
  -- A number, and not NaN.
  abbrev pub IsNumber : F → Type 0
  IsNumber a = fl.eq a a ≡ true

  -- A number between 0 and 1.
  abbrev pub InUnit : F → Type 0
  InUnit a = (fl.le (fl.hundredths 0) a ≡ true) × (fl.le a (fl.hundredths 100) ≡ true)

  pub le_refl : (a : F) → IsNumber a → fl.le a a ≡ true
  le_refl a h = ground (arith, fl.le_def a a)

  pub lt→le : (a b : F) → fl.lt a b ≡ true → fl.le a b ≡ true
  lt→le a b h = ground (arith, fl.le_def a b)

  -- What is below something is not above it.
  pub le→not_lt : (a b : F) → fl.le a b ≡ true → fl.lt b a ≡ false
  le→not_lt a b h = ground (arith, fl.le_lt_trans a b a h, fl.lt_irrefl a)

module _ {F : Type 0} (fl : Float64 F) where
  pub hundredths_le :
      (m n : ℕ) → m ≤ n → n ≤ 1000 → fl.le (fl.hundredths m) (fl.hundredths n) ≡ true
  hundredths_le m n h k = grind (arith, fl.le_def, fl.hundredths_number, fl.hundredths_lt)

module _ {F : Type 0} ⦃fl : Float64 F⦄ where
  -- `x < 0 || x > 1`
  abbrev pub outside_unit : F → Bool
  outside_unit x = fl.lt x (fl.hundredths 0) || fl.lt (fl.hundredths 100) x

  -- The test passes exactly the numbers between 0 and 1, and NaN.
  pub outside_unit→InUnit : (x : F) → IsNumber x → outside_unit x ≡ false → InUnit x
  outside_unit→InUnit x n h = ground (
    arith,
    fl.le_total x (fl.hundredths 0),
    fl.le_total (fl.hundredths 100) x,
    fl.hundredths_number 0,
    fl.hundredths_number 100,
  )

  pub InUnit→outside_unit : (x : F) → InUnit x → outside_unit x ≡ false
  InUnit→outside_unit x h =
      ground (arith, le→not_lt (fl.hundredths 0) x, le→not_lt x (fl.hundredths 100))

  pub InUnit-IsNumber : (x : F) → InUnit x → IsNumber x
  InUnit-IsNumber x h =
      let z : fl.lt (fl.hundredths 0) (fl.hundredths 101) ≡ true =
        fl.hundredths_lt 0 101 (omega arith) (omega arith) in
      let o : fl.lt (fl.hundredths 100) (fl.hundredths 101) ≡ true =
        fl.hundredths_lt 100 101 (omega arith) (omega arith) in
      (fl.lt_ordered x (fl.hundredths 101)
        (fl.le_lt_trans x (fl.hundredths 100) (fl.hundredths 101) h.1 o)).0

module _ {F : Type 0} (fl : Float64 F) where
  pub zero_in_unit : outside_unit ⦃fl = fl⦄ (fl.hundredths 0) ≡ false
  zero_in_unit = InUnit→outside_unit ⦃fl = fl⦄ (fl.hundredths 0) (
    hundredths_le fl 0 0 (omega arith) (omega arith),
    hundredths_le fl 0 100 (omega arith) (omega arith),
  )
