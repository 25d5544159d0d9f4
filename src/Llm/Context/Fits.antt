-- ===== src/Llm/Context/Fits.antt =====
-- internal/llm/context_window.go, `FitText`: what comes out fits, and what fits stays as it is.
use Prim.Native.Char.{Char}
use Prim.Native.String.{◌++◌ as append}
use text.Mathlib.TextLemmas.{nil-append, cons-append}
use nous.Prelude.{
  ℕ, zero, suc, ◌+◌, ◌-◌, ◌*◌, ◌/◌, ◌≤◌, ◌<◌, String, ◌≡◌, refl, sym, arith, leb, leb→le, ◌==◌,
  Bool-cases, if◌then◌else◌, inl, inr, cons_not_empty,
}
use nous.Prelude.Int.{ℤ, pos, negsuc, pos_part, sub_ℤ}
use nous.Llm.Context.{
  runes, estimate_tokens, ContextBudget, available, split_rune, first_runes, skip_runes,
  trim_left_split, trim_right_split, keep_split, marker, elide, fit_in, fit_text,
}

runes-append : (s t : String) → runes (append s t) ≡ runes s + runes t
runes-append String.[] t = rw (nil-append t) (omega arith)
runes-append (String.◌∷◌ c s) t = rw (cons-append c s t) (omega (arith, runes-append s t))

first_runes_le : (n : ℕ) (s : String) → runes (first_runes n s) ≤ n
unfolding first_runes
first_runes_le zero s = omega arith
first_runes_le (suc n) String.[] = omega arith
first_runes_le (suc n) (String.◌∷◌ c s) = omega (arith, first_runes_le n s)

skip_runes_le : (n : ℕ) (s : String) → runes (skip_runes n s) ≤ runes s - n
unfolding skip_runes
skip_runes_le zero s = omega arith
skip_runes_le (suc n) String.[] = omega arith
skip_runes_le (suc n) (String.◌∷◌ c s) = omega (arith, skip_runes_le n s)

trim_left_split_le : (s : String) → runes (trim_left_split s) ≤ runes s
unfolding trim_left_split
trim_left_split_le String.[] = omega arith
trim_left_split_le (String.◌∷◌ c s) = ground (arith, trim_left_split_le s)

keep_split_le : (c : Char) (s : String) → runes (keep_split c s) ≤ suc (runes s)
keep_split_le c String.[] = elim (Bool-cases (split_rune c)) [
  | inl e ↦ rw e (omega arith)
  | inr e ↦ rw e (omega arith)
]
keep_split_le c (String.◌∷◌ d s) = omega arith

trim_right_split_le : (s : String) → runes (trim_right_split s) ≤ runes s
unfolding trim_right_split
trim_right_split_le String.[] = omega arith
trim_right_split_le (String.◌∷◌ c s) =
    omega (arith, keep_split_le c (trim_right_split s), trim_right_split_le s)

-- The estimate is the count divided by 4 and rounded up.
pub estimate_lem : (s : String) → estimate_tokens s ≡ (runes s + 3) / 4
unfolding estimate_tokens
estimate_lem String.[] = refl
estimate_lem (String.◌∷◌ c s) = rw (cons_not_empty c s) refl

-- What is kept has at most `keep_chars` runes and the marker.
pub elide_le :
    (keep_chars : ℕ) (input : String)
    → keep_chars < runes input
    → runes (elide keep_chars input) ≤ keep_chars + 5
unfolding elide
elide_le k s h =
    let head = first_runes (k / 3) s in
    let tail = skip_runes (runes s - (k - k / 3)) s in
    elim (Bool-cases (leb (runes s) (k / 3 + (k - k / 3)))) [
      | inl e ↦ absurd (omega (arith, leb→le (runes s) (k / 3 + (k - k / 3)) e))
      | inr e ↦ rw e (
          rw
            (
              runes-append (trim_right_split head) (append marker (trim_left_split tail)),
              runes-append marker (trim_left_split tail),
            )
            (omega (
              arith,
              trim_right_split_le head,
              trim_left_split_le tail,
              first_runes_le (k / 3) s,
              skip_runes_le (runes s - (k - k / 3)) s,
            )))
    ]

estimate_zero : (s : String) → estimate_tokens s ≡ 0 → s ≡ ""
estimate_zero String.[] h = refl
estimate_zero (String.◌∷◌ c s) h = absurd (omega (arith, estimate_lem (String.◌∷◌ c s)))

estimate_mono : (s : String) (n : ℕ) → runes s ≤ 4 * n → estimate_tokens s ≤ n
estimate_mono s n h = omega (arith, estimate_lem s)

marker_tokens : estimate_tokens marker ≡ 2
unfolding estimate_tokens
marker_tokens = refl

fit_in_negative : (n : ℕ) (input : String) → fit_in (negsuc n) input ≡ ""
unfolding fit_in
fit_in_negative n input = ground arith

pub fit_in_positive :
    (n : ℕ) (input : String)
    → fit_in (pos n) input ≡ (
        if n == 0
        then ""
        else if leb (estimate_tokens input) n
        then input
        else if leb n 2
        then ""
        else elide ((n - 2) * 4) input)
unfolding fit_in
fit_in_positive n input = rw marker_tokens (ground arith)

elide_fits :
    (n : ℕ) (input : String)
    → 2 < n
    → n < estimate_tokens input
    → estimate_tokens (elide ((n - 2) * 4) input) ≤ n
elide_fits n input h k =
    estimate_mono (elide ((n - 2) * 4) input) n
      (omega (arith, elide_le ((n - 2) * 4) input (omega (arith, estimate_lem input))))

empty_fits : (n : ℕ) → estimate_tokens "" ≤ n
unfolding estimate_tokens
empty_fits n = omega arith

fit_in_fits :
    (room : ℤ) (input : String)
    → (estimate_tokens (fit_in room input) ≤ pos_part room)
      × (estimate_tokens input ≤ pos_part room → fit_in room input ≡ input)
fit_in_fits (negsuc n) input =
    rw (fit_in_negative n input) (empty_fits 0, λ h. sym (estimate_zero input (omega arith)))
fit_in_fits (pos n) input =
    rw (fit_in_positive n input)
      (ground (arith, empty_fits n, elide_fits n input, estimate_zero input))

-- The result fits in the window that the budget and the overhead leave, by the estimate of the code; it is
-- empty where nothing is left. A text that fits comes out unchanged.
pub fit_text-fits :
    (input : String) (overhead : ℤ) (budget : ContextBudget)
    → (estimate_tokens (fit_text input overhead budget)
        ≤ pos_part (sub_ℤ (available budget) overhead))
      × (estimate_tokens input ≤ pos_part (sub_ℤ (available budget) overhead)
          → fit_text input overhead budget ≡ input)
unfolding fit_text
fit_text-fits input overhead budget = fit_in_fits (sub_ℤ (available budget) overhead) input
