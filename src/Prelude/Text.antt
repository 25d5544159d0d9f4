-- ===== src/Prelude/Text.antt =====
-- Go's `strings.TrimSpace` over a text. A Go string that is valid UTF-8 is a native `String`.
use Prim.Native.Char.{Char, code}
use Prim.Native.Nat.{ℕ}
use Prim.Native.String.{String, ◌++◌ as append}
use mathlib.Core.Path.{◌≡◌, refl, sym}
use mathlib.Core.Logic.{inl, inr}
use mathlib.Core.Bool.{Bool, true, false, ◌&&◌, ◌||◌}
use text.Mathlib.Text.{◌==◌ as str_eq}
use text.Mathlib.TextEquality.{eq_iff}
use text.Mathlib.TextPositions.{eq_refl}
use text.Mathlib.TextLemmas.{nil-append, cons-append, cons≢nil}
use nous.Prelude.Tests.{leb, ◌==◌, if◌then◌else◌, Bool-cases}

pub str_eq_refl : (s : String) → str_eq s s ≡ true
str_eq_refl s = eq_refl s

pub cons_not_empty : (c : Char) (s : String) → str_eq (String.◌∷◌ c s) "" ≡ false
cons_not_empty c s = elim (Bool-cases (str_eq (String.◌∷◌ c s) "")) [
  | inl e ↦ absurd (cons≢nil ((eq_iff (String.◌∷◌ c s) "").0 e))
  | inr e ↦ e
]

-- `unicode.IsSpace`: the Latin-1 spaces and the category of the others.
unfoldable pub is_space : Char → Bool
is_space ch =
    let c = code ch in
    (leb 9 c && leb c 13)
    || c == 32
    || c == 0x85
    || c == 0xa0
    || c == 0x1680
    || (leb 0x2000 c && leb c 0x200a)
    || c == 0x2028
    || c == 0x2029
    || c == 0x202f
    || c == 0x205f
    || c == 0x3000

unfoldable pub trim_left : String → String
trim_left String.[] = String.[]
trim_left (String.◌∷◌ c s) = let rest = trim_left s in if is_space c then rest else String.◌∷◌ c s

-- A character is dropped when it is a space and all that follows is dropped.
keep_before : Char → String → String
keep_before c String.[] = if is_space c then String.[] else String.◌∷◌ c String.[]
keep_before c (String.◌∷◌ d s) = String.◌∷◌ c (String.◌∷◌ d s)

unfoldable pub trim_right : String → String
unfolding keep_before
trim_right String.[] = String.[]
trim_right (String.◌∷◌ c s) = keep_before c (trim_right s)

unfoldable pub trim_space : String → String
unfolding trim_left trim_right is_space
trim_space s = trim_right (trim_left s)

-- A text that does not begin with a space.
abbrev pub HeadSolid : String → Type 0
HeadSolid String.[] = Unit
HeadSolid (String.◌∷◌ c s) = is_space c ≡ false

trim_left-HeadSolid : (s : String) → HeadSolid (trim_left s)
unfolding trim_left
trim_left-HeadSolid String.[] = tt
trim_left-HeadSolid (String.◌∷◌ c s) = elim (Bool-cases (is_space c)) [
  | inl e ↦ rw e (trim_left-HeadSolid s)
  | inr e ↦ rw e e
]

pub trim_left_solid : (s : String) → HeadSolid s → trim_left s ≡ s
unfolding trim_left
trim_left_solid String.[] h = refl
trim_left_solid (String.◌∷◌ c s) h = rw h

keep_before-HeadSolid : (c : Char) (s : String) → is_space c ≡ false → HeadSolid (keep_before c s)
unfolding keep_before
keep_before-HeadSolid c String.[] h = rw h h
keep_before-HeadSolid c (String.◌∷◌ d s) h = h

trim_right-HeadSolid : (s : String) → HeadSolid s → HeadSolid (trim_right s)
unfolding trim_right
trim_right-HeadSolid String.[] h = tt
trim_right-HeadSolid (String.◌∷◌ c s) h = keep_before-HeadSolid c (trim_right s) h

keep_before_again :
    (c : Char) (s : String) → trim_right s ≡ s → trim_right (keep_before c s) ≡ keep_before c s
unfolding trim_right keep_before
keep_before_again c String.[] h = elim (Bool-cases (is_space c)) [
  | inl e ↦ rw e
  | inr e ↦ rw e (rw e)
]
keep_before_again c (String.◌∷◌ d s) h = rw h

trim_right_idem : (s : String) → trim_right (trim_right s) ≡ trim_right s
unfolding trim_right
trim_right_idem String.[] = refl
trim_right_idem (String.◌∷◌ c s) = keep_before_again c (trim_right s) (trim_right_idem s)

-- Trimming a trimmed text changes nothing.
pub trim_space_idem : (s : String) → trim_space (trim_space s) ≡ trim_space s
unfolding trim_space
trim_space_idem s =
    rw (trim_left_solid _ (trim_right-HeadSolid _ (trim_left-HeadSolid s)))
      (trim_right_idem (trim_left s))

keep_before_solid : (c : Char) (t : String) → is_space c ≡ false → keep_before c t ≡ String.◌∷◌ c t
unfolding keep_before
keep_before_solid c String.[] h = rw h refl
keep_before_solid c (String.◌∷◌ d t) h = refl

keep_before_more :
    (d : Char) (s t : String) (c : Char)
    → keep_before d (append s (String.◌∷◌ c t)) ≡ String.◌∷◌ d (append s (String.◌∷◌ c t))
unfolding keep_before
keep_before_more d String.[] t c = simp (nil-append) refl
keep_before_more d (String.◌∷◌ e s) t c = simp (cons-append) refl

-- The end of a text is trimmed behind its last character that is no space.
pub trim_right_solid :
    (s : String) (c : Char) (t : String)
    → is_space c ≡ false
    → trim_right (append s (String.◌∷◌ c t)) ≡ append s (String.◌∷◌ c (trim_right t))
unfolding trim_right
trim_right_solid String.[] c t h = simp (nil-append) (keep_before_solid c (trim_right t) h)
trim_right_solid (String.◌∷◌ d s) c t h =
    simp (cons-append) (rw (trim_right_solid s c t h) (keep_before_more d s (trim_right t) c))

-- A space at the end is dropped.
pub trim_right_space :
    (s : String) (c : Char)
    → is_space c ≡ true
    → trim_right (append s (String.◌∷◌ c String.[])) ≡ trim_right s
unfolding trim_right keep_before
trim_right_space String.[] c h = simp (nil-append) (rw h refl)
trim_right_space (String.◌∷◌ d s) c h = simp (cons-append) (rw (trim_right_space s c h) refl)

-- The start of a text is trimmed before its first character that is no space.
pub trim_left_solid_in :
    (s : String) (c : Char) (t : String)
    → is_space c ≡ false
    → trim_left (append s (String.◌∷◌ c t)) ≡ append (trim_left s) (String.◌∷◌ c t)
unfolding trim_left
trim_left_solid_in String.[] c t h = simp (nil-append) (rw h refl)
trim_left_solid_in (String.◌∷◌ d s) c t h = elim (Bool-cases (is_space d)) [
  | inl e ↦ simp (cons-append) (rw e (trim_left_solid_in s c t h))
  | inr e ↦ simp (cons-append) (rw e (sym (cons-append d s (String.◌∷◌ c t))))
]

-- A text without the character that has this number.
abbrev pub Lacks : ℕ → String → Type 0
Lacks n String.[] = Unit
Lacks n (String.◌∷◌ c s) = ((code c == n) ≡ false) × Lacks n s

keep_before-Lacks :
    (n : ℕ) (c : Char) (s : String) → (code c == n) ≡ false → Lacks n s → Lacks n (keep_before c s)
unfolding keep_before
keep_before-Lacks n c String.[] h k = elim (Bool-cases (is_space c)) [
  | inl e ↦ rw e tt
  | inr e ↦ rw e (h, tt)
]
keep_before-Lacks n c (String.◌∷◌ d s) h k = (h, k)

pub trim_right-Lacks : (n : ℕ) (s : String) → Lacks n s → Lacks n (trim_right s)
unfolding trim_right
trim_right-Lacks n String.[] h = tt
trim_right-Lacks n (String.◌∷◌ c s) h =
    keep_before-Lacks n c (trim_right s) h.0 (trim_right-Lacks n s h.1)
