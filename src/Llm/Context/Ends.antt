-- ===== src/Llm/Context/Ends.antt =====
-- internal/llm/context_window.go, `FitText`: what is kept of a text that does not fit.
use Prim.Native.Char.{Char}
use Prim.Native.String.{◌++◌ as append}
use text.Mathlib.TextLemmas.{nil-append, cons-append, append_assoc}
use nous.Prelude.{
  ℕ, zero, suc, ◌+◌, ◌-◌, ◌*◌, ◌/◌, ◌<◌, true, String, ◌≡◌, refl, sym, ap, ◌∙◌, arith, leb, leb→le,
  Bool-cases, inl, inr,
}
use nous.Prelude.Int.{ℤ, pos, pos_part, sub_ℤ}
use nous.Llm.Context.{
  runes, estimate_tokens, ContextBudget, available, split_rune, first_runes, skip_runes,
  trim_left_split, trim_right_split, keep_split, marker, elide, fit_in, fit_text,
}
use nous.Llm.Context.Fits.{fit_in_positive, estimate_lem}

-- A text with no space, newline, tab, full stop or comma.
abbrev pub IsUnbroken : String → Type 0
IsUnbroken String.[] = Unit
IsUnbroken (String.◌∷◌ c s) = (split_rune c ≡ true) × IsUnbroken s

first_runes-IsUnbroken : (n : ℕ) (s : String) → IsUnbroken s → IsUnbroken (first_runes n s)
unfolding first_runes
first_runes-IsUnbroken zero s h = tt
first_runes-IsUnbroken (suc n) String.[] h = tt
first_runes-IsUnbroken (suc n) (String.◌∷◌ c s) h = (h.0, first_runes-IsUnbroken n s h.1)

skip_runes-IsUnbroken : (n : ℕ) (s : String) → IsUnbroken s → IsUnbroken (skip_runes n s)
unfolding skip_runes
skip_runes-IsUnbroken zero s h = h
skip_runes-IsUnbroken (suc n) String.[] h = tt
skip_runes-IsUnbroken (suc n) (String.◌∷◌ c s) h = skip_runes-IsUnbroken n s h.1

trim_left_split_none : (s : String) → IsUnbroken s → trim_left_split s ≡ ""
unfolding trim_left_split
trim_left_split_none String.[] h = refl
trim_left_split_none (String.◌∷◌ c s) h = rw h.0 (trim_left_split_none s h.1)

trim_right_split_none : (s : String) → IsUnbroken s → trim_right_split s ≡ ""
unfolding trim_right_split
trim_right_split_none String.[] h = refl
trim_right_split_none (String.◌∷◌ c s) h = rw (trim_right_split_none s h.1) (rw h.0 refl)

-- Where the loop of `elide` cuts, once the text is longer than what is kept.
elide_lem :
    (k : ℕ) (s : String)
    → k < runes s
    → elide k s
      ≡ append
          (trim_right_split (first_runes (k / 3) s))
          (append marker (trim_left_split (skip_runes (runes s - (k - k / 3)) s)))
unfolding elide
elide_lem k s h = elim (Bool-cases (leb (runes s) (k / 3 + (k - k / 3)))) [
  | inl e ↦ absurd (omega (arith, leb→le (runes s) (k / 3 + (k - k / 3)) e))
  | inr e ↦ rw e refl
]

elide_unbroken : (k : ℕ) (s : String) → k < runes s → IsUnbroken s → elide k s ≡ marker
elide_unbroken k s h u = rw (elide_lem k s h) (
    rw
      (
        trim_right_split_none (first_runes (k / 3) s) (first_runes-IsUnbroken (k / 3) s u),
        trim_left_split_none (skip_runes (runes s - (k - k / 3)) s)
            (skip_runes-IsUnbroken (runes s - (k - k / 3)) s u),
      )
      refl)

-- More than the marker's two tokens are left, and the text does not fit.
abbrev pub IsCut : ℤ → String → Type 0
IsCut room input = (2 < pos_part room) × (pos_part room < estimate_tokens input)

-- The code's own test for a text that is no longer than what is kept never holds.
fit_in_cut :
    (room : ℤ) (s : String) → IsCut room s → fit_in room s ≡ elide ((pos_part room - 2) * 4) s
fit_in_cut (ℤ.negsuc n) s h = absurd (omega arith)
fit_in_cut (pos n) s h = rw (fit_in_positive n s) (ground arith)

longer : (room : ℤ) (s : String) → IsCut room s → (pos_part room - 2) * 4 < runes s
longer room s h = omega (arith, estimate_lem s)

-- A text that does not fit and has no space, newline, tab, full stop or comma is lost as a whole: what
-- comes out is the marker alone, however many tokens above two are left.
pub fit_text_unbroken :
    (input : String) (overhead : ℤ) (budget : ContextBudget)
    → IsCut (sub_ℤ (available budget) overhead) input
    → IsUnbroken input
    → fit_text input overhead budget ≡ marker
unfolding fit_text
fit_text_unbroken s overhead budget h u =
    let room = sub_ℤ (available budget) overhead in
    fit_in_cut room s h ∙ elide_unbroken ((pos_part room - 2) * 4) s (longer room s h) u

first_skip : (n : ℕ) (s : String) → append (first_runes n s) (skip_runes n s) ≡ s
unfolding first_runes skip_runes
first_skip zero s = nil-append s
first_skip (suc n) String.[] = nil-append ""
first_skip (suc n) (String.◌∷◌ c s) =
    cons-append c (first_runes n s) (skip_runes n s) ∙ ap (String.◌∷◌ c) (first_skip n s)

skip_nothing : (n : ℕ) → skip_runes n "" ≡ ""
unfolding skip_runes
skip_nothing zero = refl
skip_nothing (suc n) = refl

skip_runes_add : (a b : ℕ) (s : String) → skip_runes (a + b) s ≡ skip_runes b (skip_runes a s)
unfolding skip_runes
skip_runes_add zero b s = ap (λ n. skip_runes n s) (omega arith)
skip_runes_add (suc a) b String.[] = skip_nothing (suc a + b) ∙ sym (skip_nothing b)
skip_runes_add (suc a) b (String.◌∷◌ c s) =
    let e : suc a + b ≡ suc (a + b) = omega arith in rw e (skip_runes_add a b s)

-- What trimming takes away at the one end and at the other.
trim_left_split_cut : (s : String) → (y : String) × (append y (trim_left_split s) ≡ s)
unfolding trim_left_split
trim_left_split_cut String.[] = ("", nil-append "")
trim_left_split_cut (String.◌∷◌ c s) = elim (Bool-cases (split_rune c)) [
  | inl e ↦
      let r = trim_left_split_cut s in
      (String.◌∷◌ c r.0, rw e (cons-append c r.0 (trim_left_split s) ∙ ap (String.◌∷◌ c) r.1))
  | inr e ↦ ("", rw e (nil-append (String.◌∷◌ c s)))
]

keep_split_cut :
    (c : Char) (t z : String)
    → (w : String) × (append (keep_split c t) w ≡ String.◌∷◌ c (append t z))
keep_split_cut c String.[] z = elim (Bool-cases (split_rune c)) [
  | inl e ↦ (String.◌∷◌ c z, rw e (rw (nil-append (String.◌∷◌ c z), nil-append z) refl))
  | inr e ↦ (z, rw e (cons-append c "" z))
]
keep_split_cut c (String.◌∷◌ d t) z = (z, cons-append c (String.◌∷◌ d t) z)

trim_right_split_cut : (s : String) → (z : String) × (append (trim_right_split s) z ≡ s)
unfolding trim_right_split
trim_right_split_cut String.[] = ("", nil-append "")
trim_right_split_cut (String.◌∷◌ c s) =
    let r = trim_right_split_cut s in
    let q = keep_split_cut c (trim_right_split s) r.0 in (q.0, q.1 ∙ ap (String.◌∷◌ c) r.1)

join_parts :
    (h z f y t first rest s last : String)
    → append h z ≡ first
    → append y t ≡ last
    → append f last ≡ rest
    → append first rest ≡ s
    → append h (append (append z (append f y)) t) ≡ s
join_parts h z f y t first rest s last e1 e2 e3 e4 =
    rw (append_assoc z (append f y) t, append_assoc f y t)
      (rw e2 (rw e3 (sym (append_assoc h z rest) ∙ ap (λ v. append v rest) e1 ∙ e4)))

-- What stands at the front of a text and what stands at its end, a middle apart.
pub record IsEnds (s h t : String) : Type 0 where
  pub middle : String
  pub splits : append h (append middle t) ≡ s

-- The first part, trimmed, and what is left behind a later place, trimmed, do not overlap.
IsEnds-cut :
    (a b : ℕ) (s : String)
    → IsEnds s (trim_right_split (first_runes a s)) (trim_left_split (skip_runes (a + b) s))
IsEnds-cut a b s =
    let r = trim_right_split_cut (first_runes a s) in
    let rest = skip_runes a s in
    let l = trim_left_split_cut (skip_runes b rest) in
    rw (skip_runes_add a b s) record {
      middle = append r.0 (append (first_runes b rest) l.0);
      splits =
          join_parts (trim_right_split (first_runes a s)) r.0 (first_runes b rest) l.0
            (trim_left_split (skip_runes b rest)) (first_runes a s) rest s (skip_runes b rest) r.1
            l.1 (first_skip b rest) (first_skip a s);
    }

elide-IsEnds :
    (k : ℕ) (s : String)
    → k < runes s
    → (h : String) × (t : String) × IsEnds s h t × (elide k s ≡ append h (append marker t))
elide-IsEnds k s h =
    let e : k / 3 + (runes s - (k - k / 3) - k / 3) ≡ runes s - (k - k / 3) = omega arith in
    (
      trim_right_split (first_runes (k / 3) s),
      trim_left_split (skip_runes (runes s - (k - k / 3)) s),
      rw e at (IsEnds-cut (k / 3) (runes s - (k - k / 3) - k / 3) s),
      elide_lem k s h,
    )

-- Of a text that does not fit, where more than two tokens are left, comes out a part from its front, the
-- marker, and a part from its end, which do not overlap.
pub fit_text-IsEnds :
    (input : String) (overhead : ℤ) (budget : ContextBudget)
    → IsCut (sub_ℤ (available budget) overhead) input
    → (h : String) × (t : String) × IsEnds input h t
      × (fit_text input overhead budget ≡ append h (append marker t))
unfolding fit_text
fit_text-IsEnds s overhead budget h =
    let room = sub_ℤ (available budget) overhead in
    let r = elide-IsEnds ((pos_part room - 2) * 4) s (longer room s h) in
    (r.0, r.1, r.2, fit_in_cut room s h ∙ r.3)
