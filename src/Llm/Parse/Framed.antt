-- ===== src/Llm/Parse/Framed.antt =====
-- internal/llm/parse.go, `trimToFirstArray`: the array is found wherever it stands in a reply.
use Prim.Native.Char.{Char}
use Prim.Native.String.{◌++◌ as append}
use text.Mathlib.TextLemmas.{nil-append, cons-append, append_assoc, append-nil}
use nous.Prelude.{
  ℕ, suc, true, false, Option, none, some, String, inl, inr, ◌≡◌, refl, ◌==◌, arith, Bool-cases,
  Option-cases, sym, subst, ◌⊎◌, some_same, ◌&&◌,
}
use nous.Llm.Parse.Brackets.{
  is_open, is_close, depth_after, from_open, close_at, trim_to_first_array,
}

pub ruleset joins = (nil-append, cons-append, append_assoc, append-nil)

pub bracket-append : (s : String) → append "]" s ≡ String.◌∷◌ "]" s
bracket-append s = simp joins at (cons-append "]" String.[] s)

-- A text in which each bracket has its partner.
pub data IsBalanced : String → Type 0 where
  empty : IsBalanced String.[]
  plain :
      (c : Char) (s : String)
      → is_open c ≡ false
      → is_close c ≡ false
      → IsBalanced s
      → IsBalanced (String.◌∷◌ c s)
  group :
      (s t : String)
      → IsBalanced s
      → IsBalanced t
      → {u : String} → u ≡ String.◌∷◌ "[" (append s (String.◌∷◌ "]" t))
      → IsBalanced u

-- A text with no opening bracket.
abbrev pub NoOpen : String → Type 0
NoOpen String.[] = Unit
NoOpen (String.◌∷◌ c s) = (is_open c ≡ false) × NoOpen s

-- An array as it stands in a text.
abbrev pub array_of : String → String
array_of body = String.◌∷◌ "[" (append body "]")

close_at_plain :
    (d : ℕ) (c : Char) (s u : String)
    → is_open c ≡ false
    → is_close c ≡ false
    → close_at d s ≡ some u
    → close_at d (String.◌∷◌ c s) ≡ some (String.◌∷◌ c u)
unfolding close_at
close_at_plain d c s u o k h = ground arith

close_at_open :
    (d : ℕ) (s u : String)
    → close_at (suc d) s ≡ some u
    → close_at d (String.◌∷◌ "[" s) ≡ some (String.◌∷◌ "[" u)
unfolding close_at
close_at_open d s u h = rw h

close_at_close :
    (d : ℕ) (s u : String)
    → close_at (suc d) s ≡ some u
    → close_at (suc (suc d)) (String.◌∷◌ "]" s) ≡ some (String.◌∷◌ "]" u)
unfolding close_at
close_at_close d s u h = ground arith

-- The loop passes over a balanced text and goes on behind it at the same depth.
pub close_at-IsBalanced :
    {s : String} (b : IsBalanced s) (d : ℕ) (rest u : String)
    → close_at (suc d) rest ≡ some u
    → close_at (suc d) (append s rest) ≡ some (append s u)
close_at-IsBalanced IsBalanced.empty d rest u h = simp joins h
close_at-IsBalanced (IsBalanced.plain c s o k b) d rest u h =
    simp joins
      (close_at_plain (suc d) c (append s rest) (append s u) o k (close_at-IsBalanced b d rest u h))
close_at-IsBalanced (IsBalanced.group s t b e q) d rest u h = rw q (
    simp joins (
      close_at_open (suc d) (append s (String.◌∷◌ "]" (append t rest)))
        (append s (String.◌∷◌ "]" (append t u)))
        (close_at-IsBalanced b (suc d) (String.◌∷◌ "]" (append t rest))
          (String.◌∷◌ "]" (append t u))
          (close_at_close d (append t rest) (append t u) (close_at-IsBalanced e d rest u h)))))

from_open_skips :
    (pre t : String)
    → NoOpen pre
    → from_open (append pre (String.◌∷◌ "[" t)) ≡ some (String.◌∷◌ "[" t)
unfolding from_open
from_open_skips String.[] t h = simp joins refl
from_open_skips (String.◌∷◌ c pre) t h = simp joins (rw h.0 (from_open_skips pre t h.1))

close_at_end : (post : String) → close_at 1 (String.◌∷◌ "]" post) ≡ some "]"
unfolding close_at
close_at_end post = refl

close_at_array :
    (body post : String)
    → IsBalanced body
    → close_at 0 (append (array_of body) post) ≡ some (array_of body)
close_at_array body post b =
    simp (cons-append, append_assoc, bracket-append)
      (close_at_open 0 (append body (String.◌∷◌ "]" post)) (append body "]")
        (close_at-IsBalanced b 0 (String.◌∷◌ "]" post) "]" (close_at_end post)))

trim_found :
    (s t u : String) → from_open s ≡ some t → close_at 0 t ≡ some u → trim_to_first_array s ≡ u
unfolding trim_to_first_array
trim_found s t u h k = rw h (rw k refl)

from_open_array :
    (pre body post : String)
    → NoOpen pre
    → from_open (append pre (append (array_of body) post)) ≡ some (append (array_of body) post)
from_open_array pre body post h =
    rw (cons-append "[" (append body "]") post)
      (from_open_skips pre (append (append body "]") post) h)

-- The first array of a text is found with no loss, whatever stands around it, if no `[` comes before it.
pub trim-framed :
    (pre body post : String)
    → NoOpen pre
    → IsBalanced body
    → trim_to_first_array (append pre (append (array_of body) post)) ≡ array_of body
trim-framed pre body post h b =
    trim_found _ _ _ (from_open_array pre body post h) (close_at_array body post b)

-- What the loop gives on a text that is not empty: it ends here, or goes on.
close_at-cases :
    (d : ℕ) (c : Char) (t u : String)
    → close_at d (String.◌∷◌ c t) ≡ some u
    → (((is_close c && depth_after d c == 0) ≡ true) × (u ≡ String.◌∷◌ c String.[]))
      ⊎ (((is_close c && depth_after d c == 0) ≡ false)
          × ((v : String) × ((close_at (depth_after d c) t ≡ some v) × (u ≡ String.◌∷◌ c v))))
unfolding close_at
close_at-cases d c t u h = elim (Bool-cases (is_close c && depth_after d c == 0)) [
  | inl e ↦ inl (e, sym (some_same (rw (e, close_at) at h)))
  | inr e ↦ elim (Option-cases (close_at (depth_after d c) t)) [
    | inl k ↦ let z : Path (Option String) none (some u) = rw k at (rw (e, close_at) at h) in cc
    | inr (v, k) ↦ inr (e, (v, (k, sym (some_same (rw k at (rw (e, close_at) at h))))))
  ]
]

close_at_again : (d : ℕ) (t u : String) → close_at d t ≡ some u → close_at d u ≡ some u
unfolding close_at
close_at_again d String.[] u h = cc
close_at_again d (String.◌∷◌ c t) u h = elim (close_at-cases d c t u h) [
  | inl (e, q) ↦ rw q (rw (e, close_at) refl)
  | inr (e, (v, (k, q))) ↦
      rw q (rw (e, close_at) (rw (close_at_again (depth_after d c) t v k) refl))
]

abbrev Opens : String → Type 0
Opens String.[] = ⊥
Opens (String.◌∷◌ c s) = is_open c ≡ true

from_open-Opens : (s t : String) → from_open s ≡ some t → Opens t
unfolding from_open
from_open-Opens String.[] t h = cc
from_open-Opens (String.◌∷◌ c s) t h = elim (Bool-cases (is_open c)) [
  | inl e ↦ subst Opens (some_same (rw e at h)) e
  | inr e ↦ from_open-Opens s t (rw e at h)
]

from_open_opened : (t : String) → Opens t → from_open t ≡ some t
unfolding from_open
from_open_opened String.[] h = absurd h
from_open_opened (String.◌∷◌ c t) h = rw h refl

-- What is cut off begins as the whole does.
close_at-Opens : (d : ℕ) (t u : String) → Opens t → close_at d t ≡ some u → Opens u
close_at-Opens d String.[] u o h = absurd o
close_at-Opens d (String.◌∷◌ c t) u o h = elim (close_at-cases d c t u h) [
  | inl (e, q) ↦ rw q o
  | inr (e, (v, (k, q))) ↦ rw q o
]

trim_idem_from :
    (s t : String)
    → from_open s ≡ some t
    → Opens t
    → trim_to_first_array (trim_to_first_array s) ≡ trim_to_first_array s
unfolding trim_to_first_array
trim_idem_from s t e o = elim (Option-cases (close_at 0 t)) [
  | inl k ↦ rw e (rw k (rw (from_open_opened t o) (rw k refl)))
  | inr (u, k) ↦
      rw e (
        rw k
          (rw (from_open_opened u (close_at-Opens 0 t u o k)) (rw (close_at_again 0 t u k) refl)))
]

-- Cutting what was cut changes nothing, for every text.
pub trim_idem : (s : String) → trim_to_first_array (trim_to_first_array s) ≡ trim_to_first_array s
unfolding trim_to_first_array
trim_idem s = elim (Option-cases (from_open s)) [
  | inl e ↦ rw e refl
  | inr (t, e) ↦ trim_idem_from s t e (from_open-Opens s t e)
]
