-- ===== src/Llm/Parse/Unclosed.antt =====
-- internal/llm/parse.go, `stripCodeFences`: a one-line reply whose fence is not closed.
use Prim.Native.Char.{Char, code}
use Prim.Native.String.{◌++◌ as append}
use text.Mathlib.TextLemmas.{nil-append, cons-append}
use nous.Prelude.{
  false, Option, none, some, String, List, [], ◌⊎◌, ◌≡◌, refl, ap, ◌∙◌, ◌==◌, arith, trim_space,
  trim_left, trim_right, is_space, trim_left_solid, trim_right_solid, Lacks, trim_right-Lacks,
}
use nous.Prelude.Time.{Time}
use nous.Prelude.Float.{Float64}
use nous.Domain.Errors.{ok}
use nous.Llm.Parse.{
  RawDraft, starts_fence, after_newline, before_fence, strip_code_fences, parse_drafts,
}
use nous.Llm.Parse.Brackets.{from_open, trim_to_first_array}
use nous.Llm.Parse.Replies.{fence}

after_newline-none : (s : String) → Lacks b'\n' s → after_newline s ≡ none
unfolding after_newline
after_newline-none String.[] h = refl
after_newline-none (String.◌∷◌ c s) h = rw h.0 (after_newline-none s h.1)

starts_fence_none :
    (c : Char) (s : String) → (code c == b'`') ≡ false → starts_fence (String.◌∷◌ c s) ≡ false
unfolding starts_fence
starts_fence_none c String.[] h = refl
starts_fence_none c (String.◌∷◌ a String.[]) h = refl
starts_fence_none c (String.◌∷◌ a (String.◌∷◌ b s)) h = ground arith

before_fence-none : (s : String) → Lacks b'`' s → before_fence s ≡ none
unfolding before_fence
before_fence-none String.[] h = refl
before_fence-none (String.◌∷◌ c s) h =
    rw (starts_fence_none c s h.0) (rw (before_fence-none s h.1) refl)

one_tick : (s : String) → Lacks b'`' s → starts_fence (String.◌∷◌ "`" s) ≡ false
unfolding starts_fence
one_tick String.[] h = refl
one_tick (String.◌∷◌ a String.[]) h = refl
one_tick (String.◌∷◌ a (String.◌∷◌ b s)) h = ground arith

two_ticks : (s : String) → Lacks b'`' s → starts_fence (String.◌∷◌ "`" (String.◌∷◌ "`" s)) ≡ false
unfolding starts_fence
two_ticks String.[] h = refl
two_ticks (String.◌∷◌ a s) h = ground arith

before_fence_opening : (s : String) → Lacks b'`' s → before_fence (fence s) ≡ some ""
unfolding before_fence starts_fence
before_fence_opening s h = rw (before_fence-none s h, one_tick s h, two_ticks s h) refl

strip_unclosed : (s : String) → Lacks b'\n' s → Lacks b'`' s → strip_code_fences (fence s) ≡ ""
unfolding strip_code_fences starts_fence trim_space trim_left trim_right after_newline
strip_unclosed s n h = rw (after_newline-none s n) (rw (before_fence_opening s h) refl)

two_ticks-append : (s : String) → append "``" (String.◌∷◌ "`" s) ≡ fence s
two_ticks-append s =
    cons-append "`" "`" (String.◌∷◌ "`" s)
    ∙ ap (String.◌∷◌ "`") (
        cons-append "`" "" (String.◌∷◌ "`" s) ∙ ap (String.◌∷◌ "`") (nil-append (String.◌∷◌ "`" s)))

trim_right-fence : (s : String) → trim_right (fence s) ≡ fence (trim_right s)
unfolding is_space
trim_right-fence s =
    rw (two_ticks-append s, two_ticks-append (trim_right s)) at (trim_right_solid "``" "`" s refl)

trim_space-fence : (s : String) → trim_space (fence s) ≡ fence (trim_right s)
unfolding trim_space is_space
trim_space-fence s = ap trim_right (trim_left_solid (fence s) refl) ∙ trim_right-fence s

-- A reply of one line that opens a code fence and has no other backtick gives no drafts and no error,
-- whatever it holds: the fence that opens it is taken for the one that closes it.
pub parse-unclosed :
    (parse_time : String → String → Option Time) (quote : String → String) {F : Type 0}
    ⦃fl : Float64 F⦄ (unmarshal : String → String ⊎ List (RawDraft F)) (s : String)
    → Lacks b'\n' s
    → Lacks b'`' s
    → parse_drafts parse_time quote unmarshal (fence s) ≡ ok []
unfolding parse_drafts trim_to_first_array from_open
parse-unclosed parse_time quote unmarshal s n h = rw (trim_space-fence s) (
    rw (strip_unclosed (trim_right s) (trim_right-Lacks b'\n' s n) (trim_right-Lacks b'`' s h))
      refl)
