-- ===== src/Llm/Context.antt =====
-- internal/llm/context_window.go: a prompt is cut to the window of the provider. Go's `int` is an integer;
-- a text has far fewer than 2^62 runes, so no sum here wraps around.
pub mod Fits
pub mod Ends
use Prim.Native.Char.{Char, code}
use Prim.Native.String.{◌++◌ as append}
use nous.Prelude.{
  ℕ, zero, suc, ◌+◌, ◌-◌, ◌*◌, ◌/◌, Bool, not, ◌&&◌, Option, none, some, String, List, [], ◌∷◌,
  ◌==◌, leb, if◌then◌else◌, str_eq,
}
use nous.Prelude.Int.{ℤ, pos, sub_ℤ, leb_ℤ, pos_part}

-- `utf8.RuneCountInString`, and the length of `[]rune(s)`
abbrev pub runes : String → ℕ
runes String.[] = 0
runes (String.◌∷◌ c s) = suc (runes s)

unfoldable pub estimate_tokens : String → ℕ
estimate_tokens s = if str_eq s "" then 0 else (runes s + 3) / 4

pub record ContextBudget : Type 0 where
  pub max_input_tokens : ℤ
  pub headroom_tokens : ℤ

unfoldable pub available : ContextBudget → ℤ
available b = pos (pos_part (sub_ℤ b.max_input_tokens b.headroom_tokens))

-- The predicate `splitRune`.
unfoldable pub split_rune : Char → Bool
split_rune r =
    let c = code r in
    not (c == b' ') && not (c == b'\n') && not (c == b'\t') && not (c == b'.') && not (c == b',')

-- `runes[:n]` and `runes[n:]` within the bounds.
unfoldable pub first_runes : ℕ → String → String
first_runes zero s = String.[]
first_runes (suc n) String.[] = String.[]
first_runes (suc n) (String.◌∷◌ c s) = String.◌∷◌ c (first_runes n s)

unfoldable pub skip_runes : ℕ → String → String
skip_runes zero s = s
skip_runes (suc n) String.[] = String.[]
skip_runes (suc n) (String.◌∷◌ c s) = skip_runes n s

-- `strings.TrimLeftFunc(s, splitRune)`
unfoldable pub trim_left_split : String → String
trim_left_split String.[] = String.[]
trim_left_split (String.◌∷◌ c s) =
    let rest = trim_left_split s in if split_rune c then rest else String.◌∷◌ c s

-- A rune goes when it splits and nothing behind it stays.
abbrev pub keep_split : Char → String → String
keep_split c String.[] = if split_rune c then String.[] else String.◌∷◌ c String.[]
keep_split c (String.◌∷◌ d s) = String.◌∷◌ c (String.◌∷◌ d s)

-- `strings.TrimRightFunc(s, splitRune)`
unfoldable pub trim_right_split : String → String
trim_right_split String.[] = String.[]
trim_right_split (String.◌∷◌ c s) = keep_split c (trim_right_split s)

abbrev pub marker : String
marker = "\n[…]\n"

-- The end of `FitText`, with the runes to keep.
unfoldable pub elide : ℕ → String → String
unfolding trim_left_split trim_right_split first_runes skip_runes
elide keep_chars input =
    let head_chars = keep_chars / 3 in
    let tail_chars = keep_chars - head_chars in
    if leb (runes input) (head_chars + tail_chars)
    then input
    else append (trim_right_split (first_runes head_chars input))
        (append marker (trim_left_split (skip_runes (runes input - tail_chars) input)))

-- `FitText` once `available` is computed.
unfoldable pub fit_in : ℤ → String → String
unfolding estimate_tokens elide
fit_in room input =
    let keep_tokens = sub_ℤ room (pos (estimate_tokens marker)) in
    if leb_ℤ room (pos 0)
    then ""
    else if leb_ℤ (pos (estimate_tokens input)) room
    then input
    else if leb_ℤ keep_tokens (pos 0)
    then ""
    else elide (pos_part keep_tokens * 4) input

unfoldable pub fit_text : String → ℤ → ContextBudget → String
unfolding available fit_in
fit_text input overhead_tokens budget = fit_in (sub_ℤ (available budget) overhead_tokens) input

abbrev budget_of : ℕ → ℕ → ContextBudget
budget_of m h = record { max_input_tokens = pos m; headroom_tokens = pos h }

-- The table, and its default.
unfoldable pub budget_for : String → ContextBudget
budget_for provider =
    if str_eq provider "anthropic"
    then budget_of 200_000 4_000
    else if str_eq provider "openai"
    then budget_of 128_000 4_000
    else if str_eq provider "gemini"
    then budget_of 1_000_000 4_000
    else if str_eq provider "bedrock"
    then budget_of 200_000 4_000
    else budget_of 8_000 1_000
