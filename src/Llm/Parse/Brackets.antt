-- ===== src/Llm/Parse/Brackets.antt =====
-- internal/llm/parse.go, `trimToFirstArray`: the first bracketed part of a text.
use Prim.Native.Char.{Char, code}
use nous.Prelude.{
  ℕ, suc, ◌-◌, Bool, true, false, ◌&&◌, Option, none, some, String, ◌==◌, if◌then◌else◌,
}

abbrev pub is_open : Char → Bool
is_open c = code c == b'['

abbrev pub is_close : Char → Bool
is_close c = code c == b']'

-- The depth after a character; it is above 0 at each `]` that the loop meets.
abbrev pub depth_after : ℕ → Char → ℕ
depth_after depth c = if is_open c then suc depth else if is_close c then depth - 1 else depth

-- The text from its first `[`, if there is one.
unfoldable pub from_open : String → Option String
from_open String.[] = none
from_open (String.◌∷◌ c s) =
    let rest = from_open s in if is_open c then some (String.◌∷◌ c s) else rest

-- The loop, entered with the depth so far: the text up to the `]` that brings the depth to 0.
unfoldable pub close_at : ℕ → String → Option String
close_at depth String.[] = none
close_at depth (String.◌∷◌ c s) = elim (is_close c && depth_after depth c == 0) [
  | true ↦ some (String.◌∷◌ c String.[])
  | false ↦ elim (close_at (depth_after depth c) s) [ none ↦ none | some t ↦ some (String.◌∷◌ c t) ]
]

-- After `start` was found; with no end the rest of the text stays.
abbrev cut : String → Option String → String
cut t none = t
cut t (some u) = u

abbrev first_array : Option String → String
first_array none = ""
first_array (some t) = cut t (close_at 0 t)

unfoldable pub trim_to_first_array : String → String
unfolding from_open close_at
trim_to_first_array s = first_array (from_open s)
