-- ===== src/Prelude.antt =====
-- The names that the other modules share: those of the libraries, passed on, and those of the
-- children (Boolean tests, lists, text, time, IEEE numbers). No code of the program is here but what
-- the children say.
mod Tests
mod Lists
mod Text
pub mod Int
pub mod Time
pub mod Float
pub use Tests.*
pub use Lists.*
unfoldable pub use Text.{trim_left, trim_right, trim_space, is_space}
pub use Text.{
  trim_space_idem, str_eq_refl, HeadSolid, trim_left_solid, trim_right_solid, trim_right_space,
  trim_left_solid_in, Lacks, cons_not_empty, trim_right-Lacks,
}
pub use Prim.Native.Nat.{ℕ, zero, suc, ◌+◌, ◌-◌, ◌*◌, ◌/◌, ◌%◌, ◌^◌, ◌≤◌, ◌<◌}
pub use Prim.Native.String.{String}
pub use mathlib.Core.Path.{◌≡◌, refl, sym, ap, ◌∙◌, subst}
pub use mathlib.Core.Logic.{◌≢◌, ◌↔◌, ◌⊎◌, inl, inr}
pub use mathlib.Core.Bool.{Bool, true, false, ◌&&◌, ◌||◌, not}
pub use mathlib.Core.Option.{Option, none, some}
pub use mathlib.Core.List.{List, [], ◌∷◌, ◌++◌, map}
pub use native.Mathlib.Omega.{arith}
pub use text.Mathlib.Text.{◌==◌ as str_eq}
pub use text.Mathlib.TextEquality.{eq_iff}
