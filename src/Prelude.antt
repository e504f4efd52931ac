-- ===== src/Prelude.antt =====
-- The names that the modules share: the libraries' names passed on, tests and conditionals,
-- list predicates, Go's machine integers, and formatted text.
mod Tests
mod Lists
mod Words
mod Text
pub use Tests.*
pub use Lists.*
pub use Words.*
unfoldable pub use Text.{concat, join, digit, decimal_from, decimal, show_int32, show_int64, quote}
pub use Text.{concat-ne-nil, append-ne-nil, ne_of_test}
unfoldable pub use Text.{text_discrete}
pub use Prim.Native.Nat.{ℕ, zero, suc, ◌+◌, ◌-◌, ◌*◌, ◌/◌, ◌%◌, ◌^◌, ◌≤◌, ◌<◌}
pub use Prim.Native.String.{String}
pub use mathlib.Core.Path.{◌≡◌, refl, sym, ap, ◌∙◌}
pub use mathlib.Core.Logic.{◌≢◌, ◌↔◌, ◌⊎◌, inl, inr}
pub use mathlib.Core.Bool.{Bool, true, false, not, ◌&&◌, ◌||◌}
pub use mathlib.Core.Option.{Option, none, some}
pub use mathlib.Core.List.{List, [], ◌∷◌, ◌++◌, map}
pub use native.Mathlib.Omega.{arith}
pub use text.Mathlib.Text.{◌==◌ as str_eq}
pub use text.Mathlib.TextEquality.{eq_iff}
