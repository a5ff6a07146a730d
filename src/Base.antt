-- ===== src/Base.antt =====
-- The vocabulary that every other module shares: the libraries' names, passed on, Boolean tests on
-- the native numbers, list helpers, finite maps and formatted messages.
mod Tests
mod Lists
pub mod Map
pub mod Lines
mod Texts
pub use Tests.*
pub use Lists.*
pub use Texts.{Text, bytes, same_text, same_text_eq, same_text_self, Piece, lit, num, txt, Message}
unfoldable pub use Texts.{text_discrete}
pub use Prim.Native.Nat.{ℕ, zero, suc, ◌+◌, ◌-◌, ◌*◌, ◌/◌, ◌%◌, ◌^◌, ◌≤◌, ◌<◌}
pub use mathlib.Core.Path.{◌≡◌, refl, sym, ap, ◌∙◌}
pub use mathlib.Core.Logic.{◌≢◌, ◌↔◌, ◌⊎◌, inl, inr, ite}
pub use mathlib.Core.Bool.{Bool, true, false, not, ◌&&◌, ◌||◌}
pub use mathlib.Core.Option.{Option, none, some}
pub use mathlib.Core.List.{List, [], ◌∷◌, ◌++◌, map}
pub use native.Mathlib.Omega.{arith}
unfoldable pub use native.Mathlib.Decide.{ℕ_discrete}
