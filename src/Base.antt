-- ===== src/Base.antt =====
-- The names that the other modules share: the libraries', passed on, and those of its children.
-- Time is counted in nanoseconds: an `Instant` is a number on the monotonic clock and a `Duration`
-- a difference of two, so `saturating_duration_since` and `elapsed` are the truncated subtraction.
mod Tests
mod Lists
mod Chars
mod Int
mod Words
mod Splitting
mod Decimals
pub use Tests.*
pub use Lists.*
pub use Chars.*
pub use Int.*
pub use Words.*
pub use Splitting.*
pub use Decimals.*
pub use Prim.Native.Nat.{ℕ, zero, suc, ◌+◌, ◌-◌, ◌*◌, ◌/◌, ◌%◌, ◌^◌, ◌≤◌, ◌<◌, min, max}
pub use mathlib.Core.Path.{◌≡◌, refl, sym, ap, ◌∙◌}
pub use mathlib.Core.Logic.{◌≢◌, ◌↔◌, ◌⊎◌, inl, inr}
pub use mathlib.Core.Bool.{Bool, true, false, not, ◌&&◌, ◌||◌}
pub use mathlib.Core.Option.{Option, none, some}
pub use mathlib.Core.List.{List, [], ◌∷◌, ◌++◌, map}
pub use native.Mathlib.Omega.{arith}
