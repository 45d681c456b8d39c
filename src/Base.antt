-- ===== src/Base.antt =====
-- What every module shares: the libraries' names, passed on, and the helpers below: tests on
-- numbers, integers of fixed width, byte strings, string-keyed maps, and results that may panic.
mod Tests
mod Int
mod Strings
mod Lists
mod Maps
mod Results
unfoldable pub use Tests.*
unfoldable pub use Int.*
unfoldable pub use Strings.*
unfoldable pub use Lists.*
unfoldable pub use Maps.*
unfoldable pub use Results.*
pub use Prim.Native.Nat.{ℕ, zero, suc, ◌+◌, ◌-◌, ◌*◌, ◌%◌, ◌^◌, ◌≤◌, ◌<◌}
pub use mathlib.Core.Path.{◌≡◌, refl, sym, ap, ◌∙◌}
pub use mathlib.Core.Logic.{◌≢◌, ◌↔◌, ◌⊎◌, inl, inr}
pub use mathlib.Core.Bool.{Bool, true, false, not, ◌&&◌, ◌||◌}
pub use mathlib.Core.Option.{Option, none, some}
pub use mathlib.Core.List.{List, [], ◌∷◌, ◌++◌, map}
pub use native.Mathlib.Omega.{arith}
