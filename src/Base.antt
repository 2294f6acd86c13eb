-- ===== src/Base.antt =====
-- Names that every component shares: those of the libraries, passed on, and those of six children.
mod Tests
mod Lists
mod Words
mod Codes
mod Int
mod Scan
pub use Tests.*
pub use Lists.*
pub use Words.*
unfoldable pub use Scan.*
unfoldable pub use Int.*
pub use Codes.*
pub use Prim.Native.Nat.{ℕ, zero, suc, ◌+◌, ◌-◌, ◌*◌, ◌/◌, ◌%◌, ◌^◌, ◌≤◌, ◌<◌, min, max}
pub use mathlib.Core.Path.{◌≡◌, refl, sym, ap, ap₂, subst, ◌∙◌}
pub use mathlib.Core.Logic.{◌≢◌, ◌↔◌, ◌⊎◌, inl, inr}
pub use mathlib.Core.Bool.{Bool, true, false, ◌&&◌, ◌||◌, not}
pub use mathlib.Core.Option.{Option, none, some}
pub use mathlib.Core.List.{
  List, [], ◌∷◌, ◌++◌, map, append-nil, append_assoc, map-append, reverse, reverse-append,
}
pub use native.Mathlib.Omega.{arith}
