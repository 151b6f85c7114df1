-- ===== src/Common.antt =====
-- Names, notation and lemmas that the components share: Boolean tests on numbers, lists indexed by
-- native numbers, Python's exceptions, masks and shifts, UTF-8.
pub mod Tests
pub mod Lists
pub mod Outcome
pub mod Bits
pub mod Utf8
pub mod Dict
pub mod DictKeys
pub mod Action
pub mod Base64
pub use Prim.Native.Nat.{ℕ, zero, suc, ◌+◌, ◌-◌, ◌*◌, ◌/◌, ◌%◌, ◌^◌, ◌≤◌, ◌<◌, min, bit_and, bit_or}
pub use Prim.Native.String.{String}
pub use mathlib.Core.Path.{◌≡◌, refl, sym, ap, ap₂, ◌∙◌, subst}
pub use mathlib.Core.Logic.{◌≢◌, ◌↔◌, ◌⊎◌, inl, inr}
pub use mathlib.Core.Bool.{Bool, true, false, not, ◌&&◌, ◌||◌}
pub use mathlib.Core.Option.{Option, none, some}
pub use mathlib.Core.List.{List, [], ◌∷◌, ◌++◌, map, append_assoc, append-nil, map-append}
pub use native.Mathlib.Omega.{arith}
