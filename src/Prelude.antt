-- ===== src/Prelude.antt =====
-- The names that the other modules share: the libraries', passed on, and those of the children.
pub mod Tests
pub mod Lists
pub mod Decimal
pub mod ByteStrings
pub use Tests.*
pub use Lists.*
pub use ByteStrings.{Bytes, codes, equal_iff, equal_refl, is_empty, Without, split_first-Without}
pub use ByteStrings.{split_first-none, split_first_sound, starts_with, streamed}
pub use Decimal.{decimal_value-to_string, to_string-IsDigit, to_string-ne-nil, IsDigit}
unfoldable pub use Decimal.{to_string, decimal_value}
unfoldable pub use ByteStrings.{equal, split_first, contains}
pub use Prim.Native.Nat.{ℕ, zero, suc, ◌+◌, ◌-◌, ◌*◌, ◌/◌, ◌%◌, ◌^◌, ◌≤◌, ◌<◌}
pub use mathlib.Core.Path.{◌≡◌, refl, sym, ap, ◌∙◌, subst}
pub use mathlib.Core.Logic.{◌≢◌, ◌↔◌, ◌⊎◌, inl, inr}
pub use mathlib.Core.Bool.{Bool, true, false, not, ◌&&◌, ◌||◌}
pub use mathlib.Core.Option.{Option, none, some}
pub use mathlib.Core.List.{List, [], ◌∷◌, ◌++◌, map, append-nil, append_assoc}
pub use native.Mathlib.Omega.{arith}
unfoldable pub use native.Mathlib.Decide.{ℕ_discrete}
