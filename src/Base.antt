-- ===== src/Base.antt =====
-- The names that all modules share: the libraries', passed on, and those of the children below.
mod Tests
mod Strings
mod Assoc
mod Sort
mod Members
mod SortBy
mod Sets
mod Added
pub use Tests.*
unfoldable pub use Strings.*
unfoldable pub use Assoc.*
unfoldable pub use Sort.*
pub use Members.*
unfoldable pub use SortBy.*
unfoldable pub use Sets.*
pub use Added.*
pub use Prim.Native.Nat.{ℕ, zero, suc, ◌+◌, ◌-◌, ◌*◌, ◌/◌, ◌%◌, ◌^◌, ◌≤◌, ◌<◌}
pub use mathlib.Core.Path.{◌≡◌, refl, sym, ap, ap₂, subst, ◌∙◌, ◌≡⟨◌⟩◌, ◌∎}
pub use mathlib.Core.Logic.{◌≢◌, ◌↔◌, ◌⊎◌, inl, inr}
pub use mathlib.Core.Bool.{Bool, true, false, not, ◌&&◌, ◌||◌}
pub use mathlib.Core.Option.{Option, none, some}
pub use mathlib.Core.List.{List, [], ◌∷◌, ◌++◌, map, append_assoc, append-nil}
pub use mathlib.Core.List.{Perm, Permᴰ}
pub use native.Mathlib.Omega.{arith}
