-- ===== src/Base.antt =====
-- The names that all the other modules share: the libraries', passed on, and those of the children.
mod Tests
mod Int
mod Lists
mod Total
mod Assoc
mod Members
pub use Tests.*
unfoldable pub use Int.*
unfoldable pub use Lists.*
pub use Total.*
pub use Members.*
unfoldable pub use Assoc.{lookup, delete}
pub use Assoc.{put, equal_refl, equal→eq, differ, lookup-delete_other, lookup-put_other, lookup-put}
pub use Prim.Native.Nat.{ℕ, zero, suc, ◌+◌, ◌-◌, ◌*◌, ◌/◌, ◌%◌, ◌^◌, ◌≤◌, ◌<◌, min, max}
pub use mathlib.Core.Path.{◌≡◌, refl, sym, ap, ◌∙◌}
pub use mathlib.Core.Logic.{◌≢◌, ◌↔◌, ◌⊎◌, inl, inr}
pub use mathlib.Core.Bool.{Bool, true, false, not, ◌&&◌, ◌||◌}
pub use mathlib.Core.Option.{Option, none, some}
pub use mathlib.Core.List.{List, [], ◌∷◌, ◌++◌, map, flatten, append-nil, append_assoc}
pub use native.Mathlib.Omega.{arith}
