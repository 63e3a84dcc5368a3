-- ===== src/Base.antt =====
-- The names that the other modules share: the libraries', passed on, and those of the children.
mod Tests
mod Lists
mod Text
mod Words
pub mod Int
pub mod Double
pub mod OrderedMap
pub mod MapLaws
pub mod Orders
pub mod Sort
pub use Tests.*
pub use Lists.*
unfoldable pub use Words.{tolower, lowercase, is_space, trim, decimal, string_less, visible}
pub use Words.{tolower_idem, lowercase_idem, visible-append, visible-trim, length-decimal}
unfoldable pub use Text.{str, beq, find_sub}
pub use Text.{Bytes, codes, beq_iff, beq_refl, contains, is_prefix}
pub use Prim.Native.Nat.{ℕ, zero, suc, ◌+◌, ◌-◌, ◌*◌, ◌/◌, ◌%◌, ◌^◌, ◌≤◌, ◌<◌, min, max}
pub use mathlib.Core.Path.{◌≡◌, refl, sym, ap, ap₂, subst, ◌∙◌, ◌≡⟨◌⟩◌, ◌∎}
pub use mathlib.Core.Logic.{◌≢◌, ◌↔◌, ◌⊎◌, inl, inr}
pub use mathlib.Core.Bool.{Bool, true, false, not, ◌&&◌, ◌||◌}
pub use mathlib.Core.Option.{Option, none, some}
pub use mathlib.Core.List.{List, [], ◌∷◌, ◌++◌, map, append-nil, append_assoc}
pub use native.Mathlib.Omega.{arith}
