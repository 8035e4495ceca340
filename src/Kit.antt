-- ===== src/Kit.antt =====
-- Names that the models of all modules share: the libraries', passed on, and those of the children.
mod Tests
mod Lists
mod Results
mod Texts
mod Contracts
mod Decimal
mod Joins
pub use Tests.*
pub use Lists.*
pub use Results.*
pub use Contracts.*
pub use Decimal.*
pub use Joins.*
pub use Texts.{Text, codes, text_eq→eq, text_eq_refl}
unfoldable pub use Texts.{text_eq}
pub use Prim.Native.Nat.{ℕ, zero, suc, ◌+◌, ◌-◌, ◌*◌, ◌/◌, ◌%◌, ◌^◌, ◌≤◌, ◌<◌, min, max}
pub use Prim.Native.String.{String}
pub use mathlib.Core.Path.{◌≡◌, refl, sym, ap, ◌∙◌, fun_ext, subst}
pub use mathlib.Core.Logic.{◌≢◌, ◌↔◌, ◌⊎◌, inl, inr}
pub use mathlib.Core.Bool.{Bool, true, false, not, ◌&&◌, ◌||◌, false≢true}
pub use mathlib.Core.Option.{Option, none, some}
pub use mathlib.Core.List.{List, [], ◌∷◌, ◌++◌, map, append-nil, append_assoc, map-append}
pub use native.Mathlib.Omega.{arith}
pub use text.Mathlib.Text.{◌==◌}
pub use text.Mathlib.TextEquality.{eq_iff}
pub use text.Mathlib.TextPositions.{eq_refl}
