-- ===== src/Prelude.antt =====
-- The names that the other modules share: the libraries', passed on, and those of the children.
mod Tests
mod Lists
mod Texts
mod Results
mod Decimal
mod Split
pub use Tests.*
pub use Lists.*
unfoldable pub use Texts.{Text, text, utf8_len, len, eq_text}
pub use Texts.{eq_text_refl, eq_of_eq_text, eq_text_iff, len-append}
unfoldable pub use Split.{split, rsplit_once, join, is_whitespace, trim_end}
pub use Split.{
  cons_first, Lacks, split-Lacks, split-append, rsplit_once-append, join-split, split-All-Lacks,
  IsLastCut, rsplit_once-IsLastCut, EndsBlack, IsTrimmed, trim_end-IsTrimmed,
}
unfoldable pub use Decimal.{decimal}
pub use Decimal.{value, value-decimal}
pub use Results.*
pub use Prim.Native.Nat.{ℕ, zero, suc, ◌+◌, ◌-◌, ◌*◌, ◌/◌, ◌%◌, ◌^◌, ◌≤◌, ◌<◌, min}
pub use mathlib.Core.Path.{◌≡◌, refl, sym, ap, ◌∙◌}
pub use mathlib.Core.Logic.{◌≢◌, ◌↔◌, ◌⊎◌, inl, inr}
pub use mathlib.Core.Bool.{Bool, true, false, not, ◌&&◌, ◌||◌}
pub use mathlib.Core.Option.{Option, none, some}
pub use mathlib.Core.List.{List, [], ◌∷◌, ◌++◌, map, map-append, append-nil, append_assoc}
pub use native.Mathlib.Omega.{arith}
