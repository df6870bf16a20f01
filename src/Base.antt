-- ===== src/Base.antt =====
-- Names that every module shares: those of the libraries, and those of the children.
pub mod Tests
pub mod Lists
pub mod Bits
pub mod Ring
pub mod Writes
pub use Tests.{
  ltb, leb, ◌==◌, if◌then◌else◌, ltb→lt, lt→ltb, leb→le, le→leb, ==_iff, tests, Bool-cases,
  Option-cases, if_true, if_false, if_cases, ◌>>=◌,
}
pub use Lists.{
  length, get_elem?, get_or, set, take, drop, replicate, All, concat, length-append, length-set,
  length-take, length-drop, length-replicate, get_or-set_self, get_or-set_ne, append-take-drop,
  drop-append, take-append, take-append_long, take-nil, drop-nil, take_one, drop_one,
  take-append_split, drop-append_split,
}
pub use Writes.{get_or-set}
pub use Prim.Native.Nat.{ℕ, zero, suc, ◌+◌, ◌-◌, ◌*◌, ◌/◌, ◌%◌, ◌^◌, ◌≤◌, ◌<◌, min, max}
pub use Prim.Native.Nat.{bit_and, bit_or, bit_xor}
pub use mathlib.Core.Path.{◌≡◌, refl, sym, ap, ◌∙◌}
pub use mathlib.Core.Logic.{◌≢◌, ◌↔◌, ◌⊎◌, inl, inr}
pub use mathlib.Core.Bool.{Bool, true, false, not, ◌&&◌, ◌||◌}
pub use mathlib.Core.Option.{Option, none, some}
pub use mathlib.Core.List.{List, [], ◌∷◌, ◌++◌, map}
pub use native.Mathlib.Omega.{arith}
