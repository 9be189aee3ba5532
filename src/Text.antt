-- ===== src/Text.antt =====
-- Python's `str`: the definitions, and how slices join.
mod Defs
mod Slice
pub mod Words
pub mod Search
pub mod Located
pub mod Spelling
pub use Defs.{Text, or_default, text_eq, text_eq_refl, text_eq_sound}
unfoldable pub use Defs.{bound, cut, slice}
pub use Slice.*
