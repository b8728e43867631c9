-- ===== src/Text.antt =====
-- Go strings: sequences of bytes. What the program uses of `strings`, `unicode` and `utf8` is
-- written out in the modules below this one.
pub mod Utf8
pub mod Space
pub mod Order
pub mod Split
pub mod Fold
pub mod Defs
unfoldable pub use Defs.*
