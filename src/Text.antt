-- ===== src/Text.antt =====
-- Go strings, as lists of bytes, and the operations of package strings that the sources call:
-- ==, HasPrefix, HasSuffix, Contains, Index, LastIndex, SplitN(s, sep, 2), Split, Join,
-- TrimPrefix and TrimLeft. The laws stand in Text/Laws.antt.
mod Defs
pub mod Laws
pub mod Parts
pub use Defs.{Str, codes}
unfoldable pub use Defs.{
  str_eq, has_prefix, cut_prefix, has_suffix, contains, cut, last_cut, split, join, trim_prefix,
  trim_left,
}
