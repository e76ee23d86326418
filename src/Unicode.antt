-- ===== src/Unicode.antt =====
-- include/sol/unicode.hpp and the transcoding loop of include/sol/stack_get_unqualified.hpp.
-- A code unit is a number, a text is the list of its units, and the memory that an iterator walks
-- is the list of units from the iterator on.
mod Examples
pub mod Scalars
pub mod Utf8
pub mod Utf16
pub mod Utf32
pub mod Convert
