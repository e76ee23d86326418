-- ===== src/Layout.antt =====
-- The userdata layout of include/sol/stack_core.hpp: aligned sections in a block that Lua allocates,
-- and the functions that find the sections again from the block's address.
-- An address is a number below 2 ^ 64, `nullptr` is 0, and unsigned arithmetic wraps.
mod Examples
pub mod Align
pub mod Rounding
pub mod Sections
pub mod Allocate
pub mod Unique
pub mod Chain
pub mod Access
pub mod Found
pub mod Retry
