-- ===== src/Reference.antt =====
-- include/sol/reference.hpp and `xmovable` of include/sol/stack_reference.hpp: handles on values that
-- Lua's registry keeps alive.
mod Examples
mod Small
pub mod Lua
pub mod Handle
pub mod Effects
pub mod Copies
pub mod Outcomes
pub mod Lifetimes
pub mod Moves
mod World
mod Ownership
mod Ledger
