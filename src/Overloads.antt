-- ===== src/Overloads.antt =====
-- include/sol/call.hpp: the choice of the overload that a call from Lua means.
mod Examples
pub mod Match
pub mod Choice
