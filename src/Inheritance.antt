-- ===== src/Inheritance.antt =====
-- include/sol/inheritance.hpp, and its use by the checker of include/sol/stack_check_unqualified.hpp
-- and the getter of include/sol/stack_get_unqualified.hpp: objects that are taken as their bases.
mod Examples
pub mod Casts
pub mod Objects
mod Agreement
mod Getting
