-- ===== src/Sequences.antt =====
-- include/sol/usertype_container.hpp, as Lua code sees a C++ sequence: a container that is not
-- associative, with integer positions, whose values can be copied and compared.
mod Examples
pub mod Access
pub mod Change
pub mod Linked
pub mod Search
pub mod Agreement
pub mod Laws
mod Singly
