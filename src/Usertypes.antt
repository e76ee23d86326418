-- ===== src/Usertypes.antt =====
-- include/sol/usertype_storage.hpp: the members of a usertype, and how Lua code reads and assigns them.
mod Examples
pub mod Storage
pub mod Setting
pub mod Indexing
mod Bindings
mod Local
mod Tables
mod Members
mod Placing
mod Keeping
mod Closures
mod Refinement
mod Starting
mod Deriving
mod History
mod Reading
mod Found
mod Walking
mod Liveness
mod Safety
mod Fast
