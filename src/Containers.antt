-- ===== src/Containers.antt =====
-- include/sol/usertype_container.hpp, as Lua code sees C++ maps, sets and arrays.
mod Examples
mod Maps
mod Refinement
mod Sets
mod Arrays
mod Small
