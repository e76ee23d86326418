-- ===== src/Traversal.antt =====
-- include/sol/table_iterator.hpp: loops over Lua tables.
mod Examples
mod Next
mod Iterator
mod Steps
mod Loops
