-- ===== src/Packing.antt =====
-- include/sol/stack.hpp: the names of chunks of code, and values packed in upvalues.
mod Examples
mod Writing
mod Chunks
mod Upvalues
