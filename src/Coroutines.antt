-- ===== src/Coroutines.antt =====
-- include/sol/coroutine.hpp: coroutines that are resumed from C++.
mod Examples
mod Thread
mod Resume
mod Leaving
