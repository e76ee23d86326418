-- ===== src/Calls.antt =====
-- include/sol/protected_function.hpp, protected_handler.hpp, unsafe_function.hpp, the results in
-- protected_function_result.hpp and unsafe_function_result.hpp, stack_iterator.hpp, and
-- `stack::remove` of reference.hpp: calls of Lua functions, and what they leave on the stack. Scripts of
-- state_view.hpp and their load_result.hpp.
mod Examples
pub mod Small
pub mod Stack
pub mod Result
pub mod Scripts
mod Loading
pub mod Iterator
pub mod Invoke
pub mod Removal
pub mod Balance
pub mod Pushing
