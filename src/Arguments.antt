-- ===== src/Arguments.antt =====
-- include/sol/stack.hpp and the checkers and getters of include/sol/stack_check_unqualified.hpp,
-- stack_check_get_unqualified.hpp and stack_get_unqualified.hpp: how the arguments of a bound function
-- are checked and read from the stack.
mod Examples
mod Types
mod Checking
mod Getting
mod Safety
mod Positions
mod Chosen
mod Shifts
mod Calling
