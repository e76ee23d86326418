-- ===== src/Lib.antt =====
-- sol2, a C++ library that binds Lua: a model of the parts that do not merely forward to Lua, and the
-- theorems about them. Paths are from the repository's root.
--
-- The parts and how they interact:
--   * include/sol/unicode.hpp encodes and decodes UTF-8, UTF-16 and UTF-32. The getters of
--     include/sol/stack_get_unqualified.hpp use it to turn Lua strings into wide strings.
--     Unicode/Scalars has its constants and tests, Unicode/Utf8, Utf16 and Utf32 the functions
--     `code_point_to_utf*` and `utf*_to_code_point`, Unicode/Convert the functions `convert` and
--     `get_into`. The proofs are in the modules below these.
--   * include/sol/stack_core.hpp allocates the userdata in which Lua keeps C++ objects, and finds the
--     objects again. Layout/Align has `align` and `aligned_space_for`, Layout/Allocate and
--     Layout/Unique the allocation functions, Layout/Access the functions `align_usertype_*` and the
--     destruction. Layout/Rounding, Chain, Sections, Retry, Found and Unique/Laid hold the proofs.
--   * include/sol/reference.hpp keeps Lua values alive through keys of Lua's registry. Reference/Handle
--     has `basic_reference` with its copies, moves, assignments and destructor, and `xmovable` of
--     include/sol/stack_reference.hpp. Reference/World has a program over many references: one step for
--     each operation. Reference/Effects, Copies, Outcomes, Lifetimes and Moves say what each operation
--     does to the registry, Ledger and Ownership who owns which key.
--   * include/sol/protected_function.hpp and unsafe_function.hpp call Lua functions; their results,
--     protected_function_result.hpp and unsafe_function_result.hpp beside them, refer to the values that
--     are left on Lua's stack and remove them in the end, with `stack::remove` of reference.hpp.
--     Calls/Invoke has `call`, `invoke` and `protected_handler`, Calls/Result the results, Calls/Iterator
--     `stack_iterator` and `variadic_args`, Calls/Stack `stack::remove`. Calls/Scripts has the calls of
--     functions that stand on the stack, and `load`, `do_string` and `safe_script` of
--     include/sol/state_view.hpp with include/sol/load_result.hpp. Calls/Removal, Balance, Pushing and
--     Loading hold the proofs.
--   * include/sol/usertype_container.hpp lets Lua code use C++ containers. Sequences/Access has `at`,
--     `get`, `size`, `empty` and `pairs` for sequences, Sequences/Change `set`, `insert`, `erase` and
--     `add`, Sequences/Linked those of singly linked lists, Sequences/Search `find`. A sequence is the
--     list of its values, and an operation that has no defined behaviour in C++ has the result
--     `undefined`. Sequences/Agreement, Laws and Singly hold the proofs.
--     Containers/Maps has these operations for maps and sets whose keys are unique, over the C++
--     containers as parameters, Containers/Arrays those of C arrays; Refinement and Sets hold the proofs.
--   * include/sol/call.hpp chooses the overload that a call from Lua means: Overloads/Match has
--     `overload_match` and the searches below it, Overloads/Choice the proofs.
--   * The arguments of a bound function are checked and read by
--     include/sol/stack_check_unqualified.hpp,
--     include/sol/stack_get_unqualified.hpp and include/sol/stack_check_get_unqualified.hpp, for the calls
--     of include/sol/stack.hpp. Arguments/Types has the types of parameters,
--     Arguments/Checking and Getting the checkers and getters with the slots that each takes,
--     Arguments/Calling the calls; the chosen overload's arguments are in Arguments/Chosen. Safety,
--     Positions and Shifts hold the proofs.
--   * include/sol/stack.hpp names chunks of code and packs values in upvalues: Packing/Writing,
--     Packing/Chunks and Packing/Upvalues.
--   * include/sol/table_iterator.hpp walks over Lua tables: Traversal/Next has what is relied on of
--     `lua_next`, Traversal/Iterator the iterator with what it keeps on the stack. Steps and Loops hold the
--     proofs.
--   * include/sol/coroutine.hpp resumes coroutines: Coroutines/Thread has what is relied on of
--     `lua_resume`, Coroutines/Resume `call` and the status. Coroutines/Leaving holds the proofs.
--   * include/sol/inheritance.hpp takes objects as their bases. Inheritance/Casts has the functions of
--     `detail::inheritance`, Inheritance/Objects the checker of include/sol/stack_check_unqualified.hpp
--     and the getter of include/sol/stack_get_unqualified.hpp that call them through the metatable of an
--     object. Inheritance/Agreement and Getting hold the proofs.
--   * include/sol/usertype_storage.hpp keeps the members of the classes that Lua code uses.
--     Usertypes/Storage has `usertype_storage_base` with its bindings and its six tables for objects,
--     Usertypes/Setting `set` for each kind of key, `update_bases` and what `register_usertype` leaves,
--     Usertypes/Indexing `self_index_call`, which answers reads and assignments of members, and the walk
--     through the bases. A storage is related to the members it has, a function from names to bindings:
--     Usertypes/Members states this relation, and Bindings, Local, Tables, Placing, Keeping, Closures,
--     Refinement, Starting and Deriving have the proofs about the operations. History says what can
--     happen to a storage. Reading, Found, Walking, Liveness, Safety and Fast hold the proofs about
--     reads and assignments.
--
-- How the code is modelled: numbers are natural numbers and unsigned arithmetic wraps where the code's
-- does; `*it` reads a list that is the memory from the iterator on, and a read behind its end is the
-- result `none`; uninitialised fields are `none`. The loop of `convert` takes fuel, one round for each
-- byte and one to end: each round goes on by at least one byte, and the theorems about `get_into`
-- state a result, so the fuel is enough. The loops over
-- iterators, those over tables included, take fuel as well, one round for each element and one to end,
-- and the theorems about them state a result. All other loops are bounded by the code. `lua_newuserdata` is a
-- parameter, the addresses that the allocator returns. Lua's registry and stacks are parameters as well
-- (the records `Lua` of Reference/Lua and `LuaStack` of Calls/Stack), with Lua's manual on the functions
-- that the code calls as hypotheses (`IsLua` and `IsLuaStack`, and `IsLoader` of Calls/Loading for
-- scripts, `IsLuaNext` of Traversal/Next and `IsLuaThread` of Coroutines/Thread); Reference/Small,
-- Calls/Small and the Examples beside them have small instances. The maps and sets of the C++ library
-- are the parameters of Containers/Maps and Sets, with small instances in Containers/Small.
-- Counts and positions on the stack are natural numbers, and an index that may count from the top is an integer.
--
-- What the allocator returns for a new binding of a usertype is an argument as well, and a hypothesis
-- says that no binding of the storage is there. Strings and classes are numbers, and the contents of a
-- Lua table that sol fills is a function of its keys. Walks through bases are recursions on the list of
-- the bases, with the bases of each.
--
-- Not modelled: C++ exceptions that cross a call of Lua, what only forwards to Lua's C API, compile-time
-- dispatch over templates, containers whose keys may repeat, what the body of a bound function does, the
-- names of types (include/sol/demangle.hpp), stack_reference and stack_guard, the range checks of
-- integers, and the vendored and generated code.
pub mod Arguments
pub mod Base
pub mod Calls
pub mod Containers
pub mod Coroutines
pub mod Inheritance
pub mod Layout
pub mod Overloads
pub mod Packing
pub mod Reference
pub mod Sequences
pub mod Traversal
pub mod Unicode
pub mod Usertypes
