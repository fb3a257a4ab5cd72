-- ===== src/Lib.antt =====
-- A library about mlua, the Rust bindings of Lua, in src/ of the repository. Lua itself, its C API, the
-- Rust standard library and the build's other crates are not code of this repository: what they do is
-- a parameter, an argument or an interface with laws, named after the call.
--
-- The parts, with the files that model them:
--
-- Memory (src/memory.rs). `allocator` is the function that Lua calls for all of its memory; it keeps
-- `MemoryState`, which `set_memory_limit` and `relax_limit_with` change. `usize` and `isize` are 64-bit
-- patterns with wrap-around (Base/Word). The answer of malloc and realloc is an argument. Memory/Vm is
-- a Lua that calls the allocator honestly: it gives the size of a block that it holds. Memory/Limit has
-- the laws.
--
-- UserData (src/userdata/lock.rs, src/userdata/cell.rs, src/userdata/util.rs, src/userdata.rs). RawLock
-- is the lock in one word, Lock the interface that it fills, which also stands for the lock of the `send`
-- build. Cell has the variants of a userdata, the four kinds of guards, `take` and the finalizer; a
-- reference count is a number. World says what may happen to a cell while guards stand, and Aliasing has
-- the laws.
--
-- Methods (src/userdata/registry.rs, src/userdata/cell.rs). The callbacks that the methods and functions of a
-- type become. Call has what they do with the locks of the storage, of a wrapper and of the function itself;
-- the locks of other crates and the user's functions are arguments. Locks has the laws of a borrow, Safety
-- and Refusal those of the callbacks.
--
-- Types (src/state/raw.rs, src/state.rs). The metatables of userdata types: Coherent is about the lookup of a
-- userdata's type, Live and Registration about the metatable that a new userdata gets. Making a table and
-- references into the registry are Lua's.
--
-- Values (src/value.rs). The kinds of Lua values with their accessors, over any floats; Order is about their
-- equality and the order by which keys are sorted, Kinds about names and ranges.
--
-- Registry (src/types/registry_key.rs, src/state.rs). Api is `luaL_ref`, `luaL_unref` and the registry
-- table with their laws; Ops has the operations on keys; World keeps every key with the value that it
-- stands for, and Keys and Refines relate the slots to it.
--
-- Thread (src/thread.rs, src/util/mod.rs). A coroutine is its status and stack. What `lua_resume` does is
-- an argument. Resume is about single calls, Drive about a future and a stream that are polled to the
-- end, along the list of what the function does, so that no fuel is needed.
--
-- Pool (src/state/raw.rs). The pool of coroutines for async functions, with the threads as a map from their
-- slots. World keeps the threads that are in use; what resetting a thread does is an argument with
-- laws. Hooks that are set on a thread are left out. Clean has the attempts at clearing a thread, Reuse the laws of the pool.
--
-- Table (src/table.rs, src/state/raw.rs). Api is raw access to a table; Raw has the operations, Shift their
-- loops, by recursion on the number of steps; Sequence relates them to lists. The iterator takes fuel,
-- and any fuel above the length is enough.
--
-- Hook (src/hook.rs). The set of triggers, the mask and the count that are passed to `lua_sethook`.
--
-- AppData (src/types/app_data.rs). A map from types, which are numbers, to cells with a borrow flag, and
-- the count of guards. World keeps the guards that stand, Borrows has the laws.
--
-- Multi (src/multi.rs, src/traits.rs). Conversion between Rust values and lists of Lua values, on a list
-- and on the stack. The conversion of a single value is a parameter. The macro for tuples is one step for
-- each name, composed as the macro lays them out, so that tuples of any length are covered.
--
-- RefStack (src/state/util.rs, src/state/raw.rs, src/state/extra.rs, src/types/value_ref.rs). References
-- to Lua values are slots of the stack of an auxiliary thread, with a list of free slots and a pool of
-- failures made in advance. Whether Lua can grow the stack is an argument of each step. The loop that
-- halves its request has the request plus one as fuel, which is enough by `grow_lem`.
--
-- Chunk (src/chunk.rs). The mode of a chunk, its compilation and the cache of compiled chunks; compilation is that of
-- the builds other than Luau. Loading bytes and dumping a function are Lua's.
--
-- Bind (src/function.rs). Functions with some of their arguments fixed; the rotation of a stack is Lua's.
--
-- Meta (src/userdata.rs, src/userdata/registry.rs, src/state/raw.rs, src/util/userdata.rs). The metatable that the
-- lists of a registry become, and the index function that its userdata have; Precedence has what a name is
-- found as, Register and Latest how the lists are filled, Names the names of metamethods. Callbacks are values, and a table is a list of entries.
--
-- Texts (src/conversion.rs, src/state.rs). Strings, characters and handles, made from Lua values and turned into
-- them; what the standard library says of bytes is an argument.
--
-- Index (src/util/userdata.rs). The index function of userdata, which is Lua code that mlua generates.
--
-- Scope (src/scope.rs, src/state/raw.rs). What a scope gives to Lua, and its end. A handle is a number; World
-- says what may happen before the end, Ending what the destructors do. The end gives the list of what runs of
-- the user's code, each with the state of Lua that it finds.
--
-- SafeMode (src/stdlib.rs, src/state.rs, src/state/raw.rs). The sets of standard libraries, how they are
-- loaded in turn, and what a safe instance refuses and disables, in the builds other than Luau. Whether
-- Lua can open a library, or do a step of disabling C modules, is an argument.
--
-- Serde (src/serde/ser.rs, src/serde/de.rs). Ser turns the calls that serde makes for data into Lua values,
-- with tables in a heap, and De turns values into calls of a visitor, with the set of tables that it is
-- inside of. De takes fuel, of which more than the number of unvisited tables is enough (Termination).
-- Roundtrip goes from data to values and back. Lookup is about the tables that are made.
--
-- Serde/Serializable and Serde/Agree (src/value.rs, src/table.rs) are about the serialization of Lua values,
-- which is compared with De. The length that Lua gives for a table is an argument there; elsewhere in Serde
-- it is that of the values before the first nil, as for tables without holes.
--
-- Convert (src/conversion.rs, src/state.rs, src/value.rs). Conversions of numbers, over `cast` of num-traits
-- and what Lua can read as a number, and of what holds other values, on the values and the heap of
-- Serde. Agree compares the stack with values, Sequence and Sets go there and back.
--
-- Base has the names that all share: Boolean tests, lists by native index, words and signed integers.
--
-- Not modelled: the bindings in mlua-sys and the macros in mlua_derive, which are foreign code and code
-- that runs in the compiler; conversions of maps, buffers, errors, async functions,
-- and Luau's require; the locks between OS threads.
pub mod Base
pub mod Memory
pub mod UserData
pub mod Registry
pub mod Thread
pub mod Table
pub mod Hook
pub mod AppData
pub mod Multi
pub mod RefStack
pub mod SafeMode
pub mod Serde
pub mod Convert
pub mod Pool
pub mod Scope
pub mod Index
pub mod Chunk
pub mod Bind
pub mod Methods
pub mod Types
pub mod Values
pub mod Meta
pub mod Texts
