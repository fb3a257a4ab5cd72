-- ===== src/Memory.antt =====
-- src/memory.rs: the allocator that a Lua state calls, its accounting and its limit.
-- The fields are `isize` patterns (Base.Word), `limit_reached` is Luau's. The global allocator is
-- not modelled: what it answered to the call is the argument `answer`.
pub mod Vm
pub mod Limit
mod Tests
use mlua.Base.{
  ℕ, ◌+◌, ◌-◌, Bool, true, false, not, ◌&&◌, Option, none, some, ltb, ◌==◌, if◌then◌else◌,
}
use mlua.Base.Word.{isize_max, add_isize, sub_isize, lt_isize}

pub record MemoryState : Type 0 where
  pub used_memory : ℕ
  pub memory_limit : ℕ
  pub ignore_limit : Bool
  pub limit_reached : Bool

-- `MemoryState::default()`
unfoldable pub default : MemoryState
default = record { used_memory = 0; memory_limit = 0; ignore_limit = false; limit_reached = false }

-- Returns the previous limit.
unfoldable pub set_memory_limit : MemoryState → ℕ → MemoryState × ℕ
set_memory_limit m limit = (record m { memory_limit = limit }, m.memory_limit)

-- `f` is what runs with the limit off; without an allocator state it runs alone.
unfoldable pub relax_limit_with :
    Option MemoryState → (Option MemoryState → Option MemoryState) → Option MemoryState
relax_limit_with none f = f none
relax_limit_with (some m) f = elim (f (some (record m { ignore_limit = true }))) [
  | none ↦ none
  | some m' ↦ some (record m' { ignore_limit = false })
]

-- What a call comes to. `aborted` is `handle_alloc_error`, which does not return.
pub data Outcome : Type 0 where
  null : Outcome
  pointer : ℕ → Outcome
  aborted : Outcome

-- `SYS_MIN_ALIGN` on the 64-bit targets.
abbrev pub sys_min_align : ℕ
sys_min_align = 16

-- `Layout::from_size_align` fails if the size, rounded up to the alignment, exceeds `isize::MAX`.
unfoldable pub layout_ok : ℕ → Bool
layout_ok size = not (ltb isize_max (size + (sys_min_align - 1)))

unfoldable pub mem_diff : Option ℕ → ℕ → ℕ → ℕ
mem_diff none osize nsize = nsize
mem_diff (some p) osize nsize = sub_isize nsize osize

unfoldable pub free : MemoryState → Option ℕ → ℕ → MemoryState
free m none osize = m
free m (some p) osize = record m { used_memory = sub_isize m.used_memory osize }

-- The end of a call: what `alloc` or `realloc` gave.
unfoldable pub answered : Option ℕ → Outcome
answered none = aborted
answered (some p) = pointer p

unfoldable pub allocate : Option ℕ → ℕ → Option ℕ → Outcome
unfolding answered layout_ok
allocate none nsize answer = if layout_ok nsize then answered answer else null
allocate (some p) nsize answer = answered answer

-- The test against the limit.
unfoldable pub over_limit : MemoryState → ℕ → Bool
over_limit m new_used =
    lt_isize 0 m.memory_limit && lt_isize m.memory_limit new_used && not m.ignore_limit

unfoldable pub allocator : MemoryState → Option ℕ → ℕ → ℕ → Option ℕ → MemoryState × Outcome
unfolding free mem_diff over_limit allocate
allocator old ptr osize nsize answer =
    let m : MemoryState = record old { limit_reached = false } in
    let used = add_isize m.used_memory (mem_diff ptr osize nsize) in
    if nsize == 0
    then (free m ptr osize, null)
    else if ltb isize_max nsize
    then (m, null)
    else if over_limit m used
    then (record m { limit_reached = true }, null)
    else (record m { used_memory = used }, allocate ptr nsize answer)
