-- ===== src/Memory/Vm.antt =====
-- The calls that a Lua state makes of the allocator, with the blocks that it holds as a ghost.
use mlua.Base.{
  ℕ, ◌+◌, ◌≤◌, ◌≡◌, ◌≢◌, Bool, Option, none, some, List, [], ◌∷◌, arith, ◌==◌, if◌then◌else◌,
}
use mlua.Base.Word.{isize_max}
use mlua.Memory.{MemoryState, default, Outcome, null, pointer, aborted, allocator, set_memory_limit}

-- The blocks that Lua holds: address and size.
abbrev pub Blocks : Type 0
Blocks = List (ℕ × ℕ)

abbrev pub total : Blocks → ℕ
total [] = 0
total ((p, n) ∷ bs) = n + total bs

abbrev pub size_of : ℕ → Blocks → Option ℕ
size_of p [] = none
size_of p ((q, n) ∷ bs) = if p == q then some n else size_of p bs

abbrev drop_at : ℕ → Blocks → Blocks
drop_at p [] = []
drop_at p ((q, n) ∷ bs) = if p == q then bs else (q, n) ∷ drop_at p bs

-- The other blocks; for a null pointer, all of them.
abbrev pub others : Option ℕ → Blocks → Blocks
others none bs = bs
others (some p) bs = drop_at p bs

-- Lua names a block of its own, with its size; with a null pointer `osize` is only a hint.
abbrev pub Owns : Option ℕ → ℕ → Blocks → Type 0
Owns none osize bs = Unit {0}
Owns (some p) osize bs = size_of p bs ≡ some osize

-- The size that a call gives up.
abbrev pub given_up : Option ℕ → ℕ → ℕ
given_up none osize = 0
given_up (some p) osize = osize

-- What Lua holds after a call: one that frees gives the block back, one that is refused changes
-- nothing, any other exchanges the block for the new one.
abbrev pub blocks_after : Option ℕ → ℕ → Outcome → Blocks → Blocks
blocks_after ptr nsize (pointer p) bs = (p, nsize) ∷ others ptr bs
blocks_after ptr nsize aborted bs = bs
blocks_after ptr nsize null bs = if nsize == 0 then others ptr bs else bs

total-drop_at :
    (p osize : ℕ) (bs : Blocks)
    → size_of p bs ≡ some osize
    → total (drop_at p bs) + osize ≡ total bs
total-drop_at p osize [] h = ground arith
total-drop_at p osize ((q, n) ∷ bs) h = ground (arith, total-drop_at p osize bs)

pub total-others :
    (ptr : Option ℕ) (osize : ℕ) (bs : Blocks)
    → Owns ptr osize bs
    → total (others ptr bs) + given_up ptr osize ≡ total bs
total-others none osize bs h = omega arith
total-others (some p) osize bs h = total-drop_at p osize bs h

pub record Vm : Type 0 where
  pub memory : MemoryState
  pub blocks : Blocks

-- A call of the allocator, with the answer that the global allocator gives in it.
pub record Request : Type 0 where
  pub ptr : Option ℕ
  pub osize : ℕ
  pub nsize : ℕ
  pub answer : Option ℕ

abbrev pub outcome : Vm → Request → Outcome
outcome v r = (allocator v.memory r.ptr r.osize r.nsize r.answer).1

abbrev pub serve : Vm → Request → Vm
serve v r = record {
  memory = (allocator v.memory r.ptr r.osize r.nsize r.answer).0;
  blocks = blocks_after r.ptr r.nsize (outcome v r) v.blocks;
}

-- What is relied on: Lua resizes and frees its own blocks, asks for less than `isize::MAX` rounded
-- down to the alignment, and what the global allocator has handed out fits the address space.
pub record IsHonest (v : Vm) (r : Request) : Type 0 where
  pub owns : Owns r.ptr r.osize v.blocks
  pub rounds : r.nsize + 15 ≤ isize_max
  pub backed : (p : ℕ) → r.answer ≡ some p → total (others r.ptr v.blocks) + r.nsize ≤ isize_max

-- The states of a Lua instance: calls of the allocator, changes of the limit, and the switch that
-- `relax_limit_with` sets and clears.
pub data Reach : Vm → Type 0 where
  start : Reach (record { memory = default; blocks = [] })
  call : {v : Vm} (r : Request) → Reach v → IsHonest v r → outcome v r ≢ aborted → Reach (serve v r)
  limited :
      {v : Vm} (n : ℕ) → Reach v → Reach (record v { memory = (set_memory_limit v.memory n).0 })
  relaxed :
      {v : Vm} (b : Bool)
      → Reach v
      → Reach (record v { memory = record v.memory { ignore_limit = b } })
