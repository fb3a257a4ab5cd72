-- ===== src/Memory/Limit.antt =====
-- The accounting and the limit of src/memory.rs, over the calls of Memory.Vm.
use mlua.Base.{ℕ, ◌+◌, ◌≤◌, ◌≡◌, ◌≢◌, Option, none, some, arith, refl, ◌<◌, false, true, ◌↔◌}
use mlua.Base.Word.{isize_max}
use mlua.Memory.{MemoryState, aborted, allocator, default, null, set_memory_limit, pointer}
use mlua.Memory.Vm.{
  total, others, total-others, blocks_after, Owns, Vm, Blocks, Request, IsHonest, Reach, start,
  outcome, call, limited, serve, relaxed,
}

-- The counter is the number of bytes that Lua holds, and has not wrapped.
pub record IsCounted (v : Vm) : Type 0 where
  pub exact : v.memory.used_memory ≡ total v.blocks
  pub bounded : total v.blocks ≤ isize_max

allocator-exact :
    (m : MemoryState) (ptr : Option ℕ) (osize nsize : ℕ) (answer : Option ℕ) (bs : Blocks)
    → m.used_memory ≡ total bs
    → total bs ≤ isize_max
    → Owns ptr osize bs
    → nsize + 15 ≤ isize_max
    → ((p : ℕ) → answer ≡ some p → total (others ptr bs) + nsize ≤ isize_max)
    → (allocator m ptr osize nsize answer).1 ≢ aborted
    → let (m', out) = allocator m ptr osize nsize answer in
      let bs' : Blocks = blocks_after ptr nsize out bs in
      (m'.used_memory ≡ total bs') × (total bs' ≤ isize_max)
unfolding allocator
allocator-exact m none osize nsize none bs e b o r k ab = ground (arith)
allocator-exact m none osize nsize (some q) bs e b o r k ab = ground (arith, k q refl)
allocator-exact m (some p) osize nsize none bs e b o r k ab =
    ground (arith, total-others (some p) osize bs o)
allocator-exact m (some p) osize nsize (some q) bs e b o r k ab =
    ground (arith, k q refl, total-others (some p) osize bs o)

-- In every state that a Lua instance reaches by honest calls, `used_memory` is the number of bytes
-- that Lua holds, and it is at most `isize::MAX`.
pub Reach-IsCounted : {v : Vm} → Reach v → IsCounted v
unfolding default set_memory_limit
Reach-IsCounted start = record { exact = refl; bounded = omega arith }
Reach-IsCounted (call {v = v} r s h ab) =
    let c = Reach-IsCounted s in
    let k =
      allocator-exact v.memory r.ptr r.osize r.nsize r.answer v.blocks c.exact c.bounded h.owns
        h.rounds h.backed ab in
    record { exact = k.0; bounded = k.1 }
Reach-IsCounted (limited n s) = let c = Reach-IsCounted s in ground arith
Reach-IsCounted (relaxed b s) = let c = Reach-IsCounted s in ground arith

allocator-le-limit :
    (m : MemoryState) (ptr : Option ℕ) (osize nsize : ℕ) (answer : Option ℕ) (bs : Blocks)
    → m.used_memory ≡ total bs
    → total bs ≤ isize_max
    → Owns ptr osize bs
    → nsize + 15 ≤ isize_max
    → ((p : ℕ) → answer ≡ some p → total (others ptr bs) + nsize ≤ isize_max)
    → m.ignore_limit ≡ false
    → 0 < m.memory_limit
    → m.memory_limit ≤ isize_max
    → (p : ℕ) → (allocator m ptr osize nsize answer).1 ≡ pointer p
    → total (others ptr bs) + nsize ≤ m.memory_limit
unfolding allocator
allocator-le-limit m none osize nsize none bs e b o r k i l u p h = ground arith
allocator-le-limit m none osize nsize (some q) bs e b o r k i l u p h = ground (arith, k q refl)
allocator-le-limit m (some x) osize nsize none bs e b o r k i l u p h = ground arith
allocator-le-limit m (some x) osize nsize (some q) bs e b o r k i l u p h =
    ground (arith, k q refl, total-others (some x) osize bs o)

-- In a state where the counter is right, under a positive limit that is not ignored, a call that
-- returns a block leaves Lua with at most `memory_limit` bytes.
pub serve-le-limit :
    (v : Vm) (r : Request)
    → IsCounted v
    → IsHonest v r
    → v.memory.ignore_limit ≡ false
    → 0 < v.memory.memory_limit
    → v.memory.memory_limit ≤ isize_max
    → (p : ℕ) → outcome v r ≡ pointer p
    → total (serve v r).blocks ≤ v.memory.memory_limit
serve-le-limit v r c h i l u p e = rw e (
    omega (
      arith,
      allocator-le-limit v.memory r.ptr r.osize r.nsize r.answer v.blocks c.exact c.bounded h.owns
          h.rounds h.backed i l u p e,
    ))

-- Where the counter is right and the new total would fit `isize`, a call for a positive size is
-- refused exactly when the limit is positive, not ignored and below the new total.
pub allocator-refused :
    (m : MemoryState) (ptr : Option ℕ) (osize nsize : ℕ) (answer : Option ℕ) (bs : Blocks)
    → m.used_memory ≡ total bs
    → Owns ptr osize bs
    → m.memory_limit ≤ isize_max
    → 0 < nsize
    → nsize + 15 ≤ isize_max
    → total bs ≤ isize_max
    → total (others ptr bs) + nsize ≤ isize_max
    → ((allocator m ptr osize nsize answer).1 ≡ null) ↔ (
        (0 < m.memory_limit)
        × (m.ignore_limit ≡ false)
        × (m.memory_limit < total (others ptr bs) + nsize))
unfolding allocator
allocator-refused m none osize nsize answer bs e o l p r b f = ground arith
allocator-refused m (some q) osize nsize answer bs e o l p r b f =
    ground (arith, total-others (some q) osize bs o)

-- A call for a positive size that is refused leaves the accounting as it was, sizes within 15 bytes
-- of `isize::MAX` apart, and reports `limit_reached` where it was refused for the limit; every
-- other call clears the report.
pub allocator-refusal_keeps :
    (m : MemoryState) (ptr : Option ℕ) (osize nsize : ℕ) (answer : Option ℕ)
    → 0 < nsize
    → nsize + 15 ≤ isize_max
    → let (m', out) = allocator m ptr osize nsize answer in
      (out ≡ null → (m'.used_memory ≡ m.used_memory) × (m'.limit_reached ≡ true))
      × (out ≢ null → m'.limit_reached ≡ false)
      × (m'.memory_limit ≡ m.memory_limit)
      × (m'.ignore_limit ≡ m.ignore_limit)
unfolding allocator
allocator-refusal_keeps m none osize nsize none p r = ground arith
allocator-refusal_keeps m none osize nsize (some q) p r = ground arith
allocator-refusal_keeps m (some x) osize nsize none p r = ground arith
allocator-refusal_keeps m (some x) osize nsize (some q) p r = ground arith

-- Where the counter is right, a call that makes a block smaller, but not free, is refused exactly when
-- the limit is positive, not ignored and below what would stay in use, although the call asks for no more
-- memory than it gives up; a call that is refused changes neither the counter nor the limit.
pub allocator-shrink_refused :
    (m : MemoryState) (p osize nsize : ℕ) (answer : Option ℕ) (bs : Blocks)
    → m.used_memory ≡ total bs
    → Owns (some p) osize bs
    → 0 < nsize
    → nsize ≤ osize
    → total bs ≤ isize_max
    → m.memory_limit ≤ isize_max
    → (((allocator m (some p) osize nsize answer).1 ≡ null) ↔ (
        (0 < m.memory_limit)
        × (m.ignore_limit ≡ false)
        × (m.memory_limit < total (others (some p) bs) + nsize)))
      × ((allocator m (some p) osize nsize answer).1 ≡ null
          → ((allocator m (some p) osize nsize answer).0.used_memory ≡ total bs)
            × ((allocator m (some p) osize nsize answer).0.memory_limit ≡ m.memory_limit))
unfolding allocator
allocator-shrink_refused m p osize nsize answer bs e o pos le b l = (
  ground (arith, total-others (some p) osize bs o),
  λ h. ground (arith, total-others (some p) osize bs o),
)

-- A new block of a size that `Layout` refuses, within 15 bytes of `isize::MAX`, is charged although
-- null is returned: without a limit the counter grows by the size.
pub allocator-layout_charged :
    (m : MemoryState) (osize nsize : ℕ) (answer : Option ℕ)
    → m.memory_limit ≡ 0
    → m.used_memory + nsize < 18446744073709551616
    → nsize ≤ isize_max
    → isize_max < nsize + 15
    → let (m', out) = allocator m none osize nsize answer in
      (out ≡ null) × (m'.used_memory ≡ m.used_memory + nsize)
unfolding allocator
allocator-layout_charged m osize nsize answer z f le over = ground arith
