-- ===== src/Memory/Tests.antt =====
-- The theorems on the allocator at concrete calls, and runs of it.
use mlua.Base.{◌+◌, ◌≡◌, refl, false, [], ◌∷◌, none, some, arith, ◌↔◌, ◌<◌}
use mlua.Memory.{MemoryState, null, allocator, default, relax_limit_with}
use mlua.Memory.Vm.{Vm, Request, IsHonest, start, call, total, others}
use mlua.Memory.Limit.{
  IsCounted, Reach-IsCounted, allocator-shrink_refused, allocator-layout_charged,
}

-- Two blocks of 100 and 60 bytes, under a limit of 200.
abbrev memory : MemoryState
memory = record {
  used_memory = 160;
  memory_limit = 200;
  ignore_limit = false;
  limit_reached = false;
}

abbrev vm : Vm
vm = record { memory = memory; blocks = (4096, 100) ∷ (8192, 60) ∷ [] }

abbrev low : MemoryState
low = record memory { memory_limit = 50 }

abbrev grow : Request
grow = record { ptr = some 8192; osize = 60; nsize = 90; answer = some 8192 }

grow-IsHonest : IsHonest vm grow
grow-IsHonest = record { owns = refl; rounds = omega arith; backed = λ p e. omega arith }

first : Request
first = record { ptr = none; osize = 0; nsize = 100; answer = some 4096 }

Reach-IsCounted_example :
    IsCounted (record { memory = record default { used_memory = 100 }; blocks = (4096, 100) ∷ [] })
unfolding default allocator
Reach-IsCounted_example = Reach-IsCounted (
    call (record { ptr = none; osize = 0; nsize = 100; answer = some 4096 }) start
      (record { owns = tt; rounds = omega arith; backed = λ p e. omega arith }) (λ e. cc))

allocator-shrink_refused_example :
    (((allocator low (some 4096) 100 40 (some 4096)).1 ≡ null) ↔ (
      (0 < low.memory_limit)
      × (low.ignore_limit ≡ false)
      × (low.memory_limit < total (others (some 4096) vm.blocks) + 40)))
    × ((allocator low (some 4096) 100 40 (some 4096)).1 ≡ null
        → ((allocator low (some 4096) 100 40 (some 4096)).0.used_memory ≡ total vm.blocks)
          × ((allocator low (some 4096) 100 40 (some 4096)).0.memory_limit ≡ low.memory_limit))
allocator-shrink_refused_example =
    allocator-shrink_refused low 4096 100 40 (some 4096) vm.blocks refl refl (omega arith)
      (omega arith) (omega arith) (omega arith)

allocator-layout_charged_example :
    let (m', out) = allocator default none 0 9223372036854775800 none in
    (out ≡ null) × (m'.used_memory ≡ 9223372036854775800)
unfolding default
allocator-layout_charged_example =
    allocator-layout_charged default 0 9223372036854775800 none refl (omega arith) (omega arith)
      (omega arith)

-- A push with the limit off succeeds where it would be refused, and the limit is back afterwards.
relaxed_call :
    relax_limit_with
      (some memory)
      (λ m. elim m [ none ↦ none | some s ↦ some (allocator s none 0 60 (some 1)).0 ])
    ≡ some (record memory { used_memory = 220 })
unfolding relax_limit_with allocator
relaxed_call = refl
