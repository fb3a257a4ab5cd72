-- ===== src/Pool/Tests.antt =====
-- A pool with room for one thread, of which one was taken and given back, in Lua 5.4.
use mlua.Pool.Reuse.{IsNew, IsClean, Reach-IsClean, create_recycled_thread-IsNew}
use mlua.Pool.Clean.{Resets}
use mlua.Pool.World.{count, World, Reach, create, run, recycle, start, next}
use mlua.Pool.{LuaThread, lua54, create_recycled_thread, create_thread, recycle_thread, set_thread}
use mlua.Base.{ℕ, Bool, true, false, [], ◌∷◌, ◌≡◌, ◌≢◌, refl, arith}

abbrev reset : LuaThread ℕ → Bool × LuaThread ℕ
reset t = (true, record t { status_ok = true; stack = [] })

reset-Resets : Resets reset lua54
reset-Resets t h = (refl, refl)

-- Thread 0 yields with 8 on its stack.
abbrev given_back : World reset lua54
given_back = record {
  extra =
      (recycle_thread reset lua54 0 (
        set_thread 0 (record { status_ok = false; stack = 8 ∷ []; globals = 2 })
          (create_recycled_thread lua54 1 7 0 (record {
            thread_pool = [];
            capacity = 1;
            threads = λ k. record { status_ok = true; stack = []; globals = 1 };
          })).0)).0;
  used = [];
}

given_back-Reach : Reach reset lua54 given_back
unfolding create_recycled_thread set_thread recycle_thread
given_back-Reach =
    next
      (next
        (next (start 1 (λ k. record { status_ok = true; stack = []; globals = 1 }))
          (create 1 7 0 refl refl))
        (run 0 (record { status_ok = false; stack = 8 ∷ []; globals = 2 }) (omega arith)))
      (recycle 0 (omega arith))

Reach-IsClean_example : IsClean reset lua54 reset-Resets given_back.extra given_back.used
Reach-IsClean_example = Reach-IsClean reset lua54 reset-Resets given_back given_back-Reach

given_back_free : count 5 given_back.extra.thread_pool ≡ 0
unfolding create_recycled_thread set_thread recycle_thread
given_back_free = refl

create_recycled_thread-IsNew_example :
    let (e, taken) = create_recycled_thread lua54 1 9 5 given_back.extra in
    (count taken [] ≡ 0)
    × IsNew reset lua54 reset-Resets (e.threads taken) 9 1
    × IsNew reset lua54 reset-Resets ((create_thread 1 9 5 given_back.extra).threads 5) 9 1
    × ((k : ℕ) → k ≢ taken → e.threads k ≡ given_back.extra.threads k)
create_recycled_thread-IsNew_example =
    create_recycled_thread-IsNew reset lua54 reset-Resets given_back 1 9 5 given_back-Reach
      given_back_free refl
