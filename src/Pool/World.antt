-- ===== src/Pool/World.antt =====
-- The pool with the threads that are in use, as ghosts. Lua code may do anything to a thread in use.
use mlua.Pool.{LuaThread, ExtraData, Build, create_recycled_thread, recycle_thread, set_thread}
use mlua.Base.{ℕ, ◌+◌, ◌<◌, ◌≡◌, Bool, List, [], ◌∷◌, ◌==◌, if◌then◌else◌}

abbrev pub count : ℕ → List ℕ → ℕ
count i [] = 0
count i (x ∷ xs) = (if x == i then 1 else 0) + count i xs

abbrev pub remove : ℕ → List ℕ → List ℕ
remove i [] = []
remove i (x ∷ xs) = if x == i then xs else x ∷ remove i xs

module _ {V : Type 0} (lua_resetthread : LuaThread V → Bool × LuaThread V) (build : Build) where
  pub record World : Type 0 where
    pub extra : ExtraData V
    pub used : List ℕ

  pub data Step (w : World) : World → Type 0 where
    -- A slot that a new thread would get is nobody's.
    create :
        (globals : ℕ) (func : V) (slot : ℕ)
        → count slot w.extra.thread_pool ≡ 0
        → count slot w.used ≡ 0
        → Step w (record {
          extra = (create_recycled_thread build globals func slot w.extra).0;
          used = (create_recycled_thread build globals func slot w.extra).1 ∷ w.used;
        })
    run :
        (index : ℕ) (t : LuaThread V)
        → 0 < count index w.used
        → Step w (record w { extra = set_thread index t w.extra })
    recycle :
        (index : ℕ)
        → 0 < count index w.used
        → Step w (record {
          extra = (recycle_thread lua_resetthread build index w.extra).0;
          used = remove index w.used;
        })

  pub data Reach : World → Type 0 where
    start :
        (capacity : ℕ) (threads : ℕ → LuaThread V)
        → Reach (record {
          extra = record { thread_pool = []; capacity = capacity; threads = threads };
          used = [];
        })
    next : {v w : World} → Reach v → Step v w → Reach w
