-- ===== src/Pool.antt =====
-- The pool of coroutines that async functions leave for later ones: `create_recycled_thread` and
-- `recycle_thread` of src/state/raw.rs. A thread is known by its slot of the auxiliary stack.
pub mod World
pub mod Clean
pub mod Reuse
mod Tests
use mlua.Base.{ℕ, Bool, true, false, ◌&&◌, not, List, [], ◌∷◌, ◌++◌, length, ◌==◌, if◌then◌else◌}

-- A Lua thread: whether `lua_status` is `LUA_OK`, its stack from the bottom, and its table of globals, of
-- which it has its own in Luau. Hooks that are set on a thread are left out.
pub record LuaThread (V : Type 0) : Type 0 where
  pub status_ok : Bool
  pub stack : List V
  pub globals : ℕ

-- `ExtraData`, with the threads that Lua has. The pool has its last thread first, and the capacity of
-- its vector is reserved when the Lua state is made.
pub record ExtraData (V : Type 0) : Type 0 where
  pub thread_pool : List ℕ
  pub capacity : ℕ
  pub threads : ℕ → LuaThread V

-- The features of a build that matter here; without either, Lua cannot reset a thread.
pub data Build : Type 0 where
  lua54 luau older : Build

module _ {V : Type 0} where
  unfoldable pub set_thread : ℕ → LuaThread V → ExtraData V → ExtraData V
  set_thread index t extra = record extra {
    threads = λ k. if k == index then t else extra.threads k;
  }

  -- `lua_xpush` of the function.
  unfoldable pub xpush : V → ℕ → ExtraData V → ExtraData V
  unfolding set_thread
  xpush func index extra =
      set_thread index
        (record (extra.threads index) { stack = (extra.threads index).stack ++ func ∷ [] }) extra

  -- `create_thread`, for a new thread that gets a slot, and the globals of the calling thread.
  unfoldable pub create_thread : ℕ → V → ℕ → ExtraData V → ExtraData V
  unfolding set_thread xpush
  create_thread globals func slot extra =
      xpush func slot
        (set_thread slot (record { status_ok = true; stack = []; globals = globals }) extra)

  -- `LUA_GLOBALSINDEX` is inherited from the caller.
  unfoldable pub inherit : Build → ℕ → ℕ → ExtraData V → ExtraData V
  unfolding set_thread
  inherit luau globals index extra =
      set_thread index (record (extra.threads index) { globals = globals }) extra
  inherit lua54 globals index extra = extra
  inherit older globals index extra = extra

  -- The state, and the slot of the thread; `slot` is one that a new thread would get.
  unfoldable pub create_recycled_thread : Build → ℕ → V → ℕ → ExtraData V → ExtraData V × ℕ
  unfolding xpush create_thread inherit
  create_recycled_thread build globals func slot extra = elim extra.thread_pool [
    | [] ↦ (create_thread globals func slot extra, slot)
    | index ∷ rest ↦ (
      inherit build globals index (xpush func index (record extra { thread_pool = rest })),
      index,
    )
  ]

  -- `lua_resetthread` or `lua_closethread`: whether it returns `LUA_OK`, and the thread.
  module _ (lua_resetthread : LuaThread V → Bool × LuaThread V) where
    -- The three attempts at a thread that can be used again, and whether there is one.
    unfoldable pub settop : ℕ → ExtraData V → ExtraData V × Bool
    unfolding set_thread
    settop index extra =
        if (extra.threads index).status_ok
        then (set_thread index (record (extra.threads index) { stack = [] }) extra, true)
        else (extra, false)

    unfoldable pub reset_lua54 : Build → ℕ → ExtraData V × Bool → ExtraData V × Bool
    unfolding set_thread
    reset_lua54 lua54 index (extra, false) =
        let (reset_ok, t) = lua_resetthread (extra.threads index) in
        (set_thread index t extra, reset_ok)
    reset_lua54 build index (extra, reset_ok) = (extra, reset_ok)

    unfoldable pub reset_luau : Build → ℕ → ExtraData V × Bool → ExtraData V × Bool
    unfolding set_thread
    reset_luau luau index (extra, false) =
        (set_thread index (lua_resetthread (extra.threads index)).1 extra, true)
    reset_luau build index (extra, reset_ok) = (extra, reset_ok)

    unfoldable pub close_unpooled : Build → ℕ → ExtraData V → ExtraData V
    unfolding set_thread
    close_unpooled lua54 index extra =
        if (extra.threads index).status_ok
        then extra
        else set_thread index (lua_resetthread (extra.threads index)).1 extra
    close_unpooled build index extra = extra

    -- The state, and whether the thread's reference still drops its slot.
    unfoldable pub recycle_thread : Build → ℕ → ExtraData V → ExtraData V × Bool
    unfolding settop reset_lua54 reset_luau close_unpooled
    recycle_thread build index extra =
        if length extra.thread_pool == extra.capacity
        then (close_unpooled build index extra, true)
        else (let (extra', reset_ok) =
              reset_luau build index (reset_lua54 build index (settop index extra)) in
            if reset_ok
            then (record extra' { thread_pool = index ∷ extra'.thread_pool }, false)
            else (extra', true))
