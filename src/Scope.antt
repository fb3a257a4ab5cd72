-- ===== src/Scope.antt =====
-- src/scope.rs: callbacks and userdata that live until the end of a scope. A value is known by the slot of
-- its handle; `data` is what Rust owns, which goes when the value is destructed.
pub mod Ending
pub mod World
mod Tests
use mlua.Base.{
  ℕ, suc, Bool, true, false, Option, none, some, List, [], ◌∷◌, ◌++◌, ◌==◌, if◌then◌else◌,
}

-- A callback, a userdata of a type that Lua knows, or one with a metatable of its own.
pub data Kind : Type 0 where
  callback typed_userdata unique_userdata : Kind

-- What Lua holds: the data of each handle, none once it is destructed, and whether the handle's own
-- metatable is registered. `next` is the next handle.
pub record Lua (D : Type 0) : Type 0 where
  pub data_of : ℕ → Option D
  pub registered : ℕ → Bool
  pub next : ℕ

-- A destructor is told by its handle and kind; a user's destructor is a number.
pub record Scope : Type 0 where
  pub destructors : List (ℕ × Kind)
  pub user_destructors : List ℕ

-- What runs at the end of a scope: the `Drop` of data, and a user's destructor.
pub data Event (D : Type 0) : Type 0 where
  dropped : D → Event D
  called : ℕ → Event D

unfoldable pub new : Scope
new = record { destructors = []; user_destructors = [] }

unfoldable pub is_unique : Kind → Bool
is_unique unique_userdata = true
is_unique kind = false

unfoldable pub add_destructor : ℕ → Scope → Scope
add_destructor destructor scope = record scope {
  user_destructors = scope.user_destructors ++ destructor ∷ [];
}

module _ {D : Type 0} where
  -- `create_function`, `create_userdata_ref` and their like, `create_userdata`.
  unfoldable pub create : Kind → D → Lua D × Scope → Lua D × Scope
  unfolding is_unique
  create kind data' (lua, scope) = (
    record {
      data_of = λ k. if k == lua.next then some data' else lua.data_of k;
      registered = λ k. if k == lua.next then is_unique kind else lua.registered k;
      next = suc lua.next;
    },
    record scope { destructors = scope.destructors ++ (lua.next, kind) ∷ [] },
  )

  -- The data of a handle is taken out: of the upvalue, or with `take_userdata`.
  unfoldable pub take : ℕ → Lua D → Lua D
  take i lua = record lua { data_of = λ k. if k == i then none else lua.data_of k }

  unfoldable pub deregister_userdata_metatable : ℕ → Lua D → Lua D
  deregister_userdata_metatable i lua = record lua {
    registered = λ k. if k == i then false else lua.registered k;
  }

  -- What a destructor returns to be dropped.
  abbrev pub to_list : Option D → List D
  to_list none = []
  to_list (some d) = d ∷ []

  -- The destructor of `seal_userdata`, for what `push_userdata_ref` finds.
  unfoldable pub sealed : Bool → ℕ → Option D → Lua D → Lua D × List D
  unfolding take deregister_userdata_metatable
  sealed unique i none lua = (lua, [])
  sealed unique i (some d) lua =
      (take i (if unique then deregister_userdata_metatable i lua else lua), d ∷ [])

  unfoldable pub destructor : ℕ × Kind → Lua D → Lua D × List D
  unfolding sealed take
  destructor (i, callback) lua = (take i lua, to_list (lua.data_of i))
  destructor (i, typed_userdata) lua = sealed false i (lua.data_of i) lua
  destructor (i, unique_userdata) lua = sealed true i (lua.data_of i) lua

  -- `flat_map` and `collect`: all destructors run before anything is dropped.
  unfoldable pub run_all : List (ℕ × Kind) → Lua D → Lua D × List D
  unfolding destructor
  run_all [] lua = (lua, [])
  run_all (d ∷ ds) lua =
      let (lua', data') = destructor d lua in
      let (lua'', more) = run_all ds lua' in (lua'', data' ++ more)

  -- `drop(to_drop)`, and the calls of the user's destructors: each with what it finds in Lua.
  unfoldable pub drop_all : Lua D → List D → List (Event D × Lua D)
  drop_all lua [] = []
  drop_all lua (d ∷ ds) = (dropped d, lua) ∷ drop_all lua ds

  unfoldable pub call_all : Lua D → List ℕ → List (Event D × Lua D)
  call_all lua [] = []
  call_all lua (n ∷ ns) = (called n, lua) ∷ call_all lua ns

  -- The end of a scope: the destructors of Lua's values all run before anything is dropped, and those of
  -- the user follow. The list is what runs of the user's code, in order.
  unfoldable pub drop : Lua D × Scope → Lua D × List (Event D × Lua D)
  unfolding run_all drop_all call_all
  drop (lua, scope) =
      let (lua', to_drop) = run_all scope.destructors lua in
      (lua', drop_all lua' to_drop ++ call_all lua' scope.user_destructors)

  -- A call of a callback finds its function, or fails with `CallbackDestructed`.
  unfoldable pub call_callback : ℕ → Lua D → Option D
  call_callback i lua = lua.data_of i
