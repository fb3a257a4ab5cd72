-- ===== src/Registry/Ops.antt =====
-- `RegistryKey` and the operations on it. An `Arc` is its address, the c_int `LUA_REFNIL` (-1) is
-- `ref_nil`, and a `Vec` has its last entry at the head of the list.
use mlua.Base.{ℕ, Bool, Option, none, some, List, [], ◌∷◌, ◌==◌, if◌then◌else◌}
use mlua.Registry.Api.{RegistryApi}

pub data Error : Type 0 where
  mismatched_registry_key stack_error memory_error conversion_error : Error

pub data Result (A : Type 0) : Type 0 where
  ok : A → Result A
  err : Error → Result A

infixl 5 ◌>>=◌
abbrev pub ◌>>=◌ : {A B : Type 0} → Result A → (A → Result B) → Result B
ok a >>= f = f a
err e >>= f = err e

pub data RegistryId : Type 0 where
  ref_nil : RegistryId
  slot : ℕ → RegistryId

pub record RegistryKey : Type 0 where
  pub registry_id : RegistryId
  pub unref_list : ℕ

-- What the environment of one call does: whether the stack can grow, whether a memory error cannot
-- happen (`unlikely_memory_error`), and whether the protected call succeeds otherwise.
pub record Env : Type 0 where
  pub stack_grows : Bool
  pub unlikely_memory_error : Bool
  pub protect_ok : Bool

module _ {V : Type 0} (A : RegistryApi V) where
  open A use {Table, lual_ref, lual_unref, rawseti, rawgeti}

  -- A Lua instance: the registry, the address of its unref list and the list, `none` once it is
  -- dropped.
  pub record Lua : Type 0 where
    pub registry : Table
    pub list_id : ℕ
    pub unref_list : Option (List ℕ)

  unfoldable pub owns_registry_value : Lua → RegistryKey → Bool
  owns_registry_value l key = key.unref_list == l.list_id

  -- `Drop for RegistryKey`, for a key of this instance.
  unfoldable pub drop_key : Lua → RegistryKey → Lua
  drop_key l key = elim key.registry_id [
    | ref_nil ↦ l
    | slot i ↦ elim l.unref_list [
      | none ↦ l
      | some list ↦ record l { unref_list = some (i ∷ list) }
    ]
  ]

  pub new_key : Lua → RegistryId → RegistryKey
  new_key l i = record { registry_id = i; unref_list = l.list_id }

  -- A new slot, where no released one can be reused.
  unfoldable pub allocate_slot : Env → Lua → V → Lua × Result RegistryKey
  unfolding new_key
  allocate_slot e l v =
      let (t, i) = lual_ref l.registry v in
      if e.unlikely_memory_error
      then (record l { registry = t }, ok (new_key l (slot i)))
      else (if e.protect_ok
          then (record l { registry = t }, ok (new_key l (slot i)))
          else (l, err memory_error))

  unfoldable pub store_value : Env → Lua → V → Lua × Result RegistryKey
  unfolding allocate_slot new_key
  store_value e l v = elim l.unref_list [
    | none ↦ allocate_slot e l v
    | some [] ↦ allocate_slot e l v
    | some (i ∷ list) ↦ (
      record l { registry = rawseti l.registry i v; unref_list = some list },
      ok (new_key l (slot i)),
    )
  ]

  -- `t` is the value after `push`, which may fail.
  unfoldable pub create_registry_value : Env → Lua → Result (Option V) → Lua × Result RegistryKey
  unfolding store_value new_key
  create_registry_value e l t =
      if e.stack_grows
      then elim t [
        | err x ↦ (l, err x)
        | ok none ↦ (l, ok (new_key l ref_nil))
        | ok (some v) ↦ store_value e l v
      ]
      else (l, err stack_error)

  -- The value that is then converted to the type asked for.
  unfoldable pub registry_value : Env → Lua → RegistryKey → Result (Option V)
  unfolding owns_registry_value
  registry_value e l key =
      if owns_registry_value l key
      then elim key.registry_id [
        | ref_nil ↦ ok none
        | slot i ↦ if e.stack_grows then ok (rawgeti l.registry i) else err stack_error
      ]
      else err mismatched_registry_key

  -- `luaL_unref` does nothing for `LUA_REFNIL`.
  pub unref : Table → RegistryId → Table
  unref t ref_nil = t
  unref t (slot i) = lual_unref t i

  -- A key of another instance is dropped into that instance's list.
  unfoldable pub remove_registry_value : Lua → RegistryKey → Lua × Result (Unit {0})
  unfolding owns_registry_value unref
  remove_registry_value l key =
      if owns_registry_value l key
      then (record l { registry = unref l.registry key.registry_id }, ok tt)
      else (l, err mismatched_registry_key)

  -- The key takes over the slot of a new one.
  unfoldable pub take_new :
      Lua → RegistryKey → Result RegistryKey → Lua × RegistryKey × Result (Unit {0})
  take_new l key (ok k) = (l, record key { registry_id = k.registry_id }, ok tt)
  take_new l key (err x) = (l, key, err x)

  -- The key is updated in place: it is the second component.
  unfoldable pub replace_value :
      Env → Lua → RegistryKey → Option V → Lua × RegistryKey × Result (Unit {0})
  unfolding take_new
  replace_value e l key t = elim t [
    | none ↦ elim key.registry_id [
      | ref_nil ↦ (l, key, ok tt)
      | slot i ↦ (
        record l { registry = lual_unref l.registry i },
        record key { registry_id = ref_nil },
        ok tt,
      )
    ]
    | some v ↦ elim key.registry_id [
      | ref_nil ↦ let (l', r) = create_registry_value e l (ok (some v)) in take_new l' key r
      | slot i ↦ (record l { registry = rawseti l.registry i v }, key, ok tt)
    ]
  ]

  -- `t` is the value after `into_lua`, which may fail.
  unfoldable pub replace_registry_value :
      Env → Lua → RegistryKey → Result (Option V) → Lua × RegistryKey × Result (Unit {0})
  unfolding owns_registry_value replace_value
  replace_registry_value e l key t =
      if owns_registry_value l key
      then elim t [
        | err x ↦ (l, key, err x)
        | ok v ↦ if e.stack_grows then replace_value e l key v else (l, key, err stack_error)
      ]
      else (l, key, err mismatched_registry_key)

  -- Oldest first.
  unfoldable pub unref_all : Table → List ℕ → Table
  unref_all t [] = t
  unref_all t (i ∷ list) = lual_unref (unref_all t list) i

  -- Panics, `none`, if the list is gone.
  unfoldable pub expire_registry_values : Lua → Option Lua
  unfolding unref_all
  expire_registry_values l = elim l.unref_list [
    | none ↦ none
    | some list ↦ some (record l { registry = unref_all l.registry list; unref_list = some [] })
  ]
