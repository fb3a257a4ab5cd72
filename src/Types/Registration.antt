-- ===== src/Types/Registration.antt =====
-- Which metatable a new userdata gets, src/state/raw.rs and src/state.rs.
use mlua.Base.{ℕ, ◌≡◌, ◌≢◌, none, some, arith}
use mlua.Types.{
  Error, ok, err, Lua, World, RawUserDataRegistry, make_any_userdata, register_userdata_type,
  with_metatable,
}

-- What references into the registry are relied on for: a new one leads to its table and leaves the others,
-- a freed one leads to none and leaves the others, and making a table leaves them all.
pub record IsRegistry {S D : Type 0} (lua : Lua S D) : Type 0 where
  pub pushes :
      (s : S) (r : RawUserDataRegistry D) (id : ℕ)
      → lua.rawgeti (lua.push_userdata_metatable s r).0 id ≡ lua.rawgeti s id
  pub new_table :
      (s s' : S) (r : RawUserDataRegistry D) (p id : ℕ)
      → lua.push_userdata_metatable s r ≡ (s', ok p)
      → lua.rawgeti s id ≢ some p
  pub refers : (s s' : S) (p id : ℕ) → lua.reference s p ≡ (s', ok id) → lua.rawgeti s' id ≡ some p
  pub fresh : (s s' : S) (p id : ℕ) → lua.reference s p ≡ (s', ok id) → lua.rawgeti s id ≡ none
  pub keeps :
      (s s' : S) (p id j : ℕ)
      → lua.reference s p ≡ (s', ok id)
      → j ≢ id
      → lua.rawgeti s' j ≡ lua.rawgeti s j
  pub fails :
      (s s' : S) (p j : ℕ) (e : Error)
      → lua.reference s p ≡ (s', err e)
      → lua.rawgeti s' j ≡ lua.rawgeti s j
  pub frees : (s : S) (id : ℕ) → lua.rawgeti (lua.unreference s id) id ≡ none

module _ {S D : Type 0} (lua : Lua S D) where
  -- Registering a type again whose metatable is in use frees the reference to that metatable, but Lua's
  -- state still has the reference for the type: the next userdata of that type is given what a freed reference
  -- leads to, which is no metatable, and not what was registered.
  pub register_userdata_type-stale :
      (t id : ℕ) (contents empty : D) (w : World S D)
      → IsRegistry lua
      → w.extra.registered_userdata_t t ≡ some id
      → (make_any_userdata lua t empty (register_userdata_type lua t contents w)).1 ≡ ok none
  unfolding make_any_userdata register_userdata_type
  register_userdata_type-stale t id contents empty w r e =
      rw (e, with_metatable) (ground (arith, r.frees w.lua id))
