-- ===== src/Types.antt =====
-- The metatables of userdata types, src/state/raw.rs, and `register_userdata_type` of src/state.rs. A type's
-- `TypeId`, the address of a metatable (0 for none) and a reference into the Lua registry are numbers.
pub mod Coherent
pub mod Registration
pub mod Live
mod Tests
use mlua.Base.{ℕ, Bool, true, false, Option, none, some, ◌==◌, if◌then◌else◌}

-- Errors of userdata, and those of Lua.
pub data Error : Type 0 where
  user_data_type_mismatch user_data_destructed : Error
  lua_error : ℕ → Error

pub data Result (A : Type 0) : Type 0 where
  ok : A → Result A
  err : Error → Result A

-- What a type registers, with the type itself unless it has a lifetime.
pub record RawUserDataRegistry (D : Type 0) : Type 0 where
  pub type_id : Option ℕ
  pub contents : D

-- The fields of `ExtraData` about userdata.
pub record Extra (D : Type 0) : Type 0 where
  pub pending_userdata_reg : ℕ → Option (RawUserDataRegistry D)
  pub registered_userdata_t : ℕ → Option ℕ
  pub registered_userdata_mt : ℕ → Option (Option ℕ)
  pub last_checked_userdata_mt : ℕ × Option ℕ

-- The Lua state, with `luaL_ref` and `luaL_unref`: `push_userdata_metatable` gives the address of a new
-- table, references to tables are kept in the registry, and a reference that was freed may lead to none.
pub record Lua (S D : Type 0) : Type 0 where
  pub push_userdata_metatable : S → RawUserDataRegistry D → S × Result ℕ
  pub reference : S → ℕ → S × Result ℕ
  pub unreference : S → ℕ → S
  pub rawgeti : S → ℕ → Option ℕ

pub record World (S D : Type 0) : Type 0 where
  pub lua : S
  pub extra : Extra D

abbrev pub insert : {A : Type 0} → ℕ → A → (ℕ → Option A) → ℕ → Option A
insert k v m j = if j == k then some v else m j

abbrev pub remove : {A : Type 0} → ℕ → (ℕ → Option A) → ℕ → Option A
remove k m j = if j == k then none else m j

-- `TypeId::of::<DestructedUserdata>()`
abbrev pub destructed_type : ℕ
destructed_type = 0

unfoldable pub is_destructed : Option ℕ → Bool
is_destructed none = false
is_destructed (some t) = t == destructed_type

module _ {D : Type 0} where
  unfoldable pub register_userdata_metatable : ℕ → Option ℕ → Extra D → Extra D
  register_userdata_metatable mt_ptr type_id extra = record extra {
    registered_userdata_mt = insert mt_ptr type_id extra.registered_userdata_mt;
  }

  unfoldable pub deregister_userdata_metatable : ℕ → Extra D → Extra D
  deregister_userdata_metatable mt_ptr extra = record extra {
    registered_userdata_mt = remove mt_ptr extra.registered_userdata_mt;
    last_checked_userdata_mt =
        if extra.last_checked_userdata_mt.0 == mt_ptr
        then (0, none)
        else extra.last_checked_userdata_mt;
  }

  -- What the map says of a metatable, which is then remembered.
  unfoldable pub look_up : ℕ → Extra D → Option (Option ℕ) → Extra D × Result (Option ℕ)
  unfolding is_destructed
  look_up mt_ptr extra none = (extra, err user_data_type_mismatch)
  look_up mt_ptr extra (some type_id) =
      if is_destructed type_id
      then (extra, err user_data_destructed)
      else (record extra { last_checked_userdata_mt = (mt_ptr, type_id) }, ok type_id)

  unfoldable pub get_userdata_type_id_inner : ℕ → Extra D → Extra D × Result (Option ℕ)
  unfolding look_up
  get_userdata_type_id_inner mt_ptr extra =
      if mt_ptr == 0
      then (extra, err user_data_type_mismatch)
      else (if extra.last_checked_userdata_mt.0 == mt_ptr
          then (extra, ok extra.last_checked_userdata_mt.1)
          else look_up mt_ptr extra (extra.registered_userdata_mt mt_ptr))

  unfoldable pub registered : Option ℕ → ℕ → Extra D → Extra D
  registered none id extra = extra
  registered (some t) id extra = record extra {
    registered_userdata_t = insert t id extra.registered_userdata_t;
  }

module _ {S D : Type 0} (lua : Lua S D) where
  unfoldable pub referenced : Option ℕ → ℕ → World S D → S × Result ℕ → World S D × Result ℕ
  unfolding registered register_userdata_metatable
  referenced type_id mt_ptr w (s, err e) = (record w { lua = s }, err e)
  referenced type_id mt_ptr w (s, ok id) = (
    record {
      lua = s;
      extra = register_userdata_metatable mt_ptr type_id (registered type_id id w.extra);
    },
    ok id,
  )

  unfoldable pub pushed : Option ℕ → World S D → S × Result ℕ → World S D × Result ℕ
  unfolding referenced
  pushed type_id w (s, err e) = (record w { lua = s }, err e)
  pushed type_id w (s, ok mt_ptr) =
      referenced type_id mt_ptr (record w { lua = s }) (lua.reference s mt_ptr)

  unfoldable pub create_userdata_metatable :
      RawUserDataRegistry D → World S D → World S D × Result ℕ
  unfolding pushed
  create_userdata_metatable registry w =
      pushed registry.type_id w (lua.push_userdata_metatable w.lua registry)

  -- The reference to the metatable of a type in `make_userdata`, whose definition is given, ...
  unfoldable pub get_metatable_id : ℕ → D → World S D → Option ℕ → World S D × Result ℕ
  unfolding create_userdata_metatable
  get_metatable_id t definition w (some table_id) = (w, ok table_id)
  get_metatable_id t definition w none =
      create_userdata_metatable (record { type_id = some t; contents = definition }) w

  -- ... and in `make_any_userdata`, where `empty` registers nothing.
  unfoldable pub take_pending :
      ℕ → D → World S D → Option (RawUserDataRegistry D) → World S D × RawUserDataRegistry D
  take_pending t empty w none = (w, record { type_id = some t; contents = empty })
  take_pending t empty w (some registry) = (
    record w {
      extra = record w.extra { pending_userdata_reg = remove t w.extra.pending_userdata_reg };
    },
    registry,
  )

  unfoldable pub get_any_metatable_id : ℕ → D → World S D → Option ℕ → World S D × Result ℕ
  unfolding create_userdata_metatable take_pending
  get_any_metatable_id t empty w (some table_id) = (w, ok table_id)
  get_any_metatable_id t empty w none =
      let (w', registry) = take_pending t empty w (w.extra.pending_userdata_reg t) in
      create_userdata_metatable registry w'

  -- `make_userdata_with_metatable`: the metatable that the new userdata gets.
  unfoldable pub with_metatable : World S D × Result ℕ → World S D × Result (Option ℕ)
  with_metatable (w, err e) = (w, err e)
  with_metatable (w, ok id) = (w, ok (lua.rawgeti w.lua id))

  unfoldable pub make_userdata : ℕ → D → World S D → World S D × Result (Option ℕ)
  unfolding with_metatable get_metatable_id
  make_userdata t definition w =
      with_metatable (get_metatable_id t definition w (w.extra.registered_userdata_t t))

  unfoldable pub make_any_userdata : ℕ → D → World S D → World S D × Result (Option ℕ)
  unfolding with_metatable get_any_metatable_id
  make_any_userdata t empty w =
      with_metatable (get_any_metatable_id t empty w (w.extra.registered_userdata_t t))

  unfoldable pub unreferenced : Option ℕ → S → S
  unreferenced none s = s
  unreferenced (some table_id) s = lua.unreference s table_id

  -- `register_userdata_type`, with what the given function registers.
  unfoldable pub register_userdata_type : ℕ → D → World S D → World S D
  unfolding unreferenced
  register_userdata_type t contents w = record {
    lua = unreferenced (w.extra.registered_userdata_t t) w.lua;
    extra = record w.extra {
      pending_userdata_reg =
          insert t (record { type_id = some t; contents = contents }) w.extra.pending_userdata_reg;
    };
  }
