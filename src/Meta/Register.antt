-- ===== src/Meta/Register.antt =====
-- The functions by which a type registers its fields and methods, src/userdata/registry.rs. What their
-- `box_method` and its like return is given.
use Prim.Native.String.{String}
use mlua.Base.{[], ◌∷◌, ◌++◌}
use mlua.Meta.{Field, Result, RawUserDataRegistry, check_meta_field, and_then}

module _ {V : Type 0} where
  unfoldable pub add_field : String → Result V → RawUserDataRegistry V → RawUserDataRegistry V
  add_field k x registry = record registry { fields = registry.fields ++ (k, x) ∷ [] }

  unfoldable pub add_field_method_get : String → V → RawUserDataRegistry V → RawUserDataRegistry V
  add_field_method_get k x registry = record registry {
    field_getters = registry.field_getters ++ (k, x) ∷ [];
  }

  unfoldable pub add_field_method_set : String → V → RawUserDataRegistry V → RawUserDataRegistry V
  add_field_method_set k x registry = record registry {
    field_setters = registry.field_setters ++ (k, x) ∷ [];
  }

  unfoldable pub add_field_function_get : String → V → RawUserDataRegistry V → RawUserDataRegistry V
  add_field_function_get k x registry = record registry {
    field_getters = registry.field_getters ++ (k, x) ∷ [];
  }

  unfoldable pub add_field_function_set : String → V → RawUserDataRegistry V → RawUserDataRegistry V
  add_field_function_set k x registry = record registry {
    field_setters = registry.field_setters ++ (k, x) ∷ [];
  }

  unfoldable pub add_meta_field :
      String → Result (Field V) → RawUserDataRegistry V → RawUserDataRegistry V
  unfolding check_meta_field and_then
  add_meta_field k v registry = record registry {
    meta_fields = registry.meta_fields ++ (k, and_then v (check_meta_field k)) ∷ [];
  }

  unfoldable pub add_method : String → V → RawUserDataRegistry V → RawUserDataRegistry V
  add_method k x registry = record registry { methods = registry.methods ++ (k, x) ∷ [] }

  unfoldable pub add_method_mut : String → V → RawUserDataRegistry V → RawUserDataRegistry V
  add_method_mut k x registry = record registry { methods = registry.methods ++ (k, x) ∷ [] }

  unfoldable pub add_async_method : String → V → RawUserDataRegistry V → RawUserDataRegistry V
  add_async_method k x registry = record registry {
    async_methods = registry.async_methods ++ (k, x) ∷ [];
  }

  unfoldable pub add_function : String → V → RawUserDataRegistry V → RawUserDataRegistry V
  add_function k x registry = record registry { methods = registry.methods ++ (k, x) ∷ [] }

  unfoldable pub add_function_mut : String → V → RawUserDataRegistry V → RawUserDataRegistry V
  add_function_mut k x registry = record registry { methods = registry.methods ++ (k, x) ∷ [] }

  unfoldable pub add_async_function : String → V → RawUserDataRegistry V → RawUserDataRegistry V
  add_async_function k x registry = record registry {
    async_methods = registry.async_methods ++ (k, x) ∷ [];
  }

  unfoldable pub add_meta_method : String → V → RawUserDataRegistry V → RawUserDataRegistry V
  add_meta_method k x registry = record registry {
    meta_methods = registry.meta_methods ++ (k, x) ∷ [];
  }

  unfoldable pub add_meta_method_mut : String → V → RawUserDataRegistry V → RawUserDataRegistry V
  add_meta_method_mut k x registry = record registry {
    meta_methods = registry.meta_methods ++ (k, x) ∷ [];
  }

  unfoldable pub add_async_meta_method : String → V → RawUserDataRegistry V → RawUserDataRegistry V
  add_async_meta_method k x registry = record registry {
    async_meta_methods = registry.async_meta_methods ++ (k, x) ∷ [];
  }

  unfoldable pub add_meta_function : String → V → RawUserDataRegistry V → RawUserDataRegistry V
  add_meta_function k x registry = record registry {
    meta_methods = registry.meta_methods ++ (k, x) ∷ [];
  }

  unfoldable pub add_meta_function_mut : String → V → RawUserDataRegistry V → RawUserDataRegistry V
  add_meta_function_mut k x registry = record registry {
    meta_methods = registry.meta_methods ++ (k, x) ∷ [];
  }

  unfoldable pub add_async_meta_function :
      String → V → RawUserDataRegistry V → RawUserDataRegistry V
  add_async_meta_function k x registry = record registry {
    async_meta_methods = registry.async_meta_methods ++ (k, x) ∷ [];
  }

  -- `register` of a wrapper, whose registry takes over what the wrapped type registers.
  unfoldable pub register : RawUserDataRegistry V → RawUserDataRegistry V → RawUserDataRegistry V
  register orig_registry registry = record registry {
    fields = registry.fields ++ orig_registry.fields;
    field_getters = registry.field_getters ++ orig_registry.field_getters;
    field_setters = registry.field_setters ++ orig_registry.field_setters;
    meta_fields = registry.meta_fields ++ orig_registry.meta_fields;
    methods = registry.methods ++ orig_registry.methods;
    async_methods = registry.async_methods ++ orig_registry.async_methods;
    meta_methods = registry.meta_methods ++ orig_registry.meta_methods;
    async_meta_methods = registry.async_meta_methods ++ orig_registry.async_meta_methods;
  }
