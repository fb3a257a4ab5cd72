-- ===== src/Meta/Latest.antt =====
-- The last method that is registered under a name is the one that is called, src/userdata/registry.rs.
use Prim.Native.String.{String}
use text.Mathlib.Text.{◌==◌}
use mlua.Base.{◌≡◌, some, Bool, true, false, List, if◌then◌else◌}
use mlua.Index
use mlua.Meta.{RawUserDataRegistry}
use mlua.Meta.Lookup.{last, or_else}
use mlua.Meta.Precedence.{method_of}
use mlua.Meta.Register.{
  add_method, add_method_mut, add_function, add_function_mut, add_async_method, add_async_function,
}

module _ {V : Type 0} where
  -- What a name is found as among the methods once another was registered: async methods come first.
  abbrev Latest : String → V → RawUserDataRegistry V → RawUserDataRegistry V → String → Type 0
  Latest j x registry added k =
      method_of added k
      ≡ or_else (last k registry.async_methods) (if j == k then some x else last k registry.methods)

  abbrev LatestAsync : String → V → RawUserDataRegistry V → RawUserDataRegistry V → String → Type 0
  LatestAsync j x registry added k =
      method_of added k ≡ (if j == k then some x else method_of registry k)

  -- What registers a method or function, and whether it is async.
  pub data Adds (j : String) (x : V) (registry : RawUserDataRegistry V)
      : Bool → RawUserDataRegistry V → Type 0 where
    method : Adds j x registry false (add_method j x registry)
    method_mut : Adds j x registry false (add_method_mut j x registry)
    function' : Adds j x registry false (add_function j x registry)
    function_mut : Adds j x registry false (add_function_mut j x registry)
    async_method : Adds j x registry true (add_async_method j x registry)
    async_function : Adds j x registry true (add_async_function j x registry)
