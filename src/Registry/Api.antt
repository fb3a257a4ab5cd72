-- ===== src/Registry/Api.antt =====
-- The part of Lua's C API that the registry operations call, with what the reference manual says
-- of it. Lua's values but nil are `V`; `none` is nil.
use mlua.Base.{ℕ, ◌≡◌, ◌≢◌, Bool, true, false, not, ◌&&◌, ◌||◌, Option, some, ◌==◌}

pub record RegistryApi (V : Type 0) : Type 1 where
  pub Table : Type 0
  -- `luaL_ref` for a value that is not nil, `luaL_unref`, `lua_rawseti`, `lua_rawgeti`.
  pub lual_ref : Table → V → Table × ℕ
  pub lual_unref : Table → ℕ → Table
  pub rawseti : Table → ℕ → V → Table
  pub rawgeti : Table → ℕ → Option V
  -- Which references have been handed out and not been released.
  pub in_use : Table → ℕ → Bool
  -- A reference is new, and is the only one that changes its status.
  pub ref_fresh : (t : Table) (v : V) → in_use t (lual_ref t v).1 ≡ false
  pub ref_in_use :
      (t : Table) (v : V) (i : ℕ)
      → in_use (lual_ref t v).0 i ≡ ((lual_ref t v).1 == i || in_use t i)
  pub ref_value : (t : Table) (v : V) → rawgeti (lual_ref t v).0 (lual_ref t v).1 ≡ some v
  pub ref_others :
      (t : Table) (v : V) (i : ℕ) → in_use t i ≡ true → rawgeti (lual_ref t v).0 i ≡ rawgeti t i
  pub unref_in_use :
      (t : Table) (i j : ℕ) → in_use (lual_unref t i) j ≡ (not (i == j) && in_use t j)
  pub unref_others :
      (t : Table) (i j : ℕ) → i ≢ j → in_use t j ≡ true → rawgeti (lual_unref t i) j ≡ rawgeti t j
  pub set_in_use : (t : Table) (i : ℕ) (v : V) (j : ℕ) → in_use (rawseti t i v) j ≡ in_use t j
  pub set_value : (t : Table) (i : ℕ) (v : V) → rawgeti (rawseti t i v) i ≡ some v
  pub set_others :
      (t : Table) (i : ℕ) (v : V) (j : ℕ) → i ≢ j → rawgeti (rawseti t i v) j ≡ rawgeti t j
