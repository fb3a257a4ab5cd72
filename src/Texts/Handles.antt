-- ===== src/Texts/Handles.antt =====
-- Handles are read from the values of their kind only, src/conversion.rs.
use mlua.Base.{ℕ, ◌≡◌, ◌↔◌}
use mlua.Values.{Value, light_userdata, table, function, thread, userdata}
use mlua.Texts.{
  ok, table_from_lua, function_from_lua, thread_from_lua, userdata_from_lua,
  light_userdata_from_lua,
}

module _ {F : Type 0} where
  table_lem : (v : Value F) (h : ℕ) → (table_from_lua v ≡ ok h) ↔ (v ≡ table h)
  unfolding table_from_lua
  table_lem (table x) h = (λ e. cc, λ e. cc)
  table_lem v h = (λ e. cc, λ e. cc)

  function_lem : (v : Value F) (h : ℕ) → (function_from_lua v ≡ ok h) ↔ (v ≡ function h)
  unfolding function_from_lua
  function_lem (function x) h = (λ e. cc, λ e. cc)
  function_lem v h = (λ e. cc, λ e. cc)

  thread_lem : (v : Value F) (h : ℕ) → (thread_from_lua v ≡ ok h) ↔ (v ≡ thread h)
  unfolding thread_from_lua
  thread_lem (thread x) h = (λ e. cc, λ e. cc)
  thread_lem v h = (λ e. cc, λ e. cc)

  userdata_lem : (v : Value F) (h : ℕ) → (userdata_from_lua v ≡ ok h) ↔ (v ≡ userdata h)
  unfolding userdata_from_lua
  userdata_lem (userdata x) h = (λ e. cc, λ e. cc)
  userdata_lem v h = (λ e. cc, λ e. cc)

  light_userdata_lem :
      (v : Value F) (h : ℕ) → (light_userdata_from_lua v ≡ ok h) ↔ (v ≡ light_userdata h)
  unfolding light_userdata_from_lua
  light_userdata_lem (light_userdata x) h = (λ e. cc, λ e. cc)
  light_userdata_lem v h = (λ e. cc, λ e. cc)

  -- A table, a function, a thread, a userdata and a light userdata are each read from the values that
  -- are made of them, as what they were made of, and from no others.
  pub handle_from_lua_iff :
      (v : Value F) (h : ℕ)
      → ((table_from_lua v ≡ ok h) ↔ (v ≡ table h))
        × ((function_from_lua v ≡ ok h) ↔ (v ≡ function h))
        × ((thread_from_lua v ≡ ok h) ↔ (v ≡ thread h))
        × ((userdata_from_lua v ≡ ok h) ↔ (v ≡ userdata h))
        × ((light_userdata_from_lua v ≡ ok h) ↔ (v ≡ light_userdata h))
  handle_from_lua_iff v h =
      (table_lem v h, function_lem v h, thread_lem v h, userdata_lem v h, light_userdata_lem v h)
