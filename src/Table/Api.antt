-- ===== src/Table/Api.antt =====
-- The part of Lua's C API that the raw table operations call, with what the reference manual says
-- of it. `none` is nil, and an index is a number from 0 on: the operations use no other.
use mlua.Base.{ℕ, suc, ◌≡◌, ◌≢◌, Option, none, ◌==◌, if◌then◌else◌}

pub record TableApi (V : Type 0) : Type 1 where
  pub Table : Type 0
  -- `lua_rawgeti`, `lua_rawseti`, `lua_rawlen`.
  pub rawgeti : Table → ℕ → Option V
  pub rawseti : Table → ℕ → Option V → Table
  pub rawlen : Table → ℕ
  pub get_set :
      (t : Table) (i : ℕ) (v : Option V) (j : ℕ)
      → rawgeti (rawseti t i v) j ≡ (if i == j then v else rawgeti t j)
  -- The length is a border.
  pub border_end : (t : Table) → rawgeti t (suc (rawlen t)) ≡ none
  pub border_start : (t : Table) (n : ℕ) → rawlen t ≡ suc n → rawgeti t (suc n) ≢ none
