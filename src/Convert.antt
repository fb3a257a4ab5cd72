-- ===== src/Convert.antt =====
-- src/conversion.rs: single Rust values as Lua values and back. Lua values, strings and tables are those
-- of Serde; a float is its bit pattern. `coerce_integer` and `coerce_number` are of src/state.rs.
pub mod Numbers
pub mod Agree
pub mod Containers
pub mod Sequence
pub mod Sets
mod Tests
use Prim.Native.String.{String}
use mlua.Serde.{
  Value, nil, boolean, integer, number, string, bytes, table, light_user_data, function, thread,
  user_data, error, other, Heap,
}
use mlua.Base.{ℕ, Option, none, some}
use mlua.Base.Integer.{ℤ}

-- `message` of a conversion error.
pub data Message : Type 0 where
  out_of_range expected_number expected_table index_is_nil no_message : Message
  expected_length : ℕ → ℕ → Message

-- `Error`: `from` is the name of the Lua type.
pub data Error : Type 0 where
  from_lua_conversion_error : String → Message → Error
  to_lua_conversion_error runtime_error : Message → Error

pub data Result (A : Type 0) : Type 0 where
  ok : A → Result A
  err : Error → Result A

infixl 5 ◌>>=◌
abbrev pub ◌>>=◌ : {A B : Type 0} → Result A → (A → Result B) → Result B
ok a >>= f = f a
err e >>= f = err e

-- `FromLua` and `IntoLua` of a type, for values whose tables live in a heap.
abbrev pub FromLua : Type 0 → Type 0
FromLua T = Heap → Value → Result T

abbrev pub IntoLua : Type 0 → Type 0
IntoLua T = T → Heap → Result (Value × Heap)

unfoldable pub type_name : Value → String
type_name nil = "nil"
type_name (boolean b) = "boolean"
type_name (light_user_data p) = "lightuserdata"
type_name (integer i) = "integer"
type_name (number n) = "number"
type_name (string s) = "string"
type_name (bytes s) = "string"
type_name (table t) = "table"
type_name function = "function"
type_name thread = "thread"
type_name user_data = "userdata"
type_name error = "error"
type_name other = "other"

-- `lua_tointegerx` and `lua_tonumberx`: what Lua can read as an integer or a float.
pub record Lua : Type 0 where
  pub tointegerx : Value → Option ℤ
  pub tonumberx : Value → Option ℕ

unfoldable pub coerce_integer : Lua → Value → Option ℤ
coerce_integer lua (integer i) = some i
coerce_integer lua v = lua.tointegerx v

unfoldable pub coerce_number : Lua → Value → Option ℕ
coerce_number lua (number n) = some n
coerce_number lua v = lua.tonumberx v
