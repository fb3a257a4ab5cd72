-- ===== src/Multi.antt =====
-- src/multi.rs and src/traits.rs: lists of Lua values as arguments and results, and what tuples,
-- single values, `MultiValue` and `Variadic` are made from and turned into.
-- A Lua stack is listed bottom first. The conversions of single values are parameters.
pub mod From
pub mod Into
pub mod Call
mod Tests
use mlua.Base.{ℕ, List, Bool}

-- An error of a conversion, the same for an argument at a position, and a full stack.
pub data Error (E : Type 0) : Type 0 where
  conversion : E → Error E
  bad_argument : ℕ → Error E → Error E
  stack_error : Error E

pub data Result (E A : Type 0) : Type 0 where
  ok : A → Result E A
  err : Error E → Result E A
  panics : Result E A

-- `?`
unfoldable pub and_then : {E A B : Type 0} → Result E A → (A → Result E B) → Result E B
and_then (ok a) f = f a
and_then (err e) f = err e
and_then panics f = panics

unfoldable pub map_err : {E A : Type 0} → (Error E → Error E) → Result E A → Result E A
map_err f (ok a) = ok a
map_err f (err e) = err (f e)
map_err f panics = panics

-- `FromLua::from_lua` of a type, an error being one of the conversion.
pub record FromLua (V E A : Type 0) : Type 0 where
  pub from_lua : V → Result E A

-- The last function's numbers are the count of the values and the position of the first.
pub record FromLuaMulti (V E A : Type 0) : Type 0 where
  pub from_lua_multi : List V → Result E A
  pub from_lua_args : ℕ → List V → Result E A
  pub from_stack_multi : ℕ → List V → Result E A
  pub from_stack_args : ℕ → ℕ → List V → Result E A

-- A value that can be turned into Lua values: `into_lua_multi`, and `push_into_stack_multi` on a
-- stack that can grow or not.
pub record IntoLuaMulti (V E : Type 0) : Type 0 where
  pub into_lua_multi : Result E (List V)
  pub push_into_stack_multi : Bool → List V → List V × Result E ℕ
