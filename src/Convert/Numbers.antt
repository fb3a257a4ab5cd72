-- ===== src/Convert/Numbers.antt =====
-- src/conversion.rs: `lua_convert_int` and `lua_convert_float`, for one numeric type, and `bool`. `cast`
-- of num-traits is what converts between Rust's numeric types.
use mlua.Convert.{
  Lua, Result, ok, err, from_lua_conversion_error, to_lua_conversion_error, out_of_range,
  expected_number, type_name, coerce_integer, coerce_number,
}
use mlua.Serde.{Value, nil, boolean, integer, number}
use mlua.Base.{ℕ, Bool, true, false, Option, none, some, List, ◌∷◌}
use mlua.Base.Integer.{ℤ}

-- `cast` between a type and Lua's two, and the type's `as lua_Number`.
pub record Cast (T : Type 0) : Type 0 where
  pub to_integer : T → Option ℤ
  pub to_number : T → Option ℕ
  pub as_number : T → ℕ
  pub from_integer : ℤ → Option T
  pub from_number : ℕ → Option T

-- `ok_or_else`
unfoldable pub ok_or : {T : Type 0} → Option T → Result T → Result T
ok_or (some x) e = ok x
ok_or none e = e

module _ {T : Type 0} (cast : Cast T) where
  unfoldable pub into_lua : T → Result Value
  into_lua x = elim (cast.to_integer x) [
    | some i ↦ ok (integer i)
    | none ↦ elim (cast.to_number x) [
      | some n ↦ ok (number n)
      | none ↦ err (to_lua_conversion_error out_of_range)
    ]
  ]

  -- Onto a stack, with its top first.
  unfoldable pub push_into_stack : T → List Value → List Value
  push_into_stack x stack = elim (cast.to_integer x) [
    | some i ↦ integer i ∷ stack
    | none ↦ number (cast.as_number x) ∷ stack
  ]

  unfoldable pub coerced : Lua → Value → Result T
  unfolding coerce_integer coerce_number type_name ok_or
  coerced lua value = elim (coerce_integer lua value) [
    | some i ↦
        ok_or (cast.from_integer i) (err (from_lua_conversion_error (type_name value) out_of_range))
    | none ↦ elim (coerce_number lua value) [
      | some n ↦
          ok_or (cast.from_number n)
            (err (from_lua_conversion_error (type_name value) out_of_range))
      | none ↦ err (from_lua_conversion_error (type_name value) expected_number)
    ]
  ]

  unfoldable pub from_lua : Lua → Value → Result T
  unfolding coerced ok_or
  from_lua lua (integer i) =
      ok_or (cast.from_integer i) (err (from_lua_conversion_error "integer" out_of_range))
  from_lua lua (number n) =
      ok_or (cast.from_number n) (err (from_lua_conversion_error "number" out_of_range))
  from_lua lua value = coerced lua value

  -- `lua_type(state, idx) == LUA_TNUMBER` and then `lua_tointegerx`, for the value at an index.
  unfoldable pub stack_integer : Lua → Value → Option ℤ
  stack_integer lua (integer i) = lua.tointegerx (integer i)
  stack_integer lua (number n) = lua.tointegerx (number n)
  stack_integer lua value = none

  unfoldable pub from_stack : Lua → Value → Result T
  unfolding from_lua stack_integer ok_or
  from_stack lua value = elim (stack_integer lua value) [
    | some i ↦ ok_or (cast.from_integer i) (err (from_lua_conversion_error "integer" out_of_range))
    | none ↦ from_lua lua value
  ]

module _ {T : Type 0} (to_number from_number : ℕ → Option T) where
  -- `lua_convert_float`: `from_lua`, by `coerce_number` and a `cast`.
  unfoldable pub float_from_lua : Lua → Value → Result T
  unfolding coerce_number type_name ok_or
  float_from_lua lua value = elim (coerce_number lua value) [
    | some n ↦
        ok_or (from_number n) (err (from_lua_conversion_error (type_name value) out_of_range))
    | none ↦ err (from_lua_conversion_error (type_name value) expected_number)
  ]

-- `bool`: everything but nil and false is true.
unfoldable pub bool_from_lua : Value → Result Bool
bool_from_lua nil = ok false
bool_from_lua (boolean b) = ok b
bool_from_lua value = ok true

unfoldable pub bool_into_lua : Bool → Result Value
bool_into_lua b = ok (boolean b)
