-- ===== src/Convert/Agree.antt =====
-- Numbers from the stack and from values, src/conversion.rs.
use mlua.Convert.Numbers.{
  Cast, into_lua, push_into_stack, from_lua, from_stack, ok_or, stack_integer,
}
use mlua.Convert.{Lua, Result, ok, err, from_lua_conversion_error, out_of_range, Message, String}
use mlua.Serde.{Value, integer, number}
use mlua.Base.{ℕ, Option, none, some, List, ◌∷◌, ◌≡◌, refl}
use mlua.Base.Integer.{ℤ}

-- What is documented of `cast` and of Lua: a value that fits comes back, every value has a float, and a
-- float that Lua reads as an integer is cast as that integer is.
pub record Laws {T : Type 0} (cast : Cast T) (lua : Lua) : Type 0 where
  pub round_trip : (x : T) (i : ℤ) → cast.to_integer x ≡ some i → cast.from_integer i ≡ some x
  pub number_total : (x : T) → cast.to_number x ≡ some (cast.as_number x)
  pub tointegerx-integer : (i : ℤ) → lua.tointegerx (integer i) ≡ some i
  pub tointegerx-number :
      (n : ℕ) (i : ℤ)
      → lua.tointegerx (number n) ≡ some i
      → cast.from_integer i ≡ cast.from_number n

-- The value, if there is one.
abbrev pub accepted : {T : Type 0} → Result T → Option T
accepted (ok x) = some x
accepted (err e) = none

accepted-ok_or :
    {T : Type 0}
    → (x : Option T) (e : Message) (s : String)
    → accepted (ok_or x (err (from_lua_conversion_error s e))) ≡ x
unfolding ok_or
accepted-ok_or none e s = refl
accepted-ok_or (some x) e s = refl

module _ {T : Type 0} (cast : Cast T) (lua : Lua) (laws : Laws cast lua) where
  -- From the stack and from a value, the same values are read as a number of a type, and as the same
  -- number; an error may name another type of the value.
  pub from_stack-from_lua :
      (v : Value) → accepted (from_stack cast lua v) ≡ accepted (from_lua cast lua v)
  unfolding from_stack from_lua stack_integer
  from_stack-from_lua (integer i) = rw (from_stack, laws.tointegerx-integer i) refl
  from_stack-from_lua (number n) = by_integer (lua.tointegerx (number n)) refl
    where
      by_integer :
          (r : Option ℤ)
          → lua.tointegerx (number n) ≡ r
          → accepted (from_stack cast lua (number n)) ≡ accepted (from_lua cast lua (number n))
      by_integer none e = rw (from_stack, e) refl
      by_integer (some i) e =
          rw
            (
              from_stack,
              e,
              accepted-ok_or (cast.from_integer i) out_of_range "integer",
              accepted-ok_or (cast.from_number n) out_of_range "number",
            )
            (laws.tointegerx-number n i e)
  from_stack-from_lua v = refl

  -- A number is pushed as the value that it is converted to, on top of what is on the stack. If it fits
  -- Lua's integers, it is read back from the stack and from the value; otherwise its float is cast back,
  -- which may be refused as out of range.
  pub from_lua-into_lua :
      (x : T) (stack : List Value)
      → (v : Value) × (into_lua cast x ≡ ok v)
        × (push_into_stack cast x stack ≡ v ∷ stack)
        × ((i : ℤ)
            → cast.to_integer x ≡ some i
            → (from_lua cast lua v ≡ ok x) × (from_stack cast lua v ≡ ok x))
        × (cast.to_integer x ≡ none
            → accepted (from_lua cast lua v) ≡ cast.from_number (cast.as_number x))
  unfolding into_lua push_into_stack from_lua from_stack stack_integer ok_or
  from_lua-into_lua x stack = by_integer (cast.to_integer x) refl
    where
      by_integer :
          (r : Option ℤ)
          → cast.to_integer x ≡ r
          → (v : Value) × (into_lua cast x ≡ ok v)
            × (push_into_stack cast x stack ≡ v ∷ stack)
            × ((i : ℤ)
                → cast.to_integer x ≡ some i
                → (from_lua cast lua v ≡ ok x) × (from_stack cast lua v ≡ ok x))
            × (cast.to_integer x ≡ none
                → accepted (from_lua cast lua v) ≡ cast.from_number (cast.as_number x))
      by_integer (some j) e = (
        integer j,
        rw (into_lua, e) refl,
        rw (push_into_stack, e) refl,
        λ i e'. (
          rw (laws.round_trip x j e) refl,
          rw (from_stack, laws.tointegerx-integer j, laws.round_trip x j e) refl,
        ),
        λ e'. absurd cc,
      )
      by_integer none e = (
        number (cast.as_number x),
        rw (into_lua, e, laws.number_total x) refl,
        rw (push_into_stack, e) refl,
        λ i e'. absurd cc,
        λ e'. accepted-ok_or (cast.from_number (cast.as_number x)) out_of_range "number",
      )
