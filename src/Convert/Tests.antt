-- ===== src/Convert/Tests.antt =====
-- A Lua with integers and the float 0, and values that the theorems of the conversions are applied to.
use mlua.Convert.Agree.{Laws, accepted, from_lua-into_lua}
use mlua.Convert.Sequence.{Faithful, vec-Faithful}
use mlua.Convert.Sets.{into_key, Apart, Unlike, HasKey, set_from_lua-one}
use mlua.Convert.Containers.{vec_into_lua, vec_from_lua, array_from_lua, set_into_lua, set_from_lua}
use mlua.Convert.Numbers.{Cast, from_lua, from_stack, into_lua, push_into_stack, bool_from_lua}
use mlua.Convert.{Lua, ok, err, FromLua, IntoLua, from_lua_conversion_error, expected_number}
use mlua.Serde.Lookup.{NotNil}
use mlua.Serde.{Value, Heap, boolean, integer, number, table}
use mlua.Serde
use mlua.Base.Integer.{ℤ, pos}
use mlua.Base.{
  ℕ, zero, suc, Bool, true, false, Option, none, some, [], ◌∷◌, ◌≡◌, refl, inl, inr, sym, arith,
}

-- `i64`, and 0.0 for a float, whose pattern is 0.
abbrev zero_of : ℕ → Option ℤ
zero_of zero = some (pos 0)
zero_of (suc n) = none

abbrev i64_cast : Cast ℤ
i64_cast = record {
  to_integer = some;
  to_number = λ x. some 0;
  as_number = λ x. 0;
  from_integer = some;
  from_number = zero_of;
}

abbrev read_integer : Value → Option ℤ
read_integer (integer i) = some i
read_integer (number n) = zero_of n
read_integer v = none

abbrev lua : Lua
lua = record { tointegerx = read_integer; tonumberx = λ v. none }

laws : Laws i64_cast lua
laws = record {
  round_trip = λ x i e. sym e;
  number_total = λ x. refl;
  tointegerx-integer = λ i. refl;
  tointegerx-number = λ n i e. sym e;
}

from_lua-into_lua_example :
    (v : Value) × (into_lua i64_cast (pos 7) ≡ ok v)
    × (push_into_stack i64_cast (pos 7) (boolean true ∷ []) ≡ v ∷ boolean true ∷ [])
    × ((i : ℤ)
        → some (pos 7) ≡ some i
        → (from_lua i64_cast lua v ≡ ok (pos 7)) × (from_stack i64_cast lua v ≡ ok (pos 7)))
    × (some (pos 7) ≡ none → accepted (from_lua i64_cast lua v) ≡ some (pos 0))
from_lua-into_lua_example = from_lua-into_lua i64_cast lua laws (pos 7) (boolean true ∷ [])

abbrev empty : Heap
empty = record { tables = λ k. record { entries = []; array = false }; next = 0 }

abbrev into_bool : IntoLua Bool
into_bool b h = ok (boolean b, h)

abbrev from_bool : FromLua Bool
from_bool h v = bool_from_lua v

bool-Faithful : (b : Bool) (h : Heap) → Faithful into_bool from_bool b h
unfolding bool_from_lua
bool-Faithful b h = record {
  value = boolean b;
  after = h;
  returns = refl;
  grows = omega arith;
  keeps = λ k l. refl;
  reads = λ H ag. refl;
}

bool-NotNil : (b : Bool) (h : Heap) → NotNil (bool-Faithful b h).value
unfolding Serde.is_nil bool-Faithful
bool-NotNil b h = refl

vec-Faithful_example :
    Faithful
      (vec_into_lua into_bool from_bool)
      (vec_from_lua into_bool from_bool)
      (true ∷ false ∷ [])
      empty
    × Faithful
        (vec_into_lua into_bool from_bool)
        (array_from_lua into_bool from_bool 2)
        (true ∷ false ∷ [])
        empty
vec-Faithful_example =
    vec-Faithful into_bool from_bool bool-Faithful bool-NotNil (true ∷ false ∷ []) empty

abbrev from_i64 : FromLua ℤ
from_i64 h v = from_lua i64_cast lua v

integer-NotNil : (i : ℤ) → NotNil (integer i)
unfolding Serde.is_nil
integer-NotNil i = refl

integer_comes_back : (x : ℤ) (h : Heap) → from_i64 h (integer x) ≡ ok x
unfolding from_lua
integer_comes_back x h = refl

two_and_four : Apart integer integer-NotNil [] (pos 2 ∷ pos 4 ∷ [])
unfolding Serde.raw_equal
two_and_four = (tt, ((refl, tt), tt))

not_one : Unlike integer integer-NotNil (integer (pos 1)) (pos 2 ∷ pos 4 ∷ [])
unfolding Serde.raw_equal
not_one = (refl, (refl, tt))

two_and_one : Apart integer integer-NotNil [] (pos 2 ∷ pos 1 ∷ [])
unfolding Serde.raw_equal
two_and_one = (tt, ((refl, tt), tt))

has_one : HasKey integer integer-NotNil (integer (pos 1)) (pos 2 ∷ pos 1 ∷ [])
unfolding Serde.raw_equal
has_one = inr (inl refl)

true_is_no_integer :
    (h : Heap)
    → from_i64 h (boolean true) ≡ err (from_lua_conversion_error "boolean" expected_number)
unfolding from_lua
true_is_no_integer h = refl

set_from_lua-one_example :
    (v : Value) × (h' : Heap) × (set_into_lua
        (into_key integer integer-NotNil)
        from_i64
        (pos 2 ∷ pos 1 ∷ [])
        empty
      ≡ ok (v, h'))
    × (set_from_lua (into_key integer integer-NotNil) from_i64 h' v
        ≡ err (from_lua_conversion_error "boolean" expected_number))
set_from_lua-one_example =
    set_from_lua-one integer integer-NotNil from_i64 (pos 2 ∷ pos 1 ∷ []) empty
      (from_lua_conversion_error "boolean" expected_number) two_and_one has_one true_is_no_integer
