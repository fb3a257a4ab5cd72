-- ===== src/Values.antt =====
-- src/value.rs: the kinds of Lua values, their equality and the order by which the keys of a table are
-- sorted for printing and serialization, in the builds other than Luau. An address is a number, 0 for null.
pub mod Kinds
pub mod Order
mod Tests
use Prim.Native.Nat.{compare, Ordering}
use Prim.Native.String.{String}
use mlua.Base.{
  ℕ, suc, ◌+◌, ◌≤◌, ◌<◌, Bool, true, false, Option, none, some, List, [], ◌∷◌, ltb, ◌==◌,
  if◌then◌else◌,
}
use mlua.Base.Integer.{ℤ, pos, negsuc}

-- Floats with their comparison and the cast of an integer; `a > b` is `b < a`.
pub record Floats (F : Type 0) : Type 0 where
  pub lt : F → F → Bool
  pub eq : F → F → Bool
  pub of_integer : ℤ → F

-- A string is its bytes and their address, a handle the address of its object; an error has none.
pub data Value (F : Type 0) : Type 0 where
  nil : Value F
  boolean : Bool → Value F
  light_userdata : ℕ → Value F
  integer : ℤ → Value F
  number : F → Value F
  string : List ℕ → ℕ → Value F
  table function thread userdata error other : ℕ → Value F

unfoldable pub null : {F : Type 0} → Value F
null = light_userdata 0

-- `Ord` of the standard library for `bool`, integers and slices of bytes.
unfoldable pub cmp_bool : Bool → Bool → Ordering
cmp_bool true true = Ordering.eq
cmp_bool false false = Ordering.eq
cmp_bool false true = Ordering.lt
cmp_bool true false = Ordering.gt

unfoldable pub cmp_integer : ℤ → ℤ → Ordering
cmp_integer (pos a) (pos b) = compare a b
cmp_integer (negsuc a) (negsuc b) = compare b a
cmp_integer (pos a) (negsuc b) = Ordering.gt
cmp_integer (negsuc a) (pos b) = Ordering.lt

unfoldable pub then_with : Ordering → Ordering → Ordering
then_with Ordering.eq o = o
then_with Ordering.lt o = Ordering.lt
then_with Ordering.gt o = Ordering.gt

unfoldable pub cmp_bytes : List ℕ → List ℕ → Ordering
unfolding then_with
cmp_bytes [] [] = Ordering.eq
cmp_bytes [] (y ∷ ys) = Ordering.lt
cmp_bytes (x ∷ xs) [] = Ordering.gt
cmp_bytes (x ∷ xs) (y ∷ ys) = then_with (compare x y) (cmp_bytes xs ys)

unfoldable pub is_eq : Ordering → Bool
is_eq Ordering.eq = true
is_eq o = false

unfoldable pub eq_bool : Bool → Bool → Bool
eq_bool true b = b
eq_bool false true = false
eq_bool false false = true

-- `Option::is_some` and `and_then`.
unfoldable pub is_some : {A : Type 0} → Option A → Bool
is_some none = false
is_some (some x) = true

unfoldable pub and_then : {A B : Type 0} → Option A → (A → Option B) → Option B
and_then none f = none
and_then (some x) f = f x

-- `try_from` of the integers that are at least -m and below m, and of those from 0 below m.
unfoldable pub signed : ℕ → ℤ → Option ℤ
signed m (pos n) = if ltb n m then some (pos n) else none
signed m (negsuc n) = if ltb n m then some (negsuc n) else none

unfoldable pub unsigned : ℕ → ℤ → Option ℤ
unsigned m (pos n) = if ltb n m then some (pos n) else none
unsigned m (negsuc n) = none

module _ {F : Type 0} where
  unfoldable pub type_name : Value F → String
  type_name nil = "nil"
  type_name (boolean b) = "boolean"
  type_name (light_userdata p) = "lightuserdata"
  type_name (integer i) = "integer"
  type_name (number n) = "number"
  type_name (string s p) = "string"
  type_name (table p) = "table"
  type_name (function p) = "function"
  type_name (thread p) = "thread"
  type_name (userdata p) = "userdata"
  type_name (error e) = "error"
  type_name (other p) = "other"

  unfoldable pub to_pointer : Value F → ℕ
  to_pointer (string s p) = p
  to_pointer (light_userdata p) = p
  to_pointer (table p) = p
  to_pointer (function p) = p
  to_pointer (thread p) = p
  to_pointer (userdata p) = p
  to_pointer (other p) = p
  to_pointer value = 0

  unfoldable pub as_boolean : Value F → Option Bool
  as_boolean (boolean x) = some x
  as_boolean value = none

  unfoldable pub is_boolean : Value F → Bool
  unfolding is_some as_boolean
  is_boolean value = is_some (as_boolean value)

  unfoldable pub as_light_userdata : Value F → Option ℕ
  as_light_userdata (light_userdata x) = some x
  as_light_userdata value = none

  unfoldable pub is_light_userdata : Value F → Bool
  unfolding is_some as_light_userdata
  is_light_userdata value = is_some (as_light_userdata value)

  unfoldable pub as_integer : Value F → Option ℤ
  as_integer (integer x) = some x
  as_integer value = none

  unfoldable pub is_integer : Value F → Bool
  unfolding is_some as_integer
  is_integer value = is_some (as_integer value)

  unfoldable pub as_number : Value F → Option F
  as_number (number x) = some x
  as_number value = none

  unfoldable pub is_number : Value F → Bool
  unfolding is_some as_number
  is_number value = is_some (as_number value)

  unfoldable pub as_string : Value F → Option (List ℕ)
  as_string (string s p) = some s
  as_string value = none

  unfoldable pub is_string : Value F → Bool
  unfolding is_some as_string
  is_string value = is_some (as_string value)

  unfoldable pub as_table : Value F → Option ℕ
  as_table (table x) = some x
  as_table value = none

  unfoldable pub is_table : Value F → Bool
  unfolding is_some as_table
  is_table value = is_some (as_table value)

  unfoldable pub as_thread : Value F → Option ℕ
  as_thread (thread x) = some x
  as_thread value = none

  unfoldable pub is_thread : Value F → Bool
  unfolding is_some as_thread
  is_thread value = is_some (as_thread value)

  unfoldable pub as_function : Value F → Option ℕ
  as_function (function x) = some x
  as_function value = none

  unfoldable pub is_function : Value F → Bool
  unfolding is_some as_function
  is_function value = is_some (as_function value)

  unfoldable pub as_userdata : Value F → Option ℕ
  as_userdata (userdata x) = some x
  as_userdata value = none

  unfoldable pub is_userdata : Value F → Bool
  unfolding is_some as_userdata
  is_userdata value = is_some (as_userdata value)

  unfoldable pub as_error : Value F → Option ℕ
  as_error (error x) = some x
  as_error value = none

  unfoldable pub is_error : Value F → Bool
  unfolding is_some as_error
  is_error value = is_some (as_error value)

  unfoldable pub as_i32 : Value F → Option ℤ
  unfolding as_integer and_then signed
  as_i32 value = and_then (as_integer value) (signed 2147483648)

  unfoldable pub as_u32 : Value F → Option ℤ
  unfolding as_integer and_then unsigned
  as_u32 value = and_then (as_integer value) (unsigned 4294967296)

  unfoldable pub as_u64 : Value F → Option ℤ
  unfolding as_integer and_then unsigned
  as_u64 value = and_then (as_integer value) (unsigned 18446744073709551616)

  unfoldable pub as_isize : Value F → Option ℤ
  unfolding as_integer and_then signed
  as_isize value = and_then (as_integer value) (signed 9223372036854775808)

  unfoldable pub as_usize : Value F → Option ℤ
  unfolding as_integer and_then unsigned
  as_usize value = and_then (as_integer value) (unsigned 18446744073709551616)

module _ {F : Type 0} (floats : Floats F) where
  -- `PartialEq`
  unfoldable pub eq : Value F → Value F → Bool
  unfolding eq_bool cmp_integer cmp_bytes is_eq
  eq nil nil = true
  eq (boolean a) (boolean b) = eq_bool a b
  eq (light_userdata a) (light_userdata b) = a == b
  eq (integer a) (integer b) = is_eq (cmp_integer a b)
  eq (integer a) (number b) = floats.eq (floats.of_integer a) b
  eq (number a) (integer b) = floats.eq a (floats.of_integer b)
  eq (number a) (number b) = floats.eq a b
  eq (string a p) (string b q) = is_eq (cmp_bytes a b)
  eq (table a) (table b) = a == b
  eq (function a) (function b) = a == b
  eq (thread a) (thread b) = a == b
  eq (userdata a) (userdata b) = a == b
  eq a b = false

  unfoldable pub is_nil : Value F → Bool
  unfolding eq
  is_nil value = eq value nil

  unfoldable pub is_null : Value F → Bool
  unfolding eq null
  is_null value = eq value null

  unfoldable pub cmp_num : F → F → Ordering
  cmp_num a b =
      if floats.lt a b then Ordering.lt else (if floats.lt b a then Ordering.gt else Ordering.eq)

  -- The arms of `sort_cmp` from that of booleans on.
  unfoldable pub after_null : Value F → Value F → Ordering
  unfolding cmp_bool cmp_integer cmp_num cmp_bytes to_pointer
  after_null (boolean a) (boolean b) = cmp_bool a b
  after_null (boolean a) other_value = Ordering.lt
  after_null other_value (boolean b) = Ordering.gt
  after_null (integer a) (integer b) = cmp_integer a b
  after_null (integer a) (number b) = cmp_num (floats.of_integer a) b
  after_null (number a) (integer b) = cmp_num a (floats.of_integer b)
  after_null (number a) (number b) = cmp_num a b
  after_null (integer a) other_value = Ordering.lt
  after_null (number a) other_value = Ordering.lt
  after_null other_value (integer b) = Ordering.gt
  after_null other_value (number b) = Ordering.gt
  after_null (string a p) (string b q) = cmp_bytes a b
  after_null (string a p) other_value = Ordering.lt
  after_null other_value (string b q) = Ordering.gt
  after_null a b = compare (to_pointer a) (to_pointer b)

  unfoldable pub sort_cmp : Value F → Value F → Ordering
  unfolding after_null
  sort_cmp nil nil = Ordering.eq
  sort_cmp nil value = Ordering.lt
  sort_cmp value nil = Ordering.gt
  sort_cmp (light_userdata a) (light_userdata b) =
      if a == b
      then Ordering.eq
      else (if a == 0
          then Ordering.lt
          else (if b == 0 then Ordering.gt else after_null (light_userdata a) (light_userdata b)))
  sort_cmp (light_userdata a) value =
      if a == 0 then Ordering.lt else after_null (light_userdata a) value
  sort_cmp value (light_userdata b) =
      if b == 0 then Ordering.gt else after_null value (light_userdata b)
  sort_cmp a b = after_null a b
