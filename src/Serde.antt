-- ===== src/Serde.antt =====
-- src/serde: Rust data as Lua values and back. Lua's tables live in a heap. A table is its entries
-- in the order of `next`, which the manual leaves open: here it is the order in which the keys were
-- first set. A float is its bit pattern, `string` a string in UTF-8, `bytes` another string, and a
-- userdata is one that cannot be serialized. Float keys that Lua turns into integers, or refuses since
-- they are not a number, are not modelled.
pub mod Ser
pub mod De
pub mod Lookup
pub mod Serializable
pub mod Agree
pub mod Termination
pub mod Roundtrip
mod Tests
use Prim.Native.String.{String}
use text.Mathlib.Text.{◌==◌ as str_eq}
use mlua.Base.{
  ℕ, zero, suc, ◌+◌, Bool, true, false, ◌&&◌, List, [], ◌∷◌, Option, none, some, ◌==◌, length,
  if◌then◌else◌,
}
use mlua.Base.Integer.{ℤ, pos, negsuc}

pub data Value : Type 0 where
  nil : Value
  boolean : Bool → Value
  integer : ℤ → Value
  number : ℕ → Value
  string : String → Value
  bytes : List ℕ → Value
  table : ℕ → Value
  light_user_data : Bool → Value
  function thread user_data error other : Value

-- `lua.null()`: the light userdata whose pointer is null.
abbrev pub null : Value
null = light_user_data true

-- `array` is whether the table has the array metatable.
pub record Table : Type 0 where
  pub entries : List (Value × Value)
  pub array : Bool

pub record Heap : Type 0 where
  pub tables : ℕ → Table
  pub next : ℕ

pub data Error : Type 0 where
  recursive_table unsupported_type index_is_nil bad_enum_value invalid_type invalid_value
        conversion_error :
      Error

pub data Result (A : Type 0) : Type 0 where
  ok : A → Result A
  err : Error → Result A
  out_of_fuel : Result A

infixl 5 ◌>>=◌
abbrev pub ◌>>=◌ : {A B : Type 0} → Result A → (A → Result B) → Result B
ok a >>= f = f a
err e >>= f = err e
out_of_fuel >>= f = out_of_fuel

-- `lua_rawequal`, for the keys that occur.
unfoldable pub same_integer : ℤ → ℤ → Bool
same_integer (pos a) (pos b) = a == b
same_integer (negsuc a) (negsuc b) = a == b
same_integer (pos a) (negsuc b) = false
same_integer (negsuc a) (pos b) = false

unfoldable pub same_bool : Bool → Bool → Bool
same_bool true b = b
same_bool false true = false
same_bool false false = true

unfoldable pub same_bytes : List ℕ → List ℕ → Bool
same_bytes [] [] = true
same_bytes [] (b ∷ bs) = false
same_bytes (a ∷ as') [] = false
same_bytes (a ∷ as') (b ∷ bs) = a == b && same_bytes as' bs

unfoldable pub raw_equal : Value → Value → Bool
unfolding same_integer same_bool same_bytes
raw_equal (integer a) (integer b) = same_integer a b
raw_equal (string a) (string b) = str_eq a b
raw_equal (bytes a) (bytes b) = same_bytes a b
raw_equal (boolean a) (boolean b) = same_bool a b
raw_equal (number a) (number b) = a == b
raw_equal (table a) (table b) = a == b
raw_equal (light_user_data a) (light_user_data b) = same_bool a b
raw_equal _ _ = false

-- Whether a value is nil, so that setting it takes the entry out.
unfoldable pub is_nil : Value → Bool
is_nil nil = true
is_nil _ = false

unfoldable pub raw_get : List (Value × Value) → Value → Value
unfolding raw_equal
raw_get [] key = nil
raw_get ((k, v) ∷ es) key = if raw_equal k key then v else raw_get es key

unfoldable pub without : List (Value × Value) → Value → List (Value × Value)
unfolding raw_equal
without [] key = []
without ((k, v) ∷ es) key = if raw_equal k key then es else (k, v) ∷ without es key

unfoldable pub with_entry : List (Value × Value) → Value → Value → List (Value × Value)
unfolding raw_equal
with_entry [] key value = (key, value) ∷ []
with_entry ((k, v) ∷ es) key value =
    if raw_equal k key then (k, value) ∷ es else (k, v) ∷ with_entry es key value

unfoldable pub raw_set_entries : List (Value × Value) → Value → Value → List (Value × Value)
unfolding is_nil without with_entry
raw_set_entries es key value = if is_nil value then without es key else with_entry es key value

-- The values from an index on, up to the first nil: more indices than entries are not needed.
unfoldable pub values_from : ℕ → List (Value × Value) → ℕ → List Value
unfolding is_nil raw_get
values_from zero es i = []
values_from (suc fuel) es i =
    let v = raw_get es (integer (pos i)) in
    let further = values_from fuel es (suc i) in if is_nil v then [] else v ∷ further

unfoldable pub sequence_values : List (Value × Value) → List Value
unfolding values_from
sequence_values es = values_from (length es) es 1

-- The length, where `lua_rawlen` of a table with holes may also count values behind one.
unfoldable pub raw_len : List (Value × Value) → ℕ
unfolding sequence_values
raw_len es = length (sequence_values es)

unfoldable pub set_table : ℕ → Table → Heap → Heap
set_table t table' h = record h { tables = λ k. if k == t then table' else h.tables k }

-- A new table.
unfoldable pub create_table : Bool → Heap → Heap
create_table array h = record {
  tables = λ k. if k == h.next then record { entries = []; array = array } else h.tables k;
  next = suc h.next;
}

unfoldable pub raw_set : ℕ → Value → Value → Heap → Heap
unfolding set_table raw_set_entries
raw_set t key value h =
    set_table t (record (h.tables t) { entries = raw_set_entries (h.tables t).entries key value }) h
