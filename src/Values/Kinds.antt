-- ===== src/Values/Kinds.antt =====
-- The kinds of values and the integers in them, src/value.rs.
use text.Mathlib.Text.{◌==◌ as ◌=text=◌}
use mlua.Base.{ℕ, ◌+◌, ◌≤◌, ◌<◌, ◌≡◌, ◌↔◌, refl, true, Option, some, arith, ap}
use mlua.Base.Integer.{ℤ, pos, negsuc}
use mlua.Values.{
  is_nil, is_null, is_boolean, is_light_userdata, is_integer, is_number, is_string, is_table,
  is_function, is_thread, is_userdata, is_error, nil, boolean, light_userdata, integer, number,
  string, table, function, thread, userdata, error, other, Value, Floats, type_name, is_nil,
  is_null, is_boolean, is_light_userdata, is_integer, is_number, is_string, is_table, is_function,
  is_thread, is_userdata, is_error, signed, as_i32, as_integer, unsigned, and_then, as_u32, as_u64,
  as_isize, as_usize,
}

-- The integers from -m to m - 1, and those from 0.
abbrev pub InSigned : ℕ → ℤ → Type 0
InSigned m (pos n) = n < m
InSigned m (negsuc n) = n + 1 ≤ m

abbrev pub InUnsigned : ℕ → ℤ → Type 0
InUnsigned m (pos n) = n < m
InUnsigned m (negsuc n) = ⊥

signed_iff : (m : ℕ) (i j : ℤ) → (signed m i ≡ some j) ↔ ((i ≡ j) × InSigned m j)
unfolding signed
signed_iff m (pos a) (pos b) = (λ h. (ground arith, ground arith), λ (e, h). ground arith)
signed_iff m (pos a) (negsuc b) = (λ h. (ground arith, ground arith), λ (e, h). ground arith)
signed_iff m (negsuc a) (pos b) = (λ h. (ground arith, ground arith), λ (e, h). ground arith)
signed_iff m (negsuc a) (negsuc b) = (λ h. (ground arith, ground arith), λ (e, h). ground arith)

unsigned_iff : (m : ℕ) (i j : ℤ) → (unsigned m i ≡ some j) ↔ ((i ≡ j) × InUnsigned m j)
unfolding unsigned
unsigned_iff m (pos a) (pos b) = (λ h. (ground arith, ground arith), λ (e, h). ground arith)
unsigned_iff m (pos a) (negsuc b) = (λ h. (ground arith, ground arith), λ (e, h). ground arith)
unsigned_iff m (negsuc a) (pos b) = (λ h. (ground arith, ground arith), λ (e, h). ground arith)
unsigned_iff m (negsuc a) (negsuc b) = (λ h. (ground arith, ground arith), λ (e, h). ground arith)

module _ {F : Type 0} where
  converted_iff :
      (f : ℤ → Option ℤ) (P : ℤ → Type 0)
      → ((i j : ℤ) → (f i ≡ some j) ↔ ((i ≡ j) × P j))
      → (v : Value F) (j : ℤ) → (and_then (as_integer v) f ≡ some j) ↔ ((v ≡ integer j) × P j)
  unfolding as_integer and_then
  converted_iff f P h (integer i) j =
      (λ e. let (p, q) = (h i j).0 e in (ap (λ k. integer k) p, q), λ (e, q). (h i j).1 (cc, q))
  converted_iff f P h v j = (λ e. cc, λ (e, q). cc)

  -- Each accessor for a type of integers gives the integer of a value exactly if it is one, and in the range of the
  -- type; it never wraps.
  pub as_integer_iff :
      (v : Value F) (i : ℤ)
      → ((as_i32 v ≡ some i) ↔ ((v ≡ integer i) × InSigned 2147483648 i))
        × ((as_u32 v ≡ some i) ↔ ((v ≡ integer i) × InUnsigned 4294967296 i))
        × ((as_u64 v ≡ some i) ↔ ((v ≡ integer i) × InUnsigned 18446744073709551616 i))
        × ((as_isize v ≡ some i) ↔ ((v ≡ integer i) × InSigned 9223372036854775808 i))
        × ((as_usize v ≡ some i) ↔ ((v ≡ integer i) × InUnsigned 18446744073709551616 i))
  unfolding as_i32 as_u32 as_u64 as_isize as_usize
  as_integer_iff v i = (
    converted_iff (signed 2147483648) (InSigned 2147483648) (signed_iff 2147483648) v i,
    converted_iff (unsigned 4294967296) (InUnsigned 4294967296) (unsigned_iff 4294967296) v i,
    converted_iff (unsigned 18446744073709551616) (InUnsigned 18446744073709551616)
        (unsigned_iff 18446744073709551616) v i,
    converted_iff (signed 9223372036854775808) (InSigned 9223372036854775808)
        (signed_iff 9223372036854775808) v i,
    converted_iff (unsigned 18446744073709551616) (InUnsigned 18446744073709551616)
        (unsigned_iff 18446744073709551616) v i,
  )

module _ {F : Type 0} (floats : Floats F) where
  -- The test for each kind of value holds exactly for the values of that name, a null being one of the light
  -- userdata.
  pub is-type_name :
      (v : Value F)
      → (is_nil floats v ≡ (type_name v =text= "nil"))
        × (is_boolean v ≡ (type_name v =text= "boolean"))
        × (is_light_userdata v ≡ (type_name v =text= "lightuserdata"))
        × (is_integer v ≡ (type_name v =text= "integer"))
        × (is_number v ≡ (type_name v =text= "number"))
        × (is_string v ≡ (type_name v =text= "string"))
        × (is_table v ≡ (type_name v =text= "table"))
        × (is_function v ≡ (type_name v =text= "function"))
        × (is_thread v ≡ (type_name v =text= "thread"))
        × (is_userdata v ≡ (type_name v =text= "userdata"))
        × (is_error v ≡ (type_name v =text= "error"))
        × (is_null floats v ≡ true → type_name v ≡ "lightuserdata")
  unfolding is_nil is_null is_boolean is_light_userdata is_integer is_number is_string is_table
      is_function is_thread is_userdata is_error type_name
  is-type_name nil = (refl, refl, refl, refl, refl, refl, refl, refl, refl, refl, refl, λ h. cc)
  is-type_name (boolean b) =
      (refl, refl, refl, refl, refl, refl, refl, refl, refl, refl, refl, λ h. cc)
  is-type_name (light_userdata p) =
      (refl, refl, refl, refl, refl, refl, refl, refl, refl, refl, refl, λ h. refl)
  is-type_name (integer i) =
      (refl, refl, refl, refl, refl, refl, refl, refl, refl, refl, refl, λ h. cc)
  is-type_name (number n) =
      (refl, refl, refl, refl, refl, refl, refl, refl, refl, refl, refl, λ h. cc)
  is-type_name (string b p) =
      (refl, refl, refl, refl, refl, refl, refl, refl, refl, refl, refl, λ h. cc)
  is-type_name (table p) =
      (refl, refl, refl, refl, refl, refl, refl, refl, refl, refl, refl, λ h. cc)
  is-type_name (function p) =
      (refl, refl, refl, refl, refl, refl, refl, refl, refl, refl, refl, λ h. cc)
  is-type_name (thread p) =
      (refl, refl, refl, refl, refl, refl, refl, refl, refl, refl, refl, λ h. cc)
  is-type_name (userdata p) =
      (refl, refl, refl, refl, refl, refl, refl, refl, refl, refl, refl, λ h. cc)
  is-type_name (error e) =
      (refl, refl, refl, refl, refl, refl, refl, refl, refl, refl, refl, λ h. cc)
  is-type_name (other p) =
      (refl, refl, refl, refl, refl, refl, refl, refl, refl, refl, refl, λ h. cc)
