-- ===== src/Texts.antt =====
-- src/conversion.rs: strings, characters and handles, made from Lua values and turned into them, in the
-- builds other than Luau. A string of Rust is its bytes, without the nul of a `CString`.
pub mod Handles
pub mod Bytes
mod Tests
use Prim.Native.String.{String}
use mlua.Base.{
  ℕ, Bool, true, false, ◌&&◌, ◌||◌, Option, none, some, List, [], ◌∷◌, ◌++◌, ltb, ◌==◌,
  if◌then◌else◌,
}
use mlua.Base.Integer.{ℤ, pos, negsuc}
use mlua.Values.{
  Value, nil, boolean, light_userdata, integer, number, string, table, function, thread, userdata,
  error, other, type_name,
}

-- The conversion errors have the names of the two types and a message; `lua_error` is one of Lua.
pub data Error : Type 0 where
  from_lua_conversion_error : String → String → Option String → Error
  runtime : List ℕ → Error
  error_value lua_error : ℕ → Error

pub data Result (A : Type 0) : Type 0 where
  ok : A → Result A
  err : Error → Result A

unfoldable pub and_then : {A B : Type 0} → Result A → (A → Result B) → Result B
and_then (ok a) f = f a
and_then (err e) f = err e

-- `lua_tolstring` of a value that is no string, which converts numbers; the creation of a string, which
-- gives its address; and the string that a value is printed as.
pub record Lua (F : Type 0) : Type 0 where
  pub tolstring : Value F → Result (Option (List ℕ))
  pub create_string : List ℕ → Result ℕ
  pub to_string : Value F → Result (List ℕ)

-- The standard library: whether bytes are UTF-8 and what is said if not, the characters of such bytes and
-- the bytes of a character, and platform strings with what is said of bytes that are none.
pub record Std : Type 0 where
  pub from_utf8 : List ℕ → Bool
  pub utf8_error : List ℕ → String
  pub chars : List ℕ → List ℕ
  pub encode_utf8 : ℕ → List ℕ
  pub into_os_string : List ℕ → Option (List ℕ)
  pub os_string_error : List ℕ → String

-- `char::from_u32`
unfoldable pub from_u32 : ℕ → Option ℕ
from_u32 n = if ltb n 55296 || (ltb 57343 n && ltb n 1114112) then some n else none

-- `CStr::from_bytes_with_nul`: the nul must be the last byte and no other.
unfoldable pub from_bytes_with_nul : List ℕ → Option (List ℕ)
from_bytes_with_nul [] = none
from_bytes_with_nul (b ∷ []) = if b == 0 then some [] else none
from_bytes_with_nul (b ∷ c ∷ rest) =
    let further = from_bytes_with_nul (c ∷ rest) in
    if b == 0 then none else (elim further [ none ↦ none | some s ↦ some (b ∷ s) ])

unfoldable pub ok_or : {A : Type 0} → Option A → Error → Result A
ok_or none e = err e
ok_or (some x) e = ok x

module _ {F : Type 0} where
  -- `from_lua` of the handles, and of light userdata.
  unfoldable pub mismatch : {A : Type 0} → String → Value F → Result A
  mismatch to v = err (from_lua_conversion_error (type_name v) to none)

  unfoldable pub table_from_lua : Value F → Result ℕ
  unfolding mismatch
  table_from_lua (table t) = ok t
  table_from_lua v = mismatch "table" v

  unfoldable pub function_from_lua : Value F → Result ℕ
  unfolding mismatch
  function_from_lua (function f) = ok f
  function_from_lua v = mismatch "function" v

  unfoldable pub thread_from_lua : Value F → Result ℕ
  unfolding mismatch
  thread_from_lua (thread t) = ok t
  thread_from_lua v = mismatch "thread" v

  unfoldable pub userdata_from_lua : Value F → Result ℕ
  unfolding mismatch
  userdata_from_lua (userdata u) = ok u
  userdata_from_lua v = mismatch "userdata" v

  unfoldable pub light_userdata_from_lua : Value F → Result ℕ
  unfolding mismatch
  light_userdata_from_lua (light_userdata p) = ok p
  light_userdata_from_lua v = mismatch "lightuserdata" v

module _ {F : Type 0} (lua : Lua F) where
  unfoldable pub error_from_lua : Value F → Result Error
  unfolding and_then
  error_from_lua (error e) = ok (error_value e)
  error_from_lua v = and_then (lua.to_string v) (λ s. ok (runtime s))

  unfoldable pub coerce_string : Value F → Result (Option (List ℕ))
  coerce_string (string s p) = ok (some s)
  coerce_string v = lua.tolstring v

  -- `lua.coerce_string(value)?.ok_or_else(…)?`
  unfoldable pub coerced : String → Value F → Result (List ℕ)
  unfolding coerce_string ok_or and_then
  coerced to v =
      and_then (coerce_string v) (λ o.
        ok_or o (from_lua_conversion_error (type_name v) to (some "expected string or number")))

  unfoldable pub string_from_lua : Value F → Result (List ℕ)
  unfolding coerced
  string_from_lua v = coerced "string" v

  unfoldable pub string_from_stack : Value F → Result (List ℕ)
  unfolding string_from_lua
  string_from_stack (string s p) = ok s
  string_from_stack v = string_from_lua v

  unfoldable pub b_string_from_lua : Value F → Result (List ℕ)
  unfolding coerced
  b_string_from_lua (string s p) = ok s
  b_string_from_lua v = coerced "BString" v

  unfoldable pub b_string_from_stack : Value F → Result (List ℕ)
  unfolding b_string_from_lua
  b_string_from_stack (string s p) = ok s
  b_string_from_stack v = b_string_from_lua v

  unfoldable pub c_string_from_lua : Value F → Result (List ℕ)
  unfolding coerced and_then from_bytes_with_nul ok_or
  c_string_from_lua v = and_then (coerced "CString" v) (λ s.
      ok_or (from_bytes_with_nul (s ++ 0 ∷ []))
        (from_lua_conversion_error (type_name v) "CString" (some "invalid C-style string")))

  -- Of `BString`, `StdString`, `str`, and `CString` without its nul.
  unfoldable pub bytes_into_lua : List ℕ → Result (Value F)
  unfolding and_then
  bytes_into_lua s = and_then (lua.create_string s) (λ p. ok (string s p))

  module _ (std : Std) where
    -- `check_utf8` into the type that is named.
    unfoldable pub checked_utf8 : String → List ℕ → Result (List ℕ)
    checked_utf8 to s =
        if std.from_utf8 s
        then ok s
        else err (from_lua_conversion_error "string" to (some (std.utf8_error s)))

    unfoldable pub to_str : List ℕ → Result (List ℕ)
    unfolding checked_utf8
    to_str s = checked_utf8 "&str" s

    -- `StdString`, and `Box<str>` by its own name.
    unfoldable pub std_string_from_lua : String → Value F → Result (List ℕ)
    unfolding coerced to_str and_then
    std_string_from_lua to v = and_then (coerced to v) to_str

    unfoldable pub std_string_from_stack : Value F → Result (List ℕ)
    unfolding checked_utf8 std_string_from_lua
    std_string_from_stack (string s p) = checked_utf8 "String" s
    std_string_from_stack v = std_string_from_lua "String" v

    unfoldable pub os_string_from_lua : Value F → Result (List ℕ)
    unfolding b_string_from_lua and_then ok_or
    os_string_from_lua v = and_then (b_string_from_lua v) (λ s.
        ok_or (std.into_os_string s)
          (from_lua_conversion_error (type_name v) "OsString" (some (std.os_string_error s))))

    unfoldable pub single_char : List ℕ → Result ℕ
    single_char (c ∷ []) = ok c
    single_char cs = err (
        from_lua_conversion_error "string" "char"
          (some "expected string to have exactly one char when converting to char"))

    unfoldable pub char_from_lua : Value F → Result ℕ
    unfolding from_u32 ok_or and_then to_str single_char
    char_from_lua (integer (pos n)) = ok_or (from_u32 n) (
        from_lua_conversion_error "integer" "char"
          (some "integer out of range when converting to char"))
    char_from_lua (integer (negsuc n)) = err (
        from_lua_conversion_error "integer" "char"
          (some "integer out of range when converting to char"))
    char_from_lua (string s p) = and_then (to_str s) (λ t. single_char (std.chars t))
    char_from_lua v =
        err (from_lua_conversion_error (type_name v) "char" (some "expected string or integer"))

    unfoldable pub char_into_lua : ℕ → Result (Value F)
    unfolding bytes_into_lua
    char_into_lua c = bytes_into_lua (std.encode_utf8 c)
