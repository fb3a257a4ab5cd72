-- ===== src/Texts/Tests.antt =====
-- Text over bytes below 128, which are their characters; a string is at the address 9.
use mlua.Base.{ℕ, ◌≡◌, refl, true, none, some, [], ◌∷◌, if◌then◌else◌}
use mlua.Values.{Value, string, table}
use mlua.Texts.{
  Lua, Std, ok, err, from_lua_conversion_error, b_string_from_lua, string_from_lua,
  c_string_from_lua, bytes_into_lua, char_into_lua, string_from_stack, b_string_from_stack,
  std_string_from_stack, std_string_from_lua,
}
use mlua.Texts.Bytes.{has_nul, bytes-roundtrip, from_stack-from_lua_texts, Same}

abbrev lua : Lua ℕ
lua = record { tolstring = λ v. ok none; create_string = λ s. ok 9; to_string = λ v. ok [] }

abbrev std : Std
std = record {
  from_utf8 = λ s. true;
  utf8_error = λ s. "";
  chars = λ s. s;
  encode_utf8 = λ c. c ∷ [];
  into_os_string = λ s. some s;
  os_string_error = λ s. "";
}

abbrev four : Value ℕ
four = table 4

abbrev text : Value ℕ
text = string (104 ∷ 0 ∷ 105 ∷ []) 9

written : bytes_into_lua lua (104 ∷ 0 ∷ 105 ∷ []) ≡ ok text
unfolding bytes_into_lua
written = refl

bytes-roundtrip_example :
    (b_string_from_lua lua text ≡ ok (104 ∷ 0 ∷ 105 ∷ []))
    × (string_from_lua lua text ≡ ok (104 ∷ 0 ∷ 105 ∷ []))
    × (c_string_from_lua lua text ≡ (
        if has_nul (104 ∷ 0 ∷ 105 ∷ [])
        then err (from_lua_conversion_error "string" "CString" (some "invalid C-style string"))
        else ok (104 ∷ 0 ∷ 105 ∷ [])))
bytes-roundtrip_example = bytes-roundtrip lua (104 ∷ 0 ∷ 105 ∷ []) text written

from_stack-from_lua_texts_example :
    (string_from_stack lua text ≡ string_from_lua lua text)
    × (b_string_from_stack lua text ≡ b_string_from_lua lua text)
    × Same lua std text
        (std_string_from_stack lua std text)
        (std_string_from_lua lua std "String" text)
from_stack-from_lua_texts_example = from_stack-from_lua_texts lua std text

char_written : char_into_lua lua std 104 ≡ ok (string (104 ∷ []) 9)
unfolding char_into_lua
char_written = refl
