-- ===== src/Texts/Bytes.antt =====
-- Strings that go to Lua and back, and the fast paths for strings on the stack, src/conversion.rs.
use mlua.Base.{
  ℕ, ◌≡◌, refl, Bool, true, false, ◌||◌, none, some, List, [], ◌∷◌, ◌++◌, ◌==◌, if◌then◌else◌,
  arith, subst,
}
use mlua.Values.{Value, string, type_name}
use mlua.Texts.{
  Result, ok, err, Lua, Std, from_lua_conversion_error, from_bytes_with_nul, c_string_from_lua,
  std_string_from_lua, std_string_from_stack, string_from_lua, string_from_stack, b_string_from_lua,
  b_string_from_stack, bytes_into_lua, char_from_lua, char_into_lua, checked_utf8, and_then,
}

abbrev pub has_nul : List ℕ → Bool
has_nul [] = false
has_nul (b ∷ s) = (b == 0) || has_nul s

with_nul : (s : List ℕ) → from_bytes_with_nul (s ++ 0 ∷ []) ≡ (if has_nul s then none else some s)
unfolding from_bytes_with_nul
with_nul [] = refl
with_nul (b ∷ []) = ground arith
with_nul (b ∷ c ∷ s) = ground (arith, with_nul (c ∷ s))

module _ {F : Type 0} (lua : Lua F) where
  -- How the two readings of a `StdString` compare.
  abbrev pub Same : Std → Value F → Result (List ℕ) → Result (List ℕ) → Type 0
  Same std (string s p) by_stack by_value =
      if std.from_utf8 s
      then (by_stack ≡ ok s) × (by_value ≡ ok s)
      else (by_stack ≡ err (from_lua_conversion_error "string" "String" (some (std.utf8_error s))))
        × (by_value ≡ err (from_lua_conversion_error "string" "&str" (some (std.utf8_error s))))
  Same std v by_stack by_value = by_stack ≡ by_value

  made-string :
      (s : List ℕ) (v : Value F) → bytes_into_lua lua s ≡ ok v → (p : ℕ) × (string s p ≡ v)
  unfolding bytes_into_lua
  made-string s v h = from_address (lua.create_string s) h
    where
      from_address :
          (r : Result ℕ) → and_then r (λ p. ok (string s p)) ≡ ok v → (p : ℕ) × (string s p ≡ v)
      from_address (ok p) e = (p, cc)
      from_address (err x) e = cc

  string-reads :
      (s : List ℕ) (p : ℕ)
      → (b_string_from_lua lua (string s p) ≡ ok s)
        × (string_from_lua lua (string s p) ≡ ok s)
        × (c_string_from_lua lua (string s p) ≡ (
            if has_nul s
            then err (from_lua_conversion_error "string" "CString" (some "invalid C-style string"))
            else ok s))
  unfolding b_string_from_lua string_from_lua c_string_from_lua type_name
  string-reads s p = (refl, refl, ground (arith, with_nul s))

  -- Bytes that are turned into a Lua string are read back as the same bytes, and as a C string exactly if
  -- none of them is nul.
  pub bytes-roundtrip :
      (s : List ℕ) (v : Value F)
      → bytes_into_lua lua s ≡ ok v
      → (b_string_from_lua lua v ≡ ok s)
        × (string_from_lua lua v ≡ ok s)
        × (c_string_from_lua lua v ≡ (
            if has_nul s
            then err (from_lua_conversion_error "string" "CString" (some "invalid C-style string"))
            else ok s))
  bytes-roundtrip s v h =
      let (p, e) = made-string s v h in
      subst
        (λ w.
          (b_string_from_lua lua w ≡ ok s)
          × (string_from_lua lua w ≡ ok s)
          × (c_string_from_lua lua w ≡ (
              if has_nul s
              then err
                  (from_lua_conversion_error "string" "CString" (some "invalid C-style string"))
              else ok s)))
        e (string-reads s p)

  module _ (std : Std) where
    -- Handles of strings and their bytes are read from the stack as they are read from values. A
    -- `StdString` is read from the stack as from a value, unless it is a string that is not UTF-8: both then
    -- fail with the same message, but the stack says "String" and the value "&str".
    pub from_stack-from_lua_texts :
        (v : Value F)
        → (string_from_stack lua v ≡ string_from_lua lua v)
          × (b_string_from_stack lua v ≡ b_string_from_lua lua v)
          × Same std v (std_string_from_stack lua std v) (std_string_from_lua lua std "String" v)
    unfolding string_from_stack b_string_from_stack std_string_from_stack string_from_lua
        b_string_from_lua std_string_from_lua checked_utf8
    from_stack-from_lua_texts (string s p) = (refl, refl, ground arith)
    from_stack-from_lua_texts v = (refl, refl, refl)

    -- A character goes to Lua and back, where the bytes of a character are UTF-8 of that character alone.
    pub char-roundtrip :
        (c : ℕ) (v : Value F)
        → std.from_utf8 (std.encode_utf8 c) ≡ true
        → std.chars (std.encode_utf8 c) ≡ c ∷ []
        → char_into_lua lua std c ≡ ok v
        → char_from_lua lua std v ≡ ok c
    unfolding char_into_lua char_from_lua
    char-roundtrip c v u k h =
        let (p, e) = made-string (std.encode_utf8 c) v h in
        subst (λ w. char_from_lua lua std w ≡ ok c) e (rw (u, char_from_lua, k) refl)
