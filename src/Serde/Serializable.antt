-- ===== src/Serde/Serializable.antt =====
-- `Serialize` of Lua values, src/value.rs and src/table.rs. What a serializer is given is written as the
-- content of src/serde/de.rs. The loops run over the pairs and the indices of a table and hand the
-- serializer one after the other; its state is what it has been given. Keys are not sorted.
use mlua.Serde.De.{
  Options, Content, Contents, Entries, visit_unit, visit_bool, visit_i64, visit_f64, visit_str,
  visit_bytes, visit_none, visit_seq, visit_map, no_contents, element, no_entries, entry,
  check_value_for_skip,
}
use mlua.Serde.{
  Value, nil, boolean, integer, number, string, bytes, table, light_user_data, function, thread,
  user_data, error, other, Heap, Result, ok, err, out_of_fuel, unsupported_type, ◌>>=◌, raw_get,
}
use mlua.Base.Integer.{pos}
use mlua.Base.{ℕ, zero, suc, true, false, ◌||◌, List, [], ◌∷◌, ltb, if◌then◌else◌}

-- One more element, or one more pair, for the serializer.
unfoldable pub serialize_element : Contents → Content → Contents
serialize_element no_contents c = element c no_contents
serialize_element (element x xs) c = element x (serialize_element xs c)

unfoldable pub serialize_entry : Entries → Content → Content → Entries
serialize_entry no_entries k v = entry k v no_entries
serialize_entry (entry k' v' es) k v = entry k' v' (serialize_entry es k v)

-- `for_each_value`, for `n` indices from `i` on.
unfoldable pub for_each_value :
    {S : Type 0} → ℕ → List (Value × Value) → ℕ → (S → Value → Result S) → S → Result S
unfolding raw_get
for_each_value zero es i f s = ok s
for_each_value (suc n) es i f s =
    f s (raw_get es (integer (pos i))) >>= λ s'. for_each_value n es (suc i) f s'

-- `for_each`
unfoldable pub for_each :
    {S : Type 0} → List (Value × Value) → (S → Value → Value → Result S) → S → Result S
for_each [] f s = ok s
for_each ((k, v) ∷ es) f s = f s k v >>= λ s'. for_each es f s'

module _ (o : Options) (visited : List ℕ) (serialize : Value → Result Content) where
  -- The two closures.
  unfoldable pub process_value : Contents → Value → Result Contents
  unfolding check_value_for_skip serialize_element
  process_value seq value = check_value_for_skip o visited value >>= λ skip.
      if skip then ok seq else serialize value >>= λ c. ok (serialize_element seq c)

  unfoldable pub process_pair : Entries → Value → Value → Result Entries
  unfolding check_value_for_skip serialize_entry
  process_pair map key value = check_value_for_skip o visited key >>= λ skip_key.
      check_value_for_skip o visited value >>= λ skip_value.
      if skip_key || skip_value
      then ok map
      else serialize key >>= λ k. serialize value >>= λ v. ok (serialize_entry map k v)

unfoldable pub unserializable : Options → Result Content
unserializable o = if o.deny_unsupported_types then err unsupported_type else ok visit_unit

-- `SerializableValue` and `SerializableTable`; `lua_rawlen` is what Lua gives for the entries of a table.
unfoldable pub serialize_value :
    (List (Value × Value) → ℕ) → ℕ → Options → Heap → List ℕ → Value → Result Content
unfolding unserializable process_value process_pair for_each_value for_each
serialize_value lua_rawlen zero o h visited v = out_of_fuel
serialize_value lua_rawlen (suc fuel) o h visited nil = ok visit_unit
serialize_value lua_rawlen (suc fuel) o h visited (boolean b) = ok (visit_bool b)
serialize_value lua_rawlen (suc fuel) o h visited (integer i) = ok (visit_i64 i)
serialize_value lua_rawlen (suc fuel) o h visited (number n) = ok (visit_f64 n)
serialize_value lua_rawlen (suc fuel) o h visited (string s) = ok (visit_str s)
serialize_value lua_rawlen (suc fuel) o h visited (bytes s) = ok (visit_bytes s)
serialize_value lua_rawlen (suc fuel) o h visited (table t) =
    let inner = serialize_value lua_rawlen fuel o h (t ∷ visited) in
    let entries = (h.tables t).entries in
    let len = lua_rawlen entries in
    if ltb 0 len || (h.tables t).array
    then (for_each_value len entries 1 (process_value o (t ∷ visited) inner) no_contents >>= λ seq.
        ok (visit_seq seq))
    else (for_each entries (process_pair o (t ∷ visited) inner) no_entries >>= λ map.
        ok (visit_map map))
serialize_value lua_rawlen (suc fuel) o h visited (light_user_data true) = ok visit_none
serialize_value lua_rawlen (suc fuel) o h visited (light_user_data false) = unserializable o
serialize_value lua_rawlen (suc fuel) o h visited function = unserializable o
serialize_value lua_rawlen (suc fuel) o h visited thread = unserializable o
serialize_value lua_rawlen (suc fuel) o h visited user_data = unserializable o
serialize_value lua_rawlen (suc fuel) o h visited error = unserializable o
serialize_value lua_rawlen (suc fuel) o h visited other = unserializable o
