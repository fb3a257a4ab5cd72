-- ===== src/Convert/Containers.antt =====
-- src/conversion.rs: `Option`, `Either`, sequences, maps and sets, over the conversions of what they hold.
-- `pairs` gives the entries of a table in the order of `next`; a map or a set is a list, in the order in
-- which it is iterated or was filled. `create_sequence_from` and `create_table_from` are of
-- src/state/raw.rs and src/state.rs.
use mlua.Convert.{
  Result, ok, err, ◌>>=◌, FromLua, IntoLua, type_name, from_lua_conversion_error, no_message,
  expected_table, expected_length, index_is_nil, runtime_error,
}
use mlua.Serde.{
  Value, nil, boolean, integer, table, Heap, is_nil, create_table, raw_set, sequence_values,
  raw_len,
}
use mlua.Base.{
  ℕ, ◌+◌, true, Option, none, some, List, [], ◌∷◌, length, ltb, ◌==◌, if◌then◌else◌, false,
}
use mlua.Base.Integer.{pos}

-- `Either`
pub data Either (L R : Type 0) : Type 0 where
  left : L → Either L R
  right : R → Either L R

module _ {T : Type 0} (into : IntoLua T) (from : FromLua T) where
  unfoldable pub option_into_lua : IntoLua (Option T)
  option_into_lua (some val) h = into val h
  option_into_lua none h = ok (nil, h)

  unfoldable pub option_from_lua : FromLua (Option T)
  option_from_lua h nil = ok none
  option_from_lua h value = from h value >>= λ x. ok (some x)

  -- `create_sequence_from`: the values from the `i`-th on, into a table.
  unfoldable pub push_sequence : ℕ → ℕ → List T → Heap → Result Heap
  unfolding raw_set
  push_sequence t i [] h = ok h
  push_sequence t i (v ∷ vs) h =
      into v h >>= λ r. push_sequence t (i + 1) vs (raw_set t (integer (pos (i + 1))) (r.0) (r.1))

  -- `Vec`, `Box<[T]>`, `&[T]` and arrays.
  unfoldable pub vec_into_lua : IntoLua (List T)
  unfolding push_sequence create_table
  vec_into_lua xs h =
      push_sequence h.next 0 xs (create_table false h) >>= λ h'. ok (table h.next, h')

  -- `collect` of what an iterator gives, up to its first error.
  unfoldable pub collect : Heap → List Value → Result (List T)
  collect h [] = ok []
  collect h (v ∷ vs) = from h v >>= λ x. collect h vs >>= λ xs. ok (x ∷ xs)

  unfoldable pub vec_from_lua : FromLua (List T)
  unfolding collect sequence_values type_name
  vec_from_lua h (table t) = collect h (sequence_values (h.tables t).entries)
  vec_from_lua h value = err (from_lua_conversion_error (type_name value) expected_table)

  -- `[T; N]`: a sequence of the length `n`.
  unfoldable pub array_from_lua : ℕ → FromLua (List T)
  unfolding collect sequence_values type_name
  array_from_lua n h (table t) = collect h (sequence_values (h.tables t).entries) >>= λ vec.
      if length vec == n
      then ok vec
      else err (from_lua_conversion_error "table" (expected_length n (length vec)))
  array_from_lua n h value = err (from_lua_conversion_error (type_name value) expected_table)

  -- The keys of the pairs of a table, `HashSet` and `BTreeSet`.
  unfoldable pub collect_keys : Heap → List (Value × Value) → Result (List T)
  collect_keys h [] = ok []
  collect_keys h ((k, v) ∷ es) = from h k >>= λ x. collect_keys h es >>= λ xs. ok (x ∷ xs)

  unfoldable pub set_from_lua : FromLua (List T)
  unfolding collect collect_keys sequence_values raw_len type_name
  set_from_lua h (table t) =
      if ltb 0 (raw_len (h.tables t).entries)
      then collect h (sequence_values (h.tables t).entries)
      else collect_keys h (h.tables t).entries
  set_from_lua h value = err (from_lua_conversion_error (type_name value) expected_table)

  -- `create_table_from` with `true` for each value.
  unfoldable pub push_set : ℕ → List T → Heap → Result Heap
  unfolding raw_set is_nil
  push_set t [] h = ok h
  push_set t (x ∷ xs) h = into x h >>= λ r.
      if is_nil (r.0)
      then err (runtime_error index_is_nil)
      else push_set t xs (raw_set t (r.0) (boolean true) (r.1))

  unfoldable pub set_into_lua : IntoLua (List T)
  unfolding push_set create_table
  set_into_lua xs h = push_set h.next xs (create_table false h) >>= λ h'. ok (table h.next, h')

module _ {L R : Type 0} (into_l : IntoLua L) (from_l : FromLua L) (into_r : IntoLua R)
    (from_r : FromLua R) where
  unfoldable pub either_into_lua : IntoLua (Either L R)
  either_into_lua (left l) h = into_l l h
  either_into_lua (right r) h = into_r r h

  unfoldable pub either_right : Heap → Value → Result R → Result (Either L R)
  unfolding type_name
  either_right h value (ok r) = ok (right r)
  either_right h value (err e) = err (from_lua_conversion_error (type_name value) no_message)

  -- The left type is tried first.
  unfoldable pub either_cases : Heap → Value → Result L → Result R → Result (Either L R)
  unfolding either_right
  either_cases h value (ok l) r = ok (left l)
  either_cases h value (err e) r = either_right h value r

  unfoldable pub either_from_lua : FromLua (Either L R)
  unfolding either_cases
  either_from_lua h value = either_cases h value (from_l h value) (from_r h value)
