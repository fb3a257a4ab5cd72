-- ===== src/Serde/De.antt =====
-- src/serde/de.rs: the deserializer, for a visitor that takes whatever comes and all of it. A guard
-- adds its table to the set of visited ones and takes it out at its end; a table is entered only
-- if it is not in the set, so that this leaves the set as it was. Keys are not sorted.
use Prim.Native.String.{String}
use mlua.Base.{
  ℕ, zero, suc, Bool, true, false, ◌||◌, not, List, [], ◌∷◌, Option, none, some, ltb, ◌==◌,
  if◌then◌else◌,
}
use mlua.Base.Integer.{ℤ}
use mlua.Serde.{
  Value, nil, boolean, integer, number, string, bytes, table, light_user_data, function, thread,
  user_data, error, other, Heap, Result, ok, err, out_of_fuel, recursive_table, unsupported_type,
  bad_enum_value, invalid_type, ◌>>=◌, raw_len, sequence_values, conversion_error, invalid_value,
}

-- `Options`
pub record Options : Type 0 where
  pub deny_unsupported_types : Bool
  pub deny_recursive_tables : Bool

unfoldable pub new : Options
new = record { deny_unsupported_types = true; deny_recursive_tables = true }

-- What the visitor is given.
mutual
  pub data Content : Type 0 where
    visit_unit : Content
    visit_bool : Bool → Content
    visit_i64 : ℤ → Content
    visit_f64 : ℕ → Content
    visit_str : String → Content
    visit_bytes : List ℕ → Content
    visit_none : Content
    visit_seq : Contents → Content
    visit_map : Entries → Content

  pub data Contents : Type 0 where
    no_contents : Contents
    element : Content → Contents → Contents

  pub data Entries : Type 0 where
    no_entries : Entries
    entry : Content → Content → Entries → Entries

unfoldable pub contains : List ℕ → ℕ → Bool
contains [] t = false
contains (x ∷ xs) t = x == t || contains xs t

unfoldable pub check_value_for_skip : Options → List ℕ → Value → Result Bool
unfolding contains
check_value_for_skip o visited (table t) =
    if contains visited t
    then (if o.deny_recursive_tables then err recursive_table else ok true)
    else ok false
check_value_for_skip o visited function = ok (not o.deny_unsupported_types)
check_value_for_skip o visited thread = ok (not o.deny_unsupported_types)
check_value_for_skip o visited user_data = ok (not o.deny_unsupported_types)
check_value_for_skip o visited (light_user_data is_null) = ok (not o.deny_unsupported_types)
check_value_for_skip o visited error = ok (not o.deny_unsupported_types)
check_value_for_skip o visited _ = ok false

unfoldable pub unsupported : Options → Result Content
unsupported o = if o.deny_unsupported_types then err unsupported_type else ok visit_unit

module _ (o : Options) (visited : List ℕ) (deserialize : Value → Result Content) where
  -- `SeqDeserializer`
  unfoldable pub next_elements : List Value → Result Contents
  unfolding check_value_for_skip
  next_elements [] = ok no_contents
  next_elements (v ∷ vs) = check_value_for_skip o visited v >>= λ skip.
      if skip
      then next_elements vs
      else deserialize v >>= λ c. next_elements vs >>= λ cs. ok (element c cs)

  -- `MapDeserializer`
  unfoldable pub next_entries : List (Value × Value) → Result Entries
  unfolding check_value_for_skip
  next_entries [] = ok no_entries
  next_entries ((k, v) ∷ es) = check_value_for_skip o visited k >>= λ skip_key.
      check_value_for_skip o visited v >>= λ skip_value.
      if skip_key || skip_value
      then next_entries es
      else deserialize k >>= λ key.
          deserialize v >>= λ value. next_entries es >>= λ rest. ok (entry key value rest)

unfoldable pub deserialize_any : ℕ → Options → Heap → List ℕ → Value → Result Content
unfolding unsupported next_elements next_entries raw_len sequence_values
deserialize_any zero o h visited v = out_of_fuel
deserialize_any (suc fuel) o h visited nil = ok visit_unit
deserialize_any (suc fuel) o h visited (boolean b) = ok (visit_bool b)
deserialize_any (suc fuel) o h visited (integer i) = ok (visit_i64 i)
deserialize_any (suc fuel) o h visited (number n) = ok (visit_f64 n)
deserialize_any (suc fuel) o h visited (string s) = ok (visit_str s)
deserialize_any (suc fuel) o h visited (bytes s) = ok (visit_bytes s)
deserialize_any (suc fuel) o h visited (light_user_data true) = ok visit_none
deserialize_any (suc fuel) o h visited (light_user_data false) = unsupported o
deserialize_any (suc fuel) o h visited function = unsupported o
deserialize_any (suc fuel) o h visited thread = unsupported o
deserialize_any (suc fuel) o h visited user_data = unsupported o
deserialize_any (suc fuel) o h visited error = unsupported o
deserialize_any (suc fuel) o h visited other = unsupported o
deserialize_any (suc fuel) o h visited (table t) =
    let inner = deserialize_any fuel o h (t ∷ visited) in
    let entries = (h.tables t).entries in
    if ltb 0 (raw_len entries) || (h.tables t).array
    then (next_elements o (t ∷ visited) inner (sequence_values entries) >>= λ cs. ok (visit_seq cs))
    else (next_entries o (t ∷ visited) inner entries >>= λ es. ok (visit_map es))

-- `deserialize_option`: `visit_none`, or `visit_some` with the same deserializer.
unfoldable pub deserialize_option : Value → Option Value
deserialize_option nil = none
deserialize_option (light_user_data true) = none
deserialize_option v = some v

-- The key of an entry as a text: `number_text` is what `lua_tolstring` makes of a number, and nothing of
-- another value. Other bytes are not UTF-8.
unfoldable pub key_text : (Value → Option String) → Value → Result String
key_text number_text (string variant) = ok variant
key_text number_text (bytes s) = err conversion_error
key_text number_text v = elim (number_text v) [ some s ↦ ok s | none ↦ err conversion_error ]

-- Whether there is another entry, and the content of the only one.
unfoldable pub only_entry :
    Options → List ℕ → String → Value → List (Value × Value) → Result (String × Option Value)
unfolding check_value_for_skip
only_entry o visited variant v [] = check_value_for_skip o visited v >>= λ skip.
    if skip then err bad_enum_value else ok (variant, some v)
only_entry o visited variant v (e ∷ es) = err invalid_value

-- The only entry of a table: the variant and its content.
unfoldable pub single_entry :
    (Value → Option String)
    → Options
    → List ℕ
    → List (Value × Value)
    → Result (String × Option Value)
unfolding key_text only_entry
single_entry number_text o visited [] = err invalid_value
single_entry number_text o visited ((k, v) ∷ es) =
    key_text number_text k >>= λ variant. only_entry o visited variant v es

-- `deserialize_enum`, up to the variant's own deserializer.
unfoldable pub deserialize_enum :
    (Value → Option String) → Options → Heap → List ℕ → Value → Result (String × Option Value)
unfolding single_entry
deserialize_enum number_text o h visited (table t) =
    single_entry number_text o (t ∷ visited) (h.tables t).entries
deserialize_enum number_text o h visited (string variant) = ok (variant, none)
deserialize_enum number_text o h visited (bytes s) = err conversion_error
deserialize_enum number_text o h visited _ = err bad_enum_value

-- `VariantDeserializer`
unfoldable pub unit_variant : Option Value → Result (Unit {0})
unit_variant none = ok tt
unit_variant (some v) = err invalid_type

unfoldable pub newtype_variant_seed : ℕ → Options → Heap → List ℕ → Option Value → Result Content
unfolding deserialize_any
newtype_variant_seed fuel o h visited none = err invalid_type
newtype_variant_seed fuel o h visited (some v) = deserialize_any fuel o h visited v
