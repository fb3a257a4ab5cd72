-- ===== src/Serde/Ser.antt =====
-- src/serde/ser.rs: the serializer, driven by the data as serde drives it. Integers fit `i64`.
use Prim.Native.String.{String}
use mlua.Base.{ℕ, ◌+◌, Bool, true, false, List, if◌then◌else◌}
use mlua.Base.Integer.{ℤ, pos}
use mlua.Serde.{
  Value, nil, boolean, integer, number, string, bytes, table, null, Heap, Result, ok, err,
  index_is_nil, ◌>>=◌, raw_set, raw_len, create_table, is_nil,
}

-- `Options`
pub record Options : Type 0 where
  pub set_array_metatable : Bool
  pub serialize_none_to_null : Bool
  pub serialize_unit_to_null : Bool

unfoldable pub new : Options
new = record {
  set_array_metatable = true;
  serialize_none_to_null = true;
  serialize_unit_to_null = true;
}

-- What serde makes of a Rust value: the calls of a serializer. The bytes are no text in UTF-8.
mutual
  pub data Data : Type 0 where
    bool : Bool → Data
    i64 : ℤ → Data
    f64 : ℕ → Data
    str : String → Data
    byte_buf : List ℕ → Data
    none' : Data
    some' : Data → Data
    unit : Data
    newtype_struct : Data → Data
    unit_variant : String → Data
    newtype_variant : String → Data → Data
    seq : Datas → Data
    tuple_variant : String → Datas → Data
    map' : Pairs → Data
    struct : Fields → Data
    struct_variant : String → Fields → Data

  pub data Datas : Type 0 where
    no_data : Datas
    cons : Data → Datas → Datas

  pub data Pairs : Type 0 where
    no_pairs : Pairs
    pair : Data → Data → Pairs → Pairs

  pub data Fields : Type 0 where
    no_fields : Fields
    field : String → Data → Fields → Fields

unfoldable pub serialize_none : Options → Value
serialize_none o = if o.serialize_none_to_null then null else nil

unfoldable pub serialize_unit : Options → Value
serialize_unit o = if o.serialize_unit_to_null then null else nil

-- `raw_set` with any key: nil is refused.
unfoldable pub raw_set_key : ℕ → Value → Value → Heap → Result Heap
raw_set_key t key value h = if is_nil key then err index_is_nil else ok (raw_set t key value h)

-- A table with one entry, which holds a table that is filled.
unfoldable pub wrap : String → ℕ → Heap → Value × Heap
unfolding create_table raw_set
wrap variant t h = (table h.next, raw_set h.next (string variant) (table t) (create_table false h))

unfoldable mutual
  unfolding serialize_none serialize_unit raw_set_key wrap create_table raw_set

  pub serialize : Options → Data → Heap → Result (Value × Heap)
  serialize o (bool b) h = ok (boolean b, h)
  serialize o (i64 i) h = ok (integer i, h)
  serialize o (f64 f) h = ok (number f, h)
  serialize o (str s) h = ok (string s, h)
  serialize o (byte_buf s) h = ok (bytes s, h)
  serialize o none' h = ok (serialize_none o, h)
  serialize o (some' d) h = serialize o d h
  serialize o unit h = ok (serialize_unit o, h)
  serialize o (newtype_struct d) h = serialize o d h
  serialize o (unit_variant variant) h = ok (string variant, h)
  serialize o (newtype_variant variant d) h = serialize o d (create_table false h) >>= λ r.
      ok (table h.next, raw_set h.next (string variant) (r.0) (r.1))
  serialize o (seq ds) h =
      serialize_elements o h.next 0 ds (create_table o.set_array_metatable h) >>= λ h'.
      ok (table h.next, h')
  serialize o (tuple_variant variant ds) h =
      serialize_pushes o h.next ds (create_table false h) >>= λ h'. ok (wrap variant h.next h')
  serialize o (map' ps) h =
      serialize_pairs o h.next ps (create_table false h) >>= λ h'. ok (table h.next, h')
  serialize o (struct fs) h =
      serialize_fields o h.next fs (create_table false h) >>= λ h'. ok (table h.next, h')
  serialize o (struct_variant variant fs) h =
      serialize_fields o h.next fs (create_table false h) >>= λ h'. ok (wrap variant h.next h')

  -- `SerializeSeq`: `next` elements are set.
  pub serialize_elements : Options → ℕ → ℕ → Datas → Heap → Result Heap
  serialize_elements o t next no_data h = ok h
  serialize_elements o t next (cons d ds) h = serialize o d h >>= λ r.
      serialize_elements o t (next + 1) ds (raw_set t (integer (pos (next + 1))) (r.0) (r.1))

  -- `SerializeTupleVariant`, with `raw_push`.
  pub serialize_pushes : Options → ℕ → Datas → Heap → Result Heap
  serialize_pushes o t no_data h = ok h
  serialize_pushes o t (cons d ds) h = serialize o d h >>= λ r.
      serialize_pushes o t ds
        (raw_set t (integer (pos (raw_len ((r.1).tables t).entries + 1))) (r.0) (r.1))

  -- `SerializeMap`
  pub serialize_pairs : Options → ℕ → Pairs → Heap → Result Heap
  serialize_pairs o t no_pairs h = ok h
  serialize_pairs o t (pair k d ps) h = serialize o k h >>= λ key. serialize o d (key.1) >>= λ r.
      raw_set_key t (key.0) (r.0) (r.1) >>= λ h'. serialize_pairs o t ps h'

  -- `SerializeStruct` and `SerializeStructVariant`
  pub serialize_fields : Options → ℕ → Fields → Heap → Result Heap
  serialize_fields o t no_fields h = ok h
  serialize_fields o t (field key d fs) h =
      serialize o d h >>= λ r. serialize_fields o t fs (raw_set t (string key) (r.0) (r.1))
