-- ===== src/Serde/Roundtrip.antt =====
-- Data through the serializer of src/serde/ser.rs and back through src/serde/de.rs.
pub mod Reads
pub mod Fills
pub mod Made
pub mod Steps
pub mod Whole
pub mod Variants
use Prim.Native.String.{String}
use mathlib.Core.List.{append_assoc, append-nil}
use mlua.Base.{
  ℕ, zero, suc, ◌+◌, ◌≤◌, ◌<◌, ◌≡◌, ◌≢◌, refl, sym, ap, ◌∙◌, subst, Bool, true, false, ◌||◌, List,
  [], ◌∷◌, ◌++◌, length, length-append, All, arith, if◌then◌else◌, ltb, ◌==◌,
}
use mlua.Serde.{
  Value, nil, boolean, integer, number, string, bytes, table, light_user_data, Heap, Table, ok, err,
  Result, ◌>>=◌, sequence_values, raw_len, create_table, raw_set, raw_set_entries,
}
use mlua.Serde
use mlua.Serde.Ser.{
  Data, Datas, Fields, Pairs, bool, i64, f64, str, byte_buf, none', some', unit, newtype_struct,
  unit_variant, newtype_variant, seq, tuple_variant, map', struct, struct_variant, no_data, cons,
  no_fields, field, no_pairs, pair, serialize, serialize_elements, serialize_pushes,
  serialize_fields, serialize_pairs,
}
use mlua.Serde.Ser
use mlua.Serde.De.{
  Content, Contents, Entries, visit_bool, visit_i64, visit_f64, visit_str, visit_bytes, visit_none,
  visit_seq, visit_map, no_contents, element, no_entries, entry, contains, check_value_for_skip,
  deserialize_any, next_elements, next_entries,
}
use mlua.Serde.De
use mlua.Serde.Lookup.{
  NotNil, numbered, named, Absent, sequence_values-numbered, raw_set-numbered, raw_set-named,
  raw_len-named,
}

-- What a visitor is given of data: a variant is a table with one entry, under its name.
unfoldable mutual
  pub content : Data → Content
  content (bool b) = visit_bool b
  content (i64 i) = visit_i64 i
  content (f64 f) = visit_f64 f
  content (str s) = visit_str s
  content (byte_buf s) = visit_bytes s
  content none' = visit_none
  content (some' d) = content d
  content unit = visit_none
  content (newtype_struct d) = content d
  content (unit_variant variant) = visit_str variant
  content (newtype_variant variant d) = visit_map (entry (visit_str variant) (content d) no_entries)
  content (seq ds) = visit_seq (contents ds)
  content (tuple_variant variant no_data) =
      visit_map (entry (visit_str variant) (visit_map no_entries) no_entries)
  content (tuple_variant variant (cons d ds)) =
      visit_map
        (entry (visit_str variant) (visit_seq (element (content d) (contents ds))) no_entries)
  content (map' ps) = visit_map (pair_entries ps)
  content (struct fs) = visit_map (field_entries fs)
  content (struct_variant variant fs) =
      visit_map (entry (visit_str variant) (visit_map (field_entries fs)) no_entries)

  pub contents : Datas → Contents
  contents no_data = no_contents
  contents (cons d ds) = element (content d) (contents ds)

  pub pair_entries : Pairs → Entries
  pair_entries no_pairs = no_entries
  pair_entries (pair k d ps) = entry (content k) (content d) (pair_entries ps)

  pub field_entries : Fields → Entries
  field_entries no_fields = no_entries
  field_entries (field k d fs) = entry (visit_str k) (content d) (field_entries fs)

-- More than the nesting of tables.
unfoldable mutual
  pub size : Data → ℕ
  size (some' d) = size d
  size (newtype_struct d) = size d
  size (newtype_variant variant d) = 1 + (1 + size d + 0)
  size (seq ds) = 1 + sizes ds
  size (tuple_variant variant ds) = 1 + (1 + sizes ds)
  size (map' ps) = 1 + pair_sizes ps
  size (struct fs) = 1 + field_sizes fs
  size (struct_variant variant fs) = 1 + (1 + field_sizes fs)
  size _ = 1

  pub sizes : Datas → ℕ
  sizes no_data = 0
  sizes (cons d ds) = size d + sizes ds

  pub pair_sizes : Pairs → ℕ
  pair_sizes no_pairs = 0
  pair_sizes (pair k d ps) = 1 + size d + pair_sizes ps

  pub field_sizes : Fields → ℕ
  field_sizes no_fields = 0
  field_sizes (field k d fs) = 1 + size d + field_sizes fs

abbrev pub count : Datas → ℕ
count no_data = 0
count (cons d ds) = suc (count ds)

abbrev pub NotField : String → Fields → Type 0
NotField k no_fields = Unit
NotField k (field j d fs) = (k ≢ j) × NotField k fs

abbrev pub NotKey : String → Pairs → Type 0
NotKey k no_pairs = Unit
NotKey k (pair (str j) d ps) = (k ≢ j) × NotKey k ps
NotKey k (pair _ d ps) = NotKey k ps

-- The keys of a map are texts, and no two keys or names of fields are the same.
unfoldable mutual
  pub IsKeyed : Data → Type 0
  IsKeyed (some' d) = IsKeyed d
  IsKeyed (newtype_struct d) = IsKeyed d
  IsKeyed (newtype_variant variant d) = IsKeyed d
  IsKeyed (seq ds) = AllKeyed ds
  IsKeyed (tuple_variant variant ds) = AllKeyed ds
  IsKeyed (map' ps) = PairsKeyed ps
  IsKeyed (struct fs) = FieldsKeyed fs
  IsKeyed (struct_variant variant fs) = FieldsKeyed fs
  IsKeyed _ = Unit

  pub AllKeyed : Datas → Type 0
  AllKeyed no_data = Unit
  AllKeyed (cons d ds) = IsKeyed d × AllKeyed ds

  pub PairsKeyed : Pairs → Type 0
  PairsKeyed no_pairs = Unit
  PairsKeyed (pair (str k) d ps) = NotKey k ps × IsKeyed d × PairsKeyed ps
  PairsKeyed (pair _ d ps) = ⊥

  pub FieldsKeyed : Fields → Type 0
  FieldsKeyed no_fields = Unit
  FieldsKeyed (field k d fs) = NotField k fs × IsKeyed d × FieldsKeyed fs

-- The values that the serializer makes; a table's number lies in a range.
abbrev pub IsMade : ℕ → ℕ → Value → Type 0
IsMade lo hi (boolean b) = Unit
IsMade lo hi (integer i) = Unit
IsMade lo hi (number n) = Unit
IsMade lo hi (string s) = Unit
IsMade lo hi (bytes s) = Unit
IsMade lo hi (table t) = (lo ≤ t) × (t < hi)
IsMade lo hi (light_user_data b) = b ≡ true
IsMade lo hi _ = ⊥

-- Two heaps agree on a range, and no table of a range was visited.
abbrev pub Agree : Heap → Heap → ℕ → ℕ → Type 0
Agree h h' lo hi = (k : ℕ) → lo ≤ k → k < hi → h.tables k ≡ h'.tables k

abbrev pub Fresh : List ℕ → ℕ → ℕ → Type 0
Fresh visited lo hi = (k : ℕ) → lo ≤ k → k < hi → contains visited k ≡ false

module _ (o : De.Options) (deny : o.deny_unsupported_types ≡ true) where
  -- A value was made, and is read.
  pub record Produced (run : Result (Value × Heap)) (c : Content) (bound : ℕ) (h : Heap)
      : Type 0 where
    pub value : Value
    pub after : Heap
    pub returns : run ≡ ok (value, after)
    pub grows : h.next ≤ after.next
    pub keeps : (k : ℕ) → k < h.next → after.tables k ≡ h.tables k
    pub made : IsMade h.next after.next value
    pub reads :
        (H : Heap) (visited : List ℕ) (fuel : ℕ)
        → Agree H after h.next after.next
        → Fresh visited h.next after.next
        → bound < fuel
        → deserialize_any fuel o H visited value ≡ ok c

  abbrev pub Serialized : Data → Heap → Type 0
  Serialized d h = Produced (serialize Ser.new d h) (content d) (size d) h

  -- The elements of a sequence, after some that are in the table already.
  pub record Filled (ds : Datas) (t : ℕ) (ws : List Value) (array : Bool) (h : Heap) : Type 0 where
    pub values : List Value
    pub after : Heap
    pub sets : serialize_elements Ser.new t (length ws) ds h ≡ ok after
    pub pushes : serialize_pushes Ser.new t ds h ≡ ok after
    pub counts : length values ≡ count ds
    pub grows : h.next ≤ after.next
    pub keeps : (k : ℕ) → k < h.next → k ≢ t → after.tables k ≡ h.tables k
    pub table_is : after.tables t ≡ record { entries = numbered 1 (ws ++ values); array = array }
    pub not_nil : All NotNil (ws ++ values)
    pub reads :
        (H : Heap) (visited : List ℕ) (fuel : ℕ)
        → Agree H after h.next after.next
        → Fresh visited h.next after.next
        → sizes ds < fuel
        → next_elements o visited (deserialize_any fuel o H visited) values ≡ ok (contents ds)

  IsMade-NotNil : (lo hi : ℕ) (v : Value) → IsMade lo hi v → NotNil v
  unfolding Serde.is_nil
  IsMade-NotNil lo hi nil m = elim m [ ]
  IsMade-NotNil lo hi v m = ground arith

  not_skipped :
      (lo hi : ℕ) (visited : List ℕ) (v : Value)
      → IsMade lo hi v
      → Fresh visited lo hi
      → check_value_for_skip o visited v ≡ ok false
  unfolding check_value_for_skip
  not_skipped lo hi visited (table t) m f = rw (f t m.0 m.1) refl
  not_skipped lo hi visited v m f = ground (arith, deny)
