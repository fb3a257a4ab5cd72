-- ===== src/Serde/Roundtrip/Whole.antt =====
-- Whole data through src/serde/ser.rs and back through src/serde/de.rs.
use Prim.Native.String.{String}
use mlua.Serde.Roundtrip.Made.{plain, filled_fields, filled_elements, wrapped}
use mlua.Serde.Roundtrip.Fills.{Named, named_step, filled_step}
use mlua.Serde.Roundtrip.{
  Filled, Serialized, IsKeyed, AllKeyed, FieldsKeyed, PairsKeyed, content, field_entries,
  pair_entries, size, field_sizes, pair_sizes, IsMade-NotNil,
}
use mlua.Serde.Lookup.{NotNil, numbered, named}
use mlua.Serde.Ser.{
  Data, Datas, Fields, Pairs, bool, i64, f64, str, byte_buf, none', some', unit, newtype_struct,
  unit_variant, newtype_variant, seq, tuple_variant, map', struct, struct_variant, no_data, cons,
  no_fields, field, no_pairs, pair, serialize, serialize_elements, serialize_pushes,
  serialize_fields, serialize_pairs,
}
use mlua.Serde.Ser
use mlua.Serde.De.{Entries, no_entries, deserialize_any}
use mlua.Serde.De
use mlua.Serde.{◌>>=◌, Value, Heap, Result, ok, raw_set, create_table, string, integer, pos}
use mlua.Serde
use mlua.Base.{ℕ, ◌<◌, ◌≡◌, refl, ap, Bool, true, false, List, [], ◌∷◌, ◌++◌, All, arith}
use mlua.Serde.Roundtrip.Steps.{
  FieldsAbsent, KeysAbsent, FieldsAbsent-append, KeysAbsent-append, FieldsAbsent-empty,
  KeysAbsent-empty, fields_step, pairs_step, named_nil, filled_nil, named_after, filled_after,
  All-snoc,
}
use mlua.Serde.Roundtrip.Made.{create_table-table, create_table-next, plain}

module _ (o : De.Options) (deny : o.deny_unsupported_types ≡ true) where
  mutual
    unfolding serialize content size IsKeyed Ser.new deserialize_any

    pub serialized : (d : Data) (h : Heap) → IsKeyed d → Serialized o deny d h
    serialized (bool b) h t = plain o deny _ _ _ h tt (λ H visited fuel. refl)
    serialized (i64 i) h t = plain o deny _ _ _ h tt (λ H visited fuel. refl)
    serialized (f64 f) h t = plain o deny _ _ _ h tt (λ H visited fuel. refl)
    serialized (str s) h t = plain o deny _ _ _ h tt (λ H visited fuel. refl)
    serialized (byte_buf s) h t = plain o deny _ _ _ h tt (λ H visited fuel. refl)
    serialized none' h t = plain o deny _ _ _ h refl (λ H visited fuel. refl)
    serialized (some' d) h t = serialized d h t
    serialized unit h t = plain o deny _ _ _ h refl (λ H visited fuel. refl)
    serialized (newtype_struct d) h t = serialized d h t
    serialized (unit_variant variant) h t = plain o deny _ _ _ h tt (λ H visited fuel. refl)
    serialized (newtype_variant variant d) h t =
        let s = serialized d (create_table false h) t in
        let after =
          named_after o deny h.next [] (create_table false h) d variant s
            (omega (arith, create_table-next false h)) (create_table-table false h) tt in
        let n =
          named_step o deny _ (ok (raw_set h.next (string variant) s.value s.after)) no_entries 0
            h.next [] (create_table false h) d variant s (omega (arith, create_table-next false h))
            (create_table-table false h) tt refl (named_nil o deny h.next _ _ after.0) in
        filled_fields o deny _ _ _ h _ n
          (rw s.returns (ap (λ r. r >>= λ h'. ok (Serde.table h.next, h')) n.sets))
    serialized (seq ds) h t =
        let n =
          filled ds h.next [] true (create_table true h) t (omega (arith, create_table-next true h))
            (create_table-table true h) tt in
        filled_elements o deny ds true h _ n (rw n.sets refl) (ground arith)
    serialized (tuple_variant variant no_data) h t =
        let n = named_nil o deny h.next [] (create_table false h) (create_table-table false h) in
        wrapped o deny _ _ h (n.after) variant h.next _
          (filled_fields o deny _ _ _ h (ok (Serde.table h.next, n.after)) n refl)
          (ap (λ r. r >>= λ h'. ok (Ser.wrap variant h.next h')) n.sets)
    serialized (tuple_variant variant (cons d ds)) h t =
        let n =
          filled (cons d ds) h.next [] false (create_table false h) t
            (omega (arith, create_table-next false h)) (create_table-table false h) tt in
        wrapped o deny _ _ h (n.after) variant h.next _
          (filled_elements o deny (cons d ds) false h (ok (Serde.table h.next, n.after)) n refl
            (ground arith))
          (rw n.pushes refl)
    serialized (map' ps) h t =
        let n =
          pairs_named ps h.next [] (create_table false h) t (KeysAbsent-empty ps t)
            (omega (arith, create_table-next false h)) (create_table-table false h) in
        filled_fields o deny _ _ _ h _ n (rw n.sets refl)
    serialized (struct fs) h t =
        let n =
          fields_named fs h.next [] (create_table false h) t (FieldsAbsent-empty fs)
            (omega (arith, create_table-next false h)) (create_table-table false h) in
        filled_fields o deny _ _ _ h _ n (rw n.sets refl)
    serialized (struct_variant variant fs) h t =
        let n =
          fields_named fs h.next [] (create_table false h) t (FieldsAbsent-empty fs)
            (omega (arith, create_table-next false h)) (create_table-table false h) in
        wrapped o deny _ _ h n.after variant h.next _
          (filled_fields o deny _ _ _ h (ok (Serde.table h.next, n.after)) n refl) (rw n.sets refl)

    filled :
        (ds : Datas) (t : ℕ) (ws : List Value) (array : Bool) (h : Heap)
        → AllKeyed ds
        → t < h.next
        → h.tables t ≡ record { entries = numbered 1 ws; array = array }
        → All NotNil ws
        → Filled o deny ds t ws array h
    filled no_data t ws array h k l e n = filled_nil o deny t ws array h e n
    filled (cons d ds) t ws array h k l e n =
        let s = serialized d h (k.0) in
        let after = filled_after o deny t ws array h d s l e in
        filled_step o deny ds t ws array h d s l e n (
          filled ds t (ws ++ s.value ∷ []) array _ (k.1) (after.1) (after.0)
            (All-snoc ws s.value n (IsMade-NotNil o deny h.next s.after.next s.value s.made)))

    fields_named :
        (fs : Fields) (t : ℕ) (es : List (String × Value)) (h : Heap)
        → FieldsKeyed fs
        → FieldsAbsent fs es
        → t < h.next
        → h.tables t ≡ record { entries = named es; array = false }
        → Named o deny (serialize_fields Ser.new t fs h) (field_entries fs) (field_sizes fs) t es h
    fields_named no_fields t es h k a l e = named_nil o deny t es h e
    fields_named (field key d fs) t es h k a l e =
        let s = serialized d h (k.1) in
        let after = named_after o deny t es h d key s l e (a.0) in
        named_step o deny _ _ _ _ t es h d key s l e (a.0)
          (fields_step t key d fs h s.after s.value s.returns)
          (fields_named fs t _ _ (k.2) (FieldsAbsent-append fs key s.value es (a.1) (k.0)) (after.1)
            (after.0))

    pairs_named :
        (ps : Pairs) (t : ℕ) (es : List (String × Value)) (h : Heap)
        → PairsKeyed ps
        → KeysAbsent ps es
        → t < h.next
        → h.tables t ≡ record { entries = named es; array = false }
        → Named o deny (serialize_pairs Ser.new t ps h) (pair_entries ps) (pair_sizes ps) t es h
    pairs_named no_pairs t es h k a l e = named_nil o deny t es h e
    pairs_named (pair (str key) d ps) t es h k a l e =
        let s = serialized d h (k.1) in
        let after = named_after o deny t es h d key s l e (a.0) in
        named_step o deny _ _ _ _ t es h d key s l e (a.0)
          (pairs_step t key d ps h s.after s.value s.returns)
          (pairs_named ps t _ _ (k.2) (KeysAbsent-append ps key s.value es (a.1) (k.0) (k.2))
            (after.1) (after.0))
    pairs_named (pair _ d ps) t es h k a l e = elim k [ ]

  -- Data with texts for the keys of its maps, with no two keys of one map the same, that is serialized
  -- with the default options into any heap and read again gives the visitor the data, where types that
  -- cannot be read are denied and the fuel is more than the data's size.
  pub deserialize_any-serialize :
      (d : Data) (h : Heap)
      → IsKeyed d
      → (v : Value) × (h' : Heap) × (serialize Ser.new d h ≡ ok (v, h'))
        × ((fuel : ℕ) → size d < fuel → deserialize_any fuel o h' [] v ≡ ok (content d))
  unfolding De.contains
  deserialize_any-serialize d h k =
      let s = serialized d h k in
      (
        s.value,
        s.after,
        s.returns,
        λ fuel l. s.reads s.after [] fuel (λ j a b. refl) (λ j a b. refl) l,
      )
