-- ===== src/Serde/Roundtrip/Steps.antt =====
-- The names that a table has and is still given, and one step of what fills it, by src/serde/ser.rs.
use Prim.Native.String.{String}
use mlua.Serde.Roundtrip.Fills.{Named, raw_set-table, raw_set-next}
use mlua.Serde.Roundtrip.{
  Filled, Serialized, PairsKeyed, NotField, NotKey, contents, IsMade-NotNil, append-nil,
}
use mlua.Serde.Lookup.{NotNil, numbered, named, Absent, raw_set-numbered, raw_set-named}
use mlua.Serde.Ser.{
  Data, Datas, Fields, Pairs, bool, i64, f64, str, byte_buf, none', some', unit, newtype_struct,
  unit_variant, newtype_variant, seq, tuple_variant, map', struct, struct_variant, no_data, cons,
  no_fields, field, no_pairs, pair, serialize, serialize_elements, serialize_pushes,
  serialize_fields, serialize_pairs,
}
use mlua.Serde.Ser
use mlua.Serde.De.{Entries, no_entries, deserialize_any}
use mlua.Serde.De
use mlua.Serde.{Value, Heap, Result, ok, raw_set, create_table, string, integer, pos}
use mlua.Serde
use mlua.Base.{
  ℕ, ◌+◌, ◌<◌, ◌≡◌, ◌≢◌, refl, sym, ap, ◌∙◌, subst, Bool, true, false, List, [], ◌∷◌, ◌++◌, length,
  All, arith,
}

abbrev pub FieldsAbsent : Fields → List (String × Value) → Type 0
FieldsAbsent no_fields es = Unit
FieldsAbsent (field k d fs) es = Absent k es × FieldsAbsent fs es

abbrev pub KeysAbsent : Pairs → List (String × Value) → Type 0
KeysAbsent no_pairs es = Unit
KeysAbsent (pair (str k) d ps) es = Absent k es × KeysAbsent ps es
KeysAbsent (pair _ d ps) es = KeysAbsent ps es

Absent-append :
    (j k : String) (v : Value) (es : List (String × Value))
    → Absent j es
    → k ≢ j
    → Absent j (es ++ (k, v) ∷ [])
Absent-append j k v [] a n = (n, tt)
Absent-append j k v ((l, x) ∷ es) a n = (a.0, Absent-append j k v es a.1 n)

pub FieldsAbsent-append :
    (fs : Fields) (k : String) (v : Value) (es : List (String × Value))
    → FieldsAbsent fs es
    → NotField k fs
    → FieldsAbsent fs (es ++ (k, v) ∷ [])
FieldsAbsent-append no_fields k v es a n = tt
FieldsAbsent-append (field j d fs) k v es a n =
    (Absent-append j k v es a.0 n.0, FieldsAbsent-append fs k v es a.1 n.1)

pub KeysAbsent-append :
    (ps : Pairs) (k : String) (v : Value) (es : List (String × Value))
    → KeysAbsent ps es
    → NotKey k ps
    → PairsKeyed ps
    → KeysAbsent ps (es ++ (k, v) ∷ [])
unfolding PairsKeyed
KeysAbsent-append no_pairs k v es a n t = tt
KeysAbsent-append (pair (str j) d ps) k v es a n t =
    (Absent-append j k v es a.0 n.0, KeysAbsent-append ps k v es a.1 n.1 t.2)
KeysAbsent-append (pair _ d ps) k v es a n t = elim t [ ]

pub FieldsAbsent-empty : (fs : Fields) → FieldsAbsent fs []
FieldsAbsent-empty no_fields = tt
FieldsAbsent-empty (field k d fs) = (tt, FieldsAbsent-empty fs)

pub KeysAbsent-empty : (ps : Pairs) → PairsKeyed ps → KeysAbsent ps []
unfolding PairsKeyed
KeysAbsent-empty no_pairs t = tt
KeysAbsent-empty (pair (str k) d ps) t = (tt, KeysAbsent-empty ps t.2)
KeysAbsent-empty (pair _ d ps) t = elim t [ ]

pub All-snoc : (ws : List Value) (v : Value) → All NotNil ws → NotNil v → All NotNil (ws ++ v ∷ [])
All-snoc [] v n m = (m, tt)
All-snoc (w ∷ ws) v n m = (n.0, All-snoc ws v n.1 m)

pub fields_step :
    (t : ℕ) (k : String) (d : Data) (fs : Fields) (h h' : Heap) (v : Value)
    → serialize Ser.new d h ≡ ok (v, h')
    → serialize_fields Ser.new t (field k d fs) h
      ≡ serialize_fields Ser.new t fs (raw_set t (string k) v h')
unfolding serialize_fields
fields_step t k d fs h h' v r = rw r refl

pub pairs_step :
    (t : ℕ) (k : String) (d : Data) (ps : Pairs) (h h' : Heap) (v : Value)
    → serialize Ser.new d h ≡ ok (v, h')
    → serialize_pairs Ser.new t (pair (str k) d ps) h
      ≡ serialize_pairs Ser.new t ps (raw_set t (string k) v h')
unfolding serialize_pairs Serde.is_nil
pairs_step t k d ps h h' v r = rw r refl

module _ (o : De.Options) (deny : o.deny_unsupported_types ≡ true) where
  pub named_nil :
      (t : ℕ) (es : List (String × Value)) (h : Heap)
      → h.tables t ≡ record { entries = named es; array = false }
      → Named o deny (ok h) no_entries 0 t es h
  unfolding De.next_entries
  named_nil t es h e = record {
    values = [];
    after = h;
    sets = refl;
    grows = omega arith;
    keeps = λ k l n. refl;
    table_is = e ∙ ap (λ x. record { entries = named x; array = false }) (sym (append-nil es));
    reads = λ H visited fuel ag fr b. refl;
  }

  pub filled_nil :
      (t : ℕ) (ws : List Value) (array : Bool) (h : Heap)
      → h.tables t ≡ record { entries = numbered 1 ws; array = array }
      → All NotNil ws
      → Filled o deny no_data t ws array h
  unfolding De.next_elements serialize contents
  filled_nil t ws array h e n = record {
    values = [];
    after = h;
    sets = refl;
    pushes = refl;
    counts = refl;
    grows = omega arith;
    keeps = λ k l m. refl;
    table_is = e ∙ ap (λ x. record { entries = numbered 1 x; array = array }) (sym (append-nil ws));
    not_nil = subst (All NotNil) (sym (append-nil ws)) n;
    reads = λ H visited fuel ag fr b. refl;
  }

  -- The heap once a value made has been set under a name, and under the next index.
  pub named_after :
      (t : ℕ) (es : List (String × Value)) (h : Heap) (d : Data) (k : String)
      (s : Serialized o deny d h)
      → t < h.next
      → h.tables t ≡ record { entries = named es; array = false }
      → Absent k es
      → ((raw_set t (string k) s.value s.after).tables t
          ≡ record { entries = named (es ++ (k, s.value) ∷ []); array = false })
        × (t < (raw_set t (string k) s.value s.after).next)
  named_after t es h d k s l e a = (
    raw_set-table t (string k) s.value s.after (named es) _ false (s.keeps t l ∙ e)
        (raw_set-named es k s.value a (IsMade-NotNil o deny h.next s.after.next s.value s.made)),
    omega (arith, s.grows, raw_set-next t (string k) s.value s.after),
  )

  pub filled_after :
      (t : ℕ) (ws : List Value) (array : Bool) (h : Heap) (d : Data) (s : Serialized o deny d h)
      → t < h.next
      → h.tables t ≡ record { entries = numbered 1 ws; array = array }
      → ((raw_set t (integer (pos (length ws + 1))) s.value s.after).tables t
          ≡ record { entries = numbered 1 (ws ++ s.value ∷ []); array = array })
        × (t < (raw_set t (integer (pos (length ws + 1))) s.value s.after).next)
  filled_after t ws array h d s l e = (
    raw_set-table t (integer (pos (length ws + 1))) s.value s.after (numbered 1 ws) _ array
        (s.keeps t l ∙ e)
        (raw_set-numbered 1 (length ws + 1) ws s.value (omega arith)
          (IsMade-NotNil o deny h.next s.after.next s.value s.made)),
    omega (arith, s.grows, raw_set-next t (integer (pos (length ws + 1))) s.value s.after),
  )
