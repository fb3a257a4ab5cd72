-- ===== src/Serde/Tests.antt =====
-- Data and tables that the theorems of the serializer are applied to.
use mlua.Serde.Serializable.{serialize_value}
use mlua.Serde.Termination.{deserialize_any_total, Closed, Enters, unvisited}
use mlua.Serde.Roundtrip.Whole.{deserialize_any-serialize}
use mlua.Serde.Roundtrip.Variants.{deserialize_enum-serialize}
use mlua.Serde.Roundtrip.{IsKeyed, content, size}
use mlua.Serde.Ser.{
  Data, str, bool, none', i64, seq, cons, no_data, map', pair, no_pairs, newtype_variant, serialize,
}
use mlua.Serde.Ser
use mlua.Serde.De.{
  contains, deserialize_any, deserialize_enum, unit_variant, newtype_variant_seed, visit_seq,
  element, visit_unit, visit_str, no_contents,
}
use mlua.Serde.De
use mlua.Serde.{Value, Heap, ok, err, table, string, out_of_fuel, invalid_type, integer}
use mlua.Base.Integer.{pos}
use mathlib.Core.Bool.{false≢true}
use text.Mathlib.Text.{◌==◌ as str_eq}
use mlua.Base.{
  ap, ℕ, ◌<◌, ◌≡◌, ◌≢◌, refl, true, false, [], ◌∷◌, some, if◌then◌else◌, ◌==◌, arith, none,
}

-- Two tables that hold each other.
abbrev cyclic : Heap
cyclic = record {
  tables = λ k. record {
    entries = (string "other", table (if k == 0 then 1 else 0)) ∷ [];
    array = false;
  };
  next = 2;
}

cyclic-Closed : Closed 2 cyclic
cyclic-Closed t = ((tt, below t), tt)
  where
    below : (t : ℕ) → (if t == 0 then 1 else 0) < 2
    below t = ground arith

start : Enters 2 [] (table 0)
unfolding contains
start = (omega arith, refl)

unvisited_two : unvisited 2 [] < 3
unfolding contains
unvisited_two = omega arith

deserialize_any_total_example : deserialize_any 3 De.new cyclic [] (table 0) ≢ out_of_fuel
deserialize_any_total_example =
    deserialize_any_total 3 2 De.new cyclic [] (table 0) cyclic-Closed start (unvisited_two)

abbrev empty : Heap
empty = record { tables = λ k. record { entries = []; array = false }; next = 0 }

abbrev document : Data
document = map' (
    pair (str "names") (seq (cons (str "a") (cons none' no_data)))
      (pair (str "size") (newtype_variant "Exact" (i64 (pos 3))) no_pairs))

new_denies : De.new.deny_unsupported_types ≡ true
unfolding De.new
new_denies = refl

document-IsKeyed : IsKeyed document
unfolding IsKeyed
document-IsKeyed =
    (((λ p. false≢true (ap (λ k. str_eq k "size") p)), tt), (tt, (tt, tt)), (tt, tt, tt))

deserialize_any-serialize_example :
    (v : Value) × (h' : Heap) × (serialize Ser.new document empty ≡ ok (v, h'))
    × ((fuel : ℕ)
        → size document < fuel
        → deserialize_any fuel De.new h' [] v ≡ ok (content document))
deserialize_any-serialize_example =
    deserialize_any-serialize De.new new_denies document empty document-IsKeyed

deserialize_enum-serialize_example :
    (t : ℕ) × (v : Value) × (h' : Heap) × (serialize Ser.new
        (newtype_variant "Names" document)
        empty
      ≡ ok (table t, h'))
    × (deserialize_enum (λ v. none) De.new h' [] (table t) ≡ ok ("Names", some v))
    × (unit_variant (some v) ≡ err invalid_type)
    × ((fuel : ℕ)
        → size document < fuel
        → newtype_variant_seed fuel De.new h' (t ∷ []) (some v) ≡ ok (content document))
deserialize_enum-serialize_example =
    deserialize_enum-serialize (λ v. none) De.new new_denies "Names" document empty document-IsKeyed

-- Where Lua counts past a hole, as it does for a constructor, the values behind it are serialized.
abbrev with_hole : Heap
with_hole = record {
  tables = λ k. record { entries = (integer (pos 2), string "value") ∷ []; array = false };
  next = 1;
}

hole_serialized :
    serialize_value (λ es. 2) 2 De.new with_hole [] (table 0)
    ≡ ok (visit_seq (element visit_unit (element (visit_str "value") no_contents)))
unfolding serialize_value
hole_serialized = refl
