-- ===== src/Serde/Roundtrip/Reads.antt =====
-- Reading the tables that the serializer makes, by src/serde/de.rs.
use Prim.Native.String.{String}
use mlua.Serde.Roundtrip.{IsMade, Fresh, not_skipped}
use mlua.Serde.Lookup.{NotNil, numbered, named, sequence_values-numbered, raw_len-named}
use mlua.Serde.De.{
  Content, Contents, Entries, contains, visit_seq, visit_map, visit_str, entry, no_entries, element,
  deserialize_any, next_elements, next_entries,
}
use mlua.Serde.De
use mlua.Serde.{Value, table, string, Heap, Table, ok, Result, ◌>>=◌}
use mlua.Serde
use mlua.Base.{
  ltb, ◌||◌, ℕ, suc, ◌≤◌, ◌<◌, ◌≡◌, refl, List, ◌∷◌, length, All, Bool, true, false, arith,
}

pub Fresh-visit :
    (visited : List ℕ) (lo hi t : ℕ) → Fresh visited lo hi → t < lo → Fresh (t ∷ visited) lo hi
unfolding contains
Fresh-visit visited lo hi t f l k a b = ground (arith, f k a b)

pub Fresh-visit_after :
    (visited : List ℕ) (lo hi t : ℕ) → Fresh visited lo hi → hi ≤ t → Fresh (t ∷ visited) lo hi
unfolding contains
Fresh-visit_after visited lo hi t f l k a b = ground (arith, f k a b)

module _ (o : De.Options) (deny : o.deny_unsupported_types ≡ true) where
  pub read_numbered :
      (fuel : ℕ) (h : Heap) (visited : List ℕ) (t : ℕ) (vs : List Value) (array : Bool)
      (cs : Contents)
      → h.tables t ≡ record { entries = numbered 1 vs; array = array }
      → All NotNil vs
      → (ltb 0 (length vs) || array) ≡ true
      → next_elements o (t ∷ visited) (deserialize_any fuel o h (t ∷ visited)) vs ≡ ok cs
      → deserialize_any (suc fuel) o h visited (table t) ≡ ok (visit_seq cs)
  unfolding deserialize_any Serde.raw_len
  read_numbered fuel h visited t vs array cs e n s r =
      rw (e, sequence_values-numbered vs n, s, r) refl

  pub read_named :
      (fuel : ℕ) (h : Heap) (visited : List ℕ) (t : ℕ) (es : List (String × Value)) (c : Entries)
      → h.tables t ≡ record { entries = named es; array = false }
      → next_entries o (t ∷ visited) (deserialize_any fuel o h (t ∷ visited)) (named es) ≡ ok c
      → deserialize_any (suc fuel) o h visited (table t) ≡ ok (visit_map c)
  unfolding deserialize_any
  read_named fuel h visited t es c e r = rw (e, raw_len-named es, r) refl

  deserialize_text :
      (fuel : ℕ) (h : Heap) (visited : List ℕ) (s : String)
      → deserialize_any (suc fuel) o h visited (string s) ≡ ok (visit_str s)
  unfolding deserialize_any
  deserialize_text fuel h visited s = refl

  -- The first entry is read, under a text.
  pub next_entries-named :
      (fuel lo hi : ℕ) (h : Heap) (visited : List ℕ) (s : String) (v : Value) (c : Content)
      (es : List (Value × Value)) (cs : Entries)
      → IsMade lo hi v
      → Fresh visited lo hi
      → deserialize_any (suc fuel) o h visited v ≡ ok c
      → next_entries o visited (deserialize_any (suc fuel) o h visited) es ≡ ok cs
      → next_entries o visited (deserialize_any (suc fuel) o h visited) ((string s, v) ∷ es)
        ≡ ok (entry (visit_str s) c cs)
  unfolding next_entries De.check_value_for_skip
  next_entries-named fuel lo hi h visited s v c es cs m f r rs =
      rw (not_skipped o deny lo hi visited v m f, deserialize_text fuel h visited s, r, rs) refl

  pub next_elements-cons :
      (fuel lo hi : ℕ) (h : Heap) (visited : List ℕ) (v : Value) (c : Content) (vs : List Value)
      (cs : Contents)
      → IsMade lo hi v
      → Fresh visited lo hi
      → deserialize_any fuel o h visited v ≡ ok c
      → next_elements o visited (deserialize_any fuel o h visited) vs ≡ ok cs
      → next_elements o visited (deserialize_any fuel o h visited) (v ∷ vs) ≡ ok (element c cs)
  unfolding next_elements
  next_elements-cons fuel lo hi h visited v c vs cs m f r rs =
      rw (not_skipped o deny lo hi visited v m f, r, rs) refl
