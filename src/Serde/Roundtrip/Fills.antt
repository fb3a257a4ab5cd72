-- ===== src/Serde/Roundtrip/Fills.antt =====
-- Tables that the serializer fills one value after another, and what reads them.
use Prim.Native.String.{String}
use mlua.Serde.Roundtrip.Reads.{next_entries-named, next_elements-cons}
use mlua.Serde.Roundtrip.{
  Serialized, Filled, content, size, sizes, Agree, Fresh, IsMade-NotNil, serialize,
}
use mlua.Serde.Lookup.{NotNil, numbered, named, Absent, sequence_values-numbered}
use mlua.Serde.Ser.{Data, Datas, cons, serialize_elements, serialize_pushes}
use mlua.Serde.Ser
use mlua.Serde.De.{Entries, entry, visit_str, next_entries, deserialize_any}
use mlua.Serde.De
use mlua.Serde.{Value, Heap, Table, Result, ok, ◌>>=◌, raw_set, integer, string, raw_len}
use mlua.Serde
use mlua.Base.Integer.{pos}
use mlua.Base.{
  ℕ, zero, suc, ◌+◌, ◌≤◌, ◌<◌, ◌≡◌, ◌≢◌, refl, sym, ap, ◌∙◌, subst, Bool, true, false, List, [],
  ◌∷◌, ◌++◌, length, length-append, All, arith,
}
use mathlib.Core.List.{append_assoc}

-- A heap where one table was set: that table, the others and the next number.
pub raw_set-table :
    (t : ℕ) (key v : Value) (h : Heap) (es es' : List (Value × Value)) (array : Bool)
    → h.tables t ≡ record { entries = es; array = array }
    → Serde.raw_set_entries es key v ≡ es'
    → (raw_set t key v h).tables t ≡ record { entries = es'; array = array }
unfolding Serde.raw_set Serde.set_table
raw_set-table t key v h es es' array e r = rw (e, r) (ground arith)

pub raw_set-others :
    (t k : ℕ) (key v : Value) (h : Heap) → k ≢ t → (raw_set t key v h).tables k ≡ h.tables k
unfolding Serde.raw_set Serde.set_table
raw_set-others t k key v h n = ground (arith, n)

pub raw_set-next : (t : ℕ) (key v : Value) (h : Heap) → (raw_set t key v h).next ≡ h.next
unfolding Serde.raw_set Serde.set_table
raw_set-next t key v h = refl

-- What is read of the tables that one value made, once a table before them was filled further.
pub Agree-before :
    (lo mid hi t : ℕ) (key v : Value) (H X Y : Heap)
    → mid ≤ hi
    → t < lo
    → Agree H Y lo hi
    → ((k : ℕ) → k < mid → k ≢ t → Y.tables k ≡ (raw_set t key v X).tables k)
    → Agree H X lo mid
Agree-before lo mid hi t key v H X Y m l ag keeps k a b =
    ag k a (omega arith) ∙ keeps k b (omega arith) ∙ raw_set-others t k key v X (omega arith)

-- One element, pushed or set by its index.
elements_step :
    (t i : ℕ) (d : Data) (ds : Datas) (h h' : Heap) (v : Value)
    → serialize Ser.new d h ≡ ok (v, h')
    → serialize_elements Ser.new t i (cons d ds) h
      ≡ serialize_elements Ser.new t (i + 1) ds (raw_set t (integer (pos (i + 1))) v h')
unfolding serialize_elements
elements_step t i d ds h h' v r = rw r refl

pushes_step :
    (t : ℕ) (d : Data) (ds : Datas) (h h' : Heap) (v : Value)
    → serialize Ser.new d h ≡ ok (v, h')
    → serialize_pushes Ser.new t (cons d ds) h
      ≡ serialize_pushes Ser.new t ds
          (raw_set t (integer (pos (raw_len (h'.tables t).entries + 1))) v h')
unfolding serialize_pushes
pushes_step t d ds h h' v r = rw r refl

sizes_cons : (d : Data) (ds : Datas) → sizes (cons d ds) ≡ size d + sizes ds
unfolding sizes
sizes_cons d ds = refl

raw_len-numbered :
    (t : ℕ) (ws : List Value) (array : Bool) (h : Heap)
    → h.tables t ≡ record { entries = numbered 1 ws; array = array }
    → All NotNil ws
    → raw_len (h.tables t).entries ≡ length ws
unfolding raw_len
raw_len-numbered t ws array h e n = rw (e, sequence_values-numbered ws n) refl

module _ (o : De.Options) (deny : o.deny_unsupported_types ≡ true) where
  -- The entries of a table, after some that are in it already: what fills it, and what is read of it.
  pub record Named (run : Result Heap) (shape : Entries) (bound t : ℕ) (es : List (String × Value))
      (h : Heap) : Type 0 where
    pub values : List (String × Value)
    pub after : Heap
    pub sets : run ≡ ok after
    pub grows : h.next ≤ after.next
    pub keeps : (k : ℕ) → k < h.next → k ≢ t → after.tables k ≡ h.tables k
    pub table_is : after.tables t ≡ record { entries = named (es ++ values); array = false }
    pub reads :
        (H : Heap) (visited : List ℕ) (fuel : ℕ)
        → Agree H after h.next after.next
        → Fresh visited h.next after.next
        → bound < fuel
        → next_entries o visited (deserialize_any fuel o H visited) (named values) ≡ ok shape

  pub named_step :
      (result run : Result Heap) (shape : Entries) (bound t : ℕ) (es : List (String × Value))
      (h : Heap) (d : Data) (k : String) (s : Serialized o deny d h)
      → t < h.next
      → h.tables t ≡ record { entries = named es; array = false }
      → Absent k es
      → result ≡ run
      → Named run shape bound t (es ++ (k, s.value) ∷ []) (raw_set t (string k) s.value s.after)
      → Named result (entry (visit_str k) (content d) shape) (1 + size d + bound) t es h
  named_step result run shape bound t es h d k s l e a r n = record {
    values = (k, s.value) ∷ n.values;
    after = n.after;
    sets = r ∙ n.sets;
    grows = omega (arith, s.grows, next, n.grows);
    keeps = λ j b c.
        n.keeps j (omega (arith, s.grows, next)) c ∙ raw_set-others t j _ _ s.after c ∙ s.keeps j b;
    table_is =
        n.table_is
        ∙ ap (λ x. record { entries = named x; array = false })
            (append_assoc es ((k, s.value) ∷ []) n.values);
    reads = reads;
  }
    where
      next : (raw_set t (string k) s.value s.after).next ≡ s.after.next
      next = raw_set-next t (string k) s.value s.after

      reads :
          (H : Heap) (visited : List ℕ) (fuel : ℕ)
          → Agree H n.after h.next n.after.next
          → Fresh visited h.next n.after.next
          → 1 + size d + bound < fuel
          → next_entries o visited
              (deserialize_any fuel o H visited)
              ((string k, s.value) ∷ named n.values)
            ≡ ok (entry (visit_str k) (content d) shape)
      reads H visited zero ag fr b = absurd (omega arith)
      reads H visited (suc fuel) ag fr b =
          next_entries-named o deny fuel h.next s.after.next H visited k s.value (content d)
            (named n.values) shape s.made (λ j x y. fr j x (omega (arith, n.grows, next)))
            (s.reads H visited (suc fuel)
              (Agree-before h.next s.after.next n.after.next t (string k) s.value H s.after n.after
                (omega (arith, n.grows, next)) l ag (λ j x y. n.keeps j (omega (arith, next)) y))
              (λ j x y. fr j x (omega (arith, n.grows, next))) (omega arith))
            (n.reads H visited (suc fuel) (λ j x y. ag j (omega (arith, s.grows, next)) y)
              (λ j x y. fr j (omega (arith, s.grows, next)) y) (omega arith))

  pub filled_step :
      (ds : Datas) (t : ℕ) (ws : List Value) (array : Bool) (h : Heap) (d : Data)
      (s : Serialized o deny d h)
      → t < h.next
      → h.tables t ≡ record { entries = numbered 1 ws; array = array }
      → All NotNil ws
      → Filled o deny ds t
          (ws ++ s.value ∷ [])
          array
          (raw_set t (integer (pos (length ws + 1))) s.value s.after)
      → Filled o deny (cons d ds) t ws array h
  unfolding Serde.Roundtrip.contents
  filled_step ds t ws array h d s l e nn n = record {
    values = s.value ∷ n.values;
    after = n.after;
    sets =
        elements_step t (length ws) d ds h s.after s.value s.returns
        ∙ ap
            (λ x.
              serialize_elements Ser.new t x ds
                (raw_set t (integer (pos (length ws + 1))) s.value s.after))
            (sym (length-append ws (s.value ∷ [])))
        ∙ n.sets;
    pushes =
        pushes_step t d ds h s.after s.value s.returns
        ∙ ap
            (λ x. serialize_pushes Ser.new t ds (raw_set t (integer (pos (x + 1))) s.value s.after))
            (raw_len-numbered t ws array s.after (s.keeps t l ∙ e) nn)
        ∙ n.pushes;
    counts = ap suc n.counts;
    grows = omega (arith, s.grows, next, n.grows);
    keeps = λ j b c.
        n.keeps j (omega (arith, s.grows, next)) c ∙ raw_set-others t j _ _ s.after c ∙ s.keeps j b;
    table_is = n.table_is ∙ ap (λ x. record { entries = numbered 1 x; array = array }) assoc;
    not_nil = subst (All NotNil) assoc n.not_nil;
    reads = λ H visited fuel ag fr b.
        next_elements-cons o deny fuel h.next s.after.next H visited s.value (content d) n.values _
          s.made (λ j x y. fr j x (omega (arith, n.grows, next)))
          (s.reads H visited fuel
            (Agree-before h.next s.after.next n.after.next t (integer (pos (length ws + 1))) s.value
              H s.after n.after (omega (arith, n.grows, next)) l ag
              (λ j x y. n.keeps j (omega (arith, next)) y))
            (λ j x y. fr j x (omega (arith, n.grows, next))) (omega (arith, sizes_cons d ds)))
          (n.reads H visited fuel (λ j x y. ag j (omega (arith, s.grows, next)) y)
            (λ j x y. fr j (omega (arith, s.grows, next)) y) (omega (arith, sizes_cons d ds)));
  }
    where
      assoc : (ws ++ s.value ∷ []) ++ n.values ≡ ws ++ s.value ∷ n.values
      assoc = append_assoc ws (s.value ∷ []) n.values

      next : (raw_set t (integer (pos (length ws + 1))) s.value s.after).next ≡ s.after.next
      next = raw_set-next t (integer (pos (length ws + 1))) s.value s.after
