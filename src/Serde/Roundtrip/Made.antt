-- ===== src/Serde/Roundtrip/Made.antt =====
-- The values that the serializer makes: plain ones, tables and variants, and what reads them.
use Prim.Native.String.{String}
use mlua.Serde.Roundtrip.Fills.{Named, raw_set-table, raw_set-others, raw_set-next}
use mlua.Serde.Roundtrip.Reads.{
  read_numbered, read_named, next_entries-named, Fresh-visit, Fresh-visit_after,
}
use mlua.Serde.Roundtrip.{Produced, Filled, Agree, Fresh, count, sizes, contents, IsMade}
use mlua.Serde.Lookup.{named}
use mlua.Serde.Ser.{Datas, wrap}
use mlua.Serde.De.{
  Content, Contents, Entries, entry, no_entries, visit_str, visit_map, visit_seq, deserialize_any,
  next_entries,
}
use mlua.Serde.De
use mlua.Serde.{Value, Heap, Result, ok, create_table, table, string}
use mlua.Base.{
  ltb, ◌||◌, ℕ, zero, suc, ◌+◌, ◌<◌, ◌≡◌, refl, sym, ◌∙◌, Bool, true, false, List, [], ◌∷◌, arith,
  subst, ap,
}

pub create_table-table :
    (array : Bool) (h : Heap)
    → (create_table array h).tables h.next ≡ record { entries = []; array = array }
unfolding create_table
create_table-table array h = ground arith

pub create_table-others :
    (array : Bool) (h : Heap) (k : ℕ) → k < h.next → (create_table array h).tables k ≡ h.tables k
unfolding create_table
create_table-others array h k l = ground arith

pub create_table-next : (array : Bool) (h : Heap) → (create_table array h).next ≡ suc h.next
unfolding create_table
create_table-next array h = refl

module _ (o : De.Options) (deny : o.deny_unsupported_types ≡ true) where
  -- A value that is no table of the heap.
  pub plain :
      (v : Value) (c : Content) (bound : ℕ) (h : Heap)
      → IsMade h.next h.next v
      → ((H : Heap) (visited : List ℕ) (fuel : ℕ) → deserialize_any (suc fuel) o H visited v ≡ ok c)
      → Produced o deny (ok (v, h)) c bound h
  plain v c bound h m r = record {
    value = v;
    after = h;
    returns = refl;
    grows = omega arith;
    keeps = λ k l. refl;
    made = m;
    reads = reads;
  }
    where
      reads :
          (H : Heap) (visited : List ℕ) (fuel : ℕ)
          → Agree H h h.next h.next
          → Fresh visited h.next h.next
          → bound < fuel
          → deserialize_any fuel o H visited v ≡ ok c
      reads H visited zero ag fr b = absurd (omega arith)
      reads H visited (suc fuel) ag fr b = r H visited fuel

  -- A new table that is filled with entries under texts.
  pub filled_fields :
      (run : Result Heap) (shape : Entries) (bound : ℕ) (h : Heap) (result : Result (Value × Heap))
      → (n : Named o deny run shape bound h.next [] (create_table false h))
      → result ≡ ok (table h.next, n.after)
      → Produced o deny result (visit_map shape) (1 + bound) h
  filled_fields run shape bound h result n r = record {
    value = table h.next;
    after = n.after;
    returns = r;
    grows = omega (arith, n.grows, next);
    keeps = λ k l. n.keeps k (omega (arith, next)) (omega arith) ∙ create_table-others false h k l;
    made = (omega arith, omega (arith, n.grows, next));
    reads = reads;
  }
    where
      next : (create_table false h).next ≡ suc h.next
      next = create_table-next false h

      reads :
          (H : Heap) (visited : List ℕ) (fuel : ℕ)
          → Agree H n.after h.next n.after.next
          → Fresh visited h.next n.after.next
          → 1 + bound < fuel
          → deserialize_any fuel o H visited (table h.next) ≡ ok (visit_map shape)
      reads H visited zero ag fr b = absurd (omega arith)
      reads H visited (suc fuel) ag fr b =
          read_named o deny fuel H visited h.next n.values shape
            (ag h.next (omega arith) (omega (arith, n.grows, next)) ∙ n.table_is)
            (n.reads H (h.next ∷ visited) fuel (λ k x y. ag k (omega (arith, next)) y)
              (Fresh-visit visited _ n.after.next h.next (λ k x y. fr k (omega (arith, next)) y)
                (omega (arith, next)))
              (omega arith))

  -- A new table that is filled with elements.
  pub filled_elements :
      (ds : Datas) (array : Bool) (h : Heap) (result : Result (Value × Heap))
      → (n : Filled o deny ds h.next [] array (create_table array h))
      → result ≡ ok (table h.next, n.after)
      → (ltb 0 (count ds) || array) ≡ true
      → Produced o deny result (visit_seq (contents ds)) (1 + sizes ds) h
  filled_elements ds array h result n r nonempty = record {
    value = table h.next;
    after = n.after;
    returns = r;
    grows = omega (arith, n.grows, next);
    keeps = λ k l. n.keeps k (omega (arith, next)) (omega arith) ∙ create_table-others array h k l;
    made = (omega arith, omega (arith, n.grows, next));
    reads = reads;
  }
    where
      next : (create_table array h).next ≡ suc h.next
      next = create_table-next array h

      reads :
          (H : Heap) (visited : List ℕ) (fuel : ℕ)
          → Agree H n.after h.next n.after.next
          → Fresh visited h.next n.after.next
          → 1 + sizes ds < fuel
          → deserialize_any fuel o H visited (table h.next) ≡ ok (visit_seq (contents ds))
      reads H visited zero ag fr b = absurd (omega arith)
      reads H visited (suc fuel) ag fr b =
          read_numbered o deny fuel H visited h.next n.values array (contents ds)
            (ag h.next (omega arith) (omega (arith, n.grows, next)) ∙ n.table_is) n.not_nil
            (rw n.counts nonempty)
            (n.reads H (h.next ∷ visited) fuel (λ k x y. ag k (omega (arith, next)) y)
              (Fresh-visit visited _ n.after.next h.next (λ k x y. fr k (omega (arith, next)) y)
                (omega (arith, next)))
              (omega arith))

  nothing_left :
      (fuel : ℕ) (h : Heap) (visited : List ℕ)
      → next_entries o visited (deserialize_any fuel o h visited) [] ≡ ok no_entries
  unfolding next_entries
  nothing_left fuel h visited = refl

  -- A variant: a new table with a table under the variant's name.
  pub wrapped :
      (c : Content) (bound : ℕ) (h h' : Heap) (variant : String) (t : ℕ)
      (result : Result (Value × Heap))
      → (p : Produced o deny (ok (table t, h')) c bound h) → result ≡ ok (wrap variant t h')
      → Produced o deny result (visit_map (entry (visit_str variant) c no_entries)) (1 + bound) h
  unfolding wrap
  wrapped c bound h h' variant t result p r = record {
    value = table p.after.next;
    after = (wrap variant t p.after).1;
    returns = r ∙ ap (λ x. ok (wrap variant t x)) (sym after_is);
    grows = omega (arith, p.grows, next);
    keeps = λ k l. others k (omega (arith, p.grows)) ∙ p.keeps k l;
    made = (omega (arith, p.grows), omega (arith, next));
    reads = reads;
  }
    where
      is : p.value ≡ table t
      is = cc p.returns

      after_is : p.after ≡ h'
      after_is = cc p.returns

      next : (wrap variant t p.after).1.next ≡ suc p.after.next
      next =
          raw_set-next p.after.next (string variant) (table t) (create_table false p.after)
          ∙ create_table-next false p.after

      others : (k : ℕ) → k < p.after.next → (wrap variant t p.after).1.tables k ≡ p.after.tables k
      others k l =
          raw_set-others p.after.next k (string variant) (table t) (create_table false p.after)
            (omega arith)
          ∙ create_table-others false p.after k l

      new :
          (wrap variant t p.after).1.tables p.after.next
          ≡ record { entries = named ((variant, table t) ∷ []); array = false }
      new =
          raw_set-table p.after.next (string variant) (table t) (create_table false p.after) [] _
            false (create_table-table false p.after) refl

      reads :
          (H : Heap) (visited : List ℕ) (fuel : ℕ)
          → Agree H ((wrap variant t p.after).1) h.next (wrap variant t p.after).1.next
          → Fresh visited h.next (wrap variant t p.after).1.next
          → 1 + bound < fuel
          → deserialize_any fuel o H visited (table p.after.next)
            ≡ ok (visit_map (entry (visit_str variant) c no_entries))
      reads H visited zero ag fr b = absurd (omega arith)
      reads H visited (suc zero) ag fr b = absurd (omega arith)
      reads H visited (suc (suc fuel)) ag fr b =
          read_named o deny (suc fuel) H visited p.after.next ((variant, table t) ∷ [])
            (entry (visit_str variant) c no_entries)
            (ag p.after.next p.grows (omega (arith, next)) ∙ new)
            (next_entries-named o deny fuel h.next p.after.next H (p.after.next ∷ visited) variant
              (table t) c [] no_entries (subst (IsMade h.next p.after.next) is p.made) fresh
              (subst (λ v. deserialize_any (suc fuel) o H (p.after.next ∷ visited) v ≡ ok c) is
                (p.reads H (p.after.next ∷ visited) (suc fuel)
                  (λ k x y. ag k x (omega (arith, next)) ∙ others k y) fresh (omega arith)))
              (nothing_left (suc fuel) H (p.after.next ∷ visited)))
        where
          fresh : Fresh (p.after.next ∷ visited) h.next p.after.next
          fresh =
              Fresh-visit_after visited h.next p.after.next p.after.next
                (λ k x y. fr k x (omega (arith, next))) (omega arith)
