-- ===== src/Convert/Sequence.antt =====
-- Vectors into Lua and back, src/conversion.rs, over any conversions of what they hold.
use mlua.Convert.Containers.{push_sequence, vec_into_lua, vec_from_lua, collect, array_from_lua}
use mlua.Convert.{ok, FromLua, IntoLua}
use mlua.Serde.Roundtrip.{Agree}
use mlua.Serde.Roundtrip.Fills.{raw_set-table, raw_set-others, raw_set-next, Agree-before}
use mlua.Serde.Roundtrip.Made.{create_table-table, create_table-others, create_table-next}
use mlua.Serde.Roundtrip.Steps.{All-snoc}
use mlua.Serde.Lookup.{NotNil, numbered, raw_set-numbered, sequence_values-numbered}
use mlua.Serde.{Value, table, integer, Heap, create_table, raw_set}
use mlua.Base.Integer.{pos}
use mlua.Base.{
  ℕ, ◌+◌, ◌≤◌, ◌<◌, ◌≡◌, ◌≢◌, refl, sym, ap, ◌∙◌, subst, List, [], ◌∷◌, ◌++◌, length, length-append,
  All, arith, false,
}
use mathlib.Core.List.{append_assoc, append-nil}

-- A value is converted into one that is read as it, in any heap with the tables that were made for it,
-- and the tables that were there stay as they are.
pub record Faithful {T : Type 0} (into : IntoLua T) (from : FromLua T) (x : T) (h : Heap)
    : Type 0 where
  pub value : Value
  pub after : Heap
  pub returns : into x h ≡ ok (value, after)
  pub grows : h.next ≤ after.next
  pub keeps : (k : ℕ) → k < h.next → after.tables k ≡ h.tables k
  pub reads : (H : Heap) → Agree H after h.next after.next → from H value ≡ ok x

module _ {T : Type 0} (into : IntoLua T) (from : FromLua T)
    (faithful : (x : T) (h : Heap) → Faithful into from x h)
    (not_nil : (x : T) (h : Heap) → NotNil (faithful x h).value) where
  -- The values that are pushed after some that are in the table already.
  record Pushed (xs : List T) (t : ℕ) (ws : List Value) (h : Heap) : Type 0 where
    values : List Value
    after : Heap
    returns : push_sequence into from t (length ws) xs h ≡ ok after
    grows : h.next ≤ after.next
    keeps : (k : ℕ) → k < h.next → k ≢ t → after.tables k ≡ h.tables k
    table_is : after.tables t ≡ record { entries = numbered 1 (ws ++ values); array = false }
    all_values : All NotNil (ws ++ values)
    reads : (H : Heap) → Agree H after h.next after.next → collect into from H values ≡ ok xs

  push_first :
      (t i : ℕ) (x : T) (xs : List T) (h h' : Heap) (v : Value)
      → into x h ≡ ok (v, h')
      → push_sequence into from t i (x ∷ xs) h
        ≡ push_sequence into from t (i + 1) xs (raw_set t (integer (pos (i + 1))) v h')
  unfolding push_sequence
  push_first t i x xs h h' v r = rw r refl

  push_nil : (t i : ℕ) (h : Heap) → push_sequence into from t i [] h ≡ ok h
  unfolding push_sequence
  push_nil t i h = refl

  collect_nil : (H : Heap) → collect into from H [] ≡ ok []
  unfolding collect
  collect_nil H = refl

  collect_step :
      (H : Heap) (v : Value) (vs : List Value) (x : T) (xs : List T)
      → from H v ≡ ok x
      → collect into from H vs ≡ ok xs
      → collect into from H (v ∷ vs) ≡ ok (x ∷ xs)
  unfolding collect
  collect_step H v vs x xs r rs = rw (r, rs) refl

  push_rest :
      (x : T) (xs : List T) (t : ℕ) (ws : List Value) (h : Heap) (s : Faithful into from x h)
      → t < h.next
      → Pushed xs t (ws ++ s.value ∷ []) (raw_set t (integer (pos (length ws + 1))) s.value s.after)
      → Pushed (x ∷ xs) t ws h
  push_rest x xs t ws h s l p = record {
    values = s.value ∷ p.values;
    after = p.after;
    returns =
        push_first t (length ws) x xs h s.after s.value s.returns
        ∙ ap
            (λ n.
              push_sequence into from t n xs
                (raw_set t (integer (pos (length ws + 1))) s.value s.after))
            (sym (length-append ws (s.value ∷ [])))
        ∙ p.returns;
    grows = omega (arith, s.grows, next, p.grows);
    keeps = λ k b c.
        p.keeps k (omega (arith, s.grows, next)) c ∙ raw_set-others t k _ _ s.after c ∙ s.keeps k b;
    table_is = p.table_is ∙ ap (λ y. record { entries = numbered 1 y; array = false }) assoc;
    all_values = subst (All NotNil) assoc p.all_values;
    reads = λ H ag.
        collect_step H s.value p.values x xs
          (s.reads H (
            Agree-before h.next s.after.next p.after.next t (integer (pos (length ws + 1))) s.value
              H s.after p.after (omega (arith, p.grows, next)) l ag
              (λ k b c. p.keeps k (omega (arith, next)) c)))
          (p.reads H (λ k b c. ag k (omega (arith, s.grows, next)) c));
  }
    where
      next : (raw_set t (integer (pos (length ws + 1))) s.value s.after).next ≡ s.after.next
      next = raw_set-next t (integer (pos (length ws + 1))) s.value s.after

      assoc : (ws ++ s.value ∷ []) ++ p.values ≡ ws ++ s.value ∷ p.values
      assoc = append_assoc ws (s.value ∷ []) p.values

  pushed :
      (xs : List T) (t : ℕ) (ws : List Value) (h : Heap)
      → t < h.next
      → h.tables t ≡ record { entries = numbered 1 ws; array = false }
      → All NotNil ws
      → Pushed xs t ws h
  pushed [] t ws h l e n = record {
    values = [];
    after = h;
    returns = push_nil t (length ws) h;
    grows = omega arith;
    keeps = λ k b c. refl;
    table_is = e ∙ ap (λ x. record { entries = numbered 1 x; array = false }) (sym (append-nil ws));
    all_values = subst (All NotNil) (sym (append-nil ws)) n;
    reads = λ H ag. collect_nil H;
  }
  pushed (x ∷ xs) t ws h l e n =
      let s = faithful x h in
      push_rest x xs t ws h s l (
        pushed xs t (ws ++ s.value ∷ []) (raw_set t (integer (pos (length ws + 1))) s.value s.after)
          (omega (arith, s.grows, raw_set-next t (integer (pos (length ws + 1))) s.value s.after))
          (raw_set-table t (integer (pos (length ws + 1))) s.value s.after (numbered 1 ws) _ false
            (s.keeps t l ∙ e)
            (raw_set-numbered 1 (length ws + 1) ws s.value (omega arith) (not_nil x h)))
          (All-snoc ws s.value n (not_nil x h)))

  vec_returns :
      (xs : List T) (h h' : Heap)
      → push_sequence into from h.next 0 xs (create_table false h) ≡ ok h'
      → vec_into_lua into from xs h ≡ ok (table h.next, h')
  unfolding vec_into_lua
  vec_returns xs h h' r = rw r refl

  vec_reads :
      (H : Heap) (t : ℕ) (vs : List Value) (xs : List T)
      → H.tables t ≡ record { entries = numbered 1 vs; array = false }
      → All NotNil vs
      → collect into from H vs ≡ ok xs
      → (vec_from_lua into from H (table t) ≡ ok xs)
        × (array_from_lua into from (length xs) H (table t) ≡ ok xs)
  unfolding vec_from_lua array_from_lua
  vec_reads H t vs xs e n r = (
    rw (e, sequence_values-numbered vs n) r,
    rw (e, sequence_values-numbered vs n, r) (ground arith),
  )

  -- If the values of a type come back from Lua and are never nil there, so do vectors of them: in any
  -- heap, a vector is made a table that is read as the vector, and as an array of its length, and the
  -- tables that were there stay as they are.
  pub vec-Faithful :
      (xs : List T) (h : Heap)
      → Faithful (vec_into_lua into from) (vec_from_lua into from) xs h
        × Faithful (vec_into_lua into from) (array_from_lua into from (length xs)) xs h
  vec-Faithful xs h = (
    faithfully (vec_from_lua into from)
        (λ H e c. (vec_reads H h.next p.values xs e p.all_values c).0),
    faithfully (array_from_lua into from (length xs))
        (λ H e c. (vec_reads H h.next p.values xs e p.all_values c).1),
  )
    where
      p : Pushed xs h.next [] (create_table false h)
      p =
          pushed xs h.next [] (create_table false h) (omega (arith, create_table-next false h))
            (create_table-table false h) tt

      faithfully :
          (read : FromLua (List T))
          → ((H : Heap)
              → H.tables h.next ≡ record { entries = numbered 1 p.values; array = false }
              → collect into from H p.values ≡ ok xs
              → read H (table h.next) ≡ ok xs)
          → Faithful (vec_into_lua into from) read xs h
      faithfully read k = record {
        value = table h.next;
        after = p.after;
        returns = vec_returns xs h p.after p.returns;
        grows = omega (arith, p.grows, create_table-next false h);
        keeps = λ j l.
            p.keeps j (omega (arith, create_table-next false h)) (omega arith)
            ∙ create_table-others false h j l;
        reads = λ H ag.
            k H
              (ag h.next (omega arith) (omega (arith, p.grows, create_table-next false h))
                ∙ p.table_is)
              (p.reads H (λ j x y. ag j (omega (arith, create_table-next false h)) y));
      }
