-- ===== src/Convert/Sets.antt =====
-- Sets as tables from values to `true`, and back, by src/conversion.rs.
use mlua.Convert.Containers.{push_set, set_into_lua, set_from_lua, collect, collect_keys}
use mlua.Convert.{Error, ok, err, FromLua, IntoLua}
use mlua.Serde.Roundtrip.Fills.{raw_set-table}
use mlua.Serde.Roundtrip.Made.{create_table-table}
use mlua.Serde.Lookup.{NotNil}
use mlua.Serde.{
  Value, nil, boolean, table, integer, Heap, create_table, raw_set, raw_equal, raw_set_entries,
  raw_get, sequence_values, raw_len, values_from,
}
use mlua.Base.Integer.{pos}
use mlua.Base.{
  ℕ, ◌≡◌, refl, sym, ap, ◌∙◌, List, [], ◌∷◌, ◌++◌, length, All, arith, true, false, Bool-cases, inl,
  inr, ◌⊎◌,
}
use mathlib.Core.List.{append_assoc, append-nil}

-- A type whose values are converted without a new table: `key` is the value in Lua.
module _ {T : Type 0} (key : T → Value) (key-NotNil : (x : T) → NotNil (key x)) where
  abbrev pub into_key : IntoLua T
  into_key x h = ok (key x, h)

  abbrev marked : List T → List (Value × Value)
  marked [] = []
  marked (x ∷ xs) = (key x, boolean true) ∷ marked xs

  abbrev pub Unlike : Value → List T → Type 0
  Unlike k xs = All (λ x. raw_equal (key x) k ≡ false) xs

  -- Each value of a list is another key than those before it.
  abbrev pub Apart : List T → List T → Type 0
  Apart ws [] = Unit
  Apart ws (x ∷ xs) = Unlike (key x) ws × Apart (ws ++ x ∷ []) xs

  raw_set-marked :
      (ws : List T) (x : T)
      → Unlike (key x) ws
      → raw_set_entries (marked ws) (key x) (boolean true) ≡ marked (ws ++ x ∷ [])
  unfolding raw_set_entries
  raw_set-marked [] x u = refl
  raw_set-marked (w ∷ ws) x u =
      rw u.0 (ap (λ es. (key w, boolean true) ∷ es) (raw_set-marked ws x u.1))

  push_step :
      (from : FromLua T) (t : ℕ) (x : T) (xs : List T) (h : Heap)
      → push_set into_key from t (x ∷ xs) h
        ≡ push_set into_key from t xs (raw_set t (key x) (boolean true) h)
  unfolding push_set
  push_step from t x xs h = rw (key-NotNil x) refl

  push_nil : (from : FromLua T) (t : ℕ) (h : Heap) → push_set into_key from t [] h ≡ ok h
  unfolding push_set
  push_nil from t h = refl

  push_set-marked :
      (from : FromLua T) (t : ℕ) (ws xs : List T) (h : Heap)
      → h.tables t ≡ record { entries = marked ws; array = false }
      → Apart ws xs
      → (h' : Heap) × (push_set into_key from t xs h ≡ ok h')
        × (h'.tables t ≡ record { entries = marked (ws ++ xs); array = false })
  push_set-marked from t ws [] h e a = (
    h,
    push_nil from t h,
    e ∙ ap (λ x. record { entries = marked x; array = false }) (sym (append-nil ws)),
  )
  push_set-marked from t ws (x ∷ xs) h e a =
      let (h', r, e') =
        push_set-marked from t (ws ++ x ∷ []) xs (raw_set t (key x) (boolean true) h)
          (raw_set-table t (key x) (boolean true) h (marked ws) _ false e (raw_set-marked ws x a.0))
          a.1 in
      (
        h',
        push_step from t x xs h ∙ r,
        e' ∙ ap (λ y. record { entries = marked y; array = false }) (append_assoc ws (x ∷ []) xs),
      )

  set_into_lua-marked :
      (from : FromLua T) (xs : List T) (h : Heap)
      → Apart [] xs
      → (h' : Heap) × (set_into_lua into_key from xs h ≡ ok (table h.next, h'))
        × (h'.tables h.next ≡ record { entries = marked xs; array = false })
  unfolding set_into_lua
  set_into_lua-marked from xs h a =
      let (h', r, e) =
        push_set-marked from h.next [] xs (create_table false h) (create_table-table false h) a in
      (h', rw r refl, e)

  raw_get-Unlike : (k : Value) (xs : List T) → Unlike k xs → raw_get (marked xs) k ≡ nil
  unfolding raw_get
  raw_get-Unlike k [] u = refl
  raw_get-Unlike k (x ∷ xs) u = rw u.0 (raw_get-Unlike k xs u.1)

  -- Some value of a list has a key.
  abbrev pub HasKey : Value → List T → Type 0
  HasKey k [] = ⊥
  HasKey k (x ∷ xs) = (raw_equal (key x) k ≡ true) ⊎ HasKey k xs

  raw_get-HasKey : (k : Value) (xs : List T) → HasKey k xs → raw_get (marked xs) k ≡ boolean true
  unfolding raw_get
  raw_get-HasKey k [] m = elim m [ ]
  raw_get-HasKey k (x ∷ xs) m = elim (Bool-cases (raw_equal (key x) k)) [
    | inl e ↦ rw e refl
    | inr e ↦ rw e (raw_get-HasKey k xs (elim m [ inl e' ↦ absurd cc | inr m' ↦ m' ]))
  ]

  sequence_values-Unlike :
      (xs : List T) → Unlike (integer (pos 1)) xs → sequence_values (marked xs) ≡ []
  unfolding sequence_values
  sequence_values-Unlike [] u = refl
  sequence_values-Unlike (x ∷ xs) u = rw (raw_get-Unlike (integer (pos 1)) (x ∷ xs) u) refl

  sequence_values-HasKey :
      (xs : List T)
      → HasKey (integer (pos 1)) xs
      → (vs : List Value) × (sequence_values (marked xs) ≡ boolean true ∷ vs)
  unfolding sequence_values
  sequence_values-HasKey [] m = elim m [ ]
  sequence_values-HasKey (x ∷ xs) m = (
    values_from (length (marked xs)) (marked (x ∷ xs)) 2,
    rw (raw_get-HasKey (integer (pos 1)) (x ∷ xs) m) refl,
  )

  collect_keys-marked :
      (from : FromLua T) (h : Heap) (xs : List T)
      → ((x : T) → from h (key x) ≡ ok x)
      → collect_keys into_key from h (marked xs) ≡ ok xs
  unfolding collect_keys
  collect_keys-marked from h [] r = refl
  collect_keys-marked from h (x ∷ xs) r = rw (r x, collect_keys-marked from h xs r) refl

  -- A set of values that have a key of their own each, none of them the integer 1, and that come back from
  -- their keys, is made a table that is read as the set.
  pub set_from_lua-set_into_lua :
      (from : FromLua T) (xs : List T) (h : Heap)
      → Apart [] xs
      → Unlike (integer (pos 1)) xs
      → ((x : T) (h' : Heap) → from h' (key x) ≡ ok x)
      → (v : Value) × (h' : Heap) × (set_into_lua into_key from xs h ≡ ok (v, h'))
        × (set_from_lua into_key from h' v ≡ ok xs)
  unfolding set_from_lua raw_len
  set_from_lua-set_into_lua from xs h a u r =
      let (h', s, e) = set_into_lua-marked from xs h a in
      (
        table h.next,
        h',
        s,
        rw (e, sequence_values-Unlike xs u) (collect_keys-marked from h' xs (λ x. r x h')),
      )

  -- A set of values that have a key of their own each, one of them the integer 1, is made a table that
  -- is taken for a sequence: where `true` is no value of the type, reading it fails as reading `true`
  -- does.
  pub set_from_lua-one :
      (from : FromLua T) (xs : List T) (h : Heap) (e : Error)
      → Apart [] xs
      → HasKey (integer (pos 1)) xs
      → ((h' : Heap) → from h' (boolean true) ≡ err e)
      → (v : Value) × (h' : Heap) × (set_into_lua into_key from xs h ≡ ok (v, h'))
        × (set_from_lua into_key from h' v ≡ err e)
  unfolding set_from_lua raw_len collect
  set_from_lua-one from xs h e a m r =
      let (h', s, e') = set_into_lua-marked from xs h a in
      let (vs, q) = sequence_values-HasKey xs m in
      (table h.next, h', s, rw (e', q, r h') (ground arith))
