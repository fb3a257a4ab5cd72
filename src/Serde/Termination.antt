-- ===== src/Serde/Termination.antt =====
-- Deserialization of tables that may hold one another, in src/serde/de.rs.
use mlua.Base.{
  ℕ, zero, suc, ◌+◌, ◌≤◌, ◌<◌, ◌≡◌, ◌≢◌, refl, Bool, true, false, List, [], ◌∷◌, if◌then◌else◌,
  arith, All, ◌⊎◌, inl, inr, Bool-cases, ltb, ◌||◌,
}
use mlua.Serde.{
  Value, table, Heap, ok, err, out_of_fuel, ◌>>=◌, Result, values_from, raw_get, sequence_values,
  raw_len,
}
use mlua.Serde
use mlua.Serde.De.{
  Options, contains, check_value_for_skip, deserialize_any, next_elements, next_entries, Content,
}

-- A value that is no table, or one below a bound that has not been visited.
abbrev pub Enters : ℕ → List ℕ → Value → Type 0
Enters n visited (table t) = (t < n) × (contains visited t ≡ false)
Enters n visited _ = Unit

abbrev pub Below : ℕ → Value → Type 0
Below n (table t) = t < n
Below n _ = Unit

-- Every table that stands in a table is below the bound.
abbrev pub Closed : ℕ → Heap → Type 0
Closed n h = (t : ℕ) → All (λ e. Below n (e.0) × Below n (e.1)) (h.tables t).entries

-- How many tables below a bound have not been visited.
abbrev pub unvisited : ℕ → List ℕ → ℕ
unvisited zero visited = 0
unvisited (suc n) visited = (if contains visited n then 0 else 1) + unvisited n visited

unvisited-visit :
    (n t : ℕ) (visited : List ℕ)
    → contains visited t ≡ false
    → (t < n → suc (unvisited n (t ∷ visited)) ≡ unvisited n visited)
      × (n ≤ t → unvisited n (t ∷ visited) ≡ unvisited n visited)
unfolding contains
unvisited-visit zero t visited h = ground arith
unvisited-visit (suc n) t visited h = ground (arith, unvisited-visit n t visited h)

Below-raw_get :
    (n : ℕ) (es : List (Value × Value)) (key : Value)
    → All (λ e. Below n (e.0) × Below n (e.1)) es
    → Below n (raw_get es key)
unfolding raw_get
Below-raw_get n [] key h = tt
Below-raw_get n ((k, v) ∷ es) key h = elim (Bool-cases (Serde.raw_equal k key)) [
  | inl e ↦ rw e (h.0.1)
  | inr e ↦ rw e (Below-raw_get n es key h.1)
]

Below-values_from :
    (n fuel : ℕ) (es : List (Value × Value)) (i : ℕ)
    → All (λ e. Below n (e.0) × Below n (e.1)) es
    → All (Below n) (values_from fuel es i)
unfolding values_from
Below-values_from n zero es i h = tt
Below-values_from n (suc fuel) es i h =
    elim (Bool-cases (Serde.is_nil (raw_get es (Serde.integer (Serde.pos i))))) [
      | inl e ↦ rw e tt
      | inr e ↦ rw e (Below-raw_get n es _ h, Below-values_from n fuel es (suc i) h)
    ]

skip_cases :
    (o : Options) (n : ℕ) (visited : List ℕ) (v : Value)
    → Below n v
    → (check_value_for_skip o visited v ≡ ok true)
      ⊎ ((e : Serde.Error) × (check_value_for_skip o visited v ≡ err e))
      ⊎ ((check_value_for_skip o visited v ≡ ok false) × Enters n visited v)
unfolding check_value_for_skip
skip_cases o n visited (table t) b = ground arith
skip_cases o n visited v b = ground arith

bind_total :
    {A B : Type 0} (r : Result A) (f : A → Result B)
    → r ≢ out_of_fuel
    → ((a : A) → r ≡ ok a → f a ≢ out_of_fuel)
    → (r >>= f) ≢ out_of_fuel
bind_total (ok a) f h k = k a refl
bind_total (err e) f h k = λ p. cc
bind_total out_of_fuel f h k = absurd (h refl)

module _ (o : Options) (n : ℕ) (visited : List ℕ) (deserialize : Value → Result Content) where
  -- A value that is read ends, whether it is skipped, refused or entered.
  check_total :
      {B : Type 0} (v : Value) (f : Bool → Result B)
      → Below n v
      → f true ≢ out_of_fuel
      → (Enters n visited v → f false ≢ out_of_fuel)
      → (check_value_for_skip o visited v >>= f) ≢ out_of_fuel
  check_total v f b t k = elim (skip_cases o n visited v b) [
    | inl e ↦ rw e t
    | inr (inl (x, e)) ↦ rw e (λ p. cc)
    | inr (inr (e, m)) ↦ rw e (k m)
  ]

  module _ (total : (v : Value) → Enters n visited v → deserialize v ≢ out_of_fuel) where
    next_elements_total :
        (vs : List Value) → All (Below n) vs → next_elements o visited deserialize vs ≢ out_of_fuel
    unfolding next_elements
    next_elements_total [] h = λ p. cc
    next_elements_total (v ∷ vs) h = check_total v _ h.0 (next_elements_total vs h.1) (λ m.
        bind_total (deserialize v) _ (total v m) (λ c e.
          bind_total (next_elements o visited deserialize vs) _ (next_elements_total vs h.1)
            (λ cs e'. λ p. cc)))

    next_entries_total :
        (es : List (Value × Value))
        → All (λ e. Below n (e.0) × Below n (e.1)) es
        → next_entries o visited deserialize es ≢ out_of_fuel
    unfolding next_entries
    next_entries_total [] h = λ p. cc
    next_entries_total ((k, v) ∷ es) h =
        let rest = next_entries_total es h.1 in
        check_total k _ h.0.0 (check_total v _ h.0.1 rest (λ m. rest)) (λ mk.
          check_total v _ h.0.1 rest (λ mv. bind_total (deserialize k) _ (total k mk) (λ key e.
            bind_total (deserialize v) _ (total v mv) (λ value e'.
              bind_total (next_entries o visited deserialize es) _ rest (λ r e''. λ p. cc)))))

-- Whatever tables hold one another, among a number of tables, the deserializer comes to an end with
-- more fuel than there are tables that it has not visited: with content, or with an error.
pub deserialize_any_total :
    (fuel n : ℕ) (o : Options) (h : Heap) (visited : List ℕ) (v : Value)
    → Closed n h
    → Enters n visited v
    → unvisited n visited < fuel
    → deserialize_any fuel o h visited v ≢ out_of_fuel
unfolding deserialize_any
deserialize_any_total zero n o h visited v c m l = absurd (omega arith)
deserialize_any_total (suc fuel) n o h visited (table t) c m l =
    let inner : (v : Value)
        → Enters n (t ∷ visited) v
        → deserialize_any fuel o h (t ∷ visited) v ≢ out_of_fuel =
      λ v m'.
        deserialize_any_total fuel n o h (t ∷ visited) v c m'
          (omega (arith, (unvisited-visit n t visited m.1).0 m.0)) in
    elim (Bool-cases (ltb 0 (raw_len (h.tables t).entries) || (h.tables t).array)) [
      | inl e ↦ rw e (
          bind_total
            (next_elements o (t ∷ visited) (deserialize_any fuel o h (t ∷ visited))
              (sequence_values (h.tables t).entries))
            _ (next_elements_total o n (t ∷ visited) _ inner _ (Below-values_from n _ _ 1 (c t)))
            (λ cs e'. λ p. cc))
      | inr e ↦ rw e (
          bind_total
            (next_entries o (t ∷ visited) (deserialize_any fuel o h (t ∷ visited))
              (h.tables t).entries)
            _ (next_entries_total o n (t ∷ visited) _ inner _ (c t)) (λ cs e'. λ p. cc))
    ]
deserialize_any_total (suc fuel) n o h visited v c m l = ground arith
