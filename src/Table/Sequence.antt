-- ===== src/Table/Sequence.antt =====
-- The raw operations of src/table.rs on a table whose indices from 1 on hold a list, and nil after
-- it.
use mlua.Base.{
  ℕ, zero, suc, ◌+◌, ◌-◌, ◌≤◌, ◌<◌, ◌≡◌, refl, sym, ◌∙◌, ap, true, false, List, [], ◌∷◌, ◌++◌,
  Option, none, some, length, get_elem?, ltb, ◌==◌, if◌then◌else◌, arith, inl, inr, ◌⊎◌,
  length-append,
}
use mlua.Base.Integer.{pos, negsuc, ℤ}
use mathlib.Core.List.{append-nil, append_assoc}
use mlua.Table.Api.{TableApi}
use mlua.Table.Raw.{ok, err, index_out_of_bounds, readonly_table}
use mlua.Table.Raw
use mlua.Table.Shift.{shift_up-get, shift_down-get}

-- The list with `v` before its entry at `i`, and without that entry.
abbrev pub insert_at : {V : Type 0} → List V → ℕ → V → List V
insert_at [] i v = v ∷ []
insert_at (x ∷ xs) zero v = v ∷ x ∷ xs
insert_at (x ∷ xs) (suc i) v = x ∷ insert_at xs i v

abbrev pub remove_at : {V : Type 0} → List V → ℕ → List V
remove_at [] i = []
remove_at (x ∷ xs) zero = xs
remove_at (x ∷ xs) (suc i) = x ∷ remove_at xs i

abbrev pub drop_last : {V : Type 0} → List V → List V
drop_last [] = []
drop_last (x ∷ []) = []
drop_last (x ∷ y ∷ xs) = x ∷ drop_last (y ∷ xs)

-- The entry before an index.
abbrev before : {V : Type 0} → List V → ℕ → Option V
before xs zero = none
before xs (suc j) = get_elem? xs j

module _ {V : Type 0} where
  get-insert_at :
      (xs : List V) (i j : ℕ) (v : V)
      → i ≤ length xs
      → get_elem? (insert_at xs i v) j
        ≡ (if j == i then some v else if ltb j i then get_elem? xs j else before xs j)
  get-insert_at [] zero zero v h = ground arith
  get-insert_at [] zero (suc j) v h = ground arith
  get-insert_at [] (suc i) j v h = absurd (omega arith)
  get-insert_at (x ∷ xs) zero zero v h = ground arith
  get-insert_at (x ∷ xs) zero (suc j) v h = ground arith
  get-insert_at (x ∷ xs) (suc i) zero v h = ground arith
  get-insert_at (x ∷ xs) (suc i) (suc zero) v h = ground (arith, get-insert_at xs i 0 v)
  get-insert_at (x ∷ xs) (suc i) (suc (suc j)) v h = ground (arith, get-insert_at xs i (suc j) v)

  get-remove_at :
      (xs : List V) (i j : ℕ)
      → get_elem? (remove_at xs i) j ≡ (if ltb j i then get_elem? xs j else get_elem? xs (suc j))
  get-remove_at [] i j = ground arith
  get-remove_at (x ∷ xs) zero j = ground arith
  get-remove_at (x ∷ xs) (suc i) zero = ground arith
  get-remove_at (x ∷ xs) (suc i) (suc j) = ground (arith, get-remove_at xs i j)

  get-append :
      (xs : List V) (v : V) (j : ℕ)
      → get_elem? (xs ++ v ∷ []) j ≡ (if j == length xs then some v else get_elem? xs j)
  get-append [] v zero = ground arith
  get-append [] v (suc j) = ground arith
  get-append (x ∷ xs) v zero = ground arith
  get-append (x ∷ xs) v (suc j) = ground (arith, get-append xs v j)

  get-drop_last :
      (xs : List V) (j : ℕ)
      → get_elem? (drop_last xs) j ≡ (if suc j == length xs then none else get_elem? xs j)
  get-drop_last [] j = ground arith
  get-drop_last (x ∷ []) zero = ground arith
  get-drop_last (x ∷ []) (suc j) = ground arith
  get-drop_last (x ∷ y ∷ xs) zero = ground arith
  get-drop_last (x ∷ y ∷ xs) (suc j) = ground (arith, get-drop_last (y ∷ xs) j)

  get-none : (xs : List V) (j : ℕ) → get_elem? xs j ≡ none → length xs ≤ j
  get-none [] j h = omega arith
  get-none (x ∷ xs) zero h = cc
  get-none (x ∷ xs) (suc j) h = omega (arith, get-none xs j h)

  get-beyond : (xs : List V) (j : ℕ) → length xs ≤ j → get_elem? xs j ≡ none
  get-beyond [] j h = refl
  get-beyond (x ∷ xs) zero h = absurd (omega arith)
  get-beyond (x ∷ xs) (suc j) h = get-beyond xs j (omega arith)

le_or_lt : (a b : ℕ) → (a ≤ b) ⊎ (b < a)
le_or_lt a b = omega arith

sub_one : (n : ℕ) → suc n - 1 ≡ n
sub_one n = omega arith

add_one : (n : ℕ) → n + 1 ≡ suc n
add_one n = omega arith

module _ {V : Type 0} (A : TableApi V) where
  open A use {Table, rawgeti, rawseti, rawlen}

  abbrev pub IsSequence : Table → List V → Type 0
  IsSequence t xs = (i : ℕ) → rawgeti t (suc i) ≡ get_elem? xs i

  -- The length of a sequence is that of its list.
  pub rawlen-length : (t : Table) (xs : List V) → IsSequence t xs → rawlen t ≡ length xs
  rawlen-length t xs h = at (rawlen t) refl
    where
      at : (n : ℕ) → rawlen t ≡ n → rawlen t ≡ length xs
      at zero e = omega (arith, get-none xs 0 (sym (h 0) ∙ rw e at (A.border_end t)))
      at (suc n) e = elim (le_or_lt (length xs) n) [
        | inl out ↦ absurd (A.border_start t n e (h n ∙ get-beyond xs n out))
        | inr within ↦
            omega (arith, get-none xs (suc n) (sym (h (suc n)) ∙ rw e at (A.border_end t)))
      ]

  insert_entry :
      (t : Table) (xs : List V) (i j : ℕ) (v : V)
      → IsSequence t xs
      → i ≤ length xs
      → rawgeti
          (rawseti (Raw.shift_up A t (suc i) (length xs + 1 - suc i)) (suc i) (some v))
          (suc j)
        ≡ get_elem? (insert_at xs i v) j
  insert_entry t xs i zero v h le = ground (
    arith,
    A.get_set (Raw.shift_up A t (suc i) (length xs + 1 - suc i)) (suc i) (some v) 1,
    shift_up-get A t (suc i) (length xs + 1 - suc i) 1,
    get-insert_at xs i 0 v,
    h 0,
  )
  insert_entry t xs i (suc j) v h le = ground (
    arith,
    A.get_set (Raw.shift_up A t (suc i) (length xs + 1 - suc i)) (suc i) (some v) (suc (suc j)),
    shift_up-get A t (suc i) (length xs + 1 - suc i) (suc (suc j)),
    get-insert_at xs i (suc j) v,
    h j,
    h (suc j),
    get-beyond xs j,
    get-beyond xs (suc j),
    ap (rawgeti t) (sub_one (suc j)),
  )

  -- Inserting a value that is not nil into a sequence, at an index from 1 to one past its end, puts
  -- it there and moves what follows up by one.
  pub raw_insert-IsSequence :
      (t : Table) (xs : List V) (i : ℕ) (v : V)
      → IsSequence t xs
      → i ≤ length xs
      → (t' : Table) × (Raw.raw_insert A t (pos (suc i)) (some v) ≡ ok t')
        × IsSequence t' (insert_at xs i v)
  unfolding Raw.raw_insert
  raw_insert-IsSequence t xs i v h le = rw (rawlen-length t xs h) (
    rawseti (Raw.shift_up A t (suc i) (length xs + 1 - suc i)) (suc i) (some v),
    ground arith,
    λ j. insert_entry t xs i j v h le,
  )

  remove_entry :
      (t : Table) (xs : List V) (i j : ℕ)
      → IsSequence t xs
      → i < length xs
      → rawgeti (rawseti (Raw.shift_down A t (suc i) (length xs - suc i)) (length xs) none) (suc j)
        ≡ get_elem? (remove_at xs i) j
  remove_entry t xs i j h lt = ground (
    arith,
    A.get_set (Raw.shift_down A t (suc i) (length xs - suc i)) (length xs) none (suc j),
    shift_down-get A t (suc i) (length xs - suc i) (suc j),
    get-remove_at xs i j,
    h j,
    h (suc j),
    get-beyond xs j,
    get-beyond xs (suc j),
    ap (rawgeti t) (add_one (suc j)),
  )

  -- Removing an index of a sequence takes its value out and moves what follows down by one.
  pub raw_remove-IsSequence :
      (t : Table) (xs : List V) (i : ℕ)
      → IsSequence t xs
      → i < length xs
      → (t' : Table) × (Raw.raw_remove A t (pos (suc i)) ≡ ok t') × IsSequence t' (remove_at xs i)
  unfolding Raw.raw_remove
  raw_remove-IsSequence t xs i h lt = rw (rawlen-length t xs h) (
    rawseti (Raw.shift_down A t (suc i) (length xs - suc i)) (length xs) none,
    ground arith,
    λ j. remove_entry t xs i j h lt,
  )

  -- Both operations refuse every other index of a sequence.
  pub raw_out_of_bounds :
      (t : Table) (xs : List V) (idx : ℤ) (v : Option V)
      → IsSequence t xs
      → (((i : ℕ) → idx ≡ pos (suc i) → length xs < i)
          → Raw.raw_insert A t idx v ≡ err index_out_of_bounds)
        × (((i : ℕ) → idx ≡ pos (suc i) → length xs ≤ i)
            → Raw.raw_remove A t idx ≡ err index_out_of_bounds)
  unfolding Raw.raw_insert Raw.raw_remove
  raw_out_of_bounds t xs (negsuc n) v h = (λ _. refl, λ _. refl)
  raw_out_of_bounds t xs (pos zero) v h = (λ _. ground arith, λ _. ground arith)
  raw_out_of_bounds t xs (pos (suc i)) v h = (
    λ o. ground (arith, o i refl, rawlen-length t xs h),
    λ o. ground (arith, o i refl, rawlen-length t xs h),
  )

  -- On a sequence that is not read-only, `raw_push` appends, and `raw_pop` gives the last value,
  -- nil if there is none, and takes it off; neither changes a table that is read-only.
  pub raw_push_pop :
      (t : Table) (xs : List V) (v : V)
      → IsSequence t xs
      → ((t' : Table) × (Raw.raw_push A false t (some v) ≡ ok t') × IsSequence t' (xs ++ v ∷ []))
        × ((t' : Table) × (Raw.raw_pop A false t ≡ ok (t', rawgeti t (length xs)))
            × IsSequence t' (drop_last xs))
        × (Raw.raw_push A true t (some v) ≡ err readonly_table)
        × (Raw.raw_pop A true t ≡ err readonly_table)
  unfolding Raw.raw_push Raw.raw_pop
  raw_push_pop t xs v h = rw (rawlen-length t xs h) (
    (
      rawseti t (length xs + 1) (some v),
      refl,
      λ j. ground (arith, A.get_set t (length xs + 1) (some v) (suc j), get-append xs v j, h j),
    ),
    (
      rawseti t (length xs) none,
      refl,
      λ j. ground (arith, A.get_set t (length xs) none (suc j), get-drop_last xs j, h j),
    ),
    refl,
    refl,
  )

  values_from :
      (t : Table) (ys : List V) (idx fuel : ℕ)
      → ((j k : ℕ) → k ≡ idx + j → rawgeti t k ≡ get_elem? ys j)
      → length ys < fuel
      → Raw.sequence_values A fuel t idx ≡ ys
  unfolding Raw.sequence_values
  values_from t ys idx zero h lt = absurd (omega arith)
  values_from t [] idx (suc fuel) h lt = rw (h 0 idx (omega arith), Raw.sequence_values) refl
  values_from t (y ∷ ys) idx (suc fuel) h lt =
      rw (h 0 idx (omega arith), Raw.sequence_values)
        (ap (◌∷◌ y)
          (values_from t ys (idx + 1) fuel (λ j k e. h (suc j) k (omega arith)) (omega arith)))

  -- The iterator over a sequence gives its values in order and ends, with any fuel above their
  -- number.
  pub sequence_values-eq :
      (t : Table) (xs : List V) (fuel : ℕ)
      → IsSequence t xs
      → length xs < fuel
      → Raw.sequence_values A fuel t 1 ≡ xs
  sequence_values-eq t xs fuel h lt =
      values_from t xs 1 fuel (λ j k e. same_entry k j (omega arith)) lt
    where
      same_entry : (k j : ℕ) → k ≡ suc j → rawgeti t k ≡ get_elem? xs j
      same_entry k j e = rw e (h j)

  create_from :
      (t : Table) (i : ℕ) (xs vs : List V)
      → IsSequence t xs
      → length xs ≡ i
      → IsSequence (Raw.create_sequence_from A t i vs) (xs ++ vs)
  unfolding Raw.create_sequence_from
  create_from t i xs [] h e = rw append-nil h
  create_from t i xs (v ∷ vs) h e = rw (← append_assoc xs (v ∷ []) vs) (
      create_from (rawseti t (i + 1) (some v)) (i + 1) (xs ++ v ∷ []) vs
        (λ j. ground (arith, A.get_set t (i + 1) (some v) (suc j), get-append xs v j, h j))
        (omega (arith, length-append xs (v ∷ []))))

  -- A table made from a list of values, out of one that holds nothing, is the sequence of these
  -- values, and the iterator gives them back.
  pub sequence_values-create :
      (t : Table) (vs : List V) (fuel : ℕ)
      → IsSequence t []
      → length vs < fuel
      → IsSequence (Raw.create_sequence_from A t 0 vs) vs
        × (Raw.sequence_values A fuel (Raw.create_sequence_from A t 0 vs) 1 ≡ vs)
  sequence_values-create t vs fuel h lt =
      let made = create_from t 0 [] vs h refl in
      (made, sequence_values-eq (Raw.create_sequence_from A t 0 vs) vs fuel made lt)
