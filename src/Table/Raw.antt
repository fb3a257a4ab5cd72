-- ===== src/Table/Raw.antt =====
-- `raw_insert`, `raw_push`, `raw_pop`, `raw_remove` and the iterator of `sequence_values`. Each
-- runs on a stack that can grow, with enough memory. `readonly` is Luau's flag, which is off
-- elsewhere.
use mlua.Base.{
  ℕ, zero, suc, ◌+◌, ◌-◌, Bool, ◌||◌, Option, none, some, List, [], ◌∷◌, ltb, if◌then◌else◌,
}
use mlua.Base.Integer.{ℤ, pos, negsuc}
use mlua.Table.Api.{TableApi}

pub data Error : Type 0 where
  index_out_of_bounds readonly_table : Error

pub data Result (A : Type 0) : Type 0 where
  ok : A → Result A
  err : Error → Result A

module _ {V : Type 0} (A : TableApi V) where
  open A use {Table, rawgeti, rawseti, rawlen}

  -- `for i in (idx..=size).rev() { t[i + 1] = t[i] }`, for `k` indices from `idx` on.
  unfoldable pub shift_up : Table → ℕ → ℕ → Table
  shift_up t idx zero = t
  shift_up t idx (suc k) = shift_up (rawseti t (idx + k + 1) (rawgeti t (idx + k))) idx k

  -- `for i in idx..size { t[i] = t[i + 1] }`, for `k` indices from `idx` on.
  unfoldable pub shift_down : Table → ℕ → ℕ → Table
  shift_down t idx zero = t
  shift_down t idx (suc k) = shift_down (rawseti t idx (rawgeti t (idx + 1))) (idx + 1) k

  unfoldable pub raw_insert : Table → ℤ → Option V → Result Table
  unfolding shift_up
  raw_insert t (negsuc n) v = err index_out_of_bounds
  raw_insert t (pos idx) v =
      let size = rawlen t in
      if ltb idx 1 || ltb (size + 1) idx
      then err index_out_of_bounds
      else ok (rawseti (shift_up t idx (size + 1 - idx)) idx v)

  unfoldable pub raw_push : Bool → Table → Option V → Result Table
  raw_push readonly t v = if readonly then err readonly_table else ok (rawseti t (rawlen t + 1) v)

  -- The table, and the value that is then converted.
  unfoldable pub raw_pop : Bool → Table → Result (Table × Option V)
  raw_pop readonly t =
      if readonly then err readonly_table else ok (rawseti t (rawlen t) none, rawgeti t (rawlen t))

  -- For an integer key; any other key is set to nil by `raw_set`.
  unfoldable pub raw_remove : Table → ℤ → Result Table
  unfolding shift_down
  raw_remove t (negsuc n) = err index_out_of_bounds
  raw_remove t (pos idx) =
      let size = rawlen t in
      if ltb idx 1 || ltb size idx
      then err index_out_of_bounds
      else ok (rawseti (shift_down t idx (size - idx)) size none)

  -- `TableSequence`: the values from an index on, up to the first nil; at most `fuel` of them.
  unfoldable pub sequence_values : ℕ → Table → ℕ → List V
  sequence_values zero t index = []
  sequence_values (suc fuel) t index = elim (rawgeti t index) [
    | none ↦ []
    | some v ↦ v ∷ sequence_values fuel t (index + 1)
  ]

  -- The loop of `create_sequence_from` (src/state/raw.rs), from the `i`-th value on.
  unfoldable pub create_sequence_from : Table → ℕ → List V → Table
  create_sequence_from t i [] = t
  create_sequence_from t i (v ∷ vs) = create_sequence_from (rawseti t (i + 1) (some v)) (i + 1) vs
