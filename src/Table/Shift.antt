-- ===== src/Table/Shift.antt =====
-- The two loops of `raw_insert` and `raw_remove` in src/table.rs, index by index.
use mlua.Base.{ℕ, zero, suc, ◌+◌, ◌-◌, ◌≡◌, ◌&&◌, ltb, leb, if◌then◌else◌, arith, ap}
use mlua.Table.Api.{TableApi}
use mlua.Table.Raw

module _ {V : Type 0} (A : TableApi V) where
  open A use {Table, rawgeti, rawseti, rawlen}

  same_index : (t : Table) (i j : ℕ) → i ≡ suc j → rawgeti t (i - 1) ≡ rawgeti t j
  same_index t i j e = ap (rawgeti t) (omega arith)

  -- One step up: the indices above `idx`, up to `idx + k`, have the values of those below them.
  pub shift_up-get :
      (t : Table) (idx k j : ℕ)
      → rawgeti (Raw.shift_up A t idx k) j
        ≡ (if ltb idx j && leb j (idx + k) then rawgeti t (j - 1) else rawgeti t j)
  unfolding Raw.shift_up
  shift_up-get t idx zero j = ground arith
  shift_up-get t idx (suc k) j = ground (
    arith,
    shift_up-get (rawseti t (idx + k + 1) (rawgeti t (idx + k))) idx k j,
    A.get_set t (idx + k + 1) (rawgeti t (idx + k)) j,
    A.get_set t (idx + k + 1) (rawgeti t (idx + k)) (j - 1),
    same_index t j (idx + k),
  )

  -- One step down: the indices from `idx` to below `idx + k` have the values of those above them.
  pub shift_down-get :
      (t : Table) (idx k j : ℕ)
      → rawgeti (Raw.shift_down A t idx k) j
        ≡ (if leb idx j && ltb j (idx + k) then rawgeti t (j + 1) else rawgeti t j)
  unfolding Raw.shift_down
  shift_down-get t idx zero j = ground arith
  shift_down-get t idx (suc k) j = ground (
    arith,
    shift_down-get (rawseti t idx (rawgeti t (idx + 1))) (idx + 1) k j,
    A.get_set t idx (rawgeti t (idx + 1)) j,
    A.get_set t idx (rawgeti t (idx + 1)) (j + 1),
  )
