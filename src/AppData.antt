-- ===== src/AppData.antt =====
-- src/types/app_data.rs: the container of values of any type, one for each type, that a Lua state
-- carries. A type is its `TypeId`, and a value is one with its type, so that a downcast to the
-- type under which it was inserted succeeds. A `RefCell` is its value and its borrow flag: the
-- number of readers, or that there is a writer. The map is a function from types.
pub mod World
pub mod Borrows
mod Tests
use mlua.Base.{ℕ, zero, suc, ◌+◌, ◌-◌, Bool, true, false, Option, none, some, ◌==◌, if◌then◌else◌}

pub data Flag : Type 0 where
  readers : ℕ → Flag
  writer : Flag

-- What a call that does not fail gives; `panics` is the message of a refused `RefCell` or
-- container.
pub data Result (A : Type 0) : Type 0 where
  ok : A → Result A
  err : Result A
  panics : Result A

unfoldable pub expect : {A : Type 0} → Result A → Result A
expect (ok a) = ok a
expect err = panics
expect panics = panics

-- `RefCell::try_borrow` and `RefCell::try_borrow_mut`
unfoldable pub cell_borrow : Bool → Flag → Option Flag
cell_borrow false (readers n) = some (readers (suc n))
cell_borrow false writer = none
cell_borrow true (readers zero) = some writer
cell_borrow true (readers (suc n)) = none
cell_borrow true writer = none

-- The drop of a `Ref` or a `RefMut`.
unfoldable pub release : Flag → Flag
release (readers n) = readers (n - 1)
release writer = readers 0

module _ (T : Type 0) where
  pub record RefCell : Type 0 where
    pub value : T
    pub flag : Flag

  pub record AppData : Type 0 where
    pub container : ℕ → Option RefCell
    pub borrow_count : ℕ

  -- `RefCell::new`
  unfoldable pub new_cell : T → RefCell
  new_cell v = record { value = v; flag = readers 0 }

  -- The map with another entry at one type.
  unfoldable pub set : ℕ → Option RefCell → (ℕ → Option RefCell) → ℕ → Option RefCell
  set id cell m k = if k == id then cell else m k

  unfoldable pub into_inner : Option RefCell → Option T
  into_inner none = none
  into_inner (some cell) = some cell.value

  -- The data comes back if a guard stands.
  unfoldable pub try_insert : ℕ → T → AppData → AppData × Result (Option T)
  unfolding set new_cell into_inner
  try_insert id v self =
      if self.borrow_count == 0
      then (
        record self { container = set id (some (new_cell v)) self.container },
        ok (into_inner (self.container id)),
      )
      else (self, err)

  unfoldable pub insert : ℕ → T → AppData → AppData × Result (Option T)
  unfolding try_insert expect
  insert id v self = let (self', r) = try_insert id v self in (self', expect r)

  -- `try_borrow` if the first argument is false and `try_borrow_mut` if it is true: a cell that is
  -- found is borrowed, and the guard counted.
  unfoldable pub try_borrow : Bool → ℕ → AppData → AppData × Result (Option T)
  unfolding cell_borrow set
  try_borrow mutably id self = elim (self.container id) [
    | none ↦ (self, ok none)
    | some cell ↦ elim (cell_borrow mutably cell.flag) [
      | none ↦ (self, err)
      | some f ↦ (
        record {
          container = set id (some (record cell { flag = f })) self.container;
          borrow_count = self.borrow_count + 1;
        },
        ok (some cell.value),
      )
    ]
  ]

  unfoldable pub borrow : Bool → ℕ → AppData → AppData × Result (Option T)
  unfolding try_borrow expect
  borrow mutably id self = let (self', r) = try_borrow mutably id self in (self', expect r)

  unfoldable pub remove : ℕ → AppData → AppData × Result (Option T)
  unfolding set into_inner
  remove id self =
      if self.borrow_count == 0
      then (
        record self { container = set id none self.container },
        ok (into_inner (self.container id)),
      )
      else (self, panics)

  unfoldable pub release_cell : Option RefCell → Option RefCell
  unfolding release
  release_cell none = none
  release_cell (some cell) = some (record cell { flag = release cell.flag })

  -- The drop of an `AppDataRef` or an `AppDataRefMut`: the count, then the field `data`.
  unfoldable pub drop : ℕ → AppData → AppData
  unfolding set release_cell
  drop id self = record {
    container = set id (release_cell (self.container id)) self.container;
    borrow_count = self.borrow_count - 1;
  }

  -- `DerefMut`
  unfoldable pub write_cell : T → Option RefCell → Option RefCell
  write_cell v none = none
  write_cell v (some cell) = some (record cell { value = v })

  unfoldable pub deref_mut : ℕ → T → AppData → AppData
  unfolding set write_cell
  deref_mut id v self = record self {
    container = set id (write_cell v (self.container id)) self.container;
  }
