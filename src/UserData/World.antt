-- ===== src/UserData/World.antt =====
-- A cell with the guards that stand, as a ghost, and what may happen to it.
use mlua.Base.{
  ℕ, zero, suc, ◌+◌, ◌≡◌, Bool, true, false, List, [], ◌∷◌, some, get_elem?, if◌then◌else◌,
}
use mlua.UserData.Lock.{UserDataLock}
use mlua.UserData.Cell.{
  Build, Guard, owned_ref, owned_ref_mut, borrow_ref, borrow_mut, ok, err, Result,
}
use mlua.UserData.Cell

-- The list without its entry at an index.
abbrev pub remove : {A : Type 0} → List A → ℕ → List A
remove [] i = []
remove (x ∷ xs) zero = xs
remove (x ∷ xs) (suc i) = x ∷ remove xs i

abbrev pub is_in_place : Guard → Bool
is_in_place owned_ref = false
is_in_place owned_ref_mut = false
is_in_place borrow_ref = true
is_in_place borrow_mut = true

-- `DerefMut`
abbrev pub can_write : Guard → Bool
can_write owned_ref = false
can_write owned_ref_mut = true
can_write borrow_ref = false
can_write borrow_mut = true

abbrev pub in_place : List Guard → ℕ
in_place [] = 0
in_place (g ∷ gs) = (if is_in_place g then 1 else 0) + in_place gs

abbrev pub owning : List Guard → ℕ
owning [] = 0
owning (g ∷ gs) = (if is_in_place g then 0 else 1) + owning gs

module _ (L : UserDataLock) (T : Type 0) where
  pub record World : Type 0 where
    pub cell : Cell.Variant L T
    pub guards : List Guard

  -- The guards that stand after a borrow: the new one, if it was given.
  abbrev pub granted : Result Guard → List Guard → List Guard
  granted (ok g) gs = g ∷ gs
  granted (err e) gs = gs
  granted Cell.panics gs = gs

  -- A guard is asked for, one of those that stand is dropped, or one that may write writes.
  pub data Step (b : Build) (w : World) : World → Type 0 where
    borrow :
        (g : Guard)
        → Step b w (record {
          cell = (Cell.try_from L T b g w.cell).0;
          guards = granted (Cell.try_from L T b g w.cell).1 w.guards;
        })
    release :
        (i : ℕ) (g : Guard)
        → get_elem? w.guards i ≡ some g
        → Step b w (record { cell = Cell.drop L T b g w.cell; guards = remove w.guards i })
    write :
        (i : ℕ) (g : Guard) (t : T)
        → get_elem? w.guards i ≡ some g
        → can_write g ≡ true
        → Step b w (record w { cell = record w.cell { value = t } })

  pub data Reach (b : Build) : World → Type 0 where
    start : (t : T) (s : Bool) → Reach b (record { cell = Cell.new L T t s; guards = [] })
    next : {v w : World} → Reach b v → Step b v w → Reach b w
