-- ===== src/AppData/World.antt =====
-- A container with the guards that stand, as a ghost, and what may happen to it.
use mlua.Base.{
  ℕ, zero, suc, ◌+◌, ◌≡◌, Bool, true, false, ◌&&◌, List, [], ◌∷◌, Option, none, some, get_elem?,
  ◌==◌, if◌then◌else◌,
}
use mlua.AppData.{Result, ok, err, panics}
use mlua.AppData

-- An `AppDataRef` or an `AppDataRefMut` of a type.
pub record Guard : Type 0 where
  pub id : ℕ
  pub mutably : Bool

abbrev pub eq : Bool → Bool → Bool
eq true b = b
eq false true = false
eq false false = true

-- The guards of a type that may write, or those that may not.
abbrev pub count : Bool → ℕ → List Guard → ℕ
count b id [] = 0
count b id (g ∷ gs) = (if g.id == id && eq g.mutably b then 1 else 0) + count b id gs

abbrev pub remove_nth : List Guard → ℕ → List Guard
remove_nth [] i = []
remove_nth (g ∷ gs) zero = gs
remove_nth (g ∷ gs) (suc i) = g ∷ remove_nth gs i

module _ (T : Type 0) where
  pub record World : Type 0 where
    pub app_data : AppData.AppData T
    pub guards : List Guard

  -- A guard is there if a value was found and not borrowed in the way.
  abbrev pub granted : Guard → Result (Option T) → List Guard → List Guard
  granted g (ok none) gs = gs
  granted g (ok (some v)) gs = g ∷ gs
  granted g err gs = gs
  granted g panics gs = gs

  pub data Step (w : World) : World → Type 0 where
    insert :
        (id : ℕ) (v : T) → Step w (record w { app_data = (AppData.insert T id v w.app_data).0 })
    remove : (id : ℕ) → Step w (record w { app_data = (AppData.remove T id w.app_data).0 })
    borrow :
        (g : Guard)
        → Step w (record {
          app_data = (AppData.borrow T g.mutably g.id w.app_data).0;
          guards = granted g (AppData.borrow T g.mutably g.id w.app_data).1 w.guards;
        })
    drop :
        (i : ℕ) (g : Guard)
        → get_elem? w.guards i ≡ some g
        → Step w
            (record { app_data = AppData.drop T g.id w.app_data; guards = remove_nth w.guards i })
    write :
        (i : ℕ) (g : Guard) (v : T)
        → get_elem? w.guards i ≡ some g
        → g.mutably ≡ true
        → Step w (record w { app_data = AppData.deref_mut T g.id v w.app_data })

  pub data Reach : World → Type 0 where
    start :
        Reach
          (record { app_data = record { container = λ id. none; borrow_count = 0 }; guards = [] })
    next : {v w : World} → Reach v → Step v w → Reach w
