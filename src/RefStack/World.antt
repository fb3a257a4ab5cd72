-- ===== src/RefStack/World.antt =====
-- The auxiliary thread with the references that stand and the failures that are reserved, as ghosts.
use mlua.Base.{ℕ, zero, suc, ◌≡◌, Bool, List, [], ◌∷◌, some, get_elem?, ◌≤◌}
use mlua.RefStack.{Result, ok, panics, ExtraData, LuaStack, PreallocatedFailure, new, reserved}
use mlua.RefStack

-- A `ValueRef` that owns its slot, with the value it was made for.
pub record Ref (V : Type 0) : Type 0 where
  pub index : ℕ
  pub value : V

abbrev pub remove_nth : {A : Type 0} → List A → ℕ → List A
remove_nth [] i = []
remove_nth (x ∷ xs) zero = xs
remove_nth (x ∷ xs) (suc i) = x ∷ remove_nth xs i

abbrev pub is_reserved : {V : Type 0} → PreallocatedFailure V → ℕ
is_reserved (new ud) = 0
is_reserved reserved = 1

module _ (V : Type 0) (nil : V) where
  pub record World : Type 0 where
    pub extra : ExtraData V
    pub refs : List (Ref V)
    pub failures : List (PreallocatedFailure V)

  abbrev pub granted : V → Result ℕ → List (Ref V) → List (Ref V)
  granted v (ok index) refs = record { index = index; value = v } ∷ refs
  granted v panics refs = refs

  -- Whether the stack can grow is open at each step.
  pub data Step (w : World) : World → Type 0 where
    pop_ref :
        (can : ℕ → Bool) (v : V)
        → Step w (record w {
          extra = (RefStack.pop_ref can v w.extra).0;
          refs = granted v (RefStack.pop_ref can v w.extra).1 w.refs;
        })
    clone_ref :
        (can : ℕ → Bool) (i : ℕ) (r : Ref V)
        → get_elem? w.refs i ≡ some r
        → Step w (record w {
          extra = (RefStack.clone_ref can r.index w.extra).0;
          refs = granted r.value (RefStack.clone_ref can r.index w.extra).1 w.refs;
        })
    drop_ref :
        (i : ℕ) (r : Ref V)
        → get_elem? w.refs i ≡ some r
        → Step w
            (record w { extra = RefStack.drop_ref nil r.index w.extra; refs = remove_nth w.refs i })
    reserve :
        (ud : V)
        → Step w (record w {
          extra = (RefStack.reserve nil ud w.extra).0;
          failures = (RefStack.reserve nil ud w.extra).1 ∷ w.failures;
        })
    use_failure :
        (i : ℕ) (f : PreallocatedFailure V)
        → get_elem? w.failures i ≡ some f
        → Step w (record w {
          extra = (RefStack.use_failure nil f w.extra).0;
          failures = remove_nth w.failures i;
        })
    release :
        (can : ℕ → Bool) (i : ℕ) (f : PreallocatedFailure V)
        → get_elem? w.failures i ≡ some f
        → Step w (record w {
          extra = RefStack.release nil can f w.extra;
          failures = remove_nth w.failures i;
        })

  -- The first slots hold what mlua keeps there, `base` of them.
  pub data Reach (base : ℕ) : World → Type 0 where
    start :
        (thread : LuaStack V)
        → thread.top ≡ base
        → base ≤ 1
        → 20 ≤ thread.capacity
        → Reach base (record { extra = RefStack.init thread; refs = []; failures = [] })
    next : {v w : World} → Reach base v → Step v w → Reach base w
