-- ===== src/UserData/Aliasing.antt =====
-- The guards of src/userdata/cell.rs: who may hold them together, the counters, and taking a cell
-- apart.
use mlua.Base.{
  ℕ, zero, suc, ◌+◌, ◌≡◌, ◌⊎◌, inl, inr, Bool, true, false, List, [], ◌∷◌, none, some, length,
  get_elem?, All, arith, if◌then◌else◌, refl, subst, ap, ◌↔◌, ◌≢◌,
}
use mlua.UserData.Lock.{UserDataLock, Held, shared, exclusive}
use mlua.UserData.Cell.{
  Build, Guard, owned_ref, owned_ref_mut, borrow_ref, borrow_mut, ok, err, Result, takes_shared,
  user_data_borrow_mut_error,
}
use mlua.UserData.Cell
use mlua.UserData.World.{remove, in_place, owning, is_in_place, can_write}
use mlua.UserData.World

-- The lock is held by the guards that stand: all of them readers, or one writer alone.
abbrev pub Coherent : Build → Held → List Guard → Type 0
Coherent b h gs =
    ((h ≡ shared (length gs)) × All (λ g. takes_shared b g ≡ true) gs)
    ⊎ ((g : Guard) × (h ≡ exclusive) × (gs ≡ g ∷ []) × (takes_shared b g ≡ false))

length-remove :
    (gs : List Guard) (i : ℕ) {g : Guard}
    → get_elem? gs i ≡ some g
    → suc (length (remove gs i)) ≡ length gs
length-remove [] i h = cc
length-remove (x ∷ gs) zero h = refl
length-remove (x ∷ gs) (suc i) h = omega (arith, length-remove gs i h)

in_place-remove :
    (gs : List Guard) (i : ℕ) (g : Guard)
    → get_elem? gs i ≡ some g
    → (in_place (remove gs i) + (if is_in_place g then 1 else 0) ≡ in_place gs)
      × (owning (remove gs i) + (if is_in_place g then 0 else 1) ≡ owning gs)
in_place-remove [] i g h = cc
in_place-remove (x ∷ gs) zero g h = ground arith
in_place-remove (x ∷ gs) (suc i) g h = ground (arith, in_place-remove gs i g h)

All-remove : (P : Guard → Type 0) (gs : List Guard) (i : ℕ) → All P gs → All P (remove gs i)
All-remove P [] i a = tt
All-remove P (x ∷ gs) zero a = a.1
All-remove P (x ∷ gs) (suc i) a = (a.0, All-remove P gs i a.1)

All-get_elem? :
    (P : Guard → Type 0) (gs : List Guard) (i : ℕ) (g : Guard)
    → All P gs
    → get_elem? gs i ≡ some g
    → P g
All-get_elem? P [] i g a h = cc
All-get_elem? P (x ∷ gs) zero g a h = subst P (cc) a.0
All-get_elem? P (x ∷ gs) (suc i) g a h = All-get_elem? P gs i g a.1 h

only : (i : ℕ) (g x : Guard) → get_elem? (x ∷ []) i ≡ some g → (x ≡ g) × (remove (x ∷ []) i ≡ [])
only zero g x h = (cc, refl)
only (suc i) g x h = cc

module _ (L : UserDataLock) (T : Type 0) where
  open L use {Lock, view}

  lock-Coherent :
      (b : Build) (g : Guard) (l : Lock) (gs : List Guard) (s : Bool)
      → takes_shared b g ≡ s
      → Coherent b (view l) gs
      → let (l', locked) = Cell.lock L T s l in
        (locked ≡ true → Coherent b (view l') (g ∷ gs)) × (locked ≡ false → Coherent b (view l') gs)
  unfolding Cell.lock
  lock-Coherent b g l gs true e (inl (h, a)) = ground (arith, L.shared_joins l (length gs) h)
  lock-Coherent b g l gs true e (inr (x, h, o, w)) =
      (λ y. ground (arith, L.shared_barred l h), λ y. inr (x, (L.shared_barred l h).1, o, w))
  lock-Coherent b g l [] false e (inl (h, a)) =
      (λ y. inr (g, (L.exclusive_first l h).1, refl, e), λ y. ground (arith, L.exclusive_first l h))
  lock-Coherent b g l (x ∷ gs) false e (inl (h, a)) =
      ground (arith, L.exclusive_after_readers l (length gs) h)
  lock-Coherent b g l gs false e (inr (x, h, o, w)) =
      (λ y. ground (arith, L.exclusive_barred l h), λ y. inr (x, (L.exclusive_barred l h).1, o, w))

  unlock-Coherent :
      (b : Build) (g : Guard) (l : Lock) (gs : List Guard) (i : ℕ) (s : Bool)
      → takes_shared b g ≡ s
      → get_elem? gs i ≡ some g
      → Coherent b (view l) gs
      → Coherent b (view (Cell.unlock L T s l)) (remove gs i)
  unfolding Cell.unlock
  unlock-Coherent b g l gs i true e m (inl (h, a)) =
      inl (
        L.shared_leaves l (length (remove gs i)) (rw (length-remove gs i m) h),
        All-remove _ gs i a,
      )
  unlock-Coherent b g l gs i false e m (inl (h, a)) =
      ground (arith, All-get_elem? (λ x. takes_shared b x ≡ true) gs i g a m)
  unlock-Coherent b g l gs i true e m (inr (x, h, o, w)) =
      let k = only i g x (rw o at m) in cc (ap (takes_shared b) k.0)
  unlock-Coherent b g l gs i false e m (inr (x, h, o, w)) =
      let k = only i g x (rw o at m) in rw (o, k.1) (inl (L.exclusive_leaves l h, tt))

  -- What every cell keeps: the lock is held by the guards that stand, `borrow_count` counts those
  -- in place, and the reference count is Lua's reference and those of the owned ones.
  pub record Inv (b : Build) (w : World.World L T) : Type 0 where
    pub coherent : Coherent b (view w.cell.raw_lock) w.guards
    pub counted : w.cell.borrow_count ≡ in_place w.guards
    pub owned : w.cell.strong ≡ 1 + owning w.guards

  borrow-Inv :
      (b : Build) (g : Guard) (c : Cell.Variant L T) (gs : List Guard)
      → Inv b (record { cell = c; guards = gs })
      → Inv b (record {
        cell = (Cell.try_from L T b g c).0;
        guards = World.granted L T (Cell.try_from L T b g c).1 gs;
      })
  unfolding Cell.try_from
  borrow-Inv b owned_ref c gs v =
      ground (arith, lock-Coherent b owned_ref c.raw_lock gs _ refl v.coherent)
  borrow-Inv b g c gs v = ground (arith, lock-Coherent b g c.raw_lock gs _ refl v.coherent)

  release-Inv :
      (b : Build) (g : Guard) (i : ℕ) (c : Cell.Variant L T) (gs : List Guard)
      → get_elem? gs i ≡ some g
      → Inv b (record { cell = c; guards = gs })
      → Inv b (record { cell = Cell.drop L T b g c; guards = remove gs i })
  unfolding Cell.drop
  release-Inv b owned_ref i c gs m v = record {
    coherent = unlock-Coherent b owned_ref c.raw_lock gs i _ refl m v.coherent;
    counted = ground (arith, in_place-remove gs i owned_ref m);
    owned = ground (arith, in_place-remove gs i owned_ref m);
  }
  release-Inv b g i c gs m v = record {
    coherent = unlock-Coherent b g c.raw_lock gs i _ refl m v.coherent;
    counted = ground (arith, in_place-remove gs i g m);
    owned = ground (arith, in_place-remove gs i g m);
  }

  Step-Inv : {b : Build} {v w : World.World L T} → World.Step L T b v w → Inv b v → Inv b w
  Step-Inv {b} {v} (World.borrow g) h = borrow-Inv b g v.cell v.guards h
  Step-Inv {b} {v} (World.release i g m) h = release-Inv b g i v.cell v.guards m h
  Step-Inv (World.write i g t m k) h = record {
    coherent = h.coherent;
    counted = h.counted;
    owned = h.owned;
  }

  -- However guards are asked for, dropped and written through, the lock is held by exactly the
  -- guards that stand, `borrow_count` counts those in place, and the cell has one reference more
  -- than there are owned guards.
  pub Reach-Inv : {b : Build} {w : World.World L T} → World.Reach L T b w → Inv b w
  unfolding Cell.new
  Reach-Inv (World.start t s) = record {
    coherent = inl (L.init_free, tt);
    counted = refl;
    owned = omega arith;
  }
  Reach-Inv (World.next r s) = Step-Inv s (Reach-Inv r)

  writers_lock : (b : Build) (g : Guard) → can_write g ≡ true → takes_shared b g ≡ false
  unfolding takes_shared
  writers_lock b owned_ref h = cc
  writers_lock b owned_ref_mut h = refl
  writers_lock b borrow_ref h = cc
  writers_lock b borrow_mut h = refl

  -- In a state that can be reached, a guard that may write is the only one.
  pub writer_alone :
      {b : Build} {w : World.World L T}
      → World.Reach L T b w
      → (i : ℕ) (g : Guard) → get_elem? w.guards i ≡ some g
      → can_write g ≡ true
      → w.guards ≡ g ∷ []
  writer_alone {b} {w} r i g m k = elim (Reach-Inv r).coherent [
    | inl (h, a) ↦
        cc (All-get_elem? (λ x. takes_shared b x ≡ true) w.guards i g a m, writers_lock b g k)
    | inr (x, h, o, n) ↦ rw (o, (only i g x (rw o at m)).0) refl
  ]

  -- In a state that can be reached, a write leaves no other guard that could have seen the old
  -- value, and every step but a write keeps the value.
  pub Step-value :
      {b : Build} {v w : World.World L T}
      → World.Reach L T b v
      → World.Step L T b v w
      → (w.cell.value ≡ v.cell.value) ⊎ ((g : Guard) × (v.guards ≡ g ∷ []) × (can_write g ≡ true))
  unfolding Cell.try_from Cell.drop
  Step-value r (World.borrow owned_ref) = inl (ground arith)
  Step-value r (World.borrow g) = inl (ground arith)
  Step-value r (World.release i owned_ref m) = inl refl
  Step-value r (World.release i g m) = inl refl
  Step-value r (World.write i g t m k) = inr (g, writer_alone r i g m k, k)

  free_view :
      (b : Build) (l : Lock) (gs : List Guard)
      → Coherent b (view l) gs
      → gs ≡ []
      → view l ≡ shared 0
  free_view b l gs (inl (h, a)) e = ground arith
  free_view b l gs (inr (x, h, o, n)) e = cc

  held_lock :
      (b : Build) (l : Lock) (gs : List Guard)
      → Coherent b (view l) gs
      → gs ≢ []
      → ((L.try_lock_exclusive l).1 ≡ false) × Coherent b (view (L.try_lock_exclusive l).0) gs
  held_lock b l [] c ne = absurd (ne refl)
  held_lock b l (y ∷ gs) (inl (h, a)) ne =
      let k = L.exclusive_after_readers l (length gs) h in (k.0, inl (k.1, a))
  held_lock b l (y ∷ gs) (inr (x, h, o, n)) ne =
      let k = L.exclusive_barred l h in (k.0, inr (x, k.1, o, n))

  free_or_held : (gs : List Guard) → (gs ≡ []) ⊎ (gs ≢ [])
  free_or_held [] = inl refl
  free_or_held (g ∷ gs) = inr (λ e. cc)

  exclusive_iff :
      (b : Build) (l : Lock) (gs : List Guard)
      → Coherent b (view l) gs
      → (L.try_lock_exclusive l).1 ≡ true ↔ gs ≡ []
  exclusive_iff b l gs c = elim (free_or_held gs) [
    | inl e ↦ (λ _. e, λ _. (L.exclusive_first l (free_view b l gs c e)).0)
    | inr ne ↦ (λ t. cc ((held_lock b l gs c ne).0), λ e. absurd (ne e))
  ]

  take_free :
      (b : Build) (c : Cell.Variant L T)
      → view c.raw_lock ≡ shared 0
      → c.strong ≡ 1
      → Cell.take L T b c ≡ (none, ok c.value)
  unfolding Cell.take
  take_free b c h s =
      let l : Lock = (L.try_lock_exclusive c.raw_lock).0 in
      let k = L.exclusive_first c.raw_lock h in
      let u = L.exclusive_leaves l k.1 in
      ground (arith, k, L.exclusive_first (L.unlock_exclusive l) u)

  -- In a state that can be reached, a value can be borrowed for writing exactly when no guard
  -- stands, and a first borrow for reading always succeeds.
  pub try_from_free :
      {b : Build} {w : World.World L T}
      → World.Reach L T b w
      → ((Cell.try_from L T b owned_ref_mut w.cell).1 ≡ ok owned_ref_mut ↔ w.guards ≡ [])
        × ((Cell.try_from L T b borrow_mut w.cell).1 ≡ ok borrow_mut ↔ w.guards ≡ [])
        × (w.guards ≡ [] → (Cell.try_from L T b owned_ref w.cell).1 ≡ ok owned_ref)
        × (w.guards ≡ [] → (Cell.try_from L T b borrow_ref w.cell).1 ≡ ok borrow_ref)
  unfolding Cell.try_from
  try_from_free {b} {w} r =
      let c = (Reach-Inv r).coherent in
      let x = exclusive_iff b w.cell.raw_lock w.guards c in
      ground
        (arith, x.0, x.1, free_view b w.cell.raw_lock w.guards c, L.shared_first w.cell.raw_lock)

  -- In a state that can be reached, `take` gives the value if no guard stands; if one stands it
  -- fails, and the cell stays in Lua with its value, its lock and counters still those of the guards
  -- that stand. It never panics.
  pub take_lem :
      {b : Build} {w : World.World L T}
      → World.Reach L T b w
      → (w.guards ≡ [] → Cell.take L T b w.cell ≡ (none, ok w.cell.value))
        × (w.guards ≢ []
            → ((Cell.take L T b w.cell).1 ≡ err user_data_borrow_mut_error)
              × ((c : Cell.Variant L T) × ((Cell.take L T b w.cell).0 ≡ some c)
                  × Inv b (record { cell = c; guards = w.guards })
                  × (c.value ≡ w.cell.value)))
  unfolding Cell.take
  take_lem {b} {w} r =
      let v = Reach-Inv r in
      (
        λ e.
            take_free b w.cell (free_view b w.cell.raw_lock w.guards v.coherent e)
              (ground (arith, v.owned)),
        λ ne.
            let k = held_lock b w.cell.raw_lock w.guards v.coherent ne in
            (
              ground (arith, k.0),
              (
                record w.cell { raw_lock = (L.try_lock_exclusive w.cell.raw_lock).0 },
                ground (arith, k.0),
                record { coherent = k.1; counted = v.counted; owned = v.owned },
                refl,
              ),
            ),
      )

  -- In a state that can be reached, the finalizer takes the value out of Lua exactly when nobody
  -- borrows it in place, and then it stays alive exactly as long as an owned guard stands.
  pub userdata_destructor_lem :
      {b : Build} {w : World.World L T}
      → World.Reach L T b w
      → ((Cell.userdata_destructor L T (Cell.owned w.cell)).1 ≡ true ↔ in_place w.guards ≡ 0)
        × (in_place w.guards ≡ 0
            → Cell.userdata_destructor L T (Cell.owned w.cell)
              ≡ (Cell.owned (record w.cell { strong = owning w.guards }), true))
  unfolding Cell.userdata_destructor
  userdata_destructor_lem {b} {w} r = let v = Reach-Inv r in ground (arith, v.counted, v.owned)
