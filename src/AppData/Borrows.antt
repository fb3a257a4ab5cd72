-- ===== src/AppData/Borrows.antt =====
-- The container of src/types/app_data.rs with the guards that stand: its count and flags, and what
-- borrows, insertions and removals find.
use mlua.Base.{
  ℕ, zero, suc, ◌+◌, ◌<◌, ◌≡◌, refl, ◌≢◌, ◌⊎◌, inl, inr, ◌↔◌, Bool, true, false, List, [], ◌∷◌,
  Option, none, some, get_elem?, length, if◌then◌else◌, arith, Option-cases,
}
use mlua.AppData.{ok, err, panics, Flag, readers, writer}
use mlua.AppData
use mlua.AppData.World.{Guard, count, remove_nth}
use mlua.AppData.World

-- The flag of a cell with so many guards that may only read and so many that may write.
abbrev pub IsFlagOf : Flag → ℕ → ℕ → Type 0
IsFlagOf (readers n) r w = (n ≡ r) × (w ≡ 0)
IsFlagOf writer r w = (r ≡ 0) × (w ≡ 1)

count-remove :
    (b : Bool) (id : ℕ) (gs : List Guard) (i : ℕ) (g : Guard)
    → get_elem? gs i ≡ some g
    → count b id (remove_nth gs i) + count b id (g ∷ []) ≡ count b id gs
count-remove b id [] i g h = cc
count-remove b id (x ∷ gs) zero g h = ground arith
count-remove b id (x ∷ gs) (suc i) g h = ground (arith, count-remove b id gs i g h)

length-remove_nth :
    (gs : List Guard) (i : ℕ) (g : Guard)
    → get_elem? gs i ≡ some g
    → suc (length (remove_nth gs i)) ≡ length gs
length-remove_nth [] i g h = cc
length-remove_nth (x ∷ gs) zero g h = refl
length-remove_nth (x ∷ gs) (suc i) g h = omega (arith, length-remove_nth gs i g h)

count-zero : (b : Bool) (id : ℕ) (gs : List Guard) → length gs ≡ 0 → count b id gs ≡ 0
count-zero b id [] h = refl
count-zero b id (x ∷ gs) h = ground arith

none_or_some : (gs : List Guard) → ((gs ≡ []) × (length gs ≡ 0)) ⊎ ((gs ≢ []) × (0 < length gs))
none_or_some [] = inl (refl, refl)
none_or_some (g ∷ gs) = inr (λ e. cc, omega arith)

-- What a borrow makes of a flag fits the new guard.
cell_borrow-IsFlagOf :
    (b : Bool) (f f' : Flag) (r w : ℕ)
    → AppData.cell_borrow b f ≡ some f'
    → IsFlagOf f r w
    → IsFlagOf f' ((if b then 0 else 1) + r) ((if b then 1 else 0) + w)
unfolding AppData.cell_borrow
cell_borrow-IsFlagOf false (readers n) f' r w e h = ground arith
cell_borrow-IsFlagOf false writer f' r w e h = cc
cell_borrow-IsFlagOf true (readers zero) f' r w e h = ground arith
cell_borrow-IsFlagOf true (readers (suc n)) f' r w e h = cc
cell_borrow-IsFlagOf true writer f' r w e h = cc

release-IsFlagOf :
    (b : Bool) (f : Flag) (r w : ℕ)
    → IsFlagOf f ((if b then 0 else 1) + r) ((if b then 1 else 0) + w)
    → IsFlagOf (AppData.release f) r w
unfolding AppData.release
release-IsFlagOf true (readers n) r w h = ground arith
release-IsFlagOf false (readers n) r w h = ground arith
release-IsFlagOf true writer r w h = ground arith
release-IsFlagOf false writer r w h = ground arith

module _ (T : Type 0) where
  abbrev pub IsCellOf : Option (AppData.RefCell T) → ℕ → ℕ → Type 0
  IsCellOf none r w = (r ≡ 0) × (w ≡ 0)
  IsCellOf (some c) r w = IsFlagOf c.flag r w

  pub record IsGuarded (w : World.World T) : Type 0 where
    pub counted : w.app_data.borrow_count ≡ length w.guards
    pub flagged :
        (id : ℕ)
        → IsCellOf (w.app_data.container id) (count false id w.guards) (count true id w.guards)

  insert-IsGuarded :
      (id : ℕ) (v : T) (w : World.World T)
      → IsGuarded w
      → IsGuarded (record w { app_data = (AppData.insert T id v w.app_data).0 })
  unfolding AppData.insert
  insert-IsGuarded id v w h = record {
    counted = ground (arith, h.counted);
    flagged = λ k.
        ground
          (arith, h.flagged k, h.counted, count-zero false k w.guards, count-zero true k w.guards);
  }

  remove-IsGuarded :
      (id : ℕ) (w : World.World T)
      → IsGuarded w
      → IsGuarded (record w { app_data = (AppData.remove T id w.app_data).0 })
  unfolding AppData.remove
  remove-IsGuarded id w h = record {
    counted = ground (arith, h.counted);
    flagged = λ k.
        ground
          (arith, h.flagged k, h.counted, count-zero false k w.guards, count-zero true k w.guards);
  }

  borrow-IsGuarded :
      (g : Guard) (w : World.World T)
      → IsGuarded w
      → IsGuarded (record {
        app_data = (AppData.borrow T g.mutably g.id w.app_data).0;
        guards = World.granted T g (AppData.borrow T g.mutably g.id w.app_data).1 w.guards;
      })
  unfolding AppData.borrow
  borrow-IsGuarded g w h = elim (Option-cases (w.app_data.container g.id)) [
    | inl e ↦ record {
      counted = ground (arith, h.counted);
      flagged = λ k. ground (arith, h.flagged k);
    }
    | inr (c, e) ↦ elim (Option-cases (AppData.cell_borrow g.mutably c.flag)) [
      | inl n ↦ record {
        counted = ground (arith, h.counted);
        flagged = λ k. ground (arith, h.flagged k);
      }
      | inr (f, y) ↦ record {
        counted = ground (arith, h.counted);
        flagged = λ k. ground (
          arith,
          h.flagged k,
          e,
          y,
          cell_borrow-IsFlagOf g.mutably c.flag f (count false k w.guards) (count true k w.guards)
              y,
        );
      }
    ]
  ]

  drop-IsGuarded :
      (i : ℕ) (g : Guard) (w : World.World T)
      → get_elem? w.guards i ≡ some g
      → IsGuarded w
      → IsGuarded
          (record { app_data = AppData.drop T g.id w.app_data; guards = remove_nth w.guards i })
  unfolding AppData.drop AppData.set AppData.release_cell
  drop-IsGuarded i g w m h = record {
    counted = ground (arith, h.counted, length-remove_nth w.guards i g m);
    flagged = λ k. ground (
      arith,
      h.flagged k,
      count-remove false k w.guards i g m,
      count-remove true k w.guards i g m,
    );
  }

  write-IsGuarded :
      (i : ℕ) (g : Guard) (v : T) (w : World.World T)
      → IsGuarded w
      → IsGuarded (record w { app_data = AppData.deref_mut T g.id v w.app_data })
  unfolding AppData.deref_mut AppData.set AppData.write_cell
  write-IsGuarded i g v w h = record {
    counted = h.counted;
    flagged = λ k. ground (arith, h.flagged k);
  }

  Step-IsGuarded : {v w : World.World T} → World.Step T v w → IsGuarded v → IsGuarded w
  Step-IsGuarded {v} (World.insert id x) h = insert-IsGuarded id x v h
  Step-IsGuarded {v} (World.remove id) h = remove-IsGuarded id v h
  Step-IsGuarded {v} (World.borrow g) h = borrow-IsGuarded g v h
  Step-IsGuarded {v} (World.drop i g m) h = drop-IsGuarded i g v m h
  Step-IsGuarded {v} (World.write i g x m k) h = write-IsGuarded i g x v h

  -- However the container is used, `borrow` counts the guards that stand, and for each type the
  -- flag of its cell is that of its own guards: any number of readers, or one writer alone, and
  -- none if there is no cell.
  pub Reach-IsGuarded : {w : World.World T} → World.Reach T w → IsGuarded w
  Reach-IsGuarded World.start = record { counted = refl; flagged = λ id. (refl, refl) }
  Reach-IsGuarded (World.next r s) = Step-IsGuarded s (Reach-IsGuarded r)

  -- In a state that can be reached, an insertion hands the data back, and a removal panics, exactly
  -- if some guard stands; otherwise both give the value that was there, and afterwards a borrow
  -- finds the inserted value or nothing.
  pub insert-remove :
      {w : World.World T}
      → World.Reach T w
      → (id : ℕ) (v : T) (b : Bool)
      → ((AppData.try_insert T id v w.app_data).1 ≡ err ↔ w.guards ≢ [])
        × ((AppData.remove T id w.app_data).1 ≡ panics ↔ w.guards ≢ [])
        × (w.guards ≡ []
            → ((AppData.try_borrow T b id (AppData.try_insert T id v w.app_data).0).1 ≡ ok (some v))
              × ((AppData.try_borrow T b id (AppData.remove T id w.app_data).0).1 ≡ ok none)
              × ((AppData.remove T id (AppData.try_insert T id v w.app_data).0).1 ≡ ok (some v))
              × ((AppData.remove T id w.app_data).1
                  ≡ ok (AppData.into_inner T (w.app_data.container id))))
  unfolding AppData.try_insert AppData.remove AppData.try_borrow AppData.cell_borrow
  insert-remove {w} r id v false =
      ground (arith, (Reach-IsGuarded r).counted, none_or_some w.guards)
  insert-remove {w} r id v true = ground (arith, (Reach-IsGuarded r).counted, none_or_some w.guards)

  -- In a state that can be reached, a borrow finds nothing exactly if the type has no value; for
  -- reading it is refused exactly if a guard of that type may write, and for writing exactly if
  -- that type has any guard. The guards of the other types do not matter.
  pub try_borrow_lem :
      {w : World.World T}
      → World.Reach T w
      → (id : ℕ) (b : Bool)
      → ((AppData.try_borrow T b id w.app_data).1 ≡ ok none ↔ w.app_data.container id ≡ none)
        × ((AppData.try_borrow T false id w.app_data).1 ≡ err ↔ 0 < count true id w.guards)
        × ((AppData.try_borrow T true id w.app_data).1 ≡ err
            ↔ 0 < count false id w.guards + count true id w.guards)
  unfolding AppData.try_borrow AppData.cell_borrow
  try_borrow_lem {w} r id false = ground (arith, (Reach-IsGuarded r).flagged id)
  try_borrow_lem {w} r id true = ground (arith, (Reach-IsGuarded r).flagged id)

  -- In a state that can be reached, no step changes or removes a value while a guard that may only
  -- read it stands.
  pub Step-reads :
      {v w : World.World T}
      → World.Reach T v
      → World.Step T v w
      → (id : ℕ) → 0 < count false id v.guards
      → (AppData.into_inner T (w.app_data.container id)
          ≡ AppData.into_inner T (v.app_data.container id))
        × (AppData.into_inner T (v.app_data.container id) ≢ none)
  unfolding AppData.into_inner AppData.insert AppData.remove AppData.borrow AppData.drop AppData.set
      AppData.release_cell AppData.deref_mut AppData.write_cell AppData.cell_borrow
  Step-reads {v} r (World.insert k x) id p = ground (
    arith,
    (Reach-IsGuarded r).flagged id,
    (Reach-IsGuarded r).counted,
    count-zero false id v.guards,
  )
  Step-reads {v} r (World.remove k) id p = ground (
    arith,
    (Reach-IsGuarded r).flagged id,
    (Reach-IsGuarded r).counted,
    count-zero false id v.guards,
  )
  Step-reads r (World.borrow g) id p = ground (arith, (Reach-IsGuarded r).flagged id)
  Step-reads r (World.drop i g m) id p = ground (arith, (Reach-IsGuarded r).flagged id)
  Step-reads {v} r (World.write i g x m k) id p =
      ground (arith, (Reach-IsGuarded r).flagged id, count-remove true id v.guards i g m)
