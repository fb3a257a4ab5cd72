-- ===== src/UserData/Tests.antt =====
-- The theorems on userdata at concrete cells, over the flag of `RawLock`.
use mlua.Base.{ℕ, ◌≡◌, refl, false, [], ◌∷◌, none}
use mlua.UserData.RawLock.{raw_lock, try_lock_shared, try_lock_exclusive}
use mlua.UserData.Cell.{Build, Guard, owned_ref, owned_ref_mut, borrow_ref, borrow_mut, ok, err}
use mlua.UserData.Cell
use mlua.UserData.World
use mlua.UserData.Aliasing

abbrev local_build : Build
local_build = record { send = false; is_sync = false }

abbrev World' : Type 0
World' = World.World raw_lock ℕ

abbrev fresh : World'
unfolding Cell.new
fresh = record { cell = Cell.new raw_lock ℕ 7 false; guards = [] }

-- Two readers of a cell with the value 7: one owned, one in place.
abbrev read_twice : World'
read_twice = record {
  cell = record { raw_lock = 2; borrow_count = 1; value = 7; strong = 2; serializable = false };
  guards = borrow_ref ∷ owned_ref ∷ [];
}

abbrev written : World'
written = record {
  cell = record {
    raw_lock = 18446744073709551615;
    borrow_count = 0;
    value = 7;
    strong = 2;
    serializable = false;
  };
  guards = owned_ref_mut ∷ [];
}

fresh-Reach : World.Reach raw_lock ℕ local_build fresh
unfolding fresh
fresh-Reach = World.start 7 false

read_twice-Reach : World.Reach raw_lock ℕ local_build read_twice
unfolding Cell.new Cell.try_from try_lock_shared
read_twice-Reach =
    World.next (World.next (World.start 7 false) (World.borrow owned_ref)) (World.borrow borrow_ref)

written-Reach : World.Reach raw_lock ℕ local_build written
unfolding Cell.new Cell.try_from try_lock_exclusive
written-Reach = World.next (World.start 7 false) (World.borrow owned_ref_mut)

Reach-Inv_example : Aliasing.Inv raw_lock ℕ local_build read_twice
Reach-Inv_example = Aliasing.Reach-Inv raw_lock ℕ read_twice-Reach

writer_alone_example : written.guards ≡ owned_ref_mut ∷ []
writer_alone_example = Aliasing.writer_alone raw_lock ℕ written-Reach 0 owned_ref_mut refl refl

take_lem_example : Cell.take raw_lock ℕ local_build fresh.cell ≡ (none, ok 7)
unfolding fresh
take_lem_example = (Aliasing.take_lem raw_lock ℕ fresh-Reach).0 refl

-- A value that `take` refuses while a reader stands.
take_refused :
    (Cell.take raw_lock ℕ local_build read_twice.cell).1 ≡ err Cell.user_data_borrow_mut_error
unfolding Cell.take try_lock_exclusive
take_refused = refl
