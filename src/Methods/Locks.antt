-- ===== src/Methods/Locks.antt =====
-- The locks of a userdata storage: a borrow that is dropped leaves them as they were, src/userdata/cell.rs.
use mlua.Base.{
  zero, ℕ, suc, ◌+◌, ◌≡◌, ◌≢◌, refl, ◌∙◌, Bool-cases, inl, inr, Option, none, some, arith,
}
use mlua.UserData.Lock.{UserDataLock, Held, shared, exclusive, invalid}
use mlua.UserData.Cell.{Build, Guard, borrow_ref, borrow_mut}
use mlua.UserData.Cell
use mlua.Methods.{Error, Result, ok, err, user_data_borrow_error, user_data_borrow_mut_error}
use mlua.Methods.Call.{
  Foreign, Storage, Acquire, borrow, unborrow, borrowed_cell, borrow_for_writing, borrowed_as,
  drop_scoped,
}

-- What of a storage its locks are: who holds the one of a cell and how many borrow from it, or the `RefCell`.
pub data Locks (C : Type 0) : Type 0 where
  cell : Held → ℕ → Locks C
  no_lock : Locks C
  ref_mut boxed : C → Locks C

abbrev pub locks : {L : UserDataLock} {T C : Type 0} → Storage L T C → Locks C
locks {L} (Storage.owned v) = cell (L.view v.raw_lock) v.borrow_count
locks Storage.scoped_ref = no_lock
locks (Storage.scoped_ref_mut c) = ref_mut c
locks (Storage.scoped_boxed c) = boxed c

-- The lock of a cell is held in a way that its operations lead to.
abbrev pub IsValid : {C : Type 0} → Locks C → Type 0
IsValid (cell h n) = h ≢ invalid
IsValid no_lock = Unit {0}
IsValid (ref_mut c) = Unit {0}
IsValid (boxed c) = Unit {0}

-- Dropping the guard of a lock that was just taken frees it again.
pub record Frees {C I : Type 0} (foreign : Foreign C I) : Type 0 where
  pub drop_ref : (c c' : C) → foreign.try_borrow c ≡ some c' → foreign.drop_ref c' ≡ c
  pub drop_ref_mut : (c c' : C) → foreign.try_borrow_mut c ≡ some c' → foreign.drop_ref_mut c' ≡ c
  pub release : (a : Acquire) (i i' : I) → foreign.acquire a i ≡ some i' → foreign.release a i' ≡ i

module _ (L : UserDataLock) {T C I : Type 0} (foreign : Foreign C I) (b : Build) where
  -- After an attempt to borrow for a guard: a refusal left the locks alone, and a success is undone by
  -- dropping the guard, wherever the locks are as it left them.
  abbrev pub Undone : Guard → Storage L T C → Storage L T C × Result (Unit {0}) → Type 0
  Undone g s (st, err e) = locks s ≡ locks st
  Undone g s (st, ok u) =
      (st' : Storage L T C) → locks st ≡ locks st' → locks s ≡ locks (unborrow L foreign b g st')

  abbrev of_cell : Cell.Variant L T → Locks C
  of_cell v = cell (L.view v.raw_lock) v.borrow_count

  cell-Undone :
      (g : Guard) (v v' : Cell.Variant L T)
      → ((u : Cell.Variant L T)
          → of_cell v' ≡ of_cell u
          → of_cell v ≡ of_cell (Cell.drop L T b g u))
      → (st : Storage L T C) → of_cell v' ≡ locks st
      → of_cell v ≡ locks (unborrow L foreign b g st)
  unfolding unborrow
  cell-Undone g v v' h (Storage.owned u) e = h u e
  cell-Undone g v v' h Storage.scoped_ref e = cc
  cell-Undone g v v' h (Storage.scoped_ref_mut c) e = cc
  cell-Undone g v v' h (Storage.scoped_boxed c) e = cc

  readers-leave :
      (v v' u : Cell.Variant L T) (n : ℕ)
      → L.view v.raw_lock ≡ shared n
      → L.view v'.raw_lock ≡ shared (suc n)
      → v'.borrow_count ≡ v.borrow_count + 1
      → of_cell v' ≡ of_cell u
      → of_cell v ≡ of_cell (Cell.drop L T b borrow_ref u)
  unfolding Cell.drop
  readers-leave v v' u n h k e same = ground (arith, L.shared_leaves u.raw_lock n)

  writer-leaves :
      (v v' u : Cell.Variant L T)
      → L.view v.raw_lock ≡ shared 0
      → L.view v'.raw_lock ≡ exclusive
      → v'.borrow_count ≡ v.borrow_count + 1
      → of_cell v' ≡ of_cell u
      → of_cell v ≡ of_cell (Cell.drop L T b borrow_mut u)
  unfolding Cell.drop
  writer-leaves v v' u h k e same = ground (arith, L.exclusive_leaves u.raw_lock)

  -- A borrow of a cell that gets its lock changes it as given, and one that does not leaves it.
  abbrev Attempt : Guard → Cell.Variant L T → Cell.Variant L T × Cell.Result Guard → Type 0
  Attempt g v (v', Cell.ok g') =
      (u : Cell.Variant L T) → of_cell v' ≡ of_cell u → of_cell v ≡ of_cell (Cell.drop L T b g u)
  Attempt g v (v', Cell.err e) = of_cell v ≡ of_cell v'
  Attempt g v (v', Cell.panics) = of_cell v ≡ of_cell v'

  Attempt-Undone :
      (g : Guard) (v : Cell.Variant L T) (r : Cell.Variant L T × Cell.Result Guard)
      → Attempt g v r
      → Undone g (Storage.owned v) (borrowed_cell r)
  unfolding borrowed_cell
  Attempt-Undone g v (v', Cell.ok g') h = cell-Undone g v v' h
  Attempt-Undone g v (v', Cell.err e) h = h
  Attempt-Undone g v (v', Cell.panics) h = h

  try_from-read :
      (v : Cell.Variant L T) (h : Held)
      → L.view v.raw_lock ≡ h
      → h ≢ invalid
      → Attempt borrow_ref v (Cell.try_from L T b borrow_ref v)
  unfolding Cell.try_from
  try_from-read v (shared n) h valid = elim (Bool-cases (L.try_lock_shared v.raw_lock).1) [
    | inl e ↦
        rw (e, Cell.try_from)
          λ u same.
            readers-leave v (Cell.try_from L T b borrow_ref v).0 u n h
              (ground (arith, L.shared_joins v.raw_lock n h)) (ground arith) same
    | inr e ↦ rw (e, Cell.try_from) (ground (arith, L.shared_joins v.raw_lock n h))
  ]
  try_from-read v exclusive h valid =
      rw ((L.shared_barred v.raw_lock h).0, Cell.try_from)
        (ground (arith, L.shared_barred v.raw_lock h))
  try_from-read v invalid h valid = absurd (valid refl)

  try_from-write :
      (v : Cell.Variant L T) (h : Held)
      → L.view v.raw_lock ≡ h
      → h ≢ invalid
      → Attempt borrow_mut v (Cell.try_from L T b borrow_mut v)
  unfolding Cell.try_from
  try_from-write v (shared zero) h valid =
      rw ((L.exclusive_first v.raw_lock h).0, Cell.try_from)
        λ u same.
          writer-leaves v (Cell.try_from L T b borrow_mut v).0 u h
            (ground (arith, L.exclusive_first v.raw_lock h))
            (ground (arith, L.exclusive_first v.raw_lock h)) same
  try_from-write v (shared (suc n)) h valid =
      rw ((L.exclusive_after_readers v.raw_lock n h).0, Cell.try_from)
        (ground (arith, L.exclusive_after_readers v.raw_lock n h))
  try_from-write v exclusive h valid =
      rw ((L.exclusive_barred v.raw_lock h).0, Cell.try_from)
        (ground (arith, L.exclusive_barred v.raw_lock h))
  try_from-write v invalid h valid = absurd (valid refl)

module _ (L : UserDataLock) (T : Type 0) {C I : Type 0} (foreign : Foreign C I) (b : Build) where
  scoped_ref_mut-left :
      (g : Guard) (c c' : C) (st : Storage L T C)
      → drop_scoped foreign g c' ≡ c
      → ref_mut c' ≡ locks st
      → ref_mut c ≡ locks (unborrow L foreign b g st)
  unfolding unborrow
  scoped_ref_mut-left g c c' (Storage.scoped_ref_mut d) h same = cc
  scoped_ref_mut-left g c c' (Storage.owned v) h same = cc
  scoped_ref_mut-left g c c' Storage.scoped_ref h same = cc
  scoped_ref_mut-left g c c' (Storage.scoped_boxed d) h same = cc

  scoped_ref_mut-Undone :
      (g : Guard) (e : Error) (c : C) (r : Option C)
      → ((c' : C) → r ≡ some c' → drop_scoped foreign g c' ≡ c)
      → Undone L {T = T} foreign b g
          (Storage.scoped_ref_mut c)
          (borrowed_as Storage.scoped_ref_mut e c r)
  unfolding borrowed_as
  scoped_ref_mut-Undone g e c none h = refl
  scoped_ref_mut-Undone g e c (some c') h = λ st. scoped_ref_mut-left g c c' st (h c' refl)

  scoped_boxed-left :
      (g : Guard) (c c' : C) (st : Storage L T C)
      → drop_scoped foreign g c' ≡ c
      → boxed c' ≡ locks st
      → boxed c ≡ locks (unborrow L foreign b g st)
  unfolding unborrow
  scoped_boxed-left g c c' (Storage.scoped_boxed d) h same = cc
  scoped_boxed-left g c c' (Storage.owned v) h same = cc
  scoped_boxed-left g c c' Storage.scoped_ref h same = cc
  scoped_boxed-left g c c' (Storage.scoped_ref_mut d) h same = cc

  scoped_boxed-Undone :
      (g : Guard) (e : Error) (c : C) (r : Option C)
      → ((c' : C) → r ≡ some c' → drop_scoped foreign g c' ≡ c)
      → Undone L {T = T} foreign b g
          (Storage.scoped_boxed c)
          (borrowed_as Storage.scoped_boxed e c r)
  unfolding borrowed_as
  scoped_boxed-Undone g e c none h = refl
  scoped_boxed-Undone g e c (some c') h = λ st. scoped_boxed-left g c c' st (h c' refl)

module _ (L : UserDataLock) {T C I : Type 0} (foreign : Foreign C I) (b : Build) where
  scoped_ref-Undone :
      (st : Storage L T C)
      → no_lock ≡ locks st
      → locks st ≡ locks (unborrow L foreign b borrow_ref st)
  unfolding unborrow
  scoped_ref-Undone Storage.scoped_ref same = refl
  scoped_ref-Undone (Storage.owned v) same = cc
  scoped_ref-Undone (Storage.scoped_ref_mut d) same = cc
  scoped_ref-Undone (Storage.scoped_boxed d) same = cc

  pub borrow-Undone :
      Frees foreign
      → (s : Storage L T C) → IsValid (locks s)
      → Undone L foreign b borrow_ref s (borrow L foreign b s)
  unfolding borrow drop_scoped
  borrow-Undone f (Storage.owned v) valid =
      Attempt-Undone L foreign b borrow_ref v (Cell.try_from L T b borrow_ref v)
        (try_from-read L foreign b v (L.view v.raw_lock) refl valid)
  borrow-Undone f Storage.scoped_ref valid = λ st same. same ∙ scoped_ref-Undone st same
  borrow-Undone f (Storage.scoped_ref_mut c) valid =
      scoped_ref_mut-Undone L T foreign b borrow_ref user_data_borrow_error c (foreign.try_borrow c)
        (f.drop_ref c)
  borrow-Undone f (Storage.scoped_boxed c) valid =
      scoped_boxed-Undone L T foreign b borrow_ref user_data_borrow_error c (foreign.try_borrow c)
        (f.drop_ref c)

  pub borrow_for_writing-Undone :
      Frees foreign
      → (s : Storage L T C) → IsValid (locks s)
      → Undone L foreign b borrow_mut s (borrow_for_writing L foreign b s)
  unfolding borrow_for_writing drop_scoped
  borrow_for_writing-Undone f (Storage.owned v) valid =
      Attempt-Undone L foreign b borrow_mut v (Cell.try_from L T b borrow_mut v)
        (try_from-write L foreign b v (L.view v.raw_lock) refl valid)
  borrow_for_writing-Undone f Storage.scoped_ref valid = refl
  borrow_for_writing-Undone f (Storage.scoped_ref_mut c) valid =
      scoped_ref_mut-Undone L T foreign b borrow_mut user_data_borrow_mut_error c
        (foreign.try_borrow_mut c) (f.drop_ref_mut c)
  borrow_for_writing-Undone f (Storage.scoped_boxed c) valid =
      scoped_boxed-Undone L T foreign b borrow_mut user_data_borrow_mut_error c
        (foreign.try_borrow_mut c) (f.drop_ref_mut c)
