-- ===== src/UserData/RawLock.antt =====
-- `RawLock` without the feature `send` (src/userdata/lock.rs): a `Cell<isize>`, positive for the
-- number of readers, negative for a writer. The flag is an `isize` pattern (Base.Word).
use mlua.Base.{ℕ, suc, ◌≡◌, ◌⊎◌, refl, Bool, true, false, arith, ltb, leb, ◌==◌, if◌then◌else◌, ◌<◌}
use mlua.Base.Word.{modulus, isize_max, add_isize, sub_isize, le_isize}
use mlua.UserData.Lock.{Held, shared, exclusive, invalid, UserDataLock}

-- `UNUSED`, the initial flag, and `UNUSED - 1`.
abbrev pub unused : ℕ
unused = 0

abbrev pub writing : ℕ
writing = 18446744073709551615

unfoldable pub try_lock_shared : ℕ → ℕ × Bool
try_lock_shared l =
    let flag = add_isize l 1 in if le_isize flag unused then (l, false) else (flag, true)

unfoldable pub try_lock_exclusive : ℕ → ℕ × Bool
try_lock_exclusive l = if l == unused then (sub_isize unused 1, true) else (l, false)

unfoldable pub unlock_shared : ℕ → ℕ
unlock_shared l = sub_isize l 1

unfoldable pub unlock_exclusive : ℕ → ℕ
unlock_exclusive l = add_isize l 1

abbrev pub view : ℕ → Held
view l = if l == writing then exclusive else if leb l isize_max then shared l else invalid

pub shared_joins_lem :
    (l n : ℕ)
    → view l ≡ shared n
    → (((try_lock_shared l).1 ≡ true) × (view (try_lock_shared l).0 ≡ shared (suc n)))
      ⊎ (((try_lock_shared l).1 ≡ false) × (view (try_lock_shared l).0 ≡ shared n))
unfolding try_lock_shared
shared_joins_lem l n h = ground arith

pub shared_first_lem : (l : ℕ) → view l ≡ shared 0 → (try_lock_shared l).1 ≡ true
unfolding try_lock_shared
shared_first_lem l h = ground arith

pub shared_barred_lem :
    (l : ℕ)
    → view l ≡ exclusive
    → ((try_lock_shared l).1 ≡ false) × (view (try_lock_shared l).0 ≡ exclusive)
unfolding try_lock_shared
shared_barred_lem l h = ground arith

pub exclusive_first_lem :
    (l : ℕ)
    → view l ≡ shared 0
    → ((try_lock_exclusive l).1 ≡ true) × (view (try_lock_exclusive l).0 ≡ exclusive)
unfolding try_lock_exclusive
exclusive_first_lem l h = ground arith

pub exclusive_after_readers_lem :
    (l n : ℕ)
    → view l ≡ shared (suc n)
    → ((try_lock_exclusive l).1 ≡ false) × (view (try_lock_exclusive l).0 ≡ shared (suc n))
unfolding try_lock_exclusive
exclusive_after_readers_lem l n h = ground arith

pub exclusive_barred_lem :
    (l : ℕ)
    → view l ≡ exclusive
    → ((try_lock_exclusive l).1 ≡ false) × (view (try_lock_exclusive l).0 ≡ exclusive)
unfolding try_lock_exclusive
exclusive_barred_lem l h = ground arith

pub shared_leaves_lem : (l n : ℕ) → view l ≡ shared (suc n) → view (unlock_shared l) ≡ shared n
unfolding unlock_shared
shared_leaves_lem l n h = ground arith

pub exclusive_leaves_lem : (l : ℕ) → view l ≡ exclusive → view (unlock_exclusive l) ≡ shared 0
unfolding unlock_exclusive
exclusive_leaves_lem l h = ground arith

-- The flag implements the lock.
abbrev pub raw_lock : UserDataLock
raw_lock = record {
  Lock = ℕ;
  init = unused;
  try_lock_shared = try_lock_shared;
  try_lock_exclusive = try_lock_exclusive;
  unlock_shared = unlock_shared;
  unlock_exclusive = unlock_exclusive;
  view = view;
  init_free = refl;
  shared_joins = shared_joins_lem;
  shared_first = shared_first_lem;
  shared_barred = shared_barred_lem;
  exclusive_first = exclusive_first_lem;
  exclusive_after_readers = exclusive_after_readers_lem;
  exclusive_barred = exclusive_barred_lem;
  shared_leaves = shared_leaves_lem;
  exclusive_leaves = exclusive_leaves_lem;
}

-- A reader is admitted exactly when the flag is that of fewer than `isize::MAX` readers, and a
-- writer exactly when nobody holds the lock; each is counted, and who is turned away changes
-- nothing.
pub try_lock-eq :
    (l : ℕ)
    → l < modulus
    → (try_lock_shared l ≡ (if ltb l isize_max then (suc l, true) else (l, false)))
      × (try_lock_exclusive l ≡ (if l == 0 then (writing, true) else (l, false)))
unfolding try_lock_shared try_lock_exclusive
try_lock-eq l h = ground arith

-- Unlocking undoes locking.
pub unlock-try_lock :
    (l : ℕ)
    → l < modulus
    → ((try_lock_shared l).1 ≡ true → unlock_shared (try_lock_shared l).0 ≡ l)
      × ((try_lock_exclusive l).1 ≡ true → unlock_exclusive (try_lock_exclusive l).0 ≡ l)
unfolding try_lock_shared try_lock_exclusive unlock_shared unlock_exclusive
unlock-try_lock l h = ground arith
