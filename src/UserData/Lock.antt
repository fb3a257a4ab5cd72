-- ===== src/UserData/Lock.antt =====
-- The trait `UserDataLock` of src/userdata/lock.rs: its operations, and what a cell relies on,
-- said of an abstract view of the lock. Either `RawLock` of that file fills it: the flag of
-- UserData.RawLock, or `parking_lot`'s in the builds with the feature `send`.
use mlua.Base.{ℕ, suc, ◌≡◌, ◌⊎◌, Bool, true, false}

-- How a lock is held: by so many readers, by one writer, or in a way that no sequence of
-- operations leads to.
pub data Held : Type 0 where
  shared : ℕ → Held
  exclusive : Held
  invalid : Held

pub record UserDataLock : Type 1 where
  pub Lock : Type 0
  pub init : Lock
  pub try_lock_shared : Lock → Lock × Bool
  pub try_lock_exclusive : Lock → Lock × Bool
  pub unlock_shared : Lock → Lock
  pub unlock_exclusive : Lock → Lock
  pub view : Lock → Held
  pub init_free : view init ≡ shared 0
  -- A reader may join readers. The lock may turn it away, but not the first one.
  pub shared_joins :
      (l : Lock) (n : ℕ)
      → view l ≡ shared n
      → (((try_lock_shared l).1 ≡ true) × (view (try_lock_shared l).0 ≡ shared (suc n)))
        ⊎ (((try_lock_shared l).1 ≡ false) × (view (try_lock_shared l).0 ≡ shared n))
  pub shared_first : (l : Lock) → view l ≡ shared 0 → (try_lock_shared l).1 ≡ true
  pub shared_barred :
      (l : Lock)
      → view l ≡ exclusive
      → ((try_lock_shared l).1 ≡ false) × (view (try_lock_shared l).0 ≡ exclusive)
  pub exclusive_first :
      (l : Lock)
      → view l ≡ shared 0
      → ((try_lock_exclusive l).1 ≡ true) × (view (try_lock_exclusive l).0 ≡ exclusive)
  pub exclusive_after_readers :
      (l : Lock) (n : ℕ)
      → view l ≡ shared (suc n)
      → ((try_lock_exclusive l).1 ≡ false) × (view (try_lock_exclusive l).0 ≡ shared (suc n))
  pub exclusive_barred :
      (l : Lock)
      → view l ≡ exclusive
      → ((try_lock_exclusive l).1 ≡ false) × (view (try_lock_exclusive l).0 ≡ exclusive)
  pub shared_leaves :
      (l : Lock) (n : ℕ) → view l ≡ shared (suc n) → view (unlock_shared l) ≡ shared n
  pub exclusive_leaves : (l : Lock) → view l ≡ exclusive → view (unlock_exclusive l) ≡ shared 0
