-- ===== src/UserData/Cell.antt =====
-- src/userdata/cell.rs: `UserDataVariant`, the four ways to borrow from it and the storage around
-- it, over any lock of the trait. The reference count of `XRc` is the field `strong`.
use mlua.Base.{
  ℕ, suc, ◌+◌, ◌-◌, Bool, true, false, ◌||◌, not, Option, none, some, ltb, ◌==◌, if◌then◌else◌,
}
use mlua.UserData.Lock.{UserDataLock}

pub data Error : Type 0 where
  user_data_borrow_error user_data_borrow_mut_error user_data_type_mismatch : Error

-- `into_inner` may also panic, where it unwraps `XRc::into_inner`.
pub data Result (A : Type 0) : Type 0 where
  ok : A → Result A
  err : Error → Result A
  panics : Result A

-- The guards: `UserDataRef` and `UserDataRefMut`, which own a reference to the cell, and
-- `UserDataBorrowRef` and `UserDataBorrowMut`, which borrow the one in Lua.
pub data Guard : Type 0 where
  owned_ref owned_ref_mut borrow_ref borrow_mut : Guard

-- `!cfg!(feature = "send") || is_sync::<T>()`
pub record Build : Type 0 where
  pub send : Bool
  pub is_sync : Bool

abbrev pub shares : Build → Bool
shares b = not b.send || b.is_sync

-- The lock that a guard takes.
unfoldable pub takes_shared : Build → Guard → Bool
takes_shared b owned_ref = shares b
takes_shared b owned_ref_mut = false
takes_shared b borrow_ref = true
takes_shared b borrow_mut = false

-- What each guard reports when its lock is refused.
unfoldable pub refusal : Guard → Error
refusal owned_ref = user_data_borrow_error
refusal owned_ref_mut = user_data_borrow_mut_error
refusal borrow_ref = user_data_borrow_error
refusal borrow_mut = user_data_borrow_mut_error

module _ (L : UserDataLock) (T : Type 0) where
  open L use {Lock, init, try_lock_shared, try_lock_exclusive, unlock_shared, unlock_exclusive}

  -- `serializable` tells the two variants, which differ only in how they box the value.
  pub record Variant : Type 0 where
    pub raw_lock : Lock
    pub borrow_count : ℕ
    pub value : T
    pub strong : ℕ
    pub serializable : Bool

  unfoldable pub new : T → Bool → Variant
  new value serializable = record {
    raw_lock = init;
    borrow_count = 0;
    value = value;
    strong = 1;
    serializable = serializable;
  }

  unfoldable pub lock : Bool → Lock → Lock × Bool
  lock true l = try_lock_shared l
  lock false l = try_lock_exclusive l

  unfoldable pub unlock : Bool → Lock → Lock
  unlock true l = unlock_shared l
  unlock false l = unlock_exclusive l

  -- What a guard that has its lock adds: an owned one keeps its clone of the `XRc`, an in-place one
  -- is counted. The clone of an owned guard that gets no lock is dropped again.
  unfoldable pub charge : Guard → Variant → Variant
  charge owned_ref v = record v { strong = suc v.strong }
  charge owned_ref_mut v = record v { strong = suc v.strong }
  charge borrow_ref v = record v { borrow_count = v.borrow_count + 1 }
  charge borrow_mut v = record v { borrow_count = v.borrow_count + 1 }

  unfoldable pub discharge : Guard → Variant → Variant
  discharge owned_ref v = record v { strong = v.strong - 1 }
  discharge owned_ref_mut v = record v { strong = v.strong - 1 }
  discharge borrow_ref v = record v { borrow_count = v.borrow_count - 1 }
  discharge borrow_mut v = record v { borrow_count = v.borrow_count - 1 }

  -- `try_from` of each guard, which `try_borrow`, `try_borrow_owned`, `try_borrow_mut` and
  -- `try_borrow_owned_mut` call.
  unfoldable pub try_from : Build → Guard → Variant → Variant × Result Guard
  unfolding takes_shared lock refusal charge
  try_from b g v =
      let (l, locked) = lock (takes_shared b g) v.raw_lock in
      let v' : Variant = record v { raw_lock = l } in
      if locked then (charge g v', ok g) else (v', err (refusal g))

  -- `Drop` of each guard.
  unfoldable pub drop : Build → Guard → Variant → Variant
  unfolding takes_shared unlock discharge
  drop b g v =
      let v' : Variant = discharge g v in
      record v' { raw_lock = unlock (takes_shared b g) v'.raw_lock }

  -- `into_inner`, with the reference that Lua held: `none` stands for the variant, which is consumed also
  -- where its lock is refused.
  unfoldable pub into_inner : Variant → Option Variant × Result T
  into_inner v =
      let (l, locked) = try_lock_exclusive v.raw_lock in
      if locked
      then (if v.strong == 1 then (none, ok v.value) else (none, panics))
      else (none, err user_data_borrow_mut_error)

  -- `AnyUserData::take` (src/userdata.rs), for a userdata of the right type: the value must be
  -- borrowable for writing, and that borrow ends before the value is taken.
  unfoldable pub take : Build → Variant → Option Variant × Result T
  unfolding try_from drop into_inner
  take b v =
      let (v', r) = try_from b borrow_mut v in
      elim r [
        | ok g ↦ into_inner (drop b g v')
        | err e ↦ (some v', err e)
        | panics ↦ (some v', panics)
      ]

  -- The storage in the Lua userdata. Scoped values are borrowed by other operations.
  pub data Storage : Type 0 where
    owned : Variant → Storage
    scoped : Storage

  unfoldable pub storage_try_from : Build → Guard → Storage → Storage × Result Guard
  unfolding try_from
  storage_try_from b g (owned v) = let (v', r) = try_from b g v in (owned v', r)
  storage_try_from b g scoped = (scoped, err user_data_type_mismatch)

  unfoldable pub is_borrowed : Storage → Bool
  is_borrowed (owned v) = ltb 0 v.borrow_count
  is_borrowed scoped = true

  -- `userdata_destructor` (src/userdata/util.rs): takes the storage out of the userdata, and so
  -- drops Lua's reference, unless the value is borrowed in place. The flag is what it returns.
  unfoldable pub userdata_destructor : Storage → Storage × Bool
  unfolding is_borrowed
  userdata_destructor scoped = (scoped, false)
  userdata_destructor (owned v) =
      if ltb 0 v.borrow_count
      then (owned v, false)
      else (owned (record v { strong = v.strong - 1 }), true)
