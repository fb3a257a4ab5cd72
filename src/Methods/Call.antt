-- ===== src/Methods/Call.antt =====
-- `box_method` and its like, src/userdata/registry.rs, and `try_borrow_scoped`, src/userdata/cell.rs: what a
-- callback does with the locks around a userdata.
use mlua.Base.{ℕ, Bool, true, false, Option, none, some, ◌==◌, if◌then◌else◌}
use mlua.UserData.Lock.{UserDataLock}
use mlua.UserData.Cell.{Build, Guard, borrow_ref, borrow_mut, owned_ref, owned_ref_mut}
use mlua.UserData.Cell
use mlua.Methods.{
  UserDataTypeId, shared, unique, rc, rc_ref_cell, arc, arc_mutex, arc_rw_lock,
  arc_parking_lot_mutex, arc_parking_lot_rw_lock, FunctionName, Error, missing_argument,
  user_data_type_mismatch, user_data_borrow_error, user_data_borrow_mut_error,
  recursive_mut_callback, Result, ok, err, and_then, try_self_arg, bad_self_argument,
}

-- How the callbacks enter the lock in a wrapper.
pub data Acquire : Type 0 where
  ref_cell_try_borrow ref_cell_try_borrow_mut : Acquire
  mutex_try_lock rw_lock_try_read rw_lock_try_write : Acquire
  parking_lot_mutex_try_lock parking_lot_rw_lock_try_read parking_lot_rw_lock_try_write : Acquire

-- The locks of the standard library and of `parking_lot`: `RefCell`, of which a scoped userdata has one,
-- and those of the wrappers. An attempt gives the locked state; the others are the drops of the guards.
pub record Foreign (C I : Type 0) : Type 0 where
  pub try_borrow : C → Option C
  pub try_borrow_mut : C → Option C
  pub drop_ref : C → C
  pub drop_ref_mut : C → C
  pub acquire : Acquire → I → Option I
  pub release : Acquire → I → I

module _ (L : UserDataLock) (T C : Type 0) where
  -- `UserDataStorage` with `ScopedUserDataVariant`.
  pub data Storage : Type 0 where
    owned : Cell.Variant L T → Storage
    scoped_ref : Storage
    scoped_ref_mut scoped_boxed : C → Storage

-- The userdata that is called on with its storage, the lock in its wrapper, whether the `RefCell` around
-- a mutable function is borrowed, and all the rest.
pub record World (L : UserDataLock) (T C I W : Type 0) : Type 0 where
  pub storage : Storage L T C
  pub inner : I
  pub method_borrowed : Bool
  pub rest : W

-- A user's function as the callback uses it: the conversion of the arguments, the function itself, what
-- pushing its results does, and the drop of arguments that it was not given.
pub record Method (S A R : Type 0) : Type 0 where
  pub from_stack_args : S → S × Result A
  pub call : A → S → S × Result R
  pub push_into_stack_multi : R → Result ℕ
  pub drop_args : A → S → S

-- What is on the stack for `self`: its address, and what `get_userdata_type_id` says of it.
pub record SelfArg : Type 0 where
  pub ptr : ℕ
  pub get_userdata_type_id : Result (Option ℕ)

unfoldable pub is_type : ℕ → Option ℕ → Bool
is_type target none = false
is_type target (some t) = t == target

-- The guard of a `match` arm for a registered type.
unfoldable pub is_registered : FunctionName → SelfArg → ℕ → Result Bool
unfolding is_type try_self_arg and_then
is_registered name self target =
    and_then (try_self_arg name self.get_userdata_type_id) (λ t. ok (is_type target t))

unfoldable pub matches : FunctionName → SelfArg → UserDataTypeId → Result Bool
unfolding is_registered
matches name self (shared t) = is_registered name self t
matches name self (unique ptr) = ok (self.ptr == ptr)
matches name self (rc t) = is_registered name self t
matches name self (rc_ref_cell t) = is_registered name self t
matches name self (arc t) = is_registered name self t
matches name self (arc_mutex t) = is_registered name self t
matches name self (arc_rw_lock t) = is_registered name self t
matches name self (arc_parking_lot_mutex t) = is_registered name self t
matches name self (arc_parking_lot_rw_lock t) = is_registered name self t

unfoldable pub from_cell : Cell.Error → Error
from_cell Cell.user_data_borrow_error = user_data_borrow_error
from_cell Cell.user_data_borrow_mut_error = user_data_borrow_mut_error
from_cell Cell.user_data_type_mismatch = user_data_type_mismatch

-- The storage with its lock taken, or as a failed attempt leaves it.
unfoldable pub borrowed_as : {C X : Type 0} → (C → X) → Error → C → Option C → X × Result (Unit {0})
borrowed_as put e c none = (put c, err e)
borrowed_as put e c (some c') = (put c', ok tt)

unfoldable pub borrowed_cell :
    {L : UserDataLock} {T C : Type 0}
    → Cell.Variant L T × Cell.Result Guard
    → Storage L T C × Result (Unit {0})
unfolding from_cell
borrowed_cell (v, Cell.ok g) = (owned v, ok tt)
borrowed_cell (v, Cell.err e) = (owned v, err (from_cell e))
borrowed_cell (v, Cell.panics) = (owned v, err user_data_type_mismatch)

-- The drop of the `Ref` or `RefMut` of a scoped userdata.
unfoldable pub drop_scoped : {C I : Type 0} → Foreign C I → Guard → C → C
drop_scoped foreign borrow_mut c = foreign.drop_ref_mut c
drop_scoped foreign g c = foreign.drop_ref c

module _ (L : UserDataLock) {T C I : Type 0} (foreign : Foreign C I) (b : Build) where
  -- The locks that `try_borrow_scoped` and `try_borrow_scoped_mut` take.
  unfoldable pub borrow : Storage L T C → Storage L T C × Result (Unit {0})
  unfolding borrowed_as borrowed_cell
  borrow (owned v) = borrowed_cell (Cell.try_from L T b borrow_ref v)
  borrow scoped_ref = (scoped_ref, ok tt)
  borrow (scoped_ref_mut c) =
      borrowed_as scoped_ref_mut user_data_borrow_error c (foreign.try_borrow c)
  borrow (scoped_boxed c) = borrowed_as scoped_boxed user_data_borrow_error c (foreign.try_borrow c)

  unfoldable pub borrow_for_writing : Storage L T C → Storage L T C × Result (Unit {0})
  unfolding borrowed_as borrowed_cell
  borrow_for_writing (owned v) = borrowed_cell (Cell.try_from L T b borrow_mut v)
  borrow_for_writing scoped_ref = (scoped_ref, err user_data_borrow_mut_error)
  borrow_for_writing (scoped_ref_mut c) =
      borrowed_as scoped_ref_mut user_data_borrow_mut_error c (foreign.try_borrow_mut c)
  borrow_for_writing (scoped_boxed c) =
      borrowed_as scoped_boxed user_data_borrow_mut_error c (foreign.try_borrow_mut c)

  -- The guard of such a borrow is dropped.
  unfoldable pub unborrow : Guard → Storage L T C → Storage L T C
  unfolding drop_scoped
  unborrow g (owned v) = owned (Cell.drop L T b g v)
  unborrow g scoped_ref = scoped_ref
  unborrow g (scoped_ref_mut c) = scoped_ref_mut (drop_scoped foreign g c)
  unborrow g (scoped_boxed c) = scoped_boxed (drop_scoped foreign g c)

module _ (L : UserDataLock) {T C I W A R : Type 0} (foreign : Foreign C I) (b : Build)
    (method : Method (World L T C I W) A R) where
  unfoldable pub dropped : Result A → World L T C I W → World L T C I W
  dropped (ok a) w = method.drop_args a w
  dropped (err e) w = w

  -- `method(lua, ud, args?)?.push_into_stack_multi(rawlua)`
  unfoldable pub run : Result A → World L T C I W → World L T C I W × Result ℕ
  unfolding and_then
  run (err e) w = (w, err e)
  run (ok a) w = let (w', r) = method.call a w in (w', and_then r method.push_into_stack_multi)

  -- The closures of `try_borrow_scoped` for a wrapper: the lock in it is entered first.
  unfoldable pub entered :
      Acquire → Error → Result A → World L T C I W → Option I → World L T C I W × Result ℕ
  unfolding run dropped
  entered acquire e args w none = (dropped args w, err e)
  entered acquire e args w (some i) =
      let (w', r) = run args (record w { inner = i }) in
      (record w' { inner = foreign.release acquire w'.inner }, r)

  unfoldable pub through : Acquire → Error → Result A → World L T C I W → World L T C I W × Result ℕ
  unfolding entered
  through acquire e args w = entered acquire e args w (foreign.acquire acquire w.inner)

  -- What follows an attempt to borrow: a failure is one of the self argument, and drops the closure.
  unfoldable pub scoped :
      FunctionName
      → Guard
      → (Result A → World L T C I W → World L T C I W × Result ℕ)
      → Result A
      → World L T C I W
      → Storage L T C × Result (Unit {0})
      → World L T C I W × Result ℕ
  unfolding unborrow dropped
  scoped name g f args w (st, err e) =
      (dropped args (record w { storage = st }), err (bad_self_argument name e))
  scoped name g f args w (st, ok u) =
      let (w', r) = f args (record w { storage = st }) in
      (record w' { storage = unborrow L foreign b g w'.storage }, r)

  -- `try_self_arg!((*ud).try_borrow_scoped(f))`, and the same with `try_borrow_scoped_mut`.
  unfoldable pub try_borrow_scoped :
      FunctionName
      → (Result A → World L T C I W → World L T C I W × Result ℕ)
      → Result A
      → World L T C I W
      → World L T C I W × Result ℕ
  unfolding borrow scoped
  try_borrow_scoped name f args w = scoped name borrow_ref f args w (borrow L foreign b w.storage)

  unfoldable pub try_borrow_scoped_mut :
      FunctionName
      → (Result A → World L T C I W → World L T C I W × Result ℕ)
      → Result A
      → World L T C I W
      → World L T C I W × Result ℕ
  unfolding borrow_for_writing scoped
  try_borrow_scoped_mut name f args w =
      scoped name borrow_mut f args w (borrow_for_writing L foreign b w.storage)

  -- The arms of the `match` in `box_method`, once their guard holds.
  unfoldable pub arm :
      FunctionName → UserDataTypeId → Result A → World L T C I W → World L T C I W × Result ℕ
  unfolding try_borrow_scoped run through
  arm name (shared t) = try_borrow_scoped name run
  arm name (unique ptr) = try_borrow_scoped name run
  arm name (rc t) = try_borrow_scoped name run
  arm name (rc_ref_cell t) =
      try_borrow_scoped name (through ref_cell_try_borrow user_data_borrow_error)
  arm name (arc t) = try_borrow_scoped name run
  arm name (arc_mutex t) = try_borrow_scoped name (through mutex_try_lock user_data_borrow_error)
  arm name (arc_rw_lock t) =
      try_borrow_scoped name (through rw_lock_try_read user_data_borrow_error)
  arm name (arc_parking_lot_mutex t) =
      try_borrow_scoped name (through parking_lot_mutex_try_lock user_data_borrow_error)
  arm name (arc_parking_lot_rw_lock t) =
      try_borrow_scoped name (through parking_lot_rw_lock_try_read user_data_borrow_error)

  -- Those in `box_method_mut`.
  unfoldable pub arm_mut :
      FunctionName → UserDataTypeId → Result A → World L T C I W → World L T C I W × Result ℕ
  unfolding try_borrow_scoped try_borrow_scoped_mut run through dropped
  arm_mut name (shared t) = try_borrow_scoped_mut name run
  arm_mut name (unique ptr) = try_borrow_scoped_mut name run
  arm_mut name (rc t) = λ args w. (dropped args w, err user_data_borrow_mut_error)
  arm_mut name (rc_ref_cell t) =
      try_borrow_scoped name (through ref_cell_try_borrow_mut user_data_borrow_mut_error)
  arm_mut name (arc t) = λ args w. (dropped args w, err user_data_borrow_mut_error)
  arm_mut name (arc_mutex t) =
      try_borrow_scoped name (through mutex_try_lock user_data_borrow_mut_error)
  arm_mut name (arc_rw_lock t) =
      try_borrow_scoped name (through rw_lock_try_write user_data_borrow_mut_error)
  arm_mut name (arc_parking_lot_mutex t) =
      try_borrow_scoped name (through parking_lot_mutex_try_lock user_data_borrow_mut_error)
  arm_mut name (arc_parking_lot_rw_lock t) =
      try_borrow_scoped name (through parking_lot_rw_lock_try_write user_data_borrow_mut_error)

  -- The `match`: the arm of the target if its guard holds, else the last one.
  unfoldable pub selected :
      FunctionName
      → (Result A → World L T C I W → World L T C I W × Result ℕ)
      → Result A
      → World L T C I W
      → Result Bool
      → World L T C I W × Result ℕ
  unfolding dropped
  selected name f args w (err e) = (dropped args w, err e)
  selected name f args w (ok true) = f args w
  selected name f args w (ok false) =
      (dropped args w, err (bad_self_argument name user_data_type_mismatch))

  unfoldable pub received :
      FunctionName
      → UserDataTypeId
      → SelfArg
      → (Result A → World L T C I W → World L T C I W × Result ℕ)
      → ℕ
      → World L T C I W
      → World L T C I W × Result ℕ
  unfolding matches selected
  received name target self f nargs w =
      if nargs == 0
      then (w, err (bad_self_argument name missing_argument))
      else (let (w', args) = method.from_stack_args w in
          selected name f args w' (matches name self target))

  unfoldable pub box_method :
      FunctionName → UserDataTypeId → SelfArg → ℕ → World L T C I W → World L T C I W × Result ℕ
  unfolding received arm
  box_method name target self = received name target self (arm name target)

  -- `method.try_borrow_mut()`, the body and the drop of its guard.
  unfoldable pub exclusively :
      (World L T C I W → World L T C I W × Result ℕ) → World L T C I W → World L T C I W × Result ℕ
  exclusively body w =
      if w.method_borrowed
      then (w, err recursive_mut_callback)
      else (let (w', r) = body (record w { method_borrowed = true }) in
          (record w' { method_borrowed = false }, r))

  unfoldable pub box_method_mut :
      FunctionName → UserDataTypeId → SelfArg → ℕ → World L T C I W → World L T C I W × Result ℕ
  unfolding received arm_mut exclusively
  box_method_mut name target self nargs =
      exclusively (received name target self (arm_mut name target) nargs)

  unfoldable pub box_function : World L T C I W → World L T C I W × Result ℕ
  unfolding run
  box_function w = let (w', args) = method.from_stack_args w in run args w'

  unfoldable pub box_function_mut : World L T C I W → World L T C I W × Result ℕ
  unfolding box_function exclusively
  box_function_mut = exclusively box_function
