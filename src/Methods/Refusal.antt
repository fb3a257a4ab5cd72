-- ===== src/Methods/Refusal.antt =====
-- When a method's callback refuses to run the method, src/userdata/registry.rs.
use mlua.Base.{
  ℕ, ◌≡◌, ◌≢◌, refl, Bool, true, false, Option, none, some, ◌==◌, if◌then◌else◌, arith, subst, sym,
}
use mlua.UserData.Lock.{UserDataLock, exclusive}
use mlua.UserData.Cell.{Build, Guard, borrow_ref, borrow_mut}
use mlua.UserData.Cell
use mlua.Methods.{
  FunctionName, UserDataTypeId, shared, unique, rc, rc_ref_cell, arc, arc_mutex, arc_rw_lock,
  arc_parking_lot_mutex, arc_parking_lot_rw_lock, Error, Result, ok, err, bad_self_argument,
  user_data_borrow_error, user_data_borrow_mut_error, recursive_mut_callback, missing_argument,
}
use mlua.Methods.Call.{
  Foreign, Storage, World, Method, SelfArg, run, borrow, matches, box_method, borrow_for_writing,
  borrowed_as, try_borrow_scoped_mut, box_method_mut, scoped, arm, exclusively, received, arm_mut,
  Acquire, entered, ref_cell_try_borrow, ref_cell_try_borrow_mut, rw_lock_try_write,
  parking_lot_rw_lock_try_write, selected, through, try_borrow_scoped, mutex_try_lock,
  rw_lock_try_read, parking_lot_mutex_try_lock, parking_lot_rw_lock_try_read,
}
use mlua.Methods.Locks.{Locks, locks, cell, no_lock, ref_mut, boxed}

-- A storage that is borrowed for writing: the lock of a cell is, or a `RefCell` refuses all borrows.
abbrev pub IsHeld : {C I : Type 0} → Foreign C I → Locks C → Type 0
IsHeld foreign (cell h n) = h ≡ exclusive
IsHeld foreign no_lock = ⊥
IsHeld foreign (ref_mut c) = (foreign.try_borrow c ≡ none) × (foreign.try_borrow_mut c ≡ none)
IsHeld foreign (boxed c) = (foreign.try_borrow c ≡ none) × (foreign.try_borrow_mut c ≡ none)

module _ (L : UserDataLock) {T C I : Type 0} (foreign : Foreign C I) (b : Build) where
  borrow-held :
      (s : Storage L T C)
      → IsHeld foreign (locks s)
      → ((borrow L foreign b s).1 ≡ err user_data_borrow_error)
        × ((borrow_for_writing L foreign b s).1 ≡ err user_data_borrow_mut_error)
  unfolding borrow borrow_for_writing Cell.try_from borrowed_as
  borrow-held (Storage.owned v) h =
      let barred = L.shared_barred v.raw_lock h in
      let barred' = L.exclusive_barred v.raw_lock h in
      (rw (barred.0, Cell.try_from) refl, rw (barred'.0, Cell.try_from) refl)
  borrow-held Storage.scoped_ref h = elim h [ ]
  borrow-held (Storage.scoped_ref_mut c) h =
      (rw (h.0, borrowed_as) refl, rw (h.1, borrowed_as) refl)
  borrow-held (Storage.scoped_boxed c) h = (rw (h.0, borrowed_as) refl, rw (h.1, borrowed_as) refl)

-- What a mutable method answers then: of a wrapped type, the storage is borrowed for reading, and those
-- that give no mutable access refuse at once.
abbrev pub mut_refusal : FunctionName → UserDataTypeId → Error
mut_refusal name (shared t) = bad_self_argument name user_data_borrow_mut_error
mut_refusal name (unique p) = bad_self_argument name user_data_borrow_mut_error
mut_refusal name (rc t) = user_data_borrow_mut_error
mut_refusal name (arc t) = user_data_borrow_mut_error
mut_refusal name (rc_ref_cell t) = bad_self_argument name user_data_borrow_error
mut_refusal name (arc_mutex t) = bad_self_argument name user_data_borrow_error
mut_refusal name (arc_rw_lock t) = bad_self_argument name user_data_borrow_error
mut_refusal name (arc_parking_lot_mutex t) = bad_self_argument name user_data_borrow_error
mut_refusal name (arc_parking_lot_rw_lock t) = bad_self_argument name user_data_borrow_error

module _ (L : UserDataLock) {T C I W A R : Type 0} (foreign : Foreign C I) (b : Build)
    (method : Method (World L T C I W) A R) where
  scoped-refused :
      (name : FunctionName) (g : Guard)
      (f : Result A → World L T C I W → World L T C I W × Result ℕ) (args : Result A)
      (w : World L T C I W) (r : Storage L T C × Result (Unit {0})) (e : Error)
      → r.1 ≡ err e
      → (scoped L foreign b method name g f args w r).1 ≡ err (bad_self_argument name e)
  unfolding scoped
  scoped-refused name g f args w (st, err e') e h = cc
  scoped-refused name g f args w (st, ok u) e h = cc

  received-matched :
      (name : FunctionName) (target : UserDataTypeId) (nargs : ℕ) (self : SelfArg)
      (f : Result A → World L T C I W → World L T C I W × Result ℕ) (w : World L T C I W)
      → nargs ≢ 0
      → matches name self target ≡ ok true
      → received L foreign b method name target self f nargs w
        ≡ f (method.from_stack_args w).1 (method.from_stack_args w).0
  unfolding received selected
  received-matched name target nargs self f w h e = rw (e, received, selected) (ground arith)

  reading-refused :
      (name : FunctionName) (f : Result A → World L T C I W → World L T C I W × Result ℕ)
      (args : Result A) (w : World L T C I W)
      → IsHeld foreign (locks w.storage)
      → (try_borrow_scoped L foreign b method name f args w).1
        ≡ err (bad_self_argument name user_data_borrow_error)
  unfolding try_borrow_scoped
  reading-refused name f args w h =
      scoped-refused name borrow_ref f args w (borrow L foreign b w.storage) user_data_borrow_error
        (borrow-held L foreign b w.storage h).0

  writing-refused :
      (name : FunctionName) (f : Result A → World L T C I W → World L T C I W × Result ℕ)
      (args : Result A) (w : World L T C I W)
      → IsHeld foreign (locks w.storage)
      → (try_borrow_scoped_mut L foreign b method name f args w).1
        ≡ err (bad_self_argument name user_data_borrow_mut_error)
  unfolding try_borrow_scoped_mut
  writing-refused name f args w h =
      scoped-refused name borrow_mut f args w (borrow_for_writing L foreign b w.storage)
        user_data_borrow_mut_error (borrow-held L foreign b w.storage h).1

  arm-refused :
      (name : FunctionName) (target : UserDataTypeId) (args : Result A) (w : World L T C I W)
      → IsHeld foreign (locks w.storage)
      → (arm L foreign b method name target args w).1
        ≡ err (bad_self_argument name user_data_borrow_error)
  unfolding arm
  arm-refused name (shared t) args w h = reading-refused name (run L foreign b method) args w h
  arm-refused name (unique t) args w h = reading-refused name (run L foreign b method) args w h
  arm-refused name (rc t) args w h = reading-refused name (run L foreign b method) args w h
  arm-refused name (rc_ref_cell t) args w h =
      reading-refused name (through L foreign b method ref_cell_try_borrow user_data_borrow_error)
        args w h
  arm-refused name (arc t) args w h = reading-refused name (run L foreign b method) args w h
  arm-refused name (arc_mutex t) args w h =
      reading-refused name (through L foreign b method mutex_try_lock user_data_borrow_error) args w
        h
  arm-refused name (arc_rw_lock t) args w h =
      reading-refused name (through L foreign b method rw_lock_try_read user_data_borrow_error) args
        w h
  arm-refused name (arc_parking_lot_mutex t) args w h =
      reading-refused name
        (through L foreign b method parking_lot_mutex_try_lock user_data_borrow_error) args w h
  arm-refused name (arc_parking_lot_rw_lock t) args w h =
      reading-refused name
        (through L foreign b method parking_lot_rw_lock_try_read user_data_borrow_error) args w h

  arm_mut-refused :
      (name : FunctionName) (target : UserDataTypeId) (args : Result A) (w : World L T C I W)
      → IsHeld foreign (locks w.storage)
      → (arm_mut L foreign b method name target args w).1 ≡ err (mut_refusal name target)
  unfolding arm_mut
  arm_mut-refused name (shared t) args w h = writing-refused name (run L foreign b method) args w h
  arm_mut-refused name (unique t) args w h = writing-refused name (run L foreign b method) args w h
  arm_mut-refused name (rc t) args w h = refl
  arm_mut-refused name (rc_ref_cell t) args w h =
      reading-refused name
        (through L foreign b method ref_cell_try_borrow_mut user_data_borrow_mut_error) args w h
  arm_mut-refused name (arc t) args w h = refl
  arm_mut-refused name (arc_mutex t) args w h =
      reading-refused name (through L foreign b method mutex_try_lock user_data_borrow_mut_error)
        args w h
  arm_mut-refused name (arc_rw_lock t) args w h =
      reading-refused name (through L foreign b method rw_lock_try_write user_data_borrow_mut_error)
        args w h
  arm_mut-refused name (arc_parking_lot_mutex t) args w h =
      reading-refused name
        (through L foreign b method parking_lot_mutex_try_lock user_data_borrow_mut_error) args w h
  arm_mut-refused name (arc_parking_lot_rw_lock t) args w h =
      reading-refused name
        (through L foreign b method parking_lot_rw_lock_try_write user_data_borrow_mut_error) args w
        h

  exclusively-answer :
      (body : World L T C I W → World L T C I W × Result ℕ) (w : World L T C I W) (e : Error)
      → (body (record w { method_borrowed = true })).1 ≡ err e
      → (exclusively L foreign b method body w).1
        ≡ err (if w.method_borrowed then recursive_mut_callback else e)
  unfolding exclusively
  exclusively-answer body w e h = ground (arith)

  -- While the storage of a userdata is borrowed for writing, be it a cell or a scoped `RefCell`, a method
  -- that was registered for its type, with a wrapper or without, answers that it is borrowed, for
  -- any arguments, good or bad, whose conversion leaves the storage's locks alone. So does a mutable
  -- method, by the error for writing if it would borrow the storage for writing, or has no mutable access
  -- to the wrapped value, and else by that for reading; but one that is itself running answers that it is
  -- called recursively.
  pub callbacks-exclusive :
      (name : FunctionName) (target : UserDataTypeId) (nargs : ℕ) (self : SelfArg)
      (w : World L T C I W)
      → nargs ≢ 0
      → matches name self target ≡ ok true
      → ((w' : World L T C I W) → locks (method.from_stack_args w').0.storage ≡ locks w'.storage)
      → IsHeld foreign (locks w.storage)
      → ((box_method L foreign b method name target self nargs w).1
          ≡ err (bad_self_argument name user_data_borrow_error))
        × ((box_method_mut L foreign b method name target self nargs w).1
            ≡ err (if w.method_borrowed then recursive_mut_callback else mut_refusal name target))
  unfolding box_method box_method_mut
  callbacks-exclusive name target nargs self w h e keep held = (
    rw (received-matched name target nargs self (arm L foreign b method name target) w h e) (
        arm-refused name target (method.from_stack_args w).1 (method.from_stack_args w).0
          (subst (IsHeld foreign) (sym (keep w)) held)),
    exclusively-answer
        (received L foreign b method name target self (arm_mut L foreign b method name target)
          nargs)
        w (mut_refusal name target)
        (let w1 : World L T C I W = record w { method_borrowed = true } in
          rw
            (received-matched name target nargs self (arm_mut L foreign b method name target) w1 h
              e)
            (arm_mut-refused name target (method.from_stack_args w1).1 (method.from_stack_args w1).0
              (subst (IsHeld foreign) (sym (keep w1)) held))),
  )

  abbrev Converts : (Result A → World L T C I W → World L T C I W × Result ℕ) → Type 0
  Converts f =
      (args : Result A) (w : World L T C I W) (n : ℕ)
      → (f args w).1 ≡ ok n
      → (a : A) × (args ≡ ok a)

  run-Converts : Converts (run L foreign b method)
  unfolding run
  run-Converts (ok a) w n h = (a, refl)
  run-Converts (err e) w n h = cc

  entered-Converts :
      (acq : Acquire) (e : Error) (args : Result A) (w : World L T C I W) (n : ℕ) (o : Option I)
      → (entered L foreign b method acq e args w o).1 ≡ ok n
      → (a : A) × (args ≡ ok a)
  unfolding entered
  entered-Converts acq e args w n none h = cc
  entered-Converts acq e args w n (some i) h = run-Converts args (record w { inner = i }) n h

  through-Converts : (acq : Acquire) (e : Error) → Converts (through L foreign b method acq e)
  unfolding through
  through-Converts acq e args w n h =
      entered-Converts acq e args w n (foreign.acquire acq w.inner) h

  scoped-Converts :
      (name : FunctionName) (g : Guard)
      (f : Result A → World L T C I W → World L T C I W × Result ℕ) (args : Result A)
      (w : World L T C I W) (r : Storage L T C × Result (Unit {0})) (n : ℕ)
      → Converts f
      → (scoped L foreign b method name g f args w r).1 ≡ ok n
      → (a : A) × (args ≡ ok a)
  unfolding scoped
  scoped-Converts name g f args w (st, err e) n c h = cc
  scoped-Converts name g f args w (st, ok u) n c h = c args (record w { storage = st }) n h

  reading-Converts :
      (name : FunctionName) (f : Result A → World L T C I W → World L T C I W × Result ℕ)
      → Converts f
      → Converts (try_borrow_scoped L foreign b method name f)
  unfolding try_borrow_scoped
  reading-Converts name f c args w n h =
      scoped-Converts name borrow_ref f args w (borrow L foreign b w.storage) n c h

  through_wrapper :
      (name : FunctionName) (acq : Acquire) (e : Error)
      → Converts (try_borrow_scoped L foreign b method name (through L foreign b method acq e))
  through_wrapper name acq e =
      reading-Converts name (through L foreign b method acq e) (through-Converts acq e)

  arm-Converts :
      (name : FunctionName) (target : UserDataTypeId)
      → Converts (arm L foreign b method name target)
  unfolding arm
  arm-Converts name (shared t) = reading-Converts name (run L foreign b method) run-Converts
  arm-Converts name (unique t) = reading-Converts name (run L foreign b method) run-Converts
  arm-Converts name (rc t) = reading-Converts name (run L foreign b method) run-Converts
  arm-Converts name (arc t) = reading-Converts name (run L foreign b method) run-Converts
  arm-Converts name (rc_ref_cell t) =
      through_wrapper name ref_cell_try_borrow user_data_borrow_error
  arm-Converts name (arc_mutex t) = through_wrapper name mutex_try_lock user_data_borrow_error
  arm-Converts name (arc_rw_lock t) = through_wrapper name rw_lock_try_read user_data_borrow_error
  arm-Converts name (arc_parking_lot_mutex t) =
      through_wrapper name parking_lot_mutex_try_lock user_data_borrow_error
  arm-Converts name (arc_parking_lot_rw_lock t) =
      through_wrapper name parking_lot_rw_lock_try_read user_data_borrow_error

  selected-ok :
      (name : FunctionName) (f : Result A → World L T C I W → World L T C I W × Result ℕ)
      (args : Result A) (w : World L T C I W) (m : Result Bool) (n : ℕ)
      → Converts f
      → (selected L foreign b method name f args w m).1 ≡ ok n
      → (m ≡ ok true) × ((a : A) × (args ≡ ok a))
  unfolding selected
  selected-ok name f args w (err e) n c h = cc
  selected-ok name f args w (ok true) n c h = (refl, c args w n h)
  selected-ok name f args w (ok false) n c h = cc

  received-ok :
      (name : FunctionName) (target : UserDataTypeId) (self : SelfArg) (nargs : ℕ)
      (w : World L T C I W) (n : ℕ) (f : Result A → World L T C I W → World L T C I W × Result ℕ)
      (zero : Bool)
      → Converts f
      → (if zero
          then (w, err (bad_self_argument name missing_argument))
          else selected L foreign b method name f
              (method.from_stack_args w).1
              (method.from_stack_args w).0
              (matches name self target)).1
        ≡ ok n
      → (zero ≡ false)
        × (matches name self target ≡ ok true)
        × ((a : A) × ((method.from_stack_args w).1 ≡ ok a))
  received-ok name target self nargs w n f true c h = cc
  received-ok name target self nargs w n f false c h =
      let r =
        selected-ok name f (method.from_stack_args w).1 (method.from_stack_args w).0
          (matches name self target) n c h in
      (refl, r.0, r.1)

  -- A callback of a method that returns results was called on something, which was of the registered type,
  -- and with arguments that could be converted.
  pub box_method-ok :
      (name : FunctionName) (target : UserDataTypeId) (self : SelfArg) (nargs : ℕ)
      (w : World L T C I W) (n : ℕ)
      → (box_method L foreign b method name target self nargs w).1 ≡ ok n
      → (nargs ≢ 0)
        × (matches name self target ≡ ok true)
        × ((a : A) × ((method.from_stack_args w).1 ≡ ok a))
  unfolding box_method received
  box_method-ok name target self nargs w n h =
      let r =
        received-ok name target self nargs w n (arm L foreign b method name target) (nargs == 0)
          (arm-Converts name target) h in
      (ground arith, r.1, r.2)
