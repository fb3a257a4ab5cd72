-- ===== src/Methods/Safety.antt =====
-- The callbacks of methods leave the locks as they found them, src/userdata/registry.rs.
use mlua.Base.{ℕ, ◌≡◌, refl, ◌∙◌, subst, Bool, true, false, Option, none, some, if◌then◌else◌, ◌==◌}
use mlua.UserData.Lock.{UserDataLock}
use mlua.UserData.Cell.{Build, Guard, borrow_ref, borrow_mut}
use mlua.Methods.{
  FunctionName, UserDataTypeId, Error, Result, shared, unique, rc, rc_ref_cell, arc, arc_mutex,
  arc_rw_lock, arc_parking_lot_mutex, arc_parking_lot_rw_lock, ok, err, user_data_borrow_error,
  user_data_borrow_mut_error, recursive_mut_callback, bad_self_argument, missing_argument,
}
use mlua.Methods.Call.{
  Foreign, Storage, World, Method, SelfArg, Acquire, run, dropped, borrow, entered, through, scoped,
  arm, arm_mut, box_function, box_method, exclusively, received, selected, try_borrow_scoped,
  try_borrow_scoped_mut, borrow_for_writing, box_method_mut, matches, box_function_mut,
  ref_cell_try_borrow, ref_cell_try_borrow_mut, mutex_try_lock, rw_lock_try_read, rw_lock_try_write,
  parking_lot_mutex_try_lock, parking_lot_rw_lock_try_read, parking_lot_rw_lock_try_write,
}
use mlua.Methods.Locks.{locks, IsValid, Frees, Undone, borrow-Undone, borrow_for_writing-Undone}

-- The two worlds have the same locks.
pub record Same {L : UserDataLock} {T C I W : Type 0} (w w' : World L T C I W) : Type 0 where
  pub storage : locks w.storage ≡ locks w'.storage
  pub inner : w.inner ≡ w'.inner
  pub method_borrowed : w.method_borrowed ≡ w'.method_borrowed

-- The user's code is back with the locks that it was given.
pub record KeepsLocks {L : UserDataLock} {T C I W A R : Type 0}
    (method : Method (World L T C I W) A R) : Type 0 where
  pub from_stack_args : (w : World L T C I W) → Same w (method.from_stack_args w).0
  pub call : (a : A) (w : World L T C I W) → Same w (method.call a w).0
  pub drop_args : (a : A) (w : World L T C I W) → Same w (method.drop_args a w)

refl-Same : {L : UserDataLock} {T C I W : Type 0} (w : World L T C I W) → Same w w
refl-Same w = record { storage = refl; inner = refl; method_borrowed = refl }

trans-Same :
    {L : UserDataLock} {T C I W : Type 0} {u v w : World L T C I W} → Same u v → Same v w → Same u w
trans-Same p q = record {
  storage = p.storage ∙ q.storage;
  inner = p.inner ∙ q.inner;
  method_borrowed = p.method_borrowed ∙ q.method_borrowed;
}

if-Same :
    {L : UserDataLock} {T C I W : Type 0} {w : World L T C I W}
    → (t : Bool) (x y : World L T C I W × Result ℕ) → Same w x.0
    → (t ≡ false → Same w y.0)
    → Same w (if t then x else y).0
if-Same true x y p q = p
if-Same false x y p q = q refl

module _ (L : UserDataLock) {T C I W A R : Type 0} (foreign : Foreign C I) (b : Build)
    (method : Method (World L T C I W) A R) (keeps : KeepsLocks method)
    (frees : Frees foreign) where
  run-Same : (args : Result A) (w : World L T C I W) → Same w (run L foreign b method args w).0
  unfolding run
  run-Same (ok a) w = keeps.call a w
  run-Same (err e) w = refl-Same w

  dropped-Same :
      (args : Result A) (w : World L T C I W) → Same w (dropped L foreign b method args w)
  unfolding dropped
  dropped-Same (ok a) w = keeps.drop_args a w
  dropped-Same (err e) w = refl-Same w

  entered-Same :
      (acq : Acquire) (e : Error) (args : Result A) (w : World L T C I W) (o : Option I)
      → foreign.acquire acq w.inner ≡ o
      → Same w (entered L foreign b method acq e args w o).0
  unfolding entered
  entered-Same acq e args w none h = dropped-Same args w
  entered-Same acq e args w (some i) h =
      let s = run-Same args (record w { inner = i }) in
      record {
        storage = s.storage;
        inner = cc (frees.release acq w.inner i h, s.inner);
        method_borrowed = s.method_borrowed;
      }

  abbrev Keeps : (Result A → World L T C I W → World L T C I W × Result ℕ) → Type 0
  Keeps f = (args : Result A) (w : World L T C I W) → Same w (f args w).0

  through-Keeps : (acq : Acquire) (e : Error) → Keeps (through L foreign b method acq e)
  unfolding through
  through-Keeps acq e args w = entered-Same acq e args w (foreign.acquire acq w.inner) refl

  scoped-Same :
      (name : FunctionName) (g : Guard)
      (f : Result A → World L T C I W → World L T C I W × Result ℕ) (args : Result A)
      (w : World L T C I W) (r : Storage L T C × Result (Unit {0}))
      → Keeps f
      → Undone L foreign b g w.storage r
      → Same w (scoped L foreign b method name g f args w r).0
  unfolding scoped
  scoped-Same name g f args w (st, err e) k u =
      let s = dropped-Same args (record w { storage = st }) in
      record { storage = u ∙ s.storage; inner = s.inner; method_borrowed = s.method_borrowed }
  scoped-Same name g f args w (st, ok t) k u =
      let s = k args (record w { storage = st }) in
      record {
        storage = u (f args (record w { storage = st })).0.storage s.storage;
        inner = s.inner;
        method_borrowed = s.method_borrowed;
      }

  try_borrow_scoped-Same :
      (name : FunctionName) (f : Result A → World L T C I W → World L T C I W × Result ℕ)
      (args : Result A) (w : World L T C I W)
      → Keeps f
      → IsValid (locks w.storage)
      → (Same w (try_borrow_scoped L foreign b method name f args w).0)
        × (Same w (try_borrow_scoped_mut L foreign b method name f args w).0)
  unfolding try_borrow_scoped try_borrow_scoped_mut
  try_borrow_scoped-Same name f args w k v = (
    scoped-Same name borrow_ref f args w (borrow L foreign b w.storage) k
        (borrow-Undone L foreign b frees w.storage v),
    scoped-Same name borrow_mut f args w (borrow_for_writing L foreign b w.storage) k
        (borrow_for_writing-Undone L foreign b frees w.storage v),
  )

  -- A part of a callback that leaves valid locks as they are.
  abbrev Leaves : (World L T C I W → World L T C I W × Result ℕ) → Type 0
  Leaves f = (w : World L T C I W) → IsValid (locks w.storage) → Same w (f w).0

  reading :
      (name : FunctionName) (f : Result A → World L T C I W → World L T C I W × Result ℕ)
      (args : Result A)
      → Keeps f
      → Leaves (try_borrow_scoped L foreign b method name f args)
  reading name f args k w v = (try_borrow_scoped-Same name f args w k v).0

  writing :
      (name : FunctionName) (f : Result A → World L T C I W → World L T C I W × Result ℕ)
      (args : Result A)
      → Keeps f
      → Leaves (try_borrow_scoped_mut L foreign b method name f args)
  writing name f args k w v = (try_borrow_scoped-Same name f args w k v).1

  reading_through :
      (name : FunctionName) (acq : Acquire) (e : Error) (args : Result A)
      → Leaves (try_borrow_scoped L foreign b method name (through L foreign b method acq e) args)
  reading_through name acq e args =
      reading name (through L foreign b method acq e) args (through-Keeps acq e)

  arm-Leaves :
      (name : FunctionName) (target : UserDataTypeId) (args : Result A)
      → Leaves (arm L foreign b method name target args)
  unfolding arm
  arm-Leaves name (shared t) args = reading name (run L foreign b method) args run-Same
  arm-Leaves name (unique t) args = reading name (run L foreign b method) args run-Same
  arm-Leaves name (rc t) args = reading name (run L foreign b method) args run-Same
  arm-Leaves name (arc t) args = reading name (run L foreign b method) args run-Same
  arm-Leaves name (rc_ref_cell t) args =
      reading_through name ref_cell_try_borrow user_data_borrow_error args
  arm-Leaves name (arc_mutex t) args =
      reading_through name mutex_try_lock user_data_borrow_error args
  arm-Leaves name (arc_rw_lock t) args =
      reading_through name rw_lock_try_read user_data_borrow_error args
  arm-Leaves name (arc_parking_lot_mutex t) args =
      reading_through name parking_lot_mutex_try_lock user_data_borrow_error args
  arm-Leaves name (arc_parking_lot_rw_lock t) args =
      reading_through name parking_lot_rw_lock_try_read user_data_borrow_error args

  arm_mut-Leaves :
      (name : FunctionName) (target : UserDataTypeId) (args : Result A)
      → Leaves (arm_mut L foreign b method name target args)
  unfolding arm_mut
  arm_mut-Leaves name (shared t) args = writing name (run L foreign b method) args run-Same
  arm_mut-Leaves name (unique t) args = writing name (run L foreign b method) args run-Same
  arm_mut-Leaves name (rc t) args = λ w v. dropped-Same args w
  arm_mut-Leaves name (arc t) args = λ w v. dropped-Same args w
  arm_mut-Leaves name (rc_ref_cell t) args =
      reading_through name ref_cell_try_borrow_mut user_data_borrow_mut_error args
  arm_mut-Leaves name (arc_mutex t) args =
      reading_through name mutex_try_lock user_data_borrow_mut_error args
  arm_mut-Leaves name (arc_rw_lock t) args =
      reading_through name rw_lock_try_write user_data_borrow_mut_error args
  arm_mut-Leaves name (arc_parking_lot_mutex t) args =
      reading_through name parking_lot_mutex_try_lock user_data_borrow_mut_error args
  arm_mut-Leaves name (arc_parking_lot_rw_lock t) args =
      reading_through name parking_lot_rw_lock_try_write user_data_borrow_mut_error args

  selected-Same :
      (name : FunctionName) (f : Result A → World L T C I W → World L T C I W × Result ℕ)
      (args : Result A) (w : World L T C I W) (m : Result Bool)
      → Leaves (f args)
      → IsValid (locks w.storage)
      → Same w (selected L foreign b method name f args w m).0
  unfolding selected
  selected-Same name f args w (err e) h v = dropped-Same args w
  selected-Same name f args w (ok true) h v = h w v
  selected-Same name f args w (ok false) h v = dropped-Same args w

  received-Leaves :
      (name : FunctionName) (target : UserDataTypeId) (self : SelfArg)
      (f : Result A → World L T C I W → World L T C I W × Result ℕ) (nargs : ℕ)
      → ((args : Result A) → Leaves (f args))
      → Leaves (received L foreign b method name target self f nargs)
  unfolding received
  received-Leaves name target self f nargs h w v =
      let s = keeps.from_stack_args w in
      let r = method.from_stack_args w in
      if-Same (nargs == 0) (w, err (bad_self_argument name missing_argument))
        (selected L foreign b method name f r.1 r.0 (matches name self target)) (refl-Same w)
        (λ e. trans-Same s (
          selected-Same name f r.1 r.0 (matches name self target) (h r.1)
            (subst (λ l. IsValid l) s.storage v)))

  exclusively-Leaves :
      (body : World L T C I W → World L T C I W × Result ℕ)
      → Leaves body
      → Leaves (exclusively L foreign b method body)
  unfolding exclusively
  exclusively-Leaves body h w v =
      let s = h (record w { method_borrowed = true }) v in
      let done = body (record w { method_borrowed = true }) in
      if-Same w.method_borrowed (w, err recursive_mut_callback)
        (record done.0 { method_borrowed = false }, done.1) (refl-Same w)
        (λ e. record { storage = s.storage; inner = s.inner; method_borrowed = e })

  box_function-Leaves : Leaves (box_function L foreign b method)
  unfolding box_function
  box_function-Leaves w v =
      trans-Same (keeps.from_stack_args w)
        (run-Same (method.from_stack_args w).1 (method.from_stack_args w).0)

  -- However a callback ends, with results or with any error, no lock of the userdata is held that was not
  -- held before: provided that the user's code and the conversions keep none, that
  -- dropping the guard of a foreign lock frees it, and that the lock of the cell is in one of its states.
  pub callbacks-Same :
      (name : FunctionName) (target : UserDataTypeId) (self : SelfArg) (nargs : ℕ)
      (w : World L T C I W)
      → IsValid (locks w.storage)
      → (Same w (box_method L foreign b method name target self nargs w).0)
        × (Same w (box_method_mut L foreign b method name target self nargs w).0)
        × (Same w (box_function L foreign b method w).0)
        × (Same w (box_function_mut L foreign b method w).0)
  unfolding box_method box_method_mut box_function_mut
  callbacks-Same name target self nargs w v = (
    received-Leaves name target self (arm L foreign b method name target) nargs
        (arm-Leaves name target) w v,
    exclusively-Leaves
        (received L foreign b method name target self (arm_mut L foreign b method name target)
          nargs)
        (received-Leaves name target self (arm_mut L foreign b method name target) nargs
          (arm_mut-Leaves name target))
        w v,
    box_function-Leaves w v,
    exclusively-Leaves (box_function L foreign b method) box_function-Leaves w v,
  )
