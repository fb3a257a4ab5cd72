-- ===== src/Methods/Tests.antt =====
-- A type with the number 7, a method that takes anything and changes nothing, and locks that are free at 0.
use mlua.Base.{ℕ, ◌≡◌, refl, arith, false, Option, none, some, ◌==◌, if◌then◌else◌}
use mlua.UserData.Cell.{Build, try_from}
use mlua.UserData.RawLock.{raw_lock, writing, try_lock_shared, try_lock_exclusive}
use mlua.Methods.{
  FunctionName, shared, arc_mutex, ok, err, bad_self_argument, user_data_borrow_error,
  user_data_borrow_mut_error, recursive_mut_callback,
}
use mlua.Methods.Call.{
  Foreign, Storage, World, Method, SelfArg, box_method, box_method_mut, box_function,
  box_function_mut,
}
use mlua.Methods.Locks.{Frees}
use mlua.Methods.Safety.{Same, KeepsLocks, callbacks-Same}
use mlua.Methods.Refusal.{callbacks-exclusive, mut_refusal}

abbrev locked : ℕ → Option ℕ
locked n = if n == 0 then some 1 else none

abbrev foreign : Foreign ℕ ℕ
foreign = record {
  try_borrow = locked;
  try_borrow_mut = locked;
  drop_ref = λ n. 0;
  drop_ref_mut = λ n. 0;
  acquire = λ a n. locked n;
  release = λ a n. 0;
}

abbrev Userdata : Type 0
Userdata = World raw_lock ℕ ℕ ℕ ℕ

abbrev method : Method Userdata ℕ ℕ
method = record {
  from_stack_args = λ w. (w, ok 3);
  call = λ a w. (w, ok a);
  push_into_stack_multi = λ r. ok r;
  drop_args = λ a w. w;
}

foreign-Frees : Frees foreign
foreign-Frees = record {
  drop_ref = λ c c' h. ground arith;
  drop_ref_mut = λ c c' h. ground arith;
  release = λ a i i' h. ground arith;
}

method-KeepsLocks : KeepsLocks method
method-KeepsLocks = record {
  from_stack_args = λ w. record { storage = refl; inner = refl; method_borrowed = refl };
  call = λ a w. record { storage = refl; inner = refl; method_borrowed = refl };
  drop_args = λ a w. record { storage = refl; inner = refl; method_borrowed = refl };
}

abbrev build : Build
build = record { send = false; is_sync = false }

abbrev name : FunctionName
name = record { short_type_name = 1; name = 2 }

abbrev self : SelfArg
self = record { ptr = 90; get_userdata_type_id = ok (some 7) }

abbrev with_flag : ℕ → Userdata
with_flag flag = record {
  storage =
      Storage.owned
        (record { raw_lock = flag; borrow_count = 0; value = 5; strong = 1; serializable = false });
  inner = 0;
  method_borrowed = false;
  rest = 0;
}

-- A method reads what is in a mutex, and the mutable one is barred by a reader of the cell.
reads : (box_method raw_lock foreign build method name (arc_mutex 7) self 2 (with_flag 1)).1 ≡ ok 3
unfolding box_method try_from try_lock_shared
reads = refl

barred :
    (box_method_mut raw_lock foreign build method name (shared 7) self 2 (with_flag 1)).1
    ≡ err (bad_self_argument name user_data_borrow_mut_error)
unfolding box_method_mut try_from try_lock_exclusive
barred = refl

callbacks-Same_example :
    Same
      (with_flag 2)
      (box_method raw_lock foreign build method name (arc_mutex 7) self 2 (with_flag 2)).0
    × Same
        (with_flag 2)
        (box_method_mut raw_lock foreign build method name (arc_mutex 7) self 2 (with_flag 2)).0
    × Same (with_flag 2) (box_function raw_lock foreign build method (with_flag 2)).0
    × Same (with_flag 2) (box_function_mut raw_lock foreign build method (with_flag 2)).0
callbacks-Same_example =
    callbacks-Same raw_lock foreign build method method-KeepsLocks foreign-Frees name (arc_mutex 7)
      self 2 (with_flag 2) (λ h. cc)

callbacks-exclusive_example :
    ((box_method raw_lock foreign build method name (shared 7) self 2 (with_flag writing)).1
      ≡ err (bad_self_argument name user_data_borrow_error))
    × ((box_method_mut raw_lock foreign build method name (shared 7) self 2 (with_flag writing)).1
        ≡ err (if false then recursive_mut_callback else mut_refusal name (shared 7)))
unfolding mlua.Methods.Call.matches
callbacks-exclusive_example =
    callbacks-exclusive raw_lock foreign build method name (shared 7) 2 self (with_flag writing)
      (λ h. cc) refl (λ w. refl) refl
