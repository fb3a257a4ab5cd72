-- ===== src/Methods.antt =====
-- src/userdata/registry.rs: the methods, functions and fields that a type registers, and the callbacks
-- that they become, which borrow the userdata that they are called on.
pub mod Call
pub mod Locks
pub mod Safety
pub mod Refusal
mod Tests
use mlua.Base.{ℕ, Option, none, some}

-- How the methods of a type find their userdata: by the type that it is registered with, plain or in a
-- wrapper, or by the address of the only userdata that they are for.
pub data UserDataTypeId : Type 0 where
  shared unique : ℕ → UserDataTypeId
  rc rc_ref_cell arc arc_mutex arc_rw_lock : ℕ → UserDataTypeId
  arc_parking_lot_mutex arc_parking_lot_rw_lock : ℕ → UserDataTypeId

unfoldable pub type_id : UserDataTypeId → Option ℕ
type_id (shared t) = some t
type_id (unique ptr) = none
type_id (rc t) = some t
type_id (rc_ref_cell t) = some t
type_id (arc t) = some t
type_id (arc_mutex t) = some t
type_id (arc_rw_lock t) = some t
type_id (arc_parking_lot_mutex t) = some t
type_id (arc_parking_lot_rw_lock t) = some t

-- The name of a method after that of its type; both are numbers here.
pub record FunctionName : Type 0 where
  pub short_type_name : ℕ
  pub name : ℕ

unfoldable pub get_function_name : ℕ → ℕ → FunctionName
get_function_name short_type_name name = record { short_type_name = short_type_name; name = name }

-- `conversion` and `user` are errors of the conversions and of the user's functions.
pub data Error : Type 0 where
  missing_argument not_userdata : Error
  user_data_type_mismatch user_data_destructed : Error
  user_data_borrow_error user_data_borrow_mut_error recursive_mut_callback : Error
  bad_self_argument : FunctionName → Error → Error
  conversion user : ℕ → Error

pub data Result (A : Type 0) : Type 0 where
  ok : A → Result A
  err : Error → Result A

unfoldable pub and_then : {A B : Type 0} → Result A → (A → Result B) → Result B
and_then (ok a) f = f a
and_then (err e) f = err e

-- `try_self_arg!`
unfoldable pub try_self_arg : {A : Type 0} → FunctionName → Result A → Result A
try_self_arg name (ok a) = ok a
try_self_arg name (err e) = err (bad_self_argument name e)
