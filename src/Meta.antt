-- ===== src/Meta.antt =====
-- What a type registers and the metatable that it becomes: `MetaMethod` of src/userdata.rs, the lists of
-- src/userdata/registry.rs, `push_userdata_metatable` of src/state/raw.rs and `init_userdata_metatable` of
-- src/util/userdata.rs. A table is a list of entries, the latest first.
pub mod Names
pub mod Build
pub mod Lookup
pub mod Precedence
pub mod Register
pub mod Latest
mod Tests
use Prim.Native.String.{String}
use text.Mathlib.Text.{◌==◌, starts_with}
use mlua.Base.{Bool, true, false, Option, none, some, List, [], ◌∷◌, ◌++◌, ◌||◌, if◌then◌else◌}

-- The kinds of metamethods; which there are depends on the version of Lua.
pub data MetaMethod : Type 0 where
  add sub mul div mod_ pow unm idiv : MetaMethod
  band bor bxor bnot shl shr concat len : MetaMethod
  eq lt le index new_index call to_string : MetaMethod
  pairs ipairs iter close type_ : MetaMethod

pub data Error : Type 0 where
  meta_method_restricted meta_method_type_error : String → Error
  user : String → Error

pub data Result (A : Type 0) : Type 0 where
  ok : A → Result A
  err : Error → Result A
  panics : Result A

-- `cfg!(feature = "luau")` decides on the name of the last.
unfoldable pub name : Bool → MetaMethod → String
name luau add = "__add"
name luau sub = "__sub"
name luau mul = "__mul"
name luau div = "__div"
name luau mod_ = "__mod"
name luau pow = "__pow"
name luau unm = "__unm"
name luau idiv = "__idiv"
name luau band = "__band"
name luau bor = "__bor"
name luau bxor = "__bxor"
name luau bnot = "__bnot"
name luau shl = "__shl"
name luau shr = "__shr"
name luau concat = "__concat"
name luau len = "__len"
name luau eq = "__eq"
name luau lt = "__lt"
name luau le = "__le"
name luau index = "__index"
name luau new_index = "__newindex"
name luau call = "__call"
name luau to_string = "__tostring"
name luau pairs = "__pairs"
name luau ipairs = "__ipairs"
name luau iter = "__iter"
name luau close = "__close"
name luau type_ = if luau then "__type" else "__name"

-- `MetaMethod::validate`
unfoldable pub validate : String → Result String
validate k =
    if (k == "__gc") || (k == "__metatable") || starts_with k "__mlua"
    then err (meta_method_restricted k)
    else ok k

-- A value as the code asks for it: nil, a function, a table of the entries, or anything else.
pub data Field (V : Type 0) : Type 0 where
  nil : Field V
  function other : V → Field V
  table : List (String × V) → Field V

-- `check_meta_field`
unfoldable pub check_meta_field : {V : Type 0} → String → Field V → Result (Field V)
check_meta_field k (other v) =
    if (k == "__index") || (k == "__newindex") then err (meta_method_type_error k) else ok (other v)
check_meta_field k v = ok v

-- The lists of a registry: values that may have failed to be made, and callbacks, which are values here.
pub record RawUserDataRegistry (V : Type 0) : Type 0 where
  pub fields : List (String × Result V)
  pub field_getters : List (String × V)
  pub field_setters : List (String × V)
  pub meta_fields : List (String × Result (Field V))
  pub methods : List (String × V)
  pub async_methods : List (String × V)
  pub meta_methods : List (String × V)
  pub async_meta_methods : List (String × V)
  pub type_name : V
  pub destructor : V

-- A getter is a callback, or gives a field that does not depend on the userdata.
pub data Getter (V : Type 0) : Type 0 where
  callback return_field : V → Getter V

-- The metatable, and the tables that its index functions are made of.
pub record Parts (V : Type 0) : Type 0 where
  pub metatable : List (String × Field V)
  pub field_getters : Option (List (String × Getter V))
  pub field_setters : Option (List (String × V))
  pub methods : Option (List (String × V))

unfoldable pub and_then : {A B : Type 0} → Result A → (A → Result B) → Result B
and_then (ok a) f = f a
and_then (err e) f = err e
and_then panics f = panics

unfoldable pub get : {A : Type 0} → String → List (String × A) → Option A
get k [] = none
get k ((j, v) ∷ t) = if j == k then some v else get k t

-- Setting the entries one after another.
unfoldable pub set_all : {A : Type 0} → List (String × A) → List (String × A) → List (String × A)
set_all [] t = t
set_all ((k, v) ∷ l) t = set_all l ((k, v) ∷ t)

-- `v?` and the setting of a field.
unfoldable pub set_fields :
    {V A : Type 0}
    → (V → A)
    → List (String × Result V)
    → List (String × A)
    → Result (List (String × A))
set_fields f [] t = ok t
set_fields f ((k, ok v) ∷ l) t = set_fields f l ((k, f v) ∷ t)
set_fields f ((k, err e) ∷ l) t = err e
set_fields f ((k, panics) ∷ l) t = panics

module _ {V : Type 0} where
  unfoldable pub set_meta_methods :
      List (String × V) → List (String × Field V) → Result (List (String × Field V))
  unfolding validate and_then
  set_meta_methods [] t = ok t
  set_meta_methods ((k, m) ∷ l) t =
      and_then (validate k) (λ j. set_meta_methods l ((j, function m) ∷ t))

  -- The flag is `has_name`.
  unfoldable pub set_meta_fields :
      String
      → List (String × Result (Field V))
      → Bool
      → List (String × Field V)
      → Result (Bool × List (String × Field V))
  unfolding validate and_then
  set_meta_fields type_key [] has_name t = ok (has_name, t)
  set_meta_fields type_key ((k, v) ∷ l) has_name t = and_then v (λ x.
      and_then (validate k)
        (λ j. set_meta_fields type_key l (has_name || (k == type_key)) ((j, x) ∷ t)))

  unfoldable pub set_name : String → V → Bool × List (String × Field V) → List (String × Field V)
  set_name type_key type_name (true, t) = t
  set_name type_key type_name (false, t) = (type_key, other type_name) ∷ t

  unfoldable pub field_of : String → List (String × Field V) → Field V
  unfolding get
  field_of k t = elim (get k t) [ none ↦ nil | some v ↦ v ]

  unfoldable pub keep_fields :
      List (String × Result V)
      → List (String × Field V)
      → Field V
      → Result (List (String × Field V) × List (String × Result V))
  unfolding set_fields and_then
  keep_fields fields t nil =
      and_then (set_fields (λ v. v) fields []) (λ e. ok (("__index", table e) ∷ t, []))
  keep_fields fields t (table e0) =
      and_then (set_fields (λ v. v) fields e0) (λ e. ok (("__index", table e) ∷ t, []))
  keep_fields fields t (function v) = ok (t, fields)
  keep_fields fields t (other v) = ok (t, fields)

  -- The fields go into the table `__index`, or are left to become getters.
  unfoldable pub push_fields :
      List (String × Result V)
      → List (String × Field V)
      → Result (List (String × Field V) × List (String × Result V))
  unfolding keep_fields field_of
  push_fields [] t = ok (t, [])
  push_fields (f ∷ fields) t = keep_fields (f ∷ fields) t (field_of "__index" t)

  unfoldable pub with_callback : List (String × V) → List (String × Getter V)
  with_callback [] = []
  with_callback ((k, m) ∷ l) = (k, callback m) ∷ with_callback l

  unfoldable pub push_getters :
      List (String × V) → List (String × Result V) → Result (Option (List (String × Getter V)))
  unfolding set_all set_fields with_callback and_then
  push_getters [] [] = ok none
  push_getters getters fields =
      and_then (set_fields return_field fields (set_all (with_callback getters) []))
        (λ t. ok (some t))

  unfoldable pub push_setters : List (String × V) → Option (List (String × V))
  unfolding set_all
  push_setters [] = none
  push_setters setters = some (set_all setters [])

  unfoldable pub keep_methods :
      List (String × V)
      → List (String × Field V)
      → Field V
      → List (String × Field V) × Option (List (String × V))
  unfolding set_all
  keep_methods methods t (table e) = (("__index", table (set_all methods e)) ∷ t, none)
  keep_methods methods t nil = (("__index", table (set_all methods [])) ∷ t, none)
  keep_methods methods t (function v) = (t, some (set_all methods []))
  keep_methods methods t (other v) = (t, some (set_all methods []))

  unfoldable pub push_methods :
      List (String × V)
      → List (String × Field V)
      → List (String × Field V) × Option (List (String × V))
  unfolding keep_methods field_of
  push_methods [] t = (t, none)
  push_methods (m ∷ methods) t = keep_methods (m ∷ methods) t (field_of "__index" t)

  -- What is left to do once there are getters.
  unfoldable pub push_last :
      RawUserDataRegistry V
      → List (String × Field V)
      → Option (List (String × Getter V))
      → Result (Parts V)
  unfolding push_setters push_methods
  push_last registry t1 getters =
      let (t2, methods) = push_methods (registry.methods ++ registry.async_methods) t1 in
      ok (record {
        metatable = ("__gc", function registry.destructor) ∷ t2;
        field_getters = getters;
        field_setters = push_setters registry.field_setters;
        methods = methods;
      })

  unfoldable pub push_rest :
      RawUserDataRegistry V → List (String × Field V) × List (String × Result V) → Result (Parts V)
  unfolding push_getters push_last and_then
  push_rest registry (t1, fields) =
      and_then (push_getters registry.field_getters fields) (push_last registry t1)

  -- From the fields on, with the metatable as it is then.
  unfoldable pub push_entries : RawUserDataRegistry V → List (String × Field V) → Result (Parts V)
  unfolding push_fields push_rest and_then
  push_entries registry t = and_then (push_fields registry.fields t) (push_rest registry)

  -- `push_userdata_metatable` up to `init_userdata_metatable`. Async methods and metamethods follow the
  -- others; there are none without the feature.
  unfoldable pub push_userdata_metatable : Bool → RawUserDataRegistry V → Result (Parts V)
  unfolding set_meta_methods set_meta_fields set_name push_entries name and_then
  push_userdata_metatable luau registry =
      and_then (set_meta_methods registry.meta_methods []) (λ t1.
        and_then (set_meta_methods registry.async_meta_methods t1) (λ t2.
          and_then (set_meta_fields (name luau type_) registry.meta_fields false t2)
            (λ named. push_entries registry (set_name (name luau type_) registry.type_name named))))
