-- ===== src/Index.antt =====
-- The `__index` and `__newindex` of userdata that have fields or methods: the functions that the Lua code
-- in src/util/userdata.rs generates. A table of getters, setters or methods is a function from keys, and
-- a missing one is `none`.
pub mod Order
mod Tests
use mlua.Base.{Bool, true, false, not, ◌&&◌, Option, none, some, if◌then◌else◌}

-- A value, or an error, which may be that a field is unknown.
pub data Result (V : Type 0) : Type 0 where
  ok : V → Result V
  err : V → Result V
  unknown_field : Result V

-- `__index` of the user: nil, a function, a table, or another value that is indexed.
pub data Fallback (S K V : Type 0) : Type 0 where
  nil : Fallback S K V
  function : (S → K → Result V) → Fallback S K V
  table other : (K → Result V) → Fallback S K V

unfoldable pub present : {A : Type 0} → Option A → Bool
present none = false
present (some x) = true

unfoldable pub find : {K A : Type 0} → Option (K → Option A) → K → Option A
find none key = none
find (some entries) key = entries key

unfoldable pub by_getter : {S V : Type 0} → Option (S → Result V) → Result V → S → Result V
by_getter (some field_getter) further self = field_getter self
by_getter none further self = further

module _ {S K V : Type 0} where
  unfoldable pub istable : Fallback S K V → Bool
  istable (table t) = true
  istable index = false

  -- What is called or indexed in the end.
  unfoldable pub fall_back : Fallback S K V → S → K → Result V
  fall_back nil self key = unknown_field
  fall_back (function f) self key = f self key
  fall_back (table t) self key = t key
  fall_back (other t) self key = t key

  -- `methods[key]`, and what follows.
  unfoldable pub by_method : Fallback S K V → Option V → S → K → Result V
  unfolding fall_back
  by_method index (some method) self key = ok method
  by_method index none self key = fall_back index self key

  -- The function for any getters and methods.
  unfoldable pub general :
      Fallback S K V → Option (K → Option (S → Result V)) → Option (K → Option V) → S → K → Result V
  unfolding by_getter by_method find
  general index field_getters methods self key =
      by_getter (find field_getters key) (by_method index (find methods key) self key) self

  -- The function for the common case.
  unfoldable pub common : Fallback S K V → Option (K → Option (S → Result V)) → S → K → Result V
  unfolding by_getter fall_back find
  common index field_getters self key =
      by_getter (find field_getters key) (fall_back index self key) self

  unfoldable pub generate :
      Fallback S K V → Option (K → Option (S → Result V)) → Option (K → Option V) → S → K → Result V
  unfolding general common istable present
  generate index field_getters methods =
      if present field_getters && (not (present methods) && istable index)
      then common index field_getters
      else general index field_getters methods
