-- ===== src/Meta/Build.antt =====
-- The index functions of a finished metatable, src/util/userdata.rs.
use Prim.Native.String.{String}
use mlua.Base.{Bool, true, false, ◌||◌, Option, none, some, List, if◌then◌else◌}
use mlua.Index.{Fallback, generate, fall_back}
use mlua.Index
use mlua.Meta.{
  Field, nil, function, other, table, Getter, callback, return_field, Parts, Result, ok, panics,
  get, field_of,
}

-- What Lua does: the call of a getter and of an index function, indexing of a value that is neither nil, nor a
-- function, nor a table, what a table has for a key without an entry, and the error where there is no index.
pub record Lua (S V : Type 0) : Type 0 where
  pub call_getter : V → S → Index.Result V
  pub call_index : V → S → String → Index.Result V
  pub index_other : V → String → Index.Result V
  pub nil_value : V
  pub not_indexable : V

unfoldable pub is_present : {A : Type 0} → Option A → Bool
is_present none = false
is_present (some x) = true

unfoldable pub methods_of : {V : Type 0} → Option (List (String × V)) → Option (String → Option V)
unfolding get
methods_of none = none
methods_of (some t) = some (λ key. get key t)

module _ {S V : Type 0} (lua : Lua S V) where
  unfoldable pub run : Getter V → S → Index.Result V
  run (callback m) self = lua.call_getter m self
  run (return_field v) self = Index.ok v

  unfoldable pub entry : Option V → Index.Result V
  entry none = Index.ok lua.nil_value
  entry (some v) = Index.ok v

  unfoldable pub run_found : Option (Getter V) → Option (S → Index.Result V)
  unfolding run
  run_found none = none
  run_found (some g) = some (run g)

  unfoldable pub getters_of :
      Option (List (String × Getter V)) → Option (String → Option (S → Index.Result V))
  unfolding run_found get
  getters_of none = none
  getters_of (some t) = some (λ key. run_found (get key t))

  unfoldable pub fallback : Field V → Fallback S String V
  unfolding entry get
  fallback nil = Index.nil
  fallback (function f) = Index.function (lua.call_index f)
  fallback (table t) = Index.table (λ key. entry (get key t))
  fallback (other v) = Index.other (lua.index_other v)

  unfoldable pub plain : Field V → S → String → Index.Result V
  unfolding fallback fall_back
  plain nil self key = Index.err lua.not_indexable
  plain v self key = fall_back (fallback v) self key

  -- The `match` on the type of `__index`.
  unfoldable pub generated : Parts V → Field V → Result (S → String → Index.Result V)
  unfolding generate fallback getters_of methods_of
  generated parts (other v) = panics
  generated parts v =
      ok (generate (fallback v) (getters_of parts.field_getters) (methods_of parts.methods))

  -- `init_userdata_metatable`: the index function that a userdata has in the end.
  unfoldable pub init_index : Parts V → Result (S → String → Index.Result V)
  unfolding generated plain field_of is_present
  init_index parts =
      if is_present parts.field_getters || is_present parts.methods
      then generated parts (field_of "__index" parts.metatable)
      else ok (plain (field_of "__index" parts.metatable))
