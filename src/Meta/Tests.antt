-- ===== src/Meta/Tests.antt =====
-- Types with a field "x" of 1, and a getter or a method of that name. Values are numbers; an index function
-- gives 100 for every key.
use mlua.Index.{other}
use Prim.Native.String.{String}
use mlua.Base.{ℕ, ◌+◌, ◌≡◌, refl, false, none, some, [], ◌∷◌}
use mlua.Index
use mlua.Meta.{
  function, return_field, Parts, ok, RawUserDataRegistry, push_entries, push_userdata_metatable,
  Field, field_of,
}
use mlua.Meta.Build.{Lua, init_index, fallback, getters_of, methods_of}
use mlua.Meta.Precedence.{push_entries-order, Finds, is_kept}

abbrev lua : Lua ℕ ℕ
lua = record {
  call_getter = λ m self. Index.ok (m + self);
  call_index = λ f self key. Index.ok 100;
  index_other = λ v key. Index.ok 0;
  nil_value = 0;
  not_indexable = 1;
}

-- Without an `__index`, the method is found; with a function, the field.
abbrev registry : RawUserDataRegistry ℕ
registry = record {
  fields = ("x", ok 1) ∷ [];
  field_getters = [];
  field_setters = [];
  meta_fields = [];
  methods = ("x", 2) ∷ ("x", 3) ∷ [];
  async_methods = [];
  meta_methods = [];
  async_meta_methods = [];
  type_name = 50;
  destructor = 60;
}

abbrev parts : Parts ℕ
parts = record {
  metatable = ("__gc", function 60) ∷ ("__index", function 70) ∷ [];
  field_getters = some (("x", return_field 1) ∷ []);
  field_setters = none;
  methods = some (("x", 3) ∷ ("x", 2) ∷ []);
}

pushed : push_entries registry (("__index", function 70) ∷ []) ≡ ok parts
unfolding push_entries
pushed = refl

abbrev index : ℕ → String → Index.Result ℕ
index =
    Index.generate (fallback lua (function 70)) (getters_of lua parts.field_getters)
      (methods_of parts.methods)

initialised : init_index lua parts ≡ ok index
unfolding init_index
initialised = refl

push_entries-order_example :
    Finds lua
      (is_kept {V = ℕ} (field_of "__index" (("__index", function 70) ∷ [])))
      registry
      index
      7
      "x"
push_entries-order_example =
    push_entries-order lua registry (("__index", function 70) ∷ []) parts index pushed initialised 7
      "x"

-- The whole of a metatable, with an index function, a type name and a method that is async.
whole :
    push_userdata_metatable false
      (record registry { meta_methods = ("__index", 70) ∷ []; async_methods = ("y", 4) ∷ [] })
    ≡ ok (record parts {
      metatable =
          ("__gc", function 60) ∷ ("__name", Field.other 50) ∷ ("__index", function 70) ∷ [];
      methods = some (("y", 4) ∷ ("x", 3) ∷ ("x", 2) ∷ []);
    })
unfolding push_userdata_metatable
whole = refl

-- With the method "x" of 9, registered last.
abbrev with_nine : RawUserDataRegistry ℕ
with_nine = record registry { fields = []; methods = ("x", 2) ∷ ("x", 3) ∷ ("x", 9) ∷ [] }

abbrev nine_parts : Parts ℕ
nine_parts = record {
  metatable = ("__gc", function 60) ∷ ("__index", function 70) ∷ [];
  field_getters = none;
  field_setters = none;
  methods = some (("x", 9) ∷ ("x", 3) ∷ ("x", 2) ∷ []);
}

abbrev nine_index : ℕ → String → Index.Result ℕ
nine_index =
    Index.generate (fallback lua (function 70)) (getters_of lua nine_parts.field_getters)
      (methods_of nine_parts.methods)
