-- ===== src/Meta/Lookup.antt =====
-- What a name that a type registered is looked up as in its userdata.
use Prim.Native.String.{String}
use mlua.Base.{
  ◌≡◌, refl, sym, ap, ◌∙◌, ◌||◌, Option, none, some, List, [], ◌∷◌, if◌then◌else◌, arith, subst,
}
use mlua.Index
use mlua.Index.Order.{generate-order}
use mlua.Meta.{
  Field, nil, function, other, table, Getter, Parts, Result, ok, err, panics, get, set_all,
  set_fields, field_of, and_then,
}
use mlua.Meta.Build.{
  Lua, init_index, fallback, generated, getters_of, plain, methods_of, is_present,
}

abbrev pub or_else : {A : Type 0} → Option A → Option A → Option A
or_else (some x) o = some x
or_else none o = o

-- The last entry that was registered under a name.
abbrev pub last : {A : Type 0} → String → List (String × A) → Option A
last k l = get k (set_all l [])

abbrev pub mapped : {A B : Type 0} → (A → B) → List (String × A) → List (String × B)
mapped f [] = []
mapped f ((k, v) ∷ l) = (k, f v) ∷ mapped f l

abbrev pub map_some : {A B : Type 0} → (A → B) → Option A → Option B
map_some f none = none
map_some f (some x) = some (f x)

-- The values that were made.
abbrev pub values : {V : Type 0} → List (String × Result V) → List (String × V)
values [] = []
values ((k, ok v) ∷ l) = (k, v) ∷ values l
values ((k, err e) ∷ l) = values l
values ((k, panics) ∷ l) = values l

module _ {A : Type 0} where
  pub get-set_all :
      (k : String) (l t : List (String × A)) → get k (set_all l t) ≡ or_else (last k l) (get k t)
  unfolding get set_all
  get-set_all k [] t = refl
  get-set_all k ((j, v) ∷ l) t =
      get-set_all k l ((j, v) ∷ t) ∙ ground (arith, get-set_all k l ((j, v) ∷ []))

module _ {A B : Type 0} (f : A → B) where
  pub get-mapped : (k : String) (l : List (String × A)) → get k (mapped f l) ≡ map_some f (get k l)
  unfolding get
  get-mapped k [] = refl
  get-mapped k ((j, v) ∷ l) = ground (arith, get-mapped k l)

  pub set_all-mapped :
      (l t : List (String × A)) → set_all (mapped f l) (mapped f t) ≡ mapped f (set_all l t)
  unfolding set_all
  set_all-mapped [] t = refl
  set_all-mapped ((k, v) ∷ l) t = set_all-mapped l ((k, v) ∷ t)

  pub set_fields-ok :
      (l : List (String × Result A)) (t t' : List (String × B))
      → set_fields f l t ≡ ok t'
      → t' ≡ set_all (mapped f (values l)) t
  unfolding set_fields set_all
  set_fields-ok [] t t' h = cc
  set_fields-ok ((k, ok v) ∷ l) t t' h = set_fields-ok l ((k, f v) ∷ t) t' h
  set_fields-ok ((k, err e) ∷ l) t t' h = cc
  set_fields-ok ((k, panics) ∷ l) t t' h = cc

pub and_then-ok :
    {A B : Type 0} (r : Result A) (f : A → Result B) {b : B}
    → and_then r f ≡ ok b
    → (a : A) × (r ≡ ok a) × (f a ≡ ok b)
unfolding and_then
and_then-ok (ok a) f h = (a, refl, h)
and_then-ok (err e) f h = cc
and_then-ok panics f h = cc

module _ {S V : Type 0} (lua : Lua S V) where
  -- An index function looks in the getters, then the methods, then what is left of `__index`.
  abbrev pub Ordered : Parts V → Field V → (S → String → Index.Result V) → Type 0
  Ordered parts v index =
      (self : S) (key : String)
      → ((get : S → Index.Result V)
          → Index.find (getters_of lua parts.field_getters) key ≡ some get
          → index self key ≡ get self)
        × ((method : V)
            → Index.find (getters_of lua parts.field_getters) key ≡ none
            → Index.find (methods_of parts.methods) key ≡ some method
            → index self key ≡ Index.ok method)
        × (Index.find (getters_of lua parts.field_getters) key ≡ none
            → Index.find (methods_of parts.methods) key ≡ none
            → (e : List (String × V)) (x : V) → v ≡ table e
            → get key e ≡ some x
            → index self key ≡ Index.ok x)

  Ordered-generate :
      (parts : Parts V) (v : Field V)
      → Ordered parts v (
          Index.generate
            (fallback lua v)
            (getters_of lua parts.field_getters)
            (methods_of parts.methods))
  unfolding fallback Index.fall_back
  Ordered-generate parts v self key =
      let o =
        generate-order (fallback lua v) (getters_of lua parts.field_getters)
          (methods_of parts.methods) self key in
      (o.0, o.1, λ p q e x h k. o.2 p q ∙ rw (h, fallback, Index.fall_back, k) refl)

  generated-Ordered :
      (parts : Parts V) (v : Field V) (index : S → String → Index.Result V)
      → generated lua parts v ≡ ok index
      → Ordered parts v index
  unfolding generated
  generated-Ordered parts (other x) index h = cc
  generated-Ordered parts nil index h =
      subst (Ordered parts nil) (cc h) (Ordered-generate parts nil)
  generated-Ordered parts (function f) index h =
      subst (Ordered parts (function f)) (cc h) (Ordered-generate parts (function f))
  generated-Ordered parts (table t) index h =
      subst (Ordered parts (table t)) (cc h) (Ordered-generate parts (table t))

  plain-Ordered :
      (parts : Parts V) (v : Field V) (index : S → String → Index.Result V)
      → parts.field_getters ≡ none
      → parts.methods ≡ none
      → ok (plain lua v) ≡ ok index
      → Ordered parts v index
  unfolding getters_of methods_of Index.find plain
  plain-Ordered parts v index p q h self key = (
    λ get e. cc (ap (λ g. Index.find (getters_of lua g) key) p),
    λ method n e. cc (ap (λ g. Index.find (methods_of g) key) q),
    λ n m e x i k. ap (λ f. f self key) (sym (same h)) ∙ rw (i, plain, k) refl,
  )
    where
      same : {A : Type 0} {x y : A} → ok x ≡ ok y → x ≡ y
      same e = cc

  chosen-Ordered :
      (parts : Parts V) (v : Field V) (index : S → String → Index.Result V)
      (g : Option (List (String × Getter V))) (m : Option (List (String × V)))
      → parts.field_getters ≡ g
      → parts.methods ≡ m
      → (if is_present g || is_present m then generated lua parts v else ok (plain lua v))
        ≡ ok index
      → Ordered parts v index
  unfolding is_present
  chosen-Ordered parts v index none none p q h = plain-Ordered parts v index p q h
  chosen-Ordered parts v index none (some m) p q h = generated-Ordered parts v index h
  chosen-Ordered parts v index (some g) m p q h = generated-Ordered parts v index h

  pub init_index-Ordered :
      (parts : Parts V) (index : S → String → Index.Result V)
      → init_index lua parts ≡ ok index
      → Ordered parts (field_of "__index" parts.metatable) index
  unfolding init_index
  init_index-Ordered parts index h =
      chosen-Ordered parts (field_of "__index" parts.metatable) index parts.field_getters
        parts.methods refl refl h
