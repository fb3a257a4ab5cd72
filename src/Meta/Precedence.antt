-- ===== src/Meta/Precedence.antt =====
-- The precedence of what a type registers under one name, src/state/raw.rs.
use Prim.Native.String.{String}
use mlua.Base.{
  ◌≡◌, refl, sym, ap, ◌∙◌, Bool, true, false, Option, none, some, List, [], ◌∷◌, ◌++◌, subst,
}
use mlua.Index
use mlua.Meta.{
  Field, nil, function, other, table, Getter, callback, return_field, Parts, Result, ok, get,
  set_all, set_fields, RawUserDataRegistry, field_of, push_entries, with_callback, push_getters,
  push_fields, keep_fields, push_methods, keep_methods, and_then, push_setters, push_rest,
  push_last,
}
use mlua.Meta.Build.{Lua, init_index, getters_of, run_found, run, methods_of}
use mlua.Meta.Lookup.{
  or_else, last, mapped, map_some, values, get-set_all, get-mapped, set_all-mapped, set_fields-ok,
  and_then-ok, init_index-Ordered, Ordered,
}

-- The fields of the type become getters: `__index` is there, but no table.
abbrev pub is_kept : {V : Type 0} → Field V → Bool
is_kept nil = false
is_kept (table e) = false
is_kept (function v) = true
is_kept (other v) = true

abbrev HasEntry : {V : Type 0} → String → V → Field V → Type 0
HasEntry {V} key x v = (e : List (String × V)) × (v ≡ table e) × (get key e ≡ some x)

module _ {V : Type 0} (key : String) where
  last-mapped :
      {B : Type 0} (f : V → B) (l : List (String × V))
      → last key (mapped f l) ≡ map_some f (last key l)
  last-mapped f l = ap (get key) (set_all-mapped f l []) ∙ get-mapped f key (set_all l [])

  with_callback-mapped : (l : List (String × V)) → with_callback l ≡ mapped callback l
  unfolding with_callback
  with_callback-mapped [] = refl
  with_callback-mapped ((k, m) ∷ l) = ap (λ r. (k, callback m) ∷ r) (with_callback-mapped l)

  -- The getters that a name finds: of the fields that are kept, then of the callbacks.
  abbrev both : List (String × V) → List (String × Result V) → Option (Getter V)
  both getters fields =
      or_else (map_some return_field (last key (values fields)))
        (map_some callback (last key getters))

  filled-both :
      (getters : List (String × V)) (fields : List (String × Result V))
      (t : List (String × Getter V))
      → set_fields return_field fields (set_all (with_callback getters) []) ≡ ok t
      → get key t ≡ both getters fields
  filled-both getters fields t h =
      ap (get key) (set_fields-ok return_field fields (set_all (with_callback getters) []) t h)
      ∙ get-set_all key (mapped return_field (values fields)) (set_all (with_callback getters) [])
      ∙ ap (λ o. or_else o (last key (with_callback getters)))
          (last-mapped return_field (values fields))
      ∙ ap (λ o. or_else (map_some return_field (last key (values fields))) o)
          (ap (last key) (with_callback-mapped getters) ∙ last-mapped callback getters)

  -- What a step leaves in the table `__index` for what was registered.
  abbrev Filled : List (String × V) → List (String × Field V) → Type 0
  Filled l t =
      (is_kept (field_of "__index" t) ≡ false)
      × ((x : V) → last key l ≡ some x → HasEntry key x (field_of "__index" t))

  indexed-lem :
      (fields : List (String × Result V)) (t t1 : List (String × Field V))
      (rest : List (String × Result V)) (e0 e : List (String × V))
      → set_fields (λ v. v) fields e0 ≡ ok e
      → ◌≡◌ {A = Result (List (String × Field V) × List (String × Result V))}
          (ok (("__index", table e) ∷ t, []))
          (ok (t1, rest))
      → (rest ≡ []) × Filled (values fields) t1
  unfolding field_of get
  indexed-lem fields t t1 rest e0 e p q =
      let it : field_of "__index" t1 ≡ table e = ap (field_of "__index") (sym (tables q)) in
      (
        cc,
        (
          rw it refl,
          λ x h. (
            e,
            it,
            ap (get key) (set_fields-ok (λ (v : V). v) fields e0 e p)
                ∙ get-set_all key (mapped (λ v. v) (values fields)) e0
                ∙ ap (λ o. or_else o (get key e0))
                    (last-mapped (λ v. v) (values fields) ∙ ap (map_some (λ v. v)) h),
          ),
        ),
      )
    where
      tables :
          {l l' : List (String × Field V)} {r r' : List (String × Result V)}
          → ◌≡◌ {A = Result (List (String × Field V) × List (String × Result V))}
              (ok (l, r))
              (ok (l', r'))
          → l ≡ l'
      tables e = cc

  keep_fields-lem :
      (fields : List (String × Result V)) (t t1 : List (String × Field V))
      (rest : List (String × Result V)) (v : Field V)
      → keep_fields fields t v ≡ ok (t1, rest)
      → is_kept v ≡ false
      → (rest ≡ []) × Filled (values fields) t1
  unfolding keep_fields
  keep_fields-lem fields t t1 rest nil h k =
      let (e, p, q) =
        and_then-ok (set_fields (λ v. v) fields []) (λ e. ok (("__index", table e) ∷ t, [])) h in
      indexed-lem fields t t1 rest [] e p q
  keep_fields-lem fields t t1 rest (table e0) h k =
      let (e, p, q) =
        and_then-ok (set_fields (λ v. v) fields e0) (λ e. ok (("__index", table e) ∷ t, [])) h in
      indexed-lem fields t t1 rest e0 e p q
  keep_fields-lem fields t t1 rest (function v) h k = cc
  keep_fields-lem fields t t1 rest (other v) h k = cc

  kept_fields-lem :
      (fields rest : List (String × Result V)) (t t1 : List (String × Field V)) (v : Field V)
      → keep_fields fields t v ≡ ok (t1, rest)
      → is_kept v ≡ true
      → (t1 ≡ t) × (rest ≡ fields)
  unfolding keep_fields
  kept_fields-lem fields rest t t1 nil h k = cc
  kept_fields-lem fields rest t t1 (table e0) h k = cc
  kept_fields-lem fields rest t t1 (function v) h k = (cc, cc)
  kept_fields-lem fields rest t t1 (other v) h k = (cc, cc)

  push_fields-kept :
      (fields rest : List (String × Result V)) (t t1 : List (String × Field V))
      → push_fields fields t ≡ ok (t1, rest)
      → is_kept (field_of "__index" t) ≡ true
      → (t1 ≡ t) × (rest ≡ fields)
  unfolding push_fields
  push_fields-kept [] rest t t1 h k = (cc, cc)
  push_fields-kept (f ∷ fields) rest t t1 h k =
      kept_fields-lem (f ∷ fields) rest t t1 (field_of "__index" t) h k

  push_fields-Filled :
      (fields rest : List (String × Result V)) (t t1 : List (String × Field V))
      → push_fields fields t ≡ ok (t1, rest)
      → is_kept (field_of "__index" t) ≡ false
      → (rest ≡ []) × Filled (values fields) t1
  unfolding push_fields get set_all
  push_fields-Filled [] rest t t1 h k = (cc, (cc, λ x e. cc))
  push_fields-Filled (f ∷ fields) rest t t1 h k =
      keep_fields-lem (f ∷ fields) t t1 rest (field_of "__index" t) h k

  made-both :
      {S : Type 0} (lua : Lua S V) (getters : List (String × V)) (fields : List (String × Result V))
      (o : Option (List (String × Getter V)))
      → and_then
          (set_fields return_field fields (set_all (with_callback getters) []))
          (λ t. ok (some t))
        ≡ ok o
      → Index.find (getters_of lua o) key ≡ run_found lua (both getters fields)
  unfolding getters_of Index.find
  made-both lua getters fields o h =
      let (t, p, q) =
        and_then-ok (set_fields return_field fields (set_all (with_callback getters) []))
          (λ t. ok (some t)) h in
      subst (λ r. Index.find (getters_of lua r) key ≡ run_found lua (both getters fields)) (same q)
        (ap (run_found lua) (filled-both getters fields t p))
    where
      same : {A : Type 0} {x y : A} → ok x ≡ ok y → x ≡ y
      same e = cc

  push_getters-both :
      {S : Type 0} (lua : Lua S V) (getters : List (String × V)) (fields : List (String × Result V))
      (o : Option (List (String × Getter V)))
      → push_getters getters fields ≡ ok o
      → Index.find (getters_of lua o) key ≡ run_found lua (both getters fields)
  unfolding push_getters getters_of Index.find run_found
  push_getters-both lua [] [] none h = refl
  push_getters-both lua [] [] (some t) h = cc
  push_getters-both lua [] (f ∷ fields) o h = made-both lua [] (f ∷ fields) o h
  push_getters-both lua (g ∷ getters) fields o h = made-both lua (g ∷ getters) fields o h

  -- The methods are in the table `__index`, and take nothing else from it.
  abbrev Holds :
      List (String × V) → Field V → List (String × Field V) × Option (List (String × V)) → Type 0
  Holds methods v (t, o) =
      (o ≡ none)
      × ((x : V) → last key methods ≡ some x → HasEntry key x (field_of "__index" t))
      × ((x : V)
          → last key methods ≡ none
          → HasEntry key x v
          → HasEntry key x (field_of "__index" t))

  keep_methods-Holds :
      (methods : List (String × V)) (t : List (String × Field V)) (v : Field V)
      → is_kept v ≡ false
      → Holds methods v (keep_methods methods t v)
  unfolding keep_methods field_of get
  keep_methods-Holds methods t nil k =
      (refl, λ x h. (set_all methods [], refl, h), λ x n (l, p, q). cc)
  keep_methods-Holds methods t (table l0) k = (
    refl,
    λ x h.
        (set_all methods l0, refl, get-set_all key methods l0 ∙ ap (λ o. or_else o (get key l0)) h),
    λ x n (l, p, q). (
      set_all methods l0,
      refl,
      get-set_all key methods l0 ∙ ap (λ o. or_else o (get key l0)) n ∙ ap (get key) (same p) ∙ q,
    ),
  )
    where
      same : {l l' : List (String × V)} → table l ≡ table l' → l ≡ l'
      same e = cc
  keep_methods-Holds methods t (function f) k = cc
  keep_methods-Holds methods t (other f) k = cc

  push_methods-Holds :
      (methods : List (String × V)) (t : List (String × Field V))
      → is_kept (field_of "__index" t) ≡ false
      → Holds methods (field_of "__index" t) (push_methods methods t)
  unfolding push_methods
  push_methods-Holds [] t k = (refl, λ x h. cc, λ x n e. e)
  push_methods-Holds (m ∷ methods) t k = keep_methods-Holds (m ∷ methods) t (field_of "__index" t) k

  keep_methods-kept :
      (methods : List (String × V)) (t : List (String × Field V)) (v : Field V)
      → is_kept v ≡ true
      → Index.find (methods_of (keep_methods methods t v).1) key ≡ last key methods
  unfolding keep_methods methods_of Index.find
  keep_methods-kept methods t nil k = cc
  keep_methods-kept methods t (table l) k = cc
  keep_methods-kept methods t (function f) k = refl
  keep_methods-kept methods t (other f) k = refl

  push_methods-kept :
      (methods : List (String × V)) (t : List (String × Field V))
      → is_kept (field_of "__index" t) ≡ true
      → Index.find (methods_of (push_methods methods t).1) key ≡ last key methods
  unfolding push_methods methods_of Index.find
  push_methods-kept [] t k = refl
  push_methods-kept (m ∷ methods) t k = keep_methods-kept (m ∷ methods) t (field_of "__index" t) k

-- What a name finds among the getters that a type registered: those that are fields, if fields become getters, before the
-- callbacks.
abbrev pub getter_of : {V : Type 0} → Bool → RawUserDataRegistry V → String → Option (Getter V)
getter_of true registry key =
    or_else (map_some return_field (last key (values registry.fields)))
      (map_some callback (last key registry.field_getters))
getter_of false registry key = map_some callback (last key registry.field_getters)

abbrev pub method_of : {V : Type 0} → RawUserDataRegistry V → String → Option V
method_of registry key = last key (registry.methods ++ registry.async_methods)

-- What an index function gives for a name that is registered.
abbrev pub Finds :
    {S V : Type 0}
    → Lua S V
    → Bool
    → RawUserDataRegistry V
    → (S → String → Index.Result V)
    → S
    → String
    → Type 0
Finds {V = V} lua kept registry index self key =
    ((g : Getter V) → getter_of kept registry key ≡ some g → index self key ≡ run lua g self)
    × ((m : V)
        → getter_of kept registry key ≡ none
        → method_of registry key ≡ some m
        → index self key ≡ Index.ok m)
    × ((v : V)
        → getter_of kept registry key ≡ none
        → method_of registry key ≡ none
        → last key (values registry.fields) ≡ some v
        → index self key ≡ Index.ok v)

module _ {S V : Type 0} (lua : Lua S V) where
  abbrev parts_of :
      RawUserDataRegistry V
      → Option (List (String × Getter V))
      → List (String × Field V) × Option (List (String × V))
      → Parts V
  parts_of registry g (t2, o) = record {
    metatable = ("__gc", function registry.destructor) ∷ t2;
    field_getters = g;
    field_setters = push_setters registry.field_setters;
    methods = o;
  }

  Finds-kept :
      (registry : RawUserDataRegistry V) (t t1 : List (String × Field V))
      (rest : List (String × Result V)) (g : Option (List (String × Getter V)))
      (index : S → String → Index.Result V) (self : S) (key : String)
      → push_fields registry.fields t ≡ ok (t1, rest)
      → push_getters registry.field_getters rest ≡ ok g
      → Ordered lua
          (parts_of registry g (push_methods (registry.methods ++ registry.async_methods) t1))
          (field_of "__index" (push_methods (registry.methods ++ registry.async_methods) t1).0)
          index
      → is_kept (field_of "__index" t) ≡ true
      → Finds lua true registry index self key
  unfolding run_found
  Finds-kept registry t t1 rest g index self key h q o k =
      let (a, b) = push_fields-kept key registry.fields rest t t1 h k in
      let found =
        push_getters-both key lua registry.field_getters rest g q
        ∙ ap (λ r. run_found lua (both key registry.field_getters r)) b in
      let methods =
        push_methods-kept key (registry.methods ++ registry.async_methods) t1
          (ap (λ x. is_kept (field_of "__index" x)) a ∙ k) in
      (
        λ x e. (o self key).0 (run lua x) (found ∙ ap (run_found lua) e),
        λ m n e. (o self key).1 m (found ∙ ap (run_found lua) n) (methods ∙ e),
        λ v n m e. cc,
      )

  Finds-table :
      (registry : RawUserDataRegistry V) (t t1 : List (String × Field V))
      (rest : List (String × Result V)) (g : Option (List (String × Getter V)))
      (index : S → String → Index.Result V) (self : S) (key : String)
      → push_fields registry.fields t ≡ ok (t1, rest)
      → push_getters registry.field_getters rest ≡ ok g
      → Ordered lua
          (parts_of registry g (push_methods (registry.methods ++ registry.async_methods) t1))
          (field_of "__index" (push_methods (registry.methods ++ registry.async_methods) t1).0)
          index
      → is_kept (field_of "__index" t) ≡ false
      → Finds lua false registry index self key
  unfolding run_found get set_all Index.find methods_of
  Finds-table registry t t1 rest g index self key h q o k =
      let (a, (no_table, filled)) = push_fields-Filled key registry.fields rest t t1 h k in
      let found =
        push_getters-both key lua registry.field_getters rest g q
        ∙ ap (λ r. run_found lua (both key registry.field_getters r)) a in
      let (none_left, holds, keeps) =
        push_methods-Holds key (registry.methods ++ registry.async_methods) t1 no_table in
      let no_methods = ap (λ r. Index.find (methods_of r) key) none_left in
      (
        λ x e. (o self key).0 (run lua x) (found ∙ ap (run_found lua) e),
        λ m n e.
            (let (entries, p, r) = holds m e in
              (o self key).2 (found ∙ ap (run_found lua) n) no_methods entries m p r),
        λ v n m e.
            (let (entries, p, r) = keeps v m (filled v e) in
              (o self key).2 (found ∙ ap (run_found lua) n) no_methods entries v p r),
      )

  -- A name that a type registers is looked up in its userdata as a getter, else as a method, else as a field, of each the last one that was
  -- registered under the name, async methods after the others. But where the type has an `__index` that is
  -- no table, its fields come before everything else.
  pub push_entries-order :
      (registry : RawUserDataRegistry V) (t : List (String × Field V)) (parts : Parts V)
      (index : S → String → Index.Result V)
      → push_entries registry t ≡ ok parts
      → init_index lua parts ≡ ok index
      → (self : S) (key : String)
      → Finds lua (is_kept (field_of "__index" t)) registry index self key
  unfolding push_entries push_rest push_last field_of get
  push_entries-order registry t parts index h i self key =
      let ((t1, rest), p, q) = and_then-ok (push_fields registry.fields t) (push_rest registry) h in
      let (g, r, u) =
        and_then-ok (push_getters registry.field_getters rest) (push_last registry t1) q in
      let all = push_methods (registry.methods ++ registry.async_methods) t1 in
      let o : Ordered lua (parts_of registry g all) (field_of "__index" all.0) index =
        subst (λ x. Ordered lua x (field_of "__index" x.metatable) index) (same u)
          (init_index-Ordered lua parts index i) in
      split (field_of "__index" t) refl (Finds-kept registry t t1 rest g index self key p r o)
        (Finds-table registry t t1 rest g index self key p r o)
    where
      same : {x y : Parts V} → ok x ≡ ok y → y ≡ x
      same e = cc

      split :
          (v : Field V)
          → field_of "__index" t ≡ v
          → (is_kept v ≡ true → Finds lua true registry index self key)
          → (is_kept v ≡ false → Finds lua false registry index self key)
          → Finds lua (is_kept v) registry index self key
      split nil e a b = b refl
      split (table l) e a b = b refl
      split (function f) e a b = a refl
      split (other f) e a b = a refl
