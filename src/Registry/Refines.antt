-- ===== src/Registry/Refines.antt =====
-- The registry operations of src/state.rs against the list of keys with their values.
use mlua.Base.{
  ℕ, ◌≡◌, true, false, Option, none, some, List, [], ◌∷◌, ◌==◌, get_elem?, arith, refl, Bool-cases,
  inl, inr, subst, ap, ◌&&◌,
}
use mlua.Registry.Api.{RegistryApi}
use mlua.Registry.Ops.{
  Env, RegistryId, ref_nil, slot, RegistryKey, ok, err, mismatched_registry_key,
}
use mlua.Registry.Ops
use mlua.Registry.World.{remove, set}
use mlua.Registry.World
use mlua.Registry.Keys

module _ {V : Type 0} (A : RegistryApi V) where
  -- No slot belongs to two keys or to a key and the list of released slots, all of these slots are
  -- in use, and each key's slot holds its value.
  abbrev pub IsKept : Ops.Lua A → Keys.Entries A → Type 0
  IsKept l es = Keys.Kept A l.registry es (World.released A (World.pending A l.unref_list))

  abbrev instance_of : A.Table → ℕ → Option (List ℕ) → Ops.Lua A
  instance_of t a o = record { registry = t; list_id = a; unref_list = o }

  allocate_slot-IsKept :
      (e : Env) (t : A.Table) (a : ℕ) (o : Option (List ℕ)) (v : V) (es : Keys.Entries A)
      → IsKept (instance_of t a o) es
      → let (l, r) = Ops.allocate_slot A e (instance_of t a o) v in
        IsKept l (World.added A r (some v) es)
  unfolding Ops.allocate_slot
  allocate_slot-IsKept e t a o v es k = elim (Bool-cases e.unlikely_memory_error) [
    | inl u ↦ rw u (Keys.Kept-ref A t es _ v k)
    | inr u ↦ elim (Bool-cases e.protect_ok) [
      | inl p ↦ rw (u, p) (Keys.Kept-ref A t es _ v k)
      | inr p ↦ rw (u, p) k
    ]
  ]

  store_value-IsKept :
      (e : Env) (t : A.Table) (a : ℕ) (o : Option (List ℕ)) (v : V) (es : Keys.Entries A)
      → IsKept (instance_of t a o) es
      → let (l, r) = Ops.store_value A e (instance_of t a o) v in
        IsKept l (World.added A r (some v) es)
  unfolding Ops.store_value
  store_value-IsKept e t a none v es k = allocate_slot-IsKept e t a none v es k
  store_value-IsKept e t a (some []) v es k = allocate_slot-IsKept e t a (some []) v es k
  store_value-IsKept e t a (some (i ∷ js)) v es k =
      Keys.Kept-reuse A t es (World.released A js) i v
        (Keys.Kept-less A t es _ _ (λ j. omega arith) k)

  create-IsKept :
      (e : Env) (l : Ops.Lua A) (t : Option V) (es : Keys.Entries A)
      → IsKept l es
      → let (l', r) = Ops.create_registry_value A e l (ok t) in IsKept l' (World.added A r t es)
  unfolding Ops.create_registry_value
  create-IsKept e l none es k = elim (Bool-cases e.stack_grows) [
    | inl g ↦ rw g (Keys.Kept-nil A l.registry es _ k)
    | inr g ↦ rw g k
  ]
  create-IsKept e l (some v) es k = elim (Bool-cases e.stack_grows) [
    | inl g ↦ rw g (store_value-IsKept e l.registry l.list_id l.unref_list v es k)
    | inr g ↦ rw g k
  ]

  same_address : (a : ℕ) → (a == a) ≡ true
  same_address a = ground arith

  drop-IsKept :
      (t : A.Table) (a : ℕ) (o : Option (List ℕ)) (es : Keys.Entries A) (n : ℕ) (id : RegistryId)
      (v : Option V)
      → get_elem? es n ≡ some (record { id = id; value = v })
      → IsKept (instance_of t a o) es
      → IsKept
          (Ops.drop_key A (instance_of t a o) (record { registry_id = id; unref_list = a }))
          (remove es n)
  unfolding Ops.drop_key
  drop-IsKept t a o es n ref_nil v m k =
      Keys.Kept-less A t _ _ _ (λ i. omega arith) (Keys.Kept-remove A t es _ n _ m k)
  drop-IsKept t a none es n (slot j) v m k =
      Keys.Kept-less A t _ _ _ (λ i. omega arith) (Keys.Kept-remove A t es _ n _ m k)
  drop-IsKept t a (some js) es n (slot j) v m k =
      Keys.Kept-less A t _ _ _ (λ i. omega arith) (Keys.Kept-remove A t es _ n _ m k)

  forget-IsKept :
      (t : A.Table) (a : ℕ) (o : Option (List ℕ)) (es : Keys.Entries A) (n : ℕ) (id : RegistryId)
      (v : Option V)
      → get_elem? es n ≡ some (record { id = id; value = v })
      → IsKept (instance_of t a o) es
      → IsKept
          (Ops.remove_registry_value A
            (instance_of t a o)
            (record { registry_id = id; unref_list = a })).0
          (remove es n)
  unfolding Ops.remove_registry_value
  forget-IsKept t a o es n ref_nil v m k =
      rw (same_address a)
        (Keys.Kept-less A t _ _ _ (λ i. omega arith) (Keys.Kept-remove A t es _ n _ m k))
  forget-IsKept t a o es n (slot j) v m k =
      rw (same_address a) (Keys.Kept-unref A t _ _ j (Keys.Kept-remove A t es _ n _ m k))

  expire-IsKept :
      (t : A.Table) (a : ℕ) (o : Option (List ℕ)) (es : Keys.Entries A) (l : Ops.Lua A)
      → Ops.expire_registry_values A (instance_of t a o) ≡ some l
      → IsKept (instance_of t a o) es
      → IsKept l es
  unfolding Ops.expire_registry_values
  expire-IsKept t a none es l e k = cc
  expire-IsKept t a (some js) es l e k =
      let same : instance_of (Ops.unref_all A t js) a (some []) ≡ l = cc in
      subst (λ z. IsKept z es) same
        (Keys.Kept-unref_all A t es (λ i. 0) js (Keys.Kept-less A t es _ _ (λ i. omega arith) k))

  -- What a replacement leaves: one that fails changes no key.
  abbrev After :
      Keys.Entries A → ℕ → Option V → Ops.Lua A × RegistryKey × Ops.Result (Unit {0}) → Type 0
  After es n t (l, key, ok u) = IsKept l (set es n (record { id = key.registry_id; value = t }))
  After es n t (l, key, err x) = IsKept l es

  take_new-After :
      (l : Ops.Lua A) (r : Ops.Result RegistryKey) (es : Keys.Entries A) (n : ℕ) (u : V)
      (key : RegistryKey) (x : World.Entry A)
      → get_elem? es n ≡ some x
      → IsKept l (World.added A r (some u) (remove es n))
      → IsKept l (World.added A r (some u) es)
      → After es n (some u) (Ops.take_new A l key r)
  unfolding Ops.take_new
  take_new-After l (ok k) es n u key x m h g = Keys.Kept-set A _ es _ n _ _ m h
  take_new-After l (err y) es n u key x m h g = g

  replace_value-After :
      (e : Env) (l : Ops.Lua A) (es : Keys.Entries A) (n : ℕ) (id : RegistryId) (v : Option V)
      (t : Option V)
      → get_elem? es n ≡ some (record { id = id; value = v })
      → IsKept l es
      → After es n t
          (Ops.replace_value A e l (record { registry_id = id; unref_list = l.list_id }) t)
  unfolding Ops.replace_value
  replace_value-After e l es n ref_nil v none m k = Keys.Kept-set A l.registry es _ n _ _ m (
      Keys.Kept-nil A l.registry _ _ (
        Keys.Kept-less A l.registry _ _ _ (λ i. omega arith)
          (Keys.Kept-remove A l.registry es _ n _ m k)))
  replace_value-After e l es n (slot j) v none m k = Keys.Kept-set A _ es _ n _ _ m (
      Keys.Kept-nil A _ _ _
        (Keys.Kept-unref A l.registry _ _ j (Keys.Kept-remove A l.registry es _ n _ m k)))
  replace_value-After e l es n ref_nil v (some u) m k =
      let (l', r) = Ops.create_registry_value A e l (ok (some u)) in
      take_new-After l' r es n u _ _ m
        (create-IsKept e l (some u) (remove es n) (
          Keys.Kept-less A l.registry _ _ _ (λ i. omega arith)
            (Keys.Kept-remove A l.registry es _ n _ m k)))
        (create-IsKept e l (some u) es k)
  replace_value-After e l es n (slot j) v (some u) m k =
      Keys.Kept-set A _ es _ n _ _ m
        (Keys.Kept-reuse A l.registry _ _ j u (Keys.Kept-remove A l.registry es _ n _ m k))

  replace-After :
      (e : Env) (l : Ops.Lua A) (es : Keys.Entries A) (n : ℕ) (id : RegistryId) (v : Option V)
      (t : Option V)
      → get_elem? es n ≡ some (record { id = id; value = v })
      → IsKept l es
      → After es n t (
          Ops.replace_registry_value A e l
            (record { registry_id = id; unref_list = l.list_id })
            (ok t))
  unfolding Ops.replace_registry_value
  replace-After e l es n id v t m k = elim (Bool-cases e.stack_grows) [
    | inl g ↦ simp (same_address l.list_id, g) (replace_value-After e l es n id v t m k)
    | inr g ↦ simp (same_address l.list_id, g) k
  ]

  Step-IsKept : {v w : World.World A} → World.Step A v w → IsKept v.lua v.keys → IsKept w.lua w.keys
  Step-IsKept {v} (World.create e t) k = create-IsKept e v.lua t v.keys k
  Step-IsKept {v} (World.replace e n x t l key m h) k =
      subst (After v.keys n t) h (replace-After e v.lua v.keys n x.id x.value t m k)
  Step-IsKept {v} (World.forget n x m) k =
      forget-IsKept v.lua.registry v.lua.list_id v.lua.unref_list v.keys n x.id x.value m k
  Step-IsKept {v} (World.drop n x m) k =
      drop-IsKept v.lua.registry v.lua.list_id v.lua.unref_list v.keys n x.id x.value m k
  Step-IsKept {v} (World.expire l h) k =
      expire-IsKept v.lua.registry v.lua.list_id v.lua.unref_list v.keys l h k

  -- However keys are created, replaced, removed, dropped and expired: no slot belongs to two keys,
  -- or to a key and the list of released slots, all of these slots are in use, and each key's slot
  -- holds the value that the key stands for.
  pub Reach-IsKept : {w : World.World A} → World.Reach A w → IsKept w.lua w.keys
  Reach-IsKept (World.start t a) = record {
    unique = λ i. omega arith;
    used = λ i p. absurd (omega arith);
    stored = tt;
  }
  Reach-IsKept (World.next r s) = Step-IsKept s (Reach-IsKept r)

  read :
      (e : Env) (l : Ops.Lua A) (id : RegistryId) (v : Option V)
      → e.stack_grows ≡ true
      → World.Holds A l.registry id v
      → Ops.registry_value A e l (record { registry_id = id; unref_list = l.list_id }) ≡ ok v
  unfolding Ops.registry_value
  read e l ref_nil v g h = rw (same_address l.list_id, h) refl
  read e l (slot i) v g h = rw (same_address l.list_id, g) (ap ok h)

  -- In a state that can be reached, reading any key gives the value that the last successful
  -- operation on that key was given, whatever happened to other keys since, if the stack can grow.
  pub registry_value_reads :
      {w : World.World A}
      → World.Reach A w
      → (e : Env) (n : ℕ) (x : World.Entry A) → e.stack_grows ≡ true
      → get_elem? w.keys n ≡ some x
      → Ops.registry_value A e w.lua (World.key_of A w x) ≡ ok x.value
  registry_value_reads {w} r e n x g m =
      read e w.lua x.id x.value g
        (Keys.AllHold-get A w.lua.registry w.keys n x m (Reach-IsKept r).stored)

  -- A key of another instance is refused by every operation, and nothing changes.
  pub foreign_key :
      (e : Env) (l : Ops.Lua A) (key : RegistryKey) (t : Ops.Result (Option V))
      → (key.unref_list == l.list_id) ≡ false
      → (Ops.registry_value A e l key ≡ err mismatched_registry_key)
        × (Ops.remove_registry_value A l key ≡ (l, err mismatched_registry_key))
        × (Ops.replace_registry_value A e l key t ≡ (l, key, err mismatched_registry_key))
  unfolding Ops.registry_value Ops.remove_registry_value Ops.replace_registry_value
  foreign_key e l key t h = (rw h refl, rw h refl, rw h refl)

  unref_all-in_use :
      (t : A.Table) (js : List ℕ) (i : ℕ)
      → A.in_use (Ops.unref_all A t js) i ≡ ((World.released A js i == 0) && A.in_use t i)
  unfolding Ops.unref_all
  unref_all-in_use t [] i = ground arith
  unref_all-in_use t (j ∷ js) i =
      ground (arith, A.unref_in_use (Ops.unref_all A t js) j i, unref_all-in_use t js i)

  -- Expiring takes every slot of a dropped key out of use, and no other, and leaves no slot to
  -- expire.
  pub expire_releases :
      (l l' : Ops.Lua A) (js : List ℕ)
      → l.unref_list ≡ some js
      → Ops.expire_registry_values A l ≡ some l'
      → ((i : ℕ) → A.in_use l'.registry i ≡ ((World.released A js i == 0) && A.in_use l.registry i))
        × (l'.unref_list ≡ some [])
  unfolding Ops.expire_registry_values
  expire_releases l l' js u e =
      (λ i. ground (arith, unref_all-in_use l.registry js i), ground arith)
