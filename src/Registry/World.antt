-- ===== src/Registry/World.antt =====
-- A Lua instance with the keys that Rust holds, each with the value that it stands for: the
-- abstract view of the registry is this list.
use mlua.Base.{
  ℕ, zero, suc, ◌+◌, ◌≡◌, Bool, false, Option, none, some, List, [], ◌∷◌, ◌==◌, if◌then◌else◌,
  get_elem?,
}
use mlua.Registry.Api.{RegistryApi}
use mlua.Registry.Ops.{Env, RegistryId, ref_nil, slot, RegistryKey, Result, ok, err}
use mlua.Registry.Ops

abbrev pub remove : {A : Type 0} → List A → ℕ → List A
remove [] i = []
remove (x ∷ xs) zero = xs
remove (x ∷ xs) (suc i) = x ∷ remove xs i

abbrev pub set : {A : Type 0} → List A → ℕ → A → List A
set [] i v = []
set (x ∷ xs) zero v = v ∷ xs
set (x ∷ xs) (suc i) v = x ∷ set xs i v

module _ {V : Type 0} (A : RegistryApi V) where
  -- A key of this instance that Rust holds.
  pub record Entry : Type 0 where
    pub id : RegistryId
    pub value : Option V

  pub record World : Type 0 where
    pub lua : Ops.Lua A
    pub keys : List Entry

  abbrev pub key_of : World → Entry → RegistryKey
  key_of w e = record { registry_id = e.id; unref_list = w.lua.list_id }

  abbrev pub added : Result RegistryKey → Option V → List Entry → List Entry
  added (ok k) v es = record { id = k.registry_id; value = v } ∷ es
  added (err x) v es = es

  -- A key is made, given another value, removed or dropped; dropped keys are expired. The right
  -- value for a key is the last one that an operation on it that succeeded was given.
  pub data Step (w : World) : World → Type 0 where
    create :
        (e : Env) (t : Option V)
        → Step w (record {
          lua = (Ops.create_registry_value A e w.lua (ok t)).0;
          keys = added (Ops.create_registry_value A e w.lua (ok t)).1 t w.keys;
        })
    replace :
        (e : Env) (n : ℕ) (x : Entry) (t : Option V) (l : Ops.Lua A) (k : RegistryKey)
        → get_elem? w.keys n ≡ some x
        → Ops.replace_registry_value A e w.lua (key_of w x) (ok t) ≡ (l, k, ok tt)
        → Step w
            (record { lua = l; keys = set w.keys n (record { id = k.registry_id; value = t }) })
    forget :
        (n : ℕ) (x : Entry)
        → get_elem? w.keys n ≡ some x
        → Step w (record {
          lua = (Ops.remove_registry_value A w.lua (key_of w x)).0;
          keys = remove w.keys n;
        })
    drop :
        (n : ℕ) (x : Entry)
        → get_elem? w.keys n ≡ some x
        → Step w (record { lua = Ops.drop_key A w.lua (key_of w x); keys = remove w.keys n })
    expire :
        (l : Ops.Lua A)
        → Ops.expire_registry_values A w.lua ≡ some l
        → Step w (record w { lua = l })

  -- From a new instance, whose registry may hold references of others.
  pub data Reach : World → Type 0 where
    start :
        (t : A.Table) (address : ℕ)
        → Reach (record {
          lua = record { registry = t; list_id = address; unref_list = some [] };
          keys = [];
        })
    next : {v w : World} → Reach v → Step v w → Reach w

  -- How many of the keys, and of the released slots, are the slot `i`.
  abbrev pub is_slot : RegistryId → ℕ → Bool
  is_slot ref_nil i = false
  is_slot (slot j) i = j == i

  abbrev pub holders : List Entry → ℕ → ℕ
  holders [] i = 0
  holders (x ∷ es) i = (if is_slot x.id i then 1 else 0) + holders es i

  abbrev pub released : List ℕ → ℕ → ℕ
  released [] i = 0
  released (j ∷ js) i = (if j == i then 1 else 0) + released js i

  abbrev pub pending : Option (List ℕ) → List ℕ
  pending none = []
  pending (some js) = js

  -- The registry holds, in the slot of a key, the value that the key stands for.
  abbrev pub Holds : A.Table → RegistryId → Option V → Type 0
  Holds t ref_nil v = v ≡ none
  Holds t (slot i) v = A.rawgeti t i ≡ v

  abbrev pub AllHold : A.Table → List Entry → Type 0
  AllHold t [] = Unit {0}
  AllHold t (x ∷ es) = Holds t x.id x.value × AllHold t es
