-- ===== src/Registry/Tests.antt =====
-- A registry that never reuses a reference, and the theorems over it.
use mlua.Base.{
  ℕ, ◌+◌, ◌≡◌, ◌≢◌, refl, Bool, true, false, not, ◌&&◌, ◌||◌, Option, none, some, [], ◌∷◌, ltb,
  ◌==◌, if◌then◌else◌, arith,
}
use mlua.Registry.Api.{RegistryApi}
use mlua.Registry.Ops.{Env, RegistryKey, ref_nil, slot, ok, err, mismatched_registry_key}
use mlua.Registry.Ops
use mlua.Registry.World
use mlua.Registry.Refines

record Table : Type 0 where
  limit : ℕ
  cell : ℕ → Option ℕ
  used : ℕ → Bool

abbrev put : {B : Type 0} → (ℕ → B) → ℕ → B → ℕ → B
put f i b j = if i == j then b else f j

abbrev in_use : Table → ℕ → Bool
in_use t i = ltb i t.limit && t.used i

abbrev lual_ref : Table → ℕ → Table × ℕ
lual_ref t v = (
  record {
    limit = t.limit + 1;
    cell = put t.cell t.limit (some v);
    used = put t.used t.limit true;
  },
  t.limit,
)

abbrev lual_unref : Table → ℕ → Table
lual_unref t i = record t { used = put t.used i false }

abbrev rawseti : Table → ℕ → ℕ → Table
rawseti t i v = record t { cell = put t.cell i (some v) }

ref_in_use_lem :
    (t : Table) (v i : ℕ) → in_use (lual_ref t v).0 i ≡ ((lual_ref t v).1 == i || in_use t i)
ref_in_use_lem t v i = ground arith

ref_fresh_lem : (t : Table) (v : ℕ) → in_use t (lual_ref t v).1 ≡ false
ref_fresh_lem t v = ground arith

ref_value_lem : (t : Table) (v : ℕ) → (lual_ref t v).0.cell (lual_ref t v).1 ≡ some v
ref_value_lem t v = ground arith

ref_others_lem : (t : Table) (v i : ℕ) → in_use t i ≡ true → (lual_ref t v).0.cell i ≡ t.cell i
ref_others_lem t v i h = ground arith

unref_in_use_lem : (t : Table) (i j : ℕ) → in_use (lual_unref t i) j ≡ (not (i == j) && in_use t j)
unref_in_use_lem t i j = ground arith

set_value_lem : (t : Table) (i v : ℕ) → (rawseti t i v).cell i ≡ some v
set_value_lem t i v = ground arith

set_others_lem : (t : Table) (i v j : ℕ) → i ≢ j → (rawseti t i v).cell j ≡ t.cell j
set_others_lem t i v j h = ground arith

abbrev api : RegistryApi ℕ
api = record {
  Table = Table;
  lual_ref = lual_ref;
  lual_unref = lual_unref;
  rawseti = rawseti;
  rawgeti = λ t i. t.cell i;
  in_use = in_use;
  ref_fresh = ref_fresh_lem;
  ref_in_use = ref_in_use_lem;
  ref_value = ref_value_lem;
  ref_others = ref_others_lem;
  unref_in_use = unref_in_use_lem;
  unref_others = λ t i j h u. refl;
  set_in_use = λ t i v j. refl;
  set_value = set_value_lem;
  set_others = set_others_lem;
}

abbrev quiet : Env
quiet = record { stack_grows = true; unlikely_memory_error = true; protect_ok = true }

abbrev fresh : Table
fresh = record { limit = 1; cell = λ i. none; used = λ i. false }

abbrev two_slots : Table
two_slots = (lual_ref (lual_ref fresh 10).0 20).0

-- Two keys; the first is dropped, and its slot is reused by the third.
abbrev before_drop : World.World api
before_drop = record {
  lua = record { registry = two_slots; list_id = 77; unref_list = some [] };
  keys = record { id = slot 2; value = some 20 } ∷ record { id = slot 1; value = some 10 } ∷ [];
}

abbrev reused : World.World api
reused = record {
  lua = record { registry = rawseti two_slots 1 30; list_id = 77; unref_list = some [] };
  keys = record { id = slot 1; value = some 30 } ∷ record { id = slot 2; value = some 20 } ∷ [];
}

before_drop-Reach : World.Reach api before_drop
unfolding Ops.create_registry_value
before_drop-Reach =
    World.next (World.next (World.start fresh 77) (World.create quiet (some 10)))
      (World.create quiet (some 20))

reused-Reach : World.Reach api reused
unfolding Ops.create_registry_value Ops.drop_key
reused-Reach =
    World.next
      (World.next before_drop-Reach (World.drop 1 (record { id = slot 1; value = some 10 }) refl))
      (World.create quiet (some 30))

Reach-IsKept_example : Refines.IsKept api reused.lua reused.keys
Reach-IsKept_example = Refines.Reach-IsKept api reused-Reach

abbrev dropped : Ops.Lua api
dropped = record { registry = two_slots; list_id = 77; unref_list = some (1 ∷ []) }
