-- ===== src/RefStack.antt =====
-- src/state/util.rs, src/state/raw.rs and src/types/value_ref.rs: references to Lua values, which
-- are slots of the stack of an auxiliary thread, and the pool of preallocated failures.
-- A stack is its slots from 1 on, its top, and the number of slots that Lua has promised. The last
-- element of a `Vec` is the first of the list. Numbers stay far below 2 ^ 31, since Lua limits its
-- stacks.
pub mod World
pub mod Slots
pub mod Steps
pub mod Refs
mod Tests
use mlua.Base.{
  ℕ, zero, suc, ◌+◌, ◌-◌, ◌/◌, Bool, true, false, List, [], ◌∷◌, Option, none, some, ◌==◌, ltb, leb,
  if◌then◌else◌,
}

-- An element of `PreallocatedFailure`; a new one has its userdata.
pub data PreallocatedFailure (V : Type 0) : Type 0 where
  new : V → PreallocatedFailure V
  reserved : PreallocatedFailure V

pub data Result (A : Type 0) : Type 0 where
  ok : A → Result A
  panics : Result A

pub record LuaStack (V : Type 0) : Type 0 where
  pub slots : ℕ → V
  pub top : ℕ
  pub capacity : ℕ

pub record ExtraData (V : Type 0) : Type 0 where
  pub ref_thread : LuaStack V
  pub ref_stack_size : ℕ
  pub ref_stack_top : ℕ
  pub ref_free : List ℕ
  pub wrapped_failure_pool : List ℕ
  pub wrapped_failure_top : ℕ

-- The loop that halves what it asks for: `can` is whether `lua_checkstack` succeeds.
unfoldable pub grow : ℕ → (ℕ → Bool) → ℕ → ℕ
grow zero can inc = 0
grow (suc fuel) can inc =
    let smaller = grow fuel can (inc / 2) in
    if inc == 0 then 0 else if can inc then inc else smaller

-- `ExtraData::init`, for a new thread on whose stack is at most the traceback function: of the
-- `LUA_MINSTACK` slots, one is reserved.
unfoldable pub init : {V : Type 0} → LuaStack V → ExtraData V
init ref_thread = record {
  ref_thread = ref_thread;
  ref_stack_size = 20 - 1;
  ref_stack_top = ref_thread.top;
  ref_free = [];
  wrapped_failure_pool = [];
  wrapped_failure_top = 0;
}

module _ {V : Type 0} where
  unfoldable pub set : ℕ → V → (ℕ → V) → ℕ → V
  set i v slots k = if k == i then v else slots k

  unfoldable pub push : V → LuaStack V → LuaStack V
  unfolding set
  push v s = record s { slots = set (s.top + 1) v s.slots; top = s.top + 1 }

  unfoldable pub pop : LuaStack V → LuaStack V
  pop s = record s { top = s.top - 1 }

  unfoldable pub replace : ℕ → LuaStack V → LuaStack V
  unfolding set
  replace i s = record s { slots = set i (s.slots s.top) s.slots; top = s.top - 1 }

  unfoldable pub checkstack : ℕ → LuaStack V → LuaStack V
  checkstack n s = record s {
    capacity = if ltb s.capacity (s.top + n) then s.top + n else s.capacity;
  }

  -- The value is on top of the auxiliary thread's stack.
  unfoldable pub ref_stack_pop : (ℕ → Bool) → ExtraData V → ExtraData V × Result ℕ
  unfolding replace grow checkstack pop
  ref_stack_pop can extra = elim extra.ref_free [
    | free ∷ rest ↦
        (record extra { ref_free = rest; ref_thread = replace free extra.ref_thread }, ok free)
    | [] ↦
        let inc = grow (suc extra.ref_stack_size) can extra.ref_stack_size in
        if leb extra.ref_stack_size extra.ref_stack_top
        then (if inc == 0 then (record extra { ref_thread = pop extra.ref_thread }, panics) else (
          record extra {
            ref_thread = checkstack inc extra.ref_thread;
            ref_stack_size = extra.ref_stack_size + inc;
            ref_stack_top = extra.ref_stack_top + 1;
          },
          ok (extra.ref_stack_top + 1),
        ))
        else (
          record extra { ref_stack_top = extra.ref_stack_top + 1 },
          ok (extra.ref_stack_top + 1),
        )
  ]

  -- `pop_ref`, of a value on top of the current stack; `clone_ref` is the same with the value of
  -- a reference.
  unfoldable pub pop_ref : (ℕ → Bool) → V → ExtraData V → ExtraData V × Result ℕ
  unfolding push ref_stack_pop
  pop_ref can v extra = ref_stack_pop can (record extra { ref_thread = push v extra.ref_thread })

  unfoldable pub clone_ref : (ℕ → Bool) → ℕ → ExtraData V → ExtraData V × Result ℕ
  unfolding push ref_stack_pop
  clone_ref can index extra =
      ref_stack_pop can
        (record extra { ref_thread = push (extra.ref_thread.slots index) extra.ref_thread })

  module _ (nil : V) where
    -- A slot is cleared and put with the free ones.
    unfoldable pub drop_ref : ℕ → ExtraData V → ExtraData V
    unfolding push replace
    drop_ref index extra = record extra {
      ref_thread = replace index (push nil extra.ref_thread);
      ref_free = index ∷ extra.ref_free;
    }

    unfoldable pub reserve : V → ExtraData V → ExtraData V × PreallocatedFailure V
    reserve ud extra =
        if ltb 0 extra.wrapped_failure_top
        then (record extra { wrapped_failure_top = extra.wrapped_failure_top - 1 }, reserved)
        else (extra, new ud)

    -- The failure that is thrown, and which leaves the pool.
    unfoldable pub use_failure : PreallocatedFailure V → ExtraData V → ExtraData V × Result V
    unfolding drop_ref
    use_failure (new ud) extra = (extra, ok ud)
    use_failure reserved extra = elim extra.wrapped_failure_pool [
      | [] ↦ (extra, panics)
      | index ∷ pool ↦ (
        drop_ref index (record extra { wrapped_failure_pool = pool }),
        ok (extra.ref_thread.slots index),
      )
    ]

    unfoldable pub release_new : ExtraData V × Result ℕ → ExtraData V
    release_new (extra, ok index) = record extra {
      wrapped_failure_pool = index ∷ extra.wrapped_failure_pool;
      wrapped_failure_top = extra.wrapped_failure_top + 1;
    }
    release_new (extra, panics) = extra

    unfoldable pub release : (ℕ → Bool) → PreallocatedFailure V → ExtraData V → ExtraData V
    unfolding pop_ref release_new
    release can (new ud) extra = release_new (pop_ref can ud extra)
    release can reserved extra = record extra {
      wrapped_failure_top = extra.wrapped_failure_top + 1;
    }
