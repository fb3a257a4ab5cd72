-- ===== src/RefStack/Tests.antt =====
-- References to numbers, nil being 0.
use mlua.Base.{ℕ, refl, Bool, true, false, [], ◌∷◌, arith, ◌==◌, if◌then◌else◌, zero, suc}
use mlua.RefStack.{ok, panics, ExtraData, LuaStack, PreallocatedFailure, new, reserved}
use mlua.RefStack
use mlua.RefStack.World.{Ref}
use mlua.RefStack.World
use mlua.RefStack.Slots.{refs_at}
use mlua.RefStack.Slots
use mlua.RefStack.Refs

abbrev always : ℕ → Bool
always n = true

abbrev never : ℕ → Bool
never n = false

abbrev thread : LuaStack ℕ
thread = record { slots = λ k. 0; top = 0; capacity = 20 }

abbrev World' : Type 0
World' = World.World ℕ 0

abbrev slots_of : ℕ → ℕ → ℕ
slots_of a k = if k == 1 then a else 0

-- One reference, to 7.
abbrev one : World'
one = record {
  extra = record {
    ref_thread = record { slots = slots_of 7; top = 1; capacity = 20 };
    ref_stack_size = 19;
    ref_stack_top = 1;
    ref_free = [];
    wrapped_failure_pool = [];
    wrapped_failure_top = 0;
  };
  refs = record { index = 1; value = 7 } ∷ [];
  failures = [];
}

one-Reach : World.Reach ℕ 0 0 one
unfolding RefStack.init RefStack.pop_ref RefStack.ref_stack_pop RefStack.push RefStack.set
one-Reach =
    World.next (World.start thread refl (omega arith) (omega arith)) (World.pop_ref always 7)

-- A failure made, put into the pool and reserved again.
abbrev pooled : World'
pooled = record {
  extra = record {
    ref_thread = record { slots = slots_of 5; top = 1; capacity = 20 };
    ref_stack_size = 19;
    ref_stack_top = 1;
    ref_free = [];
    wrapped_failure_pool = 1 ∷ [];
    wrapped_failure_top = 0;
  };
  refs = [];
  failures = reserved ∷ [];
}

pooled-Reach : World.Reach ℕ 0 0 pooled
unfolding RefStack.init RefStack.reserve RefStack.release RefStack.release_new RefStack.pop_ref
    RefStack.ref_stack_pop RefStack.push RefStack.set
pooled-Reach =
    World.next
      (World.next
        (World.next (World.start thread refl (omega arith) (omega arith)) (World.reserve 5))
        (World.release always 0 (new 5) refl))
      (World.reserve 6)

Reach-IsOwned_example : Slots.IsOwned 0 0 one
Reach-IsOwned_example = Refs.Reach-IsOwned 0 one-Reach

-- References to 7, as many as are asked for.
filled : ℕ → World'
unfolding RefStack.init RefStack.pop_ref
filled zero = record { extra = RefStack.init thread; refs = []; failures = [] }
filled (suc n) =
    let w = filled n in
    record w {
      extra = (RefStack.pop_ref always 7 w.extra).0;
      refs = World.granted ℕ 0 7 (RefStack.pop_ref always 7 w.extra).1 w.refs;
    }

filled-Reach : (n : ℕ) → World.Reach ℕ 0 0 (filled n)
unfolding filled
filled-Reach zero = World.start thread refl (omega arith) (omega arith)
filled-Reach (suc n) = World.next (filled-Reach n) (World.pop_ref always 7)
