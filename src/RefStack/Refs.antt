-- ===== src/RefStack/Refs.antt =====
-- References of src/types/value_ref.rs and failures of src/state/util.rs, in any order of
-- operations.
use mlua.Base.{
  ℕ, zero, suc, ◌<◌, ◌≤◌, ◌≡◌, ◌≢◌, refl, Bool, true, false, List, [], ◌∷◌, some, get_elem?, ◌⊎◌,
  arith, ◌/◌,
}
use mlua.RefStack.{ok, panics, PreallocatedFailure, new, reserved}
use mlua.RefStack
use mlua.RefStack.World.{Ref}
use mlua.RefStack.World
use mlua.RefStack.Slots.{refs_at, reservations-remove}
use mlua.RefStack.Slots
use mlua.RefStack.Steps

-- With enough fuel, the loop finds some number of slots unless not even one can be had, and it
-- never asks for more than it was told to.
pub grow_lem :
    (fuel : ℕ) (can : ℕ → Bool) (inc : ℕ)
    → inc < fuel
    → (RefStack.grow fuel can inc ≤ inc)
      × ((RefStack.grow fuel can inc ≡ 0) ⊎ (can (RefStack.grow fuel can inc) ≡ true))
      × (RefStack.grow fuel can inc ≡ 0 → (inc ≡ 0) ⊎ (can 1 ≡ false))
unfolding RefStack.grow
grow_lem zero can inc h = ground arith
grow_lem (suc fuel) can zero h = ground arith
grow_lem (suc fuel) can (suc inc) h = ground (arith, grow_lem fuel can (suc inc / 2) (omega arith))

exhausted :
    {V : Type 0} (can : ℕ → Bool) (v : V) (e : RefStack.ExtraData V) (free : List ℕ)
    → e.ref_free ≡ free
    → 1 ≤ e.ref_stack_size
    → (RefStack.pop_ref can v e).1 ≡ panics
    → (e.ref_free ≡ [])
      × (can 1 ≡ false)
      × ((RefStack.pop_ref can v e).0.ref_thread.top ≡ e.ref_thread.top)
unfolding RefStack.pop_ref RefStack.ref_stack_pop RefStack.push RefStack.pop
exhausted can v e (f ∷ free) h s p = ground arith
exhausted can v e [] h s p =
    ground (arith, grow_lem (suc e.ref_stack_size) can e.ref_stack_size (omega arith))

module _ {V : Type 0} (nil : V) {base : ℕ} where
  Step-IsOwned :
      {v w : World.World V nil}
      → World.Step V nil v w
      → Slots.IsOwned nil base v
      → Slots.IsOwned nil base w
  unfolding RefStack.clone_ref RefStack.pop_ref
  Step-IsOwned {v} (World.pop_ref can x) h = Steps.pop_ref-IsOwned nil base can x v h
  Step-IsOwned {v} (World.clone_ref can i r m) h =
      rw (← Slots.Held-get v.extra.ref_thread.slots v.refs i r h.held m)
        (Steps.pop_ref-IsOwned nil base can (v.extra.ref_thread.slots r.index) v h)
  Step-IsOwned {v} (World.drop_ref i r m) h = Steps.drop_ref-IsOwned nil base i r v m h
  Step-IsOwned {v} (World.reserve ud) h = Steps.reserve-IsOwned nil base ud v h
  Step-IsOwned {v} (World.use_failure i f m) h =
      Steps.use_failure-IsOwned nil base i f v v.extra.wrapped_failure_pool refl m h
  Step-IsOwned {v} (World.release can i f m) h = Steps.release-IsOwned nil base can i f v m h

  -- However references are made, cloned and dropped, and failures reserved, used and released, each
  -- slot above the base is free, or in the pool, or one reference's, exactly once; a reference's
  -- slot holds the value it was made for; and Lua has promised room for one more value.
  pub Reach-IsOwned : {w : World.World V nil} → World.Reach V nil base w → Slots.IsOwned nil base w
  unfolding RefStack.init
  Reach-IsOwned (World.start t e b c) = record {
    top_eq = refl;
    sized = omega arith;
    bounded = omega (arith, e, b);
    room = omega (arith, c);
    based = omega (arith, e);
    owned = λ k. ground (arith, e);
    held = tt;
    pooled = refl;
  }
  Reach-IsOwned (World.next r s) = Step-IsOwned s (Reach-IsOwned r)

  -- In a state that can be reached, a new reference reads its value, has a slot that no other
  -- reference has, and leaves every other reference its value.
  pub pop_ref-reads :
      {w : World.World V nil}
      → World.Reach V nil base w
      → (can : ℕ → Bool) (v : V) (index : ℕ) → (RefStack.pop_ref can v w.extra).1 ≡ ok index
      → ((RefStack.pop_ref can v w.extra).0.ref_thread.slots index ≡ v)
        × (refs_at index w.refs ≡ 0)
        × Slots.Held (RefStack.pop_ref can v w.extra).0.ref_thread.slots w.refs
  pop_ref-reads {w} r can v index p =
      let g =
        Slots.pop_ref-Granted nil base can v w w.extra.ref_free index refl (Reach-IsOwned r) p in
      (g.value, ground (arith, g.owned index), g.held)

  -- In a state that can be reached, a reference cannot be made only if no slot is free and Lua
  -- cannot give even one slot more; then the references that stand keep their values, and the
  -- value is not left on the auxiliary thread's stack.
  pub pop_ref_panics :
      {w : World.World V nil}
      → World.Reach V nil base w
      → (can : ℕ → Bool) (v : V) → (RefStack.pop_ref can v w.extra).1 ≡ panics
      → (w.extra.ref_free ≡ [])
        × (can 1 ≡ false)
        × ((RefStack.pop_ref can v w.extra).0.ref_thread.top ≡ w.extra.ref_thread.top)
        × Slots.Held (RefStack.pop_ref can v w.extra).0.ref_thread.slots w.refs
  pop_ref_panics {w} r can v p =
      let h = Reach-IsOwned r in
      let x = exhausted can v w.extra w.extra.ref_free refl h.sized p in
      let k = Slots.pop_ref-panics nil base can v w w.extra.ref_free refl h p in
      (x.0, x.1, x.2, k.held)

  -- In a state that can be reached, a failure that was reserved and not yet used or released can
  -- be used: the pool is not empty, so that the code does not panic.
  pub use_failure_lem :
      {w : World.World V nil}
      → World.Reach V nil base w
      → (i : ℕ) (f : PreallocatedFailure V) → get_elem? w.failures i ≡ some f
      → (RefStack.use_failure nil f w.extra).1 ≢ panics
  unfolding RefStack.use_failure
  use_failure_lem {w} r i (new ud) m = λ e. cc
  use_failure_lem {w} r i reserved m =
      ground (arith, (Reach-IsOwned r).pooled, reservations-remove w.failures i reserved m)
