-- ===== src/RefStack/Slots.antt =====
-- The owners of the slots of the auxiliary stack, and `ref_stack_pop` of src/state/util.rs.
use mlua.Base.{
  ℕ, zero, suc, ◌+◌, ◌≤◌, ◌≡◌, refl, Bool, ◌&&◌, List, [], ◌∷◌, some, get_elem?, length, ◌==◌, ltb,
  leb, if◌then◌else◌, All, arith, ◌⊎◌, inl, inr,
}
use mlua.RefStack.{ok, panics, ExtraData, LuaStack, PreallocatedFailure, new, reserved}
use mlua.RefStack
use mlua.RefStack.World.{Ref, remove_nth, is_reserved}
use mlua.RefStack.World

abbrev pub count : ℕ → List ℕ → ℕ
count k [] = 0
count k (x ∷ xs) = (if x == k then 1 else 0) + count k xs

abbrev pub refs_at : {V : Type 0} → ℕ → List (Ref V) → ℕ
refs_at k [] = 0
refs_at k (r ∷ rs) = (if r.index == k then 1 else 0) + refs_at k rs

abbrev pub reservations : {V : Type 0} → List (PreallocatedFailure V) → ℕ
reservations [] = 0
reservations (f ∷ fs) = is_reserved f + reservations fs

pub refs_at-remove :
    {V : Type 0} (k : ℕ) (rs : List (Ref V)) (i : ℕ) (r : Ref V)
    → get_elem? rs i ≡ some r
    → refs_at k (remove_nth rs i) + (if r.index == k then 1 else 0) ≡ refs_at k rs
refs_at-remove k [] i r h = cc
refs_at-remove k (x ∷ rs) zero r h = ground arith
refs_at-remove k (x ∷ rs) (suc i) r h = ground (arith, refs_at-remove k rs i r h)

pub reservations-remove :
    {V : Type 0} (fs : List (PreallocatedFailure V)) (i : ℕ) (f : PreallocatedFailure V)
    → get_elem? fs i ≡ some f
    → reservations (remove_nth fs i) + is_reserved f ≡ reservations fs
reservations-remove [] i f h = cc
reservations-remove (x ∷ fs) zero f h = ground arith
reservations-remove (x ∷ fs) (suc i) f h = ground (arith, reservations-remove fs i f h)

pub outcome : (r : RefStack.Result ℕ) → (r ≡ panics) ⊎ ((index : ℕ) × (r ≡ ok index))
outcome (ok index) = inr (index, refl)
outcome panics = inl refl

module _ {V : Type 0} where
  abbrev pub Held : (ℕ → V) → List (Ref V) → Type 0
  Held slots rs = All (λ r. slots r.index ≡ r.value) rs

  pub Held-set :
      (k : ℕ) (v : V) (slots : ℕ → V) (rs : List (Ref V))
      → refs_at k rs ≡ 0
      → Held slots rs
      → Held (RefStack.set k v slots) rs
  unfolding RefStack.set
  Held-set k v slots [] n h = tt
  Held-set k v slots (r ∷ rs) n h = (ground (arith, h.0), Held-set k v slots rs (ground arith) h.1)

  pub Held-remove :
      (slots : ℕ → V) (rs : List (Ref V)) (i : ℕ) → Held slots rs → Held slots (remove_nth rs i)
  Held-remove slots [] i h = tt
  Held-remove slots (r ∷ rs) zero h = h.1
  Held-remove slots (r ∷ rs) (suc i) h = (h.0, Held-remove slots rs i h.1)

  pub Held-get :
      (slots : ℕ → V) (rs : List (Ref V)) (i : ℕ) (r : Ref V)
      → Held slots rs
      → get_elem? rs i ≡ some r
      → slots r.index ≡ r.value
  Held-get slots [] i r h e = cc
  Held-get slots (x ∷ rs) zero r h e = ground (arith, h.0)
  Held-get slots (x ∷ rs) (suc i) r h e = Held-get slots rs i r h.1 e

module _ {V : Type 0} (nil : V) (base : ℕ) where
  -- The slots from the base up to the top are each free, or in the pool, or a reference's, once; a
  -- reference's slot holds its value; and the stack has room for one value more.
  pub record IsOwned (w : World.World V nil) : Type 0 where
    pub top_eq : w.extra.ref_thread.top ≡ w.extra.ref_stack_top
    pub sized : 1 ≤ w.extra.ref_stack_size
    pub bounded : w.extra.ref_stack_top ≤ w.extra.ref_stack_size
    pub room : w.extra.ref_stack_size + 1 ≤ w.extra.ref_thread.capacity
    pub based : base ≤ w.extra.ref_stack_top
    pub owned :
        (k : ℕ)
        → count k w.extra.ref_free + (count k w.extra.wrapped_failure_pool + refs_at k w.refs)
          ≡ (if ltb base k && leb k w.extra.ref_stack_top then 1 else 0)
    pub held : Held w.extra.ref_thread.slots w.refs
    pub pooled :
        length w.extra.wrapped_failure_pool ≡ w.extra.wrapped_failure_top + reservations w.failures

  -- What `ref_stack_pop` does to an extra with a value on top, for whatever owns the slots.
  pub record Granted (v : V) (e e' : ExtraData V) (rs : List (Ref V)) (index : ℕ) : Type 0 where
    pub top_eq : e'.ref_thread.top ≡ e'.ref_stack_top
    pub sized : 1 ≤ e'.ref_stack_size
    pub bounded : e'.ref_stack_top ≤ e'.ref_stack_size
    pub room : e'.ref_stack_size + 1 ≤ e'.ref_thread.capacity
    pub based : base ≤ e'.ref_stack_top
    pub owned :
        (k : ℕ)
        → count k e'.ref_free
            + ((if index == k then 1 else 0) + (count k e.wrapped_failure_pool + refs_at k rs))
          ≡ (if ltb base k && leb k e'.ref_stack_top then 1 else 0)
    pub held : Held e'.ref_thread.slots rs
    pub value : e'.ref_thread.slots index ≡ v
    pub pool : e'.wrapped_failure_pool ≡ e.wrapped_failure_pool
    pub pool_top : e'.wrapped_failure_top ≡ e.wrapped_failure_top

  pub above : (w : World.World V nil) → IsOwned w → refs_at (w.extra.ref_thread.top + 1) w.refs ≡ 0
  above w h = ground (arith, h.owned (w.extra.ref_thread.top + 1), h.top_eq)

  pushed_free :
      (can : ℕ → Bool) (v : V) (e : ExtraData V) (f : ℕ) (free : List ℕ)
      → e.ref_free ≡ f ∷ free
      → (RefStack.pop_ref can v e).0.ref_thread.slots
        ≡ RefStack.set f v (RefStack.set (e.ref_thread.top + 1) v e.ref_thread.slots)
  unfolding RefStack.pop_ref RefStack.ref_stack_pop RefStack.push RefStack.replace RefStack.set
  pushed_free can v e f free h = ground arith

  pushed_new :
      (can : ℕ → Bool) (v : V) (e : ExtraData V)
      → e.ref_free ≡ []
      → (RefStack.pop_ref can v e).0.ref_thread.slots
        ≡ RefStack.set (e.ref_thread.top + 1) v e.ref_thread.slots
  unfolding RefStack.pop_ref RefStack.ref_stack_pop RefStack.push RefStack.checkstack RefStack.pop
  pushed_new can v e h = ground arith

  pub pop_ref-Granted :
      (can : ℕ → Bool) (v : V) (w : World.World V nil) (free : List ℕ) (index : ℕ)
      → w.extra.ref_free ≡ free
      → IsOwned w
      → (RefStack.pop_ref can v w.extra).1 ≡ ok index
      → Granted v w.extra (RefStack.pop_ref can v w.extra).0 w.refs index
  unfolding RefStack.pop_ref RefStack.ref_stack_pop RefStack.push RefStack.replace
      RefStack.checkstack
  pop_ref-Granted can v w (f ∷ free) index e h p = record {
    top_eq = ground (arith, h.top_eq);
    sized = ground (arith, h.sized);
    bounded = ground (arith, h.bounded);
    room = ground (arith, h.room);
    based = ground (arith, h.based);
    owned = λ k. ground (arith, h.owned k);
    held = rw (pushed_free can v w.extra f free e) (
        Held-set f v _ w.refs (ground (arith, h.owned f))
          (Held-set _ v w.extra.ref_thread.slots w.refs (above w h) h.held));
    value = ground arith;
    pool = ground arith;
    pool_top = ground arith;
  }
  pop_ref-Granted can v w [] index e h p = record {
    top_eq = ground (arith, h.top_eq);
    sized = ground (arith, h.sized);
    bounded = ground (arith, h.bounded);
    room = ground (arith, h.room, h.top_eq, h.bounded);
    based = ground (arith, h.based);
    owned = λ k. ground (arith, h.owned k, h.based);
    held =
        rw (pushed_new can v w.extra e)
          (Held-set _ v w.extra.ref_thread.slots w.refs (above w h) h.held);
    value = ground (arith, h.top_eq);
    pool = ground arith;
    pool_top = ground arith;
  }

  pub pop_ref-panics :
      (can : ℕ → Bool) (v : V) (w : World.World V nil) (free : List ℕ)
      → w.extra.ref_free ≡ free
      → IsOwned w
      → (RefStack.pop_ref can v w.extra).1 ≡ panics
      → IsOwned (record w { extra = (RefStack.pop_ref can v w.extra).0 })
  unfolding RefStack.pop_ref RefStack.ref_stack_pop RefStack.push RefStack.pop
  pop_ref-panics can v w (f ∷ free) e h p = ground arith
  pop_ref-panics can v w [] e h p = record {
    top_eq = ground (arith, h.top_eq);
    sized = ground (arith, h.sized);
    bounded = ground (arith, h.bounded);
    room = ground (arith, h.room);
    based = ground (arith, h.based);
    owned = λ k. ground (arith, h.owned k);
    held =
        rw (pushed_new can v w.extra e)
          (Held-set _ v w.extra.ref_thread.slots w.refs (above w h) h.held);
    pooled = ground (arith, h.pooled);
  }
