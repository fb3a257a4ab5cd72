-- ===== src/RefStack/Steps.antt =====
-- The operations of src/state/raw.rs and src/state/util.rs on the slots, one by one.
use mlua.Base.{ℕ, ◌+◌, ◌≡◌, refl, List, [], ◌∷◌, some, get_elem?, inl, inr, arith, Bool}
use mlua.RefStack.{ok, panics, ExtraData, PreallocatedFailure, new, reserved}
use mlua.RefStack
use mlua.RefStack.World.{Ref, remove_nth, is_reserved}
use mlua.RefStack.World
use mlua.RefStack.Slots.{refs_at, count, refs_at-remove, reservations-remove, reservations}
use mlua.RefStack.Slots

module _ {V : Type 0} (nil : V) (base : ℕ) where
  pub pop_ref-IsOwned :
      (can : ℕ → Bool) (v : V) (w : World.World V nil)
      → Slots.IsOwned nil base w
      → Slots.IsOwned nil base (record w {
        extra = (RefStack.pop_ref can v w.extra).0;
        refs = World.granted V nil v (RefStack.pop_ref can v w.extra).1 w.refs;
      })
  pop_ref-IsOwned can v w h = elim (Slots.outcome (RefStack.pop_ref can v w.extra).1) [
    | inl p ↦ rw p (Slots.pop_ref-panics nil base can v w w.extra.ref_free refl h p)
    | inr (index, p) ↦
        let g = Slots.pop_ref-Granted nil base can v w w.extra.ref_free index refl h p in
        rw p (record {
          top_eq = g.top_eq;
          sized = g.sized;
          bounded = g.bounded;
          room = g.room;
          based = g.based;
          owned = λ k. ground (arith, g.owned k, g.pool);
          held = (g.value, g.held);
          pooled = ground (arith, h.pooled, g.pool, g.pool_top);
        })
  ]

  pub drop_ref-IsOwned :
      (i : ℕ) (r : Ref V) (w : World.World V nil)
      → get_elem? w.refs i ≡ some r
      → Slots.IsOwned nil base w
      → Slots.IsOwned nil base
          (record w { extra = RefStack.drop_ref nil r.index w.extra; refs = remove_nth w.refs i })
  unfolding RefStack.drop_ref RefStack.push RefStack.replace
  drop_ref-IsOwned i r w m h = record {
    top_eq = ground (arith, h.top_eq);
    sized = h.sized;
    bounded = h.bounded;
    room = h.room;
    based = h.based;
    owned = λ k. ground (arith, h.owned k, refs_at-remove k w.refs i r m);
    held =
        Slots.Held-set r.index _ _ (remove_nth w.refs i)
          (ground (arith, h.owned r.index, refs_at-remove r.index w.refs i r m))
          (Slots.Held-set _ nil w.extra.ref_thread.slots (remove_nth w.refs i)
            (ground (
              arith,
              Slots.above nil base w h,
              refs_at-remove (w.extra.ref_thread.top + 1) w.refs i r m,
            ))
            (Slots.Held-remove w.extra.ref_thread.slots w.refs i h.held));
    pooled = h.pooled;
  }

  pub use_failure-IsOwned :
      (i : ℕ) (f : PreallocatedFailure V) (w : World.World V nil) (pool : List ℕ)
      → w.extra.wrapped_failure_pool ≡ pool
      → get_elem? w.failures i ≡ some f
      → Slots.IsOwned nil base w
      → Slots.IsOwned nil base (record w {
        extra = (RefStack.use_failure nil f w.extra).0;
        failures = remove_nth w.failures i;
      })
  unfolding RefStack.use_failure RefStack.drop_ref RefStack.push RefStack.replace
  use_failure-IsOwned i (new ud) w pool e m h = record {
    top_eq = h.top_eq;
    sized = h.sized;
    bounded = h.bounded;
    room = h.room;
    based = h.based;
    owned = h.owned;
    held = h.held;
    pooled = omega (arith, h.pooled, reservations-remove w.failures i (new ud) m);
  }
  use_failure-IsOwned i reserved w [] e m h =
      ground (arith, h.pooled, reservations-remove w.failures i reserved m)
  use_failure-IsOwned i reserved w (index ∷ pool) e m h = record {
    top_eq = ground (arith, h.top_eq);
    sized = ground (arith, h.sized);
    bounded = ground (arith, h.bounded);
    room = ground (arith, h.room);
    based = ground (arith, h.based);
    owned = λ k. ground (arith, h.owned k);
    held = rw e (
        Slots.Held-set index _ _ w.refs (ground (arith, h.owned index))
          (Slots.Held-set _ nil w.extra.ref_thread.slots w.refs (Slots.above nil base w h) h.held));
    pooled = ground (arith, h.pooled, reservations-remove w.failures i reserved m);
  }

  release_new-panics :
      (q : ExtraData V × RefStack.Result ℕ) → q.1 ≡ panics → RefStack.release_new nil q ≡ q.0
  unfolding RefStack.release_new
  release_new-panics (e, ok index) p = cc
  release_new-panics (e, panics) p = refl

  release_new-ok :
      (q : ExtraData V × RefStack.Result ℕ) (index : ℕ)
      → q.1 ≡ ok index
      → RefStack.release_new nil q ≡ record q.0 {
        wrapped_failure_pool = index ∷ q.0.wrapped_failure_pool;
        wrapped_failure_top = q.0.wrapped_failure_top + 1;
      }
  unfolding RefStack.release_new
  release_new-ok (e, ok x) index p = let same : x ≡ index = cc in rw same refl
  release_new-ok (e, panics) index p = cc

  pub release-IsOwned :
      (can : ℕ → Bool) (i : ℕ) (f : PreallocatedFailure V) (w : World.World V nil)
      → get_elem? w.failures i ≡ some f
      → Slots.IsOwned nil base w
      → Slots.IsOwned nil base (record w {
        extra = RefStack.release nil can f w.extra;
        failures = remove_nth w.failures i;
      })
  unfolding RefStack.release RefStack.release_new
  release-IsOwned can i reserved w m h = record {
    top_eq = h.top_eq;
    sized = h.sized;
    bounded = h.bounded;
    room = h.room;
    based = h.based;
    owned = h.owned;
    held = h.held;
    pooled = omega (arith, h.pooled, reservations-remove w.failures i reserved m);
  }
  release-IsOwned can i (new ud) w m h = elim (Slots.outcome (RefStack.pop_ref can ud w.extra).1) [
    | inl p ↦
        let g = Slots.pop_ref-panics nil base can ud w w.extra.ref_free refl h p in
        rw (release_new-panics (RefStack.pop_ref can ud w.extra) p) (record {
          top_eq = g.top_eq;
          sized = g.sized;
          bounded = g.bounded;
          room = g.room;
          based = g.based;
          owned = g.owned;
          held = g.held;
          pooled = omega (arith, g.pooled, reservations-remove w.failures i (new ud) m);
        })
    | inr (index, p) ↦
        let g = Slots.pop_ref-Granted nil base can ud w w.extra.ref_free index refl h p in
        rw (release_new-ok (RefStack.pop_ref can ud w.extra) index p) (record {
          top_eq = g.top_eq;
          sized = g.sized;
          bounded = g.bounded;
          room = g.room;
          based = g.based;
          owned = λ k. ground (arith, g.owned k, g.pool);
          held = g.held;
          pooled =
              ground
                (arith, h.pooled, g.pool, g.pool_top, reservations-remove w.failures i (new ud) m);
        })
  ]

  pub reserve-IsOwned :
      (ud : V) (w : World.World V nil)
      → Slots.IsOwned nil base w
      → Slots.IsOwned nil base (record w {
        extra = (RefStack.reserve nil ud w.extra).0;
        failures = (RefStack.reserve nil ud w.extra).1 ∷ w.failures;
      })
  unfolding RefStack.reserve
  reserve-IsOwned ud w h = ground (arith, h.pooled)
