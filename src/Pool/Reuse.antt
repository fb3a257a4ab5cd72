-- ===== src/Pool/Reuse.antt =====
-- The states that the pool of src/state/raw.rs can reach, and the threads that are taken from it.
use mlua.Pool.Clean.{
  IsCleared, Resets, Attempt, attempts, close_unpooled-Attempt, count-remove, same_or_other,
  set_thread-others, set_thread-same, set_thread-pool, set_thread-capacity,
}
use mlua.Pool.World.{count, remove, World, Reach, create, run, recycle, start, next}
use mlua.Pool.{
  luau, older, lua54, LuaThread, ExtraData, Build, create_recycled_thread, create_thread,
  recycle_thread, set_thread, xpush, inherit,
}
use mlua.Base.{
  ℕ, ◌+◌, ◌≤◌, ◌<◌, ◌≡◌, ◌≢◌, refl, sym, ◌∙◌, subst, Bool, true, false, List, [], ◌∷◌, ◌++◌, length,
  ◌==◌, if◌then◌else◌, arith, inl, inr, Bool-cases, ap,
}

module _ {V : Type 0} (lua_resetthread : LuaThread V → Bool × LuaThread V) (build : Build)
    (resets : Resets lua_resetthread build) where
  pub record IsClean (extra : ExtraData V) (used : List ℕ) : Type 0 where
    pub bounded : length extra.thread_pool ≤ extra.capacity
    pub cleared : (i : ℕ) → 0 < count i extra.thread_pool → IsCleared (extra.threads i)
    pub apart : (i : ℕ) → count i extra.thread_pool + count i used ≤ 1

  -- A thread in use is dropped, whatever was tried at it.
  dropped :
      (index : ℕ) (e : ExtraData V) (used : List ℕ) (r : ExtraData V × Bool)
      → IsClean e used
      → 0 < count index used
      → Attempt lua_resetthread index e r
      → IsClean r.0 (remove index used)
  dropped index e used r c l a = record {
    bounded = rw (a.pool_same, a.capacity_same) c.bounded;
    cleared = λ i.
        rw a.pool_same (λ m. subst IsCleared (sym (a.others_same i (other i m))) (c.cleared i m));
    apart = λ i. rw a.pool_same (omega (arith, c.apart i, count-remove index i used l));
  }
    where
      other : (i : ℕ) → 0 < count i e.thread_pool → i ≢ index
      other i m q = omega (arith, c.apart i, subst (λ k. 0 < count k used) (sym q) l)

  -- It is put into the pool, once it is cleared.
  pooled :
      (index : ℕ) (e : ExtraData V) (used : List ℕ) (r : ExtraData V × Bool)
      → IsClean e used
      → 0 < count index used
      → length e.thread_pool ≢ e.capacity
      → r.1 ≡ true
      → Attempt lua_resetthread index e r
      → IsClean (record (r.0) { thread_pool = index ∷ r.0.thread_pool }) (remove index used)
  pooled index e used r c l n ok a = record {
    bounded = rw (a.pool_same, a.capacity_same) (omega (arith, c.bounded));
    cleared = λ i m. elim (same_or_other index i) [
      | inl p ↦ subst (λ k. IsCleared (r.0.threads k)) p (a.cleared ok)
      | inr p ↦ subst IsCleared (sym (a.others_same i p)) (c.cleared i (elsewhere i p m))
    ];
    apart = λ i. rw a.pool_same (omega (arith, c.apart i, count-remove index i used l));
  }
    where
      elsewhere :
          (i : ℕ) → i ≢ index → 0 < count i (index ∷ r.0.thread_pool) → 0 < count i e.thread_pool
      elsewhere i p = rw a.pool_same (λ m. ground (arith, p, m))

  ended :
      (index : ℕ) (e : ExtraData V) (used : List ℕ) (r : ExtraData V × Bool)
      → IsClean e used
      → 0 < count index used
      → length e.thread_pool ≢ e.capacity
      → Attempt lua_resetthread index e r
      → IsClean
          (if◌then◌else◌ {A = ExtraData V × Bool}
            (r.1)
            (record (r.0) { thread_pool = index ∷ r.0.thread_pool }, false)
            (r.0, true)).0
          (remove index used)
  ended index e used (e', true) c l n a = pooled index e used (e', true) c l n refl a
  ended index e used (e', false) c l n a = dropped index e used (e', false) c l a

  recycle_thread-IsClean :
      (index : ℕ) (e : ExtraData V) (used : List ℕ)
      → IsClean e used
      → 0 < count index used
      → IsClean (recycle_thread lua_resetthread build index e).0 (remove index used)
  unfolding recycle_thread
  recycle_thread-IsClean index e used c l = elim (Bool-cases (length e.thread_pool == e.capacity)) [
    | inl p ↦
        rw p (dropped index e used _ c l (close_unpooled-Attempt lua_resetthread build index e))
    | inr p ↦ rw p (
        ended index e used _ c l (ground (arith, p))
          (attempts lua_resetthread build index e resets))
  ]

  -- A thread that is not in the pool changes.
  set_thread-IsClean :
      (index : ℕ) (t : LuaThread V) (e : ExtraData V) (used : List ℕ)
      → IsClean e used
      → count index e.thread_pool ≡ 0
      → IsClean (set_thread index t e) used
  set_thread-IsClean index t e used c l = record {
    bounded = rw (set_thread-pool index t e, set_thread-capacity index t e) c.bounded;
    cleared = λ i. rw (set_thread-pool index t e) (λ m.
        subst IsCleared
          (sym (
            set_thread-others index i t e
              (λ p. omega (arith, m, subst (λ k. count k e.thread_pool ≡ 0) (sym p) l))))
          (c.cleared i m));
    apart = λ i. rw (set_thread-pool index t e) (c.apart i);
  }

  owned :
      (slot : ℕ) (e : ExtraData V) (used : List ℕ)
      → IsClean e used
      → count slot e.thread_pool ≡ 0
      → count slot used ≡ 0
      → IsClean e (slot ∷ used)
  owned slot e used c n n' = record {
    bounded = c.bounded;
    cleared = c.cleared;
    apart = λ i. ground (arith, c.apart i, n, n');
  }

  taken :
      (index : ℕ) (rest : List ℕ) (e : ExtraData V) (used : List ℕ)
      → IsClean e used
      → e.thread_pool ≡ index ∷ rest
      → IsClean (record e { thread_pool = rest }) (index ∷ used) × (count index rest ≡ 0)
  taken index rest e used c p = (
    record {
      bounded = omega (arith, subst (λ ps. length ps ≤ e.capacity) p c.bounded);
      cleared = λ i m. c.cleared i (rw p (omega (arith, m)));
      apart = λ i. omega (arith, subst (λ ps. count i ps + count i used ≤ 1) p (c.apart i));
    },
    ground (arith, subst (λ ps. count index ps + count index used ≤ 1) p (c.apart index)),
  )

  inherit-IsClean :
      (build' : Build) (globals index : ℕ) (e : ExtraData V) (used : List ℕ)
      → IsClean e used
      → count index e.thread_pool ≡ 0
      → IsClean (inherit build' globals index e) used
  unfolding inherit
  inherit-IsClean lua54 globals index e used c n = c
  inherit-IsClean older globals index e used c n = c
  inherit-IsClean luau globals index e used c n =
      set_thread-IsClean index (record (e.threads index) { globals = globals }) e used c n

  create_recycled_thread-IsClean :
      (globals : ℕ) (func : V) (slot : ℕ) (e : ExtraData V) (used : List ℕ)
      → IsClean e used
      → count slot e.thread_pool ≡ 0
      → count slot used ≡ 0
      → IsClean
          (create_recycled_thread build globals func slot e).0
          ((create_recycled_thread build globals func slot e).1 ∷ used)
  unfolding create_recycled_thread xpush create_thread
  create_recycled_thread-IsClean globals func slot e used c n n' = from_pool e.thread_pool refl
    where
      from_pool :
          (p : List ℕ)
          → e.thread_pool ≡ p
          → IsClean
              (create_recycled_thread build globals func slot e).0
              ((create_recycled_thread build globals func slot e).1 ∷ used)
      from_pool [] q =
          rw (create_recycled_thread, q)
            (set_thread-IsClean slot _ _ (slot ∷ used)
              (set_thread-IsClean slot _ e (slot ∷ used) (owned slot e used c n n') n) n)
      from_pool (index ∷ rest) q =
          rw (create_recycled_thread, q)
            (inherit-IsClean build globals index
              (xpush func index (record e { thread_pool = rest })) (index ∷ used)
              (set_thread-IsClean index _ _ (index ∷ used) (taken index rest e used c q).0
                (taken index rest e used c q).1)
              (taken index rest e used c q).1)

  -- In every state that is reached by taking threads, running them and giving them back, the pool holds
  -- no more threads than its capacity, no thread twice and none that is in use, and each thread in it is
  -- cleared.
  pub Reach-IsClean :
      (w : World lua_resetthread build) → Reach lua_resetthread build w → IsClean w.extra w.used
  Reach-IsClean w (start capacity threads) = record {
    bounded = omega arith;
    cleared = λ i m. absurd (omega arith);
    apart = λ i. omega arith;
  }
  Reach-IsClean w (next {v = v} r (create globals func slot n n')) =
      create_recycled_thread-IsClean globals func slot v.extra v.used (Reach-IsClean v r) n n'
  Reach-IsClean w (next {v = v} r (run index t l)) =
      let c = Reach-IsClean v r in
      set_thread-IsClean index t v.extra v.used c (omega (arith, c.apart index, l))
  Reach-IsClean w (next {v = v} r (recycle index l)) =
      recycle_thread-IsClean index v.extra v.used (Reach-IsClean v r) l

  -- A thread with the function alone on its stack, that can be started, and with the globals in Luau.
  abbrev HasGlobals : Build → LuaThread V → ℕ → Type 0
  HasGlobals luau t globals = t.globals ≡ globals
  HasGlobals lua54 t globals = Unit {0}
  HasGlobals older t globals = Unit {0}

  abbrev pub IsNew : LuaThread V → V → ℕ → Type 0
  IsNew t func globals = (t.status_ok ≡ true) × (t.stack ≡ func ∷ []) × HasGlobals build t globals

  xpush-thread :
      (func : V) (index : ℕ) (e : ExtraData V)
      → IsCleared (e.threads index)
      → (xpush func index e).threads index
        ≡ record { status_ok = true; stack = func ∷ []; globals = (e.threads index).globals }
  unfolding xpush
  xpush-thread func index e c =
      set_thread-same index
        (record (e.threads index) { stack = (e.threads index).stack ++ func ∷ [] }) e
      ∙ rw (c.0, c.1) refl

  create_thread-thread :
      (globals : ℕ) (func : V) (slot : ℕ) (e : ExtraData V)
      → (create_thread globals func slot e).threads slot
        ≡ record { status_ok = true; stack = func ∷ []; globals = globals }
  unfolding create_thread set_thread xpush
  create_thread-thread globals func slot e = ground arith

  made-IsNew :
      (globals : ℕ) (func : V) (t : LuaThread V)
      → t ≡ record { status_ok = true; stack = func ∷ []; globals = globals }
      → IsNew t func globals
  made-IsNew globals func t e =
      subst (λ x. IsNew x func globals) (sym e) (refl, refl, of_build build)
    where
      of_build :
          (b : Build)
          → HasGlobals b (record { status_ok = true; stack = func ∷ []; globals = globals }) globals
      of_build luau = refl
      of_build lua54 = tt
      of_build older = tt

  inherit-IsNew :
      (b : Build) (globals : ℕ) (func : V) (index : ℕ) (e : ExtraData V)
      → (e.threads index).status_ok ≡ true
      → (e.threads index).stack ≡ func ∷ []
      → (((inherit b globals index e).threads index).status_ok ≡ true)
        × (((inherit b globals index e).threads index).stack ≡ func ∷ [])
        × HasGlobals b ((inherit b globals index e).threads index) globals
  unfolding inherit set_thread
  inherit-IsNew luau globals func index e s k = ground arith
  inherit-IsNew lua54 globals func index e s k = (s, k, tt)
  inherit-IsNew older globals func index e s k = (s, k, tt)

  xpush-others :
      (func : V) (index k : ℕ) (e : ExtraData V)
      → k ≢ index
      → (xpush func index e).threads k ≡ e.threads k
  unfolding xpush set_thread
  xpush-others func index k e m = ground (arith, m)

  create_thread-others :
      (globals : ℕ) (func : V) (slot : ℕ) (e : ExtraData V) (k : ℕ)
      → k ≢ slot
      → (create_thread globals func slot e).threads k ≡ e.threads k
  unfolding create_thread xpush set_thread
  create_thread-others globals func slot e k m = ground (arith, m)

  inherit-others :
      (b : Build) (globals index k : ℕ) (e : ExtraData V)
      → k ≢ index
      → (inherit b globals index e).threads k ≡ e.threads k
  unfolding inherit
  inherit-others luau globals index k e n =
      set_thread-others index k (record (e.threads index) { globals = globals }) e n
  inherit-others lua54 globals index k e n = refl
  inherit-others older globals index k e n = refl

  -- In every state that is reached, a thread that is taken from the pool is nobody's, and it is as a
  -- thread that would be made new: it can be started, it has the function alone on its stack and, in Luau, the
  -- caller's globals. No other thread changes.
  pub create_recycled_thread-IsNew :
      (w : World lua_resetthread build) (globals : ℕ) (func : V) (slot : ℕ)
      → Reach lua_resetthread build w
      → count slot w.extra.thread_pool ≡ 0
      → count slot w.used ≡ 0
      → let (e, taken) = create_recycled_thread build globals func slot w.extra in
        (count taken w.used ≡ 0)
        × IsNew (e.threads taken) func globals
        × IsNew ((create_thread globals func slot w.extra).threads slot) func globals
        × ((k : ℕ) → k ≢ taken → e.threads k ≡ w.extra.threads k)
  unfolding create_recycled_thread
  create_recycled_thread-IsNew w globals func slot r n n' = from_pool w.extra.thread_pool refl
    where
      c : IsClean w.extra w.used
      c = Reach-IsClean w r

      new : IsNew ((create_thread globals func slot w.extra).threads slot) func globals
      new = made-IsNew globals func _ (create_thread-thread globals func slot w.extra)

      from_pool :
          (p : List ℕ)
          → w.extra.thread_pool ≡ p
          → let (e, taken) = create_recycled_thread build globals func slot w.extra in
            (count taken w.used ≡ 0)
            × IsNew (e.threads taken) func globals
            × IsNew ((create_thread globals func slot w.extra).threads slot) func globals
            × ((k : ℕ) → k ≢ taken → e.threads k ≡ w.extra.threads k)
      from_pool [] q =
          rw (create_recycled_thread, q)
            (n', new, new, create_thread-others globals func slot w.extra)
      from_pool (index ∷ rest) q =
          let e = xpush func index (record w.extra { thread_pool = rest }) in
          let x =
            xpush-thread func index (record w.extra { thread_pool = rest })
              (c.cleared index (rw q (ground arith))) in
          rw (create_recycled_thread, q)
            ((
              ground
                  (arith, subst (λ ps. count index ps + count index w.used ≤ 1) q (c.apart index)),
              inherit-IsNew build globals func index e (ap (λ t. t.status_ok) x)
                  (ap (λ t. t.stack) x),
              new,
              λ k m.
                  inherit-others build globals index k e m
                  ∙ xpush-others func index k (record w.extra { thread_pool = rest }) m,
            ))
