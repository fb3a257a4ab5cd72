-- ===== src/Pool/Clean.antt =====
-- The attempts at clearing a thread for the pool of src/state/raw.rs.
use mlua.Pool.World.{count, remove}
use mlua.Pool.{
  LuaThread, ExtraData, Build, lua54, luau, older, settop, reset_lua54, reset_luau, close_unpooled,
  set_thread,
}
use mlua.Base.{
  ℕ, ◌+◌, ◌<◌, ◌≡◌, ◌≢◌, refl, sym, ◌∙◌, subst, Bool, true, false, List, [], ◌∷◌, ◌==◌,
  if◌then◌else◌, arith, ◌⊎◌, inl, inr, Bool-cases,
}

-- A thread that was never used: it has not failed or yielded, and its stack is empty.
abbrev pub IsCleared : {V : Type 0} → LuaThread V → Type 0
IsCleared t = (t.status_ok ≡ true) × (t.stack ≡ [])

pub count-remove :
    (i j : ℕ) (xs : List ℕ)
    → 0 < count i xs
    → (if i == j then 1 else 0) + count j (remove i xs) ≡ count j xs
count-remove i j [] h = absurd (omega arith)
count-remove i j (x ∷ xs) h = ground (arith, count-remove i j xs)

pub same_or_other : (i j : ℕ) → (i ≡ j) ⊎ (j ≢ i)
same_or_other i j = elim (Bool-cases (i == j)) [
  | inl e ↦ inl (ground arith)
  | inr e ↦ inr (ground arith)
]

pub set_thread-same :
    {V : Type 0} → (i : ℕ) (t : LuaThread V) (e : ExtraData V) → (set_thread i t e).threads i ≡ t
unfolding set_thread
set_thread-same i t e = ground arith

pub set_thread-others :
    {V : Type 0}
    → (i k : ℕ) (t : LuaThread V) (e : ExtraData V) → k ≢ i
    → (set_thread i t e).threads k ≡ e.threads k
unfolding set_thread
set_thread-others i k t e n = ground arith

pub set_thread-pool :
    {V : Type 0}
    → (i : ℕ) (t : LuaThread V) (e : ExtraData V) → (set_thread i t e).thread_pool ≡ e.thread_pool
unfolding set_thread
set_thread-pool i t e = refl

pub set_thread-capacity :
    {V : Type 0}
    → (i : ℕ) (t : LuaThread V) (e : ExtraData V) → (set_thread i t e).capacity ≡ e.capacity
unfolding set_thread
set_thread-capacity i t e = refl

module _ {V : Type 0} (lua_resetthread : LuaThread V → Bool × LuaThread V) where
  -- What Lua's manual and Luau's source say: a reset that succeeds clears the thread, and in Luau each
  -- does.
  abbrev pub Resets : Build → Type 0
  Resets build =
      (t : LuaThread V)
      → ((lua_resetthread t).0 ≡ true) ⊎ (build ≡ luau)
      → IsCleared (lua_resetthread t).1

  -- What an attempt at clearing a thread leaves.
  pub record Attempt (index : ℕ) (e : ExtraData V) (r : ExtraData V × Bool) : Type 0 where
    pub pool_same : r.0.thread_pool ≡ e.thread_pool
    pub capacity_same : r.0.capacity ≡ e.capacity
    pub others_same : (k : ℕ) → k ≢ index → r.0.threads k ≡ e.threads k
    pub cleared : r.1 ≡ true → IsCleared (r.0.threads index)

  set_thread-Attempt :
      (index : ℕ) (e e' : ExtraData V) (b b' : Bool) (t : LuaThread V)
      → Attempt index e (e', b)
      → (b' ≡ true → IsCleared t)
      → Attempt index e (set_thread index t e', b')
  set_thread-Attempt index e e' b b' t a c = record {
    pool_same = set_pool ∙ a.pool_same;
    capacity_same = set_capacity ∙ a.capacity_same;
    others_same = λ k n. set_thread-others index k t e' n ∙ a.others_same k n;
    cleared = λ q. subst IsCleared (sym (set_thread-same index t e')) (c q);
  }
    where
      set_pool : (set_thread index t e').thread_pool ≡ e'.thread_pool
      set_pool = set_thread-pool index t e'

      set_capacity : (set_thread index t e').capacity ≡ e'.capacity
      set_capacity = set_thread-capacity index t e'

  unchanged : (index : ℕ) (e : ExtraData V) → Attempt index e (e, false)
  unchanged index e = record {
    pool_same = refl;
    capacity_same = refl;
    others_same = λ k n. refl;
    cleared = λ q. absurd cc;
  }

  settop-Attempt : (index : ℕ) (e : ExtraData V) → Attempt index e (settop lua_resetthread index e)
  unfolding settop
  settop-Attempt index e = elim (Bool-cases (e.threads index).status_ok) [
    | inl p ↦ subst (Attempt index e) (rw p refl) (
        set_thread-Attempt index e e false true (record (e.threads index) { stack = [] })
          (unchanged index e) (λ q. (p, refl)))
    | inr p ↦ subst (Attempt index e) (rw p refl) (unchanged index e)
  ]

  reset_lua54-Attempt :
      (build : Build) (index : ℕ) (e e' : ExtraData V) (b : Bool)
      → Resets build
      → Attempt index e (e', b)
      → Attempt index e (reset_lua54 lua_resetthread build index (e', b))
  unfolding reset_lua54
  reset_lua54-Attempt lua54 index e e' false resets a =
      set_thread-Attempt index e e' false _ _ a (λ q. resets (e'.threads index) (inl q))
  reset_lua54-Attempt lua54 index e e' true resets a = a
  reset_lua54-Attempt luau index e e' b resets a = a
  reset_lua54-Attempt older index e e' b resets a = a

  reset_luau-Attempt :
      (build : Build) (index : ℕ) (e e' : ExtraData V) (b : Bool)
      → Resets build
      → Attempt index e (e', b)
      → Attempt index e (reset_luau lua_resetthread build index (e', b))
  unfolding reset_luau
  reset_luau-Attempt luau index e e' false resets a =
      set_thread-Attempt index e e' false _ _ a (λ q. resets (e'.threads index) (inr refl))
  reset_luau-Attempt luau index e e' true resets a = a
  reset_luau-Attempt lua54 index e e' b resets a = a
  reset_luau-Attempt older index e e' b resets a = a

  -- The attempts in turn.
  pub attempts :
      (build : Build) (index : ℕ) (e : ExtraData V)
      → Resets build
      → Attempt index e (
          reset_luau lua_resetthread build index
            (reset_lua54 lua_resetthread build index (settop lua_resetthread index e)))
  attempts build index e resets =
      reset_luau-Attempt build index e _ _ resets
        (reset_lua54-Attempt build index e _ _ resets (settop-Attempt index e))

  pub close_unpooled-Attempt :
      (build : Build) (index : ℕ) (e : ExtraData V)
      → Attempt index e (close_unpooled lua_resetthread build index e, false)
  unfolding close_unpooled
  close_unpooled-Attempt lua54 index e = elim (Bool-cases (e.threads index).status_ok) [
    | inl p ↦ subst (Attempt index e) (rw p refl) (unchanged index e)
    | inr p ↦ subst (Attempt index e) (rw p refl) (
        set_thread-Attempt index e e false false (lua_resetthread (e.threads index)).1
          (unchanged index e) (λ q. absurd cc))
  ]
  close_unpooled-Attempt luau index e = unchanged index e
  close_unpooled-Attempt older index e = unchanged index e
