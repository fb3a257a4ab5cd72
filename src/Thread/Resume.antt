-- ===== src/Thread/Resume.antt =====
-- `resume`, `reset` and `into_async` of src/thread.rs: the status of a thread before and after.
use mlua.Base.{◌≡◌, ◌≢◌, ◌↔◌, refl, Bool, true, false, ◌||◌, List, [], ◌∷◌, ◌++◌, arith, ◌⊎◌}
use mlua.Thread.{
  LuaStatus, lua_ok, lua_yield, lua_err, ThreadStatus, resumable, running, finished, error, Result,
  ok, err, coroutine_unresumable, cannot_reset, raised, Thread, Resumed, returns, yields, raises,
  Call, Build, status, resume, reset, into_async, Error,
}

module _ {V : Type 0} where
  -- A thread whose status is not `Resumable` is refused by `resume` and by `into_async`, and
  -- nothing changes.
  pub resume_refused :
      (c : Call V) (f : Thread V → Resumed V) (t : Thread V)
      → status c.is_current t ≢ resumable
      → (resume c f t ≡ (t, err coroutine_unresumable))
        × (into_async c t ≡ (t, err coroutine_unresumable))
  unfolding resume status into_async
  resume_refused c f t h = ground arith

  -- The status that a thread has after `lua_resume` ended so.
  abbrev pub status_after : Resumed V → ThreadStatus
  status_after (returns vs) = finished
  status_after (yields vs) = resumable
  status_after (raises v) = error

  abbrev pub result_of : Resumed V → Result (List V)
  result_of (returns vs) = ok vs
  result_of (yields vs) = ok vs
  result_of (raises v) = err raised

  -- A resumable thread that is given arguments, on stacks that can grow, passes on what its
  -- function returned, yielded or raised; then it is finished, resumable with no arguments
  -- waiting, or in error, so that only a thread that yielded can be resumed again.
  pub resume_status :
      (c : Call V) (f : Thread V → Resumed V) (t : Thread V) (vs : List V)
      → status c.is_current t ≡ resumable
      → c.args ≡ ok vs
      → c.thread_grows ≡ true
      → c.state_grows ≡ true
      → let o = f (record t { stack = t.stack ++ vs }) in
        let (t', r) = resume c f t in
        (r ≡ result_of o) × (status false t' ≡ status_after o) × (t'.stack ≡ [])
  unfolding resume status
  resume_status c f t vs h a g b = ground arith

  -- A new thread is lost by a `resume` whose arguments cannot be converted: the stack guard that
  -- was set before the conversion takes the function off the thread, which is finished without
  -- having run.
  pub resume_lost :
      (c : Call V) (f : Thread V → Resumed V) (func : V) (waiting : List V) (e : Error)
      → c.is_current ≡ false
      → c.args ≡ err e
      → let t : Thread V = record { status = lua_ok; stack = func ∷ waiting } in
        (status false t ≡ resumable)
        × ((resume c f t).1 ≡ err e)
        × (status false (resume c f t).0 ≡ finished)
  unfolding resume status
  resume_lost c f func waiting e h a = ground arith

  reset_status_at :
      (b : Build) (is_current closed : Bool) (func : V) (s : LuaStatus) (st : List V)
      → let t : Thread V = record { status = s; stack = st } in
        (reset b is_current closed func t).1 ≡ ok tt
        → (status false (reset b is_current closed func t).0 ≡ resumable)
          × ((reset b is_current closed func t).0.stack ≡ func ∷ [])
  unfolding reset status
  reset_status_at b true closed func s st h = cc
  reset_status_at b false closed func lua_ok [] h = (refl, refl)
  reset_status_at b false closed func lua_ok (v ∷ st) h = ground arith
  reset_status_at b false closed func lua_yield st h = ground arith
  reset_status_at b false closed func lua_err st h = ground arith

  -- A reset that succeeds leaves a thread that can be resumed, with the function alone on its
  -- stack.
  pub reset_status :
      (b : Build) (is_current closed : Bool) (func : V) (t : Thread V)
      → (reset b is_current closed func t).1 ≡ ok tt
      → (status false (reset b is_current closed func t).0 ≡ resumable)
        × ((reset b is_current closed func t).0.stack ≡ func ∷ [])
  reset_status b cur closed func t h = reset_status_at b cur closed func t.status t.stack h

  -- A running thread cannot be reset, and without Lua 5.4 or Luau neither can one that yielded or
  -- raised an error; nothing changes then. In any other case a reset succeeds, unless the error
  -- that closing the thread meets in Lua 5.4 is reported.
  pub reset_refused :
      (b : Build) (is_current closed : Bool) (func : V) (t : Thread V)
      → ((reset b is_current closed func t).1 ≡ err cannot_reset)
        ↔ ((status is_current t ≡ running) ⊎ (((b.lua54 || b.luau) ≡ false) × (t.status ≢ lua_ok)))
  unfolding reset status
  reset_refused b cur closed func t = ground arith
