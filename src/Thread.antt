-- ===== src/Thread.antt =====
-- src/thread.rs: a coroutine, its status, `resume`, `reset`, and its use as a future or a stream.
-- A Lua thread is its status and the values on its stack, bottom first. What `lua_resume` does
-- with the function and the arguments is not modelled: its outcome is an argument, and what it
-- leaves on the stack is as the reference manual has it.
pub mod Resume
pub mod Drive
mod Tests
use mlua.Base.{
  ℕ, suc, ◌+◌, ◌-◌, Bool, true, false, ◌&&◌, ◌||◌, not, List, [], ◌∷◌, ◌++◌, Option, none, some,
  ltb, ◌==◌, if◌then◌else◌, length,
}

-- `LUA_OK`, `LUA_YIELD` and the error codes.
pub data LuaStatus : Type 0 where
  lua_ok lua_yield lua_err : LuaStatus

pub data ThreadStatus : Type 0 where
  resumable running finished error : ThreadStatus

-- The number in `new` and `yielded` is that of the arguments on the stack.
pub data ThreadStatusInner : Type 0 where
  new : ℕ → ThreadStatusInner
  inner_running : ThreadStatusInner
  yielded : ℕ → ThreadStatusInner
  inner_finished : ThreadStatusInner
  inner_error : ThreadStatusInner

pub data Error : Type 0 where
  coroutine_unresumable stack_error conversion_error cannot_reset : Error
  raised : Error

pub data Result (A : Type 0) : Type 0 where
  ok : A → Result A
  err : Error → Result A

pub record Thread (V : Type 0) : Type 0 where
  pub status : LuaStatus
  pub stack : List V

-- How `lua_resume` ends: the function returns or yields these values, or raises an error, of
-- which one value is left.
pub data Resumed (V : Type 0) : Type 0 where
  returns yields : List V → Resumed V
  raises : V → Resumed V

-- A thread is running if it is the one that Lua is in.
unfoldable pub status_of : LuaStatus → ℕ → ThreadStatusInner
status_of lua_yield top = yielded top
status_of lua_ok top = if ltb 0 top then new (top - 1) else inner_finished
status_of lua_err top = inner_error

unfoldable pub outer : ThreadStatusInner → ThreadStatus
outer (new n) = resumable
outer (yielded n) = resumable
outer inner_running = running
outer inner_finished = finished
outer inner_error = error

unfoldable pub is_resumable : ThreadStatusInner → Bool
is_resumable (new n) = true
is_resumable (yielded n) = true
is_resumable inner_running = false
is_resumable inner_finished = false
is_resumable inner_error = false

unfoldable pub is_yielded : ThreadStatusInner → Bool
is_yielded (yielded n) = true
is_yielded (new n) = false
is_yielded inner_running = false
is_yielded inner_finished = false
is_yielded inner_error = false

-- What the call finds: the thread running or not, its arguments after conversion, and whether
-- the two stacks can grow.
pub record Call (V : Type 0) : Type 0 where
  pub is_current : Bool
  pub args : Result (List V)
  pub thread_grows : Bool
  pub state_grows : Bool

-- The builds differ in which threads can be reset. `closed` is how `lua_closethread` ends.
pub record Build : Type 0 where
  pub lua54 : Bool
  pub luau : Bool

pub data Poll (A : Type 0) : Type 0 where
  pending : Poll A
  ready : A → Poll A

module _ {V : Type 0} where
  unfoldable pub status_inner : Bool → Thread V → ThreadStatusInner
  unfolding status_of
  status_inner is_current t =
      if is_current then inner_running else status_of t.status (length t.stack)

  unfoldable pub status : Bool → Thread V → ThreadStatus
  unfolding outer status_inner
  status is_current t = outer (status_inner is_current t)

  -- `StackGuard::with_top(thread_state, 0)` at the end of its scope.
  unfoldable pub clear : Thread V → Thread V
  clear t = record t { stack = [] }

  -- `resume_inner`: the thread with the results on its stack, the new status and the results.
  unfoldable pub resume_inner : Resumed V → Thread V × Result (ThreadStatusInner × List V)
  resume_inner (returns vs) = (record { status = lua_ok; stack = vs }, ok (inner_finished, vs))
  resume_inner (yields vs) = (record { status = lua_yield; stack = vs }, ok (yielded 0, vs))
  resume_inner (raises v) = (record { status = lua_err; stack = v ∷ [] }, err raised)

  -- `check_stack` for the arguments is made only if there are some.
  unfoldable pub room_for : Bool → List V → Bool
  room_for grows [] = true
  room_for grows (v ∷ vs) = grows

  unfoldable pub results : Call V → Result (ThreadStatusInner × List V) → Result (List V)
  results c (err e) = err e
  results c (ok (s, vs)) = if c.state_grows then ok vs else err stack_error

  -- `lua_resume` is given the thread with the new arguments on top.
  unfoldable pub resume : Call V → (Thread V → Resumed V) → Thread V → Thread V × Result (List V)
  unfolding status_inner is_resumable room_for resume_inner clear results
  resume c lua_resume t =
      if is_resumable (status_inner c.is_current t)
      then elim c.args [
        | err e ↦ (clear t, err e)
        | ok vs ↦
            if room_for c.thread_grows vs
            then (let (t', r) = resume_inner (lua_resume (record t { stack = t.stack ++ vs })) in
                (clear t', results c r))
            else (clear t, err stack_error)
      ]
      else (t, err coroutine_unresumable)

  close : Build → Bool → Thread V → V → Thread V × Result (Unit {0})
  close b closed t func =
      if b.lua54 && not closed
      then (record { status = lua_ok; stack = [] }, err raised)
      else (record { status = lua_ok; stack = func ∷ [] }, ok tt)

  -- A reset thread has the function alone on its stack.
  unfoldable pub reset : Build → Bool → Bool → V → Thread V → Thread V × Result (Unit {0})
  unfolding status_inner close
  reset b is_current closed func t = elim (status_inner is_current t) [
    | inner_running ↦ (t, err cannot_reset)
    | new n ↦ (record t { stack = func ∷ [] }, ok tt)
    | inner_finished ↦ (record t { stack = t.stack ++ func ∷ [] }, ok tt)
    | yielded n ↦ if b.lua54 || b.luau then close b closed t func else (t, err cannot_reset)
    | inner_error ↦ if b.lua54 || b.luau then close b closed t func else (t, err cannot_reset)
  ]

  -- The arguments wait on the thread's stack.
  unfoldable pub into_async : Call V → Thread V → Thread V × Result (Unit {0})
  unfolding status_inner is_resumable room_for
  into_async c t =
      if is_resumable (status_inner c.is_current t)
      then elim c.args [
        | err e ↦ (t, err e)
        | ok vs ↦
            if room_for c.thread_grows vs
            then (record t { stack = t.stack ++ vs }, ok tt)
            else (t, err stack_error)
      ]
      else (t, err coroutine_unresumable)

  -- The mark that a future which is not ready yields, alone.
  unfoldable pub is_poll_pending : (V → Bool) → List V → Bool
  is_poll_pending mark [] = false
  is_poll_pending mark (v ∷ []) = mark v
  is_poll_pending mark (v ∷ w ∷ vs) = false

  module _ (mark : V → Bool) (lua_resume : Thread V → Resumed V) where
    next_item : Bool → Result (ThreadStatusInner × List V) → Poll (Option (Result (List V)))
    unfolding is_yielded is_poll_pending
    next_item grows (err e) = ready (some (err e))
    next_item grows (ok (s, vs)) =
        if is_yielded s && is_poll_pending mark vs
        then pending
        else ready (some (if grows then ok vs else err stack_error))

    -- `Stream::poll_next`
    unfoldable pub poll_next : Bool → Bool → Thread V → Thread V × Poll (Option (Result (List V)))
    unfolding status_inner is_resumable resume_inner clear next_item
    poll_next is_current grows t =
        if is_resumable (status_inner is_current t)
        then (let (t', r) = resume_inner (lua_resume t) in (clear t', next_item grows r))
        else (t, ready none)

    -- `wake_by_ref` is called, which is the Boolean, unless what was yielded is the mark.
    final_item : Bool → Result (ThreadStatusInner × List V) → Bool × Poll (Result (List V))
    unfolding is_yielded is_poll_pending
    final_item grows (err e) = (false, ready (err e))
    final_item grows (ok (s, vs)) =
        if is_yielded s
        then (not (is_poll_pending mark vs), pending)
        else (false, ready (if grows then ok vs else err stack_error))

    -- `Future::poll`, with whether it woke its waker.
    unfoldable pub poll : Bool → Bool → Thread V → Thread V × Bool × Poll (Result (List V))
    unfolding status_inner is_resumable resume_inner clear final_item
    poll is_current grows t =
        if is_resumable (status_inner is_current t)
        then (let (t', r) = resume_inner (lua_resume t) in
            let (woken, p) = final_item grows r in (clear t', woken, p))
        else (t, false, ready (err coroutine_unresumable))
