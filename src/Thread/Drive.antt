-- ===== src/Thread/Drive.antt =====
-- src/thread.rs: a thread driven to its end as a stream or as a future.
use mlua.Base.{
  ◌≡◌, ◌≢◌, refl, Bool, true, false, ◌||◌, List, [], ◌∷◌, Option, none, some, arith, if◌then◌else◌,
}
use mlua.Thread.{
  lua_ok, lua_yield, lua_err, resumable, Result, ok, err, raised, Thread, Resumed, returns, yields,
  raises, status, poll_next, poll, pending, ready, is_poll_pending,
}

module _ {V : Type 0} (mark : V → Bool) where
  -- The items of the stream, where `lua_resume` ends in turn as the list says.
  pub items : Thread V → List (Resumed V) → List (Result (List V))
  unfolding poll_next
  items t [] = []
  items t (o ∷ os) =
      let (t', p) = poll_next mark (λ _. o) false true t in
      elim p [ pending ↦ items t' os | ready none ↦ [] | ready (some r) ↦ r ∷ items t' os ]

  -- What the function yields, futures that are not ready apart, and then what it returns or raises.
  abbrev pub produced : List (Resumed V) → List (Result (List V))
  produced [] = []
  produced (returns vs ∷ os) = ok vs ∷ []
  produced (raises v ∷ os) = err raised ∷ []
  produced (yields vs ∷ os) = if is_poll_pending mark vs then produced os else ok vs ∷ produced os

  -- Whether the waker is called by the future inside that is not ready, which was given it: the function
  -- yields the mark only for such a future.
  abbrev pub wakes_later : Resumed V → Bool
  wakes_later (yields vs) = is_poll_pending mark vs
  wakes_later (returns vs) = false
  wakes_later (raises v) = false

  -- The value that an executor gets, which polls again only if the waker is called; `none` if the future
  -- is not ready by then, or hangs.
  pub value : Thread V → List (Resumed V) → Option (Result (List V))
  unfolding poll
  value t [] = none
  value t (o ∷ os) =
      let (t', woken, p) = poll mark (λ _. o) false true t in
      let further = value t' os in
      elim p [ pending ↦ if woken || wakes_later o then further else none | ready r ↦ some r ]

  abbrev pub outcome : List (Resumed V) → Option (Result (List V))
  outcome [] = none
  outcome (returns vs ∷ os) = some (ok vs)
  outcome (raises v ∷ os) = some (err raised)
  outcome (yields vs ∷ os) = outcome os

  items-ended :
      (t : Thread V) (os : List (Resumed V)) → status false t ≢ resumable → items t os ≡ []
  unfolding items status
  items-ended t [] h = refl
  items-ended t (o ∷ os) h = ground arith

  -- On stacks that can grow, the stream of a resumable thread gives exactly what its function
  -- yields, but for the mark of a future that is not ready, and then what it returns or raises; it
  -- ends there.
  pub items-eq-produced :
      (t : Thread V) (os : List (Resumed V)) → status false t ≡ resumable → items t os ≡ produced os
  unfolding items status
  items-eq-produced t [] h = refl
  items-eq-produced t (returns vs ∷ os) h =
      ground (arith, items-ended (record { status = lua_ok; stack = [] }) os)
  items-eq-produced t (raises v ∷ os) h =
      ground (arith, items-ended (record { status = lua_err; stack = [] }) os)
  items-eq-produced t (yields vs ∷ os) h =
      ground (arith, items-eq-produced (record { status = lua_yield; stack = [] }) os refl)
