-- ===== src/Thread/Tests.antt =====
-- The theorems on threads at concrete threads, whose values are numbers.
use mlua.Base.{ℕ, ◌≡◌, refl, true, false, List, [], ◌∷◌, ◌==◌}
use mlua.Thread.{
  lua_ok, resumable, finished, Result, ok, err, Thread, Resumed, returns, yields, Call, Build,
  status, resume, conversion_error, is_poll_pending,
}
use mlua.Thread.Resume.{resume_lost}
use mlua.Thread.Drive.{items, items-eq-produced}

abbrev created : Thread ℕ
created = record { status = lua_ok; stack = 100 ∷ [] }

abbrev ended : Thread ℕ
ended = record { status = lua_ok; stack = [] }

abbrev with_args : Result (List ℕ) → Call ℕ
with_args r = record { is_current = false; args = r; thread_grows = true; state_grows = true }

abbrev old_lua : Build
old_lua = record { lua54 = false; luau = false }

-- The function yields 1, then the mark 9 of a pending future, then returns 2.
abbrev outcomes : List (Resumed ℕ)
outcomes = yields (1 ∷ []) ∷ yields (9 ∷ []) ∷ returns (2 ∷ []) ∷ yields [] ∷ []

resume_lost_example :
    (status false created ≡ resumable)
    × ((resume (with_args (err conversion_error)) (λ t. returns []) created).1
        ≡ err conversion_error)
    × (status false (resume (with_args (err conversion_error)) (λ t. returns []) created).0
        ≡ finished)
resume_lost_example =
    resume_lost (with_args (err conversion_error)) (λ t. returns []) 100 [] conversion_error refl
      refl

items-eq-produced_example : items (λ v. v == 9) created outcomes ≡ ok (1 ∷ []) ∷ ok (2 ∷ []) ∷ []
unfolding status is_poll_pending
items-eq-produced_example = items-eq-produced (λ v. v == 9) created outcomes refl
