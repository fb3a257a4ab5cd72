-- ===== src/Scope/Tests.antt =====
-- A scope with a callback, two userdata and a destructor of the user.
use mlua.Scope.World.{Reach, create, add_destructor, start, next, drop-registered}
use mlua.Scope.Ending.{Has}
use mlua.Scope.{Kind, callback, unique_userdata, Lua, Scope, drop, new}
use mlua.Scope
use mlua.Base.{ℕ, ◌<◌, ◌≡◌, false, true, none}

abbrev lua : Lua ℕ
lua = record { data_of = λ k. none; registered = λ k. false; next = 3 }

abbrev made : Lua ℕ × Scope
made =
    Scope.create unique_userdata 12
      (Scope.create unique_userdata 11 (Scope.create callback 10 (lua, new)))

abbrev used : Lua ℕ × Scope
used = (made.0, Scope.add_destructor 20 (made.1))

used-Reach : Reach lua used
used-Reach =
    next
      (next (next (next start (create callback 10)) (create unique_userdata 11))
        (create unique_userdata 12))
      (add_destructor 20)

drop-registered_example :
    ((d : ℕ × Kind)
      → Has d (used.1.destructors)
      → d.1 ≡ unique_userdata
      → (used.0.registered (d.0) ≡ true) × ((drop used).0.registered (d.0) ≡ false))
    × ((k : ℕ) → k < 3 → (drop used).0.registered k ≡ used.0.registered k)
drop-registered_example = drop-registered lua used used-Reach
