-- ===== src/Index/Tests.antt =====
-- A userdata, which is a number, with a getter for the key 1, no methods, and a table for the rest.
use mlua.Index.{Result, ok, Fallback, table}
use mlua.Base.{ℕ, ◌+◌, Option, none, some, ◌==◌, if◌then◌else◌}

abbrev rest : Fallback ℕ ℕ ℕ
rest = table (λ key. ok (key + 100))

abbrev getters : Option (ℕ → Option (ℕ → Result ℕ))
getters = some (λ key. if key == 1 then some (λ self. ok self) else none)

abbrev no_methods : Option (ℕ → Option ℕ)
no_methods = none
