-- ===== src/Hook.antt =====
-- src/hook.rs: the events that call a hook, and what `lua_sethook` is told of them.
-- The masks are those of the Lua headers. A `u32` is a number below 2 ^ 32, and a `c_int` is
-- written as its bits.
pub mod Mask
mod Tests
use mlua.Base.{
  ℕ, ◌+◌, ◌^◌, ◌-◌, Bool, true, false, ◌&&◌, ◌||◌, not, Option, none, some, ltb, ◌==◌, ◌/◌, ◌%◌,
  if◌then◌else◌,
}
use mlua.Base.Integer.{ℤ, pos, negsuc}

pub record HookTriggers : Type 0 where
  pub on_calls : Bool
  pub on_returns : Bool
  pub every_line : Bool
  pub every_nth_instruction : Option ℕ

unfoldable pub new : HookTriggers
new = record {
  on_calls = false;
  on_returns = false;
  every_line = false;
  every_nth_instruction = none;
}

unfoldable pub on_calls : HookTriggers → HookTriggers
on_calls self = record self { on_calls = true }

unfoldable pub on_returns : HookTriggers → HookTriggers
on_returns self = record self { on_returns = true }

unfoldable pub every_line : HookTriggers → HookTriggers
every_line self = record self { every_line = true }

unfoldable pub every_nth_instruction : ℕ → HookTriggers → HookTriggers
every_nth_instruction n self = record self { every_nth_instruction = some n }

unfoldable pub is_some : Option ℕ → Bool
is_some none = false
is_some (some n) = true

-- `mask |= bit`, for a bit alone.
unfoldable pub set : Bool → ℕ → ℕ → ℕ
set on bit m = if on && not (m / bit % 2 == 1) then m + bit else m

unfoldable pub mask : HookTriggers → ℕ
unfolding set is_some
mask self =
    set (is_some self.every_nth_instruction) 8
      (set self.every_line 4 (set self.on_returns 2 (set self.on_calls 1 0)))

-- `n as c_int` of a `u32`.
unfoldable pub as_c_int : ℕ → ℤ
as_c_int n = if ltb n (2 ^ 31) then pos n else negsuc (2 ^ 32 - 1 - n)

unfoldable pub count : HookTriggers → ℤ
unfolding as_c_int
count self = elim self.every_nth_instruction [ none ↦ pos 0 | some n ↦ as_c_int n ]

unfoldable pub first : Option ℕ → Option ℕ → Option ℕ
first none r = r
first (some n) r = some n

unfoldable pub bitor : HookTriggers → HookTriggers → HookTriggers
unfolding first
bitor self rhs = record {
  on_calls = self.on_calls || rhs.on_calls;
  on_returns = self.on_returns || rhs.on_returns;
  every_line = self.every_line || rhs.every_line;
  every_nth_instruction = first self.every_nth_instruction rhs.every_nth_instruction;
}
