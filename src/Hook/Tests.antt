-- ===== src/Hook/Tests.antt =====
-- The triggers at concrete sets.
use mlua.Hook.{pos}
use mlua.Base.{false, true, some}
use mlua.Hook

abbrev calls_and_count : Hook.HookTriggers
calls_and_count = record {
  on_calls = true;
  on_returns = false;
  every_line = false;
  every_nth_instruction = some 3000000000;
}

abbrev lines : Hook.HookTriggers
lines = Hook.every_nth_instruction 7 (Hook.every_line Hook.new)
