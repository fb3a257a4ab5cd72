-- ===== src/SafeMode/Tests.antt =====
-- An instance of Lua 5.4 into which libraries are loaded.
use mlua.Base.{ℕ, refl, Bool, true, false, ◌||◌, ltb, ◌==◌}
use mlua.SafeMode.{StdLib, Build, Lua, ok, package_lib, debug_lib, ffi_lib}
use mlua.SafeMode
use mlua.SafeMode.Safety

abbrev lua54 : Build
lua54 = record {
  has = λ k. ltb k 6 || (k == 7 || (k == package_lib || k == debug_lib));
  luajit = false;
}

abbrev opens : ℕ → Bool
opens k = true

-- The instance that has the table library, after the package library is loaded.
abbrev loaded : Lua
unfolding SafeMode.new_with SafeMode.load_std_libs SafeMode.flag
loaded =
    (SafeMode.load_std_libs lua54 opens opens (SafeMode.flag package_lib)
      (SafeMode.new_with lua54 opens opens (SafeMode.flag 1)).0).0

loaded-Reach : Safety.Reach lua54 loaded
unfolding loaded SafeMode.new_with SafeMode.refuses SafeMode.inner_new SafeMode.disable_if
    SafeMode.mark_safe SafeMode.contains SafeMode.common SafeMode.open_all SafeMode.order
    SafeMode.flag
loaded-Reach =
    Safety.load opens opens (SafeMode.flag package_lib) (λ e. cc)
      (Safety.create opens opens (SafeMode.flag 1) refl)

Reach-IsSafe_example : Safety.IsSafe loaded
Reach-IsSafe_example = Safety.Reach-IsSafe lua54 (λ e. e) loaded-Reach
