-- ===== src/SafeMode/Safety.antt =====
-- Safe instances of src/state.rs, and the libraries that are loaded into them.
use mlua.Base.{
  ℕ, zero, suc, ◌<◌, ◌≡◌, refl, Bool, true, false, List, [], ◌∷◌, arith, inl, ◌⊎◌, ◌≤◌, ◌≢◌, All,
  some, Bool-cases, inr, none,
}
use mlua.SafeMode.{
  StdLib, Build, Lua, ok, err, panics, safety_error, package_lib, debug_lib, ffi_lib, Searcher,
  preload, lua_loader, c_loader, c_root_loader, refusing, fails, Package,
}
use mlua.SafeMode

common-beyond : (n k : ℕ) (a : StdLib) → n ≤ k → SafeMode.common n a (SafeMode.flag k) ≡ false
unfolding SafeMode.common SafeMode.flag
common-beyond zero k a h = refl
common-beyond (suc n) k a h = ground (arith, common-beyond n k a)

common-flag : (n k : ℕ) (a : StdLib) → k < n → SafeMode.common n a (SafeMode.flag k) ≡ a k
unfolding SafeMode.common SafeMode.flag
common-flag zero k a h = ground arith
common-flag (suc n) k a h = ground (arith, common-flag n k a, common-beyond n k a)

contains-flag : (k : ℕ) (a : StdLib) → k < 32 → SafeMode.contains a (SafeMode.flag k) ≡ a k
unfolding SafeMode.contains
contains-flag k a h = common-flag 32 k a h

-- A library is opened only if it was, or was asked for.
open_all-asked :
    (b : Build) (opens : ℕ → Bool) (libs : StdLib) (ks : List ℕ) (opened : ℕ → Bool) (k : ℕ)
    → k < 32
    → (SafeMode.open_all b opens libs ks opened).0 k ≡ true
    → (opened k ≡ true) ⊎ ((libs k ≡ true) × (b.has k ≡ true))
unfolding SafeMode.open_all SafeMode.bitor SafeMode.flag
open_all-asked b opens libs [] opened k l h = inl h
open_all-asked b opens libs (x ∷ ks) opened k l h = ground (
  arith,
  contains-flag k libs l,
  open_all-asked b opens libs ks opened k l,
  open_all-asked b opens libs ks (SafeMode.bitor opened (SafeMode.flag x)) k l,
)

-- C modules cannot be loaded through the package table.
abbrev is_c : Searcher → Bool
is_c c_loader = true
is_c c_root_loader = true
is_c preload = false
is_c lua_loader = false
is_c refusing = false

abbrev pub IsDisabled : Package → Type 0
IsDisabled p = (p.loadlib ≡ fails) × All (λ s. is_c s ≡ false) p.searchers

disable_in-IsDisabled :
    (steps : ℕ → Bool)
    → (SafeMode.disable_in steps SafeMode.fresh_package).1 ≡ true
    → IsDisabled (SafeMode.disable_in steps SafeMode.fresh_package).0
unfolding SafeMode.disable_in SafeMode.fresh_package SafeMode.set_at SafeMode.without_at
    SafeMode.removed
disable_in-IsDisabled steps h = ground arith

-- What safe mode keeps: the debug library and, since only LuaJIT has it, the ffi library are not
-- opened, and if the package library is opened, it cannot load C modules; it is recorded then.
pub record IsSafe (l : Lua) : Type 0 where
  pub marked : l.safe ≡ true
  pub no_debug : l.opened debug_lib ≡ false
  pub no_ffi : l.opened ffi_lib ≡ false
  pub disabled :
      l.opened package_lib ≡ true → (p : Package) × (l.package_table ≡ some p) × IsDisabled p
  pub recorded : l.opened package_lib ≡ true → l.libs package_lib ≡ true
  pub recorded_opened : l.libs package_lib ≡ true → l.opened package_lib ≡ true
  pub no_table : l.opened package_lib ≡ false → l.package_table ≡ none

-- An instance made by `new_with`, into which libraries are then loaded, one call after another,
-- whatever Lua manages to open, by calls that do not panic.
pub data Reach (b : Build) : Lua → Type 0 where
  create :
      (opens steps : ℕ → Bool) (libs : StdLib)
      → (SafeMode.new_with b opens steps libs).1 ≡ ok
      → Reach b (SafeMode.new_with b opens steps libs).0
  load :
      {l : Lua} (opens steps : ℕ → Bool) (libs : StdLib)
      → (SafeMode.load_std_libs b opens steps libs l).1 ≢ panics
      → Reach b l
      → Reach b (SafeMode.load_std_libs b opens steps libs l).0

create-IsSafe :
    (b : Build) (opens steps : ℕ → Bool) (libs : StdLib)
    → (b.has ffi_lib ≡ true → b.luajit ≡ true)
    → (SafeMode.new_with b opens steps libs).1 ≡ ok
    → IsSafe (SafeMode.new_with b opens steps libs).0
unfolding SafeMode.new_with SafeMode.refuses SafeMode.inner_new SafeMode.disable_if
    SafeMode.mark_safe SafeMode.disable_c_modules SafeMode.disabled_package SafeMode.disable_result
    SafeMode.open_package
create-IsSafe b opens steps libs f h = record {
  marked = ground arith;
  no_debug = ground (
    arith,
    contains-flag debug_lib libs (omega arith),
    open_all-asked b opens libs SafeMode.order (λ k. false) debug_lib (omega arith),
  );
  no_ffi = ground (
    arith,
    contains-flag ffi_lib libs (omega arith),
    open_all-asked b opens libs SafeMode.order (λ k. false) ffi_lib (omega arith),
  );
  disabled = λ o. (
    (SafeMode.disable_in steps SafeMode.fresh_package).0,
    ground (
      arith,
      contains-flag package_lib libs (omega arith),
      open_all-asked b opens libs SafeMode.order (λ k. false) package_lib (omega arith),
    ),
    disable_in-IsDisabled steps (
        ground (
          arith,
          contains-flag package_lib libs (omega arith),
          open_all-asked b opens libs SafeMode.order (λ k. false) package_lib (omega arith),
        )),
  );
  recorded = ground (
    arith,
    contains-flag package_lib libs (omega arith),
    open_all-asked b opens libs SafeMode.order (λ k. false) package_lib (omega arith),
  );
  recorded_opened = λ r. ground (arith, contains-flag package_lib libs (omega arith));
  no_table = λ o. ground (arith, contains-flag package_lib libs (omega arith));
}

open_all-keeps :
    (b : Build) (opens : ℕ → Bool) (libs : StdLib) (ks : List ℕ) (opened : ℕ → Bool) (k : ℕ)
    → opened k ≡ true
    → (SafeMode.open_all b opens libs ks opened).0 k ≡ true
unfolding SafeMode.open_all SafeMode.bitor SafeMode.flag
open_all-keeps b opens libs [] opened k h = h
open_all-keeps b opens libs (x ∷ ks) opened k h = ground (
  arith,
  open_all-keeps b opens libs ks opened k,
  open_all-keeps b opens libs ks (SafeMode.bitor opened (SafeMode.flag x)) k,
)

load-IsSafe :
    (b : Build) (opens steps : ℕ → Bool) (libs : StdLib) (l : Lua)
    → (b.has ffi_lib ≡ true → b.luajit ≡ true)
    → IsSafe l
    → (SafeMode.load_std_libs b opens steps libs l).1 ≢ panics
    → IsSafe (SafeMode.load_std_libs b opens steps libs l).0
unfolding SafeMode.load_std_libs SafeMode.refuses SafeMode.finish_load SafeMode.disable_c_modules
    SafeMode.disabled_package SafeMode.disable_result SafeMode.open_package SafeMode.bitor
    SafeMode.bitxor
load-IsSafe b opens steps libs l f h ok' = record {
  marked = ground (arith, h.marked);
  no_debug = ground (
    arith,
    h.marked,
    h.no_debug,
    contains-flag debug_lib libs (omega arith),
    open_all-asked b opens libs SafeMode.order l.opened debug_lib (omega arith),
  );
  no_ffi = ground (
    arith,
    h.marked,
    h.no_ffi,
    contains-flag ffi_lib libs (omega arith),
    open_all-asked b opens libs SafeMode.order l.opened ffi_lib (omega arith),
  );
  disabled = λ o. elim (Bool-cases (l.opened package_lib)) [
    | inl e ↦
        let (p, q, d) = h.disabled e in
        (
          p,
          ground (
            arith,
            h.marked,
            h.recorded e,
            contains-flag package_lib (SafeMode.bitxor l.libs (SafeMode.bitor l.libs libs))
                (omega arith),
          ),
          d,
        )
    | inr e ↦ (
      (SafeMode.disable_in steps SafeMode.fresh_package).0,
      ground (
        arith,
        h.marked,
        h.recorded_opened,
        contains-flag package_lib (SafeMode.bitxor l.libs (SafeMode.bitor l.libs libs))
            (omega arith),
        open_all-asked b opens libs SafeMode.order l.opened package_lib (omega arith),
      ),
      disable_in-IsDisabled steps (
          ground (
            arith,
            h.marked,
            h.recorded_opened,
            contains-flag package_lib (SafeMode.bitxor l.libs (SafeMode.bitor l.libs libs))
                (omega arith),
            open_all-asked b opens libs SafeMode.order l.opened package_lib (omega arith),
          )),
    )
  ];
  recorded = λ o. ground (
    arith,
    h.marked,
    h.recorded,
    open_all-asked b opens libs SafeMode.order l.opened package_lib (omega arith),
  );
  recorded_opened = λ r. ground (
    arith,
    h.marked,
    h.recorded_opened,
    h.no_table,
    contains-flag package_lib (SafeMode.bitxor l.libs (SafeMode.bitor l.libs libs)) (omega arith),
    open_all-keeps b opens libs SafeMode.order l.opened package_lib,
  );
  no_table = λ o. ground (
    arith,
    h.marked,
    h.no_table,
    open_all-keeps b opens libs SafeMode.order l.opened package_lib,
  );
}

-- In a build in which only LuaJIT has the ffi library, an instance that `new_with` made stays safe
-- however libraries are loaded into it, by calls that do not panic: it is marked, it has opened neither the
-- debug library nor the ffi library, and if its package library is opened, `loadlib` is the function that
-- fails and no searcher that looks for C libraries is left.
pub Reach-IsSafe :
    (b : Build) → (b.has ffi_lib ≡ true → b.luajit ≡ true) → {l : Lua} → Reach b l → IsSafe l
Reach-IsSafe b f (create opens steps libs h) = create-IsSafe b opens steps libs f h
Reach-IsSafe b f (load {l} opens steps libs n r) =
    load-IsSafe b opens steps libs l f (Reach-IsSafe b f r) n
