-- ===== src/SafeMode.antt =====
-- src/stdlib.rs, src/state.rs and src/state/raw.rs: which standard libraries a Lua instance loads, and
-- what safe mode refuses, in the builds other than Luau. A `StdLib` is a `u32`, written as its bits.
-- Whether Lua can open a library, and do what the steps of `disable_c_modules` ask of it, are arguments;
-- the instance's own code does not change the package table in between.
pub mod Safety
mod Tests
use mlua.Base.{
  ℕ, zero, suc, Bool, true, false, Option, none, some, ◌&&◌, ◌||◌, not, List, [], ◌∷◌, ◌==◌, ltb,
  if◌then◌else◌,
}

abbrev pub StdLib : Type 0
StdLib = ℕ → Bool

abbrev pub table_lib : ℕ
table_lib = 1

abbrev pub package_lib : ℕ
package_lib = 8

abbrev pub ffi_lib : ℕ
ffi_lib = 30

abbrev pub debug_lib : ℕ
debug_lib = 31

-- `StdLib(1 << k)`
unfoldable pub flag : ℕ → StdLib
flag k i = i == k

unfoldable pub all_safe : StdLib
all_safe i = ltb i 30

unfoldable pub bitor : StdLib → StdLib → StdLib
bitor a b i = a i || b i

unfoldable pub bitxor : StdLib → StdLib → StdLib
bitxor a b i = if a i then not (b i) else b i

-- Whether one of the lowest bits is set in both.
unfoldable pub common : ℕ → StdLib → StdLib → Bool
common zero a b = false
common (suc n) a b = (a n && b n) || common n a b

unfoldable pub contains : StdLib → StdLib → Bool
unfolding common
contains self lib = common 32 self lib

-- The libraries that a build has, and whether it is LuaJIT.
pub record Build : Type 0 where
  pub has : ℕ → Bool
  pub luajit : Bool

pub data Error : Type 0 where
  safety_error load_error : Error

pub data Result : Type 0 where
  ok : Result
  err : Error → Result
  panics : Result

-- What is in the searchers (loaders in 5.1) of the package library: its own four, the last two of which
-- look for C libraries, and the one of safe mode.
pub data Searcher : Type 0 where
  preload lua_loader c_loader c_root_loader refusing : Searcher

-- `package.loadlib` loads C libraries, or is the function that fails.
pub data LoadLib : Type 0 where
  loads_libraries fails : LoadLib

pub record Package : Type 0 where
  pub loadlib : LoadLib
  pub searchers : List Searcher

-- What `luaopen_package` makes.
unfoldable pub fresh_package : Package
fresh_package = record {
  loadlib = loads_libraries;
  searchers = preload ∷ lua_loader ∷ c_loader ∷ c_root_loader ∷ [];
}

-- `opened` is what Lua has loaded, `package_table` the table of the package library.
pub record Lua : Type 0 where
  pub safe : Bool
  pub libs : StdLib
  pub opened : ℕ → Bool
  pub package_table : Option Package

-- The order in which the libraries are loaded.
unfoldable pub order : List ℕ
order = 0 ∷ table_lib ∷ 2 ∷ 3 ∷ 4 ∷ 5 ∷ 6 ∷ 7 ∷ debug_lib ∷ package_lib ∷ 11 ∷ ffi_lib ∷ []

-- The libraries that are asked for are opened in turn, up to the first that fails.
unfoldable pub open_all : Build → (ℕ → Bool) → StdLib → List ℕ → (ℕ → Bool) → (ℕ → Bool) × Bool
unfolding bitor
open_all b opens libs [] opened = (opened, true)
open_all b opens libs (k ∷ ks) opened =
    let further = open_all b opens libs ks (bitor opened (flag k)) in
    let without = open_all b opens libs ks opened in
    if b.has k && contains libs (flag k)
    then (if opens k then further else (opened, false))
    else without

unfoldable pub refuses : Build → StdLib → Bool
refuses b libs = contains libs (flag debug_lib) || (b.luajit && contains libs (flag ffi_lib))

-- `luaL_requiref` of the package library opens it only if it is not loaded yet.
unfoldable pub open_package : Bool → Bool → Option Package → Option Package
unfolding fresh_package
open_package false true p = some fresh_package
open_package true opened p = p
open_package false false p = p

-- `raw_set` at the index k + 1 of a sequence that has one, and `raw_remove` there, which fails otherwise.
unfoldable pub set_at : {A : Type 0} → ℕ → A → List A → List A
set_at k x [] = []
set_at zero x (y ∷ ys) = x ∷ ys
set_at (suc k) x (y ∷ ys) = y ∷ set_at k x ys

unfoldable pub without_at : {A : Type 0} → ℕ → List A → Option (List A)
without_at k [] = none
without_at zero (y ∷ ys) = some ys
without_at (suc k) (y ∷ ys) =
    let rest = without_at k ys in elim rest [ none ↦ none | some zs ↦ some (y ∷ zs) ]

unfoldable pub removed : Package → Option (List Searcher) → Package × Bool
removed p none = (p, false)
removed p (some searchers) = (record p { searchers = searchers }, true)

-- The steps of `disable_c_modules` on the package table up to the first that fails: `steps k` is whether
-- Lua does the k-th of them, from the creation of the function on.
unfoldable pub disable_in : (ℕ → Bool) → Package → Package × Bool
unfolding set_at without_at removed
disable_in steps p =
    if not (steps 1 && steps 2)
    then (p, false)
    else (let p1 : Package = record p { loadlib = fails } in
        if not (steps 3 && steps 4 && steps 5)
        then (p1, false)
        else (let p2 : Package = record p1 { searchers = set_at 2 refusing p1.searchers } in
            if steps 6 then removed p2 (without_at 3 p2.searchers) else (p2, false)))

unfoldable pub disabled_package : (ℕ → Bool) → Option Package → Option Package
unfolding disable_in
disabled_package steps none = none
disabled_package steps (some p) = if steps 0 then some (disable_in steps p).0 else some p

unfoldable pub disable_result : (ℕ → Bool) → Option Package → Result
unfolding disable_in
disable_result steps none = panics
disable_result steps (some p) =
    if steps 0 then (if (disable_in steps p).1 then ok else panics) else panics

-- `disable_c_modules`, with `mlua_expect!`: it needs the table of the package library.
unfoldable pub disable_c_modules : (ℕ → Bool) → Lua → Lua × Result
unfolding disabled_package disable_result
disable_c_modules steps l = (
  record l { package_table = disabled_package steps l.package_table },
  disable_result steps l.package_table,
)

unfoldable pub load_result : Bool → Result
load_result true = ok
load_result false = err load_error

unfoldable pub finish_load : StdLib → Bool → Lua × Result → Lua × Result
unfolding bitor load_result
finish_load libs loaded (l, ok) = (record l { libs = bitor l.libs libs }, load_result loaded)
finish_load libs loaded (l, err e) = (l, err e)
finish_load libs loaded (l, panics) = (l, panics)

-- `RawLua::load_std_libs`
unfoldable pub load_std_libs : Build → (ℕ → Bool) → (ℕ → Bool) → StdLib → Lua → Lua × Result
unfolding refuses bitxor bitor disable_c_modules finish_load open_package
load_std_libs b opens steps libs l =
    if l.safe && refuses b libs
    then (l, err safety_error)
    else (let (opened, loaded) = open_all b opens libs order l.opened in
        let l' : Lua = record l {
          opened = opened;
          package_table = open_package (l.opened package_lib) (opened package_lib) l.package_table;
        } in
        finish_load libs loaded (
          if l.safe && contains (bitxor l.libs (bitor l.libs libs)) (flag package_lib)
          then disable_c_modules steps l'
          else (l', ok)))

-- `RawLua::new`: a failure to load panics.
unfoldable pub inner_new : Build → (ℕ → Bool) → StdLib → Lua × Result
unfolding open_package
inner_new b opens libs =
    let (opened, loaded) = open_all b opens libs order (λ k. false) in
    (
      record {
        safe = false;
        libs = libs;
        opened = opened;
        package_table = open_package false (opened package_lib) none;
      },
      if loaded then ok else panics,
    )

unfoldable pub mark_safe : Lua × Result → Lua × Result
mark_safe (l, ok) = (record l { safe = true }, ok)
mark_safe (l, err e) = (l, err e)
mark_safe (l, panics) = (l, panics)

unfoldable pub disable_if : (ℕ → Bool) → Bool → Lua × Result → Lua × Result
unfolding disable_c_modules
disable_if steps wanted (l, ok) = if wanted then disable_c_modules steps l else (l, ok)
disable_if steps wanted (l, err e) = (l, err e)
disable_if steps wanted (l, panics) = (l, panics)

-- `Lua::new_with`: `none` of an instance stands for what is not returned.
unfoldable pub new_with : Build → (ℕ → Bool) → (ℕ → Bool) → StdLib → Lua × Result
unfolding refuses inner_new disable_if mark_safe
new_with b opens steps libs =
    if refuses b libs
    then (
      record { safe = false; libs = λ i. false; opened = λ i. false; package_table = none },
      err safety_error,
    )
    else mark_safe (disable_if steps (contains libs (flag package_lib)) (inner_new b opens libs))
