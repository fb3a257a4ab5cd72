-- ===== src/Bind.antt =====
-- `Function::bind` of src/function.rs: a function with its first arguments fixed. A Lua function is what
-- it returns for a list of arguments, and a stack is listed from its bottom.
pub mod Calls
mod Tests
use mlua.Base.{
  ℕ, zero, suc, ◌+◌, ◌<◌, ◌≡◌, Bool, List, [], ◌∷◌, ◌++◌, length, ltb, ◌==◌, if◌then◌else◌, Option,
  none, some, get_elem?,
}

pub data Result (A : Type 0) : Type 0 where
  ok : A → Result A
  bind_error : Result A

-- `lua_rotate` of a whole stack, by a number of places towards the top, and how many upvalues a closure
-- can have.
pub record Lua (V : Type 0) : Type 0 where
  pub rotate : List V → ℕ → List V
  pub max_upvalues : ℕ
  pub nil : V

module _ {V : Type 0} (lua : Lua V) where
  -- `lua_pushvalue` of the upvalues from the `i`-th argument on, of which there are `k`.
  unfoldable pub push_upvalues : ℕ → ℕ → List V → List V → List V
  push_upvalues i zero binds stack = stack
  push_upvalues i (suc k) binds stack =
      push_upvalues (suc i) k binds
        (stack ++ (elim (get_elem? binds i) [ some v ↦ v | none ↦ lua.nil ]) ∷ [])

  -- `args_wrapper_impl`: the arguments of the call are its stack, and all of the stack is returned.
  unfoldable pub args_wrapper : List V → List V → List V
  unfolding push_upvalues
  args_wrapper binds stack =
      let pushed = push_upvalues 0 (length binds) binds stack in
      if ltb 0 (length stack) then lua.rotate pushed (length binds) else pushed

  unfoldable pub bind : {R : Type 0} → (List V → R) → List V → Result (List V → R)
  unfolding args_wrapper
  bind func args =
      if length args == 0
      then ok func
      else (if ltb lua.max_upvalues (length args + 1)
          then bind_error
          else ok (λ call_args. func (args_wrapper args call_args)))
