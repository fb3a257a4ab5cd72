-- ===== src/Bind/Calls.antt =====
-- Calls of bound functions, src/function.rs.
use mlua.Bind.{ok, bind_error, Lua, push_upvalues, args_wrapper, bind}
use mlua.Base.{
  ℕ, suc, ◌+◌, ◌≤◌, ◌<◌, ◌≡◌, ◌≢◌, refl, sym, ap, ◌∙◌, List, [], ◌∷◌, ◌++◌, length, get_elem?, some,
  arith, length-append,
}
use mathlib.Core.List.{append_assoc, append-nil}

-- A nonempty stack that is rotated by the length of its upper part has that part at its bottom.
abbrev pub Rotates : {V : Type 0} → Lua V → Type 0
Rotates {V = V} lua = (xs ys : List V) → lua.rotate (xs ++ ys) (length ys) ≡ ys ++ xs

get_elem?-length :
    {V : Type 0}
    → (before : List V) (v : V) (rest : List V)
    → get_elem? (before ++ v ∷ rest) (length before) ≡ some v
get_elem?-length [] v rest = refl
get_elem?-length (b ∷ before) v rest = get_elem?-length before v rest

module _ {V : Type 0} (lua : Lua V) where
  push_upvalues-append :
      (i : ℕ) (before rest stack : List V)
      → i ≡ length before
      → push_upvalues lua i (length rest) (before ++ rest) stack ≡ stack ++ rest
  unfolding push_upvalues
  push_upvalues-append i before [] stack e = sym (append-nil stack)
  push_upvalues-append i before (v ∷ rest) stack e =
      rw (e, push_upvalues, get_elem?-length before v rest)
        (ap (λ binds. push_upvalues lua (suc (length before)) (length rest) binds (stack ++ v ∷ []))
            (sym (append_assoc before (v ∷ []) rest))
          ∙ push_upvalues-append (suc (length before)) (before ++ v ∷ []) rest (stack ++ v ∷ [])
              (omega (arith, length-append before (v ∷ [])))
          ∙ append_assoc stack (v ∷ []) rest)

  args_wrapper-append :
      (binds args : List V) → Rotates lua → args_wrapper lua binds args ≡ binds ++ args
  unfolding args_wrapper
  args_wrapper-append binds [] r = push_upvalues-append 0 [] binds [] refl ∙ sym (append-nil binds)
  args_wrapper-append binds (a ∷ args) r =
      rw (push_upvalues-append 0 [] binds (a ∷ args) refl, r (a ∷ args) binds) (ground arith)

  -- A function is bound to any arguments that a closure has room for, one place being taken by their
  -- number, and no more; called with further arguments, it calls the function with its own arguments
  -- first. Without arguments it is the function itself.
  pub bind-call :
      {R : Type 0}
      → (func : List V → R) (args : List V) → Rotates lua
      → (length args + 1 ≤ lua.max_upvalues
          → (g : List V → R) × (bind lua func args ≡ ok g)
            × ((call_args : List V) → g call_args ≡ func (args ++ call_args)))
        × (args ≢ [] → lua.max_upvalues < length args + 1 → bind lua func args ≡ bind_error)
  unfolding bind
  bind-call func [] r = (λ l. (func, refl, λ call_args. refl), λ n. absurd (n refl))
  bind-call func (a ∷ args) r = (
    λ l. (
      λ call_args. func (args_wrapper lua (a ∷ args) call_args),
      ground arith,
      λ call_args. ap func (args_wrapper-append (a ∷ args) call_args r),
    ),
    λ n l. ground arith,
  )
