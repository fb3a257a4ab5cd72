-- ===== src/Multi/From.antt =====
-- src/multi.rs and src/traits.rs: `FromLuaMulti` and its implementations.
pub mod Agree
use mlua.Base.{
  ℕ, zero, suc, ◌+◌, ◌-◌, ◌==◌, if◌then◌else◌, List, [], ◌∷◌, Option, none, some, get_elem?, length,
  ltb,
}
use mlua.Multi.{
  Error, Result, ok, err, panics, bad_argument, and_then, map_err, FromLua, FromLuaMulti,
}

-- `values.pop_front().unwrap_or(Nil)`, and the values that are left.
unfoldable pub front : {V : Type 0} → V → List V → V
front nil [] = nil
front nil (v ∷ vs) = v

unfoldable pub rest : {V : Type 0} → List V → List V
rest [] = []
rest (v ∷ vs) = vs

module _ {V E : Type 0} (nil : V) where
  -- The value at the index `- k`; the code panics where there is none.
  unfoldable pub stack_value : List V → ℕ → Result E V
  stack_value stack k =
      if ltb (length stack) k
      then panics
      else elim (get_elem? stack (length stack - k)) [ none ↦ panics | some v ↦ ok v ]

  module _ {A : Type 0} (T : FromLua V E A) where
    unfoldable pub from_lua_arg : V → ℕ → Result E A
    unfolding map_err
    from_lua_arg arg i = map_err (bad_argument i) (T.from_lua arg)

    unfoldable pub from_stack : ℕ → List V → Result E A
    unfolding and_then stack_value
    from_stack k stack = and_then (stack_value stack k) T.from_lua

    unfoldable pub from_stack_arg : ℕ → ℕ → List V → Result E A
    unfolding map_err from_stack
    from_stack_arg k i stack = map_err (bad_argument i) (from_stack k stack)

  -- The loop of the trait's `from_stack_multi`: the values from `- k` up to the top.
  unfoldable pub stack_values : ℕ → List V → Result E (List V)
  unfolding and_then stack_value
  stack_values zero stack = ok []
  stack_values (suc k) stack =
      and_then (stack_value stack (suc k))
        (λ v. and_then (stack_values k stack) (λ vs. ok (v ∷ vs)))

  -- The trait's own definitions.
  unfoldable pub default : {A : Type 0} → (List V → Result E A) → FromLuaMulti V E A
  unfolding and_then stack_values
  default f = record {
    from_lua_multi = f;
    from_lua_args = λ i args. f args;
    from_stack_multi = λ n stack. and_then (stack_values n stack) f;
    from_stack_args = λ n i stack. and_then (stack_values n stack) f;
  }

  unfoldable pub single : {A : Type 0} → FromLua V E A → FromLuaMulti V E A
  unfolding front from_lua_arg from_stack from_stack_arg
  single T = record {
    from_lua_multi = λ values. T.from_lua (front nil values);
    from_lua_args = λ i args. from_lua_arg T (front nil args) i;
    from_stack_multi = λ n stack. if n == 0 then T.from_lua nil else from_stack T n stack;
    from_stack_args =
        λ n i stack. if n == 0 then from_lua_arg T nil i else from_stack_arg T n i stack;
  }

  unfoldable pub multi_value : FromLuaMulti V E (List V)
  unfolding default
  multi_value = default (λ values. ok values)

  unfoldable pub collect : {A : Type 0} → (V → Result E A) → List V → Result E (List A)
  unfolding and_then
  collect f [] = ok []
  collect f (v ∷ vs) = and_then (f v) (λ a. and_then (collect f vs) (λ items. ok (a ∷ items)))

  unfoldable pub variadic : {A : Type 0} → FromLua V E A → FromLuaMulti V E (List A)
  unfolding default collect
  variadic T = default (collect T.from_lua)

  unfoldable pub unit : FromLuaMulti V E (Unit {0})
  unfolding default
  unit = record {
    from_lua_multi = λ values. ok tt;
    from_lua_args = (default (λ values. ok tt)).from_lua_args;
    from_stack_multi = λ n stack. ok tt;
    from_stack_args = λ n i stack. ok tt;
  }

  -- One line `let $name = …` of the macro's functions, before the remaining names and the last
  -- one: a tuple takes a value for each name from the front, and its last part takes what is left.
  unfoldable pub tuple :
      {A B : Type 0} → FromLua V E A → FromLuaMulti V E B → FromLuaMulti V E (A × B)
  unfolding and_then front rest from_lua_arg from_stack from_stack_arg
  tuple name last = record {
    from_lua_multi = λ values.
        and_then (name.from_lua (front nil values))
          (λ a. and_then (last.from_lua_multi (rest values)) (λ b. ok (a, b)));
    from_lua_args = λ i args.
        and_then (from_lua_arg name (front nil args) i)
          (λ a. and_then (last.from_lua_args (i + 1) (rest args)) (λ b. ok (a, b)));
    from_stack_multi = λ nvals stack.
        and_then (if ltb 0 nvals then from_stack name nvals stack else name.from_lua nil)
          (λ a. and_then (last.from_stack_multi (nvals - 1) stack) (λ b. ok (a, b)));
    from_stack_args = λ nargs i stack.
        and_then
          (if ltb 0 nargs then from_stack_arg name nargs i stack else from_lua_arg name nil i)
          (λ a. and_then (last.from_stack_args (nargs - 1) (i + 1) stack) (λ b. ok (a, b)));
  }
