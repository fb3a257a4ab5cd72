-- ===== src/Multi/Into.antt =====
-- src/multi.rs and src/traits.rs: `IntoLuaMulti` and its implementations. A value is given by its
-- conversion, `x.into_lua(lua)`.
use mlua.Base.{ℕ, ◌+◌, List, [], ◌∷◌, ◌++◌, Bool, if◌then◌else◌, length}
use mlua.Multi.{Result, ok, err, panics, stack_error, and_then, IntoLuaMulti}

-- `?` in a function that works on the stack.
unfoldable pub and_push :
    {V E A B : Type 0}
    → List V × Result E A
    → (List V → A → List V × Result E B)
    → List V × Result E B
and_push (stack, ok a) f = f stack a
and_push (stack, err e) f = (stack, err e)
and_push (stack, panics) f = (stack, panics)

module _ {V E : Type 0} where
  -- `IntoLua::push_into_stack`
  unfoldable pub push_into_stack : Result E V → List V → List V × Result E (Unit {0})
  push_into_stack (ok v) stack = (stack ++ v ∷ [], ok tt)
  push_into_stack (err e) stack = (stack, err e)
  push_into_stack panics stack = (stack, panics)

  -- The trait's own `push_into_stack_multi`.
  unfoldable pub push_values : Result E (List V) → Bool → List V → List V × Result E ℕ
  push_values (err e) grows stack = (stack, err e)
  push_values panics grows stack = (stack, panics)
  push_values (ok vs) grows stack =
      if grows then (stack ++ vs, ok (length vs)) else (stack, err stack_error)

  unfoldable pub default : Result E (List V) → IntoLuaMulti V E
  unfolding push_values
  default r = record { into_lua_multi = r; push_into_stack_multi = push_values r }

  unfoldable pub single : Result E V → IntoLuaMulti V E
  unfolding and_then and_push push_into_stack
  single x = record {
    into_lua_multi = and_then x (λ v. ok (v ∷ []));
    push_into_stack_multi =
        λ grows stack. and_push (push_into_stack x stack) (λ stack' u. (stack', ok 1));
  }

  unfoldable pub multi_value : List V → IntoLuaMulti V E
  unfolding default
  multi_value vs = default (ok vs)

  -- `MultiValue::from_lua_iter`
  unfoldable pub from_lua_iter : List (Result E V) → Result E (List V)
  unfolding and_then
  from_lua_iter [] = ok []
  from_lua_iter (x ∷ xs) = and_then x (λ v. and_then (from_lua_iter xs) (λ vs. ok (v ∷ vs)))

  unfoldable pub variadic : List (Result E V) → IntoLuaMulti V E
  unfolding default from_lua_iter
  variadic xs = default (from_lua_iter xs)

  unfoldable pub unit : IntoLuaMulti V E
  unit = record { into_lua_multi = ok []; push_into_stack_multi = λ grows stack. (stack, ok 0) }

  -- The macro: from the last name to the first, each is converted and put in front.
  unfoldable pub push_reverse : Result E (List V) → List (Result E V) → Result E (List V)
  unfolding and_then
  push_reverse results [] = results
  push_reverse results (x ∷ xs) =
      and_then (push_reverse results xs) (λ vs. and_then x (λ v. ok (v ∷ vs)))

  unfoldable pub push_names : List (Result E V) → List V → List V × Result E (Unit {0})
  unfolding and_push push_into_stack
  push_names [] stack = (stack, ok tt)
  push_names (x ∷ xs) stack = and_push (push_into_stack x stack) (λ stack' u. push_names xs stack')

  -- A tuple of the values of its names and a last part.
  unfoldable pub tuple : List (Result E V) → IntoLuaMulti V E → IntoLuaMulti V E
  unfolding push_reverse push_names and_push
  tuple names last = record {
    into_lua_multi = push_reverse last.into_lua_multi names;
    push_into_stack_multi = λ grows stack.
        if grows
        then and_push (push_names names stack) (λ stack' u.
          and_push (last.push_into_stack_multi grows stack')
            (λ stack'' n. (stack'', ok (length names + n))))
        else (stack, err stack_error);
  }

  -- `Result`: the value alone, or nil and the error's value.
  unfoldable pub result_ok : Result E V → IntoLuaMulti V E
  unfolding tuple single
  result_ok val = tuple [] (single val)

  unfoldable pub result_err : V → Result E V → IntoLuaMulti V E
  unfolding tuple single
  result_err nil e = tuple (ok nil ∷ []) (single e)
