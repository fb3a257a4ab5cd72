-- ===== src/Multi/Call.antt =====
-- The two sides of a call: `push_into_stack_multi` and `from_stack_multi` of src/multi.rs.
use mlua.Base.{ℕ, ◌+◌, ◌≡◌, refl, List, [], ◌∷◌, ◌++◌, true, length, arith, ap, length-append}
use mathlib.Core.List.{append-nil, append_assoc}
use mlua.Multi.{Result, ok, err, panics, and_then, FromLuaMulti, IntoLuaMulti}
use mlua.Multi.Into
use mlua.Multi.From.Agree

and_then-ok :
    {E A B : Type 0} (r : Result E A) (f : A → Result E B) (b : B)
    → and_then r f ≡ ok b
    → (a : A) × (r ≡ ok a) × (f a ≡ ok b)
unfolding and_then
and_then-ok (ok a) f b h = (a, refl, h)
and_then-ok (err c) f b h = cc
and_then-ok panics f b h = cc

and_push-ok :
    {V E A B : Type 0} (p : List V × Result E A) (f : List V → A → List V × Result E B) (b : B)
    → (Into.and_push p f).1 ≡ ok b
    → (a : A) × (p.1 ≡ ok a) × ((f p.0 a).1 ≡ ok b)
unfolding Into.and_push
and_push-ok (stack, ok a) f b h = (a, refl, h)
and_push-ok (stack, err e) f b h = cc
and_push-ok (stack, panics) f b h = cc

push_values-eq :
    {V E : Type 0} (r : Result E (List V)) (stack : List V)
    → ((vs : List V) → r ≡ ok vs → Into.push_values r true stack ≡ (stack ++ vs, ok (length vs)))
      × ((n : ℕ) → (Into.push_values r true stack).1 ≡ ok n → (vs : List V) × (r ≡ ok vs))
unfolding Into.push_values
push_values-eq (ok xs) stack = (λ vs h. let same : xs ≡ vs = cc in rw same refl, λ n h. (xs, refl))
push_values-eq (err e) stack = (λ vs h. cc, λ n h. cc)
push_values-eq panics stack = (λ vs h. cc, λ n h. cc)

pushed_twice :
    {V E : Type 0} (stack heads tails vs : List V) (k : ℕ)
    → vs ≡ heads ++ tails
    → length heads ≡ k
    → Path
        (List V × Result E ℕ)
        ((stack ++ heads) ++ tails, ok (k + length tails))
        (stack ++ vs, ok (length vs))
pushed_twice stack heads tails vs k e l =
    rw (e, append_assoc stack heads tails, length-append heads tails, l) refl

module _ {V E : Type 0} where
  -- What the code turns into Lua values.
  pub data IsPushed : IntoLuaMulti V E → Type 0 where
    unit : IsPushed Into.unit
    multi_value : (vs : List V) → IsPushed (Into.multi_value vs)
    single : (x : Result E V) → IsPushed (Into.single x)
    variadic : (xs : List (Result E V)) → IsPushed (Into.variadic xs)
    tuple :
        (names : List (Result E V)) {m : IntoLuaMulti V E}
        → IsPushed m
        → IsPushed (Into.tuple names m)

  push_names-ok :
      (names : List (Result E V)) (r : Result E (List V)) (vs stack : List V)
      → Into.push_reverse r names ≡ ok vs
      → (heads tails : List V) × (r ≡ ok tails)
        × (vs ≡ heads ++ tails)
        × (length heads ≡ length names)
        × (Into.push_names names stack ≡ (stack ++ heads, ok tt))
  unfolding Into.push_reverse Into.push_names Into.push_into_stack Into.and_push and_then
  push_names-ok [] r vs stack h = ([], vs, h, refl, refl, rw append-nil refl)
  push_names-ok (x ∷ names) r vs stack h =
      let (ws, p, q) = and_then-ok (Into.push_reverse r names) _ vs h in
      let (v, px, qx) = and_then-ok x _ vs q in
      let (heads, tails, pr, e, l, pushed) = push_names-ok names r ws (stack ++ v ∷ []) p in
      (
        v ∷ heads,
        tails,
        pr,
        cc,
        omega (arith, l),
        rw (px, pushed, append_assoc stack (v ∷ []) heads) refl,
      )

  push_names-converse :
      (names : List (Result E V)) (vs stack : List V)
      → (Into.push_names names stack).1 ≡ ok tt
      → (ws : List V) × (Into.push_reverse (ok vs) names ≡ ok ws)
  unfolding Into.push_reverse Into.push_names Into.push_into_stack Into.and_push and_then
  push_names-converse [] vs stack h = (vs, refl)
  push_names-converse (ok v ∷ names) vs stack h =
      let (ws, p) = push_names-converse names vs (stack ++ v ∷ []) h in (v ∷ ws, rw p refl)
  push_names-converse (err e ∷ names) vs stack h = cc
  push_names-converse (panics ∷ names) vs stack h = cc

  -- On a stack that can grow, a value is pushed exactly if it can be converted to a list of values,
  -- and then it is these values that are on top, in their order, and their number that is returned.
  pub push_into_stack_multi-eq :
      {m : IntoLuaMulti V E}
      → IsPushed m
      → (stack : List V)
      → ((vs : List V)
          → m.into_lua_multi ≡ ok vs
          → m.push_into_stack_multi true stack ≡ (stack ++ vs, ok (length vs)))
        × ((n : ℕ)
            → (m.push_into_stack_multi true stack).1 ≡ ok n
            → (vs : List V) × (m.into_lua_multi ≡ ok vs))
  unfolding Into.unit Into.multi_value Into.single Into.variadic Into.tuple Into.default
      Into.push_values Into.push_into_stack Into.and_push and_then
  push_into_stack_multi-eq unit stack =
      (λ vs h. let same : [] ≡ vs = cc in rw (← same, append-nil) refl, λ n h. ([], refl))
  push_into_stack_multi-eq (multi_value xs) stack = push_values-eq (ok xs) stack
  push_into_stack_multi-eq (single (ok v)) stack =
      (λ vs h. let same : v ∷ [] ≡ vs = cc in rw (← same) refl, λ n h. (v ∷ [], refl))
  push_into_stack_multi-eq (single (err e)) stack = (λ vs h. cc, λ n h. cc)
  push_into_stack_multi-eq (single panics) stack = (λ vs h. cc, λ n h. cc)
  push_into_stack_multi-eq (variadic xs) stack = push_values-eq (Into.from_lua_iter xs) stack
  push_into_stack_multi-eq (tuple names {m} t) stack = (
    λ vs h.
        let (heads, tails, pr, e, l, pushed) = push_names-ok names m.into_lua_multi vs stack h in
        let k = (push_into_stack_multi-eq t (stack ++ heads)).0 tails pr in
        rw (pushed, k) (pushed_twice stack heads tails vs (length names) e l),
    λ n h.
        let (u, p, q) = and_push-ok (Into.push_names names stack) _ n h in
        let (n', p', q') =
          and_push-ok (m.push_into_stack_multi true (Into.push_names names stack).0) _ n q in
        let (vs, e) = (push_into_stack_multi-eq t (Into.push_names names stack).0).1 n' p' in
        rw e (push_names-converse names vs stack p),
  )

  -- If one side pushes the values of a list, a tuple or a single value onto a stack that can grow,
  -- what the other side takes from the stack, with the number that was returned, is what it makes
  -- of the list of these values, whatever lies below them on the stack.
  pub push-from_stack :
      (nil : V) {A : Type 0} {f : FromLuaMulti V E A} {m : IntoLuaMulti V E}
      → Agree.IsTuple nil A f
      → IsPushed m
      → (stack vs : List V) → m.into_lua_multi ≡ ok vs
      → (n : ℕ) × ((m.push_into_stack_multi true stack).1 ≡ ok n)
        × (f.from_stack_multi n (m.push_into_stack_multi true stack).0 ≡ f.from_lua_multi vs)
  push-from_stack nil t p stack vs h =
      let k = (push_into_stack_multi-eq p stack).0 vs h in
      (length vs, ap (λ x. x.1) k, rw k (Agree.from_stack-eq nil t stack vs 0).0)
