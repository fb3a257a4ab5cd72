-- ===== src/Multi/From/Agree.antt =====
-- `FromLuaMulti` of src/multi.rs on the stack and on lists, the number of values that a tuple
-- takes, and the positions of its errors.
use mlua.Base.{
  ℕ, zero, suc, ◌+◌, ◌-◌, ◌<◌, ◌≡◌, refl, List, [], ◌∷◌, ◌++◌, some, get_elem?, length,
  length-append, arith, if◌then◌else◌, ltb, ◌⊎◌, inl, inr,
}
use mathlib.Core.List.{append_assoc}
use mlua.Multi.{
  Error, Result, ok, err, panics, bad_argument, and_then, map_err, FromLua, FromLuaMulti,
}
use mlua.Multi.From

get-middle :
    {V : Type 0} (under : List V) (v : V) (vs : List V)
    → get_elem? (under ++ v ∷ vs) (length under) ≡ some v
get-middle [] v vs = refl
get-middle (u ∷ under) v vs = get-middle under v vs

one_less : {V : Type 0} (v : V) (vs : List V) → length (v ∷ vs) - 1 ≡ length vs
one_less v vs = omega arith

no_less : 0 - 1 ≡ 0
no_less = omega arith

some_left :
    {V A : Type 0} (v : V) (vs : List V) (x y : A) → (if ltb 0 (length (v ∷ vs)) then x else y) ≡ x
some_left v vs x y = ground arith

-- The first values of a list, as many as are asked for, nil standing for those that are missing.
abbrev pub adjust : {V : Type 0} → V → ℕ → List V → List V
adjust nil zero vs = []
adjust nil (suc n) [] = nil ∷ adjust nil n []
adjust nil (suc n) (v ∷ vs) = v ∷ adjust nil n vs

map_err-err :
    {E A : Type 0} (i : ℕ) (r : Result E A) (e : Error E)
    → map_err (bad_argument i) r ≡ err e
    → (c : Error E) × (e ≡ bad_argument i c)
unfolding map_err
map_err-err i (ok a) e h = cc
map_err-err i (err c) e h = (c, cc)
map_err-err i panics e h = cc

and_then-err :
    {E A B : Type 0} (r : Result E A) (f : A → Result E B) (e : Error E)
    → and_then r f ≡ err e
    → (r ≡ err e) ⊎ ((a : A) × (f a ≡ err e))
unfolding and_then
and_then-err (ok a) f e h = inr (a, h)
and_then-err (err c) f e h = inl (cc)
and_then-err panics f e h = cc

module _ {V E : Type 0} (nil : V) where
  -- What a list of values can be converted to: what the code has implementations for.
  pub data IsTuple : (A : Type 0) → FromLuaMulti V E A → Type 1 where
    unit : IsTuple (Unit {0}) (From.unit nil)
    single : {A : Type 0} (T : FromLua V E A) → IsTuple A (From.single nil T)
    multi_value : IsTuple (List V) (From.multi_value nil)
    variadic : {A : Type 0} (T : FromLua V E A) → IsTuple (List A) (From.variadic nil T)
    tuple :
        {A B : Type 0} (T : FromLua V E A) {m : FromLuaMulti V E B}
        → IsTuple B m
        → IsTuple (A × B) (From.tuple nil T m)

  stack_value-eq :
      (under : List V) (v : V) (vs : List V)
      → From.stack_value {E = E} nil (under ++ v ∷ vs) (suc (length vs)) ≡ ok v
  unfolding From.stack_value
  stack_value-eq under v vs = ground (arith, length-append under (v ∷ vs), get-middle under v vs)

  stack_values-eq :
      (under vs : List V) → From.stack_values {E = E} nil (length vs) (under ++ vs) ≡ ok vs
  unfolding From.stack_values and_then
  stack_values-eq under [] = refl
  stack_values-eq under (v ∷ vs) =
      rw
        (
          stack_value-eq under v vs,
          ← append_assoc under (v ∷ []) vs,
          stack_values-eq (under ++ v ∷ []) vs,
        )
        refl

  from_stack-at :
      {A : Type 0} (T : FromLua V E A) (under : List V) (v : V) (vs : List V)
      → From.from_stack nil T (suc (length vs)) (under ++ v ∷ vs) ≡ T.from_lua v
  unfolding From.from_stack and_then
  from_stack-at T under v vs = rw (stack_value-eq under v vs) refl

  from_stack_arg-at :
      {A : Type 0} (T : FromLua V E A) (under : List V) (v : V) (vs : List V) (i : ℕ)
      → From.from_stack_arg nil T (suc (length vs)) i (under ++ v ∷ vs)
        ≡ From.from_lua_arg nil T v i
  unfolding From.from_stack_arg From.from_lua_arg
  from_stack_arg-at T under v vs i = rw (from_stack-at T under v vs) refl

  -- On a stack that has a list of values on top, the functions on the stack give what those on the
  -- list give, for every tuple, `MultiValue`, `Variadic` and single value, errors included; none
  -- looks below the values.
  pub from_stack-eq :
      {A : Type 0} {m : FromLuaMulti V E A}
      → IsTuple A m
      → (under vs : List V) (i : ℕ)
      → (m.from_stack_multi (length vs) (under ++ vs) ≡ m.from_lua_multi vs)
        × (m.from_stack_args (length vs) i (under ++ vs) ≡ m.from_lua_args i vs)
  unfolding From.unit From.single From.multi_value From.variadic From.tuple From.default From.front
      From.rest and_then From.from_stack From.from_stack_arg From.from_lua_arg
  from_stack-eq unit under vs i = (refl, refl)
  from_stack-eq (single T) under [] i = (refl, refl)
  from_stack-eq (single T) under (v ∷ vs) i =
      ground (arith, from_stack-at T under v vs, from_stack_arg-at T under v vs i)
  from_stack-eq multi_value under vs i = rw (stack_values-eq under vs) (refl, refl)
  from_stack-eq (variadic T) under vs i = rw (stack_values-eq under vs) (refl, refl)
  from_stack-eq (tuple T t) under [] i =
      let k = from_stack-eq t under [] (i + 1) in rw (no_less, k.0, k.1) (refl, refl)
  from_stack-eq (tuple T {m} t) under (v ∷ vs) i =
      let k = from_stack-eq t (under ++ v ∷ []) vs (i + 1) in
      let e = append_assoc under (v ∷ []) vs in
      rw
        (
          one_less v vs,
          from_stack-at T under v vs,
          some_left v vs (T.from_lua v) (T.from_lua nil),
          some_left v vs _ _,
          ← e,
          k.0,
          k.1,
        )
        (refl, refl)

  -- The tuples of a fixed number of values.
  pub data IsFixed : ℕ → (A : Type 0) → FromLuaMulti V E A → Type 1 where
    unit : IsFixed 0 (Unit {0}) (From.unit nil)
    single : {A : Type 0} (T : FromLua V E A) → IsFixed 1 A (From.single nil T)
    tuple :
        {n : ℕ} {A B : Type 0} (T : FromLua V E A) {m : FromLuaMulti V E B}
        → IsFixed n B m
        → IsFixed (suc n) (A × B) (From.tuple nil T m)

  -- A tuple of a fixed number of values sees exactly so many: values that are missing are nil, and
  -- excess ones are ignored.
  pub from_lua_multi-adjust :
      {n : ℕ} {A : Type 0} {m : FromLuaMulti V E A}
      → IsFixed n A m
      → (vs : List V) (i : ℕ)
      → (m.from_lua_multi (adjust nil n vs) ≡ m.from_lua_multi vs)
        × (m.from_lua_args i (adjust nil n vs) ≡ m.from_lua_args i vs)
  unfolding From.unit From.single From.tuple From.default From.front From.rest and_then
  from_lua_multi-adjust unit vs i = (refl, refl)
  from_lua_multi-adjust (single T) [] i = (refl, refl)
  from_lua_multi-adjust (single T) (v ∷ vs) i = (refl, refl)
  from_lua_multi-adjust (tuple T t) [] i =
      let k = from_lua_multi-adjust t [] (i + 1) in rw (k.0, k.1) (refl, refl)
  from_lua_multi-adjust (tuple T t) (v ∷ vs) i =
      let k = from_lua_multi-adjust t vs (i + 1) in rw (k.0, k.1) (refl, refl)

  -- An error of a tuple of `n` arguments, the first of them at position `i`, is that of one
  -- argument's conversion under this argument's position, which is below `i + n`.
  pub from_lua_args-position :
      {n : ℕ} {A : Type 0} {m : FromLuaMulti V E A}
      → IsFixed n A m
      → (vs : List V) (i : ℕ) (e : Error E) → m.from_lua_args i vs ≡ err e
      → (k : ℕ) × (c : Error E) × (k < n) × (e ≡ bad_argument (i + k) c)
  unfolding From.unit From.single From.tuple From.default From.from_lua_arg map_err and_then
  from_lua_args-position unit vs i e h = cc
  from_lua_args-position (single T) vs i e h =
      let (c, q) = map_err-err i (T.from_lua (From.front nil vs)) e h in
      (0, c, omega arith, ground (arith, q))
  from_lua_args-position (tuple T {m} t) vs i e h =
      elim (and_then-err (From.from_lua_arg nil T (From.front nil vs) i) _ e h) [
        | inl x ↦
            let (c, q) = map_err-err i (T.from_lua (From.front nil vs)) e x in
            (0, c, omega arith, ground (arith, q))
        | inr (a, y) ↦ elim (and_then-err (m.from_lua_args (i + 1) (From.rest vs)) _ e y) [
          | inl z ↦
              let (k, c, b, q) = from_lua_args-position t (From.rest vs) (i + 1) e z in
              (suc k, c, omega arith, ground (arith, q))
          | inr (b, w) ↦ cc
        ]
      ]
