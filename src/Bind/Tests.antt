-- ===== src/Bind/Tests.antt =====
-- A Lua whose closures have three upvalues, and a function that returns its arguments.
use mlua.Bind.Calls.{Rotates}
use mlua.Bind.{Lua}
use mlua.Base.{ℕ, zero, suc, ◌-◌, ◌≡◌, refl, ap, List, [], ◌∷◌, ◌++◌, length, length-append, arith}

abbrev from : List ℕ → ℕ → List ℕ
from xs zero = xs
from [] (suc n) = []
from (x ∷ xs) (suc n) = from xs n

abbrev front : List ℕ → ℕ → List ℕ
front xs zero = []
front [] (suc n) = []
front (x ∷ xs) (suc n) = x ∷ front xs n

abbrev lua : Lua ℕ
lua = record {
  rotate = λ xs n. from xs (length xs - n) ++ front xs (length xs - n);
  max_upvalues = 3;
  nil = 0;
}

from-append : (xs ys : List ℕ) → from (xs ++ ys) (length xs) ≡ ys
from-append [] ys = refl
from-append (x ∷ xs) ys = from-append xs ys

front-append : (xs ys : List ℕ) → front (xs ++ ys) (length xs) ≡ xs
front-append [] ys = refl
front-append (x ∷ xs) ys = ap (λ zs. x ∷ zs) (front-append xs ys)

lua-Rotates : Rotates lua
lua-Rotates xs ys = rw (rest, from-append xs ys, front-append xs ys) refl
  where
    rest : length (xs ++ ys) - length ys ≡ length xs
    rest = omega (arith, length-append xs ys)

abbrev two : List ℕ
two = 7 ∷ 8 ∷ []
