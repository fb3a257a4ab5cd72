-- ===== src/Values/Order.antt =====
-- The order of values and their equality, src/value.rs.
use Prim.Native.Nat.{compare, Ordering}
use mlua.Base.{ℕ, ◌≡◌, refl, Bool, true, false, List, [], ◌∷◌, arith}
use mlua.Base.Integer.{ℤ, pos, negsuc}
use mlua.Values.{
  Value, Floats, nil, boolean, light_userdata, integer, number, string, sort_cmp, after_null, eq,
  cmp_bool, cmp_bytes, cmp_integer, cmp_num, then_with, eq_bool, is_eq,
}

-- `Ordering::reverse`
abbrev pub reverse : Ordering → Ordering
reverse Ordering.lt = Ordering.gt
reverse Ordering.eq = Ordering.eq
reverse Ordering.gt = Ordering.lt

compare-reverse : (a b : ℕ) → compare b a ≡ reverse (compare a b)
compare-reverse a b = ground arith

cmp_bool-reverse : (a b : Bool) → cmp_bool b a ≡ reverse (cmp_bool a b)
unfolding cmp_bool
cmp_bool-reverse true true = refl
cmp_bool-reverse true false = refl
cmp_bool-reverse false true = refl
cmp_bool-reverse false false = refl

cmp_integer-reverse : (a b : ℤ) → cmp_integer b a ≡ reverse (cmp_integer a b)
unfolding cmp_integer
cmp_integer-reverse (pos a) (pos b) = compare-reverse a b
cmp_integer-reverse (negsuc a) (negsuc b) = compare-reverse b a
cmp_integer-reverse (pos a) (negsuc b) = refl
cmp_integer-reverse (negsuc a) (pos b) = refl

then_with-reverse :
    (o p q : Ordering) (r : Ordering)
    → o ≡ reverse p
    → q ≡ reverse r
    → then_with o q ≡ reverse (then_with p r)
unfolding then_with
then_with-reverse o Ordering.lt q r e f = rw (e, then_with) refl
then_with-reverse o Ordering.gt q r e f = rw (e, then_with) refl
then_with-reverse o Ordering.eq q r e f = rw (e, then_with) f

cmp_bytes-reverse : (a b : List ℕ) → cmp_bytes b a ≡ reverse (cmp_bytes a b)
unfolding cmp_bytes
cmp_bytes-reverse [] [] = refl
cmp_bytes-reverse [] (y ∷ ys) = refl
cmp_bytes-reverse (x ∷ xs) [] = refl
cmp_bytes-reverse (x ∷ xs) (y ∷ ys) =
    then_with-reverse (compare y x) (compare x y) (cmp_bytes ys xs) (cmp_bytes xs ys)
      (compare-reverse x y) (cmp_bytes-reverse xs ys)

module _ {F : Type 0} (floats : Floats F) where
  -- No float is below one that is below it.
  abbrev pub IsAsymmetric : Type 0
  IsAsymmetric = (a b : F) → floats.lt a b ≡ true → floats.lt b a ≡ false

  cmp_num-reverse : (a b : F) → IsAsymmetric → cmp_num floats b a ≡ reverse (cmp_num floats a b)
  unfolding cmp_num
  cmp_num-reverse a b h = ground (arith, h a b, h b a)

  after_null-reverse :
      (h : IsAsymmetric) (a b : Value F) → after_null floats b a ≡ reverse (after_null floats a b)
  unfolding after_null
  after_null-reverse h (boolean a) (boolean b) = cmp_bool-reverse a b
  after_null-reverse h (integer a) (integer b) = cmp_integer-reverse a b
  after_null-reverse h (integer a) (number b) = cmp_num-reverse (floats.of_integer a) b h
  after_null-reverse h (number a) (integer b) = cmp_num-reverse a (floats.of_integer b) h
  after_null-reverse h (number a) (number b) = cmp_num-reverse a b h
  after_null-reverse h (string a p) (string b q) = cmp_bytes-reverse a b
  after_null-reverse h a b = ground arith

  -- Exchanging two values reverses their order, so that sorting in the opposite direction is sorting by the
  -- exchanged arguments: for all values, and any floats of which no two are each below the other.
  pub sort_cmp-reverse :
      (h : IsAsymmetric) (a b : Value F) → sort_cmp floats b a ≡ reverse (sort_cmp floats a b)
  unfolding sort_cmp
  sort_cmp-reverse h nil nil = refl
  sort_cmp-reverse h (light_userdata a) (light_userdata b) =
      ground (arith, after_null-reverse h (light_userdata a) (light_userdata b))
  sort_cmp-reverse h a b = ground (arith, after_null-reverse h a b)

  -- Equal floats are not ordered.
  abbrev pub IsIncomparable : Type 0
  IsIncomparable =
      (a b : F) → floats.eq a b ≡ true → (floats.lt a b ≡ false) × (floats.lt b a ≡ false)

  is_eq-lem : (o : Ordering) → is_eq o ≡ true → o ≡ Ordering.eq
  unfolding is_eq
  is_eq-lem Ordering.lt h = cc
  is_eq-lem Ordering.gt h = cc
  is_eq-lem Ordering.eq h = refl

  eq_bool-lem : (a b : Bool) → eq_bool a b ≡ true → cmp_bool a b ≡ Ordering.eq
  unfolding eq_bool cmp_bool
  eq_bool-lem true true h = refl
  eq_bool-lem true false h = cc
  eq_bool-lem false true h = cc
  eq_bool-lem false false h = refl

  cmp_num-eq : (a b : F) → IsIncomparable → floats.eq a b ≡ true → cmp_num floats a b ≡ Ordering.eq
  unfolding cmp_num
  cmp_num-eq a b h e = ground (arith, h a b e)

  -- Values that are equal are sorted as equal.
  pub eq-sort_cmp :
      (h : IsIncomparable) (a b : Value F)
      → eq floats a b ≡ true
      → sort_cmp floats a b ≡ Ordering.eq
  unfolding eq sort_cmp
  eq-sort_cmp h nil nil e = refl
  eq-sort_cmp h (boolean a) (boolean b) e = eq_bool-lem a b e
  eq-sort_cmp h (light_userdata a) (light_userdata b) e = ground arith
  eq-sort_cmp h (integer a) (integer b) e = is_eq-lem (cmp_integer a b) e
  eq-sort_cmp h (integer a) (number b) e = cmp_num-eq (floats.of_integer a) b h e
  eq-sort_cmp h (number a) (integer b) e = cmp_num-eq a (floats.of_integer b) h e
  eq-sort_cmp h (number a) (number b) e = cmp_num-eq a b h e
  eq-sort_cmp h (string a p) (string b q) e = is_eq-lem (cmp_bytes a b) e
  eq-sort_cmp h a b e = ground arith

  -- Integers that have one float sort as equal to that float, though not as equal to each other: the order is
  -- none by which values can be sorted, which `sort_by` may answer with a panic.
  pub sort_cmp-intransitive :
      (i j : ℤ) (x : F)
      → cmp_integer i j ≡ Ordering.lt
      → floats.of_integer i ≡ x
      → floats.of_integer j ≡ x
      → floats.lt x x ≡ false
      → (sort_cmp floats (integer j) (number x) ≡ Ordering.eq)
        × (sort_cmp floats (number x) (integer i) ≡ Ordering.eq)
        × (sort_cmp floats (integer j) (integer i) ≡ Ordering.gt)
  unfolding sort_cmp cmp_num
  sort_cmp-intransitive i j x h p q n =
      (ground arith, ground arith, ground (arith, cmp_integer-reverse i j))
