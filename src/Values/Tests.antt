-- ===== src/Values/Tests.antt =====
-- Floats that are natural numbers, to which every integer below the hundredth is cast as it is and any other as
-- 100.
use Prim.Native.Nat.{Ordering}
use text.Mathlib.Text.{◌==◌ as ◌=text=◌}
use mlua.Base.{ℕ, ◌≡◌, refl, arith, true, some, ltb, ◌==◌, if◌then◌else◌, none}
use mlua.Base.Integer.{pos, negsuc}
use mlua.Values.{
  Floats, Value, integer, number, sort_cmp, eq, as_i32, type_name, is_nil, is_null, is_boolean,
  is_light_userdata, is_integer, is_number, is_string, is_table, is_function, is_thread,
  is_userdata, is_error, cmp_integer,
}
use mlua.Values.Order.{sort_cmp-reverse, sort_cmp-intransitive, reverse}
use mlua.Values.Kinds.{is-type_name}

abbrev floats : Floats ℕ
floats = record {
  lt = ltb;
  eq = ◌==◌;
  of_integer = λ i. elim i [ pos n ↦ if ltb n 100 then n else 100 | negsuc n ↦ 0 ];
}

sort_cmp-reverse_example :
    sort_cmp floats (number 7) (integer (pos 3))
    ≡ reverse (sort_cmp floats (integer (pos 3)) (number 7))
sort_cmp-reverse_example =
    sort_cmp-reverse floats (λ a b h. ground arith) (integer (pos 3)) (number 7)

three_is_three : eq floats (integer (pos 3)) (number 3) ≡ true
unfolding eq
three_is_three = refl

below : cmp_integer (pos 200) (pos 300) ≡ Ordering.lt
unfolding cmp_integer
below = refl

-- The smallest value of 32 bits, and one below it.
fits : as_i32 {F = ℕ} (integer (negsuc 2147483647)) ≡ some (negsuc 2147483647)
unfolding as_i32
fits = refl

does_not_fit : as_i32 {F = ℕ} (integer (negsuc 2147483648)) ≡ none
unfolding as_i32
does_not_fit = refl

sort_cmp-intransitive_example :
    (sort_cmp floats (integer (pos 300)) (number 100) ≡ Ordering.eq)
    × (sort_cmp floats (number 100) (integer (pos 200)) ≡ Ordering.eq)
    × (sort_cmp floats (integer (pos 300)) (integer (pos 200)) ≡ Ordering.gt)
sort_cmp-intransitive_example =
    sort_cmp-intransitive floats (pos 200) (pos 300) 100 below refl refl refl

abbrev five : Value ℕ
five = integer (pos 5)

is-type_name_example :
    (is_nil floats five ≡ (type_name five =text= "nil"))
    × (is_boolean five ≡ (type_name five =text= "boolean"))
    × (is_light_userdata five ≡ (type_name five =text= "lightuserdata"))
    × (is_integer five ≡ (type_name five =text= "integer"))
    × (is_number five ≡ (type_name five =text= "number"))
    × (is_string five ≡ (type_name five =text= "string"))
    × (is_table five ≡ (type_name five =text= "table"))
    × (is_function five ≡ (type_name five =text= "function"))
    × (is_thread five ≡ (type_name five =text= "thread"))
    × (is_userdata five ≡ (type_name five =text= "userdata"))
    × (is_error five ≡ (type_name five =text= "error"))
    × (is_null floats five ≡ true → type_name five ≡ "lightuserdata")
is-type_name_example = is-type_name floats five
