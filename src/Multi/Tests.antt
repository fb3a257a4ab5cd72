-- ===== src/Multi/Tests.antt =====
-- Values that are numbers, 0 being nil, which is no number for a conversion.
use mlua.Base.{ℕ, ◌≡◌, refl, List, [], ◌∷◌, ◌==◌, if◌then◌else◌, true}
use mlua.Multi.{ok, err, conversion, FromLua, FromLuaMulti, IntoLuaMulti}
use mlua.Multi.From
use mlua.Multi.From.Agree
use mlua.Multi.Into
use mlua.Multi.Call

abbrev number : FromLua ℕ ℕ ℕ
number = record { from_lua = λ v. if v == 0 then err (conversion v) else ok v }

-- `(A, B)` and `(A, Variadic<B>)`
abbrev pair : FromLuaMulti ℕ ℕ (ℕ × ℕ)
unfolding From.tuple From.single
pair = From.tuple 0 number (From.single 0 number)

abbrev some_more : FromLuaMulti ℕ ℕ (ℕ × List ℕ)
unfolding From.tuple From.variadic
some_more = From.tuple 0 number (From.variadic 0 number)

-- A pair of values.
abbrev values : IntoLuaMulti ℕ ℕ
unfolding Into.tuple Into.single
values = Into.tuple (ok 4 ∷ []) (Into.single (ok 5))

values-IsPushed : Call.IsPushed values
unfolding values
values-IsPushed = Call.tuple (ok 4 ∷ []) (Call.single (ok 5))

push-from_stack_example :
    (n : ℕ) × ((values.push_into_stack_multi true (1 ∷ [])).1 ≡ ok n)
    × (pair.from_stack_multi n (values.push_into_stack_multi true (1 ∷ [])).0
        ≡ pair.from_lua_multi (4 ∷ 5 ∷ []))
unfolding pair values Into.tuple Into.single
push-from_stack_example =
    Call.push-from_stack 0 (Agree.IsTuple.tuple number (Agree.IsTuple.single number))
      values-IsPushed (1 ∷ []) (4 ∷ 5 ∷ []) refl
