-- ===== src/Meta/Names.antt =====
-- The names of metamethods, src/userdata.rs.
use Prim.Native.String.{String}
use text.Mathlib.Text.{◌==◌}
use mlua.Base.{◌≡◌, refl, sym, ap, ◌∙◌, Bool, true, false, if◌then◌else◌, List, [], ◌∷◌}
use mlua.Meta.{
  MetaMethod, name, type_, validate, ok, add, sub, mul, div, mod_, pow, unm, idiv, band, bor, bxor,
  bnot, shl, shr, concat, len, eq, lt, le, index, new_index, call, to_string, pairs, ipairs, iter,
  close,
}

named : List (String × MetaMethod) → String → MetaMethod
named [] k = type_
named ((j, m) ∷ l) k = if j == k then m else named l k

abbrev names : List (String × MetaMethod)
names =
    ("__add", add)
    ∷ ("__sub", sub)
    ∷ ("__mul", mul)
    ∷ ("__div", div)
    ∷ ("__mod", mod_)
    ∷ ("__pow", pow)
    ∷ ("__unm", unm)
    ∷ ("__idiv", idiv)
    ∷ ("__band", band)
    ∷ ("__bor", bor)
    ∷ ("__bxor", bxor)
    ∷ ("__bnot", bnot)
    ∷ ("__shl", shl)
    ∷ ("__shr", shr)
    ∷ ("__concat", concat)
    ∷ ("__len", len)
    ∷ ("__eq", eq)
    ∷ ("__lt", lt)
    ∷ ("__le", le)
    ∷ ("__index", index)
    ∷ ("__newindex", new_index)
    ∷ ("__call", call)
    ∷ ("__tostring", to_string)
    ∷ ("__pairs", pairs)
    ∷ ("__ipairs", ipairs)
    ∷ ("__iter", iter)
    ∷ ("__close", close)
    ∷ []

named-name : (luau : Bool) (m : MetaMethod) → named names (name luau m) ≡ m
unfolding named name
named-name luau add = refl
named-name luau sub = refl
named-name luau mul = refl
named-name luau div = refl
named-name luau mod_ = refl
named-name luau pow = refl
named-name luau unm = refl
named-name luau idiv = refl
named-name luau band = refl
named-name luau bor = refl
named-name luau bxor = refl
named-name luau bnot = refl
named-name luau shl = refl
named-name luau shr = refl
named-name luau concat = refl
named-name luau len = refl
named-name luau eq = refl
named-name luau lt = refl
named-name luau le = refl
named-name luau index = refl
named-name luau new_index = refl
named-name luau call = refl
named-name luau to_string = refl
named-name luau pairs = refl
named-name luau ipairs = refl
named-name luau iter = refl
named-name luau close = refl
named-name true type_ = refl
named-name false type_ = refl

validate-name : (luau : Bool) (m : MetaMethod) → validate (name luau m) ≡ ok (name luau m)
unfolding validate name
validate-name luau add = refl
validate-name luau sub = refl
validate-name luau mul = refl
validate-name luau div = refl
validate-name luau mod_ = refl
validate-name luau pow = refl
validate-name luau unm = refl
validate-name luau idiv = refl
validate-name luau band = refl
validate-name luau bor = refl
validate-name luau bxor = refl
validate-name luau bnot = refl
validate-name luau shl = refl
validate-name luau shr = refl
validate-name luau concat = refl
validate-name luau len = refl
validate-name luau eq = refl
validate-name luau lt = refl
validate-name luau le = refl
validate-name luau index = refl
validate-name luau new_index = refl
validate-name luau call = refl
validate-name luau to_string = refl
validate-name luau pairs = refl
validate-name luau ipairs = refl
validate-name luau iter = refl
validate-name luau close = refl
validate-name true type_ = refl
validate-name false type_ = refl

-- Whatever the build, no two metamethods have one name, and each may be registered.
pub name-injective :
    (luau : Bool) (a b : MetaMethod)
    → (name luau a ≡ name luau b → a ≡ b) × (validate (name luau a) ≡ ok (name luau a))
name-injective luau a b =
    (λ e. sym (named-name luau a) ∙ ap (named names) e ∙ named-name luau b, validate-name luau a)
