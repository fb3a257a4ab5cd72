-- ===== src/Hook/Mask.antt =====
-- `mask`, `count` and `bitor` of src/hook.rs.
use mlua.Base.{
  ◌≡◌, ℕ, Bool, ◌==◌, ◌/◌, ◌%◌, ◌<◌, ◌||◌, arith, Option, false, none, some, refl, true, ◌^◌, ◌↔◌,
  if◌then◌else◌,
}
use mlua.Base.Integer.{pos}
use mlua.Hook

-- Whether a mask has a bit.
abbrev pub has : ℕ → ℕ → Bool
has m bit = m / bit % 2 == 1

-- The events a hook is called for.
abbrev pub Events : ℕ → Bool → Bool → Bool → Bool → Type 0
Events m c r l n = (has m 1 ≡ c) × (has m 2 ≡ r) × (has m 4 ≡ l) × (has m 8 ≡ n) × (m < 16)

set-Events :
    (c r l n : Bool) → Events (Hook.set n 8 (Hook.set l 4 (Hook.set r 2 (Hook.set c 1 0)))) c r l n
unfolding Hook.set
set-Events c r l n = ground arith

-- The mask has the bit of each event that is asked for and no other bit.
pub mask-Events :
    (t : Hook.HookTriggers)
    → Events
        (Hook.mask t)
        t.on_calls
        t.on_returns
        t.every_line
        (Hook.is_some t.every_nth_instruction)
unfolding Hook.mask
mask-Events t = set-Events t.on_calls t.on_returns t.every_line _

-- The mask of the union of two sets of triggers has the bit of each event that the mask of one of
-- the two has, and no other bit.
pub mask-bitor :
    (a b : Hook.HookTriggers)
    → Events
        (Hook.mask (Hook.bitor a b))
        (has (Hook.mask a) 1 || has (Hook.mask b) 1)
        (has (Hook.mask a) 2 || has (Hook.mask b) 2)
        (has (Hook.mask a) 4 || has (Hook.mask b) 4)
        (has (Hook.mask a) 8 || has (Hook.mask b) 8)
unfolding Hook.bitor Hook.first Hook.is_some
mask-bitor a b = ground (arith, mask-Events a, mask-Events b, mask-Events (Hook.bitor a b))

first_assoc :
    (x y z : Option ℕ)
    → (Hook.first (Hook.first x y) z ≡ Hook.first x (Hook.first y z))
      × (Hook.first x none ≡ x)
      × (Hook.first x x ≡ x)
unfolding Hook.first
first_assoc none y z = (refl, refl, refl)
first_assoc (some n) y z = (refl, refl, refl)

or_assoc :
    (x y z : Bool) → (((x || y) || z) ≡ (x || (y || z))) × ((x || false) ≡ x) × ((x || x) ≡ x)
or_assoc true y z = (refl, refl, refl)
or_assoc false y z = (refl, refl, refl)

same :
    {a b : Hook.HookTriggers}
    → a.on_calls ≡ b.on_calls
    → a.on_returns ≡ b.on_returns
    → a.every_line ≡ b.every_line
    → a.every_nth_instruction ≡ b.every_nth_instruction
    → a ≡ b
same c r l n =
    λ i. record { on_calls = c i; on_returns = r i; every_line = l i; every_nth_instruction = n i }

-- Of two counts the left one is kept; unions are associative, the
-- empty set is the unit on both sides, and a union of a set with itself is that set.
pub bitor-monoid :
    (a b c : Hook.HookTriggers)
    → (Hook.bitor (Hook.bitor a b) c ≡ Hook.bitor a (Hook.bitor b c))
      × (Hook.bitor Hook.new a ≡ a)
      × (Hook.bitor a Hook.new ≡ a)
      × (Hook.bitor a a ≡ a)
unfolding Hook.bitor Hook.first Hook.new
bitor-monoid a b c =
    let x = or_assoc a.on_calls b.on_calls c.on_calls in
    let y = or_assoc a.on_returns b.on_returns c.on_returns in
    let z = or_assoc a.every_line b.every_line c.every_line in
    let w = first_assoc a.every_nth_instruction b.every_nth_instruction c.every_nth_instruction in
    (same x.0 y.0 z.0 w.0, refl, same x.1 y.1 z.1 w.1, same x.2 y.2 z.2 w.2)

-- The count of a union is that of the left set if it has one and else that of the right, and a count
-- reaches Lua as it is exactly if it is below 2 ^ 31: from there on `c_int` has it negative.
pub count-bitor :
    (a b : Hook.HookTriggers) (n : ℕ)
    → n < 2 ^ 32
    → (Hook.count (Hook.bitor a b)
        ≡ (if Hook.is_some a.every_nth_instruction then Hook.count a else Hook.count b))
      × (Hook.count (Hook.every_nth_instruction n a) ≡ pos n ↔ n < 2 ^ 31)
unfolding Hook.count Hook.bitor Hook.first Hook.is_some Hook.every_nth_instruction Hook.as_c_int
count-bitor a b n h = ground arith
