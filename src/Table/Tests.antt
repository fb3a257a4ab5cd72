-- ===== src/Table/Tests.antt =====
-- Tables as lists of optional values from index 0 on, and the theorems over them.
use mlua.Base.{
  ℕ, zero, suc, ◌≡◌, ◌≢◌, refl, List, [], ◌∷◌, Option, none, some, ◌==◌, if◌then◌else◌, arith,
}
use mlua.Base.Integer.{pos}
use mlua.Table.Api.{TableApi}
use mlua.Table.Raw.{ok, err, index_out_of_bounds, readonly_table}
use mlua.Table.Raw
use mlua.Table.Sequence

-- Reading and writing grow the list as needed.
abbrev get : List (Option ℕ) → ℕ → Option ℕ
get [] i = none
get (x ∷ t) zero = x
get (x ∷ t) (suc i) = get t i

abbrev set : List (Option ℕ) → ℕ → Option ℕ → List (Option ℕ)
set [] zero v = v ∷ []
set [] (suc i) v = none ∷ set [] i v
set (x ∷ t) zero v = v ∷ t
set (x ∷ t) (suc i) v = x ∷ set t i v

-- The number of values from the head on.
abbrev leading : List (Option ℕ) → ℕ
leading [] = 0
leading (none ∷ t) = 0
leading (some v ∷ t) = suc (leading t)

abbrev border : List (Option ℕ) → ℕ
border [] = 0
border (x ∷ t) = leading t

get_set_lem :
    (t : List (Option ℕ)) (i : ℕ) (v : Option ℕ) (j : ℕ)
    → get (set t i v) j ≡ (if i == j then v else get t j)
get_set_lem [] zero v zero = ground arith
get_set_lem [] zero v (suc j) = ground arith
get_set_lem [] (suc i) v zero = ground arith
get_set_lem [] (suc i) v (suc j) = ground (arith, get_set_lem [] i v j)
get_set_lem (x ∷ t) zero v zero = ground arith
get_set_lem (x ∷ t) zero v (suc j) = ground arith
get_set_lem (x ∷ t) (suc i) v zero = ground arith
get_set_lem (x ∷ t) (suc i) v (suc j) = ground (arith, get_set_lem t i v j)

leading_end : (t : List (Option ℕ)) → get t (leading t) ≡ none
leading_end [] = refl
leading_end (none ∷ t) = refl
leading_end (some v ∷ t) = leading_end t

leading_start : (t : List (Option ℕ)) (n : ℕ) → leading t ≡ suc n → get t n ≢ none
leading_start [] n e h = absurd (omega arith)
leading_start (none ∷ t) n e h = absurd (omega arith)
leading_start (some v ∷ t) zero e h = cc
leading_start (some v ∷ t) (suc n) e h = leading_start t n (omega arith) h

border_end_lem : (t : List (Option ℕ)) → get t (suc (border t)) ≡ none
border_end_lem [] = refl
border_end_lem (x ∷ t) = leading_end t

border_start_lem : (t : List (Option ℕ)) (n : ℕ) → border t ≡ suc n → get t (suc n) ≢ none
border_start_lem [] n e h = absurd (omega arith)
border_start_lem (x ∷ t) n e h = leading_start t n e h

abbrev api : TableApi ℕ
api = record {
  Table = List (Option ℕ);
  rawgeti = get;
  rawseti = set;
  rawlen = border;
  get_set = get_set_lem;
  border_end = border_end_lem;
  border_start = border_start_lem;
}

abbrev three : List (Option ℕ)
three = none ∷ some 5 ∷ some 6 ∷ some 7 ∷ []

three-IsSequence : Sequence.IsSequence api three (5 ∷ 6 ∷ 7 ∷ [])
three-IsSequence zero = refl
three-IsSequence (suc zero) = refl
three-IsSequence (suc (suc zero)) = refl
three-IsSequence (suc (suc (suc i))) = refl

empty-IsSequence : Sequence.IsSequence api [] []
empty-IsSequence i = refl

raw_insert-IsSequence_example :
    (t : List (Option ℕ)) × (Raw.raw_insert api three (pos 2) (some 9) ≡ ok t)
    × Sequence.IsSequence api t (5 ∷ 9 ∷ 6 ∷ 7 ∷ [])
raw_insert-IsSequence_example =
    Sequence.raw_insert-IsSequence api three (5 ∷ 6 ∷ 7 ∷ []) 1 9 three-IsSequence (omega arith)

raw_remove-IsSequence_example :
    (t : List (Option ℕ)) × (Raw.raw_remove api three (pos 2) ≡ ok t)
    × Sequence.IsSequence api t (5 ∷ 7 ∷ [])
raw_remove-IsSequence_example =
    Sequence.raw_remove-IsSequence api three (5 ∷ 6 ∷ 7 ∷ []) 1 three-IsSequence (omega arith)
