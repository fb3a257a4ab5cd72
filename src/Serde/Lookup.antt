-- ===== src/Serde/Lookup.antt =====
-- Tables that are filled in the order of their indices, or with texts for keys, by src/serde/ser.rs.
use Prim.Native.String.{String}
use text.Mathlib.TextEquality.{eq_iff}
use mlua.Base.{
  ℕ, zero, suc, ◌+◌, ◌≤◌, ◌<◌, ◌≡◌, refl, false, List, [], ◌∷◌, ◌++◌, length, arith, All, ◌≢◌,
}
use mlua.Base.Integer.{pos}
use mlua.Serde.{
  Value, nil, integer, string, is_nil, raw_get, raw_set_entries, values_from, sequence_values,
  raw_len, with_entry,
}

abbrev pub NotNil : Value → Type 0
NotNil v = is_nil v ≡ false

abbrev pub numbered : ℕ → List Value → List (Value × Value)
numbered i [] = []
numbered i (v ∷ vs) = (integer (pos i), v) ∷ numbered (suc i) vs

abbrev pub named : List (String × Value) → List (Value × Value)
named [] = []
named ((s, v) ∷ es) = (string s, v) ∷ named es

abbrev pub Absent : String → List (String × Value) → Type 0
Absent s [] = Unit
Absent s ((k, v) ∷ es) = (k ≢ s) × Absent s es

abbrev nth : List Value → ℕ → Value
nth [] j = nil
nth (v ∷ vs) zero = v
nth (v ∷ vs) (suc j) = nth vs j

raw_get-before :
    (i k : ℕ) (vs : List Value) → k < i → raw_get (numbered i vs) (integer (pos k)) ≡ nil
unfolding raw_get
raw_get-before i k [] h = refl
raw_get-before i k (v ∷ vs) h = ground (arith, raw_get-before (suc i) k vs)

raw_get-numbered :
    (i j k : ℕ) (vs : List Value) → i + j ≡ k → raw_get (numbered i vs) (integer (pos k)) ≡ nth vs j
unfolding raw_get
raw_get-numbered i j k [] e = refl
raw_get-numbered i zero k (v ∷ vs) e = ground arith
raw_get-numbered i (suc j) k (v ∷ vs) e = ground (arith, raw_get-numbered (suc i) j k vs)

values_from-nth :
    (fuel : ℕ) (es : List (Value × Value)) (i : ℕ) (vs : List Value)
    → ((j k : ℕ) → i + j ≡ k → raw_get es (integer (pos k)) ≡ nth vs j)
    → All NotNil vs
    → length vs ≤ fuel
    → values_from fuel es i ≡ vs
unfolding values_from
values_from-nth zero es i [] g h l = refl
values_from-nth zero es i (v ∷ vs) g h l = absurd (omega arith)
values_from-nth (suc fuel) es i [] g h l = ground (arith, g 0 i)
values_from-nth (suc fuel) es i (v ∷ vs) g h l =
    ground (
      arith,
      g 0 i,
      h.0,
      values_from-nth fuel es (suc i) vs (λ j k e. g (suc j) k (omega arith)) h.1,
    )

length-numbered : (i : ℕ) (vs : List Value) → length (numbered i vs) ≡ length vs
length-numbered i [] = refl
length-numbered i (v ∷ vs) = omega (arith, length-numbered (suc i) vs)

pub sequence_values-numbered :
    (vs : List Value) → All NotNil vs → sequence_values (numbered 1 vs) ≡ vs
unfolding sequence_values
sequence_values-numbered vs h =
    values_from-nth (length (numbered 1 vs)) (numbered 1 vs) 1 vs
      (λ j k e. raw_get-numbered 1 j k vs e) h (omega (arith, length-numbered 1 vs))

pub raw_set-numbered :
    (i k : ℕ) (vs : List Value) (v : Value)
    → k ≡ i + length vs
    → NotNil v
    → raw_set_entries (numbered i vs) (integer (pos k)) v ≡ numbered i (vs ++ v ∷ [])
unfolding raw_set_entries
raw_set-numbered i k vs v e n = rw n (placed i vs e)
  where
    placed :
        (i : ℕ) (vs : List Value)
        → k ≡ i + length vs
        → with_entry (numbered i vs) (integer (pos k)) v ≡ numbered i (vs ++ v ∷ [])
    placed i [] e = ground arith
    placed i (x ∷ xs) e = ground (arith, placed (suc i) xs)

pub raw_set-named :
    (es : List (String × Value)) (s : String) (v : Value)
    → Absent s es
    → NotNil v
    → raw_set_entries (named es) (string s) v ≡ named (es ++ (s, v) ∷ [])
unfolding raw_set_entries
raw_set-named es s v a n = rw n (placed es a)
  where
    placed :
        (es : List (String × Value))
        → Absent s es
        → with_entry (named es) (string s) v ≡ named (es ++ (s, v) ∷ [])
    placed [] a = refl
    placed ((k, x) ∷ xs) a = ground (arith, eq_iff k s, a.0, placed xs a.1)

raw_get-named : (es : List (String × Value)) (k : ℕ) → raw_get (named es) (integer (pos k)) ≡ nil
unfolding raw_get
raw_get-named [] k = refl
raw_get-named ((s, v) ∷ es) k = raw_get-named es k

pub raw_len-named : (es : List (String × Value)) → raw_len (named es) ≡ 0
unfolding raw_len
raw_len-named es = none_from (length (named es)) 1
  where
    none_from : (fuel i : ℕ) → length (values_from fuel (named es) i) ≡ 0
    none_from zero i = refl
    none_from (suc fuel) i = ground (arith, raw_get-named es i)
