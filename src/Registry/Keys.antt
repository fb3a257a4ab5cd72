-- ===== src/Registry/Keys.antt =====
-- The slots of keys and of the list of released slots, for src/types/registry_key.rs.
use mlua.Base.{
  ℕ, zero, suc, ◌+◌, ◌≤◌, ◌<◌, ◌≡◌, ◌≢◌, true, Option, none, some, List, [], ◌∷◌, if◌then◌else◌,
  get_elem?, arith, refl, subst, ◌∙◌,
}
use mlua.Registry.Api.{RegistryApi}
use mlua.Registry.Ops.{RegistryId, ref_nil, slot}
use mlua.Registry.Ops
use mlua.Registry.World.{remove, set, is_slot}
use mlua.Registry.World

module _ {V : Type 0} (A : RegistryApi V) where
  open A use {Table, lual_ref, lual_unref, rawseti, rawgeti, in_use}

  abbrev pub Entries : Type 0
  Entries = List (World.Entry A)

  abbrev pub one : RegistryId → ℕ → ℕ
  one x i = if World.is_slot A x i then 1 else 0

  -- `r` says how often each slot has been released.
  pub record Kept (t : Table) (es : Entries) (r : ℕ → ℕ) : Type 0 where
    pub unique : (i : ℕ) → World.holders A es i + r i ≤ 1
    pub used : (i : ℕ) → 0 < World.holders A es i + r i → in_use t i ≡ true
    pub stored : World.AllHold A t es

  Holds-other :
      (t t' : Table) (x : RegistryId) (v : Option V)
      → ((i : ℕ) → 0 < one x i → rawgeti t' i ≡ rawgeti t i)
      → World.Holds A t x v
      → World.Holds A t' x v
  Holds-other t t' ref_nil v same h = h
  Holds-other t t' (slot i) v same h = same i (ground arith) ∙ h

  AllHold-others :
      (t t' : Table) (es : Entries)
      → ((i : ℕ) → 0 < World.holders A es i → rawgeti t' i ≡ rawgeti t i)
      → World.AllHold A t es
      → World.AllHold A t' es
  AllHold-others t t' [] same h = tt
  AllHold-others t t' (x ∷ es) same h = (
    Holds-other t t' x.id x.value (λ i p. same i (omega arith)) h.0,
    AllHold-others t t' es (λ i p. same i (omega arith)) h.1,
  )

  AllHold-remove :
      (t : Table) (es : Entries) (n : ℕ) → World.AllHold A t es → World.AllHold A t (remove es n)
  AllHold-remove t [] n h = tt
  AllHold-remove t (x ∷ es) zero h = h.1
  AllHold-remove t (x ∷ es) (suc n) h = (h.0, AllHold-remove t es n h.1)

  AllHold-set :
      (t : Table) (es : Entries) (n : ℕ) (y : World.Entry A)
      → World.Holds A t y.id y.value
      → World.AllHold A t (remove es n)
      → World.AllHold A t (set es n y)
  AllHold-set t [] n y k h = tt
  AllHold-set t (x ∷ es) zero y k h = (k, h)
  AllHold-set t (x ∷ es) (suc n) y k h = (h.0, AllHold-set t es n y k h.1)

  pub AllHold-get :
      (t : Table) (es : Entries) (n : ℕ) (x : World.Entry A)
      → get_elem? es n ≡ some x
      → World.AllHold A t es
      → World.Holds A t x.id x.value
  AllHold-get t [] n x e h = cc
  AllHold-get t (y ∷ es) zero x e h =
      let same : y ≡ x = cc in subst (λ z. World.Holds A t z.id z.value) same h.0
  AllHold-get t (y ∷ es) (suc n) x e h = AllHold-get t es n x e h.1

  holders-remove :
      (es : Entries) (n : ℕ) (x : World.Entry A) (i : ℕ)
      → get_elem? es n ≡ some x
      → World.holders A (remove es n) i + one x.id i ≡ World.holders A es i
  holders-remove [] n x i e = cc
  holders-remove (y ∷ es) zero x i e = let same : y ≡ x = cc in rw same (omega arith)
  holders-remove (y ∷ es) (suc n) x i e = omega (arith, holders-remove es n x i e)

  holders-set :
      (es : Entries) (n : ℕ) (x y : World.Entry A) (i : ℕ)
      → get_elem? es n ≡ some x
      → World.holders A (set es n y) i ≡ World.holders A (remove es n) i + one y.id i
  holders-set [] n x y i e = cc
  holders-set (z ∷ es) zero x y i e = omega arith
  holders-set (z ∷ es) (suc n) x y i e = omega (arith, holders-set es n x y i e)

  one_self : (i : ℕ) → one (slot i) i ≡ 1
  one_self i = ground arith

  one-other : (i j : ℕ) → i ≢ j → one (slot i) j ≡ 0
  one-other i j h = ground arith

  -- Taking a key out frees its slot of any holder.
  pub Kept-remove :
      (t : Table) (es : Entries) (r : ℕ → ℕ) (n : ℕ) (x : World.Entry A)
      → get_elem? es n ≡ some x
      → Kept t es r
      → Kept t (remove es n) (λ i. r i + one x.id i)
  Kept-remove t es r n x e k = record {
    unique = λ i. omega (arith, k.unique i, holders-remove es n x i e);
    used = λ i p. k.used i (omega (arith, holders-remove es n x i e));
    stored = AllHold-remove t es n k.stored;
  }

  pub Kept-less :
      (t : Table) (es : Entries) (r s : ℕ → ℕ) → ((i : ℕ) → s i ≤ r i) → Kept t es r → Kept t es s
  Kept-less t es r s le k = record {
    unique = λ i. omega (arith, k.unique i, le i);
    used = λ i p. k.used i (omega (arith, le i));
    stored = k.stored;
  }

  pub Kept-set :
      (t : Table) (es : Entries) (r : ℕ → ℕ) (n : ℕ) (x y : World.Entry A)
      → get_elem? es n ≡ some x
      → Kept t (y ∷ remove es n) r
      → Kept t (set es n y) r
  Kept-set t es r n x y e k = record {
    unique = λ i. omega (arith, k.unique i, holders-set es n x y i e);
    used = λ i p. k.used i (omega (arith, holders-set es n x y i e));
    stored = AllHold-set t es n y k.stored.0 k.stored.1;
  }

  pub Kept-nil :
      (t : Table) (es : Entries) (r : ℕ → ℕ)
      → Kept t es r
      → Kept t (record { id = ref_nil; value = none } ∷ es) r
  Kept-nil t es r k = record {
    unique = λ i. omega (arith, k.unique i);
    used = λ i p. k.used i (omega arith);
    stored = (refl, k.stored);
  }

  pub Kept-ref :
      (t : Table) (es : Entries) (r : ℕ → ℕ) (v : V)
      → Kept t es r
      → Kept (lual_ref t v).0 (record { id = slot (lual_ref t v).1; value = some v } ∷ es) r
  Kept-ref t es r v k = record {
    unique = λ i. ground (arith, k.unique i, k.used i, A.ref_fresh t v);
    used = λ i p. ground (arith, k.used i, A.ref_in_use t v i);
    stored = (
      A.ref_value t v,
      AllHold-others t (lual_ref t v).0 es (λ i p. A.ref_others t v i (k.used i (omega arith)))
          k.stored,
    );
  }

  -- A slot that is only counted as released takes a value.
  pub Kept-reuse :
      (t : Table) (es : Entries) (r : ℕ → ℕ) (i : ℕ) (v : V)
      → Kept t es (λ j. r j + one (slot i) j)
      → Kept (rawseti t i v) (record { id = slot i; value = some v } ∷ es) r
  Kept-reuse t es r i v k = record {
    unique = λ j. omega (arith, k.unique j);
    used = λ j p. A.set_in_use t i v j ∙ k.used j (omega arith);
    stored = (
      A.set_value t i v,
      AllHold-others t (rawseti t i v) es
          (λ j p. A.set_others t i v j (λ e. ground (arith, k.unique j))) k.stored,
    );
  }

  pub Kept-unref :
      (t : Table) (es : Entries) (r : ℕ → ℕ) (i : ℕ)
      → Kept t es (λ j. r j + one (slot i) j)
      → Kept (lual_unref t i) es r
  Kept-unref t es r i k = record {
    unique = λ j. omega (arith, k.unique j);
    used = λ j p. ground (arith, A.unref_in_use t i j, k.used j, k.unique j);
    stored =
        AllHold-others t (lual_unref t i) es
          (λ j p. A.unref_others t i j (λ e. ground (arith, k.unique j)) (k.used j (omega arith)))
          k.stored;
  }

  pub Kept-unref_all :
      (t : Table) (es : Entries) (r : ℕ → ℕ) (js : List ℕ)
      → Kept t es (λ i. r i + World.released A js i)
      → Kept (Ops.unref_all A t js) es r
  unfolding Ops.unref_all
  Kept-unref_all t es r [] k = Kept-less t es _ r (λ i. omega arith) k
  Kept-unref_all t es r (j ∷ js) k =
      Kept-unref (Ops.unref_all A t js) es r j (
        Kept-unref_all t es (λ i. r i + one (slot j) i) js
          (Kept-less t es _ _ (λ i. omega arith) k))
