-- ===== src/Scope/Ending.antt =====
-- The end of a scope, src/scope.rs, after anything that happens in it.
use mlua.Scope.{
  Kind, callback, typed_userdata, unique_userdata, Lua, to_list, sealed, destructor, run_all,
}
use mathlib.Core.Bool.{false≢true}
use mlua.Base.{
  ℕ, suc, ◌≤◌, ◌<◌, ◌≡◌, ◌≢◌, refl, sym, ap, ◌∙◌, subst, Bool, true, false, Option, none, some,
  List, [], ◌∷◌, ◌++◌, arith, ◌⊎◌, inl, inr,
}

-- Handles are given out in rising order.
abbrev pub Rising : ℕ → List (ℕ × Kind) → ℕ → Type 0
Rising lo [] hi = lo ≤ hi
Rising lo (d ∷ ds) hi = (lo ≤ d.0) × Rising (suc (d.0)) ds hi

pub Rising-snoc :
    (lo hi : ℕ) (ds : List (ℕ × Kind)) (kind : Kind)
    → Rising lo ds hi
    → Rising lo (ds ++ (hi, kind) ∷ []) (suc hi)
Rising-snoc lo hi [] kind r = (r, omega arith)
Rising-snoc lo hi (d ∷ ds) kind r = (r.0, Rising-snoc (suc (d.0)) hi ds kind r.1)

Rising-le : (lo hi : ℕ) (ds : List (ℕ × Kind)) → Rising lo ds hi → lo ≤ hi
Rising-le lo hi [] r = r
Rising-le lo hi (d ∷ ds) r = omega (arith, r.0, Rising-le (suc (d.0)) hi ds r.1)

-- A handle of the scope, with its kind.
abbrev pub Has : ℕ × Kind → List (ℕ × Kind) → Type 0
Has d [] = ⊥
Has d (x ∷ xs) = (d ≡ x) ⊎ Has d xs

pub Has-bounds :
    (lo hi : ℕ) (d : ℕ × Kind) (ds : List (ℕ × Kind))
    → Rising lo ds hi
    → Has d ds
    → (lo ≤ d.0) × (d.0 < hi)
Has-bounds lo hi d [] r m = elim m [ ]
Has-bounds lo hi d (x ∷ xs) r (inl e) =
    subst (λ y. (lo ≤ y.0) × (y.0 < hi)) (sym e)
      (r.0, omega (arith, Rising-le (suc (x.0)) hi xs r.1))
Has-bounds lo hi d (x ∷ xs) r (inr m) =
    let b = Has-bounds (suc (x.0)) hi d xs r.1 m in (omega (arith, r.0, b.0), b.1)

module _ {D : Type 0} where
  -- The data that is still there, in the order in which it was given to the scope.
  abbrev pub live : (ℕ → Option D) → List (ℕ × Kind) → List D
  live f [] = []
  live f (d ∷ ds) = to_list (f (d.0)) ++ live f ds

  live-same :
      (f g : ℕ → Option D) (lo hi : ℕ) (ds : List (ℕ × Kind))
      → Rising lo ds hi
      → ((k : ℕ) → lo ≤ k → f k ≡ g k)
      → live f ds ≡ live g ds
  live-same f g lo hi [] r e = refl
  live-same f g lo hi (d ∷ ds) r e = rw (e (d.0) r.0) (
      ap (λ x. to_list (g (d.0)) ++ x)
        (live-same f g (suc (d.0)) hi ds r.1 (λ k l. e k (omega (arith, r.0)))))

  -- What one destructor does.
  record Destructed (d : ℕ × Kind) (lua : Lua D) (r : Lua D × List D) : Type 0 where
    gone : r.0.data_of (d.0) ≡ none
    others : (k : ℕ) → k ≢ d.0 → r.0.data_of k ≡ lua.data_of k
    dropped : r.1 ≡ to_list (lua.data_of (d.0))
    others_registered : (k : ℕ) → k ≢ d.0 → r.0.registered k ≡ lua.registered k
    deregistered :
        (x : D) → d.1 ≡ unique_userdata → lua.data_of (d.0) ≡ some x → r.0.registered (d.0) ≡ false
    left : lua.data_of (d.0) ≡ none → r.0.registered (d.0) ≡ lua.registered (d.0)

  sealed-Destructed :
      (unique : Bool) (i : ℕ) (kind : Kind) (x : Option D) (lua : Lua D)
      → lua.data_of i ≡ x
      → (kind ≡ unique_userdata → unique ≡ true)
      → Destructed (i, kind) lua (sealed unique i x lua)
  unfolding sealed
  sealed-Destructed unique i kind none lua e u = record {
    gone = e;
    others = λ k n. refl;
    dropped = ap to_list (sym e);
    others_registered = λ k n. refl;
    deregistered = λ x p q. absurd cc;
    left = λ p. refl;
  }
  sealed-Destructed true i kind (some y) lua e u = record {
    gone = ground arith;
    others = λ k n. ground arith;
    dropped = ap to_list (sym e);
    others_registered = λ k n. ground arith;
    deregistered = λ x p q. ground arith;
    left = λ p. absurd cc;
  }
  sealed-Destructed false i kind (some y) lua e u = record {
    gone = ground arith;
    others = λ k n. ground arith;
    dropped = ap to_list (sym e);
    others_registered = λ k n. refl;
    deregistered = λ x p q. absurd (false≢true (u p));
    left = λ p. refl;
  }

  destructor-Destructed : (d : ℕ × Kind) (lua : Lua D) → Destructed d lua (destructor d lua)
  unfolding destructor
  destructor-Destructed (i, callback) lua = record {
    gone = ground arith;
    others = λ k n. ground arith;
    dropped = refl;
    others_registered = λ k n. refl;
    deregistered = λ x p q. absurd cc;
    left = λ p. refl;
  }
  destructor-Destructed (i, typed_userdata) lua =
      sealed-Destructed false i typed_userdata (lua.data_of i) lua refl (λ p. absurd cc)
  destructor-Destructed (i, unique_userdata) lua =
      sealed-Destructed true i unique_userdata (lua.data_of i) lua refl (λ p. refl)

  pub record Ended (lo : ℕ) (ds : List (ℕ × Kind)) (lua : Lua D) (r : Lua D × List D) : Type 0 where
    pub gone : (d : ℕ × Kind) → Has d ds → r.0.data_of (d.0) ≡ none
    pub below :
        (k : ℕ) → k < lo → (r.0.data_of k ≡ lua.data_of k) × (r.0.registered k ≡ lua.registered k)
    pub dropped : r.1 ≡ live lua.data_of ds
    pub deregistered :
        (d : ℕ × Kind) (x : D)
        → Has d ds
        → d.1 ≡ unique_userdata
        → lua.data_of (d.0) ≡ some x
        → r.0.registered (d.0) ≡ false
    pub left :
        (d : ℕ × Kind)
        → Has d ds
        → lua.data_of (d.0) ≡ none
        → r.0.registered (d.0) ≡ lua.registered (d.0)

  after_first :
      (lo hi : ℕ) (x : ℕ × Kind) (ds : List (ℕ × Kind)) (lua : Lua D) (first rest : Lua D × List D)
      → Rising lo (x ∷ ds) hi
      → Destructed x lua first
      → Ended (suc (x.0)) ds (first.0) rest
      → Ended lo (x ∷ ds) lua (rest.0, first.1 ++ rest.1)
  after_first lo hi x ds lua first rest r f e = record {
    gone = λ d m. elim m [
      | inl q ↦
          subst (λ y. rest.0.data_of (y.0) ≡ none) (sym q)
            ((e.below (x.0) (omega arith)).0 ∙ f.gone)
      | inr m' ↦ e.gone d m'
    ];
    below = λ k l. (
      (e.below k (omega (arith, r.0))).0 ∙ f.others k (omega (arith, r.0)),
      (e.below k (omega (arith, r.0))).1 ∙ f.others_registered k (omega (arith, r.0)),
    );
    dropped =
        rw (f.dropped, e.dropped)
          (ap (λ y. to_list (lua.data_of (x.0)) ++ y)
            (live-same first.0.data_of lua.data_of (suc (x.0)) hi ds r.1
              (λ k l. f.others k (omega arith))));
    deregistered = λ d y m. elim m [
      | inl q ↦ λ u s.
          subst (λ z. rest.0.registered (z.0) ≡ false) (sym q)
            ((e.below (x.0) (omega arith)).1
              ∙ f.deregistered y (subst (λ z. z.1 ≡ unique_userdata) q u)
                  (subst (λ z. lua.data_of (z.0) ≡ some y) q s))
      | inr m' ↦ λ u s. e.deregistered d y m' u (f.others (d.0) (later d m') ∙ s)
    ];
    left = λ d m. elim m [
      | inl q ↦ λ s.
          subst (λ z. rest.0.registered (z.0) ≡ lua.registered (z.0)) (sym q)
            ((e.below (x.0) (omega arith)).1 ∙ f.left (subst (λ z. lua.data_of (z.0) ≡ none) q s))
      | inr m' ↦ λ s.
          e.left d m' (f.others (d.0) (later d m') ∙ s) ∙ f.others_registered (d.0) (later d m')
    ];
  }
    where
      later : (d : ℕ × Kind) → Has d ds → d.0 ≢ x.0
      later d m = omega (arith, (Has-bounds (suc (x.0)) hi d ds r.1 m).0)

  pub run_all-Ended :
      (lo hi : ℕ) (ds : List (ℕ × Kind)) (lua : Lua D)
      → Rising lo ds hi
      → Ended lo ds lua (run_all ds lua)
  unfolding run_all
  run_all-Ended lo hi [] lua r = record {
    gone = λ d m. elim m [ ];
    below = λ k l. (refl, refl);
    dropped = refl;
    deregistered = λ d x m. elim m [ ];
    left = λ d m. elim m [ ];
  }
  run_all-Ended lo hi (d ∷ ds) lua r =
      after_first lo hi d ds lua (destructor d lua) (run_all ds (destructor d lua).0) r
        (destructor-Destructed d lua) (run_all-Ended (suc (d.0)) hi ds (destructor d lua).0 r.1)
