-- ===== src/Scope/World.antt =====
-- A scope of src/scope.rs until its end: the user makes values and adds destructors. The values are not
-- destructed before: `destroy`, `take` and the collector leave the storage of scoped userdata alone
-- (UserData.Cell.is_borrowed), and the scope holds the handles.
use mlua.Scope.Ending.{Rising, Rising-snoc, Has, run_all-Ended, Has-bounds}
use mlua.Scope.{
  Kind, unique_userdata, Lua, Scope, new, drop, is_unique, call_callback, Event, dropped, called,
  take,
}
use mlua.Scope
use mathlib.Core.Bool.{false}
use mlua.Base.{
  ℕ, ◌<◌, ◌≡◌, refl, sym, ap, ◌∙◌, subst, true, none, some, List, [], ◌∷◌, ◌++◌, arith, inl, inr,
  ◌⊎◌, All,
}

Has-snoc : (d x : ℕ × Kind) (ds : List (ℕ × Kind)) → Has d (ds ++ x ∷ []) → Has d ds ⊎ (d ≡ x)
Has-snoc d x [] (inl e) = inr e
Has-snoc d x [] (inr m) = elim m [ ]
Has-snoc d x (y ∷ ys) (inl e) = inl (inl e)
Has-snoc d x (y ∷ ys) (inr m) = elim (Has-snoc d x ys m) [ inl m' ↦ inl (inr m') | inr e ↦ inr e ]

unique_new : (kind : Kind) → kind ≡ unique_userdata → is_unique kind ≡ true
unfolding is_unique
unique_new kind p = subst (λ k. is_unique k ≡ true) (sym p) refl

module _ {D : Type 0} where
  pub data Step (w : Lua D × Scope) : Lua D × Scope → Type 0 where
    create : (kind : Kind) (data' : D) → Step w (Scope.create kind data' w)
    add_destructor : (destructor : ℕ) → Step w (w.0, Scope.add_destructor destructor (w.1))

  pub data Reach (lua : Lua D) : Lua D × Scope → Type 0 where
    start : Reach lua (lua, new)
    next : {v w : Lua D × Scope} → Reach lua v → Step v w → Reach lua w

  -- Each handle of the scope is new and has its data, and a metatable of its own is registered.
  record IsKept (lo : ℕ) (w : Lua D × Scope) : Type 0 where
    rising : Rising lo (w.1.destructors) (w.0.next)
    registered :
        (d : ℕ × Kind)
        → Has d (w.1.destructors)
        → d.1 ≡ unique_userdata
        → w.0.registered (d.0) ≡ true
    present : (d : ℕ × Kind) → Has d (w.1.destructors) → (x : D) × (w.0.data_of (d.0) ≡ some x)

  create-IsKept :
      (lo : ℕ) (kind : Kind) (data' : D) (w : Lua D × Scope)
      → IsKept lo w
      → IsKept lo (Scope.create kind data' w)
  unfolding Scope.create
  create-IsKept lo kind data' (lua, scope) k = record {
    rising = Rising-snoc lo lua.next scope.destructors kind k.rising;
    registered = λ d m u. elim (Has-snoc d (lua.next, kind) scope.destructors m) [
      | inl m' ↦
          ground
            (arith, (Has-bounds lo lua.next d scope.destructors k.rising m').1, k.registered d m' u)
      | inr e ↦ ground (arith, ap (λ y. y.0) e, unique_new kind (sym (ap (λ y. y.1) e) ∙ u))
    ];
    present = λ d m. elim (Has-snoc d (lua.next, kind) scope.destructors m) [
      | inl m' ↦
          let (x, q) = k.present d m' in
          (x, ground (arith, q, (Has-bounds lo lua.next d scope.destructors k.rising m').1))
      | inr e ↦ (data', ground (arith, ap (λ y. y.0) e))
    ];
  }

  Reach-IsKept : (lua : Lua D) (w : Lua D × Scope) → Reach lua w → IsKept lua.next w
  unfolding new Scope.add_destructor take
  Reach-IsKept lua w start = record {
    rising = omega arith;
    registered = λ d m. elim m [ ];
    present = λ d m. elim m [ ];
  }
  Reach-IsKept lua w (next {v = v} r (create kind data')) =
      create-IsKept lua.next kind data' v (Reach-IsKept lua v r)
  Reach-IsKept lua w (next {v = v} r (add_destructor destructor)) = record {
    rising = (Reach-IsKept lua v r).rising;
    registered = (Reach-IsKept lua v r).registered;
    present = (Reach-IsKept lua v r).present;
  }

  -- The user's code in a list of events, with what each finds in Lua.
  abbrev pub events : List (Event D × Lua D) → List (Event D)
  events [] = []
  events (e ∷ es) = e.0 ∷ events es

  abbrev pub expected : List D → List ℕ → List (Event D)
  expected [] [] = []
  expected [] (n ∷ ns) = called n ∷ expected [] ns
  expected (x ∷ xs) ns = dropped x ∷ expected xs ns

  -- Nothing of the scope is left in Lua when each of them runs.
  abbrev pub AllGone : List (ℕ × Kind) → List (Event D × Lua D) → Type 0
  AllGone ds es = All (λ e. (d : ℕ × Kind) → Has d ds → call_callback (d.0) (e.1) ≡ none) es

  -- At the end of a scope, each metatable that was registered for a userdata of the scope alone is
  -- deregistered, and what was registered before the scope is as it was.
  pub drop-registered :
      (lua : Lua D) (w : Lua D × Scope)
      → Reach lua w
      → ((d : ℕ × Kind)
          → Has d (w.1.destructors)
          → d.1 ≡ unique_userdata
          → (w.0.registered (d.0) ≡ true) × ((drop w).0.registered (d.0) ≡ false))
        × ((k : ℕ) → k < lua.next → (drop w).0.registered k ≡ w.0.registered k)
  unfolding drop
  drop-registered lua w r =
      let k = Reach-IsKept lua w r in
      let e = run_all-Ended lua.next (w.0.next) (w.1.destructors) (w.0) k.rising in
      (
        λ d m u. (k.registered d m u, e.deregistered d (k.present d m).0 m u (k.present d m).1),
        λ i l. (e.below i l).1,
      )
