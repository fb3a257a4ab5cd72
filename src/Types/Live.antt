-- ===== src/Types/Live.antt =====
-- New userdata get a metatable of their type, src/state/raw.rs.
use mlua.Base.{
  ℕ, ◌≡◌, ◌≢◌, refl, sym, ap, ◌∙◌, inl, inr, Bool-cases, Option, none, some, ◌==◌, arith, subst,
}
use mlua.Types.{
  Result, ok, err, Lua, World, RawUserDataRegistry, make_userdata, make_any_userdata,
  register_userdata_type, with_metatable, create_userdata_metatable, pushed, referenced,
  get_any_metatable_id, get_metatable_id, take_pending, unreferenced,
}
use mlua.Types.Registration.{IsRegistry}

module _ {S D : Type 0} (lua : Lua S D) where
  -- A reference leads to a table that is registered with the type.
  abbrev pub Leads : World S D → ℕ → ℕ → Type 0
  Leads w t id =
      (p : ℕ) × (lua.rawgeti w.lua id ≡ some p) × (w.extra.registered_userdata_mt p ≡ some (some t))

  -- So do the references of all types that have one, and what is pending is of its type.
  pub record IsLive (w : World S D) : Type 0 where
    pub leads : (t id : ℕ) → w.extra.registered_userdata_t t ≡ some id → Leads w t id
    pub pending :
        (t : ℕ) (r : RawUserDataRegistry D)
        → w.extra.pending_userdata_reg t ≡ some r
        → r.type_id ≡ some t

  -- The registry of Lua has at least the tables that it had.
  kept :
      (w w' : World S D)
      → IsLive w
      → w'.extra ≡ w.extra
      → ((id : ℕ) → lua.rawgeti w'.lua id ≡ lua.rawgeti w.lua id)
      → IsLive w'
  kept w w' live e same = record {
    leads = λ t id h.
        let (p, q, k) = live.leads t id (ground (arith, e, h)) in
        (p, same id ∙ q, ground (arith, e, k));
    pending = λ t r h. live.pending t r (ground (arith, e, h));
  }

  -- The metatable of a new userdata is none that is not registered with the type.
  abbrev pub HasType : ℕ → World S D × Result (Option ℕ) → Type 0
  HasType t (w, err e) = Unit {0}
  HasType t (w, ok m) = (p : ℕ) × (m ≡ some p) × (w.extra.registered_userdata_mt p ≡ some (some t))

  module _ (r : IsRegistry lua) where
    referenced-lem :
        (t p : ℕ) (w : World S D) (q : S × Result ℕ)
        → lua.reference w.lua p ≡ q
        → ((id : ℕ) → lua.rawgeti w.lua id ≢ some p)
        → IsLive w
        → IsLive (referenced lua (some t) p w q).0
          × ((id : ℕ)
              → (referenced lua (some t) p w q).1 ≡ ok id
              → Leads (referenced lua (some t) p w q).0 t id)
    unfolding referenced
    referenced-lem t p w (s, err e) h new live =
        (kept w (record w { lua = s }) live refl (λ id. r.fails w.lua s p id e h), λ id k. cc)
    referenced-lem t p w (s, ok n) h new live = (
      record {
        leads = λ u id k. elim (Bool-cases (u == t)) [
          | inl e ↦ (p, ground (arith, r.refers w.lua s p n h, k), ground arith)
          | inr e ↦
              let (x, q, m) = live.leads u id (ground arith) in
              (
                x,
                r.keeps w.lua s p n id h
                      (λ i. cc (r.fresh w.lua s p n h, q, ap (lua.rawgeti w.lua) i))
                    ∙ q,
                ground (arith, m, new id),
              )
        ];
        pending = live.pending;
      },
      λ id k. (p, ground (arith, r.refers w.lua s p n h, k), ground arith),
    )

    pushed-lem :
        (t : ℕ) (reg : RawUserDataRegistry D) (w : World S D) (q : S × Result ℕ)
        → lua.push_userdata_metatable w.lua reg ≡ q
        → IsLive w
        → IsLive (pushed lua (some t) w q).0
          × ((id : ℕ)
              → (pushed lua (some t) w q).1 ≡ ok id
              → Leads (pushed lua (some t) w q).0 t id)
    unfolding pushed
    pushed-lem t reg w (s, err e) h live = (
      kept w (record w { lua = s }) live refl
          (λ id. ap (λ x. lua.rawgeti x.0 id) (sym h) ∙ r.pushes w.lua reg id),
      λ id k. cc,
    )
    pushed-lem t reg w (s, ok p) h live =
        let same = λ (id : ℕ). ap (λ x. lua.rawgeti x.0 id) (sym h) ∙ r.pushes w.lua reg id in
        referenced-lem t p (record w { lua = s }) (lua.reference s p) refl
          (λ id k. r.new_table w.lua s reg p id h (sym (same id) ∙ k))
          (kept w (record w { lua = s }) live refl same)

    abbrev Gives : ℕ → World S D × Result ℕ → Type 0
    Gives t x = IsLive x.0 × ((id : ℕ) → x.1 ≡ ok id → Leads x.0 t id)

    create-lem :
        (t : ℕ) (reg : RawUserDataRegistry D) (w : World S D)
        → reg.type_id ≡ some t
        → IsLive w
        → IsLive (create_userdata_metatable lua reg w).0
          × ((id : ℕ)
              → (create_userdata_metatable lua reg w).1 ≡ ok id
              → Leads (create_userdata_metatable lua reg w).0 t id)
    unfolding create_userdata_metatable
    create-lem t reg w e live =
        subst (λ o. Gives t (pushed lua o w (lua.push_userdata_metatable w.lua reg))) (sym e)
          (pushed-lem t reg w (lua.push_userdata_metatable w.lua reg) refl live)

    get_metatable_id-Gives :
        (t : ℕ) (definition : D) (w : World S D) (o : Option ℕ)
        → w.extra.registered_userdata_t t ≡ o
        → IsLive w
        → Gives t (get_metatable_id lua t definition w o)
    unfolding get_metatable_id
    get_metatable_id-Gives t d w (some id) h live = (live, λ i k. live.leads t i (cc))
    get_metatable_id-Gives t d w none h live =
        create-lem t (record { type_id = some t; contents = d }) w refl live

    take_pending-lem :
        (t : ℕ) (empty : D) (w : World S D) (o : Option (RawUserDataRegistry D))
        → w.extra.pending_userdata_reg t ≡ o
        → IsLive w
        → IsLive (take_pending lua t empty w o).0
          × ((take_pending lua t empty w o).1.type_id ≡ some t)
    unfolding take_pending
    take_pending-lem t empty w none h live = (live, refl)
    take_pending-lem t empty w (some reg) h live = (
      record { leads = live.leads; pending = λ u x k. live.pending u x (ground arith) },
      live.pending t reg h,
    )

    get_any_metatable_id-Gives :
        (t : ℕ) (empty : D) (w : World S D) (o : Option ℕ)
        → w.extra.registered_userdata_t t ≡ o
        → IsLive w
        → Gives t (get_any_metatable_id lua t empty w o)
    unfolding get_any_metatable_id
    get_any_metatable_id-Gives t empty w (some id) h live = (live, λ i k. live.leads t i (cc))
    get_any_metatable_id-Gives t empty w none h live =
        let p = take_pending-lem t empty w (w.extra.pending_userdata_reg t) refl live in
        let x = take_pending lua t empty w (w.extra.pending_userdata_reg t) in
        create-lem t x.1 x.0 p.1 p.0

    with_metatable-HasType :
        (t : ℕ) (x : World S D × Result ℕ)
        → Gives t x
        → IsLive (with_metatable lua x).0 × HasType t (with_metatable lua x)
    unfolding with_metatable
    with_metatable-HasType t (w, err e) g = (g.0, tt)
    with_metatable-HasType t (w, ok id) g = (g.0, g.1 id refl)

    make-IsLive :
        (t : ℕ) (contents : D) (w : World S D)
        → IsLive w
        → (IsLive (make_userdata lua t contents w).0 × HasType t (make_userdata lua t contents w))
          × (IsLive (make_any_userdata lua t contents w).0
              × HasType t (make_any_userdata lua t contents w))
    unfolding make_userdata make_any_userdata
    make-IsLive t d w live = (
      with_metatable-HasType t (get_metatable_id lua t d w (w.extra.registered_userdata_t t))
          (get_metatable_id-Gives t d w (w.extra.registered_userdata_t t) refl live),
      with_metatable-HasType t (get_any_metatable_id lua t d w (w.extra.registered_userdata_t t))
          (get_any_metatable_id-Gives t d w (w.extra.registered_userdata_t t) refl live),
    )

  register_userdata_type-IsLive :
      (t : ℕ) (contents : D) (w : World S D)
      → w.extra.registered_userdata_t t ≡ none
      → IsLive w
      → IsLive (register_userdata_type lua t contents w)
  unfolding register_userdata_type
  register_userdata_type-IsLive t contents w h live = record {
    leads = λ u id k. let (p, q, m) = live.leads u id k in (p, rw (h, unreferenced) q, m);
    pending = λ u x k. elim (Bool-cases (u == t)) [
      | inl e ↦ ground arith
      | inr e ↦ live.pending u x (ground arith)
    ];
  }

  -- What happens to the types of a Lua state: userdata are made, and types are registered that are not in
  -- use yet.
  pub data Step (w : World S D) : World S D → Type 0 where
    make : (t : ℕ) (definition : D) → Step w (make_userdata lua t definition w).0
    make_any : (t : ℕ) (empty : D) → Step w (make_any_userdata lua t empty w).0
    register_type :
        (t : ℕ) (contents : D)
        → w.extra.registered_userdata_t t ≡ none
        → Step w (register_userdata_type lua t contents w)

  pub data Reach : World S D → Type 0 where
    start :
        (w : World S D)
        → ((t : ℕ) → w.extra.registered_userdata_t t ≡ none)
        → ((t : ℕ) → w.extra.pending_userdata_reg t ≡ none)
        → Reach w
    next : {v w : World S D} → Reach v → Step v w → Reach w

  Reach-IsLive : IsRegistry lua → (w : World S D) → Reach w → IsLive w
  Reach-IsLive r w (start v none_used none_pending) = record {
    leads = λ t id k. absurd (cc (none_used t));
    pending = λ t reg k. absurd (cc (none_pending t));
  }
  Reach-IsLive r w (next {v = v} h (make t d)) = (make-IsLive r t d v (Reach-IsLive r v h)).0.0
  Reach-IsLive r w (next {v = v} h (make_any t d)) = (make-IsLive r t d v (Reach-IsLive r v h)).1.0
  Reach-IsLive r w (next {v = v} h (register_type t c n)) =
      register_userdata_type-IsLive t c v n (Reach-IsLive r v h)

  -- If references into Lua's registry behave as documented, and where no type is in use at first, and types are registered only before they are used: whatever
  -- userdata were made and types registered, the next userdata of a type is made with a metatable that is
  -- registered with that type, unless making the metatable fails.
  pub Reach-HasType :
      (w : World S D) (t : ℕ) (contents : D)
      → IsRegistry lua
      → Reach w
      → HasType t (make_userdata lua t contents w) × HasType t (make_any_userdata lua t contents w)
  Reach-HasType w t contents r h =
      let m = make-IsLive r t contents w (Reach-IsLive r w h) in (m.0.1, m.1.1)
