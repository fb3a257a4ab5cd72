-- ===== src/Types/Coherent.antt =====
-- The type of a userdata is found with or without the last metatable that was looked up, src/state/raw.rs.
use mlua.Base.{ℕ, ◌≡◌, ◌≢◌, refl, Option, none, some, ◌==◌, if◌then◌else◌, arith}
use mlua.Types.{
  user_data_type_mismatch, user_data_destructed, Result, ok, err, Extra,
  register_userdata_metatable, deregister_userdata_metatable, get_userdata_type_id_inner, look_up,
  is_destructed,
}

-- The type of a metatable by the map alone.
abbrev pub type_of : Option (Option ℕ) → Result (Option ℕ)
type_of none = err user_data_type_mismatch
type_of (some type_id) = if is_destructed type_id then err user_data_destructed else ok type_id

-- What happens to the map: metatables are registered while their address is not, deregistered, and looked
-- up. The one of destructed userdata, at `d`, stays.
pub data Step {D : Type 0} (e : Extra D) : Extra D → Type 0 where
  register :
      (mt_ptr : ℕ) (type_id : Option ℕ)
      → mt_ptr ≢ 0
      → e.registered_userdata_mt mt_ptr ≡ none
      → Step e (register_userdata_metatable mt_ptr type_id e)
  deregister : (mt_ptr : ℕ) → Step e (deregister_userdata_metatable mt_ptr e)
  check : (mt_ptr : ℕ) → Step e (get_userdata_type_id_inner mt_ptr e).0

pub data Reach {D : Type 0} (e : Extra D) : Extra D → Type 0 where
  here : Reach e e
  next : {e1 e2 : Extra D} → Reach e e1 → Step e1 e2 → Reach e e2

-- The last metatable is none, or as the map says.
abbrev pub IsCoherent : {D : Type 0} → Extra D → Type 0
IsCoherent e =
    (e.last_checked_userdata_mt.0 ≢ 0)
    → type_of (e.registered_userdata_mt e.last_checked_userdata_mt.0)
      ≡ ok e.last_checked_userdata_mt.1

module _ {D : Type 0} where
  look_up-lem :
      (p : ℕ) (e : Extra D) (o : Option (Option ℕ))
      → IsCoherent e
      → e.registered_userdata_mt p ≡ o
      → IsCoherent (look_up p e o).0 × ((look_up p e o).1 ≡ type_of o)
  unfolding look_up
  look_up-lem p e o h k = ground (arith)

  inner-lem :
      (p : ℕ) (e : Extra D)
      → IsCoherent e
      → IsCoherent (get_userdata_type_id_inner p e).0
        × ((get_userdata_type_id_inner p e).1 ≡ (
            if p == 0 then err user_data_type_mismatch else type_of (e.registered_userdata_mt p)))
  unfolding get_userdata_type_id_inner
  inner-lem p e h =
      let l = look_up-lem p e (e.registered_userdata_mt p) h refl in
      (λ k. ground (arith, h, l.0), ground (arith, h, l.1))

  Step-IsCoherent : {e e' : Extra D} → Step e e' → IsCoherent e → IsCoherent e'
  unfolding register_userdata_metatable deregister_userdata_metatable get_userdata_type_id_inner
  Step-IsCoherent {e} (register p t n f) h = λ k. ground (arith, h k)
  Step-IsCoherent {e} (deregister p) h = λ k. ground (arith, h)
  Step-IsCoherent {e} (check p) h = (inner-lem p e h).0

  Reach-IsCoherent : {e e' : Extra D} → Reach e e' → IsCoherent e → IsCoherent e'
  Reach-IsCoherent here h = h
  Reach-IsCoherent (next r s) h = Step-IsCoherent s (Reach-IsCoherent r h)

  -- However metatables were registered, deregistered and looked up since a state without a remembered
  -- metatable, an address being registered only while it is not, the type that is found for a userdata is what the map
  -- says of its metatable: a mismatch for none and for one that is not registered, the error of destructed userdata, or
  -- its type.
  pub Reach-type_of :
      {e e' : Extra D}
      → Reach e e'
      → e.last_checked_userdata_mt.0 ≡ 0
      → (mt_ptr : ℕ)
      → (get_userdata_type_id_inner mt_ptr e').1 ≡ (
          if mt_ptr == 0
          then err user_data_type_mismatch
          else type_of (e'.registered_userdata_mt mt_ptr))
  Reach-type_of {e} {e'} r h p = (inner-lem p e' (Reach-IsCoherent r (λ k. absurd (k h)))).1
