-- ===== src/Index/Order.antt =====
-- The order of lookup in a userdata, src/util/userdata.rs.
use mlua.Index.{
  Result, ok, Fallback, nil, function, table, other, generate, general, fall_back, find,
}
use mlua.Base.{◌≡◌, refl, Option, none, some, ◌∙◌}

module _ {S K V : Type 0} where
  generate-general :
      (index : Fallback S K V) (g : Option (K → Option (S → Result V))) (m : Option (K → Option V))
      (self : S) (key : K)
      → generate index g m self key ≡ general index g m self key
  unfolding generate
  generate-general index none m self key = refl
  generate-general index (some g) (some m) self key = refl
  generate-general nil (some g) none self key = refl
  generate-general (function f) (some g) none self key = refl
  generate-general (table t) (some g) none self key = refl
  generate-general (other t) (some g) none self key = refl

  -- A field of a userdata is what its getter returns, if it has one; else the method of that name, if there
  -- is one; else what the user's own `__index` gives. The function for the common case, with getters, no
  -- methods and a table, is no different.
  pub generate-order :
      (index : Fallback S K V) (field_getters : Option (K → Option (S → Result V)))
      (methods : Option (K → Option V)) (self : S) (key : K)
      → ((get : S → Result V)
          → find field_getters key ≡ some get
          → generate index field_getters methods self key ≡ get self)
        × ((method : V)
            → find field_getters key ≡ none
            → find methods key ≡ some method
            → generate index field_getters methods self key ≡ ok method)
        × (find field_getters key ≡ none
            → find methods key ≡ none
            → generate index field_getters methods self key ≡ fall_back index self key)
  unfolding general
  generate-order index g m self key = (
    λ get p. generate-general index g m self key ∙ rw p refl,
    λ method p q. generate-general index g m self key ∙ rw (p, q) refl,
    λ p q. generate-general index g m self key ∙ rw (p, q) refl,
  )
