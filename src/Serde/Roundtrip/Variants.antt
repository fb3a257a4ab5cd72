-- ===== src/Serde/Roundtrip/Variants.antt =====
-- A variant through src/serde/ser.rs, and back through `deserialize_enum` of src/serde/de.rs.
use Prim.Native.String.{String}
use mlua.Serde.Roundtrip.Whole.{serialized}
use mlua.Serde.Roundtrip.Steps.{named_after}
use mlua.Serde.Roundtrip.Made.{create_table-table, create_table-next}
use mlua.Serde.Roundtrip.Fills.{raw_set-others}
use mlua.Serde.Roundtrip.Reads.{Fresh-visit}
use mlua.Serde.Roundtrip.{IsKeyed, content, size, not_skipped, Serialized, Fresh}
use mlua.Serde.Ser.{Data, newtype_variant, serialize}
use mlua.Serde.Ser
use mlua.Serde.De.{deserialize_enum, newtype_variant_seed, unit_variant, contains}
use mlua.Serde.De
use mlua.Serde.{Value, Heap, ok, err, table, string, raw_set, create_table, invalid_type}
use mlua.Serde
use mlua.Base.{ℕ, suc, ◌<◌, ◌≡◌, refl, true, false, [], ◌∷◌, some, arith, Option}

module _ (number_text : Value → Option String) (o : De.Options)
    (deny : o.deny_unsupported_types ≡ true) where
  single :
      (h : Heap) (t lo hi : ℕ) (variant : String) (v : Value)
      → h.tables t ≡ record { entries = (string variant, v) ∷ []; array = false }
      → Serde.Roundtrip.IsMade lo hi v
      → Fresh (t ∷ []) lo hi
      → deserialize_enum number_text o h [] (table t) ≡ ok (variant, some v)
  unfolding deserialize_enum
  single h t lo hi variant v e m f = rw (e, not_skipped o deny lo hi (t ∷ []) v m f) refl

  -- A variant with one value, which has texts for the keys of its maps and no two keys of one map the
  -- same, is serialized with the default options into a table. Where types that cannot be read are
  -- denied, that table is read as the variant's name and a value, which gives the visitor the data again
  -- with more fuel than the data's size and while the variant's table counts as visited; it is refused as
  -- a variant without a value.
  pub deserialize_enum-serialize :
      (variant : String) (d : Data) (h : Heap)
      → IsKeyed d
      → (t : ℕ) × (v : Value) × (h' : Heap) × (serialize Ser.new (newtype_variant variant d) h
          ≡ ok (table t, h'))
        × (deserialize_enum number_text o h' [] (table t) ≡ ok (variant, some v))
        × (unit_variant (some v) ≡ err invalid_type)
        × ((fuel : ℕ)
            → size d < fuel
            → newtype_variant_seed fuel o h' (t ∷ []) (some v) ≡ ok (content d))
  unfolding serialize unit_variant newtype_variant_seed
  deserialize_enum-serialize variant d h k = (
    h.next,
    s.value,
    raw_set h.next (string variant) s.value s.after,
    rw s.returns refl,
    single _ h.next (suc h.next) s.after.next variant s.value after s.made fresh,
    refl,
    λ fuel l.
        s.reads _ (h.next ∷ []) fuel
          (λ j a b.
            raw_set-others h.next j (string variant) s.value s.after
              (omega (arith, create_table-next false h)))
          fresh l,
  )
    where
      s : Serialized o deny d (create_table false h)
      s = serialized o deny d (create_table false h) k

      after :
          (raw_set h.next (string variant) s.value s.after).tables h.next
          ≡ record { entries = (string variant, s.value) ∷ []; array = false }
      after =
          (named_after o deny h.next [] (create_table false h) d variant s
            (omega (arith, create_table-next false h)) (create_table-table false h) tt).0

      fresh : Fresh (h.next ∷ []) (suc h.next) s.after.next
      fresh = Fresh-visit [] (suc h.next) s.after.next h.next (λ j a b. refl) (omega arith)
