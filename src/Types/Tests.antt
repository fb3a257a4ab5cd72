-- ===== src/Types/Tests.antt =====
-- A Lua registry that is a list of references, each of which leads to a table, known by its address, or to
-- none. A new table has an address above all of those.
use mlua.Base.{
  ℕ, zero, suc, ◌+◌, ◌≤◌, ◌≡◌, ◌≢◌, refl, arith, List, [], ◌∷◌, length, Option, none, some, ◌==◌,
  if◌then◌else◌,
}
use mlua.Types.{
  ok, err, user_data_type_mismatch, Lua, World, Extra, make_userdata, make_any_userdata,
  register_userdata_type, register_userdata_metatable, get_userdata_type_id_inner, destructed_type,
  insert,
}
use mlua.Types.Registration.{IsRegistry, register_userdata_type-stale}
use mlua.Types.Live.{HasType, Reach-HasType, start, register_type, make, make_any}
use mlua.Types.Live
use mlua.Types.Coherent.{here, next, register, check, Reach-type_of, type_of}

abbrev Refs : Type 0
Refs = List (Option ℕ)

abbrev rawgeti : Refs → ℕ → Option ℕ
rawgeti [] id = none
rawgeti (x ∷ s) zero = x
rawgeti (x ∷ s) (suc id) = rawgeti s id

abbrev add : Refs → ℕ → Refs
add [] p = some p ∷ []
add (x ∷ s) p = x ∷ add s p

abbrev free : Refs → ℕ → Refs
free [] id = []
free (x ∷ s) zero = none ∷ s
free (x ∷ s) (suc id) = x ∷ free s id

abbrev total : Refs → ℕ
total [] = 0
total (none ∷ s) = total s
total (some p ∷ s) = p + total s

abbrev lua : Lua Refs ℕ
lua = record {
  push_userdata_metatable = λ s r. (s, ok (total s + 1));
  reference = λ s p. (add s p, ok (length s));
  unreference = free;
  rawgeti = rawgeti;
}

rawgeti-add : (s : Refs) (p : ℕ) → rawgeti (add s p) (length s) ≡ some p
rawgeti-add [] p = refl
rawgeti-add (x ∷ s) p = rawgeti-add s p

rawgeti-length : (s : Refs) → rawgeti s (length s) ≡ none
rawgeti-length [] = refl
rawgeti-length (x ∷ s) = rawgeti-length s

rawgeti-add_other : (s : Refs) (p j : ℕ) → j ≢ length s → rawgeti (add s p) j ≡ rawgeti s j
rawgeti-add_other [] p zero h = absurd (h refl)
rawgeti-add_other [] p (suc j) h = refl
rawgeti-add_other (x ∷ s) p zero h = refl
rawgeti-add_other (x ∷ s) p (suc j) h = rawgeti-add_other s p j (λ e. h (omega arith))

rawgeti-free : (s : Refs) (id : ℕ) → rawgeti (free s id) id ≡ none
rawgeti-free [] id = refl
rawgeti-free (x ∷ s) zero = refl
rawgeti-free (x ∷ s) (suc id) = rawgeti-free s id

rawgeti-le-total : (s : Refs) (id p : ℕ) → rawgeti s id ≡ some p → p ≤ total s
rawgeti-le-total [] id p h = cc
rawgeti-le-total (none ∷ s) zero p h = cc
rawgeti-le-total (some q ∷ s) zero p h = ground arith
rawgeti-le-total (none ∷ s) (suc id) p h = rawgeti-le-total s id p h
rawgeti-le-total (some q ∷ s) (suc id) p h = ground (arith, rawgeti-le-total s id p h)

lua-IsRegistry : IsRegistry lua
lua-IsRegistry = record {
  pushes = λ s r id. refl;
  new_table = λ s s' r p id h e. ground (arith, rawgeti-le-total s id p e);
  refers = λ s s' p id h. ground (arith, rawgeti-add s p);
  fresh = λ s s' p id h. ground (arith, rawgeti-length s);
  keeps = λ s s' p id j h n. ground (arith, rawgeti-add_other s p j);
  fails = λ s s' p j e h. cc;
  frees = rawgeti-free;
}

abbrev extra : Extra ℕ
extra = record {
  pending_userdata_reg = λ t. none;
  registered_userdata_t = λ t. none;
  registered_userdata_mt = insert 90 (some destructed_type) (λ p. none);
  last_checked_userdata_mt = (0, none);
}

-- The type 7 is in use: its metatable is at the address 40.
abbrev used : World Refs ℕ
used = record {
  lua = some 40 ∷ [];
  extra = record extra {
    registered_userdata_t = insert 7 0 extra.registered_userdata_t;
    registered_userdata_mt = insert 40 (some 7) extra.registered_userdata_mt;
  };
}

-- The types 7 and 8 were registered, and userdata of both were made.
abbrev first : World Refs ℕ
first = register_userdata_type lua 7 5 (record { lua = []; extra = extra })

abbrev history : World Refs ℕ
history = (make_userdata lua 8 6 (make_any_userdata lua 7 1 first).0).0

history-Reach : Live.Reach lua history
history-Reach =
    Live.next
      (Live.next
        (Live.next (start (record { lua = []; extra = extra }) (λ t. refl) (λ t. refl))
          (register_type 7 5 refl))
        (make_any 7 1))
      (make 8 6)

Reach-HasType_example :
    HasType lua 7 (make_userdata lua 7 1 history)
    × HasType lua 7 (make_any_userdata lua 7 1 history)
Reach-HasType_example = Reach-HasType lua history 7 1 lua-IsRegistry history-Reach

register_userdata_type-stale_example :
    (make_any_userdata lua 7 1 (register_userdata_type lua 7 2 used)).1 ≡ ok none
register_userdata_type-stale_example =
    register_userdata_type-stale lua 7 0 2 1 used lua-IsRegistry refl

abbrev later : Extra ℕ
later = (get_userdata_type_id_inner 40 (register_userdata_metatable 40 (some 7) extra)).0

Reach-type_of_example :
    (get_userdata_type_id_inner 90 later).1
    ≡ (if 90 == 0 then err user_data_type_mismatch else type_of (later.registered_userdata_mt 90))
Reach-type_of_example =
    Reach-type_of (next (next here (register 40 (some 7) (λ h. omega arith) refl)) (check 40)) refl
      90
