-- ===== src/Serde/Agree.antt =====
-- Serialization of Lua values, of src/value.rs and src/table.rs, against src/serde/de.rs.
use mlua.Serde.De.{Contents, Entries, no_contents, element, no_entries, entry}
use mlua.Serde.{Value, Result, ok, ◌>>=◌}
use mlua.Serde
use mlua.Base.{List, [], ◌∷◌}

-- What a serializer has been given, and then is given.
abbrev elements : Contents → Contents → Contents
elements no_contents cs = cs
elements (element c cs) cs' = element c (elements cs cs')

abbrev entries : Entries → Entries → Entries
entries no_entries es = es
entries (entry k v es) es' = entry k v (entries es es')

-- A loop over a list of values.
abbrev each : {S : Type 0} → List Value → (S → Value → Result S) → S → Result S
each [] f s = ok s
each (v ∷ vs) f s = f s v >>= λ s'. each vs f s'
