-- ===== src/Chunk/Tests.antt =====
-- A Lua whose functions are their texts, with the signature before them as bytecode.
use Prim.Native.String.{String}
use mlua.Chunk.Cache.{start, next, try_cache-compile}
use mlua.Chunk.{Chunk, text, compile, try_cache}
use mlua.Base.{ℕ, Option, none, some, List, [], ◌∷◌, ◌≡◌, refl}

abbrev loadbuffer : String → List ℕ → Option (List ℕ)
loadbuffer mode source = some source

abbrev dump : List ℕ → List ℕ
dump func = 27 ∷ 76 ∷ 117 ∷ 97 ∷ func

abbrev chunk : Chunk
chunk = record { source = some (120 ∷ []); mode = none }

-- The same source, which is said to be a text.
abbrev text_chunk : Chunk
text_chunk = record { source = some (120 ∷ []); mode = some text }

abbrev cache : List (List ℕ × List ℕ)
cache = (try_cache loadbuffer dump chunk []).1

cached : cache ≡ (120 ∷ [], 27 ∷ 76 ∷ 117 ∷ 97 ∷ 120 ∷ []) ∷ []
unfolding try_cache
cached = refl

try_cache-compile_example :
    (try_cache loadbuffer dump text_chunk cache).0 ≡ compile loadbuffer dump text_chunk
try_cache-compile_example = try_cache-compile loadbuffer dump cache text_chunk (next start chunk)
