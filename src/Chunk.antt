-- ===== src/Chunk.antt =====
-- Chunks of Lua code, src/chunk.rs: their mode, compilation and the cache of compiled chunks. A source
-- is its bytes; names, environments and errors are left out, and compilation is that of the builds other
-- than Luau, where it loads the source and dumps the function.
pub mod Cache
mod Tests
use Prim.Native.String.{String}
use mlua.Base.{
  ℕ, Bool, true, false, ◌&&◌, Option, none, some, List, [], ◌∷◌, ◌++◌, ltb, ◌==◌, if◌then◌else◌,
}

pub data ChunkMode : Type 0 where
  text binary : ChunkMode

-- `source` is none where it cannot be read.
pub record Chunk : Type 0 where
  pub source : Option (List ℕ)
  pub mode : Option ChunkMode

unfoldable pub starts_with : List ℕ → List ℕ → Bool
starts_with bytes [] = true
starts_with [] (x ∷ xs) = false
starts_with (b ∷ bytes) (x ∷ xs) = b == x && starts_with bytes xs

-- `LUA_SIGNATURE`: escape and "Lua".
abbrev pub signature : List ℕ
signature = 27 ∷ 76 ∷ 117 ∷ 97 ∷ []

-- Whether the bytes are of a binary chunk, in Luau and elsewhere.
unfoldable pub looks_binary : Bool → List ℕ → Bool
unfolding starts_with
looks_binary false source = starts_with source signature
looks_binary true [] = ltb 255 10
looks_binary true (b ∷ bytes) = ltb b 10

unfoldable pub mode_of : Bool → Option (List ℕ) → ChunkMode
unfolding looks_binary
mode_of luau none = text
mode_of luau (some source) = if looks_binary luau source then binary else text

unfoldable pub detect_mode : Bool → Chunk → ChunkMode
unfolding mode_of
detect_mode luau chunk = elim chunk.mode [ some mode ↦ mode | none ↦ mode_of luau chunk.source ]

-- "return " before the source.
unfoldable pub expression_source : List ℕ → List ℕ
expression_source source = 114 ∷ 101 ∷ 116 ∷ 117 ∷ 114 ∷ 110 ∷ 32 ∷ source

-- The modes of `luaL_loadbufferx`.
unfoldable pub mode_chars : Option ChunkMode → String
mode_chars (some binary) = "b"
mode_chars (some text) = "t"
mode_chars none = "bt"

-- Sources and bytecode as keys.
unfoldable pub same_source : List ℕ → List ℕ → Bool
same_source [] [] = true
same_source [] (y ∷ ys) = false
same_source (x ∷ xs) [] = false
same_source (x ∷ xs) (y ∷ ys) = x == y && same_source xs ys

-- `ChunksCache`, from sources to bytecode.
unfoldable pub get : List (List ℕ × List ℕ) → List ℕ → Option (List ℕ)
unfolding same_source
get [] source = none
get ((k, v) ∷ cache) source = if same_source k source then some v else get cache source

-- Lua loads bytes in a mode, and dumps the bytecode of a function.
module _ {F : Type 0} (loadbuffer : String → List ℕ → Option F) (dump : F → List ℕ) where
  -- `load_chunk` of src/state/raw.rs, without a name and an environment.
  unfoldable pub load_chunk : Option ChunkMode → List ℕ → Option F
  unfolding mode_chars
  load_chunk mode source = loadbuffer (mode_chars mode) source

  -- `compile`, in the builds other than Luau.
  unfoldable pub compiled : Chunk → Option F → Chunk
  compiled chunk (some func) = record { source = some (dump func); mode = some binary }
  compiled chunk none = chunk

  unfoldable pub compile_text : Chunk → List ℕ → ChunkMode → Chunk
  unfolding compiled load_chunk
  compile_text chunk source text = compiled chunk (load_chunk none source)
  compile_text chunk source binary = chunk

  unfoldable pub compile : Chunk → Chunk
  unfolding compile_text detect_mode
  compile chunk = elim chunk.source [
    | none ↦ chunk
    | some source ↦ compile_text chunk source (detect_mode false chunk)
  ]

  -- What is inserted after the compilation of a text, if it is binary then.
  unfoldable pub insert_compiled : List ℕ → Chunk → List (List ℕ × List ℕ) → List (List ℕ × List ℕ)
  unfolding detect_mode
  insert_compiled text_source chunk cache = elim chunk.source [
    | none ↦ cache
    | some binary_source ↦ elim (detect_mode false chunk) [
      | text ↦ cache
      | binary ↦ (text_source, binary_source) ∷ cache
    ]
  ]

  unfoldable pub fetched :
      Chunk → List ℕ → List (List ℕ × List ℕ) → Option (List ℕ) → Chunk × List (List ℕ × List ℕ)
  unfolding compile insert_compiled
  fetched chunk source cache (some data') =
      (record { source = some data'; mode = some binary }, cache)
  fetched chunk source cache none = (compile chunk, insert_compiled source (compile chunk) cache)

  unfoldable pub cache_text :
      Chunk → List ℕ → List (List ℕ × List ℕ) → ChunkMode → Chunk × List (List ℕ × List ℕ)
  unfolding fetched get
  cache_text chunk source cache text = fetched chunk source cache (get cache source)
  cache_text chunk source cache binary = (chunk, cache)

  unfoldable pub try_cache : Chunk → List (List ℕ × List ℕ) → Chunk × List (List ℕ × List ℕ)
  unfolding cache_text detect_mode
  try_cache chunk cache = elim chunk.source [
    | none ↦ (chunk, cache)
    | some source ↦ cache_text chunk source cache (detect_mode false chunk)
  ]
