-- ===== src/Chunk/Cache.antt =====
-- Chunks with the cache of compiled chunks and without, src/chunk.rs.
use Prim.Native.String.{String}
use mlua.Chunk.{
  Chunk, ChunkMode, text, binary, detect_mode, compile, compiled, compile_text, get, same_source,
  insert_compiled, fetched, cache_text, try_cache, load_chunk,
}
use mlua.Base.{
  ℕ, true, Option, none, some, List, [], ◌∷◌, ◌≡◌, refl, sym, ap, ◌∙◌, subst, All, arith,
  Bool-cases, inl, inr, false,
}

same_source-eq : (xs ys : List ℕ) → same_source xs ys ≡ true → xs ≡ ys
unfolding same_source
same_source-eq [] [] e = refl
same_source-eq [] (y ∷ ys) e = absurd cc
same_source-eq (x ∷ xs) [] e = absurd cc
same_source-eq (x ∷ xs) (y ∷ ys) e = ground (arith, same_source-eq xs ys)

module _ {F : Type 0} (loadbuffer : String → List ℕ → Option F) (dump : F → List ℕ) where
  -- The bytecode is that of the function that the source loads as.
  abbrev IsBytecode : List ℕ → List ℕ → Type 0
  IsBytecode source data' =
      (func : F) × (load_chunk loadbuffer dump none source ≡ some func) × (dump func ≡ data')

  abbrev IsCache : List (List ℕ × List ℕ) → Type 0
  IsCache cache = All (λ e. IsBytecode (e.0) (e.1)) cache

  get-IsBytecode :
      (cache : List (List ℕ × List ℕ)) (source data' : List ℕ)
      → IsCache cache
      → get cache source ≡ some data'
      → IsBytecode source data'
  unfolding get
  get-IsBytecode [] source data' c e = absurd cc
  get-IsBytecode ((k, v) ∷ cache) source data' c e = elim (Bool-cases (same_source k source)) [
    | inl p ↦
        let h = same_source-eq k source p in
        let (func, q, r) = c.0 in
        (func, ap (load_chunk loadbuffer dump none) (sym h) ∙ q, r ∙ found v data' (rw p at e))
    | inr p ↦ get-IsBytecode cache source data' c.1 (rw p at e)
  ]
    where
      found : (v data' : List ℕ) → some v ≡ some data' → v ≡ data'
      found v data' e = cc

  -- A chunk after the cache is the chunk compiled, and the cache is still one.
  abbrev Cached : Chunk → Chunk × List (List ℕ × List ℕ) → Type 0
  Cached chunk (chunk', cache) = (chunk' ≡ compile loadbuffer dump chunk) × IsCache cache

  compile-text :
      (source : List ℕ) (mode : Option ChunkMode) (r : Option F)
      → load_chunk loadbuffer dump none source ≡ r
      → detect_mode false (record { source = some source; mode = mode }) ≡ text
      → compile loadbuffer dump (record { source = some source; mode = mode })
        ≡ compiled loadbuffer dump (record { source = some source; mode = mode }) r
  unfolding compile compile_text
  compile-text source mode r e t = rw (t, e) refl

  inserted :
      (source : List ℕ) (mode : Option ChunkMode) (cache : List (List ℕ × List ℕ)) (r : Option F)
      → load_chunk loadbuffer dump none source ≡ r
      → detect_mode false (record { source = some source; mode = mode }) ≡ text
      → IsCache cache
      → IsCache (
          insert_compiled loadbuffer dump source
            (compiled loadbuffer dump (record { source = some source; mode = mode }) r)
            cache)
  unfolding insert_compiled compiled
  inserted source mode cache none e t c = rw (insert_compiled, t) c
  inserted source mode cache (some func) e t c = ((func, e, refl), c)

  fetched-Cached :
      (source : List ℕ) (mode : Option ChunkMode) (cache : List (List ℕ × List ℕ))
      (r : Option (List ℕ))
      → get cache source ≡ r
      → detect_mode false (record { source = some source; mode = mode }) ≡ text
      → IsCache cache
      → Cached
          (record { source = some source; mode = mode })
          (fetched loadbuffer dump (record { source = some source; mode = mode }) source cache r)
  unfolding fetched compiled
  fetched-Cached source mode cache none e t c = (
    refl,
    subst (λ x. IsCache (insert_compiled loadbuffer dump source x cache))
        (sym (compile-text source mode _ refl t)) (inserted source mode cache _ refl t c),
  )
  fetched-Cached source mode cache (some data') e t c =
      let (func, q, r) = get-IsBytecode cache source data' c e in
      (
        ap (λ d. record { source = some d; mode = some binary }) (sym r)
            ∙ sym (compile-text source mode (some func) q t),
        c,
      )

  cache_text-Cached :
      (source : List ℕ) (mode : Option ChunkMode) (cache : List (List ℕ × List ℕ)) (x : ChunkMode)
      → detect_mode false (record { source = some source; mode = mode }) ≡ x
      → IsCache cache
      → Cached
          (record { source = some source; mode = mode })
          (cache_text loadbuffer dump (record { source = some source; mode = mode }) source cache x)
  unfolding cache_text compile compile_text
  cache_text-Cached source mode cache text e c =
      fetched-Cached source mode cache (get cache source) refl e c
  cache_text-Cached source mode cache binary e c = (rw e refl, c)

  try_cache-Cached :
      (s : Option (List ℕ)) (mode : Option ChunkMode) (cache : List (List ℕ × List ℕ))
      → IsCache cache
      → Cached
          (record { source = s; mode = mode })
          (try_cache loadbuffer dump (record { source = s; mode = mode }) cache)
  unfolding try_cache compile
  try_cache-Cached none mode cache c = (refl, c)
  try_cache-Cached (some source) mode cache c = cache_text-Cached source mode cache _ refl c

  -- The cache of a Lua instance, into which chunks were put one after another.
  pub data Reach : List (List ℕ × List ℕ) → Type 0 where
    start : Reach []
    next :
        {cache : List (List ℕ × List ℕ)}
        → Reach cache
        → (chunk : Chunk) → Reach (try_cache loadbuffer dump chunk cache).1

  Reach-IsCache : (cache : List (List ℕ × List ℕ)) → Reach cache → IsCache cache
  Reach-IsCache cache start = tt
  Reach-IsCache cache (next {cache = before} r chunk) =
      (try_cache-Cached chunk.source chunk.mode before (Reach-IsCache before r)).1

  -- Whatever chunks went through the cache before, in whatever modes, a chunk that goes through it is the
  -- chunk that compilation without a cache gives, in the builds other than Luau: the bytecode of its own
  -- source if that is a text that can be loaded, and else the chunk as it was.
  pub try_cache-compile :
      (cache : List (List ℕ × List ℕ)) (chunk : Chunk)
      → Reach cache
      → (try_cache loadbuffer dump chunk cache).0 ≡ compile loadbuffer dump chunk
  try_cache-compile cache chunk r =
      (try_cache-Cached chunk.source chunk.mode cache (Reach-IsCache cache r)).0
