-- ===== src/ChunkCache/Honest.antt =====
-- A cache whose chunks are those of a world, as far as the world has their keys, and the chunks of
-- a batch that come into it.
use factorio_multiplayer_cac.Common.{
  ℕ, zero, suc, ◌+◌, ◌≡◌, refl, sym, ap, ◌∙◌, some, List, [], ◌∷◌, length, drop, All, All-append,
  IsU64, arith, inl, inr, Bool-cases, ==_iff,
}
use mathlib.Core.Path.{subst}
use factorio_multiplayer_cac.Common.HashMap.{
  HashMap, get, remove, bytes_key, bytes_eq, bytes_eq_iff,
}
use factorio_multiplayer_cac.Crates.LinkedMap.{LinkedHashMap}
use factorio_multiplayer_cac.Dedup.{ChunkKey}
use factorio_multiplayer_cac.ChunkCache.{
  RawChunkCache, ChunkCacheInner, insert_raw, get_raw, fulfill, fulfill_loop,
}
use factorio_multiplayer_cac.ChunkCache.Eviction.{
  Entries, IsCache, entries_of, with_newest, insert_raw-IsEvicted,
}
use factorio_multiplayer_cac.ChunkCache.Waiting.{IsIn}

module _ (P : List ℕ × List ℕ → Type 0) where
  pub drop-All : (n : ℕ) (es : Entries) → All P es → All P (drop n es)
  drop-All zero es h = h
  drop-All (suc n) [] h = tt
  drop-All (suc n) (e ∷ es) h = drop-All n es h.1

  pub remove-All : (k : List ℕ) (es : Entries) → All P es → All P (remove k es)
  unfolding remove
  remove-All k [] h = tt
  remove-All k ((j, c) ∷ es) h = elim (Bool-cases (bytes_eq j k)) [
    | inl same ↦ rw (remove, same) (remove-All k es h.1)
    | inr other ↦ rw (remove, other) (h.0, remove-All k es h.1)
  ]

  All-get : (k c : List ℕ) (es : Entries) → All P es → get k es ≡ some c → P (k, c)
  unfolding get
  All-get k c [] h found = cc
  All-get k c ((j, d) ∷ es) h found = elim (Bool-cases (bytes_eq j k)) [
    | inl same ↦
        let key : j ≡ k = (bytes_eq_iff j k).0 same in
        let chunk : some d ≡ some c = rw (get, same) at found in
        let is : d ≡ c = cc (chunk) in subst P (λ i. (key i, is i)) h.0
    | inr other ↦ All-get k c es h.1 (rw other at found)
  ]

module _ (lib : LinkedHashMap) (keys : List ChunkKey) (original : HashMap ChunkKey (List ℕ))
    (max_size : ℕ) where
  -- An entry under a key of the world is the chunk of the world.
  abbrev IsOriginal : List ℕ × List ℕ → Type 0
  IsOriginal e = IsIn e.0 keys → get e.0 original ≡ some e.1

  pub record IsHonest (raw : RawChunkCache lib) : Type 0 where
    pub counted : IsCache lib raw
    pub limit : raw.max_size ≡ max_size
    pub originals : All IsOriginal (entries_of lib raw)

  pub get_raw-IsHonest :
      (raw : RawChunkCache lib) (k c : List ℕ)
      → IsHonest raw
      → IsIn k keys
      → get_raw lib raw k ≡ some c
      → get k original ≡ some c
  unfolding get_raw
  get_raw-IsHonest raw k c h member found =
      All-get IsOriginal k c (entries_of lib raw) h.originals
        (sym (lib.lookup_lem k raw.chunks) ∙ found) member

  insert_raw-IsHonest :
      (raw : RawChunkCache lib) (key chunk : List ℕ)
      → IsHonest raw
      → get key original ≡ some chunk
      → IsU64 (max_size + length chunk)
      → (raw' : RawChunkCache lib) × (insert_raw lib raw key chunk ≡ some raw') × IsHonest raw'
  insert_raw-IsHonest raw key chunk h found fits =
      let (n, raw', run, evicted, counted) =
        insert_raw-IsEvicted lib raw key chunk h.counted (omega (arith, h.limit)) in
      (
        raw',
        run,
        record {
          counted = counted;
          limit = evicted.same_limit ∙ h.limit;
          originals = subst (All IsOriginal) (sym evicted.left) (
              drop-All IsOriginal n (with_newest lib raw key chunk) (
                All-append IsOriginal (remove key (entries_of lib raw)) ((key, chunk) ∷ [])
                  (remove-All IsOriginal key (entries_of lib raw) h.originals)
                  (λ member. found, tt)));
        },
      )

  -- The chunks are those of the keys, in order, and a cache of that limit can count them.
  abbrev pub AreFound : List ChunkKey → List (List ℕ) → Type 0
  AreFound [] [] = Unit
  AreFound (j ∷ js) (c ∷ cs) =
      ((get j original ≡ some c) × IsU64 (max_size + length c)) × AreFound js cs
  AreFound _ _ = ⊥

  pub AreFound-length :
      (js : List ChunkKey) (cs : List (List ℕ)) → AreFound js cs → length js ≡ length cs
  AreFound-length [] [] h = refl
  AreFound-length (j ∷ js) (c ∷ cs) h = ap suc (AreFound-length js cs h.1)
  AreFound-length [] (c ∷ cs) h = absurd h
  AreFound-length (j ∷ js) [] h = absurd h

  fulfill_loop-IsHonest :
      (js : List ChunkKey) (cs : List (List ℕ)) (inner : ChunkCacheInner lib)
      → AreFound js cs
      → IsHonest inner.raw_cache
      → (inner' : ChunkCacheInner lib) × (fulfill_loop lib js cs inner ≡ some inner')
        × IsHonest inner'.raw_cache
  unfolding fulfill_loop
  fulfill_loop-IsHonest [] [] inner found h = (inner, refl, h)
  fulfill_loop-IsHonest (j ∷ js) (c ∷ cs) inner found h =
      let (raw, run, h') = insert_raw-IsHonest inner.raw_cache j c h found.0.0 found.0.1 in
      let (inner', run', h'') =
        fulfill_loop-IsHonest js cs
          (record inner { raw_cache = raw; pending_chunks = remove j inner.pending_chunks }) found.1
          h' in
      (inner', rw run run', h'')
  fulfill_loop-IsHonest [] (c ∷ cs) inner found h = absurd found
  fulfill_loop-IsHonest (j ∷ js) [] inner found h = absurd found

  -- A batch is brought: the cache stays honest, and the event is closed.
  pub fulfill-IsHonest :
      (event : ℕ) (js : List ChunkKey) (cs : List (List ℕ)) (inner : ChunkCacheInner lib)
      (closed : List ℕ)
      → AreFound js cs
      → IsHonest inner.raw_cache
      → (inner' : ChunkCacheInner lib) × (fulfill lib
            (record { event = event; batch_keys = js })
            cs
            inner
            closed
          ≡ some (inner', event ∷ closed))
        × IsHonest inner'.raw_cache
  unfolding fulfill
  fulfill-IsHonest event js cs inner closed found h =
      let same : length js ≡ length cs = AreFound-length js cs found in
      let (inner', run, h') = fulfill_loop-IsHonest js cs inner found h in
      (inner', rw (fulfill, (==_iff (length js) (length cs)).1 same, run) refl, h')
