-- ===== src/ChunkCache/Damaged.antt =====
-- Whatever stands in the file of the cache: loading it does not panic, and gives no wrong chunk.
use factorio_multiplayer_cac.Common.{
  ℕ, zero, suc, ◌+◌, ◌≡◌, refl, sym, ◌∙◌, false, Option, none, some, List, [], ◌∷◌, length,
  length-take, take, drop, All, All-append, IsU64, arith, ◌⊎◌, inl, inr, Bool-cases, ltb, leb,
  leb→le, from_le_bytes,
}
use mathlib.Core.Path.{subst}
use factorio_multiplayer_cac.Common.HashMap.{remove, bytes_key, bytes_eq, bytes_eq_iff}
use factorio_multiplayer_cac.Crates.Codec.{Zstd}
use factorio_multiplayer_cac.Crates.Content.{Blake3}
use factorio_multiplayer_cac.Crates.LinkedMap.{LinkedHashMap}
use factorio_multiplayer_cac.Dedup.{Outcome, ok, err}
use factorio_multiplayer_cac.ChunkCache.{RawChunkCache, ChunkCacheInner, new_raw}
use factorio_multiplayer_cac.ChunkCache.Eviction.{
  IsCache, entries_of, with_newest, insert_raw-IsEvicted, new_raw-IsCache,
}
use factorio_multiplayer_cac.ChunkCache.Honest.{drop-All, remove-All}
use factorio_multiplayer_cac.ChunkCache.File.{
  read_exact, insert_checked, read_entries, read_chunk_cache, load_from_file,
}

read_exact-cases :
    (n : ℕ) (bytes : List ℕ)
    → (read_exact n bytes ≡ err)
      ⊎ ((length (take n bytes) ≡ n) × (read_exact n bytes ≡ ok (take n bytes, drop n bytes)))
unfolding read_exact
read_exact-cases n bytes = elim (Bool-cases (leb n (length bytes))) [
  | inl within ↦
      inr (omega (arith, length-take n bytes, leb→le n (length bytes) within), rw within refl)
  | inr short ↦ inl (rw short refl)
]

module _ (blake3 : Blake3) (lib : LinkedHashMap) (zstd : Zstd) (max_size : ℕ) where
  -- Every chunk is under its hash, and the cache is counted right.
  abbrev pub IsHashed : List ℕ × List ℕ → Type 0
  IsHashed e = blake3.hash e.1 ≡ e.0

  pub record IsSound (raw : RawChunkCache lib) : Type 0 where
    pub counted : IsCache lib raw
    pub limit : raw.max_size ≡ max_size
    pub hashed : All IsHashed (entries_of lib raw)

  insert_checked-IsSound :
      (key chunk : List ℕ) (raw : RawChunkCache lib)
      → IsSound raw
      → IsU64 (max_size + length chunk)
      → (raw' : RawChunkCache lib) × (insert_checked zstd lib blake3 key chunk raw ≡ ok raw')
        × IsSound raw'
  unfolding insert_checked
  insert_checked-IsSound key chunk raw sound fits =
      elim (Bool-cases (bytes_eq (blake3.hash chunk) key)) [
        | inr other ↦ (raw, rw other refl, sound)
        | inl same ↦
            let (n, raw', run, evicted, counted) =
              insert_raw-IsEvicted lib raw key chunk sound.counted (omega (arith, sound.limit)) in
            (
              raw',
              rw (same, run) refl,
              record {
                counted = counted;
                limit = evicted.same_limit ∙ sound.limit;
                hashed = subst (All IsHashed) (sym evicted.left) (
                    drop-All IsHashed n (with_newest lib raw key chunk) (
                      All-append IsHashed (remove key (entries_of lib raw)) ((key, chunk) ∷ [])
                        (remove-All IsHashed key (entries_of lib raw) sound.hashed)
                        ((bytes_eq_iff (blake3.hash chunk) key).0 same, tt)));
              },
            )
      ]

  new-IsSound : IsSound (new_raw lib max_size)
  unfolding new_raw
  new-IsSound = record {
    counted = new_raw-IsCache lib max_size;
    limit = refl;
    hashed = subst (All IsHashed) (sym lib.entries_new) tt;
  }

  abbrev IsErrOrSound : Outcome (RawChunkCache lib) → Type 0
  IsErrOrSound outcome =
      (outcome ≡ err) ⊎ ((raw : RawChunkCache lib) × (outcome ≡ ok raw) × IsSound raw)

  read_entries-IsSound :
      (chunks : ℕ) (bytes : List ℕ) (raw : RawChunkCache lib)
      → IsSound raw
      → IsU64 (max_size + 20000000)
      → IsErrOrSound (read_entries zstd lib blake3 chunks bytes raw)
  unfolding read_entries
  read_entries-IsSound zero bytes raw sound fits = inr (raw, refl, sound)
  read_entries-IsSound (suc chunks) bytes raw sound fits = elim (read_exact-cases 32 bytes) [
    | inl e ↦ inl (rw e refl)
    | inr (n1, e1) ↦
        let key : List ℕ = take 32 bytes in
        let r1 : List ℕ = drop 32 bytes in
        elim (read_exact-cases 4 r1) [
          | inl e ↦ inl (rw (e1, e) refl)
          | inr (n2, e2) ↦
              let size : ℕ = from_le_bytes (take 4 r1) in
              let r2 : List ℕ = drop 4 r1 in
              elim (Bool-cases (ltb 20000000 size)) [
                | inl large ↦ inl (rw (e1, e2, large) refl)
                | inr small ↦ elim (read_exact-cases size r2) [
                  | inl e ↦ inl (rw (e1, e2, small, e) refl)
                  | inr (n3, e3) ↦
                      let (raw', run, sound') =
                        insert_checked-IsSound key (take size r2) raw sound
                          (ground (arith, n3, fits, small)) in
                      subst IsErrOrSound (sym (rw (read_entries, e1, e2, small, e3, run) refl))
                        (read_entries-IsSound chunks (drop size r2) raw' sound' fits)
                ]
              ]
        ]
  ]

  -- Whatever bytes the file holds, if the limit and 20,000,000 fit 64 bits together, loading
  -- gives an error or a cache whose size is counted right and within the limit, in which every
  -- chunk is under its hash and none is pending; it does not panic.
  pub load_from_file-IsSound :
      (cache_file : Option (List ℕ))
      → IsU64 (max_size + 20000000)
      → (load_from_file zstd lib blake3 max_size cache_file ≡ err)
        ⊎ ((inner : ChunkCacheInner lib) × (load_from_file zstd lib blake3 max_size cache_file
              ≡ ok inner)
            × IsSound inner.raw_cache
            × (inner.pending_chunks ≡ [])
            × (inner.needs_saving ≡ false))
  unfolding load_from_file read_chunk_cache new_raw
  load_from_file-IsSound none fits = inr (
    record { raw_cache = new_raw lib max_size; pending_chunks = []; needs_saving = false },
    refl,
    new-IsSound,
    refl,
    refl,
  )
  load_from_file-IsSound (some file) fits = elim (read_exact-cases 4 (zstd.stream file)) [
    | inl e ↦ inl (rw e refl)
    | inr (n1, e1) ↦
        let bytes : List ℕ = zstd.stream file in
        elim (read_entries-IsSound (from_le_bytes (take 4 bytes)) (drop 4 bytes)
          (new_raw lib max_size) new-IsSound fits) [
            | inl e2 ↦ inl (rw (e1, e2) refl)
            | inr (raw, e2, sound) ↦ inr (
              record { raw_cache = raw; pending_chunks = []; needs_saving = false },
              rw (e1, e2) refl,
              sound,
              refl,
              refl,
            )
          ]
  ]
