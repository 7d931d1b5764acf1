-- ===== src/ChunkCache/Saved.antt =====
-- A cache that is saved is loaded with the same chunks in the same order.
use factorio_multiplayer_cac.Common.{
  ℕ, suc, ◌+◌, ◌≤◌, ◌≡◌, refl, sym, ap, ◌∙◌, true, false, none, some, List, [], ◌∷◌, ◌++◌,
  append_assoc, append-nil, length, All, IsU32, IsU64, arith, le→ltb, if◌then◌else◌, to_le_bytes,
  from_le_bytes-to_le_bytes,
}
use mathlib.Core.Path.{subst}
use factorio_multiplayer_cac.Common.HashMap.{get, bytes_key, bytes_eq_iff}
use factorio_multiplayer_cac.Crates.Codec.{Zstd}
use factorio_multiplayer_cac.Crates.Content.{Blake3}
use factorio_multiplayer_cac.Crates.LinkedMap.{LinkedHashMap}
use factorio_multiplayer_cac.Dedup.{Outcome, ok}
use factorio_multiplayer_cac.ChunkCache.{RawChunkCache, ChunkCacheInner, new_raw, insert_raw}
use factorio_multiplayer_cac.ChunkCache.Eviction.{
  Entries, bytes_in, IsDistinct, IsCache, entries_of, new_raw-IsCache,
}
use factorio_multiplayer_cac.ChunkCache.File.{
  Disk, read_exact, write_chunk_cache, save_entries, try_save, insert_checked, read_entries,
  read_chunk_cache, load_from_file,
}
use factorio_multiplayer_cac.ChunkCache.Written.{
  u32_bytes_lem, read_exact_lem, body, IsStorable, write_entries_lem, get_before, bytes_in-append,
  insert_raw_of_room,
}

module _ (blake3 : Blake3) (lib : LinkedHashMap) (zstd : Zstd) where
  -- One chunk of the file, read back.
  read_entries-cons :
      (chunks : ℕ) (key chunk rest : List ℕ) (self self' : RawChunkCache lib)
      → IsStorable blake3 (key, chunk)
      → insert_raw lib self key chunk ≡ some self'
      → read_entries zstd lib blake3
          (suc chunks)
          ((key ++ (to_le_bytes 4 (length chunk) ++ chunk)) ++ rest)
          self
        ≡ read_entries zstd lib blake3 chunks rest self'
  unfolding read_entries insert_checked
  read_entries-cons chunks key chunk rest self self' (hashed, small) inserted =
      let size : List ℕ = to_le_bytes 4 (length chunk) in
      let key_size : length key ≡ 32 = sym (ap length hashed) ∙ blake3.length_hash chunk in
      let split : (key ++ (size ++ chunk)) ++ rest ≡ key ++ (size ++ (chunk ++ rest)) =
        append_assoc key (size ++ chunk) rest ∙ ap (λ t. key ++ t) (append_assoc size chunk rest) in
      rw
        (
          read_entries,
          ap (read_exact 32) split ∙ read_exact_lem 32 key (size ++ (chunk ++ rest)) key_size,
          read_exact_lem 4 size (chunk ++ rest) refl,
          from_le_bytes-to_le_bytes 4 (length chunk) (omega arith),
          le→ltb 20000000 (length chunk) small,
          read_exact_lem (length chunk) chunk rest refl,
          (bytes_eq_iff (blake3.hash chunk) key).1 hashed,
          inserted,
        )
        refl

  read_entries_lem :
      (before after : Entries) (self : RawChunkCache lib)
      → entries_of lib self ≡ before
      → IsCache lib self
      → IsDistinct (before ++ after)
      → bytes_in (before ++ after) ≤ self.max_size
      → IsU64 (self.max_size + 20000000)
      → All (IsStorable blake3) after
      → (self' : RawChunkCache lib) × (read_entries zstd lib blake3 (length after) (body after) self
          ≡ ok self')
        × (entries_of lib self' ≡ before ++ after)
        × IsCache lib self'
  unfolding read_entries
  read_entries_lem before [] self is counted distinct room fits storable =
      (self, refl, is ∙ sym (append-nil before), counted)
  read_entries_lem before ((key, chunk) ∷ after) self is counted distinct room fits storable =
      let (self1, inserted, is1, counted1, limit1) =
        insert_raw_of_room lib self key chunk counted
          (ap (get key) is ∙ get_before key chunk before after distinct)
          (omega (arith, room, ap bytes_in is, bytes_in-append before ((key, chunk) ∷ after)))
          (omega (arith, fits, storable.0.1)) in
      let snoc : (before ++ (key, chunk) ∷ []) ++ after ≡ before ++ (key, chunk) ∷ after =
        append_assoc before ((key, chunk) ∷ []) after in
      let (self', run, is', counted') =
        read_entries_lem (before ++ (key, chunk) ∷ []) after self1
          (is1 ∙ ap (λ es. es ++ (key, chunk) ∷ []) is) counted1
          (subst IsDistinct (sym snoc) distinct) (omega (arith, room, limit1, ap bytes_in snoc))
          (omega (arith, fits, limit1)) storable.1 in
      (
        self',
        read_entries-cons (length after) key chunk (body after) self self1 storable.0 inserted
            ∙ run,
        is' ∙ snoc,
        counted',
      )

  -- What a cache is asked for, that its file can hold it.
  pub record IsSavable (inner : ChunkCacheInner lib) (max_size : ℕ) : Type 0 where
    pub counted : IsCache lib inner.raw_cache
    pub storable : All (IsStorable blake3) (entries_of lib inner.raw_cache)
    pub count_fits : IsU32 (length (entries_of lib inner.raw_cache))
    pub room : inner.raw_cache.total_size ≤ max_size
    pub limit_fits : IsU64 (max_size + 20000000)
    pub changed : inner.needs_saving ≡ true

  read_chunk_cache-written :
      (inner : ChunkCacheInner lib) (max_size : ℕ)
      → IsSavable inner max_size
      → (bytes : List ℕ) × (raw : RawChunkCache lib) × (write_chunk_cache zstd
            (entries_of lib inner.raw_cache)
          ≡ ok bytes)
        × (read_chunk_cache zstd lib blake3 (new_raw lib max_size) bytes ≡ ok raw)
        × (entries_of lib raw ≡ entries_of lib inner.raw_cache)
        × IsCache lib raw
  unfolding write_chunk_cache read_chunk_cache new_raw
  read_chunk_cache-written inner max_size savable =
      let es : Entries = entries_of lib inner.raw_cache in
      let count : List ℕ = to_le_bytes 4 (length es) in
      let (raw, run, is, counted) =
        read_entries_lem [] es (new_raw lib max_size) lib.entries_new (new_raw-IsCache lib max_size)
          savable.counted.distinct (omega (arith, savable.room, savable.counted.counted))
          savable.limit_fits savable.storable in
      (
        zstd.encode 8 (count ++ body es),
        raw,
        rw
            (
              u32_bytes_lem (length es) savable.count_fits,
              write_entries_lem blake3 es count savable.storable,
            )
            refl,
        rw
            (
              zstd.stream_encode 8 (count ++ body es),
              read_exact_lem 4 count (body es) refl,
              from_le_bytes-to_le_bytes 4 (length es) (omega (arith, savable.count_fits)),
            )
            run,
        is,
        counted,
      )

  save_entries_lem :
      (disk : Disk) (es : Entries) (bytes : List ℕ)
      → write_chunk_cache zstd es ≡ ok bytes
      → save_entries zstd es true true disk
        ≡ (ok tt, record { cache_file = some bytes; temp_file = none })
  unfolding save_entries
  save_entries_lem disk es bytes written = rw (save_entries, written) refl

  -- The save went through, the cache counts as saved, and loading gives the same chunks.
  abbrev pub IsReloaded :
      ChunkCacheInner lib → ℕ → Outcome (Unit {0}) × ChunkCacheInner lib × Disk → Type 0
  IsReloaded inner max_size (outcome, inner', disk') =
      (outcome ≡ ok tt)
      × (inner' ≡ record inner { needs_saving = false })
      × ((loaded : ChunkCacheInner lib) × (load_from_file zstd lib blake3 max_size disk'.cache_file
            ≡ ok loaded)
          × (entries_of lib loaded.raw_cache ≡ entries_of lib inner.raw_cache)
          × (loaded.raw_cache.total_size ≡ inner.raw_cache.total_size)
          × (loaded.pending_chunks ≡ []))

  try_save_lem :
      (inner : ChunkCacheInner lib) (disk : Disk) (bytes : List ℕ)
      → inner.needs_saving ≡ true
      → write_chunk_cache zstd (entries_of lib inner.raw_cache) ≡ ok bytes
      → try_save zstd lib inner true true disk ≡ (
        ok tt,
        record inner { needs_saving = false },
        record { cache_file = some bytes; temp_file = none },
      )
  unfolding try_save
  try_save_lem inner disk bytes changed written =
      let saved : save_entries zstd (entries_of lib inner.raw_cache) true true disk
          ≡ (ok tt, record { cache_file = some bytes; temp_file = none }) =
        save_entries_lem disk (entries_of lib inner.raw_cache) bytes written in
      ap
        (λ b.
          if b
          then (
            (save_entries zstd (entries_of lib inner.raw_cache) true true disk).0,
            record inner { needs_saving = false },
            (save_entries zstd (entries_of lib inner.raw_cache) true true disk).1,
          )
          else (ok tt, inner, disk))
        changed
      ∙ ap (λ r. (r.0, record inner { needs_saving = false }, r.1)) saved

  -- A changed cache that is counted right, whose chunks are under their hashes and of at most
  -- 20,000,000 bytes, whose chunks fit the limit of loading and 32 bits in number, is saved if
  -- the disk allows it, counts as unchanged then, and loading the file gives the same chunks in
  -- the same order and size, with none pending.
  pub load_from_file-try_save :
      (inner : ChunkCacheInner lib) (max_size : ℕ) (disk : Disk)
      → IsSavable inner max_size
      → IsReloaded inner max_size (try_save zstd lib inner true true disk)
  unfolding load_from_file
  load_from_file-try_save inner max_size disk savable =
      let (bytes, raw, written, read, is, counted) =
        read_chunk_cache-written inner max_size savable in
      subst (IsReloaded inner max_size)
        (sym (try_save_lem inner disk bytes savable.changed written))
        (
          refl,
          refl,
          (
            record { raw_cache = raw; pending_chunks = []; needs_saving = false },
            rw read refl,
            is,
            omega (arith, counted.counted, ap bytes_in is, savable.counted.counted),
            refl,
          ),
        )
