-- ===== src/ChunkCache/File.antt =====
-- src/chunk_cache.rs: the file of the cache, written and read.
use factorio_multiplayer_cac.Common.{
  ℕ, zero, suc, Bool, false, Option, none, some, List, [], ◌∷◌, ◌++◌, length, take, drop, ltb, leb,
  if◌then◌else◌, to_le_bytes, from_le_bytes, u32_mod,
}
use factorio_multiplayer_cac.Common.HashMap.{HashMap, bytes_eq}
use factorio_multiplayer_cac.Crates.Codec.{Zstd}
use factorio_multiplayer_cac.Crates.Content.{Blake3}
use factorio_multiplayer_cac.Crates.LinkedMap.{LinkedHashMap}
use factorio_multiplayer_cac.Dedup.{ChunkKey, Outcome, ok, err, panic, ◌>>=◌, or_panic}
use factorio_multiplayer_cac.ChunkCache.{RawChunkCache, ChunkCacheInner, new_raw, insert_raw}

abbrev pub chunk_cache_compression_level : ℕ
chunk_cache_compression_level = 8

abbrev pub chunk_length_limit : ℕ
chunk_length_limit = 20000000

-- `u32::try_from(v).expect(...).to_le_bytes()`.
unfoldable pub u32_bytes : ℕ → Outcome (List ℕ)
u32_bytes v = if ltb v u32_mod then ok (to_le_bytes 4 v) else panic

-- The loop over the entries.
unfoldable pub write_entries : HashMap ChunkKey (List ℕ) → List ℕ → Outcome (List ℕ)
unfolding u32_bytes
write_entries [] written = ok written
write_entries ((key, chunk) ∷ rest) written = do
  size ← u32_bytes (length chunk)
  write_entries rest (written ++ (key ++ (size ++ chunk)))

-- `read_exact` of so many bytes.
unfoldable pub read_exact : ℕ → List ℕ → Outcome (List ℕ × List ℕ)
read_exact n bytes = if leb n (length bytes) then ok (take n bytes, drop n bytes) else err

-- The files of the cache on the disk.
pub record Disk : Type 0 where
  pub cache_file : Option (List ℕ)
  pub temp_file : Option (List ℕ)

module _ (zstd : Zstd) where
  unfoldable pub write_chunk_cache : HashMap ChunkKey (List ℕ) → Outcome (List ℕ)
  unfolding write_entries
  write_chunk_cache cache_entries = do
    count ← u32_bytes (length cache_entries)
    written ← write_entries cache_entries count
    ok (zstd.encode chunk_cache_compression_level written)

  -- The temporary file is written and then takes the place of the other. The Booleans say whether
  -- the disk lets the file be written, and be moved; what a write that fails leaves in the temporary
  -- file is not kept track of.
  unfoldable pub save_entries :
      HashMap ChunkKey (List ℕ) → Bool → Bool → Disk → Outcome (Unit {0}) × Disk
  unfolding write_chunk_cache
  save_entries cache_entries can_write can_move disk = elim (write_chunk_cache cache_entries) [
    | err ↦ (err, disk)
    | panic ↦ (panic, disk)
    | ok bytes ↦
        if can_write
        then if can_move
          then (ok tt, record { cache_file = some bytes; temp_file = none })
          else (err, record disk { temp_file = some bytes })
        else (err, disk)
  ]

  module _ (lib : LinkedHashMap) where
    unfoldable pub try_save :
        ChunkCacheInner lib → Bool → Bool → Disk → Outcome (Unit {0}) × ChunkCacheInner lib × Disk
    unfolding save_entries
    try_save inner can_write can_move disk =
        if inner.needs_saving
        then (let (outcome, disk') =
              save_entries (lib.entries inner.raw_cache.chunks) can_write can_move disk in
            (outcome, record inner { needs_saving = false }, disk'))
        else (ok tt, inner, disk)

    -- The loop of `start_writer`: for each interval, what was done to the cache in it, and what the
    -- disk allows at its end. An outcome that is not well is only logged.
    unfoldable pub start_writer :
        ChunkCacheInner lib
        → List ((ChunkCacheInner lib → ChunkCacheInner lib) × Bool × Bool)
        → Disk
        → ChunkCacheInner lib × Disk
    unfolding try_save
    start_writer inner [] disk = (inner, disk)
    start_writer inner ((others, can_write, can_move) ∷ rest) disk =
        let (outcome, inner', disk') = try_save (others inner) can_write can_move disk in
        start_writer inner' rest disk'

    module _ (blake3 : Blake3) where
      -- A chunk that does not match its hash is passed over.
      unfoldable pub insert_checked :
          ChunkKey → List ℕ → RawChunkCache lib → Outcome (RawChunkCache lib)
      insert_checked chunk_key chunk_data cache =
          if bytes_eq (blake3.hash chunk_data) chunk_key
          then or_panic (insert_raw lib cache chunk_key chunk_data)
          else ok cache

      -- The loop over so many chunks.
      unfoldable pub read_entries : ℕ → List ℕ → RawChunkCache lib → Outcome (RawChunkCache lib)
      unfolding read_exact insert_checked
      read_entries zero bytes cache = ok cache
      read_entries (suc chunks) bytes cache = do
        (chunk_key, r1) ← read_exact 32 bytes
        (u32_buf, r2) ← read_exact 4 r1
        let chunk_length = from_le_bytes u32_buf
        if ltb chunk_length_limit chunk_length then err else (do
          (chunk_data, r3) ← read_exact chunk_length r2
          cache' ← insert_checked chunk_key chunk_data cache
          read_entries chunks r3 cache')

      unfoldable pub read_chunk_cache : RawChunkCache lib → List ℕ → Outcome (RawChunkCache lib)
      unfolding read_entries
      read_chunk_cache cache file = do
        (u32_buf, rest) ← read_exact 4 (zstd.stream file)
        read_entries (from_le_bytes u32_buf) rest cache

      unfoldable pub load_from_file : ℕ → Option (List ℕ) → Outcome (ChunkCacheInner lib)
      unfolding read_chunk_cache new_raw
      load_from_file max_size cache_file = do
        raw_cache ← elim cache_file [
          | none ↦ ok (new_raw lib max_size)
          | some file ↦ read_chunk_cache (new_raw lib max_size) file
        ]
        ok (record { raw_cache = raw_cache; pending_chunks = []; needs_saving = false })
