-- ===== src/ChunkCache.antt =====
-- src/chunk_cache.rs: the cache of chunks, by bytes, and the requests that wait for a chunk.
pub mod Eviction
pub mod Lookup
pub mod Waiting
pub mod Batches
pub mod Progress
pub mod Honest
pub mod File
pub mod Written
pub mod Saved
pub mod Damaged
mod Runs
use factorio_multiplayer_cac.Common.{
  ℕ, zero, suc, ◌+◌, ◌-◌, ◌%◌, Bool, true, false, ◌&&◌, not, Option, none, some, List, [], ◌∷◌,
  ◌++◌, length, ltb, ◌==◌, if◌then◌else◌, u64_mod, ◌>>=◌,
}
use factorio_multiplayer_cac.Common.HashMap.{HashMap, get, insert, remove, contains_key, bytes_key}
use factorio_multiplayer_cac.Crates.LinkedMap.{LinkedHashMap}
use factorio_multiplayer_cac.Dedup.{ChunkKey}

pub record RawChunkCache (lib : LinkedHashMap) : Type 0 where
  pub chunks : lib.Map
  pub total_size : ℕ
  pub max_size : ℕ

-- `total_size -= len`, as it wraps.
abbrev pub minus_u64 : ℕ → ℕ → ℕ
minus_u64 a b = (a + u64_mod - b) % u64_mod

unfoldable pub size_without : Option (List ℕ) → ℕ → ℕ
size_without none total_size = total_size
size_without (some old_chunk) total_size = minus_u64 total_size (length old_chunk)

module _ (lib : LinkedHashMap) where
  unfoldable pub new_raw : ℕ → RawChunkCache lib
  new_raw max_size = record { chunks = lib.new; total_size = 0; max_size = max_size }

  -- The loop that evicts from the front. `none` is the panic of `unwrap` on an empty map, and the
  -- end of the fuel.
  unfoldable pub evict : ℕ → RawChunkCache lib → Option (RawChunkCache lib)
  evict zero self = none
  evict (suc fuel) self = elim (ltb self.max_size self.total_size) [
    | false ↦ some self
    | true ↦ do
      ((key, evicted_chunk), chunks) ← lib.pop_front self.chunks
      evict fuel (record self {
        chunks = chunks;
        total_size = minus_u64 self.total_size (length evicted_chunk);
      })
  ]

  -- One round more than the map has entries is fuel enough.
  unfoldable pub insert_raw : RawChunkCache lib → ChunkKey → List ℕ → Option (RawChunkCache lib)
  unfolding evict size_without
  insert_raw self key chunk =
      let added_size = (self.total_size + length chunk) % u64_mod in
      let (old_chunk, chunks) = lib.insert key chunk self.chunks in
      evict (suc (length (lib.entries chunks)))
        (record self { chunks = chunks; total_size = size_without old_chunk added_size })

  unfoldable pub get_raw : RawChunkCache lib → ChunkKey → Option (List ℕ)
  get_raw self key = lib.lookup key self.chunks

-- An event, the semaphore that wakes the waiting tasks, is known by its number.
pub record BatchChunkRequest : Type 0 where
  pub event : ℕ
  pub batch_keys : List ChunkKey

pub record ChunkCacheInner (lib : LinkedHashMap) : Type 0 where
  pub raw_cache : RawChunkCache lib
  pub pending_chunks : HashMap ChunkKey ℕ
  pub needs_saving : Bool

-- How the part of `get_chunks_batched` under the first lock ends: with a batch to fetch, with
-- chunks to wait for, or with neither.
pub data Gathered : Type 0 where
  fetch : BatchChunkRequest → Gathered
  wait : HashMap ChunkKey ℕ → Gathered
  done : Gathered

-- What the first `retain` builds.
pub record Batching : Type 0 where
  pub chunk_out : HashMap ChunkKey (List ℕ)
  pub batch : List ChunkKey
  pub batch_set : HashMap ChunkKey (Unit {0})

-- The second `retain`: the keys that stay, and the events to wait for.
unfoldable pub second_pass : HashMap ChunkKey ℕ → List ChunkKey → List ChunkKey × HashMap ChunkKey ℕ
second_pass pending [] = ([], [])
second_pass pending (key ∷ rest) =
    let (retained, requests) = second_pass pending rest in
    elim (get key pending) [
      | none ↦ (key ∷ retained, requests)
      | some event ↦ (retained, (key, event) ∷ requests)
    ]

unfoldable pub mark_pending : ℕ → List ChunkKey → HashMap ChunkKey ℕ → HashMap ChunkKey ℕ
mark_pending event [] pending = pending
mark_pending event (key ∷ rest) pending = mark_pending event rest (insert key event pending)

module _ (lib : LinkedHashMap) where
  unfoldable pub new : ℕ → ChunkCacheInner lib
  unfolding new_raw
  new max_size = record {
    raw_cache = new_raw lib max_size;
    pending_chunks = [];
    needs_saving = false;
  }

  -- Whether a key that is not in the cache goes into the batch.
  unfoldable pub is_wanted : ChunkCacheInner lib → ℕ → ChunkKey → Batching → Bool
  is_wanted inner batch_size key b =
      not (contains_key key inner.pending_chunks)
      && ltb (length b.batch) batch_size
      && not (contains_key key b.batch_set)

  -- The first `retain`: the keys that stay, and what it builds.
  unfoldable pub first_pass :
      ChunkCacheInner lib → ℕ → List ChunkKey → Batching → List ChunkKey × Batching
  unfolding get_raw is_wanted
  first_pass inner batch_size [] b = ([], b)
  first_pass inner batch_size (key ∷ rest) b = elim (get_raw lib inner.raw_cache key) [
    | some chunk ↦
        first_pass inner batch_size rest (record b { chunk_out = insert key chunk b.chunk_out })
    | none ↦ elim (is_wanted inner batch_size key b) [
      | true ↦
          first_pass inner batch_size rest
            (record b { batch = b.batch ++ key ∷ []; batch_set = insert key tt b.batch_set })
      | false ↦ let (retained, b') = first_pass inner batch_size rest b in (key ∷ retained, b')
    ]
  ]

  -- After the first pass: a batch is marked as pending under the new event, else the second pass
  -- collects what others fetch.
  unfoldable pub after_first_pass :
      ChunkCacheInner lib
      → ℕ
      → List ChunkKey × Batching
      → Gathered × List ChunkKey × HashMap ChunkKey (List ℕ) × ChunkCacheInner lib
  unfolding mark_pending second_pass
  after_first_pass inner event (requested, b) = elim b.batch [
    | [] ↦
        let (requested', pending_requests) = second_pass inner.pending_chunks requested in
        elim pending_requests [
          | [] ↦ (done, requested', b.chunk_out, inner)
          | p ∷ ps ↦ (wait (p ∷ ps), requested', b.chunk_out, inner)
        ]
    | _ ∷ _ ↦ (
      fetch (record { event = event; batch_keys = b.batch }),
      requested,
      b.chunk_out,
      record inner { pending_chunks = mark_pending event b.batch inner.pending_chunks },
    )
  ]

  -- `get_chunks_batched` under its first lock, where `event` is the semaphore that it may create.
  unfoldable pub gather :
      ChunkCacheInner lib
      → ℕ
      → List ChunkKey
      → HashMap ChunkKey (List ℕ)
      → ℕ
      → Gathered × List ChunkKey × HashMap ChunkKey (List ℕ) × ChunkCacheInner lib
  unfolding first_pass after_first_pass
  gather inner event requested chunk_out batch_size = after_first_pass inner event (
      first_pass inner batch_size requested
        (record { chunk_out = chunk_out; batch = []; batch_set = [] }))

  -- `get_chunks_batched` under its second lock, when all the events have come. `none` is the panic
  -- of `expect`.
  unfoldable pub collect_waited :
      RawChunkCache lib
      → HashMap ChunkKey ℕ
      → HashMap ChunkKey (List ℕ)
      → Option (HashMap ChunkKey (List ℕ))
  unfolding get_raw
  collect_waited raw_cache [] chunk_out = some chunk_out
  collect_waited raw_cache ((key, event) ∷ rest) chunk_out = do
    chunk ← get_raw lib raw_cache key
    collect_waited raw_cache rest (insert key chunk chunk_out)

  -- The loop of `fulfill`, over the keys and the chunks together.
  unfoldable pub fulfill_loop :
      List ChunkKey → List (List ℕ) → ChunkCacheInner lib → Option (ChunkCacheInner lib)
  unfolding insert_raw
  fulfill_loop (key ∷ keys) (chunk ∷ chunks) inner = do
    raw_cache ← insert_raw lib inner.raw_cache key chunk
    fulfill_loop keys chunks
        (record inner { raw_cache = raw_cache; pending_chunks = remove key inner.pending_chunks })
  fulfill_loop _ _ inner = some inner

  -- `none` is the panic of the assertion, or of the cache. The last argument is the list of the events
  -- that are closed, of which the event of the batch becomes one.
  unfoldable pub fulfill :
      BatchChunkRequest
      → List (List ℕ)
      → ChunkCacheInner lib
      → List ℕ
      → Option (ChunkCacheInner lib × List ℕ)
  unfolding fulfill_loop
  fulfill self chunks inner closed =
      if length self.batch_keys == length chunks
      then (do
        inner' ← fulfill_loop self.batch_keys chunks inner
        some (inner', self.event ∷ closed))
      else none

  unfoldable pub mark_dirty : ChunkCacheInner lib → ChunkCacheInner lib
  mark_dirty inner = record inner { needs_saving = true }
