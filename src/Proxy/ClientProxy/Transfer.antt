-- ===== src/Proxy/ClientProxy/Transfer.antt =====
-- src/proxy/client_proxy.rs: `transfer_world_data`, which rebuilds the world from the cache and
-- from the chunks that it asks the other proxy for.
use factorio_multiplayer_cac.Common.{
  ℕ, zero, suc, Bool, Option, none, some, List, [], ◌∷◌, ◌++◌, length, if◌then◌else◌,
}
use factorio_multiplayer_cac.Common.HashMap.{insert, bytes_eq, bytes_key}
use factorio_multiplayer_cac.Crates.Bytes.{Bytes}
use factorio_multiplayer_cac.Crates.Crc.{Crc}
use factorio_multiplayer_cac.Crates.Content.{Blake3, Miniz}
use factorio_multiplayer_cac.Crates.LinkedMap.{LinkedHashMap}
use factorio_multiplayer_cac.Crates.Stream.{Io}
use factorio_multiplayer_cac.ChunkCache.{
  ChunkCacheInner, Gathered, BatchChunkRequest, fetch, wait, done, gather, collect_waited, fulfill,
  mark_dirty,
}
use factorio_multiplayer_cac.Dedup
use factorio_multiplayer_cac.Dedup.{
  ChunkKey, FactorioFileDescription, FactorioWorldDescription, WorldReconstructor, Outcome, ok, err,
  panic, ◌>>=◌, or_panic, reconstruct_world_file, finalize_world_file,
}
use factorio_multiplayer_cac.Dedup.Chunks.{ChunkMap}
use factorio_multiplayer_cac.Protocol.{
  Codes, WorldReadyMessage, encode_message, decode_message, write_message, read_message,
}

abbrev pub chunk_batch_size : ℕ
chunk_batch_size = 512

-- What the task works on: the chunks still wanted, those at hand, the reconstructor, the blocks
-- given to the state of the proxy, the shared cache, the number of the next semaphore, the events
-- that the task closed, how often the cache was locked, and the bytes on the stream that were not
-- read yet.
pub record TransferState (lib : LinkedHashMap) : Type 0 where
  pub all_chunks : List ChunkKey
  pub local_cache : ChunkMap
  pub world_reconstructor : WorldReconstructor
  pub blocks : List (List ℕ)
  pub cache : ChunkCacheInner lib
  pub next_event : ℕ
  pub closed : List ℕ
  pub locks : ℕ
  pub unread : List ℕ

-- What is around the task: what other tasks do to the cache before each of its locks, and what they do
-- until the events have come for which it waits; whether the channel for the blocks is still open;
-- what comes back for what it writes on the stream; and whether an error of the first message is an
-- `UnexpectedEof`.
pub record Surroundings (lib : LinkedHashMap) : Type 0 where
  pub others : ℕ → ChunkCacheInner lib → ChunkCacheInner lib
  pub waited : ℕ → ChunkCacheInner lib → ChunkCacheInner lib
  pub is_open : ℕ → Bool
  pub exchange : List ℕ → List ℕ
  pub is_eof : Bool

-- The keys of all files in their order.
unfoldable pub chunk_keys : List FactorioFileDescription → List ChunkKey
chunk_keys [] = []
chunk_keys (file ∷ files) = file.content_chunks ++ chunk_keys files

module _ (blake3 : Blake3) where
  -- The loop over the keys of a batch and the chunks of the response together.
  unfoldable pub accept_loop : List ChunkKey → List (List ℕ) → ChunkMap → Outcome ChunkMap
  accept_loop (key ∷ keys) (chunk ∷ chunks) local_cache =
      let rest = accept_loop keys chunks (insert key chunk local_cache) in
      if bytes_eq (blake3.hash chunk) key then rest else err
  accept_loop _ _ local_cache = ok local_cache

module _ (lib : LinkedHashMap) (around : Surroundings lib) where
  unfoldable pub lock : TransferState lib → ChunkCacheInner lib
  lock s = around.others s.locks s.cache

  unfoldable pub send_block : List ℕ → TransferState lib → Outcome (TransferState lib)
  send_block block s =
      if around.is_open (length s.blocks)
      then ok (record s { blocks = s.blocks ++ block ∷ [] })
      else err

  -- The rest of `get_chunks_batched` behind its first lock. A task that waits for the events of
  -- others takes a second lock.
  unfoldable pub after_gather :
      TransferState lib
      → Gathered × List ChunkKey × ChunkMap × ChunkCacheInner lib
      → Outcome (Option BatchChunkRequest × TransferState lib)
  unfolding lock
  after_gather s (gathered, requested, chunk_out, inner) =
      let s' : TransferState lib = record s {
        all_chunks = requested;
        local_cache = chunk_out;
        cache = inner;
        locks = suc s.locks;
      } in
      elim gathered [
        | fetch request ↦ ok (some request, record s' { next_event = suc s.next_event })
        | done ↦ ok (none, s')
        | wait pending_requests ↦ do
          let inner' = around.waited s'.locks s'.cache
          chunk_out' ← or_panic (collect_waited lib inner'.raw_cache pending_requests chunk_out)
          ok (none, record s' { local_cache = chunk_out'; cache = inner'; locks = suc s'.locks })
      ]

  unfoldable pub get_chunks_batched :
      TransferState lib → Outcome (Option BatchChunkRequest × TransferState lib)
  unfolding lock after_gather
  get_chunks_batched s =
      after_gather s (gather lib (lock s) s.next_event s.all_chunks s.local_cache chunk_batch_size)

module _ (lib : LinkedHashMap) (around : Surroundings lib) (blake3 : Blake3) (io : Io)
    (codes : Codes) where
  -- A batch is asked for, its chunks are compared with their hashes, and given to the cache.
  unfoldable pub fetch_batch : BatchChunkRequest → TransferState lib → Outcome (TransferState lib)
  unfolding encode_message decode_message write_message read_message accept_loop lock fulfill
  fetch_batch batch s = do
    request_data ←
        encode_message codes.zstd codes.request_chunks
          (record { requested_chunks = batch.batch_keys })
    written ← write_message io [] request_data
    (response_data, unread) ← read_message io (s.unread ++ around.exchange written)
    response ← decode_message codes.zstd codes.send_chunks response_data
    local_cache ← accept_loop blake3 batch.batch_keys response.chunks s.local_cache
    (inner, closed) ← or_panic (fulfill lib batch response.chunks (lock lib around s) s.closed)
    ok (record s {
      local_cache = local_cache;
      cache = inner;
      closed = closed;
      locks = suc s.locks;
      unread = unread;
    })

  unfoldable pub fetch_round : TransferState lib → Outcome (TransferState lib)
  unfolding get_chunks_batched fetch_batch
  fetch_round s = do
    (batch, s') ← get_chunks_batched lib around s
    elim batch [ none ↦ ok s' | some request ↦ fetch_batch request s' ]

  -- More data for the file that lacks some; with no key left the task panics.
  unfoldable pub fetch_more : TransferState lib → Outcome (TransferState lib)
  unfolding fetch_round
  fetch_more s = elim s.all_chunks [ [] ↦ panic | _ ∷ _ ↦ fetch_round s ]

module _ (lib : LinkedHashMap) (around : Surroundings lib) (api : Bytes) (crc : Crc) (miniz : Miniz)
    (blake3 : Blake3) (io : Io) (codes : Codes) where
  -- The inner loop, for one file. The end of the fuel counts as a panic.
  unfoldable pub rebuild_file :
      ℕ → FactorioFileDescription → TransferState lib → Outcome (TransferState lib)
  unfolding reconstruct_world_file send_block fetch_more
  rebuild_file zero file_desc s = panic
  rebuild_file (suc fuel) file_desc s =
      elim (reconstruct_world_file api crc miniz s.world_reconstructor file_desc s.local_cache) [
        | panic ↦ panic
        | ok (header, file_data, world_reconstructor) ↦ do
          s1 ← send_block lib around header (record s { world_reconstructor = world_reconstructor })
          send_block lib around file_data s1
        | err ↦ do s' ← fetch_more lib around blake3 io codes s; rebuild_file fuel file_desc s'
      ]

  -- The loop over the files. A round of the inner loop takes a key from those wanted.
  unfoldable pub rebuild_files :
      List FactorioFileDescription → TransferState lib → Outcome (TransferState lib)
  unfolding rebuild_file
  rebuild_files [] s = ok s
  rebuild_files (file_desc ∷ rest) s = do
    s' ← rebuild_file (suc (length s.all_chunks)) file_desc s
    rebuild_files rest s'

  -- The task behind the first message.
  unfoldable pub rebuild_world :
      WorldReadyMessage → ChunkCacheInner lib → ℕ → List ℕ → Outcome (TransferState lib)
  unfolding rebuild_files finalize_world_file send_block mark_dirty lock chunk_keys
  rebuild_world world_ready cache next_event unread = do
    let start : TransferState lib = record {
      all_chunks = chunk_keys world_ready.world.files;
      local_cache = [];
      world_reconstructor = Dedup.new crc;
      blocks = [];
      cache = cache;
      next_event = next_event;
      closed = [];
      locks = 0;
      unread = unread;
    }
    s ← rebuild_files world_ready.world.files start
    let s' : TransferState lib = record s {
      cache = mark_dirty lib (lock lib around s);
      locks = suc s.locks;
    }
    last_data ←
        finalize_world_file api crc s.world_reconstructor world_ready.world
          world_ready.new_info.world_size world_ready.new_info.world_crc
    send_block lib around last_data s'

  -- The whole task, with what the other proxy sends first. `ok none` is the end without a world.
  unfoldable pub transfer_world_data :
      ChunkCacheInner lib → ℕ → List ℕ → Outcome (Option (TransferState lib))
  unfolding read_message decode_message rebuild_world
  transfer_world_data cache next_event received = elim (read_message io received) [
    | err ↦ if around.is_eof then ok none else err
    | panic ↦ panic
    | ok (world_ready_message_data, unread) ↦ do
      world_ready ← decode_message codes.zstd codes.world_ready world_ready_message_data
      s ← rebuild_world world_ready cache next_event unread
      ok (some s)
  ]
