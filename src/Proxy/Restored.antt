-- ===== src/Proxy/Restored.antt =====
-- A world from the server's side to the client's: what the one takes apart, the other puts together.
use factorio_multiplayer_cac.Common.{
  ℕ, ◌+◌, ◌<◌, ◌≤◌, ◌≡◌, ◌⊎◌, refl, sym, ap, true, some, List, [], ◌∷◌, ◌++◌, concat, length, IsU64,
  arith,
}
use mathlib.Core.Path.{subst}
use factorio_multiplayer_cac.Common.HashMap.{bytes_key}
use factorio_multiplayer_cac.Crates.Bytes.{Bytes}
use factorio_multiplayer_cac.Crates.Crc.{Crc}
use factorio_multiplayer_cac.Crates.Content.{Blake3, Miniz, ZipReader}
use factorio_multiplayer_cac.Crates.LinkedMap.{LinkedHashMap}
use factorio_multiplayer_cac.Crates.Stream.{Io}
use factorio_multiplayer_cac.ChunkCache.{ChunkCacheInner}
use factorio_multiplayer_cac.ChunkCache.Honest.{IsHonest}
use factorio_multiplayer_cac.ChunkCache.Waiting.{IsIn}
use factorio_multiplayer_cac.ZipWriter
use factorio_multiplayer_cac.Dedup
use factorio_multiplayer_cac.Dedup.{
  ChunkKey, FactorioWorldDescription, WorldReconstructor, Outcome, ok, err, deconstruct_world,
}
use factorio_multiplayer_cac.Dedup.Chunks.{ChunkMap}
use factorio_multiplayer_cac.Dedup.RoundTrip.{AreFilesChunks, deconstruct_world_lem}
use factorio_multiplayer_cac.Dedup.Seal.{IsDownload, new-Follows}
use factorio_multiplayer_cac.FactorioProtocol.{FactorioWorldMetadata}
use factorio_multiplayer_cac.Protocol.{Codes, WorldReadyMessage, encode_message, read_message}
use factorio_multiplayer_cac.Protocol.Messages.{frame, write_message_lem}
use factorio_multiplayer_cac.Proxy.ServerProxy.{DownloadingWorldState}
use factorio_multiplayer_cac.Proxy.ServerProxy.Transfer as ServerTask
use factorio_multiplayer_cac.Proxy.ServerProxy.Transfer.{collect_world, serve_loop}
use factorio_multiplayer_cac.Proxy.ClientProxy.Transfer as ClientTask
use factorio_multiplayer_cac.Proxy.ClientProxy.Transfer.{Surroundings, chunk_keys}
use factorio_multiplayer_cac.Proxy.ClientProxy.Exchange.{
  answered_by, IsCarried, IsWritten, encode_message_lem,
}
use factorio_multiplayer_cac.Proxy.ClientProxy.Work.{IsWorld, AreFair}
use factorio_multiplayer_cac.Proxy.ClientProxy.Rebuild.{rebuild_all}
use factorio_multiplayer_cac.Proxy.ClientProxy.World.{IsSetUp, blocks_of}
use factorio_multiplayer_cac.Proxy.ClientProxy.Complete.{
  IsFitting, IsWhole, needed_size, transfer_world_data-IsWhole,
}
use factorio_multiplayer_cac.Proxy.Entries.{
  AreFitting, StoresFrom, DescribesFrom-IsHeld, DescribesFrom-IsRebuildable, rebuild_all-StoresFrom,
}

-- The message of the server's side for its download.
abbrev pub message_of : DownloadingWorldState → FactorioWorldDescription → WorldReadyMessage
message_of state desc = record {
  world = desc;
  old_info = state.world_info;
  new_info = state.new_world_info;
}

-- What the client's task relies on in its surroundings: the other side's loop answers with its
-- chunks, the messages are within their limits, the channel stays open, the cache has no chunk of
-- another content under a key of the world, before and while others use it, and chunks that others
-- fetch are in the cache when the task has waited for them.
pub record IsConnected (blake3 : Blake3) (lib : LinkedHashMap) (io : Io) (codes : Codes)
    (around : Surroundings lib) (max_size : ℕ) (cache : ChunkCacheInner lib)
    (message : WorldReadyMessage) (chunks : ChunkMap) : Type 0 where
  pub fair : AreFair blake3 lib (chunk_keys message.world.files) chunks max_size around
  pub answered : (written : List ℕ) → around.exchange written ≡ answered_by io codes chunks written
  pub carried :
      (js : List ChunkKey)
      → length js ≤ 512
      → ((k : ChunkKey) → IsIn k js → IsIn k (chunk_keys message.world.files))
      → IsCarried codes chunks js
  pub stays_open : (n : ℕ) → around.is_open n ≡ true
  pub honest : IsHonest lib (chunk_keys message.world.files) chunks max_size cache.raw_cache
  pub announced : IsWritten codes chunks codes.world_ready message

module _ (io : Io) (codes : Codes) where
  -- The server's task up to the first request.
  server_lem :
      (blake3 : Blake3) (miniz : Miniz) (reader : ZipReader) (state : DownloadingWorldState)
      (world_data aux_data : List ℕ) (desc : FactorioWorldDescription) (chunks : ChunkMap)
      (msg_data : List ℕ)
      → collect_world state ≡ ok (world_data, aux_data)
      → deconstruct_world blake3 miniz reader world_data aux_data ≡ ok (desc, chunks)
      → encode_message codes.zstd codes.world_ready (message_of state desc) ≡ ok msg_data
      → length msg_data ≤ 20000000
      → ServerTask.transfer_world_data io codes blake3 miniz reader state []
        ≡ ok (frame io msg_data)
  unfolding ServerTask.transfer_world_data serve_loop read_message
  server_lem blake3 miniz reader state world_data aux_data desc chunks msg_data collected
        deconstructed encoded small =
      let last : read_message io [] ≡ err = rw (read_message, io.read_u32_le_nil) refl in
      rw
        (
          ServerTask.transfer_world_data,
          collected,
          deconstructed,
          encoded,
          write_message_lem io [] msg_data small,
        )
        (rw (serve_loop, last) refl)

module _ (crc : Crc) (blake3 : Blake3) (IsChunk : List ℕ → Type 0)
    (no_collision : (a b : List ℕ) → IsChunk a → IsChunk b → blake3.hash a ≡ blake3.hash b → a ≡ b)
    (miniz : Miniz) (reader : ZipReader) (archive : reader.Archive) (api : Bytes) where
  -- The blocks store the files of the archive, as the entries of the new archive say. If what they
  -- need fits into the announced size, the outcome is a whole download with them, whose directory
  -- lists these entries, and else it is an error.
  abbrev pub IsRestored : FactorioWorldMetadata → List ℕ → Outcome (List (List ℕ)) → Type 0
  IsRestored info aux_data outcome =
      (self : WorldReconstructor) × (blocks : List (List ℕ)) × StoresFrom blake3 IsChunk
        no_collision miniz reader archive api crc 0 0 blocks self.zip_writer.entries
      × (((info.world_size < needed_size api crc miniz self) × (outcome ≡ err))
          ⊎ ((needed_size api crc miniz self ≤ info.world_size)
              × ((last : List ℕ) × (outcome ≡ ok (blocks ++ last ∷ []))
                  × IsDownload crc self (concat blocks) aux_data info.world_size info.world_crc
                      last)))

  IsWhole-IsRestored :
      (world : FactorioWorldDescription) (info : FactorioWorldMetadata) (chunks : ChunkMap)
      (self' : WorldReconstructor) (new : List (List ℕ)) (outcome : Outcome (List (List ℕ)))
      → rebuild_all api crc miniz (Dedup.new crc) world.files chunks [] ≡ ok (self', new)
      → StoresFrom blake3 IsChunk no_collision miniz reader archive api crc 0 0 new
          self'.zip_writer.entries
      → IsWhole api crc miniz world info chunks outcome
      → IsRestored info world.aux_data outcome
  IsWhole-IsRestored world info chunks self' new outcome run stored
        (self, blocks, run', count, either) =
      let blocks_are : new ≡ blocks = cc (run, run') in
      let self_is : self' ≡ self = cc (run, run') in
      (
        self,
        blocks,
        subst (StoresFrom blake3 IsChunk no_collision miniz reader archive api crc 0 0 blocks)
            (ap (λ (r : WorldReconstructor). r.zip_writer.entries) self_is)
            (subst
              (λ b.
                StoresFrom blake3 IsChunk no_collision miniz reader archive api crc 0 0 b
                  self'.zip_writer.entries)
              blocks_are stored),
        either,
      )

  module _ (lib : LinkedHashMap) (io : Io) (codes : Codes) (around : Surroundings lib)
      (max_size : ℕ) where
    -- Suppose that what was downloaded gives a world and auxiliary data, the world opens as an
    -- archive whose files have names of bytes, and names and encoded contents that fit 16 and 32
    -- bits in length, deconstruct_world takes it apart, no two of the chunks in question share a
    -- hash, their sizes fit 64 bits together with the limit of the cache, the auxiliary data are
    -- of bytes, and the announced size and CRC, the length of the auxiliary data and the number
    -- of files fit. Suppose of the client's side that what comes back on its stream is what the
    -- loop of the server's task answers from these chunks; the cache is counted right, has no key
    -- twice, is within its limit and has no other content under a key of the world, and other
    -- tasks leave it so, also while the task waits; when the task has waited, every chunk of the
    -- world that others were fetching is in the cache; the first message, every batch of at most
    -- 512 keys of the world and its response can be written and are within the size limit; and
    -- the channel for the blocks stays open. Then the server's task, with no request on the
    -- stream, sends one message and returns; and from that message the client's task gives blocks
    -- that store, in order, every file of the archive under its name with its decoded content
    -- encoded again, the last block added making them a world of the announced size whose CRC
    -- with the auxiliary data is the announced one and whose directory lists these files,
    -- followed by the auxiliary data, unless they exceed that size, in which case the outcome is
    -- an error.
    pub transfer_world_data-IsRestored :
        (state : DownloadingWorldState) (world_data aux_data : List ℕ)
        (desc : FactorioWorldDescription) (chunks : ChunkMap) (cache : ChunkCacheInner lib)
        (next_event : ℕ)
        → collect_world state ≡ ok (world_data, aux_data)
        → reader.open_archive world_data ≡ some archive
        → deconstruct_world blake3 miniz reader world_data aux_data ≡ ok (desc, chunks)
        → AreFilesChunks blake3 IsChunk no_collision miniz reader archive
        → AreFitting blake3 IsChunk no_collision miniz reader archive
        → ((c : List ℕ) → IsChunk c → IsU64 (max_size + length c))
        → IsFitting api crc miniz desc state.new_world_info
        → IsConnected blake3 lib io codes around max_size cache (message_of state desc) chunks
        → (msg_data : List ℕ) × (ServerTask.transfer_world_data io codes blake3 miniz reader state
              []
            ≡ ok (frame io msg_data))
          × IsRestored state.new_world_info aux_data (
              blocks_of (
                ClientTask.transfer_world_data lib around api crc miniz blake3 io codes cache
                  next_event
                  (frame io msg_data)))
    unfolding Dedup.new ZipWriter.new
    transfer_world_data-IsRestored state world_data aux_data desc chunks cache next_event collected
          opens deconstructed are fit sized fits connected =
        let message : WorldReadyMessage = message_of state desc in
        let (len, aux_is, from) =
          deconstruct_world_lem blake3 IsChunk no_collision miniz reader archive world_data aux_data
            desc chunks opens are deconstructed in
        let world : IsWorld blake3 lib (chunk_keys desc.files) chunks max_size = λ k m.
          let (c, there, hashed, chunk) =
            DescribesFrom-IsHeld blake3 IsChunk no_collision miniz reader archive 0 desc.files
              chunks k from m in
          (c, there, hashed, sized c chunk) in
        let up : IsSetUp api crc miniz blake3 lib chunks max_size io codes around message cache =
          record {
            world = world;
            fair = connected.fair;
            answered = connected.answered;
            carried = connected.carried;
            stays_open = connected.stays_open;
            honest = connected.honest;
            announced = connected.announced;
          } in
        let (msg_data, encoded, whole) =
          transfer_world_data-IsWhole api crc miniz blake3 lib chunks max_size io codes around
            message cache next_event up
            (DescribesFrom-IsRebuildable blake3 IsChunk no_collision miniz reader archive api crc 0
              desc.files chunks fit from)
            fits in
        let (msg_data', encoded', decoded, small) =
          encode_message_lem codes chunks codes.world_ready message connected.announced in
        let same : msg_data' ≡ msg_data = cc (encoded, encoded') in
        let (self', new, es, run, entries_are, stored) =
          rebuild_all-StoresFrom blake3 IsChunk no_collision miniz reader archive api crc 0
            desc.files chunks (Dedup.new crc) [] fit from (omega (arith, len))
            (new-Follows api crc) in
        let outcome : Outcome (List (List ℕ)) = blocks_of (
          ClientTask.transfer_world_data lib around api crc miniz blake3 io codes cache next_event
            (frame io msg_data)) in
        (
          msg_data,
          server_lem io codes blake3 miniz reader state world_data aux_data desc chunks msg_data
              collected deconstructed encoded (subst (λ m. length m ≤ 20000000) same small),
          subst (λ aux. IsRestored state.new_world_info aux outcome) aux_is
              (IsWhole-IsRestored desc state.new_world_info chunks self' new outcome run
                (subst (StoresFrom blake3 IsChunk no_collision miniz reader archive api crc 0 0 new)
                  (sym entries_are) stored)
                whole),
        )
