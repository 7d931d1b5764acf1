-- ===== src/Proxy/ClientProxy/World.antt =====
-- The client's task from the first message on: it gives the blocks that a reference gives, which
-- rebuilds the world straight from the chunks of the other proxy.
use factorio_multiplayer_cac.Common.{
  ℕ, ◌≤◌, ◌≡◌, refl, sym, ap, ◌∙◌, true, Option, none, some, List, [], ◌∷◌, ◌++◌, append-nil,
  length, inl, inr,
}
use factorio_multiplayer_cac.Common.HashMap.{get, bytes_key}
use factorio_multiplayer_cac.Crates.Bytes.{Bytes}
use factorio_multiplayer_cac.Crates.Crc.{Crc}
use factorio_multiplayer_cac.Crates.Content.{Blake3, Miniz}
use factorio_multiplayer_cac.Crates.LinkedMap.{LinkedHashMap}
use factorio_multiplayer_cac.Crates.Stream.{Io}
use factorio_multiplayer_cac.ChunkCache.{ChunkCacheInner}
use factorio_multiplayer_cac.ChunkCache.Waiting.{IsIn}
use factorio_multiplayer_cac.ChunkCache.Honest.{IsHonest}
use factorio_multiplayer_cac.Dedup
use factorio_multiplayer_cac.Dedup.{
  ChunkKey, FactorioWorldDescription, WorldReconstructor, Outcome, ok, err, panic, ◌>>=◌,
  finalize_world_file,
}
use factorio_multiplayer_cac.Dedup.Chunks.{ChunkMap}
use factorio_multiplayer_cac.Dedup.Rebuild.{Outcome-cases}
use factorio_multiplayer_cac.FactorioProtocol.{FactorioWorldMetadata}
use factorio_multiplayer_cac.Protocol.{Codes, WorldReadyMessage, encode_message, read_message}
use factorio_multiplayer_cac.Protocol.Messages.{frame, read_message_lem}
use factorio_multiplayer_cac.Proxy.ClientProxy.Transfer.{
  TransferState, Surroundings, chunk_keys, send_block, rebuild_world, transfer_world_data,
}
use factorio_multiplayer_cac.Proxy.ClientProxy.Exchange.{
  answered_by, IsCarried, IsWritten, encode_message_lem,
}
use factorio_multiplayer_cac.Proxy.ClientProxy.Work.{IsWorld, IsAtWork, AreFair}
use factorio_multiplayer_cac.Proxy.ClientProxy.Rebuild.{rebuild_all, rebuild_files_lem}

-- The blocks that a task gave.
abbrev pub blocks_of :
    {lib : LinkedHashMap} → Outcome (Option (TransferState lib)) → Outcome (List (List ℕ))
blocks_of (ok (some s)) = ok s.blocks
blocks_of (ok none) = ok []
blocks_of err = err
blocks_of panic = panic

module _ (api : Bytes) (crc : Crc) (miniz : Miniz) where
  -- The blocks of a world whose chunks are all at hand.
  abbrev pub rebuilt_world :
      FactorioWorldDescription → FactorioWorldMetadata → ChunkMap → Outcome (List (List ℕ))
  rebuilt_world world info chunks = do
    (self, blocks) ← rebuild_all api crc miniz (Dedup.new crc) world.files chunks []
    last_data ← finalize_world_file api crc self world info.world_size info.world_crc
    ok (blocks ++ last_data ∷ [])

module _ (api : Bytes) (crc : Crc) (miniz : Miniz) (blake3 : Blake3) (lib : LinkedHashMap)
    (original : ChunkMap) (max_size : ℕ) (io : Io) (codes : Codes) (around : Surroundings lib)
    (message : WorldReadyMessage) where
  abbrev keys : List ChunkKey
  keys = chunk_keys message.world.files

  -- What the task relies on: the other proxy has the chunks, the cache is honest and stays so, what
  -- others fetch is in the cache when the task has waited for it, the other proxy's loop answers, the
  -- messages can be written, and the channel stays open.
  pub record IsSetUp (cache : ChunkCacheInner lib) : Type 0 where
    pub world : IsWorld blake3 lib keys original max_size
    pub fair : AreFair blake3 lib keys original max_size around
    pub answered :
        (written : List ℕ) → around.exchange written ≡ answered_by io codes original written
    pub carried :
        (js : List ChunkKey)
        → length js ≤ 512
        → ((k : ChunkKey) → IsIn k js → IsIn k keys)
        → IsCarried codes original js
    pub stays_open : (n : ℕ) → around.is_open n ≡ true
    pub honest : IsHonest lib keys original max_size cache.raw_cache
    pub announced : IsWritten codes original codes.world_ready message

  rebuild_world_lem :
      (cache : ChunkCacheInner lib) (next_event : ℕ)
      → IsSetUp cache
      → blocks_of (
          rebuild_world lib around api crc miniz blake3 io codes message cache next_event []
          >>= λ s. ok (some s))
        ≡ rebuilt_world api crc miniz message.world message.new_info original
  unfolding rebuild_world send_block get
  rebuild_world_lem cache next_event up =
      let start : TransferState lib = record {
        all_chunks = keys;
        local_cache = [];
        world_reconstructor = Dedup.new crc;
        blocks = [];
        cache = cache;
        next_event = next_event;
        closed = [];
        locks = 0;
        unread = [];
      } in
      let work : IsAtWork blake3 lib keys original max_size start = record {
        covered = λ k m. inl m;
        requested = λ k m. m;
        agrees = λ k c m h. cc;
        honest = up.honest;
        all_read = refl;
      } in
      elim (rebuild_files_lem api crc miniz blake3 lib keys original max_size io codes around
        up.world up.fair up.answered up.carried up.stays_open message.world.files start (λ k m. m)
        work) [
          | inl (e, run) ↦ rw (rebuild_world, run, e) refl
          | inr (s, e, run, work') ↦
              elim (Outcome-cases (
                finalize_world_file api crc s.world_reconstructor message.world
                  message.new_info.world_size message.new_info.world_crc)) [
                    | inl f ↦ rw (rebuild_world, run, e, f) refl
                    | inr (inl f) ↦ rw (rebuild_world, run, e, f) refl
                    | inr (inr (last_data, f)) ↦
                        rw (rebuild_world, run, e, f, up.stays_open (length s.blocks)) refl
                  ]
        ]

  -- Suppose that the other proxy answers as its loop does and has, for every key of the world, a
  -- chunk with that hash whose size fits 64 bits together with the limit of the cache; the cache
  -- is counted right, has no key twice, is within its limit and has no other content under a key
  -- of the world, and other tasks leave it so, also while the task waits; when the task has
  -- waited, every chunk of the world that others were fetching is in the cache; the first
  -- message, every batch of at most 512 keys of the world and its response can be written and are
  -- within the size limit; and the channel for the blocks stays open. Then the client task gives,
  -- after the first message, the blocks, the error or the panic that a reconstructor gives which
  -- has all chunks of the other proxy at hand from the start.
  pub transfer_world_data-rebuilt_world :
      (cache : ChunkCacheInner lib) (next_event : ℕ)
      → IsSetUp cache
      → (msg_data : List ℕ) × (encode_message codes.zstd codes.world_ready message ≡ ok msg_data)
        × (blocks_of (
              transfer_world_data lib around api crc miniz blake3 io codes cache next_event
                (frame io msg_data))
            ≡ rebuilt_world api crc miniz message.world message.new_info original)
  unfolding transfer_world_data
  transfer_world_data-rebuilt_world cache next_event up =
      let (msg_data, encoded, decoded, small) =
        encode_message_lem codes original codes.world_ready message up.announced in
      let received : read_message io (frame io msg_data) ≡ ok (msg_data, []) =
        ap (read_message io) (sym (append-nil (frame io msg_data)))
        ∙ read_message_lem io msg_data [] small in
      (
        msg_data,
        encoded,
        rw (transfer_world_data, received, decoded) (rebuild_world_lem cache next_event up),
      )
