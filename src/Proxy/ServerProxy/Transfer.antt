-- ===== src/Proxy/ServerProxy/Transfer.antt =====
-- src/proxy/server_proxy.rs: `transfer_world_data`, from the received blocks to the chunks that are
-- sent on request.
use factorio_multiplayer_cac.Common.{
  ℕ, zero, suc, ◌+◌, ◌-◌, ◌*◌, ◌%◌, ◌&&◌, List, [], ◌∷◌, map, concat, length, take, drop, ltb, leb,
  if◌then◌else◌, u32_mod,
}
use factorio_multiplayer_cac.Common.HashMap.{get, bytes_key}
use factorio_multiplayer_cac.Crates.Content.{Blake3, Miniz, ZipReader}
use factorio_multiplayer_cac.Crates.Stream.{Io}
use factorio_multiplayer_cac.Dedup.{
  ChunkKey, Outcome, ok, err, panic, ◌>>=◌, or_panic, deconstruct_world,
}
use factorio_multiplayer_cac.Dedup.Chunks.{ChunkMap}
use factorio_multiplayer_cac.FactorioProtocol.{TransferBlockPacket, transfer_block_size}
use factorio_multiplayer_cac.Protocol.{
  Codes, encode_message, decode_message, write_message, read_message,
}
use factorio_multiplayer_cac.Proxy.ServerProxy.{DownloadingWorldState}

-- `sort_by_key`, which is stable, by the number of the block.
unfoldable pub insert_block :
    TransferBlockPacket → List TransferBlockPacket → List TransferBlockPacket
insert_block block [] = block ∷ []
insert_block block (other ∷ blocks) =
    let rest = insert_block block blocks in
    if leb block.block_id other.block_id then block ∷ other ∷ blocks else other ∷ rest

unfoldable pub sort_blocks : List TransferBlockPacket → List TransferBlockPacket
unfolding insert_block
sort_blocks [] = []
sort_blocks (block ∷ blocks) = insert_block block (sort_blocks blocks)

-- The loop that puts the blocks behind each other.
unfoldable pub received_data_of : List TransferBlockPacket → List ℕ
unfolding sort_blocks
received_data_of blocks = concat (map (λ (b : TransferBlockPacket). b.content) (sort_blocks blocks))

-- `Bytes::slice`, which panics out of range.
unfoldable pub slice : List ℕ → ℕ → ℕ → Outcome (List ℕ)
slice bytes from to =
    if leb from to && leb to (length bytes) then ok (take (to - from) (drop from bytes)) else panic

-- The world and the auxiliary data; offsets are in 32 bits.
unfoldable pub collect_world : DownloadingWorldState → Outcome (List ℕ × List ℕ)
unfolding received_data_of slice
collect_world state =
    let received_data = received_data_of state.received_blocks in
    let aux_data_offset = state.world_block_count * transfer_block_size % u32_mod in
    if ltb (length received_data) (aux_data_offset + state.world_info.aux_size) then err else (do
      world_data ← slice received_data 0 state.world_info.world_size
      aux_data ←
          slice received_data aux_data_offset
            ((aux_data_offset + state.world_info.aux_size) % u32_mod)
      ok (world_data, aux_data))

-- The requested chunks, with a panic for one that is not there.
unfoldable pub find_chunks : List ChunkKey → ChunkMap → Outcome (List (List ℕ))
find_chunks [] chunks = ok []
find_chunks (key ∷ keys) chunks = do
  chunk ← or_panic (get key chunks)
  rest ← find_chunks keys chunks
  ok (chunk ∷ rest)

module _ (io : Io) (codes : Codes) where
  unfoldable pub respond : ChunkMap → List ℕ → Outcome (List ℕ)
  unfolding encode_message decode_message find_chunks
  respond chunks request_data = do
    request ← decode_message codes.zstd codes.request_chunks request_data
    found ← find_chunks request.requested_chunks chunks
    encode_message codes.zstd codes.send_chunks (record { chunks = found })

  -- The loop over the requests on the stream, which ends when none can be read, with what was sent
  -- so far. The end of the fuel counts as a panic.
  unfoldable pub serve_loop : ℕ → ChunkMap → List ℕ → List ℕ → Outcome (List ℕ)
  unfolding respond read_message write_message
  serve_loop zero chunks received sent = panic
  serve_loop (suc fuel) chunks received sent = elim (read_message io received) [
    | err ↦ ok sent
    | panic ↦ panic
    | ok (request_data, rest) ↦ do
      response_data ← respond chunks request_data
      sent' ← write_message io sent response_data
      serve_loop fuel chunks rest sent'
  ]

  -- The task, with what the client sends on the stream; a message takes four bytes at least.
  unfoldable pub transfer_world_data :
      Blake3 → Miniz → ZipReader → DownloadingWorldState → List ℕ → Outcome (List ℕ)
  unfolding collect_world serve_loop encode_message write_message
  transfer_world_data blake3 miniz reader state received = do
    (world_data, aux_data) ← collect_world state
    (world_description, chunks) ← deconstruct_world blake3 miniz reader world_data aux_data
    world_ready_message ← encode_message codes.zstd codes.world_ready (record {
      world = world_description;
      old_info = state.world_info;
      new_info = state.new_world_info;
    })
    sent ← write_message io [] world_ready_message
    serve_loop (suc (length received)) chunks received sent
