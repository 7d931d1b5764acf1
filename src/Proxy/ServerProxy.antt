-- ===== src/Proxy/ServerProxy.antt =====
-- src/proxy/server_proxy.rs: the download of the world from the game's server, block by block.
pub mod Tracking
pub mod Download
pub mod Phases
pub mod Filter
pub mod Ongoing
pub mod Loop
pub mod Reactions
pub mod Session
pub mod Transfer
pub mod Sorting
pub mod Assemble
pub mod Route
pub mod Routed
mod RouteRuns
mod Runs
use factorio_multiplayer_cac.Common.{
  ℕ, zero, suc, ◌+◌, ◌-◌, ◌*◌, ◌/◌, ◌%◌, Bool, true, false, ◌&&◌, Option, none, some, List, [], ◌∷◌,
  ◌++◌, map, length, ltb, if◌then◌else◌, u32_mod,
}
use factorio_multiplayer_cac.Common.BtreeSet.{BtreeSet, insert, remove, contains}
use factorio_multiplayer_cac.Crates.Bytes.{Bytes}
use factorio_multiplayer_cac.FactorioProtocol.{
  PacketType, transfer_block_request, transfer_block, decode_header, decode_block,
  FactorioWorldMetadata, TransferBlockPacket, transfer_block_size, encode_full_packet,
  encode_block_request,
}
use factorio_multiplayer_cac.Proxy.{PacketDirection, to_server, OutPackets}

abbrev pub inflight_block_request_limit : ℕ
inflight_block_request_limit = 16

-- Times are in milliseconds; the time at which the download began is for the log alone.
pub record DownloadingWorldState : Type 0 where
  pub world_info : FactorioWorldMetadata
  pub new_world_info : FactorioWorldMetadata
  pub world_block_count : ℕ
  pub received_blocks : List TransferBlockPacket
  pub block_request_queue : BtreeSet
  pub inflight_block_requests : BtreeSet
  pub last_block_time : ℕ

-- The numbers from `i` on, `n` of them.
unfoldable pub range : ℕ → ℕ → BtreeSet
range i zero = []
range i (suc n) = i ∷ range (suc i) n

-- The blocks that so many bytes take, in 32 bits.
unfoldable pub block_count : ℕ → ℕ
block_count size = (size + transfer_block_size + u32_mod - 1) % u32_mod / transfer_block_size

unfoldable pub total_block_count : FactorioWorldMetadata → ℕ
unfolding block_count
total_block_count world_info =
    (block_count world_info.world_size + block_count world_info.aux_size) % u32_mod

-- The world size that is announced to the client is twice the real one.
unfoldable pub announce : FactorioWorldMetadata → FactorioWorldMetadata
announce world_info = record world_info { world_size = world_info.world_size * 2 % u32_mod }

-- The state of a download before the first request.
unfoldable pub start_download : ℕ → FactorioWorldMetadata → DownloadingWorldState
unfolding range block_count total_block_count announce
start_download now world_info = record {
  world_info = world_info;
  new_world_info = announce world_info;
  world_block_count = block_count world_info.world_size;
  received_blocks = [];
  block_request_queue = range 0 (total_block_count world_info);
  inflight_block_requests = [];
  last_block_time = now;
}

-- A block that was asked for, or is queued, is taken.
unfoldable pub take_block : ℕ → DownloadingWorldState → TransferBlockPacket → DownloadingWorldState
take_block now state received =
    let id = received.block_id in
    if contains id state.inflight_block_requests
    then record state {
      inflight_block_requests = remove id state.inflight_block_requests;
      received_blocks = state.received_blocks ++ received ∷ [];
      last_block_time = now;
    }
    else if contains id state.block_request_queue
    then record state {
      block_request_queue = remove id state.block_request_queue;
      received_blocks = state.received_blocks ++ received ∷ [];
      last_block_time = now;
    }
    else state

unfoldable pub is_complete : DownloadingWorldState → Bool
is_complete state = elim state.block_request_queue [
  | [] ↦ elim state.inflight_block_requests [ [] ↦ true | _ ∷ _ ↦ false ]
  | _ ∷ _ ↦ false
]

module _ (api : Bytes) where
  unfoldable pub request_for : ℕ → List ℕ × PacketDirection
  request_for block_id = (
    encode_full_packet api transfer_block_request
        (encode_block_request api (record { block_id = block_id })),
    to_server,
  )

  -- The loop of `request_next_blocks`, over the queue.
  unfoldable pub request_loop : BtreeSet → BtreeSet → OutPackets → BtreeSet × BtreeSet × OutPackets
  unfolding request_for
  request_loop [] inflight out_packets = ([], inflight, out_packets)
  request_loop (block_id ∷ rest) inflight out_packets =
      elim (ltb (length inflight) inflight_block_request_limit) [
        | true ↦
            request_loop rest (insert block_id inflight) (out_packets ++ request_for block_id ∷ [])
        | false ↦ (block_id ∷ rest, inflight, out_packets)
      ]

  unfoldable pub request_next_blocks :
      DownloadingWorldState → OutPackets → DownloadingWorldState × OutPackets
  unfolding request_loop
  request_next_blocks state out_packets =
      let (queue, inflight, out_packets') =
        request_loop state.block_request_queue state.inflight_block_requests out_packets in
      (
        record state { block_request_queue = queue; inflight_block_requests = inflight },
        out_packets',
      )

  -- A block of the world arrives; the Boolean says that the state goes to `finalize_world`.
  unfoldable pub on_transfer_block :
      ℕ
      → DownloadingWorldState
      → TransferBlockPacket
      → OutPackets
      → Bool × DownloadingWorldState × OutPackets
  unfolding take_block is_complete request_next_blocks
  on_transfer_block now state received out_packets =
      let state' = take_block now state received in
      let (next, out_packets') = request_next_blocks state' out_packets in
      if is_complete state' then (true, state', out_packets) else (false, next, out_packets')

  -- Another packet arrives: after 100 milliseconds without a block the requests are sent again.
  unfoldable pub on_other_packet :
      ℕ → DownloadingWorldState → OutPackets → DownloadingWorldState × OutPackets
  unfolding request_next_blocks request_for
  on_other_packet now state out_packets =
      if ltb 100 (now - state.last_block_time)
      then (let again = out_packets ++ map request_for state.inflight_block_requests in
          let (state', out_packets') = request_next_blocks state again in
          (record state' { last_block_time = now }, out_packets'))
      else (state, out_packets)

-- What a packet of the server is to a download, with the time: a block of the world, a block that
-- cannot be decoded, or anything else.
pub data Arrival : Type 0 where
  block_arrives : ℕ → TransferBlockPacket → Arrival
  broken_arrives : Arrival
  other_arrives : ℕ → Arrival

unfoldable pub is_transfer_block : PacketType → Bool
is_transfer_block transfer_block = true
is_transfer_block _ = false

module _ (api : Bytes) where
  unfoldable pub arrival_of : ℕ → List ℕ → Arrival
  unfolding is_transfer_block
  arrival_of now packet_data = elim (decode_header api packet_data) [
    | none ↦ other_arrives now
    | some (header, msg_data) ↦ elim (is_transfer_block header.packet_type) [
      | false ↦ other_arrives now
      | true ↦ elim (decode_block api msg_data) [
        | none ↦ broken_arrives
        | some received ↦ block_arrives now received
      ]
    ]
  ]

  unfoldable pub arrive :
      DownloadingWorldState → Arrival → OutPackets → Bool × DownloadingWorldState × OutPackets
  unfolding on_transfer_block on_other_packet
  arrive state (block_arrives now received) out_packets =
      on_transfer_block api now state received out_packets
  arrive state broken_arrives out_packets = (false, state, out_packets)
  arrive state (other_arrives now) out_packets =
      let (state', out_packets') = on_other_packet api now state out_packets in
      (false, state', out_packets')

  -- The packets of the server, each with the time, until the world is complete.
  unfoldable pub download :
      DownloadingWorldState
      → List (ℕ × List ℕ)
      → OutPackets
      → Bool × DownloadingWorldState × OutPackets
  unfolding arrive arrival_of
  download state [] out_packets = (false, state, out_packets)
  download state ((now, packet_data) ∷ rest) out_packets =
      let (complete, state', out_packets') =
        arrive state (arrival_of now packet_data) out_packets in
      elim complete [
        | true ↦ (true, state', out_packets')
        | false ↦ download state' rest out_packets'
      ]
