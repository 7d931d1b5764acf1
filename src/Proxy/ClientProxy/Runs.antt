-- ===== src/Proxy/ClientProxy/Runs.antt =====
-- src/proxy/client_proxy.rs: two blocks requested, of which new data complete one.
use factorio_multiplayer_cac.Common.{
  true, sym, ap, inl, inr, All, ℕ, ◌≡◌, refl, not, false, some, List, [], ◌∷◌, ◌++◌, replicate,
  if◌then◌else◌, arith,
}
use factorio_multiplayer_cac.Common.BtreeSet.{insert}
use factorio_multiplayer_cac.Crates.Bytes.{plain_bytes}
use factorio_multiplayer_cac.Proxy.ClientProxy.{
  ClientProxyState, try_fulfill_block_request, on_new_world_data, on_packet_from_client,
}
use factorio_multiplayer_cac.Proxy.ClientProxy.Requests.{
  IsWaiting, is_there, select, answers, request_packet, on_new_world_data_lem,
  on_packet_from_client-request_packet, try_fulfill_block_request-append,
}
use factorio_multiplayer_cac.Common.HashMap.{get, bytes_eq, bytes_key}
use factorio_multiplayer_cac.Crates.Crc.IsoHdlc.{iso_hdlc}
use factorio_multiplayer_cac.Crates.Content.{length_hash, no_compression}
use factorio_multiplayer_cac.Crates.LinkedMap.{list_map}
use factorio_multiplayer_cac.Crates.Stream.{plain_io}
use factorio_multiplayer_cac.ChunkCache
use factorio_multiplayer_cac.ChunkCache.{ChunkCacheInner, new_raw}
use factorio_multiplayer_cac.ChunkCache.Eviction.{new_raw-IsCache}
use factorio_multiplayer_cac.Dedup.{ok, put_chunks, encode_by_type}
use factorio_multiplayer_cac.Proxy.ClientProxy.Complete.{
  IsRebuildable, IsFitting, IsWhole, transfer_world_data-IsWhole,
}
use factorio_multiplayer_cac.Protocol.{encode_message}
use factorio_multiplayer_cac.Protocol.Messages.{frame}
use factorio_multiplayer_cac.Proxy.ClientProxy.Transfer.{
  Surroundings, chunk_keys, transfer_world_data,
}
use factorio_multiplayer_cac.Proxy.ClientProxy.Exchange.{answered_by}
use factorio_multiplayer_cac.Proxy.ClientProxy.Work.{AreFair}
use factorio_multiplayer_cac.Proxy.ClientProxy.World.{
  IsSetUp, blocks_of, rebuilt_world, transfer_world_data-rebuilt_world,
}
use factorio_multiplayer_cac.Proxy.ClientProxy.Around.{busy, alone, busy-AreFair, alone-AreFair}
use factorio_multiplayer_cac.Proxy.ClientProxy.Sample.{
  key, codes, original, message, carried, announced,
}

abbrev waiting : ClientProxyState
waiting = record {
  world_data = replicate 500 7;
  last_block_request = 10;
  pending_requests = 0 ∷ 1 ∷ [];
  pending_requests_swap = [];
  world_data_done = false;
}

waiting-IsWaiting : IsWaiting waiting
waiting-IsWaiting = record {
  ascending = omega arith;
  not_there = (refl, (refl, tt));
  no_spare = refl;
}

abbrev world_data : List ℕ
world_data = waiting.world_data ++ 1 ∷ 2 ∷ 3 ∷ []

on_new_world_data_lem_example :
    (on_new_world_data plain_bytes 20 waiting (some (1 ∷ 2 ∷ 3 ∷ [])) [] ≡ (
      record waiting {
        world_data = world_data;
        last_block_request = 20;
        pending_requests = select (λ id. not (is_there world_data id)) waiting.pending_requests;
        pending_requests_swap = [];
      },
      [] ++ answers plain_bytes world_data (select (is_there world_data) waiting.pending_requests),
    ))
    × IsWaiting (on_new_world_data plain_bytes 20 waiting (some (1 ∷ 2 ∷ 3 ∷ [])) []).0
on_new_world_data_lem_example =
    on_new_world_data_lem plain_bytes 20 waiting (1 ∷ 2 ∷ 3 ∷ []) [] waiting-IsWaiting

on_packet_from_client-request_packet_example :
    on_packet_from_client plain_bytes 20 waiting (request_packet plain_bytes 4) [] ≡ (
      if is_there waiting.world_data 4
      then (
        record waiting { last_block_request = 20 },
        [] ++ answers plain_bytes waiting.world_data (4 ∷ []),
      )
      else (
        record waiting {
          pending_requests = insert 4 waiting.pending_requests;
          last_block_request = 20;
        },
        [],
      ))
on_packet_from_client-request_packet_example =
    on_packet_from_client-request_packet plain_bytes 20 waiting 4 [] (omega arith)

block_there :
    try_fulfill_block_request (replicate 503 7) 0
    ≡ some (record { block_id = 0; content = replicate 503 7 })
unfolding try_fulfill_block_request
block_there = refl

try_fulfill_block_request-append_example :
    try_fulfill_block_request (replicate 503 7 ++ 1 ∷ 2 ∷ []) 0
    ≡ some (record { block_id = 0; content = replicate 503 7 })
try_fulfill_block_request-append_example =
    try_fulfill_block_request-append (replicate 503 7) (1 ∷ 2 ∷ []) 0
      (record { block_id = 0; content = replicate 503 7 }) block_there

-- A world of one file, into an empty cache.
abbrev empty_cache : ChunkCacheInner list_map
empty_cache = ChunkCache.new list_map 5000

around-IsSetUp :
    (around : Surroundings list_map)
    → AreFair length_hash list_map (key ∷ []) original 5000 around
    → ((written : List ℕ) → around.exchange written ≡ answered_by plain_io codes original written)
    → ((n : ℕ) → around.is_open n ≡ true)
    → IsSetUp plain_bytes iso_hdlc no_compression length_hash list_map original 5000 plain_io codes
        around message empty_cache
unfolding ChunkCache.new new_raw get bytes_eq chunk_keys
around-IsSetUp around fair answered stays_open = record {
  world = λ k m. elim m [
    | inl e ↦ (1 ∷ 2 ∷ [], sym (ap (λ k. get k original) e), e, omega arith)
    | inr m ↦ absurd m
  ];
  fair = fair;
  answered = answered;
  carried = carried;
  stays_open = stays_open;
  honest = record { counted = new_raw-IsCache list_map 5000; limit = refl; originals = tt };
  announced = announced;
}

-- Another task fetches the chunk.
transfer_world_data-rebuilt_world_example :
    (msg_data : List ℕ) × (encode_message codes.zstd codes.world_ready message ≡ ok msg_data)
    × (blocks_of (
          transfer_world_data list_map busy plain_bytes iso_hdlc no_compression length_hash plain_io
            codes empty_cache 0
            (frame plain_io msg_data))
        ≡ rebuilt_world plain_bytes iso_hdlc no_compression message.world message.new_info original)
transfer_world_data-rebuilt_world_example =
    transfer_world_data-rebuilt_world plain_bytes iso_hdlc no_compression length_hash list_map
      original 5000 plain_io codes busy message empty_cache 0
      (around-IsSetUp busy busy-AreFair (λ written. refl) (λ n. refl))

rebuildable : All (IsRebuildable plain_bytes iso_hdlc no_compression original) message.world.files
unfolding put_chunks get bytes_eq encode_by_type
rebuildable = ((1 ∷ 2 ∷ [], refl, (omega arith, tt), omega arith, omega arith), tt)

fitting : IsFitting plain_bytes iso_hdlc no_compression message.world message.new_info
fitting = record {
  size_fits = omega arith;
  aux_fits = omega arith;
  crc_fits = omega arith;
  aux_bytes = (omega arith, (omega arith, tt));
  count_fits = omega arith;
}

-- The chunk comes from the other proxy.
transfer_world_data-IsWhole_example :
    (msg_data : List ℕ) × (encode_message codes.zstd codes.world_ready message ≡ ok msg_data)
    × IsWhole plain_bytes iso_hdlc no_compression message.world message.new_info original (
        blocks_of (
          transfer_world_data list_map alone plain_bytes iso_hdlc no_compression length_hash
            plain_io codes empty_cache 0
            (frame plain_io msg_data)))
transfer_world_data-IsWhole_example =
    transfer_world_data-IsWhole plain_bytes iso_hdlc no_compression length_hash list_map original
      5000 plain_io codes alone message empty_cache 0
      (around-IsSetUp alone alone-AreFair (λ written. refl) (λ n. refl)) rebuildable fitting
