-- ===== src/Proxy/ServerProxy/Runs.antt =====
-- src/proxy/server_proxy.rs: a world of three blocks, which arrive in another order.
use factorio_multiplayer_cac.Common.{
  Bool, length, ◌≤◌, All, zeros, ◌++◌, ℕ, ◌≡◌, refl, true, List, [], ◌∷◌, arith,
}
use factorio_multiplayer_cac.Crates.Bytes.{plain_bytes}
use factorio_multiplayer_cac.FactorioProtocol.{
  FactorioWorldMetadata, TransferBlockPacket, server_to_client_heartbeat, encode_metadata,
  transfer_block, decode_header, header_of_flags, packet_type_from, decode_heartbeat,
  try_decode_map_ready, decode_actions, decode_action, decode_metadata, decode_block,
  flags_of_header, packet_type_into, encode_header, new_unfragmented, encode_full_packet,
  encode_block,
}
use factorio_multiplayer_cac.FactorioProtocol.Packets.{heartbeat_body, read_map_ready}
use factorio_multiplayer_cac.Utils.{try_get_factorio_varint32}
use factorio_multiplayer_cac.Proxy.ServerProxy.{
  DownloadingWorldState, arrival_of, is_transfer_block, block_count, download, start_download,
  total_block_count,
}
use factorio_multiplayer_cac.Proxy.ServerProxy.Download.{
  IsDownload, IsComplete, download-IsDownload,
}
use factorio_multiplayer_cac.Proxy.ServerProxy.Phases.{
  map_ready_of, is_heartbeat, ServerProxyState, new, FilteringPacketsState, filter_packet,
}
use factorio_multiplayer_cac.Proxy.ServerProxy.Filter.{filter_packet_lem, replaced_at, IsReplaced}
use factorio_multiplayer_cac.Proxy.ServerProxy.Session.{IsTrace, proxy_server-IsTrace}
use factorio_multiplayer_cac.Proxy.ServerProxy.Transfer.{collect_world}
use factorio_multiplayer_cac.Crates.Memmem.{plain_search}
use factorio_multiplayer_cac.Crates.Stream.{eight_bytes}
use factorio_multiplayer_cac.Dedup.{ok}
use factorio_multiplayer_cac.Proxy.ServerProxy.Loop.{
  Event, from_socket, from_queue, Sent, Trace, proxy_server,
}
use factorio_multiplayer_cac.Proxy.ServerProxy.Reactions.{IsTruthful}
use factorio_multiplayer_cac.Proxy.ServerProxy.Assemble.{
  IsBlockOf, IsServed, proxy_server-collect_world,
}

abbrev world_info : FactorioWorldMetadata
world_info = record { world_size = 1000; no_idea1 = 0; aux_size = 10; no_idea2 = 0; world_crc = 7 }

three_blocks : total_block_count world_info ≡ 3
unfolding total_block_count
three_blocks = refl

abbrev block_packet : ℕ → List ℕ → List ℕ
block_packet id content =
    encode_full_packet plain_bytes transfer_block
      (encode_block plain_bytes (record { block_id = id; content = content }))

abbrev packets : List (ℕ × List ℕ)
packets =
    (5, block_packet 1 (1 ∷ []))
    ∷ (200, 3 ∷ 4 ∷ [])
    ∷ (210, block_packet 0 (2 ∷ []))
    ∷ (220, block_packet 0 (2 ∷ []))
    ∷ (225, 13 ∷ [])
    ∷ (230, block_packet 2 (3 ∷ []))
    ∷ []

download-IsDownload_example :
    let total = total_block_count world_info in
    let (complete, s, out_packets) =
      download plain_bytes (start_download 0 world_info) packets [] in
    IsDownload total s × (complete ≡ true → IsComplete plain_bytes total s)
download-IsDownload_example = download-IsDownload plain_bytes 0 world_info packets []

-- A session with a small world: the heartbeat that announces it, and its two blocks.
abbrev small_info : FactorioWorldMetadata
small_info = record { world_size = 2; no_idea1 = 0; aux_size = 1; no_idea2 = 0; world_crc = 7 }

abbrev small_stream : List ℕ
small_stream = (8 ∷ 9 ∷ zeros 501) ++ 4 ∷ []

abbrev heartbeat : List ℕ
heartbeat =
    encode_full_packet plain_bytes server_to_client_heartbeat (λ buf.
      buf ++ heartbeat_body plain_bytes 16 0 1 5 (encode_metadata plain_bytes small_info []))

abbrev session : List Event
session =
    from_socket 5 1 heartbeat
    ∷ from_socket 6 2 (3 ∷ [])
    ∷ from_queue (1 ∷ [])
    ∷ from_socket 7 1 (block_packet 1 (4 ∷ []))
    ∷ from_socket 8 1 (block_packet 0 (8 ∷ 9 ∷ zeros 501))
    ∷ from_socket 9 1 (13 ∷ [])
    ∷ []

abbrev IsOfSmall : TransferBlockPacket → Type 0
IsOfSmall = IsBlockOf small_stream

abbrev IsSmall : FactorioWorldMetadata → Type 0
IsSmall i = i ≡ small_info

session-IsTruthful : All (IsTruthful plain_bytes IsOfSmall IsSmall 1) session
unfolding arrival_of map_ready_of plain_bytes encode_full_packet encode_block encode_metadata
    decode_header header_of_flags packet_type_from is_transfer_block is_heartbeat read_map_ready
    decode_heartbeat try_decode_map_ready decode_actions decode_action decode_metadata decode_block
    flags_of_header packet_type_into encode_header new_unfragmented try_get_factorio_varint32
session-IsTruthful =
    (λ e. (tt, refl), (λ e. cc, (tt, (λ e. (refl, tt), (λ e. (refl, tt), (λ e. (tt, tt), tt))))))

-- The world and the auxiliary data in their blocks.
small-IsServed : IsServed small_info (8 ∷ 9 ∷ []) (4 ∷ []) small_stream
unfolding block_count
small-IsServed = record {
  world_pad = zeros 501;
  aux_pad = [];
  whole = refl;
  world_size = refl;
  aux_size = refl;
  aligned = refl;
  within = omega arith;
  fits = omega arith;
}

abbrev accept : Sent → Bool
accept sent = true

proxy_server-collect_world_example :
    (state' : ServerProxyState ℕ) × (trace' : Trace ℕ) × (proxy_server plain_bytes plain_search
        eight_bytes accept 1 4
        (new 77)
        session
        (record { sent = []; spawned = [] })
      ≡ ok (state', trace'))
    × (length trace'.spawned ≤ 1)
    × All
        (λ (task : ℕ × DownloadingWorldState). collect_world task.1 ≡ ok (8 ∷ 9 ∷ [], 4 ∷ []))
        trace'.spawned
proxy_server-collect_world_example =
    proxy_server-collect_world plain_bytes small_info (8 ∷ 9 ∷ []) (4 ∷ []) small_stream
      small-IsServed plain_search eight_bytes accept 1 4 77 session session-IsTruthful

proxy_server-IsTrace_example :
    (state' : ServerProxyState ℕ) × (trace' : Trace ℕ) × (proxy_server plain_bytes plain_search
        eight_bytes accept 1 4
        (new 77)
        session
        (record { sent = []; spawned = [] })
      ≡ ok (state', trace'))
    × IsTrace plain_bytes plain_search IsOfSmall IsSmall state' trace'
proxy_server-IsTrace_example =
    proxy_server-IsTrace plain_bytes plain_search IsOfSmall IsSmall eight_bytes accept 1 4 77
      session session-IsTruthful

abbrev filter : FilteringPacketsState
filter = record { needle = 1 ∷ 2 ∷ []; replace_with = 3 ∷ 4 ∷ []; last_replace = 0 }

filter_packet_lem_example :
    (gaps : List (List ℕ)) × (out : List ℕ) × (filter_packet plain_search 9 filter
        (0 ∷ 1 ∷ 2 ∷ 1 ∷ 2 ∷ 1 ∷ [])
      ≡ ok (record filter { last_replace = replaced_at gaps 9 0 }, out))
    × IsReplaced (1 ∷ 2 ∷ []) (3 ∷ 4 ∷ []) gaps (0 ∷ 1 ∷ 2 ∷ 1 ∷ 2 ∷ 1 ∷ []) out
    × (length out ≡ 6)
filter_packet_lem_example =
    filter_packet_lem plain_search 9 filter (0 ∷ 1 ∷ 2 ∷ 1 ∷ 2 ∷ 1 ∷ []) 1 (2 ∷ []) refl refl
