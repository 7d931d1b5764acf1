-- ===== src/FactorioProtocol/Runs.antt =====
-- src/factorio_protocol.rs: packets as they go over the wire.
use factorio_multiplayer_cac.Common.{
  ℕ, ◌≡◌, ◌-◌, ◌*◌, ◌/◌, ◌%◌, ◌&&◌, List, [], ◌∷◌, ◌++◌, some, none, true, false, if◌then◌else◌,
  ◌==◌, ltb, arith,
}
use factorio_multiplayer_cac.Crates.Bytes.{plain_bytes}
use factorio_multiplayer_cac.FactorioProtocol.{
  FactorioPacketHeader, FactorioWorldMetadata, transfer_block_request, transfer_block, unknown,
  new_unfragmented, decode_header, encode_header, encode_full_packet, decode_block_request,
  encode_block_request, decode_block, encode_block, decode_metadata, encode_metadata,
}
use factorio_multiplayer_cac.FactorioProtocol.Header.{
  decode_header-encode_header, encode_header-decode_header,
}
use factorio_multiplayer_cac.FactorioProtocol.Packets.{
  IsMetadata, decode_metadata-encode_metadata, decode_block_request-encode_full_packet,
  decode_block-encode_full_packet, heartbeat_body, read_map_ready, read_map_ready-heartbeat_body,
}

abbrev fragment : FactorioPacketHeader
fragment = record { packet_type = unknown 3; is_fragmented = true; is_last_fragment = false }

abbrev info : FactorioWorldMetadata
info = record {
  world_size = 100000;
  no_idea1 = 1;
  aux_size = 20;
  no_idea2 = 2;
  world_crc = 0xCBF43926;
}

info-IsMetadata : IsMetadata info
info-IsMetadata = record {
  world_size_fits = omega arith;
  no_idea1_fits = omega arith;
  aux_size_fits = omega arith;
  no_idea2_fits = omega arith;
  world_crc_fits = omega arith;
}

decode_header-encode_header_example :
    decode_header plain_bytes (encode_header plain_bytes fragment [] ++ 1 ∷ [])
    ≡ some (fragment, 1 ∷ [])
decode_header-encode_header_example =
    decode_header-encode_header plain_bytes fragment (1 ∷ [])
      (omega arith, omega arith, omega arith, omega arith)

encode_header-decode_header_example :
    (h : FactorioPacketHeader) × (decode_header plain_bytes (0xAD ∷ 9 ∷ []) ≡ some (h, 9 ∷ []))
    × (encode_header plain_bytes h [] ≡ (0xAD - 0xAD / 32 % 2 * 32) ∷ [])
encode_header-decode_header_example =
    encode_header-decode_header plain_bytes 0xAD (9 ∷ []) (omega arith)

decode_metadata-encode_metadata_example :
    decode_metadata plain_bytes (encode_metadata plain_bytes info [] ++ 5 ∷ []) ≡ some info
decode_metadata-encode_metadata_example =
    decode_metadata-encode_metadata plain_bytes info (5 ∷ []) info-IsMetadata

decode_block_request-encode_full_packet_example :
    (body : List ℕ) × (decode_header plain_bytes (
        encode_full_packet plain_bytes transfer_block_request
          (encode_block_request plain_bytes (record { block_id = 300 })))
      ≡ some (new_unfragmented transfer_block_request, body))
    × (decode_block_request plain_bytes body ≡ some (record { block_id = 300 }))
decode_block_request-encode_full_packet_example =
    decode_block_request-encode_full_packet plain_bytes (record { block_id = 300 }) (omega arith)

decode_block-encode_full_packet_example :
    (body : List ℕ) × (decode_header plain_bytes (
        encode_full_packet plain_bytes transfer_block
          (encode_block plain_bytes (record { block_id = 300; content = 1 ∷ 2 ∷ [] })))
      ≡ some (new_unfragmented transfer_block, body))
    × (decode_block plain_bytes body ≡ some (record { block_id = 300; content = 1 ∷ 2 ∷ [] }))
decode_block-encode_full_packet_example =
    decode_block-encode_full_packet plain_bytes (record { block_id = 300; content = 1 ∷ 2 ∷ [] })
      (omega arith)

read_map_ready-heartbeat_body_example :
    read_map_ready plain_bytes
      (heartbeat_body plain_bytes 0x10 77 1 5 (encode_metadata plain_bytes info [] ++ 0 ∷ []))
    ≡ some (if 0x10 == 0x10 && (ltb 0 1 && 5 == 5) then some info else none)
read_map_ready-heartbeat_body_example =
    read_map_ready-heartbeat_body plain_bytes 0x10 77 1 5 info (0 ∷ []) (omega arith) (omega arith)
      info-IsMetadata
