-- ===== src/FactorioProtocol.antt =====
-- src/factorio_protocol.rs: the packets of the game's own protocol that the proxies read and write.
-- A packet is the list of its bytes; `none` is a `TryGetError`.
pub mod Header
pub mod Packets
mod Runs
use factorio_multiplayer_cac.Common.{
  ℕ, ◌*◌, bit_and, bit_or, Bool, true, false, not, Option, none, some, List, [], ◌++◌, ◌==◌, ltb,
  if◌then◌else◌, ◌>>=◌,
}
use factorio_multiplayer_cac.Crates.Bytes.{Bytes, ◌|>◌, u8, u32}
use factorio_multiplayer_cac.Utils.{try_get_factorio_varint32}

abbrev pub transfer_block_size : ℕ
transfer_block_size = 503

pub data PacketType : Type 0 where
  server_to_client_heartbeat transfer_block_request transfer_block : PacketType
  unknown : ℕ → PacketType

-- `PacketType::from(u8)`.
unfoldable pub packet_type_from : ℕ → PacketType
packet_type_from val =
    if val == 7
    then server_to_client_heartbeat
    else if val == 12
    then transfer_block_request
    else if val == 13
    then transfer_block
    else unknown val

-- `Into<u8> for PacketType`.
unfoldable pub packet_type_into : PacketType → ℕ
packet_type_into server_to_client_heartbeat = 7
packet_type_into transfer_block_request = 12
packet_type_into transfer_block = 13
packet_type_into (unknown val) = val

pub record FactorioPacketHeader : Type 0 where
  pub packet_type : PacketType
  pub is_fragmented : Bool
  pub is_last_fragment : Bool

unfoldable pub new_unfragmented : PacketType → FactorioPacketHeader
new_unfragmented packet_type = record {
  packet_type = packet_type;
  is_fragmented = false;
  is_last_fragment = false;
}

-- What `decode` makes of the first byte, and what byte `encode` makes of a header.
unfoldable pub header_of_flags : ℕ → FactorioPacketHeader
unfolding packet_type_from
header_of_flags flags = record {
  packet_type = packet_type_from (bit_and flags 0b0001_1111);
  is_fragmented = not (bit_and flags 0b0100_0000 == 0);
  is_last_fragment = not (bit_and flags 0b1000_0000 == 0);
}

unfoldable pub flags_of_header : FactorioPacketHeader → ℕ
unfolding packet_type_into
flags_of_header self =
    let flags = packet_type_into self.packet_type in
    let flags' = if self.is_fragmented then bit_or flags 0b0100_0000 else flags in
    if self.is_last_fragment then bit_or flags' 0b1000_0000 else flags'

pub record TransferBlockRequestPacket : Type 0 where
  pub block_id : ℕ

pub record TransferBlockPacket : Type 0 where
  pub block_id : ℕ
  pub content : List ℕ

-- The bits of `HeartbeatFlags` that the program compares with.
abbrev pub has_synchronizer_actions : ℕ
has_synchronizer_actions = 0x10

abbrev pub map_ready_for_download_action_id : ℕ
map_ready_for_download_action_id = 5

pub record ServerToClientHeartbeatPacket : Type 0 where
  pub flags : ℕ
  pub content : List ℕ

pub record FactorioWorldMetadata : Type 0 where
  pub world_size : ℕ
  pub no_idea1 : ℕ
  pub aux_size : ℕ
  pub no_idea2 : ℕ
  pub world_crc : ℕ

module _ (api : Bytes) where
  open api use {try_get_u8, try_get_u32_le}

  unfoldable pub decode_header : List ℕ → Option (FactorioPacketHeader × List ℕ)
  decode_header packet = do (flags, rest) ← try_get_u8 packet; some (header_of_flags flags, rest)

  unfoldable pub encode_header : FactorioPacketHeader → List ℕ → List ℕ
  encode_header self buf = buf |> u8 api (flags_of_header self)

  -- `FactorioPacket::encode_full_packet`, for a packet of the given type and its `encode`.
  unfoldable pub encode_full_packet : PacketType → (List ℕ → List ℕ) → List ℕ
  unfolding new_unfragmented
  encode_full_packet packet_type encode =
      [] |> encode_header (new_unfragmented packet_type) |> encode

  unfoldable pub decode_block_request : List ℕ → Option TransferBlockRequestPacket
  decode_block_request packet = do
    (block_id, _) ← try_get_u32_le packet
    some (record { block_id = block_id })

  unfoldable pub encode_block_request : TransferBlockRequestPacket → List ℕ → List ℕ
  encode_block_request self buf = buf |> u32 api self.block_id

  unfoldable pub decode_block : List ℕ → Option TransferBlockPacket
  decode_block packet = do
    (block_id, content) ← try_get_u32_le packet
    some (record { block_id = block_id; content = content })

  unfoldable pub encode_block : TransferBlockPacket → List ℕ → List ℕ
  encode_block self buf = (buf |> u32 api self.block_id) ++ self.content

  unfoldable pub decode_metadata : List ℕ → Option FactorioWorldMetadata
  decode_metadata packet = do
    (world_size, r1) ← try_get_u32_le packet
    (no_idea1, r2) ← try_get_u32_le r1
    (aux_size, r3) ← try_get_u32_le r2
    (no_idea2, r4) ← try_get_u32_le r3
    (world_crc, _) ← try_get_u32_le r4
    some (record {
      world_size = world_size;
      no_idea1 = no_idea1;
      aux_size = aux_size;
      no_idea2 = no_idea2;
      world_crc = world_crc;
    })

  unfoldable pub encode_metadata : FactorioWorldMetadata → List ℕ → List ℕ
  encode_metadata self buf =
      buf
      |> u32 api self.world_size
      |> u32 api self.no_idea1
      |> u32 api self.aux_size
      |> u32 api self.no_idea2
      |> u32 api self.world_crc

  -- The sequence number is read and dropped.
  unfoldable pub decode_heartbeat : List ℕ → Option ServerToClientHeartbeatPacket
  decode_heartbeat packet = do
    (flags, r1) ← try_get_u8 packet
    (_, content) ← try_get_u32_le r1
    some (record { flags = flags; content = content })

  -- The first action of a list, if it says that the map is ready.
  unfoldable pub decode_action : List ℕ → Option (Option FactorioWorldMetadata)
  decode_action actions = do
    (action_type, rest) ← try_get_u8 actions
    if action_type == map_ready_for_download_action_id
        then (do info ← decode_metadata rest; some (some info))
        else some none

  unfoldable pub decode_actions : List ℕ → Option (Option FactorioWorldMetadata)
  decode_actions content = do
    (action_count, rest) ← try_get_factorio_varint32 api content
    if ltb 0 action_count then decode_action rest else some none

  unfoldable pub try_decode_map_ready :
      ServerToClientHeartbeatPacket → Option (Option FactorioWorldMetadata)
  try_decode_map_ready self =
      if self.flags == has_synchronizer_actions then decode_actions self.content else some none
