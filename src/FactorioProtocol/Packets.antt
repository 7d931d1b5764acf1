-- ===== src/FactorioProtocol/Packets.antt =====
-- The packets, written and read back, and the heartbeat that announces the map.
use factorio_multiplayer_cac.Common.{
  ℕ, ◌+◌, ◌≡◌, ap, ◌∙◌, Option, none, some, List, [], ◌∷◌, ◌++◌, append_assoc, length,
  length-append, to_le_bytes, IsU32, ltb, ◌>>=◌, if◌then◌else◌, ◌==◌, ◌&&◌, Bool-cases, inl, inr,
}
use factorio_multiplayer_cac.Crates.Bytes.{Bytes, try_get_u32_le-to_le_bytes}
use factorio_multiplayer_cac.Utils.{varint_bytes, try_get_factorio_varint32-varint_bytes}
use factorio_multiplayer_cac.FactorioProtocol.{
  PacketType, transfer_block_request, transfer_block, new_unfragmented, TransferBlockRequestPacket,
  TransferBlockPacket, FactorioWorldMetadata, decode_header, encode_header, encode_full_packet,
  decode_block_request, encode_block_request, decode_block, encode_block, decode_metadata,
  encode_metadata, decode_heartbeat, decode_action, decode_actions, try_decode_map_ready,
}
use factorio_multiplayer_cac.FactorioProtocol.Header.{IsCanonical, decode_header-encode_header}

pub record IsMetadata (m : FactorioWorldMetadata) : Type 0 where
  pub world_size_fits : IsU32 m.world_size
  pub no_idea1_fits : IsU32 m.no_idea1
  pub aux_size_fits : IsU32 m.aux_size
  pub no_idea2_fits : IsU32 m.no_idea2
  pub world_crc_fits : IsU32 m.world_crc

abbrev metadata_bytes : FactorioWorldMetadata → List ℕ
metadata_bytes m =
    to_le_bytes 4 m.world_size
    ++ to_le_bytes 4 m.no_idea1
    ++ to_le_bytes 4 m.aux_size
    ++ to_le_bytes 4 m.no_idea2
    ++ to_le_bytes 4 m.world_crc

module _ (api : Bytes) where
  encode_metadata_lem :
      (m : FactorioWorldMetadata) (buf : List ℕ)
      → encode_metadata api m buf ≡ buf ++ metadata_bytes m
  unfolding encode_metadata
  encode_metadata_lem m buf = simp (api.put_u32_le_lem, append_assoc)

  -- The metadata take twenty bytes.
  pub length-encode_metadata :
      (m : FactorioWorldMetadata) (buf : List ℕ)
      → length (encode_metadata api m buf) ≡ length buf + 20
  length-encode_metadata m buf =
      ap length (encode_metadata_lem m buf) ∙ length-append buf (metadata_bytes m)

  -- Metadata whose fields fit 32 bits are read back from their encoding, whatever follows.
  pub decode_metadata-encode_metadata :
      (m : FactorioWorldMetadata) (rest : List ℕ)
      → IsMetadata m
      → decode_metadata api (encode_metadata api m [] ++ rest) ≡ some m
  unfolding decode_metadata
  decode_metadata-encode_metadata m rest h = rw (
    encode_metadata_lem m [],
    word m.world_size (le m.no_idea1 ++ le m.aux_size ++ le m.no_idea2 ++ le m.world_crc ++ rest)
        h.world_size_fits,
    word m.no_idea1 (le m.aux_size ++ le m.no_idea2 ++ le m.world_crc ++ rest) h.no_idea1_fits,
    word m.aux_size (le m.no_idea2 ++ le m.world_crc ++ rest) h.aux_size_fits,
    word m.no_idea2 (le m.world_crc ++ rest) h.no_idea2_fits,
    word m.world_crc rest h.world_crc_fits,
  )
    where
      le : ℕ → List ℕ
      le v = to_le_bytes 4 v

      word :
          (v : ℕ) (rest : List ℕ)
          → IsU32 v
          → api.try_get_u32_le (to_le_bytes 4 v ++ rest) ≡ some (v, rest)
      word = try_get_u32_le-to_le_bytes api

  encode_full_packet_lem :
      (t : PacketType) (body rest : List ℕ) (encode : List ℕ → List ℕ)
      → IsCanonical t
      → ((buf : List ℕ) → encode buf ≡ buf ++ body)
      → decode_header api (encode_full_packet api t encode) ≡ some (new_unfragmented t, body)
  unfolding encode_full_packet
  encode_full_packet_lem t body rest encode c e =
      ap (decode_header api) (e (encode_header api (new_unfragmented t) []))
      ∙ decode_header-encode_header api (new_unfragmented t) body (unfold new_unfragmented in c)

  -- A block request with a 32-bit number that is sent as a full packet is read back, its header
  -- and its number.
  pub decode_block_request-encode_full_packet :
      (p : TransferBlockRequestPacket)
      → IsU32 p.block_id
      → (body : List ℕ) × (decode_header api
            (encode_full_packet api transfer_block_request (encode_block_request api p))
          ≡ some (new_unfragmented transfer_block_request, body))
        × (decode_block_request api body ≡ some p)
  unfolding encode_block_request decode_block_request
  decode_block_request-encode_full_packet p h = (
    to_le_bytes 4 p.block_id,
    encode_full_packet_lem transfer_block_request (to_le_bytes 4 p.block_id) [] _ tt
        (λ buf. api.put_u32_le_lem buf p.block_id),
    ap (λ o. o >>= λ x. some (record { block_id = x.0 }))
        (try_get_u32_le-to_le_bytes api p.block_id [] h),
  )

  -- A block with a 32-bit number that is sent as a full packet is read back, its header, its
  -- number and its content.
  pub decode_block-encode_full_packet :
      (p : TransferBlockPacket)
      → IsU32 p.block_id
      → (body : List ℕ) × (decode_header api
            (encode_full_packet api transfer_block (encode_block api p))
          ≡ some (new_unfragmented transfer_block, body))
        × (decode_block api body ≡ some p)
  unfolding encode_block decode_block
  decode_block-encode_full_packet p h = (
    to_le_bytes 4 p.block_id ++ p.content,
    encode_full_packet_lem transfer_block (to_le_bytes 4 p.block_id ++ p.content) [] _ tt (λ buf.
        ap (λ t. t ++ p.content) (api.put_u32_le_lem buf p.block_id)
        ∙ append_assoc buf (to_le_bytes 4 p.block_id) p.content),
    ap (λ o. o >>= λ x. some (record { block_id = x.0; content = x.1 }))
        (try_get_u32_le-to_le_bytes api p.block_id p.content h),
  )

  -- The body of a heartbeat: flags, sequence number, a count of actions, and the first action.
  abbrev pub heartbeat_body : ℕ → ℕ → ℕ → ℕ → List ℕ → List ℕ
  heartbeat_body flags seq count action rest =
      flags ∷ (to_le_bytes 4 seq ++ (varint_bytes api count ++ action ∷ rest))

  -- What `proxy_server` asks of the body of a heartbeat.
  unfoldable pub read_map_ready : List ℕ → Option (Option FactorioWorldMetadata)
  read_map_ready body = decode_heartbeat api body >>= try_decode_map_ready api

  -- A heartbeat body with 32-bit fields yields the metadata behind it if its flags are those of
  -- synchronizer actions alone, it has an action and the first one says that the map is ready;
  -- otherwise it yields none.
  pub read_map_ready-heartbeat_body :
      (flags seq count action : ℕ) (m : FactorioWorldMetadata) (rest : List ℕ)
      → IsU32 seq
      → IsU32 count
      → IsMetadata m
      → read_map_ready (heartbeat_body flags seq count action (encode_metadata api m [] ++ rest))
        ≡ some (if flags == 0x10 && (ltb 0 count && action == 5) then some m else none)
  unfolding read_map_ready decode_heartbeat try_decode_map_ready decode_actions decode_action
  read_map_ready-heartbeat_body flags seq count action m rest hs hc hm =
      let info : List ℕ = encode_metadata api m [] ++ rest in
      rw
        (
          api.try_get_u8_cons,
          try_get_u32_le-to_le_bytes api seq (varint_bytes api count ++ action ∷ info) hs,
        )
        (elim (Bool-cases (flags == 0x10)) [
          | inr other ↦ rw other
          | inl sync ↦
              rw (sync, try_get_factorio_varint32-varint_bytes api count (action ∷ info) hc)
                (elim (Bool-cases (ltb 0 count)) [
                  | inr empty ↦ rw empty
                  | inl some_actions ↦
                      rw (some_actions, api.try_get_u8_cons)
                        (elim (Bool-cases (action == 5)) [
                          | inr other ↦ rw other
                          | inl ready ↦ rw (ready, decode_metadata-encode_metadata m rest hm)
                        ])
                ])
        ])
