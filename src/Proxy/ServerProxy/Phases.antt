-- ===== src/Proxy/ServerProxy/Phases.antt =====
-- src/proxy/server_proxy.rs: the state of the proxy of one client on the server's side, its phases,
-- and the filter that replaces the announced metadata.
use factorio_multiplayer_cac.Common.{
  ℕ, ◌+◌, ◌-◌, Bool, true, false, ◌&&◌, Option, none, some, List, [], ◌∷◌, ◌++◌, length, take, drop,
  ltb, leb, ◌==◌, if◌then◌else◌,
}
use factorio_multiplayer_cac.Crates.Bytes.{Bytes}
use factorio_multiplayer_cac.Crates.Memmem.{Memmem}
use factorio_multiplayer_cac.Dedup.{Outcome, ok, panic, ◌>>=◌, or_panic}
use factorio_multiplayer_cac.FactorioProtocol.{
  PacketType, server_to_client_heartbeat, FactorioWorldMetadata, decode_header, encode_metadata,
}
use factorio_multiplayer_cac.FactorioProtocol.Packets.{read_map_ready}
use factorio_multiplayer_cac.Proxy.{to_client, OutPackets}
use factorio_multiplayer_cac.Proxy.ServerProxy.{
  DownloadingWorldState, Arrival, block_arrives, broken_arrives, other_arrives, arrival_of,
  start_download, announce, on_transfer_block, on_other_packet, request_next_blocks,
}

-- A finder is known by its needle. Times are in milliseconds.
pub record FilteringPacketsState : Type 0 where
  pub needle : List ℕ
  pub replace_with : List ℕ
  pub last_replace : ℕ

pub data ServerProxyPhase : Type 0 where
  waiting_for_world : ServerProxyPhase
  downloading_world : DownloadingWorldState → ServerProxyPhase
  done : ServerProxyPhase

-- The pair of streams to the other proxy is a value of any type.
pub record ServerProxyState (Streams : Type 0) : Type 0 where
  pub phase : ServerProxyPhase
  pub packet_filter : Option FilteringPacketsState
  pub comp_stream : Option Streams

-- What a call leaves: the state, the packets put out, and the task it spawned with the streams and
-- the download that go to it.
pub record Reaction (Streams : Type 0) : Type 0 where
  pub state : ServerProxyState Streams
  pub out_packets : OutPackets
  pub spawned : Option (Streams × DownloadingWorldState)

-- `buf[pos..pos + len].copy_from_slice(src)`, which panics out of range or on another length.
unfoldable pub copy_from_slice : List ℕ → ℕ → ℕ → List ℕ → Outcome (List ℕ)
copy_from_slice buf pos len src =
    if leb (pos + len) (length buf) && length src == len
    then ok (take pos buf ++ (src ++ drop (pos + len) buf))
    else panic

abbrev pub get_or_insert : List ℕ → Option (List ℕ) → List ℕ
get_or_insert packet_data none = packet_data
get_or_insert packet_data (some new_packet_data) = new_packet_data

-- The loop over the positions that the finder gives.
unfoldable pub replace_loop :
    FilteringPacketsState → List ℕ → List ℕ → Option (List ℕ) → Outcome (Option (List ℕ))
unfolding copy_from_slice
replace_loop state packet_data [] new_packet_data = ok new_packet_data
replace_loop state packet_data (pos ∷ rest) new_packet_data = do
  buf ←
      copy_from_slice (get_or_insert packet_data new_packet_data) pos (length state.needle)
        state.replace_with
  replace_loop state packet_data rest (some buf)

unfoldable pub is_heartbeat : PacketType → Bool
is_heartbeat server_to_client_heartbeat = true
is_heartbeat _ = false

module _ (memmem : Memmem) where
  unfoldable pub filter_packet :
      ℕ → FilteringPacketsState → List ℕ → Outcome (FilteringPacketsState × List ℕ)
  unfolding replace_loop
  filter_packet now state packet_data = do
    new_packet_data ←
        replace_loop state packet_data (memmem.find_iter state.needle packet_data) none
    ok (elim new_packet_data [
      | none ↦ (state, packet_data)
      | some new ↦ (record state { last_replace = now }, new)
    ])

module _ {Streams : Type 0} where
  unfoldable pub new : Streams → ServerProxyState Streams
  new comp_stream = record {
    phase = waiting_for_world;
    packet_filter = none;
    comp_stream = some comp_stream;
  }

  -- The streams go to a new task with the download, and the phase is done.
  unfoldable pub finalize_world : ServerProxyState Streams → OutPackets → Outcome (Reaction Streams)
  finalize_world self out_packets = elim self.phase [
    | downloading_world state ↦ do
      streams ← or_panic self.comp_stream
      ok (record {
        state = record self { phase = done; comp_stream = none };
        out_packets = out_packets;
        spawned = some (streams, state);
      })
    | _ ↦ panic
  ]

  module _ (memmem : Memmem) where
    -- The end of `on_packet_from_server`: the packet goes on to the client, through the filter if
    -- there is one, which goes after 30 seconds without a replacement.
    unfoldable pub pass_on :
        ℕ → ServerProxyState Streams → List ℕ → OutPackets → Outcome (Reaction Streams)
    unfolding filter_packet
    pass_on now self packet_data out_packets = elim self.packet_filter [
      | none ↦ ok (record {
        state = self;
        out_packets = out_packets ++ (packet_data, to_client) ∷ [];
        spawned = none;
      })
      | some filter ↦ do
        (filter', filtered) ← filter_packet memmem now filter packet_data
        let stays = if ltb 30000 (now - filter'.last_replace) then none else some filter'
        ok (record {
          state = record self { packet_filter = stays };
          out_packets = out_packets ++ (filtered, to_client) ∷ [];
          spawned = none;
        })
    ]

module _ (api : Bytes) where
  -- The metadata of the world, if the packet is a heartbeat that says that the map is ready.
  unfoldable pub map_ready_of : List ℕ → Option FactorioWorldMetadata
  unfolding is_heartbeat
  map_ready_of packet_data = elim (decode_header api packet_data) [
    | none ↦ none
    | some (header, msg_data) ↦ elim (is_heartbeat header.packet_type) [
      | false ↦ none
      | true ↦ elim (read_map_ready api msg_data) [ none ↦ none | some result ↦ result ]
    ]
  ]

  -- The filter that replaces the metadata by the announced ones.
  unfoldable pub announcing_filter : ℕ → FactorioWorldMetadata → FilteringPacketsState
  unfolding announce
  announcing_filter now world_info = record {
    needle = encode_metadata api world_info [];
    replace_with = encode_metadata api (announce world_info) [];
    last_replace = now;
  }

module _ (api : Bytes) (memmem : Memmem) {Streams : Type 0} where
  unfoldable pub transition_to_downloading_world :
      ℕ
      → ServerProxyState Streams
      → List ℕ
      → FactorioWorldMetadata
      → OutPackets
      → Outcome (Reaction Streams)
  unfolding announcing_filter filter_packet start_download request_next_blocks
  transition_to_downloading_world now self packet_data world_info out_packets = do
    (filter, filtered) ← filter_packet memmem now (announcing_filter api now world_info) packet_data
    let (state, out_packets') =
        request_next_blocks api (start_download now world_info)
          (out_packets ++ (filtered, to_client) ∷ [])
    ok (record {
      state = record self { packet_filter = some filter; phase = downloading_world state };
      out_packets = out_packets';
      spawned = none;
    })

  -- A packet in the second phase. A block ends the call, and so does one that cannot be decoded.
  unfoldable pub on_packet_while_downloading :
      ServerProxyState Streams
      → DownloadingWorldState
      → List ℕ
      → ℕ
      → Arrival
      → OutPackets
      → Outcome (Reaction Streams)
  unfolding on_transfer_block on_other_packet finalize_world pass_on
  on_packet_while_downloading self state packet_data now arrival out_packets = elim arrival [
    | block_arrives at received ↦
        let (complete, state', out_packets') =
          on_transfer_block api at state received out_packets in
        let self' = record self { phase = downloading_world state' } in
        elim complete [
          | true ↦ finalize_world self' out_packets'
          | false ↦ ok (record { state = self'; out_packets = out_packets'; spawned = none })
        ]
    | broken_arrives ↦ ok (record { state = self; out_packets = out_packets; spawned = none })
    | other_arrives at ↦
        let (state', out_packets') = on_other_packet api at state out_packets in
        pass_on memmem now (record self { phase = downloading_world state' }) packet_data
          out_packets'
  ]

  -- One reading of the clock, `now`, serves for a whole call.
  unfoldable pub on_packet_from_server :
      ℕ → ServerProxyState Streams → List ℕ → OutPackets → Outcome (Reaction Streams)
  unfolding map_ready_of transition_to_downloading_world on_packet_while_downloading pass_on
      arrival_of
  on_packet_from_server now self packet_data out_packets = elim self.phase [
    | waiting_for_world ↦ elim (map_ready_of api packet_data) [
      | some world_info ↦
          transition_to_downloading_world now self packet_data world_info out_packets
      | none ↦ pass_on memmem now self packet_data out_packets
    ]
    | downloading_world state ↦
        on_packet_while_downloading self state packet_data now (arrival_of api now packet_data)
          out_packets
    | done ↦ pass_on memmem now self packet_data out_packets
  ]
