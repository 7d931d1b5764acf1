-- ===== src/Proxy/ClientProxy/Loop.antt =====
-- src/proxy/client_proxy.rs: the loop of `proxy_client`, over what its `select!` gives.
use factorio_multiplayer_cac.Common.{
  ℕ, ◌%◌, Bool, true, false, Option, none, some, List, [], ◌∷◌, ◌++◌, if◌then◌else◌, u32_mod,
}
use factorio_multiplayer_cac.Crates.Bytes.{Bytes}
use factorio_multiplayer_cac.Crates.Stream.{Io, VarInt}
use factorio_multiplayer_cac.Protocol
use factorio_multiplayer_cac.Proxy.{PacketDirection, to_client, to_server, OutPackets}
use factorio_multiplayer_cac.Proxy.ClientProxy.{
  ClientProxyState, on_packet_from_client, on_new_world_data,
}

-- A packet of the game client or of the other proxy from its queue, world data or their end, with the
-- time; or the end of a queue or the idle timeout, which end the loop.
pub data Event : Type 0 where
  from_client : ℕ → List ℕ → Event
  from_server : List ℕ → Event
  world_data : ℕ → Option (List ℕ) → Event
  over : Event

-- What the proxy sends: a packet to the game client, or a datagram to the other proxy.
pub data Sent : Type 0 where
  to_game : List ℕ → Sent
  datagram : List ℕ → Sent

-- The first bytes on the stream to the other proxy.
unfoldable pub open_stream : Io → ℕ → List ℕ
open_stream io peer_id = io.write_u32_le [] (peer_id % u32_mod)

module _ (var_int : VarInt) (peer_id : ℕ) where
  unfoldable pub packet_to_send : List ℕ → PacketDirection → Sent
  packet_to_send packet_data to_client = to_game packet_data
  packet_to_send packet_data to_server =
      datagram (Protocol.encode var_int (record { peer_id = peer_id; content = packet_data }) [])

  -- The loop over the packets that were put out, as far as they can be sent. The Boolean says that
  -- all were.
  unfoldable pub send_all : (Sent → Bool) → OutPackets → List Sent → Bool × List Sent
  unfolding packet_to_send
  send_all accepts [] sent = (true, sent)
  send_all accepts ((packet_data, direction) ∷ rest) sent =
      let out = packet_to_send packet_data direction in
      let sent' = send_all accepts rest (sent ++ out ∷ []) in
      if accepts out then sent' else (false, sent)

-- The state of the loop: the proxy's, and whether the world data have ended, after which they are no
-- longer received.
pub record Proxying : Type 0 where
  pub proxy_state : ClientProxyState
  pub world_data_done : Bool

module _ (api : Bytes) where
  -- What an event does; `none` ends the loop.
  unfoldable pub react : Proxying → Event → Option (Proxying × OutPackets)
  unfolding on_packet_from_client on_new_world_data
  react s (from_client now packet_data) =
      let (state, out) = on_packet_from_client api now s.proxy_state packet_data [] in
      some (record s { proxy_state = state }, out)
  react s (from_server packet_data) = some (s, (packet_data, to_client) ∷ [])
  react s (world_data now none) =
      let (state, out) = on_new_world_data api now s.proxy_state none [] in
      if s.world_data_done
      then some (s, [])
      else some (record { proxy_state = state; world_data_done = true }, out)
  react s (world_data now (some new_data)) =
      let (state, out) = on_new_world_data api now s.proxy_state (some new_data) [] in
      if s.world_data_done then some (s, []) else some (record s { proxy_state = state }, out)
  react s over = none

module _ (api : Bytes) (var_int : VarInt) (accepts : Sent → Bool) (peer_id : ℕ) where
  unfoldable pub proxy_client : Proxying → List Event → List Sent → Proxying × List Sent
  unfolding react send_all
  proxy_client s [] sent = (s, sent)
  proxy_client s (event ∷ rest) sent = elim (react api s event) [
    | none ↦ (s, sent)
    | some (s', out) ↦
        let (all, sent') = send_all var_int peer_id accepts out sent in
        let next = proxy_client s' rest sent' in if all then next else (s', sent')
  ]
