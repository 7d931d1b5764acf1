-- ===== src/Proxy/ServerProxy/Loop.antt =====
-- src/proxy/server_proxy.rs: the loop of `proxy_server`, over what its `select!` gives.
use factorio_multiplayer_cac.Common.{
  ℕ, Bool, true, false, Option, none, some, List, [], ◌∷◌, ◌++◌, ◌==◌, if◌then◌else◌,
}
use factorio_multiplayer_cac.Crates.Bytes.{Bytes}
use factorio_multiplayer_cac.Crates.Memmem.{Memmem}
use factorio_multiplayer_cac.Crates.Stream.{VarInt}
use factorio_multiplayer_cac.Dedup.{Outcome, ok, ◌>>=◌}
use factorio_multiplayer_cac.Protocol
use factorio_multiplayer_cac.Protocol.{Datagram}
use factorio_multiplayer_cac.Proxy.{to_client, to_server, OutPackets}
use factorio_multiplayer_cac.Proxy.ServerProxy.{DownloadingWorldState}
use factorio_multiplayer_cac.Proxy.ServerProxy.Phases.{
  ServerProxyState, Reaction, on_packet_from_server,
}

-- A packet on the socket, with the time and the address it is from; a packet of the client; or an
-- error of the socket, the end of the queue or the idle timeout, which end the loop.
pub data Event : Type 0 where
  from_socket : ℕ → ℕ → List ℕ → Event
  from_queue : List ℕ → Event
  over : Event

-- What the proxy sends: a datagram to the other proxy, or a packet to the game's server.
pub data Sent : Type 0 where
  datagram : List ℕ → Sent
  to_game : List ℕ → Sent

module _ (var_int : VarInt) (accepts : Sent → Bool) where
  -- The loop over the packets that were put out, as far as they can be sent. The Boolean says that
  -- all were.
  unfoldable pub send_all : ℕ → OutPackets → List Sent → Bool × List Sent
  send_all peer_id [] sent = (true, sent)
  send_all peer_id ((packet_data, direction) ∷ rest) sent =
      let packet : Sent = elim direction [
        | to_client ↦
            datagram
              (Protocol.encode var_int (record { peer_id = peer_id; content = packet_data }) [])
        | to_server ↦ to_game packet_data
      ] in
      let sent' : Bool × List Sent = send_all peer_id rest (sent ++ packet ∷ []) in
      if accepts packet then sent' else (false, sent)

-- What has come of the loop so far: the packets sent, and the downloads that went to a task.
pub record Trace (Streams : Type 0) : Type 0 where
  pub sent : List Sent
  pub spawned : List (Streams × DownloadingWorldState)

abbrev pub spawn :
    {Streams : Type 0}
    → Option (Streams × DownloadingWorldState)
    → List (Streams × DownloadingWorldState)
    → List (Streams × DownloadingWorldState)
spawn none spawned = spawned
spawn (some task) spawned = spawned ++ task ∷ []

module _ (api : Bytes) (memmem : Memmem) (var_int : VarInt) (accepts : Sent → Bool)
    (factorio_addr peer_id : ℕ) {Streams : Type 0} where
  -- One round with its event: nothing comes of packets that are not from the server.
  unfoldable pub react : ServerProxyState Streams → Event → Outcome (Option (Reaction Streams))
  unfolding on_packet_from_server
  react state (from_socket now remote_addr packet_data) =
      if remote_addr == factorio_addr
      then (do
        reaction ← on_packet_from_server api memmem now state packet_data []
        ok (some reaction))
      else ok (some (record { state = state; out_packets = []; spawned = none }))
  react state (from_queue packet_data) =
      ok (
        some
          (record { state = state; out_packets = (packet_data, to_server) ∷ []; spawned = none }))
  react state over = ok none

  unfoldable pub proxy_server :
      ServerProxyState Streams
      → List Event
      → Trace Streams
      → Outcome (ServerProxyState Streams × Trace Streams)
  unfolding react send_all
  proxy_server state [] trace = ok (state, trace)
  proxy_server state (event ∷ rest) trace = do
    reaction ← react state event
    elim reaction [
      | none ↦ ok (state, trace)
      | some r ↦
          let (all, sent) = send_all var_int accepts peer_id r.out_packets trace.sent in
          let trace' : Trace Streams = record {
            sent = sent;
            spawned = spawn r.spawned trace.spawned;
          } in
          let next : Outcome (ServerProxyState Streams × Trace Streams) =
            proxy_server r.state rest trace' in
          if all then next else ok (r.state, trace')
    ]
