-- ===== src/Proxy/ClientProxy/LoopRuns.antt =====
-- src/proxy/client_proxy.rs: two clients on the socket, and one that asks for a block.
use factorio_multiplayer_cac.Common.{
  ℕ, ◌≡◌, Bool, true, false, none, some, List, [], ◌∷◌, All, arith,
}
use factorio_multiplayer_cac.Crates.Bytes.{plain_bytes}
use factorio_multiplayer_cac.Crates.Stream.{eight_bytes}
use factorio_multiplayer_cac.Dedup.{ok}
use factorio_multiplayer_cac.Protocol.{encode}
use factorio_multiplayer_cac.Protocol.Messages.{decode-encode}
use factorio_multiplayer_cac.Proxy.ClientProxy.{new}
use factorio_multiplayer_cac.Proxy.ClientProxy.Requests.{request_packet}
use factorio_multiplayer_cac.Proxy.ClientProxy.Route
use factorio_multiplayer_cac.Proxy.ClientProxy.Route.{Round, new_router, run_client_proxy}
use factorio_multiplayer_cac.Proxy.ClientProxy.Routed.{
  IsIntact, IsRouted, run_client_proxy-IsRouted,
}
use factorio_multiplayer_cac.Proxy.ClientProxy.Loop
use factorio_multiplayer_cac.Proxy.ClientProxy.Loop.{Sent, proxy_client}
use factorio_multiplayer_cac.Proxy.ClientProxy.Serving.{IsServing, IsOwn, proxy_client-IsServing}

abbrev datagram : List ℕ
datagram = encode eight_bytes (record { peer_id = 1; content = 4 ∷ [] }) []

-- Two addresses, the first of which comes again with its queue closed.
abbrev routed : List Route.Event
routed =
    Route.from_client 8 false (1 ∷ [])
    ∷ Route.from_client 9 false (2 ∷ [])
    ∷ Route.from_connection datagram
    ∷ Route.from_client 8 true (3 ∷ [])
    ∷ []

routed-IsIntact : All (IsIntact eight_bytes) routed
routed-IsIntact = (
  tt,
  (
    tt,
    (
      (
        record { peer_id = 1; content = 4 ∷ [] },
        decode-encode eight_bytes (record { peer_id = 1; content = 4 ∷ [] }) (omega arith),
      ),
      (tt, tt),
    ),
  ),
)

run_client_proxy-IsRouted_example :
    (rounds : List Round) × (run_client_proxy eight_bytes new_router routed ≡ ok rounds)
    × IsRouted eight_bytes [] routed rounds
run_client_proxy-IsRouted_example =
    run_client_proxy-IsRouted eight_bytes routed routed-IsIntact (omega arith)

abbrev accept : Sent → Bool
accept sent = true

abbrev events : List Loop.Event
events =
    Loop.from_client 5 (request_packet plain_bytes 0)
    ∷ Loop.from_client 6 (1 ∷ 2 ∷ [])
    ∷ Loop.from_server (3 ∷ [])
    ∷ Loop.world_data 7 (some (1 ∷ 2 ∷ []))
    ∷ Loop.world_data 8 none
    ∷ []

proxy_client-IsServing_example :
    IsServing
      (proxy_client plain_bytes eight_bytes accept 4
        (record { proxy_state = new 0; world_data_done = false })
        events
        []).0
    × All
        (IsOwn eight_bytes 4)
        (proxy_client plain_bytes eight_bytes accept 4
          (record { proxy_state = new 0; world_data_done = false })
          events
          []).1
proxy_client-IsServing_example =
    proxy_client-IsServing plain_bytes eight_bytes accept 4 0 events (omega arith)
