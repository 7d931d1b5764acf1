-- ===== src/Proxy/ServerProxy/RouteRuns.antt =====
-- src/proxy/server_proxy.rs: two streams for one peer, and datagrams.
use factorio_multiplayer_cac.Common.{
  ℕ, ◌≡◌, refl, true, false, List, [], ◌∷◌, ◌++◌, to_le_bytes, arith,
}
use factorio_multiplayer_cac.Crates.Stream.{plain_io, eight_bytes}
use factorio_multiplayer_cac.Dedup.{ok}
use factorio_multiplayer_cac.Protocol.{encode}
use factorio_multiplayer_cac.Protocol.Messages.{decode-encode}
use factorio_multiplayer_cac.Proxy.ServerProxy.Route.{
  Event, Round, from_connection, accepted, new_router, run_server_proxy,
}
use factorio_multiplayer_cac.Proxy.ServerProxy.Routed.{
  IsIntact, IsRouted, run_server_proxy-IsRouted,
}

abbrev stream : List ℕ
stream = to_le_bytes 4 6 ++ 5 ∷ []

abbrev datagram : List ℕ
datagram = encode eight_bytes (record { peer_id = 6; content = 4 ∷ [] }) []

abbrev events : List Event
events =
    from_connection datagram
    ∷ accepted stream true
    ∷ accepted stream true
    ∷ from_connection datagram
    ∷ []

stream-IsIntact : IsIntact eight_bytes plain_io false (accepted stream true)
stream-IsIntact = (refl, (6, 5 ∷ [], plain_io.read_u32_le_lem 6 (5 ∷ []) (omega arith)))

datagram-IsIntact : IsIntact eight_bytes plain_io false (from_connection datagram)
datagram-IsIntact = (
  record { peer_id = 6; content = 4 ∷ [] },
  decode-encode eight_bytes (record { peer_id = 6; content = 4 ∷ [] }) (omega arith),
)

run_server_proxy-IsRouted_example :
    (rounds : List Round) × (run_server_proxy eight_bytes plain_io false new_router events
      ≡ ok rounds)
    × IsRouted eight_bytes plain_io false [] events rounds
run_server_proxy-IsRouted_example =
    run_server_proxy-IsRouted eight_bytes plain_io false events
      (datagram-IsIntact, (stream-IsIntact, (stream-IsIntact, (datagram-IsIntact, tt))))
