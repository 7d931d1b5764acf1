-- ===== src/Proxy/ClientProxy/Route.antt =====
-- src/proxy/client_proxy.rs: `run_client_proxy`, which has a client for every address and routes the
-- packets of the clients and the datagrams of the connection to their queues.
use factorio_multiplayer_cac.Common.{
  ℕ, ◌+◌, Bool, Option, none, some, List, [], ◌∷◌, ltb, if◌then◌else◌, u32_mod,
}
use factorio_multiplayer_cac.Common.HashMap.{HashMap, get, insert, nat_eq}
use factorio_multiplayer_cac.Crates.Stream.{VarInt}
use factorio_multiplayer_cac.Dedup.{Outcome, ok, err, ◌>>=◌, or_panic}
use factorio_multiplayer_cac.Protocol

-- The sender of a channel, by the number of the client that has its receiver.
pub data Queue : Type 0 where
  client_receive_queue server_receive_queue : ℕ → Queue

pub record Router : Type 0 where
  pub addr_to_queue : HashMap ℕ Queue
  pub id_to_queue : HashMap ℕ Queue
  pub next_peer_id : ℕ

-- A packet on the socket: its address, whether the queue of the address is closed, and the packet; a
-- datagram; or an error of the socket or of the connection.
pub data Event : Type 0 where
  from_client : ℕ → Bool → List ℕ → Event
  from_connection : List ℕ → Event
  broken : Event

-- The client that a round starts, by its number and its address, and the packet that is offered to
-- a queue, which may be full or closed and then drops it.
pub record Round : Type 0 where
  pub state : Router
  pub started : Option (ℕ × ℕ)
  pub offered : Option (Queue × List ℕ)

abbrev pub new_router : Router
new_router = record { addr_to_queue = []; id_to_queue = []; next_peer_id = 0 }

-- `filter(|s| !s.is_closed())`.
unfoldable pub usable : Bool → Option Queue → Option Queue
usable closed none = none
usable closed (some queue) = if closed then none else some queue

-- `u32::checked_add`, with an error if it overflows.
unfoldable pub checked_add : ℕ → ℕ → Outcome ℕ
checked_add a b = if ltb (a + b) u32_mod then ok (a + b) else err

unfoldable pub start_client : ℕ → List ℕ → Router → Outcome Round
unfolding checked_add
start_client peer_addr packet_data self = do
  next_peer_id ← checked_add self.next_peer_id 1
  let peer_id = self.next_peer_id
  let addr_to_queue = insert peer_addr (client_receive_queue peer_id) self.addr_to_queue
  queue ← or_panic (get peer_addr addr_to_queue)
  ok (record {
    state = record {
      addr_to_queue = addr_to_queue;
      id_to_queue = insert peer_id (server_receive_queue peer_id) self.id_to_queue;
      next_peer_id = next_peer_id;
    };
    started = some (peer_id, peer_addr);
    offered = some (queue, packet_data);
  })

unfoldable pub route_packet : ℕ → Bool → List ℕ → Router → Outcome Round
unfolding usable start_client
route_packet peer_addr closed packet_data self =
    elim (usable closed (get peer_addr self.addr_to_queue)) [
      | some queue ↦
          ok (record { state = self; started = none; offered = some (queue, packet_data) })
      | none ↦ start_client peer_addr packet_data self
    ]

abbrev pub offer : Option Queue → List ℕ → Option (Queue × List ℕ)
offer none packet_data = none
offer (some queue) packet_data = some (queue, packet_data)

module _ (var_int : VarInt) where
  unfoldable pub route_datagram : List ℕ → Router → Outcome Round
  route_datagram bytes self = do
    datagram ← Protocol.decode var_int bytes
    ok (record {
      state = self;
      started = none;
      offered = offer (get datagram.peer_id self.id_to_queue) datagram.content;
    })

  unfoldable pub route : Router → Event → Outcome Round
  unfolding route_packet route_datagram
  route self (from_client peer_addr closed packet_data) =
      route_packet peer_addr closed packet_data self
  route self (from_connection bytes) = route_datagram bytes self
  route self broken = err

  -- The loop, as long as nothing fails.
  unfoldable pub run_client_proxy : Router → List Event → Outcome (List Round)
  unfolding route
  run_client_proxy self [] = ok []
  run_client_proxy self (event ∷ rest) = do
    round ← route self event
    rounds ← run_client_proxy round.state rest
    ok (round ∷ rounds)
