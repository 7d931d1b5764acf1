-- ===== src/Proxy/ServerProxy/Route.antt =====
-- src/proxy/server_proxy.rs: `run_server_proxy`, which starts a proxy for every stream of the
-- connection and routes the datagrams to their queues.
use factorio_multiplayer_cac.Common.{
  ℕ, suc, Bool, true, false, Option, none, some, List, [], ◌∷◌, if◌then◌else◌,
}
use factorio_multiplayer_cac.Common.HashMap.{HashMap, get, insert, nat_eq}
use factorio_multiplayer_cac.Crates.Stream.{Io, VarInt}
use factorio_multiplayer_cac.Dedup.{Outcome, ok, err, ◌>>=◌, or_err}
use factorio_multiplayer_cac.Protocol

-- `Ipv4Addr::LOCALHOST` and `Ipv6Addr::LOCALHOST`.
pub data Localhost : Type 0 where
  ipv4_localhost ipv6_localhost : Localhost

-- What a proxy is started with: its peer, the address that its socket is bound to, the number of its
-- queue, and what is left to read on the stream.
pub record ProxyServerArgs : Type 0 where
  pub peer_id : ℕ
  pub localhost : Localhost
  pub receive_queue : ℕ
  pub comp_stream : List ℕ

-- The senders of the queues, by their numbers, of which the next is kept.
pub record Router : Type 0 where
  pub outgoing_queues : HashMap ℕ ℕ
  pub next_queue : ℕ

-- A datagram; a stream, with what the client sends on it and whether a socket can be bound; or an
-- error of the connection.
pub data Event : Type 0 where
  from_connection : List ℕ → Event
  accepted : List ℕ → Bool → Event
  broken : Event

pub record Round : Type 0 where
  pub state : Router
  pub started : Option ProxyServerArgs
  pub offered : Option (ℕ × List ℕ)

abbrev pub new_router : Router
new_router = record { outgoing_queues = []; next_queue = 0 }

abbrev pub localhost_for : Bool → Localhost
localhost_for true = ipv6_localhost
localhost_for false = ipv4_localhost

abbrev pub offer : Option ℕ → List ℕ → Option (ℕ × List ℕ)
offer none packet_data = none
offer (some queue) packet_data = some (queue, packet_data)

module _ (var_int : VarInt) (io : Io) (is_ipv6 : Bool) where
  unfoldable pub route_datagram : List ℕ → Router → Outcome Round
  route_datagram bytes self = do
    datagram ← Protocol.decode var_int bytes
    ok (record {
      state = self;
      started = none;
      offered = offer (get datagram.peer_id self.outgoing_queues) datagram.content;
    })

  unfoldable pub accept_stream : List ℕ → Bool → Router → Outcome Round
  accept_stream received binds self = do
    (peer_id, comp_stream) ← or_err (io.read_u32_le received)
    if binds
        then ok (record {
          state = record {
            outgoing_queues = insert peer_id self.next_queue self.outgoing_queues;
            next_queue = suc self.next_queue;
          };
          started = some (record {
            peer_id = peer_id;
            localhost = localhost_for is_ipv6;
            receive_queue = self.next_queue;
            comp_stream = comp_stream;
          });
          offered = none;
        })
        else err

  unfoldable pub route : Router → Event → Outcome Round
  unfolding route_datagram accept_stream
  route self (from_connection bytes) = route_datagram bytes self
  route self (accepted received binds) = accept_stream received binds self
  route self broken = err

  -- The loop, as long as nothing fails.
  unfoldable pub run_server_proxy : Router → List Event → Outcome (List Round)
  unfolding route
  run_server_proxy self [] = ok []
  run_server_proxy self (event ∷ rest) = do
    round ← route self event
    rounds ← run_server_proxy round.state rest
    ok (round ∷ rounds)
