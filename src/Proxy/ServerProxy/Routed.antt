-- ===== src/Proxy/ServerProxy/Routed.antt =====
-- Where the datagrams of the connection go.
use factorio_multiplayer_cac.Common.{
  ℕ, suc, ◌≡◌, refl, ap, ◌∙◌, Bool, true, Option, none, some, List, [], ◌∷◌, length, All, ◌==◌,
  if◌then◌else◌,
}
use factorio_multiplayer_cac.Common.HashMap.{get, insert, get-insert, nat_eq}
use factorio_multiplayer_cac.Crates.Stream.{Io, VarInt}
use factorio_multiplayer_cac.Dedup.{ok}
use factorio_multiplayer_cac.Protocol.{Datagram, decode}
use factorio_multiplayer_cac.Proxy.ServerProxy.Route.{
  ProxyServerArgs, Router, Event, from_connection, accepted, broken, Round, new_router,
  localhost_for, offer, route_datagram, accept_stream, route, run_server_proxy,
}

-- The queue of the last proxy that was started for a peer; the list has the newest first.
abbrev pub queue_of : ℕ → List ProxyServerArgs → Option ℕ
queue_of peer_id [] = none
queue_of peer_id (args ∷ proxies) =
    if args.peer_id == peer_id then some args.receive_queue else queue_of peer_id proxies

abbrev pub with_started : Option ProxyServerArgs → List ProxyServerArgs → List ProxyServerArgs
with_started none proxies = proxies
with_started (some args) proxies = args ∷ proxies

-- The map agrees with the proxies that were started.
record IsRouter (proxies : List ProxyServerArgs) (self : Router) : Type 0 where
  by_peer : (peer_id : ℕ) → get peer_id self.outgoing_queues ≡ queue_of peer_id proxies
  counted : self.next_queue ≡ length proxies

module _ (var_int : VarInt) (io : Io) (is_ipv6 : Bool) where
  -- What is asked of an event: it is no error, a datagram can be decoded, and a stream has a number
  -- and gets a socket.
  abbrev pub IsIntact : Event → Type 0
  IsIntact (from_connection bytes) = (d : Datagram) × (decode var_int bytes ≡ ok d)
  IsIntact (accepted received binds) =
      (binds ≡ true)
      × ((peer_id : ℕ) × (rest : List ℕ) × (io.read_u32_le received ≡ some (peer_id, rest)))
  IsIntact broken = ⊥

  -- A datagram goes to the last proxy that was started for its peer, if there is one. A stream starts
  -- a proxy with a queue of its own, for the peer whose number is first on the stream.
  abbrev pub IsDelivered : List ProxyServerArgs → Event → Round → Type 0
  IsDelivered proxies (from_connection bytes) r =
      (r.started ≡ none)
      × ((d : Datagram) × (decode var_int bytes ≡ ok d)
          × (r.offered ≡ offer (queue_of d.peer_id proxies) d.content))
  IsDelivered proxies (accepted received binds) r =
      (r.offered ≡ none)
      × ((args : ProxyServerArgs) × (r.started ≡ some args)
          × (io.read_u32_le received ≡ some (args.peer_id, args.comp_stream))
          × (args.receive_queue ≡ length proxies)
          × (args.localhost ≡ localhost_for is_ipv6))
  IsDelivered proxies broken r = ⊥

  -- Every round, with the proxies started before.
  abbrev pub IsRouted : List ProxyServerArgs → List Event → List Round → Type 0
  IsRouted proxies [] [] = Unit
  IsRouted proxies (event ∷ events) (r ∷ rounds) =
      IsDelivered proxies event r × IsRouted (with_started r.started proxies) events rounds
  IsRouted proxies _ _ = ⊥

  abbrev IsRound : List ProxyServerArgs → Router → Event → Type 0
  IsRound proxies self event =
      (r : Round) × (route var_int io is_ipv6 self event ≡ ok r)
      × IsDelivered proxies event r
      × IsRouter (with_started r.started proxies) r.state

  event-IsRound :
      (proxies : List ProxyServerArgs) (self : Router) (event : Event)
      → IsRouter proxies self
      → IsIntact event
      → IsRound proxies self event
  unfolding route route_datagram accept_stream
  event-IsRound proxies self (from_connection bytes) is (d, decoded) = (
    record {
      state = self;
      started = none;
      offered = offer (get d.peer_id self.outgoing_queues) d.content;
    },
    rw (route, route_datagram, decoded) refl,
    (refl, (d, decoded, ap (λ q. offer q d.content) (is.by_peer d.peer_id))),
    is,
  )
  event-IsRound proxies self (accepted received binds) is (binds_is, (peer_id, rest, read)) =
      let args : ProxyServerArgs = record {
        peer_id = peer_id;
        localhost = localhost_for is_ipv6;
        receive_queue = self.next_queue;
        comp_stream = rest;
      } in
      (
        record {
          state = record {
            outgoing_queues = insert peer_id self.next_queue self.outgoing_queues;
            next_queue = suc self.next_queue;
          };
          started = some args;
          offered = none;
        },
        rw (route, accept_stream, read, binds_is) refl,
        (refl, (args, refl, read, is.counted, refl)),
        record { by_peer = by_peer args; counted = ap suc is.counted },
      )
    where
      by_peer :
          (args : ProxyServerArgs) (j : ℕ)
          → get j (insert args.peer_id args.receive_queue self.outgoing_queues)
            ≡ queue_of j (args ∷ proxies)
      by_peer args j =
          get-insert args.peer_id j args.receive_queue self.outgoing_queues
          ∙ ap (λ q. if args.peer_id == j then some args.receive_queue else q) (is.by_peer j)
  event-IsRound proxies self broken is intact = absurd intact

  run_lem :
      (proxies : List ProxyServerArgs) (self : Router) (events : List Event)
      → IsRouter proxies self
      → All IsIntact events
      → (rounds : List Round) × (run_server_proxy var_int io is_ipv6 self events ≡ ok rounds)
        × IsRouted proxies events rounds
  unfolding run_server_proxy
  run_lem proxies self [] is intact = ([], refl, tt)
  run_lem proxies self (event ∷ events) is intact =
      let (r, run, delivered, is') = event-IsRound proxies self event is intact.0 in
      let (rounds, run', routed) =
        run_lem (with_started r.started proxies) r.state events is' intact.1 in
      (r ∷ rounds, rw (run, run') refl, (delivered, routed))

  new-IsRouter : IsRouter [] new_router
  unfolding get
  new-IsRouter = record { by_peer = λ peer_id. refl; counted = refl }

  -- While nothing fails, the loop of the server side returns, and in every round: a stream starts
  -- a proxy, with a queue of its own, for the peer whose number is first on the stream, with the
  -- rest of the stream and the local address of the right kind; a datagram goes to the last proxy
  -- that was started for its peer, and nowhere if there is none.
  pub run_server_proxy-IsRouted :
      (events : List Event)
      → All IsIntact events
      → (rounds : List Round) × (run_server_proxy var_int io is_ipv6 new_router events ≡ ok rounds)
        × IsRouted [] events rounds
  run_server_proxy-IsRouted events intact = run_lem [] new_router events new-IsRouter intact
