-- ===== src/Proxy/ClientProxy/Routed.antt =====
-- Where the packets of the clients and the datagrams of the connection go.
use factorio_multiplayer_cac.Common.{
  ℕ, suc, ◌+◌, ◌<◌, ◌≤◌, ◌≡◌, ◌⊎◌, inl, inr, refl, ap, ◌∙◌, Bool, true, false, Option, none, some,
  List, [], ◌∷◌, length, All, ltb, lt→ltb, ◌==◌, ==_iff, Bool-cases, Option-cases, if◌then◌else◌,
  u32_mod, arith,
}
use factorio_multiplayer_cac.Common.HashMap.{get, insert, get-insert, get-insert_self, nat_eq}
use factorio_multiplayer_cac.Crates.Stream.{VarInt}
use factorio_multiplayer_cac.Dedup.{ok}
use factorio_multiplayer_cac.Protocol.{Datagram, decode}
use factorio_multiplayer_cac.Proxy.ClientProxy.Route.{
  Queue, client_receive_queue, server_receive_queue, Router, Event, from_client, from_connection,
  broken, Round, new_router, usable, checked_add, start_client, route_packet, offer, route_datagram,
  route, run_client_proxy,
}

-- The last client that was started for an address; the list has the newest first.
abbrev pub client_of : ℕ → List (ℕ × ℕ) → Option ℕ
client_of addr [] = none
client_of addr ((id, peer_addr) ∷ clients) =
    if peer_addr == addr then some id else client_of addr clients

abbrev pub with_started : Option (ℕ × ℕ) → List (ℕ × ℕ) → List (ℕ × ℕ)
with_started none clients = clients
with_started (some client) clients = client ∷ clients

abbrev queue_of : Option ℕ → Option Queue
queue_of none = none
queue_of (some id) = some (client_receive_queue id)

-- The maps agree with the clients that were started.
record IsRouter (clients : List (ℕ × ℕ)) (self : Router) : Type 0 where
  by_addr : (addr : ℕ) → get addr self.addr_to_queue ≡ queue_of (client_of addr clients)
  by_id :
      (id : ℕ)
      → get id self.id_to_queue
        ≡ (if ltb id (length clients) then some (server_receive_queue id) else none)
  counted : self.next_peer_id ≡ length clients

module _ (var_int : VarInt) where
  -- What is asked of an event: it is no error, and a datagram can be decoded.
  abbrev pub IsIntact : Event → Type 0
  IsIntact (from_client peer_addr closed packet_data) = Unit
  IsIntact (from_connection bytes) = (d : Datagram) × (decode var_int bytes ≡ ok d)
  IsIntact broken = ⊥

  -- A packet of a client goes to the last client that was started for its address, if the queue of
  -- that is open, and else to a new client, which has the next number. A datagram goes to the client
  -- with its number, if there is one.
  abbrev pub IsDelivered : List (ℕ × ℕ) → Event → Round → Type 0
  IsDelivered clients (from_client peer_addr closed packet_data) r =
      (id : ℕ) × (r.offered ≡ some (client_receive_queue id, packet_data))
      × (((r.started ≡ none) × (closed ≡ false) × (client_of peer_addr clients ≡ some id))
          ⊎ ((r.started ≡ some (id, peer_addr))
              × (id ≡ length clients)
              × ((closed ≡ true) ⊎ (client_of peer_addr clients ≡ none))))
  IsDelivered clients (from_connection bytes) r =
      (r.started ≡ none)
      × ((d : Datagram) × (decode var_int bytes ≡ ok d)
          × (r.offered ≡ (
              if ltb d.peer_id (length clients)
              then some (server_receive_queue d.peer_id, d.content)
              else none)))
  IsDelivered clients broken r = ⊥

  -- Every round, with the clients started before.
  abbrev pub IsRouted : List (ℕ × ℕ) → List Event → List Round → Type 0
  IsRouted clients [] [] = Unit
  IsRouted clients (event ∷ events) (r ∷ rounds) =
      IsDelivered clients event r × IsRouted (with_started r.started clients) events rounds
  IsRouted clients _ _ = ⊥

start_client-IsRouter :
    (clients : List (ℕ × ℕ)) (self : Router) (peer_addr : ℕ) (packet_data : List ℕ)
    → IsRouter clients self
    → length clients + 1 < u32_mod
    → (r : Round) × (start_client peer_addr packet_data self ≡ ok r)
      × (r.started ≡ some (length clients, peer_addr))
      × (r.offered ≡ some (client_receive_queue (length clients), packet_data))
      × IsRouter ((length clients, peer_addr) ∷ clients) r.state
unfolding start_client checked_add
start_client-IsRouter clients self peer_addr packet_data is room =
    let id : ℕ = self.next_peer_id in
    let same : id ≡ length clients = is.counted in
    let r : Round = record {
      state = record {
        addr_to_queue = insert peer_addr (client_receive_queue id) self.addr_to_queue;
        id_to_queue = insert id (server_receive_queue id) self.id_to_queue;
        next_peer_id = id + 1;
      };
      started = some (id, peer_addr);
      offered = some (client_receive_queue id, packet_data);
    } in
    (
      r,
      rw
          (
            lt→ltb (id + 1) u32_mod (omega (arith, same, room)),
            get-insert_self peer_addr (client_receive_queue id) self.addr_to_queue,
          )
          refl,
      ap (λ (n : ℕ). some (n, peer_addr)) same,
      ap (λ (n : ℕ). some (client_receive_queue n, packet_data)) same,
      record {
        by_addr = λ addr.
            get-insert peer_addr addr (client_receive_queue id) self.addr_to_queue ∙ newest addr;
        by_id = λ j. get-insert id j (server_receive_queue id) self.id_to_queue ∙ numbered j;
        counted = omega (arith, same);
      },
    )
  where
    newest :
        (addr : ℕ)
        → (if peer_addr == addr
            then some (client_receive_queue self.next_peer_id)
            else get addr self.addr_to_queue)
          ≡ queue_of (client_of addr ((length clients, peer_addr) ∷ clients))
    newest addr = elim (Bool-cases (peer_addr == addr)) [
      | inl e ↦ rw e (ap (λ (n : ℕ). some (client_receive_queue n)) is.counted)
      | inr e ↦ rw e (is.by_addr addr)
    ]

    numbered :
        (j : ℕ)
        → (if self.next_peer_id == j
            then some (server_receive_queue self.next_peer_id)
            else get j self.id_to_queue)
          ≡ (if ltb j (suc (length clients)) then some (server_receive_queue j) else none)
    numbered j = elim (Bool-cases (self.next_peer_id == j)) [
      | inl e ↦
          rw (e, lt→ltb j (suc (length clients)) (ground (arith, is.counted, e)))
            (ap (λ (n : ℕ). some (server_receive_queue n)) ((==_iff self.next_peer_id j).0 e))
      | inr e ↦ rw e (is.by_id j ∙ ground (arith, is.counted, e))
    ]

module _ (var_int : VarInt) where
  abbrev IsRound : List (ℕ × ℕ) → Router → Event → Type 0
  IsRound clients self event =
      (r : Round) × (route var_int self event ≡ ok r)
      × IsDelivered var_int clients event r
      × IsRouter (with_started r.started clients) r.state
      × (length (with_started r.started clients) ≤ length clients + 1)

  new_client :
      (clients : List (ℕ × ℕ)) (self : Router) (peer_addr : ℕ) (closed : Bool)
      (packet_data : List ℕ)
      → IsRouter clients self
      → length clients + 1 < u32_mod
      → usable closed (get peer_addr self.addr_to_queue) ≡ none
      → (closed ≡ true) ⊎ (client_of peer_addr clients ≡ none)
      → IsRound clients self (from_client peer_addr closed packet_data)
  unfolding route route_packet
  new_client clients self peer_addr closed packet_data is room e why =
      let (r, run, started, offered, is') =
        start_client-IsRouter clients self peer_addr packet_data is room in
      (
        r,
        rw (route, route_packet, e) run,
        (length clients, offered, inr (started, refl, why)),
        rw started is',
        rw started (omega arith),
      )

  packet-IsRound :
      (clients : List (ℕ × ℕ)) (self : Router) (peer_addr : ℕ) (closed : Bool)
      (packet_data : List ℕ)
      → IsRouter clients self
      → length clients + 1 < u32_mod
      → IsRound clients self (from_client peer_addr closed packet_data)
  unfolding route route_packet usable
  packet-IsRound clients self peer_addr closed packet_data is room =
      elim (Option-cases (client_of peer_addr clients)) [
        | inl unknown ↦
            new_client clients self peer_addr closed packet_data is room
              (rw (is.by_addr peer_addr, unknown) refl) (inr unknown)
        | inr (id, known) ↦ elim (Bool-cases closed) [
          | inl shut ↦
              new_client clients self peer_addr closed packet_data is room
                (rw (is.by_addr peer_addr, known, shut) refl) (inl shut)
          | inr opened ↦ (
            record {
              state = self;
              started = none;
              offered = some (client_receive_queue id, packet_data);
            },
            rw (route, route_packet, is.by_addr peer_addr, known, opened) refl,
            (id, refl, inl (refl, opened, known)),
            is,
            omega arith,
          )
        ]
      ]

  datagram-IsRound :
      (clients : List (ℕ × ℕ)) (self : Router) (bytes : List ℕ)
      → IsRouter clients self
      → IsIntact var_int (from_connection bytes)
      → IsRound clients self (from_connection bytes)
  unfolding route route_datagram
  datagram-IsRound clients self bytes is (d, decoded) = (
    record {
      state = self;
      started = none;
      offered = offer (get d.peer_id self.id_to_queue) d.content;
    },
    rw (route, route_datagram, decoded) refl,
    (refl, (d, decoded, offered)),
    is,
    omega arith,
  )
    where
      offered : offer (get d.peer_id self.id_to_queue) d.content ≡ (
          if ltb d.peer_id (length clients)
          then some (server_receive_queue d.peer_id, d.content)
          else none)
      offered = elim (Bool-cases (ltb d.peer_id (length clients))) [
        | inl e ↦ rw (is.by_id d.peer_id, e) refl
        | inr e ↦ rw (is.by_id d.peer_id, e) refl
      ]

  event-IsRound :
      (clients : List (ℕ × ℕ)) (self : Router) (event : Event)
      → IsRouter clients self
      → IsIntact var_int event
      → length clients + 1 < u32_mod
      → IsRound clients self event
  event-IsRound clients self (from_client peer_addr closed packet_data) is intact room =
      packet-IsRound clients self peer_addr closed packet_data is room
  event-IsRound clients self (from_connection bytes) is intact room =
      datagram-IsRound clients self bytes is intact
  event-IsRound clients self broken is intact room = absurd intact

  run_lem :
      (clients : List (ℕ × ℕ)) (self : Router) (events : List Event)
      → IsRouter clients self
      → All (IsIntact var_int) events
      → length clients + length events < u32_mod
      → (rounds : List Round) × (run_client_proxy var_int self events ≡ ok rounds)
        × IsRouted var_int clients events rounds
  unfolding run_client_proxy
  run_lem clients self [] is intact room = ([], refl, tt)
  run_lem clients self (event ∷ events) is intact room =
      let (r, run, delivered, is', more) =
        event-IsRound clients self event is intact.0 (omega arith) in
      let (rounds, run', routed) =
        run_lem (with_started r.started clients) r.state events is' intact.1 (omega arith) in
      (r ∷ rounds, rw (run, run') refl, (delivered, routed))

  new-IsRouter : IsRouter [] new_router
  unfolding get
  new-IsRouter = record { by_addr = λ addr. refl; by_id = λ id. ground arith; counted = refl }

  -- While nothing fails, for fewer than 2 ^ 32 events, the loop of the client side returns, and
  -- in every round: a packet goes to the last client that was started for its address if the
  -- queue of that is open, and else to a new client of the next number, so that no two clients
  -- share one; a datagram goes to the client with the number that it carries, and nowhere if
  -- there is none.
  pub run_client_proxy-IsRouted :
      (events : List Event)
      → All (IsIntact var_int) events
      → length events < u32_mod
      → (rounds : List Round) × (run_client_proxy var_int new_router events ≡ ok rounds)
        × IsRouted var_int [] events rounds
  run_client_proxy-IsRouted events intact room =
      run_lem [] new_router events new-IsRouter intact (omega arith)
