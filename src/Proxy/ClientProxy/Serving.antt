-- ===== src/Proxy/ClientProxy/Serving.antt =====
-- The loop of the proxy of one client from its start.
use factorio_multiplayer_cac.Common.{
  ℕ, ◌^◌, ◌<◌, ◌≡◌, refl, sym, ◌∙◌, arith, Bool, false, Option, none, some, List, [], ◌∷◌, ◌++◌,
  All, All-append, Bool-cases, Option-cases, inl, inr,
}
use mathlib.Core.Path.{subst}
use factorio_multiplayer_cac.Crates.Bytes.{Bytes}
use factorio_multiplayer_cac.Crates.Stream.{VarInt}
use factorio_multiplayer_cac.Dedup.{ok}
use factorio_multiplayer_cac.Protocol.{decode}
use factorio_multiplayer_cac.Protocol.Messages.{decode-encode}
use factorio_multiplayer_cac.Proxy.{PacketDirection, to_client, to_server, OutPackets}
use factorio_multiplayer_cac.Proxy.ClientProxy.{
  ClientProxyState, new, clean_up, try_fulfill_block_request, block_request_of,
  on_packet_from_client, on_new_world_data,
}
use factorio_multiplayer_cac.Proxy.ClientProxy.Requests.{IsWaiting, new-IsWaiting}
use factorio_multiplayer_cac.Proxy.ClientProxy.Calls.{packet, world, call-IsWaiting}
use factorio_multiplayer_cac.Proxy.ClientProxy.Loop.{
  Event, from_client, from_server, world_data, over, Sent, to_game, datagram, packet_to_send,
  send_all, Proxying, react, proxy_client,
}

-- The proxy waits for what it lacks, and the loop and the state agree on the end of the world data.
pub record IsServing (s : Proxying) : Type 0 where
  pub waiting : IsWaiting s.proxy_state
  pub agreed : s.world_data_done ≡ s.proxy_state.world_data_done

module _ (var_int : VarInt) (peer_id : ℕ) where
  -- A datagram that is read as one with the number of the peer.
  abbrev pub IsOwn : Sent → Type 0
  IsOwn (to_game packet_data) = Unit
  IsOwn (datagram bytes) =
      (content : List ℕ) × (decode var_int bytes
        ≡ ok (record { peer_id = peer_id; content = content }))

  packet_to_send-IsOwn :
      (packet_data : List ℕ) (direction : PacketDirection)
      → peer_id < 2 ^ 62
      → IsOwn (packet_to_send var_int peer_id packet_data direction)
  unfolding packet_to_send
  packet_to_send-IsOwn packet_data to_client small = tt
  packet_to_send-IsOwn packet_data to_server small = (
    packet_data,
    decode-encode var_int (record { peer_id = peer_id; content = packet_data }) small,
  )

  send_all-IsOwn :
      (accepts : Sent → Bool) (out : OutPackets) (sent : List Sent)
      → peer_id < 2 ^ 62
      → All IsOwn sent
      → All IsOwn (send_all var_int peer_id accepts out sent).1
  unfolding send_all
  send_all-IsOwn accepts [] sent small own = own
  send_all-IsOwn accepts ((packet_data, direction) ∷ rest) sent small own =
      let next : Sent = packet_to_send var_int peer_id packet_data direction in
      elim (Bool-cases (accepts next)) [
        | inl e ↦
            rw (send_all, e)
              (send_all-IsOwn accepts rest (sent ++ next ∷ []) small (
                All-append IsOwn sent (next ∷ []) own
                  (packet_to_send-IsOwn packet_data direction small, tt)))
        | inr e ↦ rw (send_all, e) own
      ]

clean_up-done :
    (now : ℕ) (s : ClientProxyState) → (clean_up now s).world_data_done ≡ s.world_data_done
unfolding clean_up
clean_up-done now s = ground arith

module _ (api : Bytes) where
  on_packet_from_client-done :
      (now : ℕ) (s : ClientProxyState) (packet_data : List ℕ) (out : OutPackets)
      → (on_packet_from_client api now s packet_data out).0.world_data_done ≡ s.world_data_done
  unfolding on_packet_from_client
  on_packet_from_client-done now s packet_data out =
      elim (Option-cases (block_request_of api packet_data)) [
        | inl e ↦ rw (on_packet_from_client, e) (clean_up-done now s)
        | inr (request, e) ↦
            elim (Option-cases (try_fulfill_block_request s.world_data request.block_id)) [
              | inl f ↦ rw (on_packet_from_client, e, f) refl
              | inr (response, f) ↦ rw (on_packet_from_client, e, f) refl
            ]
      ]

  abbrev IsReaction : Option (Proxying × OutPackets) → Type 0
  IsReaction none = Unit
  IsReaction (some (s, out)) = IsServing s

  react-IsServing : (s : Proxying) (event : Event) → IsServing s → IsReaction (react api s event)
  unfolding react on_new_world_data
  react-IsServing s (from_client now packet_data) serving = record {
    waiting = call-IsWaiting api s.proxy_state [] (packet now packet_data) serving.waiting;
    agreed = serving.agreed ∙ sym (on_packet_from_client-done now s.proxy_state packet_data []);
  }
  react-IsServing s (from_server packet_data) serving = serving
  react-IsServing s (world_data now none) serving = elim (Bool-cases s.world_data_done) [
    | inl e ↦ rw (react, e) (record { waiting = serving.waiting; agreed = sym e ∙ serving.agreed })
    | inr e ↦
        rw (react, e)
          (record {
            waiting = call-IsWaiting api s.proxy_state [] (world now none) serving.waiting;
            agreed = refl;
          })
  ]
  react-IsServing s (world_data now (some new_data)) serving = elim (Bool-cases s.world_data_done) [
    | inl e ↦ rw (react, e) (record { waiting = serving.waiting; agreed = sym e ∙ serving.agreed })
    | inr e ↦
        rw (react, e)
          (record {
            waiting =
                call-IsWaiting api s.proxy_state [] (world now (some new_data)) serving.waiting;
            agreed = sym e ∙ serving.agreed;
          })
  ]
  react-IsServing s over serving = tt

module _ (api : Bytes) (var_int : VarInt) (accepts : Sent → Bool) (peer_id : ℕ) where
  abbrev IsRun : Proxying × List Sent → Type 0
  IsRun (s, sent) = IsServing s × All (IsOwn var_int peer_id) sent

  run_lem :
      (s : Proxying) (events : List Event) (sent : List Sent)
      → peer_id < 2 ^ 62
      → IsServing s
      → All (IsOwn var_int peer_id) sent
      → IsRun (proxy_client api var_int accepts peer_id s events sent)
  unfolding proxy_client
  run_lem s [] sent small serving own = (serving, own)
  run_lem s (event ∷ rest) sent small serving own = elim (Option-cases (react api s event)) [
    | inl e ↦ rw (proxy_client, e) (serving, own)
    | inr ((s', out), e) ↦
        let sent' : List Sent = (send_all var_int peer_id accepts out sent).1 in
        let serving' : IsServing s' =
          subst (IsReaction api) e (react-IsServing api s event serving) in
        let own' : All (IsOwn var_int peer_id) sent' =
          send_all-IsOwn var_int peer_id accepts out sent small own in
        elim (Bool-cases (send_all var_int peer_id accepts out sent).0) [
          | inl a ↦ rw (proxy_client, e, a) (run_lem s' rest sent' small serving' own')
          | inr a ↦ rw (proxy_client, e, a) (serving', own')
        ]
  ]

  -- With a peer id below 2 ^ 62, wherever the loop of one client stops, its pending requests are
  -- ascending, none of them could be answered from the data at hand, and the spare set is empty;
  -- the flag of the loop that the world data have ended is that of the state; and every datagram
  -- that was sent is read as one with its peer id.
  pub proxy_client-IsServing :
      (now : ℕ) (events : List Event)
      → peer_id < 2 ^ 62
      → IsServing
          (proxy_client api var_int accepts peer_id
            (record { proxy_state = new now; world_data_done = false })
            events
            []).0
        × All
            (IsOwn var_int peer_id)
            (proxy_client api var_int accepts peer_id
              (record { proxy_state = new now; world_data_done = false })
              events
              []).1
  unfolding new
  proxy_client-IsServing now events small =
      run_lem (record { proxy_state = new now; world_data_done = false }) events [] small
        (record { waiting = new-IsWaiting api now; agreed = refl }) tt
