-- ===== src/Proxy/ClientProxy/Calls.antt =====
-- The state of the client proxy over any sequence of calls.
use factorio_multiplayer_cac.Common.{
  ℕ, ◌≡◌, Bool, true, false, Option, none, some, List, [], ◌∷◌, All-map, if◌then◌else◌, Bool-cases,
  Option-cases, inl, inr, arith,
}
use factorio_multiplayer_cac.Common.BtreeSet.{insert-All, insert-IsAscending}
use factorio_multiplayer_cac.Crates.Bytes.{Bytes}
use factorio_multiplayer_cac.Proxy.{OutPackets}
use factorio_multiplayer_cac.Proxy.ClientProxy.{
  ClientProxyState, new, clean_up, block_request_of, on_packet_from_client, on_new_world_data,
}
use factorio_multiplayer_cac.Proxy.ClientProxy.Requests.{
  is_there, IsWaiting, fulfill_there, fulfill_missing, new-IsWaiting, on_new_world_data_lem,
}

-- What `proxy_client` calls on the state, with the time.
pub data Call : Type 0 where
  packet : ℕ → List ℕ → Call
  world : ℕ → Option (List ℕ) → Call

if-elim :
    (P : ClientProxyState → Type 0) (b : Bool) (x y : ClientProxyState)
    → P x
    → P y
    → P (if b then x else y)
if-elim P true x y px py = px
if-elim P false x y px py = py

nothing_there : (id : ℕ) → is_there [] id ≡ false
nothing_there id = ground arith

clean_up-IsWaiting : (now : ℕ) (s : ClientProxyState) → IsWaiting s → IsWaiting (clean_up now s)
unfolding clean_up
clean_up-IsWaiting now s w =
    if-elim IsWaiting _ (record s { world_data = [] }) s
      (record {
        ascending = w.ascending;
        not_there = All-map (λ id h. nothing_there id) s.pending_requests w.not_there;
        no_spare = w.no_spare;
      })
      w

module _ (api : Bytes) where
  abbrev pub call : ClientProxyState × OutPackets → Call → ClientProxyState × OutPackets
  call (s, out) (packet now packet_data) = on_packet_from_client api now s packet_data out
  call (s, out) (world now new_data) = on_new_world_data api now s new_data out

  -- The last call of the list comes last.
  abbrev pub run : ClientProxyState × OutPackets → List Call → ClientProxyState × OutPackets
  run s [] = s
  run s (c ∷ cs) = run (call s c) cs

  packet-IsWaiting :
      (now : ℕ) (s : ClientProxyState) (packet_data : List ℕ) (out : OutPackets)
      → IsWaiting s
      → IsWaiting (on_packet_from_client api now s packet_data out).0
  unfolding on_packet_from_client
  packet-IsWaiting now s packet_data out w =
      elim (Option-cases (block_request_of api packet_data)) [
        | inl e ↦ rw (on_packet_from_client, e) (clean_up-IsWaiting now s w)
        | inr (request, e) ↦ elim (Bool-cases (is_there s.world_data request.block_id)) [
          | inl h ↦
              rw (on_packet_from_client, e, fulfill_there s.world_data request.block_id h)
                (record { ascending = w.ascending; not_there = w.not_there; no_spare = w.no_spare })
          | inr h ↦
              rw (on_packet_from_client, e, fulfill_missing s.world_data request.block_id h)
                (record {
                  ascending = insert-IsAscending request.block_id s.pending_requests w.ascending;
                  not_there =
                      insert-All (λ id. is_there s.world_data id ≡ false) request.block_id
                        s.pending_requests h w.not_there;
                  no_spare = w.no_spare;
                })
        ]
      ]

  pub call-IsWaiting :
      (s : ClientProxyState) (out : OutPackets) (c : Call)
      → IsWaiting s
      → IsWaiting (call (s, out) c).0
  unfolding on_new_world_data
  call-IsWaiting s out (packet now packet_data) w = packet-IsWaiting now s packet_data out w
  call-IsWaiting s out (world now none) w = record {
    ascending = w.ascending;
    not_there = w.not_there;
    no_spare = w.no_spare;
  }
  call-IsWaiting s out (world now (some new_data)) w =
      (on_new_world_data_lem api now s new_data out w).1

  run_lem :
      (s : ClientProxyState × OutPackets) (cs : List Call) → IsWaiting s.0 → IsWaiting (run s cs).0
  run_lem s [] w = w
  run_lem (s, out) (c ∷ cs) w = run_lem (call (s, out) c) cs (call-IsWaiting s out c w)

  -- After any sequence of packets from the client and of world data, their end included, the
  -- pending requests are ascending, none of them could be answered from the data at hand, and the
  -- spare set is empty.
  pub run-IsWaiting : (now : ℕ) (cs : List Call) → IsWaiting (run (new now, []) cs).0
  run-IsWaiting now cs = run_lem (new now, []) cs (new-IsWaiting api now)
