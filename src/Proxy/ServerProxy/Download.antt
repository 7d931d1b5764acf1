-- ===== src/Proxy/ServerProxy/Download.antt =====
-- No block of a download is lost or taken twice, and few requests are under way at a time.
use mathlib.Core.Path.{subst}
use factorio_multiplayer_cac.Common.{
  ℕ, suc, ◌-◌, ◌<◌, ◌≡◌, refl, sym, ap, true, false, List, [], ◌∷◌, ◌++◌, map, length, ltb, ltb→lt,
  Bool-cases, inl, inr, arith,
}
use factorio_multiplayer_cac.Common.BtreeSet.{BtreeSet, insert, remove, contains}
use factorio_multiplayer_cac.Crates.Bytes.{Bytes}
use factorio_multiplayer_cac.FactorioProtocol.{FactorioWorldMetadata, TransferBlockPacket}
use factorio_multiplayer_cac.Proxy.{OutPackets}
use factorio_multiplayer_cac.Proxy.ServerProxy.{
  DownloadingWorldState, Arrival, block_arrives, broken_arrives, other_arrives, arrival_of, arrive,
  download, total_block_count, start_download, take_block, is_complete, request_for, request_loop,
  request_next_blocks, on_transfer_block, on_other_packet,
}
use factorio_multiplayer_cac.Proxy.ServerProxy.Tracking.{
  IsTracked, ask_next, take_inflight, take_queued, length-range, contains-range, range-IsAscending,
  range-All,
}

abbrev pub received_ids : DownloadingWorldState → List ℕ
received_ids s = map (λ (b : TransferBlockPacket). b.block_id) s.received_blocks

abbrev pub IsDownload : ℕ → DownloadingWorldState → Type 0
IsDownload total s =
    IsTracked s.block_request_queue s.inflight_block_requests (received_ids s) total

map-snoc :
    (bs : List TransferBlockPacket) (b : TransferBlockPacket)
    → map (λ (b : TransferBlockPacket). b.block_id) (bs ++ b ∷ [])
      ≡ map (λ (b : TransferBlockPacket). b.block_id) bs ++ b.block_id ∷ []
map-snoc [] b = refl
map-snoc (c ∷ bs) b = ap (◌∷◌ c.block_id) (map-snoc bs b)

pub take_block-IsDownload :
    (now total : ℕ) (s : DownloadingWorldState) (b : TransferBlockPacket)
    → IsDownload total s
    → IsDownload total (take_block now s b)
unfolding take_block
take_block-IsDownload now total s b t =
    elim (Bool-cases (contains b.block_id s.inflight_block_requests)) [
      | inl i ↦
          rw (take_block, i)
            (subst
              (λ (r : List ℕ).
                IsTracked s.block_request_queue (remove b.block_id s.inflight_block_requests) r
                  total)
              (sym (map-snoc s.received_blocks b))
              (take_inflight b.block_id s.block_request_queue s.inflight_block_requests
                (received_ids s) total i t))
      | inr i ↦ elim (Bool-cases (contains b.block_id s.block_request_queue)) [
        | inl q ↦
            rw (take_block, i, q)
              (subst
                (λ (r : List ℕ).
                  IsTracked (remove b.block_id s.block_request_queue) s.inflight_block_requests r
                    total)
                (sym (map-snoc s.received_blocks b))
                (take_queued b.block_id s.block_request_queue s.inflight_block_requests
                  (received_ids s) total q t))
        | inr q ↦ rw (take_block, i, q) t
      ]
    ]

length-map :
    (f : TransferBlockPacket → ℕ) (bs : List TransferBlockPacket) → length (map f bs) ≡ length bs
length-map f [] = refl
length-map f (b ∷ bs) = ap suc (length-map f bs)

complete_lem :
    (queue inflight : BtreeSet)
    → (elim queue [ [] ↦ elim inflight [ [] ↦ true | _ ∷ _ ↦ false ] | _ ∷ _ ↦ false ]) ≡ true
    → (queue ≡ []) × (inflight ≡ [])
complete_lem [] [] h = (refl, refl)
complete_lem [] (i ∷ is) h = cc
complete_lem (q ∷ qs) inflight h = cc

module _ (api : Bytes) where
  request_loop-IsTracked :
      (queue inflight : BtreeSet) (out : OutPackets) (received : List ℕ) (total : ℕ)
      → IsTracked queue inflight received total
      → let (queue', inflight', out') = request_loop api queue inflight out in
        IsTracked queue' inflight' received total
  unfolding request_loop
  request_loop-IsTracked [] inflight out received total t = t
  request_loop-IsTracked (id ∷ rest) inflight out received total t =
      elim (Bool-cases (ltb (length inflight) 16)) [
        | inl room ↦
            rw (request_loop, room)
              (request_loop-IsTracked rest (insert id inflight) (out ++ request_for api id ∷ [])
                received total
                (ask_next id rest inflight received total (ltb→lt (length inflight) 16 room) t))
        | inr full ↦ rw (request_loop, full) t
      ]

  pub request_next_blocks-IsDownload :
      (total : ℕ) (s : DownloadingWorldState) (out : OutPackets)
      → IsDownload total s
      → IsDownload total (request_next_blocks api s out).0
  unfolding request_next_blocks
  request_next_blocks-IsDownload total s out t =
      request_loop-IsTracked s.block_request_queue s.inflight_block_requests out (received_ids s)
        total t

  -- Everything was received, and nothing twice: the numbers are all there, in as many blocks.
  abbrev pub IsComplete : ℕ → DownloadingWorldState → Type 0
  IsComplete total s =
      (length s.received_blocks ≡ total)
      × ((id : ℕ) → id < total → contains id (received_ids s) ≡ true)

  pub is_complete-IsComplete :
      (total : ℕ) (s : DownloadingWorldState)
      → IsDownload total s
      → is_complete s ≡ true
      → IsComplete total s
  unfolding is_complete contains
  is_complete-IsComplete total s t done =
      let (no_queue, no_inflight) =
        complete_lem s.block_request_queue s.inflight_block_requests done in
      (
        omega (
          arith,
          t.count,
          ap (length {A = ℕ}) no_queue,
          ap (length {A = ℕ}) no_inflight,
          length-map (λ (b : TransferBlockPacket). b.block_id) s.received_blocks,
        ),
        λ id lt. elim (t.known id lt) [
          | inl q ↦ cc (q, ap (contains id) no_queue)
          | inr (inl i) ↦ cc (i, ap (contains id) no_inflight)
          | inr (inr r) ↦ r
        ],
      )

  on_transfer_block-IsDownload :
      (now total : ℕ) (s : DownloadingWorldState) (b : TransferBlockPacket) (out : OutPackets)
      → IsDownload total s
      → IsDownload total (on_transfer_block api now s b out).1
        × ((on_transfer_block api now s b out).0 ≡ true
            → IsComplete total (on_transfer_block api now s b out).1)
  unfolding on_transfer_block
  on_transfer_block-IsDownload now total s b out t =
      let s' : DownloadingWorldState = take_block now s b in
      let t' : IsDownload total s' = take_block-IsDownload now total s b t in
      elim (Bool-cases (is_complete s')) [
        | inl c ↦ rw (on_transfer_block, c) (t', λ e. is_complete-IsComplete total s' t' c)
        | inr c ↦
            rw (on_transfer_block, c) (request_next_blocks-IsDownload total s' out t', λ e. cc)
      ]

  on_other_packet-IsDownload :
      (now total : ℕ) (s : DownloadingWorldState) (out : OutPackets)
      → IsDownload total s
      → IsDownload total (on_other_packet api now s out).0
  unfolding on_other_packet
  on_other_packet-IsDownload now total s out t =
      elim (Bool-cases (ltb 100 (now - s.last_block_time))) [
        | inl late ↦
            rw (on_other_packet, late)
              (request_next_blocks-IsDownload total s
                (out ++ map (request_for api) s.inflight_block_requests) t)
        | inr soon ↦ rw (on_other_packet, soon) t
      ]

  arrive-IsDownload :
      (total : ℕ) (s : DownloadingWorldState) (a : Arrival) (out : OutPackets)
      → IsDownload total s
      → IsDownload total (arrive api s a out).1
        × ((arrive api s a out).0 ≡ true → IsComplete total (arrive api s a out).1)
  unfolding arrive
  arrive-IsDownload total s (block_arrives now b) out t =
      on_transfer_block-IsDownload now total s b out t
  arrive-IsDownload total s broken_arrives out t = (t, λ e. cc)
  arrive-IsDownload total s (other_arrives now) out t =
      (on_other_packet-IsDownload now total s out t, λ e. cc)

  download_lem :
      (total : ℕ) (s : DownloadingWorldState) (packets : List (ℕ × List ℕ)) (out : OutPackets)
      → IsDownload total s
      → IsDownload total (download api s packets out).1
        × ((download api s packets out).0 ≡ true → IsComplete total (download api s packets out).1)
  unfolding download
  download_lem total s [] out t = (t, λ e. cc)
  download_lem total s ((now, packet_data) ∷ rest) out t =
      let a : Arrival = arrival_of api now packet_data in
      let (t', complete) = arrive-IsDownload total s a out t in
      elim (Bool-cases (arrive api s a out).0) [
        | inl c ↦ rw (download, c) (t', λ e. complete c)
        | inr c ↦
            rw (download, c)
              (download_lem total (arrive api s a out).1 rest (arrive api s a out).2 t')
      ]

  pub start_download-IsDownload :
      (now : ℕ) (world_info : FactorioWorldMetadata)
      → IsDownload (total_block_count world_info) (start_download now world_info)
  unfolding start_download
  start_download-IsDownload now world_info =
      let total = total_block_count world_info in
      record {
        ascending = range-IsAscending 0 total;
        apart = range-All 0 total;
        count = omega (arith, length-range 0 total);
        known = λ id lt. inl (contains-range id 0 total (omega arith) (omega arith));
        limit = omega arith;
      }

  -- From the start of a download, whatever packets the server sends, every block number is
  -- queued, asked for or received, the three make up the number of blocks, none is queued and
  -- asked for at once, and at most 16 are asked for; when the download says that it is complete,
  -- as many blocks were received as the world and the auxiliary data have, and every number is
  -- among them.
  pub download-IsDownload :
      (now : ℕ) (world_info : FactorioWorldMetadata) (packets : List (ℕ × List ℕ))
      (out : OutPackets)
      → let total = total_block_count world_info in
        let (complete, s, out') = download api (start_download now world_info) packets out in
        IsDownload total s × (complete ≡ true → IsComplete total s)
  download-IsDownload now world_info packets out =
      download_lem (total_block_count world_info) (start_download now world_info) packets out
        (start_download-IsDownload now world_info)
