-- ===== src/Proxy/ServerProxy/Ongoing.antt =====
-- A download as the phases of the proxy see it: what the metadata say, and what came from the server.
use factorio_multiplayer_cac.Common.{
  ℕ, ◌-◌, ◌≡◌, refl, true, [], ◌∷◌, ◌++◌, map, All, All-append, ltb, Bool-cases, inl, inr,
}
use factorio_multiplayer_cac.Common.BtreeSet.{contains}
use factorio_multiplayer_cac.Crates.Bytes.{Bytes}
use factorio_multiplayer_cac.FactorioProtocol.{FactorioWorldMetadata, TransferBlockPacket}
use factorio_multiplayer_cac.Proxy.{OutPackets}
use factorio_multiplayer_cac.Proxy.ServerProxy.{
  DownloadingWorldState, block_count, total_block_count, announce, start_download, take_block,
  is_complete, request_for, request_next_blocks, on_transfer_block, on_other_packet,
}
use factorio_multiplayer_cac.Proxy.ServerProxy.Download.{
  IsDownload, IsComplete, take_block-IsDownload, request_next_blocks-IsDownload,
  is_complete-IsComplete, start_download-IsDownload,
}

module _ (P : TransferBlockPacket → Type 0) (Q : FactorioWorldMetadata → Type 0) where
  -- A download that goes by its metadata, of blocks with a property and of such metadata.
  pub record IsOngoing (d : DownloadingWorldState) : Type 0 where
    pub tracked : IsDownload (total_block_count d.world_info) d
    pub counted : d.world_block_count ≡ block_count d.world_info.world_size
    pub announced : d.new_world_info ≡ announce d.world_info
    pub from_server : All P d.received_blocks
    pub described : Q d.world_info

  take_block-IsOngoing :
      (now : ℕ) (d : DownloadingWorldState) (b : TransferBlockPacket)
      → P b
      → IsOngoing d
      → IsOngoing (take_block now d b)
  unfolding take_block
  take_block-IsOngoing now d b good o =
      let more : All P (d.received_blocks ++ b ∷ []) =
        All-append P d.received_blocks (b ∷ []) o.from_server (good, tt) in
      let total : ℕ = total_block_count d.world_info in
      let t : IsDownload total (take_block now d b) =
        take_block-IsDownload now total d b o.tracked in
      elim (Bool-cases (contains b.block_id d.inflight_block_requests)) [
        | inl i ↦
            rw (take_block, i)
              (record {
                tracked = rw (take_block, i) at t;
                counted = o.counted;
                announced = o.announced;
                from_server = more;
                described = o.described;
              })
        | inr i ↦ elim (Bool-cases (contains b.block_id d.block_request_queue)) [
          | inl q ↦
              rw (take_block, i, q)
                (record {
                  tracked = rw (take_block, i, q) at t;
                  counted = o.counted;
                  announced = o.announced;
                  from_server = more;
                  described = o.described;
                })
          | inr q ↦ rw (take_block, i, q) o
        ]
      ]

  module _ (api : Bytes) where
    request_next_blocks-IsOngoing :
        (d : DownloadingWorldState) (out : OutPackets)
        → IsOngoing d
        → IsOngoing (request_next_blocks api d out).0
    unfolding request_next_blocks
    request_next_blocks-IsOngoing d out o = record {
      tracked = request_next_blocks-IsDownload api (total_block_count d.world_info) d out o.tracked;
      counted = o.counted;
      announced = o.announced;
      from_server = o.from_server;
      described = o.described;
    }

    -- All blocks of the metadata have come.
    abbrev pub IsReady : DownloadingWorldState → Type 0
    IsReady d = IsOngoing d × IsComplete api (total_block_count d.world_info) d

    pub on_transfer_block-IsOngoing :
        (now : ℕ) (d : DownloadingWorldState) (b : TransferBlockPacket) (out : OutPackets)
        → P b
        → IsOngoing d
        → IsOngoing (on_transfer_block api now d b out).1
          × ((on_transfer_block api now d b out).0 ≡ true
              → IsReady (on_transfer_block api now d b out).1)
    unfolding on_transfer_block
    on_transfer_block-IsOngoing now d b out good o =
        let d' : DownloadingWorldState = take_block now d b in
        let o' : IsOngoing d' = take_block-IsOngoing now d b good o in
        elim (Bool-cases (is_complete d')) [
          | inl c ↦
              rw (on_transfer_block, c)
                (
                  o',
                  λ e. (
                    o',
                    is_complete-IsComplete api (total_block_count d'.world_info) d' o'.tracked c,
                  ),
                )
          | inr c ↦ rw (on_transfer_block, c) (request_next_blocks-IsOngoing d' out o', λ e. cc)
        ]

    pub on_other_packet-IsOngoing :
        (now : ℕ) (d : DownloadingWorldState) (out : OutPackets)
        → IsOngoing d
        → IsOngoing (on_other_packet api now d out).0
    unfolding on_other_packet
    on_other_packet-IsOngoing now d out o = elim (Bool-cases (ltb 100 (now - d.last_block_time))) [
      | inl late ↦
          let again : OutPackets = out ++ map (request_for api) d.inflight_block_requests in
          let o' = request_next_blocks-IsOngoing d again o in
          rw (on_other_packet, late)
            (record {
              tracked = o'.tracked;
              counted = o'.counted;
              announced = o'.announced;
              from_server = o'.from_server;
              described = o'.described;
            })
      | inr soon ↦ rw (on_other_packet, soon) o
    ]

    pub start_download-IsOngoing :
        (now : ℕ) (world_info : FactorioWorldMetadata) (out : OutPackets)
        → Q world_info
        → IsOngoing (request_next_blocks api (start_download now world_info) out).0
    unfolding start_download
    start_download-IsOngoing now world_info out good =
        request_next_blocks-IsOngoing (start_download now world_info) out (record {
          tracked = start_download-IsDownload api now world_info;
          counted = refl;
          announced = refl;
          from_server = tt;
          described = good;
        })
