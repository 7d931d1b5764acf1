-- ===== src/Proxy/ServerProxy/Assemble.antt =====
-- The world and the auxiliary data that a complete download gives.
use factorio_multiplayer_cac.Common.{
  ℕ, zero, suc, ◌+◌, ◌-◌, ◌*◌, ◌%◌, ◌≤◌, ◌<◌, ◌≡◌, refl, sym, ap, ap₂, ◌∙◌, List, [], ◌∷◌, ◌++◌,
  append_assoc, map, concat, length, length-append, take, drop, take_add, drop-drop,
  take_of_length-le, take-length-append, drop-length-append, All, Bool, ltb, false, All-map, le→leb,
  le→ltb, IsU32, u32_mod, arith,
}
use factorio_multiplayer_cac.Crates.Bytes.{Bytes}
use factorio_multiplayer_cac.Crates.Memmem.{Memmem}
use factorio_multiplayer_cac.Crates.Stream.{VarInt}
use factorio_multiplayer_cac.Dedup.{ok}
use factorio_multiplayer_cac.FactorioProtocol.{FactorioWorldMetadata, TransferBlockPacket}
use factorio_multiplayer_cac.Proxy.ServerProxy.{
  DownloadingWorldState, range, block_count, total_block_count,
}
use factorio_multiplayer_cac.Proxy.ServerProxy.Phases.{ServerProxyState, new}
use factorio_multiplayer_cac.Proxy.ServerProxy.Loop.{Event, Sent, Trace, proxy_server}
use factorio_multiplayer_cac.Proxy.ServerProxy.Reactions.{IsTruthful}
use factorio_multiplayer_cac.Proxy.ServerProxy.Session.{proxy_server-IsTrace}
use factorio_multiplayer_cac.Proxy.ServerProxy.Ongoing.{IsReady}
use factorio_multiplayer_cac.Proxy.ServerProxy.Transfer.{
  received_data_of, sort_blocks, slice, collect_world,
}
use factorio_multiplayer_cac.Proxy.ServerProxy.Sorting.{ids, sort_blocks-All, sort_blocks-range}

-- A block of the stream by its number.
abbrev pub block_of : List ℕ → ℕ → List ℕ
block_of stream id = take 503 (drop (id * 503) stream)

abbrev pub IsBlockOf : List ℕ → TransferBlockPacket → Type 0
IsBlockOf stream b = b.content ≡ block_of stream b.block_id

contents-ids :
    (stream : List ℕ) (bs : List TransferBlockPacket)
    → All (IsBlockOf stream) bs
    → map (λ (b : TransferBlockPacket). b.content) bs ≡ map (block_of stream) (ids bs)
contents-ids stream [] h = refl
contents-ids stream (b ∷ bs) h = ap₂ ◌∷◌ h.0 (contents-ids stream bs h.1)

blocks_lem :
    (stream : List ℕ) (n i : ℕ)
    → concat (map (block_of stream) (range i n)) ≡ take (n * 503) (drop (i * 503) stream)
unfolding range
blocks_lem stream zero i = refl
blocks_lem stream (suc n) i =
    ap (λ t. block_of stream i ++ t)
      (blocks_lem stream n (suc i)
        ∙ ap (λ t. take (n * 503) t)
            (ap (λ k. drop k stream) (omega arith) ∙ sym (drop-drop 503 (i * 503) stream)))
    ∙ sym (take_add 503 (n * 503) (drop (i * 503) stream))
    ∙ ap (λ k. take k (drop (i * 503) stream)) (omega arith)

slice_lem :
    (front middle back : List ℕ) (from to : ℕ)
    → from ≡ length front
    → to ≡ from + length middle
    → slice (front ++ (middle ++ back)) from to ≡ ok middle
unfolding slice
slice_lem front middle back from to at until =
    rw
      (
        le→leb from to (omega (arith, until)),
        le→leb to (length (front ++ (middle ++ back))) (
            omega
              (arith, at, until, length-append front (middle ++ back), length-append middle back)),
      )
      (ap ok (
        (λ i. take (size i) (drop (at i) (front ++ (middle ++ back))))
        ∙ ap (λ t. take (length middle) t) (drop-length-append front (middle ++ back))
        ∙ take-length-append middle back))
  where
    size : to - from ≡ length middle
    size = omega (arith, until)

-- What the server has for these metadata: the world, filled up to whole blocks, and behind it the
-- auxiliary data, in the rest of the blocks.
pub record IsServed (world_info : FactorioWorldMetadata) (world aux stream : List ℕ) : Type 0 where
  pub world_pad : List ℕ
  pub aux_pad : List ℕ
  pub whole : stream ≡ (world ++ world_pad) ++ (aux ++ aux_pad)
  pub world_size : length world ≡ world_info.world_size
  pub aux_size : length aux ≡ world_info.aux_size
  pub aligned : length (world ++ world_pad) ≡ block_count world_info.world_size * 503
  pub within : length (aux ++ aux_pad) ≤ block_count world_info.aux_size * 503
  pub fits : IsU32 (block_count world_info.world_size * 503 + world_info.aux_size)

block_count_lt : (size : ℕ) → block_count size < 8538703
unfolding block_count
block_count_lt size = omega arith

total_block_count_lem :
    (world_info : FactorioWorldMetadata)
    → total_block_count world_info
      ≡ block_count world_info.world_size + block_count world_info.aux_size
unfolding total_block_count
total_block_count_lem world_info =
    omega (arith, block_count_lt world_info.world_size, block_count_lt world_info.aux_size)

module _ (api : Bytes) (world_info : FactorioWorldMetadata) (world aux stream : List ℕ)
    (served : IsServed world_info world aux stream) where
  received_data_lem :
      (d : DownloadingWorldState)
      → d.world_info ≡ world_info
      → IsReady (IsBlockOf stream) (λ i. i ≡ world_info) api d
      → received_data_of d.received_blocks ≡ stream
  unfolding received_data_of
  received_data_lem d same (ongoing, complete) =
      let total : ℕ = total_block_count d.world_info in
      let blocks : List TransferBlockPacket = sort_blocks d.received_blocks in
      ap concat (
        contents-ids stream blocks
          (sort_blocks-All (IsBlockOf stream) d.received_blocks ongoing.from_server)
        ∙ ap (λ t. map (block_of stream) t)
            (sort_blocks-range total d.received_blocks complete.0 complete.1))
      ∙ blocks_lem stream total 0
      ∙ take_of_length-le (total * 503) stream (
          omega (
            arith,
            ap total_block_count same,
            total_block_count_lem world_info,
            ap length served.whole,
            length-append (world ++ served.world_pad) (aux ++ served.aux_pad),
            served.aligned,
            served.within,
          ))

  pub collect_world_lem :
      (d : DownloadingWorldState)
      → IsReady (IsBlockOf stream) (λ i. i ≡ world_info) api d
      → collect_world d ≡ ok (world, aux)
  unfolding collect_world
  collect_world_lem d ready =
      let same : d.world_info ≡ world_info = ready.0.described in
      let ws : d.world_info.world_size ≡ world_info.world_size =
        ap (λ (i : FactorioWorldMetadata). i.world_size) same in
      let aux_same : d.world_info.aux_size ≡ world_info.aux_size =
        ap (λ (i : FactorioWorldMetadata). i.aux_size) same in
      let count : d.world_block_count ≡ block_count world_info.world_size =
        ready.0.counted ∙ ap block_count ws in
      let offset : ℕ = d.world_block_count * 503 % u32_mod in
      let at : offset ≡ length (world ++ served.world_pad) =
        omega (arith, count, served.aligned, served.fits) in
      let until : ℕ = (offset + d.world_info.aux_size) % u32_mod in
      let size : length stream
          ≡ length (world ++ served.world_pad) + (length aux + length served.aux_pad) =
        omega (
          arith,
          ap length served.whole,
          length-append (world ++ served.world_pad) (aux ++ served.aux_pad),
          length-append aux served.aux_pad,
        ) in
      let world_slice : slice stream 0 d.world_info.world_size ≡ ok world =
        ap (λ t. slice t 0 d.world_info.world_size)
          (served.whole ∙ append_assoc world served.world_pad (aux ++ served.aux_pad))
        ∙ slice_lem [] world (served.world_pad ++ (aux ++ served.aux_pad)) 0 d.world_info.world_size
            refl (omega (arith, ws, served.world_size)) in
      let aux_slice : slice stream offset until ≡ ok aux =
        ap (λ t. slice t offset until) served.whole
        ∙ slice_lem (world ++ served.world_pad) aux served.aux_pad offset until at
            (omega (arith, at, aux_same, served.aux_size, served.aligned, served.fits)) in
      let enough : ltb (length stream) (offset + d.world_info.aux_size) ≡ false =
        le→ltb (length stream) (offset + d.world_info.aux_size)
          (omega (arith, at, aux_same, served.aux_size, size)) in
      rw (collect_world, received_data_lem d same ready, enough, world_slice, aux_slice) refl

  -- If all that comes from the address of the server is truthful, blocks of one stream and
  -- metadata of the world in it, then the loop returns without a panic whatever else happens, at
  -- most one download goes to a task, and that task collects exactly the world and the auxiliary
  -- data of the stream.
  pub proxy_server-collect_world :
      {Streams : Type 0} (memmem : Memmem) (var_int : VarInt) (accepts : Sent → Bool)
      (factorio_addr peer_id : ℕ) (streams : Streams) (events : List Event)
      → All (IsTruthful api (IsBlockOf stream) (λ i. i ≡ world_info) factorio_addr) events
      → (state' : ServerProxyState Streams) × (trace' : Trace Streams) × (proxy_server api memmem
            var_int accepts factorio_addr peer_id
            (new streams)
            events
            (record { sent = []; spawned = [] })
          ≡ ok (state', trace'))
        × (length trace'.spawned ≤ 1)
        × All
            (λ (task : Streams × DownloadingWorldState). collect_world task.1 ≡ ok (world, aux))
            trace'.spawned
  proxy_server-collect_world memmem var_int accepts factorio_addr peer_id streams events truthful =
      let (state', trace', run, (count, ready)) =
        proxy_server-IsTrace api memmem (IsBlockOf stream) (λ i. i ≡ world_info) var_int accepts
          factorio_addr peer_id streams events truthful in
      (
        state',
        trace',
        run,
        omega (arith, count),
        All-map (λ task r. collect_world_lem task.1 r) trace'.spawned ready,
      )
