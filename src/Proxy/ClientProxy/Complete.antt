-- ===== src/Proxy/ClientProxy/Complete.antt =====
-- The blocks that the client's task gives are a whole download of the announced size and CRC.
use factorio_multiplayer_cac.Common.{
  ℕ, ◌<◌, ◌≤◌, suc, ◌+◌, ◌≡◌, refl, sym, ap, ◌∙◌, List, [], ◌∷◌, ◌++◌, append-nil, concat,
  concat-append, length, length-append, All, IsByte, IsU16, IsU32, arith, ◌⊎◌, inl, inr, Bool-cases,
  Option-cases, leb, leb→le,
}
use mathlib.Core.Path.{subst}
use factorio_multiplayer_cac.Crates.Bytes.{Bytes}
use factorio_multiplayer_cac.Crates.Crc.{Crc}
use factorio_multiplayer_cac.Crates.Content.{Blake3, Miniz}
use factorio_multiplayer_cac.Crates.LinkedMap.{LinkedHashMap}
use factorio_multiplayer_cac.Crates.Stream.{Io}
use factorio_multiplayer_cac.ChunkCache.{ChunkCacheInner}
use factorio_multiplayer_cac.ZipWriter
use factorio_multiplayer_cac.ZipWriter.{encode_file_header}
use factorio_multiplayer_cac.ZipWriter.Archive.{encode_file_header_lem}
use factorio_multiplayer_cac.Dedup
use factorio_multiplayer_cac.Dedup.{
  FactorioFileDescription, FactorioWorldDescription, WorldReconstructor, Outcome, ok, err, panic,
  ◌>>=◌, put_chunks, encode_by_type, encode_factorio_file, reconstruct_world_file,
  finalize_world_file,
}
use factorio_multiplayer_cac.Dedup.Chunks.{ChunkMap}
use factorio_multiplayer_cac.Dedup.Rebuild.{Outcome-cases, reconstruct_world_file-Follows}
use factorio_multiplayer_cac.Dedup.Seal.{Follows, IsDownload, new-Follows}
use factorio_multiplayer_cac.Dedup.Finalize.{
  finalize_world_file-IsDownload, finalize_world_file_too_large,
}
use factorio_multiplayer_cac.FactorioProtocol.{FactorioWorldMetadata}
use factorio_multiplayer_cac.Protocol.{Codes, WorldReadyMessage, encode_message}
use factorio_multiplayer_cac.Protocol.Messages.{frame}
use factorio_multiplayer_cac.Proxy.ClientProxy.Transfer.{Surroundings, transfer_world_data}
use factorio_multiplayer_cac.Proxy.ClientProxy.Rebuild.{rebuild_all}
use factorio_multiplayer_cac.Proxy.ClientProxy.World.{
  blocks_of, rebuilt_world, IsSetUp, transfer_world_data-rebuilt_world,
}

abbrev entry_count : Outcome (List ℕ × List ℕ × WorldReconstructor) → ℕ
entry_count (ok (header, file_data, self)) = length self.zip_writer.entries
entry_count err = 0
entry_count panic = 0

module _ (api : Bytes) (crc : Crc) (miniz : Miniz) where
  -- A file whose chunks are there, with a name and an encoded content that fit the archive.
  abbrev pub IsRebuildable : ChunkMap → FactorioFileDescription → Type 0
  IsRebuildable chunks file =
      (content : List ℕ) × (put_chunks file.content_chunks chunks [] ≡ ok content)
      × All IsByte file.file_name
      × IsU16 (length file.file_name)
      × IsU32 (length (encode_by_type miniz file.file_type content))

  reconstruct_world_file-entries :
      (self self' : WorldReconstructor) (file : FactorioFileDescription) (chunks : ChunkMap)
      (header file_data : List ℕ)
      → reconstruct_world_file api crc miniz self file chunks ≡ ok (header, file_data, self')
      → length self'.zip_writer.entries ≡ suc (length self.zip_writer.entries)
  unfolding reconstruct_world_file
  reconstruct_world_file-entries self self' file chunks header file_data run =
      elim (Outcome-cases (put_chunks file.content_chunks chunks [])) [
        | inl e ↦ cc (rw e at run)
        | inr (inl e) ↦ cc (rw e at run)
        | inr (inr (buf, e)) ↦
            let encoded : List ℕ =
              encode_factorio_file miniz (record { file_type = file.file_type; content = buf }) in
            elim (Option-cases
              (encode_file_header api crc self.zip_writer file.file_name encoded)) [
                | inl n ↦ cc (rw (e, n) at run)
                | inr ((h, w'), n) ↦
                    let (header_is, size_fits, name_fits, w'_is) =
                      encode_file_header_lem crc api self.zip_writer w' file.file_name encoded h
                        n in
                    omega (
                      arith,
                      ap entry_count (rw (e, n) at run),
                      ap (λ (w : ZipWriter.ZipWriter). length w.entries) w'_is,
                      length-append self.zip_writer.entries (
                          ZipWriter.Archive.entry_of crc self.zip_writer file.file_name encoded
                          ∷ []),
                    )
              ]
      ]

  -- The reconstructor behind all files follows the blocks that were given.
  rebuild_all-Follows :
      (files : List FactorioFileDescription) (self : WorldReconstructor) (chunks : ChunkMap)
      (blocks : List (List ℕ))
      → Follows crc self (concat blocks)
      → All (IsRebuildable chunks) files
      → (self' : WorldReconstructor) × (blocks' : List (List ℕ)) × (rebuild_all api crc miniz self
            files chunks blocks
          ≡ ok (self', blocks'))
        × Follows crc self' (concat blocks')
        × (length self'.zip_writer.entries ≡ length self.zip_writer.entries + length files)
  rebuild_all-Follows [] self chunks blocks follows rebuildable =
      (self, blocks, refl, follows, omega arith)
  rebuild_all-Follows (file ∷ files) self chunks blocks follows
        ((content, put, name_bytes, name_fits, size_fits), rebuildable) =
      let file_data : List ℕ = encode_by_type miniz file.file_type content in
      let (header, self1, run, follows1) =
        reconstruct_world_file-Follows api crc miniz self file chunks (concat blocks) content
          follows put name_bytes name_fits size_fits in
      let more : concat (blocks ++ header ∷ file_data ∷ [])
          ≡ concat blocks ++ (header ++ file_data) =
        concat-append blocks (header ∷ file_data ∷ [])
        ∙ ap (λ t. concat blocks ++ (header ++ t)) (append-nil file_data) in
      let (self', blocks', run', follows', count) =
        rebuild_all-Follows files self1 chunks (blocks ++ header ∷ file_data ∷ [])
          (subst (Follows crc self1) (sym more) follows1) rebuildable in
      (
        self',
        blocks',
        rw run run',
        follows',
        omega (
          arith,
          count,
          reconstruct_world_file-entries self self1 file chunks header file_data run,
        ),
      )

  -- What fits: the announced size and the auxiliary data with a block to spare, the CRC, and the
  -- number of files.
  pub record IsFitting (world : FactorioWorldDescription) (info : FactorioWorldMetadata)
      : Type 0 where
    pub size_fits : IsU32 (info.world_size + 502)
    pub aux_fits : IsU32 (length world.aux_data + 502)
    pub crc_fits : IsU32 info.world_crc
    pub aux_bytes : All IsByte world.aux_data
    pub count_fits : IsU16 (length world.files)

  -- What the reconstructor needs for its archive, with the four forged bytes.
  abbrev pub needed_size : WorldReconstructor → ℕ
  needed_size self =
      ZipWriter.current_size self.zip_writer + ZipWriter.central_directory_size self.zip_writer + 4

  -- All files are rebuilt, with an entry for each. If the archive does not fit into the announced
  -- size, the outcome is an error; if it does, the outcome is a whole download.
  abbrev pub IsWhole :
      FactorioWorldDescription → FactorioWorldMetadata → ChunkMap → Outcome (List (List ℕ)) → Type 0
  IsWhole world info chunks outcome =
      (self : WorldReconstructor) × (blocks : List (List ℕ)) × (rebuild_all api crc miniz
          (Dedup.new crc) world.files chunks []
        ≡ ok (self, blocks))
      × (length self.zip_writer.entries ≡ length world.files)
      × (((info.world_size < needed_size self) × (outcome ≡ err))
          ⊎ ((needed_size self ≤ info.world_size)
              × ((last : List ℕ) × (outcome ≡ ok (blocks ++ last ∷ []))
                  × IsDownload crc self (concat blocks) world.aux_data info.world_size
                      info.world_crc last)))

  rebuilt_world-IsWhole :
      (world : FactorioWorldDescription) (info : FactorioWorldMetadata) (chunks : ChunkMap)
      → All (IsRebuildable chunks) world.files
      → IsFitting world info
      → IsWhole world info chunks (rebuilt_world api crc miniz world info chunks)
  unfolding Dedup.new ZipWriter.new
  rebuilt_world-IsWhole world info chunks rebuildable fits =
      let (self, blocks, run, follows, count) =
        rebuild_all-Follows world.files (Dedup.new crc) chunks [] (new-Follows api crc)
          rebuildable in
      (
        self,
        blocks,
        run,
        omega (arith, count),
        elim (Bool-cases (leb (needed_size self) info.world_size)) [
          | inr beyond ↦
              let too_large : info.world_size < needed_size self = ground arith in
              inl (
                too_large,
                rw
                    (
                      run,
                      finalize_world_file_too_large api crc self world info.world_size
                          info.world_crc too_large,
                    )
                    refl,
              )
          | inl within ↦
              let room : needed_size self ≤ info.world_size =
                leb→le (needed_size self) info.world_size within in
              let (last, run', download) =
                finalize_world_file-IsDownload api crc self world (concat blocks) info.world_size
                  info.world_crc follows room fits.size_fits fits.aux_fits fits.crc_fits
                  fits.aux_bytes (omega (arith, count, fits.count_fits)) in
              inr (room, (last, rw (run, run') refl, download))
        ],
      )

module _ (api : Bytes) (crc : Crc) (miniz : Miniz) (blake3 : Blake3) (lib : LinkedHashMap)
    (original : ChunkMap) (max_size : ℕ) (io : Io) (codes : Codes) (around : Surroundings lib)
    (message : WorldReadyMessage) where
  -- Suppose that the other proxy answers as its loop does and has, for every key of the world, a
  -- chunk with that hash whose size fits 64 bits together with the limit of the cache; the cache
  -- is counted right, has no key twice, is within its limit and has no other content under a key
  -- of the world, and other tasks leave it so, also while the task waits; when the task has
  -- waited, every chunk of the world that others were fetching is in the cache; the first
  -- message, every batch of at most 512 keys of the world and its response can be written and are
  -- within the size limit; and the channel for the blocks stays open. Suppose also that the
  -- chunks of each file can be put together, its name is of bytes and fits 16 bits in length and
  -- its encoded data 32 bits, that the auxiliary data are of bytes, and that the announced size
  -- and CRC, the length of the auxiliary data and the number of files fit. Then the client task
  -- ends after the first message: with an error exactly if the archive exceeds the announced
  -- size, and else with blocks that are a whole download of the announced size and CRC.
  pub transfer_world_data-IsWhole :
      (cache : ChunkCacheInner lib) (next_event : ℕ)
      → IsSetUp api crc miniz blake3 lib original max_size io codes around message cache
      → All (IsRebuildable api crc miniz original) message.world.files
      → IsFitting api crc miniz message.world message.new_info
      → (msg_data : List ℕ) × (encode_message codes.zstd codes.world_ready message ≡ ok msg_data)
        × IsWhole api crc miniz message.world message.new_info original (
            blocks_of (
              transfer_world_data lib around api crc miniz blake3 io codes cache next_event
                (frame io msg_data)))
  transfer_world_data-IsWhole cache next_event up rebuildable fits =
      let (msg_data, encoded, run) =
        transfer_world_data-rebuilt_world api crc miniz blake3 lib original max_size io codes around
          message cache next_event up in
      (
        msg_data,
        encoded,
        subst (IsWhole api crc miniz message.world message.new_info original) (sym run) (
            rebuilt_world-IsWhole api crc miniz message.world message.new_info original rebuildable
              fits),
      )
