-- ===== src/Proxy/ClientProxy/Rebuild.antt =====
-- The client's task against a reference: the world rebuilt straight from the chunks of the other
-- proxy.
use factorio_multiplayer_cac.Common.{
  ℕ, zero, suc, ◌≤◌, ◌<◌, ◌≡◌, refl, sym, ◌∙◌, true, none, List, [], ◌∷◌, ◌++◌, append_assoc,
  length, arith, ◌⊎◌, inl, inr, Option-cases,
}
use mathlib.Core.Path.{subst}
use factorio_multiplayer_cac.Common.HashMap.{get, bytes_key}
use factorio_multiplayer_cac.Crates.Bytes.{Bytes}
use factorio_multiplayer_cac.Crates.Crc.{Crc}
use factorio_multiplayer_cac.Crates.Content.{Blake3, Miniz}
use factorio_multiplayer_cac.Crates.LinkedMap.{LinkedHashMap}
use factorio_multiplayer_cac.Crates.Stream.{Io}
use factorio_multiplayer_cac.ChunkCache.Waiting.{IsIn}
use factorio_multiplayer_cac.ChunkCache.Batches.{IsIn-append_left, IsIn-append_right}
use factorio_multiplayer_cac.Dedup.{
  ChunkKey, FactorioFileDescription, WorldReconstructor, Outcome, ok, err, panic, ◌>>=◌, put_chunks,
  reconstruct_world_file,
}
use factorio_multiplayer_cac.Dedup.Chunks.{ChunkMap, IsMissing}
use factorio_multiplayer_cac.Dedup.Rebuild.{Outcome-cases, reconstruct_world_file-err_iff}
use factorio_multiplayer_cac.Protocol.{Codes}
use factorio_multiplayer_cac.Proxy.ClientProxy.Transfer.{
  TransferState, Surroundings, chunk_keys, send_block, fetch_more, rebuild_file, rebuild_files,
}
use factorio_multiplayer_cac.Proxy.ClientProxy.Exchange.{answered_by, IsCarried}
use factorio_multiplayer_cac.Proxy.ClientProxy.Work.{IsWorld, Agrees, IsAtWork, AreFair}
use factorio_multiplayer_cac.Proxy.ClientProxy.Fetch.{fetch_more_lem}

missing_key :
    (ks : List ChunkKey) (local : ChunkMap)
    → IsMissing ks local
    → (k : ChunkKey) × IsIn k ks × (get k local ≡ none)
missing_key [] local m = absurd m
missing_key (j ∷ js) local (inl e) = (j, inl refl, e)
missing_key (j ∷ js) local (inr m) = let (k, there, e) = missing_key js local m in (k, inr there, e)

nonempty :
    (k : ChunkKey) (ks : List ChunkKey)
    → IsIn k ks
    → (j : ChunkKey) × (js : List ChunkKey) × (ks ≡ j ∷ js)
nonempty k [] m = absurd m
nonempty k (j ∷ js) m = (j, js, refl)

module _ (api : Bytes) (crc : Crc) (miniz : Miniz) where
  reconstruct-put_chunks :
      (self : WorldReconstructor) (file : FactorioFileDescription) (local original : ChunkMap)
      → put_chunks file.content_chunks local [] ≡ put_chunks file.content_chunks original []
      → reconstruct_world_file api crc miniz self file local
        ≡ reconstruct_world_file api crc miniz self file original
  unfolding reconstruct_world_file
  reconstruct-put_chunks self file local original e = rw (reconstruct_world_file, e) refl

  -- All files of a world with all its chunks at hand: the reconstructor behind them, and the
  -- blocks of the files behind those that are given.
  abbrev pub rebuild_all :
      WorldReconstructor
      → List FactorioFileDescription
      → ChunkMap
      → List (List ℕ)
      → Outcome (WorldReconstructor × List (List ℕ))
  rebuild_all self [] chunks blocks = ok (self, blocks)
  rebuild_all self (file ∷ files) chunks blocks = do
    (header, file_data, self') ← reconstruct_world_file api crc miniz self file chunks
    rebuild_all self' files chunks (blocks ++ header ∷ file_data ∷ [])

module _ (api : Bytes) (crc : Crc) (miniz : Miniz) (blake3 : Blake3) (lib : LinkedHashMap)
    (keys : List ChunkKey) (original : ChunkMap) (max_size : ℕ) (io : Io) (codes : Codes)
    (around : Surroundings lib) (world : IsWorld blake3 lib keys original max_size)
    (fair : AreFair blake3 lib keys original max_size around)
    (answered : (written : List ℕ)
      → around.exchange written ≡ answered_by io codes original written)
    (carried : (js : List ChunkKey)
      → length js ≤ 512
      → ((k : ChunkKey) → IsIn k js → IsIn k keys)
      → IsCarried codes original js)
    (stays_open : (n : ℕ) → around.is_open n ≡ true) where
  put_chunks-Agrees :
      (ks : List ChunkKey) (local : ChunkMap) (buf : List ℕ)
      → ((k : ChunkKey) → IsIn k ks → IsIn k keys)
      → Agrees blake3 lib keys original max_size local
      → IsMissing ks local ⊎ (put_chunks ks local buf ≡ put_chunks ks original buf)
  unfolding put_chunks
  put_chunks-Agrees [] local buf members agrees = inr refl
  put_chunks-Agrees (k ∷ ks) local buf members agrees = elim (Option-cases (get k local)) [
    | inl e ↦ inl (inl e)
    | inr (c, e) ↦ elim (put_chunks-Agrees ks local (buf ++ c) (λ j m. members j (inr m)) agrees) [
      | inl m ↦ inl (inr m)
      | inr same ↦ inr (rw (e, agrees k c (members k (inl refl)) e) same)
    ]
  ]

  not-IsMissing :
      (ks : List ChunkKey) → ((k : ChunkKey) → IsIn k ks → IsIn k keys) → ¬ IsMissing ks original
  not-IsMissing ks members missing =
      let (k, there, e) = missing_key ks original missing in
      let (c, found, hashed, fits) = world k (members k there) in cc (e, found)

  send_block_lem :
      (block : List ℕ) (s : TransferState lib)
      → send_block lib around block s ≡ ok (record s { blocks = s.blocks ++ block ∷ [] })
  unfolding send_block
  send_block_lem block s = rw (stays_open (length s.blocks)) refl

  -- A file as the reference rebuilds it, and the task's state behind it.
  abbrev IsRebuilt :
      List (List ℕ)
      → Outcome (List ℕ × List ℕ × WorldReconstructor)
      → Outcome (TransferState lib)
      → Type 0
  IsRebuilt blocks reference outcome =
      ((reference ≡ panic) × (outcome ≡ panic))
      ⊎ ((header : List ℕ) × (file_data : List ℕ) × (self : WorldReconstructor) × (s : TransferState
            lib)
          × (reference ≡ ok (header, file_data, self))
          × (outcome ≡ ok s)
          × IsAtWork blake3 lib keys original max_size s
          × (s.world_reconstructor ≡ self)
          × (s.blocks ≡ blocks ++ header ∷ file_data ∷ []))

  rebuild_file-missing :
      (fuel : ℕ) (file : FactorioFileDescription) (s s' : TransferState lib)
      → IsMissing file.content_chunks s.local_cache
      → fetch_more lib around blake3 io codes s ≡ ok s'
      → rebuild_file lib around api crc miniz blake3 io codes (suc fuel) file s
        ≡ rebuild_file lib around api crc miniz blake3 io codes fuel file s'
  unfolding rebuild_file
  rebuild_file-missing fuel file s s' missing run =
      let lacks : reconstruct_world_file api crc miniz s.world_reconstructor file s.local_cache
          ≡ err =
        (reconstruct_world_file-err_iff api crc miniz s.world_reconstructor file s.local_cache).1
          missing in
      rw (rebuild_file, lacks, run) refl

  rebuild_file-there :
      (fuel : ℕ) (file : FactorioFileDescription) (s : TransferState lib)
      (header file_data : List ℕ) (self : WorldReconstructor)
      → reconstruct_world_file api crc miniz s.world_reconstructor file s.local_cache
        ≡ ok (header, file_data, self)
      → rebuild_file lib around api crc miniz blake3 io codes (suc fuel) file s
        ≡ ok (record s {
          world_reconstructor = self;
          blocks = (s.blocks ++ header ∷ []) ++ file_data ∷ [];
        })
  unfolding rebuild_file
  rebuild_file-there fuel file s header file_data self done =
      let s1 : TransferState lib = record s { world_reconstructor = self } in
      let s2 : TransferState lib = record s1 { blocks = s.blocks ++ header ∷ [] } in
      rw (rebuild_file, done, send_block_lem header s1) (send_block_lem file_data s2)

  rebuild_file_lem :
      (fuel : ℕ) (file : FactorioFileDescription) (s : TransferState lib)
      → length s.all_chunks < fuel
      → ((k : ChunkKey) → IsIn k file.content_chunks → IsIn k keys)
      → IsAtWork blake3 lib keys original max_size s
      → IsRebuilt s.blocks
          (reconstruct_world_file api crc miniz s.world_reconstructor file original)
          (rebuild_file lib around api crc miniz blake3 io codes fuel file s)
  unfolding rebuild_file
  rebuild_file_lem zero file s enough members work = absurd (omega arith)
  rebuild_file_lem (suc fuel) file s enough members work =
      elim (put_chunks-Agrees file.content_chunks s.local_cache [] members work.agrees) [
        | inl missing ↦
            let (k, in_file, absent) = missing_key file.content_chunks s.local_cache missing in
            let wanted : IsIn k s.all_chunks = elim (work.covered k (members k in_file)) [
              | inl w ↦ w
              | inr (c, there) ↦ absurd (cc (absent, there))
            ] in
            let (j, js, wants) = nonempty k s.all_chunks wanted in
            let (s', run, goes_on, fewer) =
              fetch_more_lem blake3 lib keys original max_size io codes around world fair answered
                carried j js s wants work in
            let next : TransferState lib → Outcome (TransferState lib) =
              rebuild_file lib around api crc miniz blake3 io codes fuel file in
            subst
              (IsRebuilt s.blocks
                (reconstruct_world_file api crc miniz s.world_reconstructor file original))
              (sym (rebuild_file-missing fuel file s s' missing run))
              (subst
                (λ b.
                  IsRebuilt b
                    (reconstruct_world_file api crc miniz s.world_reconstructor file original)
                    (next s'))
                goes_on.same_blocks
                (subst
                  (λ w.
                    IsRebuilt s'.blocks (reconstruct_world_file api crc miniz w file original)
                      (next s'))
                  goes_on.same_reconstructor
                  (rebuild_file_lem fuel file s' (omega arith) members goes_on.at_work)))
        | inr same ↦
            let direct =
              reconstruct-put_chunks api crc miniz s.world_reconstructor file s.local_cache original
                same in
            elim (Outcome-cases
              (reconstruct_world_file api crc miniz s.world_reconstructor file original)) [
                | inl e ↦ absurd (
                    not-IsMissing file.content_chunks members (
                      (reconstruct_world_file-err_iff api crc miniz s.world_reconstructor file
                          original).0
                        e))
                | inr (inl e) ↦ inl (e, rw (rebuild_file, direct ∙ e) refl)
                | inr (inr ((header, file_data, self), e)) ↦
                    let s' : TransferState lib = record s {
                      world_reconstructor = self;
                      blocks = (s.blocks ++ header ∷ []) ++ file_data ∷ [];
                    } in
                    inr (
                      header,
                      file_data,
                      self,
                      s',
                      e,
                      rebuild_file-there fuel file s header file_data self (direct ∙ e),
                      record {
                        covered = work.covered;
                        requested = work.requested;
                        agrees = work.agrees;
                        honest = work.honest;
                        all_read = work.all_read;
                      },
                      refl,
                      append_assoc s.blocks (header ∷ []) (file_data ∷ []),
                    )
              ]
      ]

  -- All files, as the reference rebuilds them.
  abbrev IsAllRebuilt :
      Outcome (WorldReconstructor × List (List ℕ)) → Outcome (TransferState lib) → Type 0
  IsAllRebuilt reference outcome =
      ((reference ≡ panic) × (outcome ≡ panic))
      ⊎ ((s : TransferState lib) × (reference ≡ ok (s.world_reconstructor, s.blocks))
          × (outcome ≡ ok s)
          × IsAtWork blake3 lib keys original max_size s)

  pub rebuild_files_lem :
      (files : List FactorioFileDescription) (s : TransferState lib)
      → ((k : ChunkKey) → IsIn k (chunk_keys files) → IsIn k keys)
      → IsAtWork blake3 lib keys original max_size s
      → IsAllRebuilt
          (rebuild_all api crc miniz s.world_reconstructor files original s.blocks)
          (rebuild_files lib around api crc miniz blake3 io codes files s)
  unfolding rebuild_files chunk_keys
  rebuild_files_lem [] s members work = inr (s, refl, refl, work)
  rebuild_files_lem (file ∷ files) s members work =
      elim (rebuild_file_lem (suc (length s.all_chunks)) file s (omega arith)
        (λ k m. members k (IsIn-append_left k file.content_chunks (chunk_keys files) m)) work) [
          | inl (e, run) ↦ inl (rw e refl, rw (rebuild_files, run) refl)
          | inr (header, file_data, self, s', e, run, work', self_is, blocks_are) ↦
              let reference : rebuild_all api crc miniz s.world_reconstructor (file ∷ files)
                    original s.blocks
                  ≡ rebuild_all api crc miniz s'.world_reconstructor files original s'.blocks =
                rw e (λ i.
                  rebuild_all api crc miniz (sym self_is i) files original (sym blocks_are i)) in
              let outcome : rebuild_files lib around api crc miniz blake3 io codes (file ∷ files) s
                  ≡ rebuild_files lib around api crc miniz blake3 io codes files s' =
                rw (rebuild_files, run) refl in
              elim (rebuild_files_lem files s'
                (λ k m. members k (IsIn-append_right k file.content_chunks (chunk_keys files) m))
                work') [
                  | inl (e', run') ↦ inl (reference ∙ e', outcome ∙ run')
                  | inr (t, e', run', w) ↦ inr (t, reference ∙ e', outcome ∙ run', w)
                ]
        ]
