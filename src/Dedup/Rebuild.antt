-- ===== src/Dedup/Rebuild.antt =====
-- src/dedup.rs: `reconstruct_world_file`, on a file whose chunks are there and on one that lacks some.
use factorio_multiplayer_cac.Common.{
  ℕ, ◌≡◌, refl, sym, ap, ◌∙◌, List, [], ◌++◌, length, All, IsByte, IsU16, IsU32, Option-cases, ◌⊎◌,
  inl, inr, ◌↔◌,
}
use factorio_multiplayer_cac.Crates.Bytes.{Bytes}
use factorio_multiplayer_cac.Crates.Crc.{Crc}
use factorio_multiplayer_cac.Crates.Content.{Miniz}
use factorio_multiplayer_cac.RevCrc.Forge.{update-append}
use factorio_multiplayer_cac.ZipWriter.{encode_file_header}
use factorio_multiplayer_cac.ZipWriter.Archive.{
  encode_file_header-IsArchive, encode_file_header_of_fit,
}
use factorio_multiplayer_cac.Dedup.{
  WorldReconstructor, FactorioFileDescription, Outcome, ok, err, panic, reconstruct_world_file,
  put_chunks, encode_factorio_file, encode_by_type,
}
use factorio_multiplayer_cac.Dedup.Chunks.{ChunkMap, IsMissing, put_chunks-err_iff}
use factorio_multiplayer_cac.Dedup.Seal.{Follows}

pub Outcome-cases :
    {A : Type 0} (m : Outcome A) → (m ≡ err) ⊎ ((m ≡ panic) ⊎ ((a : A) × (m ≡ ok a)))
Outcome-cases err = inl refl
Outcome-cases panic = inr (inl refl)
Outcome-cases (ok a) = inr (inr (a, refl))

module _ (api : Bytes) (crc : Crc) (miniz : Miniz) where
  -- If the chunks of a file are there, its name is of bytes and fits 16 bits in length and its
  -- encoded data 32 bits, then reconstruct_world_file returns a header and the encoded content,
  -- and the writer and the hasher of the reconstructor follow the stream with both appended.
  pub reconstruct_world_file-Follows :
      (self : WorldReconstructor) (desc : FactorioFileDescription) (chunks : ChunkMap)
      (out content : List ℕ)
      → Follows crc self out
      → put_chunks desc.content_chunks chunks [] ≡ ok content
      → All IsByte desc.file_name
      → IsU16 (length desc.file_name)
      → IsU32 (length (encode_by_type miniz desc.file_type content))
      → (header : List ℕ) × (self' : WorldReconstructor) × (reconstruct_world_file api crc miniz
            self desc chunks
          ≡ ok (header, encode_by_type miniz desc.file_type content, self'))
        × Follows crc self' (out ++ (header ++ encode_by_type miniz desc.file_type content))
  unfolding reconstruct_world_file encode_factorio_file
  reconstruct_world_file-Follows self desc chunks out content follows put name_bytes name_fits
        size_fits =
      let file_data : List ℕ = encode_by_type miniz desc.file_type content in
      let ((header, w'), run) =
        encode_file_header_of_fit api crc self.zip_writer desc.file_name file_data name_fits
          size_fits in
      let hasher : ℕ = crc.update (crc.update self.crc_hasher header) file_data in
      (
        header,
        record { zip_writer = w'; crc_hasher = hasher },
        rw (put, run) refl,
        record {
          archive =
              encode_file_header-IsArchive crc api self.zip_writer w' out desc.file_name file_data
                header follows.archive name_bytes run;
          hashed =
              ap (λ (t : ℕ). crc.update (crc.update t header) file_data) follows.hashed
              ∙ sym (
                  update-append crc crc.init out (header ++ file_data)
                  ∙ update-append crc (crc.update crc.init out) header file_data);
        },
      )

  -- reconstruct_world_file asks for more data exactly when one of the chunks of the file is
  -- missing.
  pub reconstruct_world_file-err_iff :
      (self : WorldReconstructor) (desc : FactorioFileDescription) (chunks : ChunkMap)
      → (reconstruct_world_file api crc miniz self desc chunks ≡ err)
        ↔ IsMissing desc.content_chunks chunks
  unfolding reconstruct_world_file
  reconstruct_world_file-err_iff self desc chunks = (
    λ h. elim (Outcome-cases (put_chunks desc.content_chunks chunks [])) [
      | inl e ↦ (put_chunks-err_iff desc.content_chunks chunks []).0 e
      | inr (inl e) ↦ cc (rw e at h)
      | inr (inr (buf, e)) ↦
          elim (Option-cases (
            encode_file_header api crc self.zip_writer desc.file_name (
              encode_factorio_file miniz (record { file_type = desc.file_type; content = buf })))) [
                | inl n ↦ cc (rw (e, n) at h)
                | inr (r, n) ↦ cc (rw (e, n) at h)
              ]
    ],
    λ missing. rw ((put_chunks-err_iff desc.content_chunks chunks []).1 missing) refl,
  )
