-- ===== src/Dedup/Finalize.antt =====
-- The world that the reconstructor hands over: its size, its CRC and its directory are right, and
-- no assertion fails.
use factorio_multiplayer_cac.Common.{
  ℕ, ◌+◌, ◌-◌, ◌≤◌, ◌<◌, ◌≡◌, some, List, length, zeros, length-zeros, All, IsByte, IsU16, IsU32,
  lt→ltb, arith,
}
use factorio_multiplayer_cac.Crates.Bytes.{Bytes}
use factorio_multiplayer_cac.Crates.Crc.{Crc}
use factorio_multiplayer_cac.ZipWriter
use factorio_multiplayer_cac.ZipWriter.{ZipWriter, ZipEntryMetadata}
use factorio_multiplayer_cac.ZipWriter.Layout.{encode_central_directory_of_fit}
use factorio_multiplayer_cac.ZipWriter.Archive.{stored-offsets}
use factorio_multiplayer_cac.Dedup.{
  WorldReconstructor, FactorioWorldDescription, ok, err, finalize_world_file,
}
use factorio_multiplayer_cac.Dedup.Seal.{Follows, IsDownload, offsets-IsU32, sealed}

module _ (api : Bytes) (crc : Crc) where
  -- finalize_world_file returns an error, and does not panic, if what was written, the central
  -- directory and the four forged bytes exceed the announced size.
  pub finalize_world_file_too_large :
      (self : WorldReconstructor) (desc : FactorioWorldDescription) (target target_crc : ℕ)
      → target
        < ZipWriter.current_size self.zip_writer
          + ZipWriter.central_directory_size self.zip_writer
          + 4
      → finalize_world_file api crc self desc target target_crc ≡ err
  unfolding finalize_world_file
  finalize_world_file_too_large self desc target target_crc h = rw (lt→ltb target _ h)

  footer_written :
      (self : WorldReconstructor) (out : List ℕ) (size : ℕ)
      → let total =
          ZipWriter.current_size self.zip_writer
          + ZipWriter.central_directory_size self.zip_writer
          + 4 in
        Follows crc self out
        → total ≤ size
        → IsU32 (size + 502)
        → IsU16 (length self.zip_writer.entries)
        → (footer : List ℕ) × (ZipWriter.encode_central_directory api
              (ZipWriter.advance_offset self.zip_writer (length (zeros (size - total)) + 4))
            ≡ some footer)
  unfolding ZipWriter.advance_offset ZipWriter.current_size
  footer_written self out size follows fits size_fits count_fits =
      encode_central_directory_of_fit api _
        (omega (
          arith,
          length-zeros (
              size
              - (self.zip_writer.current_offset
                  + ZipWriter.central_directory_size self.zip_writer
                  + 4)),
        ))
        count_fits
        (offsets-IsU32 api crc (length out) self.zip_writer.entries
          (omega (arith, follows.archive.offset))
          (stored-offsets crc out self.zip_writer.entries follows.archive.stored))
        (unfold ZipWriter.central_directory_size in omega arith)

  -- With a world that fits into the announced size, sizes that fit 32 bits with a block to spare,
  -- an auxiliary part of bytes, and fewer than 2 ^ 16 files, finalize_world_file returns and no
  -- assertion fails; what was handed out is then a world of exactly the announced size, whose CRC
  -- with the auxiliary data is the announced one and whose directory lists the entries, then the
  -- auxiliary data, each filled with zeros to whole blocks.
  pub finalize_world_file-IsDownload :
      (self : WorldReconstructor) (desc : FactorioWorldDescription) (out : List ℕ)
      (size target_crc : ℕ)
      → Follows crc self out
      → ZipWriter.current_size self.zip_writer
          + ZipWriter.central_directory_size self.zip_writer
          + 4
        ≤ size
      → IsU32 (size + 502)
      → IsU32 (length desc.aux_data + 502)
      → IsU32 target_crc
      → All IsByte desc.aux_data
      → IsU16 (length self.zip_writer.entries)
      → (output : List ℕ) × (finalize_world_file api crc self desc size target_crc ≡ ok output)
        × IsDownload crc self out desc.aux_data size target_crc output
  finalize_world_file-IsDownload self desc out size target_crc follows fits size_fits aux_fits
        crc_fits aux_bytes count_fits =
      let (footer, run) = footer_written self out size follows fits size_fits count_fits in
      sealed api crc self out footer desc.aux_data size target_crc follows fits size_fits aux_fits
        crc_fits aux_bytes run desc.files
