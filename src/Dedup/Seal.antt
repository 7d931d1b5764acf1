-- ===== src/Dedup/Seal.antt =====
-- The stream behind the files of a world, piece by piece: padding, forged bytes, directory, blocks.
use factorio_multiplayer_cac.Common.{
  ℕ, ◌+◌, ◌-◌, ◌%◌, ◌≤◌, ◌≡◌, refl, sym, ap, ◌∙◌, some, List, [], ◌∷◌, ◌++◌, append_assoc, length,
  length-append, zeros, length-zeros, All, IsByte, IsU32, le→ltb, ==_iff, arith,
}
use factorio_multiplayer_cac.Crates.Bytes.{Bytes}
use factorio_multiplayer_cac.Crates.Crc.{Crc, checksum}
use factorio_multiplayer_cac.RevCrc
use factorio_multiplayer_cac.RevCrc.{forge_crc}
use factorio_multiplayer_cac.RevCrc.Forge.{
  forge_crc-hits, length-forge_crc, update-append, update-IsU32,
}
use factorio_multiplayer_cac.ZipWriter
use factorio_multiplayer_cac.ZipWriter.{ZipWriter, ZipEntryMetadata}
use factorio_multiplayer_cac.ZipWriter.Layout.{
  encode_central_directory-IsByte, length-encode_central_directory,
}
use factorio_multiplayer_cac.ZipWriter.Archive.{
  IsStored, IsArchive, new-IsArchive, advance_offset-IsArchive,
}
use factorio_multiplayer_cac.ZipWriter.Reader.{
  read_directory, read_directory-encode_central_directory,
}
use factorio_multiplayer_cac.Dedup.{
  WorldReconstructor, new, FactorioFileDescription, FactorioWorldDescription, ok,
  finalize_world_file, seal_world, forge_bytes_for, final_crc_of, align_blocks,
}
use factorio_multiplayer_cac.Dedup.Blocks.{block_bytes, align_blocks_lem}

-- The writer and the hasher follow the stream of the blocks that were handed out.
pub record Follows (crc : Crc) (w : WorldReconstructor) (out : List ℕ) : Type 0 where
  pub archive : IsArchive crc w.zip_writer out
  pub hashed : w.crc_hasher ≡ crc.update crc.init out

-- The whole download behind `out`: a world of the announced size and CRC, whose directory lists
-- the entries, and then the auxiliary data, each filled up with zeros to whole blocks.
pub record IsDownload (crc : Crc) (w : WorldReconstructor) (out aux : List ℕ) (size world_crc : ℕ)
    (output : List ℕ) : Type 0 where
  pub world : List ℕ
  pub whole :
      out ++ output
      ≡ (world ++ zeros (block_bytes size - size))
        ++ (aux ++ zeros (block_bytes (length aux) - length aux))
  pub world_size : length world ≡ size
  pub crc_is : checksum crc (world ++ aux) ≡ world_crc
  pub directory : read_directory world ≡ some w.zip_writer.entries

module _ (api : Bytes) (crc : Crc) where
  names-IsByte :
      (out : List ℕ) (es : List ZipEntryMetadata)
      → All (IsStored crc out) es
      → All (λ e. All IsByte e.file_name) es
  names-IsByte out [] h = tt
  names-IsByte out (e ∷ es) h = (h.0.name_bytes, names-IsByte out es h.1)

  pub offsets-IsU32 :
      (bound : ℕ) (es : List ZipEntryMetadata)
      → IsU32 bound
      → All (λ e. e.start_offset ≤ bound) es
      → All (λ e. IsU32 e.start_offset) es
  offsets-IsU32 bound [] h hs = tt
  offsets-IsU32 bound (e ∷ es) h hs = (omega arith, offsets-IsU32 bound es h hs.1)

  pub new-Follows : Follows crc (new crc) []
  unfolding new
  new-Follows = record { archive = new-IsArchive crc; hashed = sym (crc.update_nil crc.init) }

  -- The forged bytes make the CRC of the stream, the footer and the auxiliary data the target.
  final_crc-forge_bytes :
      (stream footer aux : List ℕ) (target : ℕ)
      → IsU32 target
      → All IsByte footer
      → All IsByte aux
      → let state = crc.update crc.init stream in
        final_crc_of crc state (forge_bytes_for crc state footer aux target) footer aux ≡ target
  unfolding final_crc_of forge_bytes_for
  final_crc-forge_bytes stream footer aux target ht hf ha =
      forge_crc-hits crc (crc.update crc.init stream) target footer aux
        (update-IsU32 crc crc.init stream crc.init_lt) ht hf ha

  length-forge_bytes_for :
      (state : ℕ) (footer aux : List ℕ) (target : ℕ)
      → length (forge_bytes_for crc state footer aux target) ≡ 4
  unfolding forge_bytes_for
  length-forge_bytes_for state footer aux target =
      length-forge_crc (crc.finalize state)
        (RevCrc.update (RevCrc.update (RevCrc.digest (RevCrc.new crc) target) aux) footer)

  seal_world_lem :
      (self : WorldReconstructor) (padding : List ℕ) (state : ℕ) (footer aux : List ℕ)
      (target target_crc : ℕ)
      → let forged = forge_bytes_for crc state footer aux target_crc in
        let output = (padding ++ forged) ++ footer in
        let aligned = align_blocks output aux target in
        ZipWriter.current_size self.zip_writer + length output ≡ target
        → final_crc_of crc state forged footer aux ≡ target_crc
        → (ZipWriter.current_size self.zip_writer + length aligned) % 503 ≡ 0
        → seal_world api crc self padding state footer aux target target_crc ≡ ok aligned
  unfolding seal_world
  seal_world_lem self padding state footer aux target target_crc size hits aligned =
      rw ((==_iff _ _).1 size, (==_iff _ _).1 hits, (==_iff _ _).1 aligned)

  finalize_world_file_lem :
      (self : WorldReconstructor) (desc : FactorioWorldDescription) (target target_crc : ℕ)
      (footer : List ℕ)
      → let total =
          ZipWriter.current_size self.zip_writer
          + ZipWriter.central_directory_size self.zip_writer
          + 4 in
        let padding = zeros (target - total) in
        total ≤ target
        → ZipWriter.encode_central_directory api
            (ZipWriter.advance_offset self.zip_writer (length padding + 4))
          ≡ some footer
        → finalize_world_file api crc self desc target target_crc
          ≡ seal_world api crc self padding
              (crc.update self.crc_hasher padding)
              footer
              desc.aux_data
              target
              target_crc
  unfolding finalize_world_file
  finalize_world_file_lem self desc target target_crc footer fits run =
      rw (le→ltb target _ fits, run)

  -- What stands before the central directory: the files, the padding, and the four forged bytes.
  module _ (self : WorldReconstructor) (out footer aux : List ℕ) (size target_crc : ℕ)
      (follows : Follows crc self out)
      (fits : ZipWriter.current_size self.zip_writer
          + ZipWriter.central_directory_size self.zip_writer
          + 4
        ≤ size)
      (size_fits : IsU32 (size + 502)) (aux_fits : IsU32 (length aux + 502))
      (crc_fits : IsU32 target_crc) (aux_bytes : All IsByte aux) where
    abbrev padding : List ℕ
    padding = zeros (
        size
        - (ZipWriter.current_size self.zip_writer
            + ZipWriter.central_directory_size self.zip_writer
            + 4))

    abbrev forged : List ℕ
    forged = forge_bytes_for crc (crc.update self.crc_hasher padding) footer aux target_crc

    abbrev advanced : ZipWriter
    advanced = ZipWriter.advance_offset self.zip_writer (length padding + 4)

    advanced-IsArchive : IsArchive crc advanced (out ++ (padding ++ forged))
    advanced-IsArchive =
        rw (← length_is)
          (advance_offset-IsArchive crc self.zip_writer out (padding ++ forged) follows.archive)
      where
        length_is : length (padding ++ forged) ≡ length padding + 4
        length_is =
            length-append padding forged
            ∙ ap (λ n. length padding + n)
                (length-forge_bytes_for (crc.update self.crc_hasher padding) footer aux target_crc)

    abbrev world : List ℕ
    world = (out ++ (padding ++ forged)) ++ footer

    same_size :
        ZipWriter.central_directory_size advanced ≡ ZipWriter.central_directory_size self.zip_writer
    same_size = unfold ZipWriter.central_directory_size ZipWriter.advance_offset in refl

    current_is : ZipWriter.current_size self.zip_writer ≡ length out
    current_is = unfold ZipWriter.current_size in follows.archive.offset

    module _ (run : ZipWriter.encode_central_directory api advanced ≡ some footer) where
      footer_length : length footer ≡ ZipWriter.central_directory_size self.zip_writer
      footer_length = length-encode_central_directory api advanced footer run ∙ same_size

      output_length :
          ZipWriter.current_size self.zip_writer + length ((padding ++ forged) ++ footer) ≡ size
      output_length = omega (
        arith,
        footer_length,
        length-append (padding ++ forged) footer,
        length-append padding forged,
        length-zeros (
            size
            - (ZipWriter.current_size self.zip_writer
                + ZipWriter.central_directory_size self.zip_writer
                + 4)),
        length-forge_bytes_for (crc.update self.crc_hasher padding) footer aux target_crc,
      )

      world_length : length world ≡ size
      world_length = omega (
        arith,
        output_length,
        current_is,
        ap (length {A = ℕ}) (append_assoc out (padding ++ forged) footer),
        length-append out ((padding ++ forged) ++ footer),
      )

      state_is : crc.update self.crc_hasher padding ≡ crc.update crc.init (out ++ padding)
      state_is =
          ap (λ v. crc.update v padding) follows.hashed
          ∙ sym (update-append crc crc.init out padding)

      footer_bytes : All IsByte footer
      footer_bytes =
          encode_central_directory-IsByte api advanced footer run
            (names-IsByte _ advanced.entries advanced-IsArchive.stored)

      final_crc_is :
          final_crc_of crc (crc.update self.crc_hasher padding) forged footer aux ≡ target_crc
      final_crc_is = rw state_is (
          final_crc-forge_bytes (out ++ padding) footer aux target_crc crc_fits footer_bytes
            aux_bytes)

      world_crc : checksum crc (world ++ aux) ≡ target_crc
      world_crc =
          ap crc.finalize (
            update-append crc crc.init world aux
            ∙ ap (λ v. crc.update v aux)
                (update-append crc crc.init (out ++ (padding ++ forged)) footer
                  ∙ ap (λ v. crc.update v footer)
                      (update-append crc crc.init out (padding ++ forged)
                        ∙ ap (λ v. crc.update v (padding ++ forged)) (sym follows.hashed)
                        ∙ update-append crc self.crc_hasher padding forged)))
          ∙ unfold final_crc_of in final_crc_is

      whole_is :
          out ++ align_blocks ((padding ++ forged) ++ footer) aux size
          ≡ (world ++ zeros (block_bytes size - size))
            ++ (aux ++ zeros (block_bytes (length aux) - length aux))
      whole_is =
          ap (◌++◌ out) (
            align_blocks_lem ((padding ++ forged) ++ footer) aux size (omega (arith, output_length))
              size_fits aux_fits)
          ∙ simp append_assoc

      whole_blocks :
          (ZipWriter.current_size self.zip_writer
              + length (align_blocks ((padding ++ forged) ++ footer) aux size))
            % 503
          ≡ 0
      whole_blocks = omega (
        arith,
        current_is,
        world_length,
        ap (length {A = ℕ}) whole_is,
        length-append out (align_blocks ((padding ++ forged) ++ footer) aux size),
        length-append (world ++ zeros (block_bytes size - size))
            (aux ++ zeros (block_bytes (length aux) - length aux)),
        length-append world (zeros (block_bytes size - size)),
        length-append aux (zeros (block_bytes (length aux) - length aux)),
        length-zeros (block_bytes size - size),
        length-zeros (block_bytes (length aux) - length aux),
      )

      download :
          IsDownload crc self out aux size target_crc
            (align_blocks ((padding ++ forged) ++ footer) aux size)
      download = record {
        world = world;
        whole = whole_is;
        world_size = world_length;
        crc_is = world_crc;
        directory =
            read_directory-encode_central_directory api crc advanced (out ++ (padding ++ forged))
              footer advanced-IsArchive run
            ∙ unfold ZipWriter.advance_offset in refl;
      }

      -- Every assertion of the code holds on the way.
      pub sealed :
          (files : List FactorioFileDescription)
          → (output : List ℕ) × (finalize_world_file api crc self
                (record { files = files; aux_data = aux })
                size
                target_crc
              ≡ ok output)
            × IsDownload crc self out aux size target_crc output
      sealed files = (
        align_blocks ((padding ++ forged) ++ footer) aux size,
        finalize_world_file_lem self (record { files = files; aux_data = aux }) size target_crc
              footer fits run
            ∙ seal_world_lem self padding (crc.update self.crc_hasher padding) footer aux size
                target_crc output_length final_crc_is whole_blocks,
        download,
      )
