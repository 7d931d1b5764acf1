-- ===== src/Dedup/Runs.antt =====
-- src/dedup.rs: a world of one file, taken apart and put together.
use mathlib.Core.Path.{subst}
use factorio_multiplayer_cac.Common.{
  ℕ, zero, suc, ◌<◌, ◌≡◌, ◌↔◌, refl, sym, ap, ◌∙◌, List, [], ◌∷◌, ◌++◌, Option, some, none, length,
  All, to_le_bytes, arith,
}
use factorio_multiplayer_cac.Common.HashMap.{get, bytes_eq}
use factorio_multiplayer_cac.Crates.Bytes.{plain_bytes}
use factorio_multiplayer_cac.Crates.Crc.IsoHdlc.{iso_hdlc, one_entry}
use factorio_multiplayer_cac.Crates.Content.{ZipReader, length_hash, no_compression}
use factorio_multiplayer_cac.Chunker.Split.{chunks_of, chunks_of_small}
use factorio_multiplayer_cac.ZipWriter
use factorio_multiplayer_cac.ZipWriter.{ZipWriter}
use factorio_multiplayer_cac.ZipWriter.Sample.{header, writer, writer-IsArchive}
use factorio_multiplayer_cac.Dedup.{
  new, normal, WorldReconstructor, FactorioFile, FactorioFileDescription, FactorioWorldDescription,
  ok, err, put_chunks, chunk_file, reconstruct_world_file, finalize_world_file, deconstruct_world,
  decode_factorio_file, encode_by_type, is_level_dat, base_name, strip_prefix, all_digits,
}
use factorio_multiplayer_cac.Dedup.Chunks.{ChunkMap, IsMissing}
use factorio_multiplayer_cac.Dedup.Files.{AreChunks, chunk_file-put_chunks}
use factorio_multiplayer_cac.Dedup.RoundTrip.{
  AreFilesChunks, IsReadable, RebuildsFrom, deconstruct_world-put_chunks,
}
use factorio_multiplayer_cac.Dedup.Rebuild.{
  reconstruct_world_file-Follows, reconstruct_world_file-err_iff,
}
use factorio_multiplayer_cac.Dedup.Seal.{Follows, IsDownload, new-Follows}
use factorio_multiplayer_cac.Dedup.Finalize.{finalize_world_file-IsDownload}

-- A stand-in for the reader of archives: an archive of one file.
abbrev entry : ℕ → Option (List ℕ × Option (List ℕ))
entry zero = some (97 ∷ [], some (1 ∷ 2 ∷ []))
entry (suc i) = none

abbrev one_file : ZipReader
one_file = record {
  Archive = Unit {0};
  open_archive = λ bytes. some tt;
  len = λ archive. 1;
  by_index = λ archive. entry;
}

abbrev key : List ℕ
key = to_le_bytes 32 2

abbrev chunks : ChunkMap
chunks = (key, 1 ∷ 2 ∷ []) ∷ []

abbrev file : FactorioFile
file = record { file_type = normal; content = 1 ∷ 2 ∷ [] }

abbrev file_desc : FactorioFileDescription
file_desc = record {
  file_type = normal;
  file_name = 97 ∷ [];
  content_size = 2;
  content_chunks = key ∷ [];
}

abbrev world_desc : FactorioWorldDescription
world_desc = record { files = file_desc ∷ []; aux_data = 7 ∷ 8 ∷ [] }

abbrev IsTheChunk : List ℕ → Type 0
IsTheChunk c = c ≡ 1 ∷ 2 ∷ []

chunks_of-file : chunks_of (1 ∷ 2 ∷ []) ≡ some ((1 ∷ 2 ∷ []) ∷ [])
chunks_of-file = chunks_of_small 1 (2 ∷ []) (omega arith)

file-AreChunks : AreChunks length_hash IsTheChunk (λ a b ha hb same. ha ∙ sym hb) (1 ∷ 2 ∷ [])
file-AreChunks cs run =
    let cs_is : (1 ∷ 2 ∷ []) ∷ [] ≡ cs = cc (run, chunks_of-file) in
    subst (All IsTheChunk) cs_is (refl, tt)

chunk_file-put_chunks_example :
    (desc : FactorioFileDescription) × (m : ChunkMap) × (chunk_file length_hash (97 ∷ []) file []
      ≡ some (desc, m))
    × (put_chunks desc.content_chunks m [] ≡ ok (1 ∷ 2 ∷ []))
    × (desc.content_size ≡ 2)
chunk_file-put_chunks_example =
    chunk_file-put_chunks length_hash IsTheChunk (λ a b ha hb same. ha ∙ sym hb) (97 ∷ []) file []
      file-AreChunks

decode-file : decode_factorio_file no_compression (97 ∷ []) (1 ∷ 2 ∷ []) ≡ ok file
unfolding decode_factorio_file is_level_dat base_name strip_prefix all_digits
decode-file = refl

readable : (j : ℕ) → j < 1 → IsReadable no_compression one_file tt j
readable zero lt = (97 ∷ [], 1 ∷ 2 ∷ [], file, refl, decode-file)
readable (suc j) lt = absurd (omega arith)

files-AreChunks :
    AreFilesChunks length_hash IsTheChunk (λ a b ha hb same. ha ∙ sym hb) no_compression one_file tt
files-AreChunks zero name buf decoded there decodes =
    let decoded_is : file ≡ decoded = cc (there, decodes, decode-file) in
    let content_is : 1 ∷ 2 ∷ [] ≡ decoded.content =
      ap (λ (f : FactorioFile). f.content) decoded_is in
    subst (AreChunks length_hash IsTheChunk (λ a b ha hb same. ha ∙ sym hb)) content_is
      file-AreChunks
files-AreChunks (suc i) name buf decoded there decodes = absurd (cc)

deconstruct_world-put_chunks_example :
    (desc : FactorioWorldDescription) × (m : ChunkMap) × (deconstruct_world length_hash
        no_compression one_file
        (80 ∷ 75 ∷ [])
        (7 ∷ 8 ∷ [])
      ≡ ok (desc, m))
    × (length desc.files ≡ 1)
    × (desc.aux_data ≡ 7 ∷ 8 ∷ [])
    × RebuildsFrom length_hash IsTheChunk
        (λ a b ha hb same. ha ∙ sym hb)
        no_compression
        one_file
        tt
        0
        desc.files
        m
deconstruct_world-put_chunks_example =
    deconstruct_world-put_chunks length_hash IsTheChunk (λ a b ha hb same. ha ∙ sym hb)
      no_compression one_file tt (80 ∷ 75 ∷ []) (7 ∷ 8 ∷ []) refl readable files-AreChunks

put_chunks-file : put_chunks (key ∷ []) chunks [] ≡ ok (1 ∷ 2 ∷ [])
unfolding put_chunks get bytes_eq
put_chunks-file = refl

encode-file : encode_by_type no_compression normal (1 ∷ 2 ∷ []) ≡ 1 ∷ 2 ∷ []
unfolding encode_by_type
encode-file = refl

reconstruct_world_file-Follows_example :
    (header : List ℕ) × (self' : WorldReconstructor) × (reconstruct_world_file plain_bytes iso_hdlc
        no_compression
        (new iso_hdlc)
        file_desc
        chunks
      ≡ ok (header, encode_by_type no_compression normal (1 ∷ 2 ∷ []), self'))
    × Follows iso_hdlc self' ([] ++ (header ++ encode_by_type no_compression normal (1 ∷ 2 ∷ [])))
reconstruct_world_file-Follows_example =
    reconstruct_world_file-Follows plain_bytes iso_hdlc no_compression (new iso_hdlc) file_desc
      chunks [] (1 ∷ 2 ∷ []) (new-Follows plain_bytes iso_hdlc) put_chunks-file (omega arith)
      (omega arith) (omega (arith, ap (length {A = ℕ}) encode-file))

reconstruct_world_file-err_iff_example :
    (reconstruct_world_file plain_bytes iso_hdlc no_compression (new iso_hdlc) file_desc [] ≡ err)
    ↔ IsMissing file_desc.content_chunks []
reconstruct_world_file-err_iff_example =
    reconstruct_world_file-err_iff plain_bytes iso_hdlc no_compression (new iso_hdlc) file_desc []

-- The reconstructor behind one file, and the stream so far.
abbrev reconstructor : WorldReconstructor
reconstructor = record { zip_writer = writer; crc_hasher = 0x5a939fe2 }

abbrev stream : List ℕ
stream = header ++ 1 ∷ 2 ∷ []

reconstructor-Follows : Follows iso_hdlc reconstructor stream
reconstructor-Follows = record { archive = writer-IsArchive; hashed = sym one_entry }

finalize_world_file-IsDownload_example :
    (output : List ℕ) × (finalize_world_file plain_bytes iso_hdlc reconstructor world_desc 200
        0x12345678
      ≡ ok output)
    × IsDownload iso_hdlc reconstructor stream (7 ∷ 8 ∷ []) 200 0x12345678 output
finalize_world_file-IsDownload_example =
    finalize_world_file-IsDownload plain_bytes iso_hdlc reconstructor world_desc stream 200
      0x12345678 reconstructor-Follows
      (unfold ZipWriter.current_size ZipWriter.central_directory_size in omega arith) (omega arith)
      (omega arith) (omega arith) (omega arith) (omega arith)
