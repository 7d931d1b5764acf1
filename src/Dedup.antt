-- ===== src/Dedup.antt =====
-- src/dedup.rs: a world as the list of its files' chunks, and the world put together again.
pub mod Chunks
pub mod Blocks
pub mod Seal
pub mod Finalize
pub mod Files
pub mod RoundTrip
pub mod Rebuild
mod Runs
use factorio_multiplayer_cac.Common.{
  ℕ, zero, suc, ◌+◌, ◌-◌, ◌*◌, ◌/◌, ◌%◌, Bool, true, false, ◌&&◌, Option, none, some, List, [], ◌∷◌,
  ◌++◌, length, take, zeros, ltb, leb, ◌==◌, if◌then◌else◌, u32_mod, u64_mod,
}
use factorio_multiplayer_cac.Common.HashMap.{HashMap, get, insert, bytes_key}
use factorio_multiplayer_cac.Crates.Bytes.{Bytes}
use factorio_multiplayer_cac.Crates.Crc.{Crc}
use factorio_multiplayer_cac.Crates.Content.{Blake3, Miniz, ZipReader}
use factorio_multiplayer_cac.FactorioProtocol.{transfer_block_size}
use factorio_multiplayer_cac.RevCrc
use factorio_multiplayer_cac.RevCrc.{forge_crc}
use factorio_multiplayer_cac.Chunker
use factorio_multiplayer_cac.ZipWriter
use factorio_multiplayer_cac.ZipWriter.{ZipWriter}

abbrev pub reconstruct_deflate_level : ℕ
reconstruct_deflate_level = 1

-- The bytes of a blake3 hash.
abbrev pub ChunkKey : Type 0
ChunkKey = List ℕ

pub data FactorioFileType : Type 0 where
  normal zlib : FactorioFileType

pub record FactorioFileDescription : Type 0 where
  pub file_type : FactorioFileType
  pub file_name : List ℕ
  pub content_size : ℕ
  pub content_chunks : List ChunkKey

pub record FactorioWorldDescription : Type 0 where
  pub files : List FactorioFileDescription
  pub aux_data : List ℕ

pub record FactorioFile : Type 0 where
  pub file_type : FactorioFileType
  pub content : List ℕ

-- A value, an `Err`, or a panic.
pub data Outcome {ℓ} (A : Type ℓ) : Type ℓ where
  ok : A → Outcome A
  err : Outcome A
  panic : Outcome A

infixl 5 ◌>>=◌
abbrev pub ◌>>=◌ {ℓ κ} : {A : Type ℓ} {B : Type κ} → Outcome A → (A → Outcome B) → Outcome B
ok a >>= f = f a
err >>= f = err
panic >>= f = panic

-- `?` on a fallible call, and `expect` on one.
abbrev pub or_err {ℓ} : {A : Type ℓ} → Option A → Outcome A
or_err none = err
or_err (some a) = ok a

abbrev pub or_panic {ℓ} : {A : Type ℓ} → Option A → Outcome A
or_panic none = panic
or_panic (some a) = ok a

abbrev pub assert : Bool → Outcome (Unit {0})
assert true = ok tt
assert false = panic

-- `file_name.rsplit_once('/')`, the part behind the last slash.
unfoldable pub base_name : List ℕ → List ℕ → List ℕ
base_name last [] = last
base_name last (c ∷ cs) = base_name (if c == 47 then cs else last) cs

unfoldable pub strip_prefix : List ℕ → List ℕ → Option (List ℕ)
strip_prefix [] name = some name
strip_prefix (p ∷ ps) [] = none
strip_prefix (p ∷ ps) (c ∷ cs) = if p == c then strip_prefix ps cs else none

unfoldable pub all_digits : List ℕ → Bool
all_digits [] = true
all_digits (c ∷ cs) = leb 48 c && leb c 57 && all_digits cs

-- The UTF-8 bytes of "level.dat".
abbrev pub level_dat : List ℕ
level_dat = 108 ∷ 101 ∷ 118 ∷ 101 ∷ 108 ∷ 46 ∷ 100 ∷ 97 ∷ 116 ∷ []

unfoldable pub is_level_dat : List ℕ → Bool
unfolding base_name strip_prefix all_digits
is_level_dat file_name = elim (strip_prefix level_dat (base_name file_name file_name)) [
  | none ↦ false
  | some suffix ↦ all_digits suffix
]

module _ (miniz : Miniz) where
  unfoldable pub decode_factorio_file : List ℕ → List ℕ → Outcome FactorioFile
  decode_factorio_file file_name file_data =
      if is_level_dat file_name
      then (do
        uncompressed_data ← or_err (miniz.decompress file_data 20000000)
        ok (record { file_type = zlib; content = uncompressed_data }))
      else ok (record { file_type = normal; content = file_data })

  unfoldable pub encode_by_type : FactorioFileType → List ℕ → List ℕ
  encode_by_type normal content = content
  encode_by_type zlib content = miniz.compress content reconstruct_deflate_level

  unfoldable pub encode_factorio_file : FactorioFile → List ℕ
  unfolding encode_by_type
  encode_factorio_file file = encode_by_type file.file_type file.content

module _ (blake3 : Blake3) where
  -- The loop of `chunk_file`, over the chunks that the chunker gives.
  unfoldable pub chunk_loop :
      List (List ℕ)
      → List ChunkKey × HashMap ChunkKey (List ℕ)
      → List ChunkKey × HashMap ChunkKey (List ℕ)
  chunk_loop [] s = s
  chunk_loop (chunk ∷ rest) (content_chunks, chunks) =
      let key = blake3.hash chunk in
      chunk_loop rest (content_chunks ++ key ∷ [], insert key chunk chunks)

  -- `none` only if the chunker ran out of fuel.
  unfoldable pub chunk_file :
      List ℕ
      → FactorioFile
      → HashMap ChunkKey (List ℕ)
      → Option (FactorioFileDescription × HashMap ChunkKey (List ℕ))
  unfolding chunk_loop
  chunk_file file_name file chunks =
      elim (Chunker.collect (suc (length file.content)) (Chunker.new file.content)) [
        | none ↦ none
        | some cs ↦
            let (content_chunks, chunks') = chunk_loop cs ([], chunks) in
            some (
              record {
                file_type = file.file_type;
                file_name = file_name;
                content_size = length file.content;
                content_chunks = content_chunks;
              },
              chunks',
            )
      ]

module _ (blake3 : Blake3) (miniz : Miniz) (reader : ZipReader) where
  -- The body of the loop over the entries of the archive. Running out of the chunker's fuel, which
  -- does not happen, counts as a panic.
  unfoldable pub deconstruct_entry :
      List ℕ × Option (List ℕ)
      → List FactorioFileDescription × HashMap ChunkKey (List ℕ)
      → Outcome (List FactorioFileDescription × HashMap ChunkKey (List ℕ))
  deconstruct_entry (name, content) (files, chunks) = do
    buf ← or_err content
    decoded_file ← decode_factorio_file miniz name buf
    (file, chunks') ← or_panic (chunk_file blake3 name decoded_file chunks)
    ok (files ++ file ∷ [], chunks')

  -- The loop over `0..zip_reader.len()` at index `i`, with the indices that are left.
  unfoldable pub deconstruct_loop :
      reader.Archive
      → ℕ
      → ℕ
      → List FactorioFileDescription × HashMap ChunkKey (List ℕ)
      → Outcome (List FactorioFileDescription × HashMap ChunkKey (List ℕ))
  deconstruct_loop archive zero i s = ok s
  deconstruct_loop archive (suc left) i s = do
    zip_file ← or_err (reader.by_index archive i)
    s' ← deconstruct_entry zip_file s
    deconstruct_loop archive left (i + 1) s'

  unfoldable pub deconstruct_world :
      List ℕ → List ℕ → Outcome (FactorioWorldDescription × HashMap ChunkKey (List ℕ))
  deconstruct_world world_data aux_data = do
    archive ← or_err (reader.open_archive world_data)
    (files, chunks) ← deconstruct_loop archive (reader.len archive) 0 ([], [])
    ok (record { files = files; aux_data = aux_data }, chunks)

-- `crc_hasher` is its raw value.
pub record WorldReconstructor : Type 0 where
  pub zip_writer : ZipWriter
  pub crc_hasher : ℕ

unfoldable pub new : Crc → WorldReconstructor
new crc = record { zip_writer = ZipWriter.new; crc_hasher = crc.init }

-- The loop that puts the chunks of a file behind the buffer.
unfoldable pub put_chunks : List ChunkKey → HashMap ChunkKey (List ℕ) → List ℕ → Outcome (List ℕ)
put_chunks [] chunks buf = ok buf
put_chunks (chunk_key ∷ rest) chunks buf = do
  chunk ← or_err (get chunk_key chunks)
  put_chunks rest chunks (buf ++ chunk)

module _ (api : Bytes) (crc : Crc) (miniz : Miniz) where
  -- The two blocks of the file, or `err` for `NeedsMoreData`.
  unfoldable pub reconstruct_world_file :
      WorldReconstructor
      → FactorioFileDescription
      → HashMap ChunkKey (List ℕ)
      → Outcome (List ℕ × List ℕ × WorldReconstructor)
  reconstruct_world_file self file_desc chunks = do
    buf ← put_chunks file_desc.content_chunks chunks []
    let file : FactorioFile = record { file_type = file_desc.file_type; content = buf }
    let file_data = encode_factorio_file miniz file
    (header, zip_writer) ←
        or_panic
          (ZipWriter.encode_file_header api crc self.zip_writer file_desc.file_name file_data)
    ok (
      header,
      file_data,
      record {
        zip_writer = zip_writer;
        crc_hasher = crc.update (crc.update self.crc_hasher header) file_data;
      },
    )

-- `resize(len, 0)`.
abbrev pub resize : List ℕ → ℕ → List ℕ
resize bytes len = take len bytes ++ zeros (len - length bytes)

-- The blocks that so many bytes take, and the bytes of those blocks, in 32 bits.
unfoldable pub aligned_length : ℕ → ℕ
aligned_length size =
    let block_count =
      (size % u32_mod + transfer_block_size + u32_mod - 1) % u32_mod / transfer_block_size in
    block_count * transfer_block_size % u32_mod

-- `aligned - size + len` on `usize`, as it wraps.
abbrev pub grow : ℕ → ℕ → ℕ → ℕ
grow aligned size len = ((aligned + u64_mod - size) % u64_mod + len) % u64_mod

-- The part of `finalize_world_file` that aligns the world and the auxiliary data to the blocks.
unfoldable pub align_blocks : List ℕ → List ℕ → ℕ → List ℕ
unfolding aligned_length
align_blocks output aux_data target_world_size =
    let world_aligned_length = aligned_length target_world_size in
    let aux_aligned_length = aligned_length (length aux_data) in
    let output1 = resize output (grow world_aligned_length target_world_size (length output)) in
    let output2 = output1 ++ aux_data in
    resize output2 (grow aux_aligned_length (length aux_data) (length output2))

module _ (crc : Crc) where
  -- The four bytes between the padding, hashed so far to `padded_crc`, and the central directory.
  unfoldable pub forge_bytes_for : ℕ → List ℕ → List ℕ → ℕ → List ℕ
  forge_bytes_for padded_crc zip_footer aux_data target_crc =
      let forward_crc = crc.finalize padded_crc in
      let rev_crc_hasher = RevCrc.digest (RevCrc.new crc) target_crc in
      let rev_crc_hasher' = RevCrc.update rev_crc_hasher aux_data in
      forge_crc forward_crc (RevCrc.update rev_crc_hasher' zip_footer)

  -- The CRC that is computed to verify them.
  unfoldable pub final_crc_of : ℕ → List ℕ → List ℕ → List ℕ → ℕ
  final_crc_of padded_crc forge_bytes zip_footer aux_data =
      crc.finalize (crc.update (crc.update (crc.update padded_crc forge_bytes) zip_footer) aux_data)

module _ (api : Bytes) (crc : Crc) where
  -- `finalize_world_file` from the central directory on, with the padding written and hashed.
  unfoldable pub seal_world :
      WorldReconstructor → List ℕ → ℕ → List ℕ → List ℕ → ℕ → ℕ → Outcome (List ℕ)
  seal_world self padding padded_crc zip_footer aux_data target_world_size target_crc = do
    let forge_bytes = forge_bytes_for crc padded_crc zip_footer aux_data target_crc
    let output = (padding ++ forge_bytes) ++ zip_footer
    _ ← assert (ZipWriter.current_size self.zip_writer + length output == target_world_size)
    _ ← assert (final_crc_of crc padded_crc forge_bytes zip_footer aux_data == target_crc)
    let aligned = align_blocks output aux_data target_world_size
    _ ←
        assert
          ((ZipWriter.current_size self.zip_writer + length aligned) % transfer_block_size == 0)
    ok aligned

  unfoldable pub finalize_world_file :
      WorldReconstructor → FactorioWorldDescription → ℕ → ℕ → Outcome (List ℕ)
  finalize_world_file self world_desc target_world_size target_crc =
      let current_size = ZipWriter.current_size self.zip_writer in
      let zip_footer_size = ZipWriter.central_directory_size self.zip_writer in
      let total_size = current_size + zip_footer_size + 4 in
      if ltb target_world_size total_size then err else (do
        let padding = zeros (target_world_size - total_size)
        let padded_crc = crc.update self.crc_hasher padding
        let zip_writer = ZipWriter.advance_offset self.zip_writer (length padding + 4)
        zip_footer ← or_panic (ZipWriter.encode_central_directory api zip_writer)
        seal_world self padding padded_crc zip_footer world_desc.aux_data target_world_size
            target_crc)
