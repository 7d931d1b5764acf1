-- ===== src/ZipWriter.antt =====
-- src/zip_writer.rs: stored entries, and the central directory that lists them.
pub mod Layout
pub mod Archive
pub mod Reader
pub mod Sample
mod Runs
use factorio_multiplayer_cac.Common.{
  ℕ, ◌+◌, Option, none, some, List, [], ◌∷◌, ◌++◌, length, ltb, if◌then◌else◌, ◌>>=◌, u16_mod,
  u32_mod, ◌≡◌, refl, IsU16, IsU32, arith,
}
use factorio_multiplayer_cac.Crates.Bytes.{Bytes, u16, u32, ◌|>◌}
use factorio_multiplayer_cac.Crates.Crc.{Crc, checksum}

-- A file name is the list of its UTF-8 bytes.
pub record ZipEntryMetadata : Type 0 where
  pub start_offset : ℕ
  pub file_name : List ℕ
  pub file_name_size : ℕ
  pub data_size : ℕ
  pub data_crc : ℕ

pub record ZipWriter : Type 0 where
  pub current_offset : ℕ
  pub entries : List ZipEntryMetadata

abbrev pub central_directory_entry_size : ℕ
central_directory_entry_size = 46

abbrev pub end_of_central_directory_size : ℕ
end_of_central_directory_size = 22

unfoldable pub new : ZipWriter
new = record { current_offset = 0; entries = [] }

-- `try_into().expect(…)` to a narrower word: `none` is the panic.
abbrev pub expect_u16 : ℕ → Option ℕ
expect_u16 n = if ltb n u16_mod then some n else none

abbrev pub expect_u32 : ℕ → Option ℕ
expect_u32 n = if ltb n u32_mod then some n else none

pub expect_u16-eq-some : (n a : ℕ) → expect_u16 n ≡ some a → (a ≡ n) × IsU16 n
expect_u16-eq-some n a h = ground arith

pub expect_u32-eq-some : (n a : ℕ) → expect_u32 n ≡ some a → (a ≡ n) × IsU32 n
expect_u32-eq-some n a h = ground arith

unfoldable pub advance_offset : ZipWriter → ℕ → ZipWriter
advance_offset self offset = record self { current_offset = self.current_offset + offset }

unfoldable pub current_size : ZipWriter → ℕ
current_size self = self.current_offset

pub directory_size_loop : List ZipEntryMetadata → ℕ → ℕ
directory_size_loop [] size = size
directory_size_loop (entry ∷ rest) size =
    directory_size_loop rest (size + (central_directory_entry_size + length entry.file_name))

unfoldable pub central_directory_size : ZipWriter → ℕ
unfolding directory_size_loop
central_directory_size self = directory_size_loop self.entries 0 + end_of_central_directory_size

module _ (api : Bytes) where
  -- What `encode_file_header` puts for an entry.
  pub file_header : ZipEntryMetadata → List ℕ
  file_header entry =
      ([]
        |> u32 api 0x04034b50
        |> u16 api 45
        |> u16 api 0
        |> u16 api 0
        |> u16 api 0
        |> u16 api 0
        |> u32 api entry.data_crc
        |> u32 api entry.data_size
        |> u32 api entry.data_size
        |> u16 api entry.file_name_size
        |> u16 api 0)
      ++ entry.file_name

  pub encode_file_header : Crc → ZipWriter → List ℕ → List ℕ → Option (List ℕ × ZipWriter)
  unfolding file_header
  encode_file_header crc self file_name file_data = do
    let data_crc = checksum crc file_data
    data_size ← expect_u32 (length file_data)
    file_name_size ← expect_u16 (length file_name)
    let entry : ZipEntryMetadata = record {
      start_offset = self.current_offset;
      file_name = file_name;
      file_name_size = file_name_size;
      data_size = data_size;
      data_crc = data_crc;
    }
    let buf = file_header entry
    some (
      buf,
      record {
        current_offset = self.current_offset + length buf + length file_data;
        entries = self.entries ++ entry ∷ [];
      },
    )

  -- One round of the loop of `encode_central_directory`.
  pub put_entry : ZipEntryMetadata → List ℕ → Option (List ℕ)
  put_entry entry buf = do
    offset ← expect_u32 entry.start_offset
    some (
        (buf
          |> u32 api 0x02014b50
          |> u16 api 45
          |> u16 api 45
          |> u16 api 0
          |> u16 api 0
          |> u16 api 0
          |> u16 api 0
          |> u32 api entry.data_crc
          |> u32 api entry.data_size
          |> u32 api entry.data_size
          |> u16 api entry.file_name_size
          |> u16 api 0
          |> u16 api 0
          |> u16 api 0
          |> u16 api 0
          |> u32 api 0
          |> u32 api offset)
        ++ entry.file_name)

  pub put_entries : List ZipEntryMetadata → List ℕ → Option (List ℕ)
  put_entries [] buf = some buf
  put_entries (entry ∷ rest) buf = put_entry entry buf >>= put_entries rest

  -- The record that ends the directory.
  pub put_end : ℕ → ℕ → ℕ → List ℕ → List ℕ
  put_end entry_count central_directory_size central_directory_offset buf =
      buf
      |> u32 api 0x06054b50
      |> u16 api 0
      |> u16 api 0
      |> u16 api entry_count
      |> u16 api entry_count
      |> u32 api central_directory_size
      |> u32 api central_directory_offset
      |> u16 api 0

  pub encode_central_directory : ZipWriter → Option (List ℕ)
  unfolding put_entry put_entries put_end
  encode_central_directory self = do
    central_directory_offset ← expect_u32 self.current_offset
    entry_count ← expect_u16 (length self.entries)
    buf ← put_entries self.entries []
    central_directory_size ← expect_u32 (length buf)
    some (put_end entry_count central_directory_size central_directory_offset buf)
