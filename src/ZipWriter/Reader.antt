-- ===== src/ZipWriter/Reader.antt =====
-- A reader of ZIP archives that knows the format and not the writer: it finds the end record, and
-- reads the entries of the directory from the offset that the record gives.
use factorio_multiplayer_cac.Common.{
  ◌>>=◌, ℕ, zero, suc, ◌-◌, ◌≡◌, refl, sym, ap, ap₂, ◌∙◌, Option, none, some, List, [], ◌∷◌, ◌++◌,
  append_assoc, length, length-append, take, drop, take-length-append, drop-length-append, All,
  IsU16, IsU32, to_le_bytes, from_le_bytes, from_le_bytes-to_le_bytes, ◌==◌, if◌then◌else◌, arith,
}
use factorio_multiplayer_cac.Crates.Bytes.{Bytes}
use factorio_multiplayer_cac.Crates.Crc.{Crc}
use factorio_multiplayer_cac.ZipWriter.{ZipWriter, ZipEntryMetadata, encode_central_directory}
use factorio_multiplayer_cac.ZipWriter.Layout.{
  directory_entry, directory_entries, end_record, IsWritten, encode_central_directory-IsWritten,
}
use factorio_multiplayer_cac.ZipWriter.Archive.{IsStored, IsArchive}

-- The little-endian field of `n` bytes at a position.
abbrev field : ℕ → ℕ → List ℕ → ℕ
field at n bytes = from_le_bytes (take n (drop at bytes))

pub read_entry : List ℕ → Option (ZipEntryMetadata × List ℕ)
read_entry bytes =
    if field 0 4 bytes == 0x02014b50
    then some (
      record {
        start_offset = field 42 4 bytes;
        file_name = take (field 28 2 bytes) (drop 46 bytes);
        file_name_size = field 28 2 bytes;
        data_size = field 24 4 bytes;
        data_crc = field 16 4 bytes;
      },
      drop (field 28 2 bytes) (drop 46 bytes),
    )
    else none

pub read_entries : ℕ → List ℕ → Option (List ZipEntryMetadata)
read_entries zero bytes = some []
read_entries (suc n) bytes = do
  (e, rest) ← read_entry bytes
  es ← read_entries n rest
  some (e ∷ es)

pub read_directory : List ℕ → Option (List ZipEntryMetadata)
unfolding read_entries
read_directory archive =
    let end_bytes = drop (length archive - 22) archive in
    if field 0 4 end_bytes == 0x06054b50
    then read_entries (field 10 2 end_bytes) (drop (field 16 4 end_bytes) archive)
    else none

-- The fields of an entry fit their places.
pub record IsFit (e : ZipEntryMetadata) : Type 0 where
  pub size_fits : IsU32 e.data_size
  pub crc_fits : IsU32 e.data_crc
  pub offset_fits : IsU32 e.start_offset
  pub name_size : length e.file_name ≡ e.file_name_size
  pub name_fits : IsU16 e.file_name_size

read_entry-directory_entry :
    (e : ZipEntryMetadata) (rest : List ℕ)
    → IsFit e
    → read_entry (directory_entry e ++ rest) ≡ some (e, rest)
unfolding read_entry
read_entry-directory_entry e rest h = λ i. some (
  record {
    start_offset = from_le_bytes-to_le_bytes 4 e.start_offset h.offset_fits i;
    file_name =
        (ap (λ n. take n (e.file_name ++ rest)) size ∙ take-length-append e.file_name rest) i;
    file_name_size = from_le_bytes-to_le_bytes 2 e.file_name_size h.name_fits i;
    data_size = from_le_bytes-to_le_bytes 4 e.data_size h.size_fits i;
    data_crc = from_le_bytes-to_le_bytes 4 e.data_crc h.crc_fits i;
  },
  (ap (λ n. drop n (e.file_name ++ rest)) size ∙ drop-length-append e.file_name rest) i,
)
  where
    size : from_le_bytes (to_le_bytes 2 e.file_name_size) ≡ length e.file_name
    size = from_le_bytes-to_le_bytes 2 e.file_name_size h.name_fits ∙ sym h.name_size

read_entries-directory_entries :
    (es : List ZipEntryMetadata) (rest : List ℕ)
    → All IsFit es
    → read_entries (length es) (directory_entries es ++ rest) ≡ some es
unfolding read_entries
read_entries-directory_entries [] rest h = refl
read_entries-directory_entries (e ∷ es) rest h = rw (
  append_assoc (directory_entry e) (directory_entries es) rest,
  read_entry-directory_entry e (directory_entries es ++ rest) h.0,
  read_entries-directory_entries es rest h.1,
)

-- The entries of an archive whose directory was written fit their fields.
entries-IsFit :
    (crc : Crc) (out : List ℕ) (es : List ZipEntryMetadata)
    → All (IsStored crc out) es
    → All (λ e. IsU32 e.start_offset) es
    → All IsFit es
entries-IsFit crc out [] h fit = tt
entries-IsFit crc out (e ∷ es) h fit = (
  record {
    size_fits = h.0.size_fits;
    crc_fits = h.0.crc_fits;
    offset_fits = fit.0;
    name_size = h.0.name_size;
    name_fits = h.0.name_fits;
  },
  entries-IsFit crc out es h.1 fit.1,
)

-- A reader that is written from the format finds in the stream followed by the central directory
-- exactly the entries of the writer, if the stream stores the entries as their metadata say and
-- the directory is encoded.
pub read_directory-encode_central_directory :
    (api : Bytes) (crc : Crc) (w : ZipWriter) (out directory : List ℕ)
    → IsArchive crc w out
    → encode_central_directory api w ≡ some directory
    → read_directory (out ++ directory) ≡ some w.entries
unfolding read_directory
read_directory-encode_central_directory api crc w out directory h run = rw at_end (
    ap₂ read_entries (from_le_bytes-to_le_bytes 2 (length es) written.count_fits) (
      ap (λ n. drop n (out ++ directory))
        (from_le_bytes-to_le_bytes 4 w.current_offset written.offset_fits ∙ h.offset)
      ∙ drop-length-append out directory
      ∙ written.bytes)
    ∙ read_entries-directory_entries es tail_of
        (entries-IsFit crc out es h.stored written.offsets_fit))
  where
    written : IsWritten w directory
    written = encode_central_directory-IsWritten api w directory run

    es : List ZipEntryMetadata
    es = w.entries

    tail_of : List ℕ
    tail_of = end_record (length es) (length (directory_entries es)) w.current_offset

    whole : out ++ directory ≡ (out ++ directory_entries es) ++ tail_of
    whole = ap (◌++◌ out) written.bytes ∙ sym (append_assoc out (directory_entries es) tail_of)

    at_end : drop (length (out ++ directory) - 22) (out ++ directory) ≡ tail_of
    at_end =
        ap₂ (λ n xs. drop n xs)
          (omega
            (arith, ap (length {A = ℕ}) whole, length-append (out ++ directory_entries es) tail_of))
          whole
        ∙ drop-length-append (out ++ directory_entries es) tail_of
