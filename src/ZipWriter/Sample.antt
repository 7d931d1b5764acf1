-- ===== src/ZipWriter/Sample.antt =====
-- An archive with one entry, for the examples.
use factorio_multiplayer_cac.Common.{ℕ, ◌≡◌, refl, List, [], ◌∷◌, ◌++◌, some, arith}
use factorio_multiplayer_cac.Crates.Bytes.{plain_bytes}
use factorio_multiplayer_cac.Crates.Crc.IsoHdlc.{iso_hdlc, two_bytes}
use factorio_multiplayer_cac.ZipWriter.{ZipWriter, new, encode_file_header, file_header}
use factorio_multiplayer_cac.ZipWriter.Archive.{
  IsArchive, new-IsArchive, encode_file_header-IsArchive,
}

abbrev pub header : List ℕ
header =
    80 ∷ 75 ∷ 3 ∷ 4 ∷ 45 ∷ 0 ∷ 0 ∷ 0 ∷ 0 ∷ 0 ∷ 0 ∷ 0 ∷ 0 ∷ 0 ∷ 146 ∷ 66 ∷ 204 ∷ 182 ∷ 2 ∷ 0 ∷ 0 ∷ 0
    ∷ 2 ∷ 0 ∷ 0 ∷ 0 ∷ 1 ∷ 0 ∷ 0 ∷ 0 ∷ 97 ∷ []

abbrev pub writer : ZipWriter
writer = record {
  current_offset = 33;
  entries =
      record {
        start_offset = 0;
        file_name = 97 ∷ [];
        file_name_size = 1;
        data_size = 2;
        data_crc = 0xb6cc4292;
      }
      ∷ [];
}

pub header_run :
    encode_file_header plain_bytes iso_hdlc new (97 ∷ []) (1 ∷ 2 ∷ []) ≡ some (header, writer)
unfolding encode_file_header file_header new plain_bytes
header_run = rw (encode_file_header, two_bytes) refl

pub writer-IsArchive : IsArchive iso_hdlc writer (header ++ 1 ∷ 2 ∷ [])
writer-IsArchive =
    encode_file_header-IsArchive iso_hdlc plain_bytes new writer [] (97 ∷ []) (1 ∷ 2 ∷ []) header
      (new-IsArchive iso_hdlc) (omega arith) header_run
