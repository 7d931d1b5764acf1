-- ===== src/ZipWriter/Runs.antt =====
-- src/zip_writer.rs: an archive with one entry.
use factorio_multiplayer_cac.Common.{ℕ, ◌≡◌, refl, List, [], ◌∷◌, ◌++◌, length, some, arith}
use factorio_multiplayer_cac.Crates.Bytes.{plain_bytes}
use factorio_multiplayer_cac.Crates.Crc.IsoHdlc.{iso_hdlc}
use factorio_multiplayer_cac.ZipWriter.{
  new, encode_central_directory, central_directory_size, put_entry, put_entries, put_end,
}
use factorio_multiplayer_cac.ZipWriter.Sample.{header, writer, header_run, writer-IsArchive}
use factorio_multiplayer_cac.ZipWriter.Layout.{length-encode_central_directory}
use factorio_multiplayer_cac.ZipWriter.Archive.{
  IsArchive, new-IsArchive, encode_file_header-IsArchive,
}
use factorio_multiplayer_cac.ZipWriter.Reader.{
  read_directory, read_directory-encode_central_directory,
}

abbrev directory : List ℕ
directory =
    80 ∷ 75 ∷ 1 ∷ 2 ∷ 45 ∷ 0 ∷ 45 ∷ 0 ∷ 0 ∷ 0 ∷ 0 ∷ 0 ∷ 0 ∷ 0 ∷ 0 ∷ 0 ∷ 146 ∷ 66 ∷ 204 ∷ 182 ∷ 2 ∷ 0
    ∷ 0 ∷ 0 ∷ 2 ∷ 0 ∷ 0 ∷ 0 ∷ 1 ∷ 0 ∷ 0 ∷ 0 ∷ 0 ∷ 0 ∷ 0 ∷ 0 ∷ 0 ∷ 0 ∷ 0 ∷ 0 ∷ 0 ∷ 0 ∷ 0 ∷ 0 ∷ 0 ∷ 0
    ∷ 97 ∷ 80 ∷ 75 ∷ 5 ∷ 6 ∷ 0 ∷ 0 ∷ 0 ∷ 0 ∷ 1 ∷ 0 ∷ 1 ∷ 0 ∷ 47 ∷ 0 ∷ 0 ∷ 0 ∷ 33 ∷ 0 ∷ 0 ∷ 0 ∷ 0 ∷ 0
    ∷ []

directory_run : encode_central_directory plain_bytes writer ≡ some directory
unfolding encode_central_directory put_entry put_entries put_end plain_bytes
directory_run = refl

encode_file_header-IsArchive_example : IsArchive iso_hdlc writer ([] ++ (header ++ 1 ∷ 2 ∷ []))
encode_file_header-IsArchive_example =
    encode_file_header-IsArchive iso_hdlc plain_bytes new writer [] (97 ∷ []) (1 ∷ 2 ∷ []) header
      (new-IsArchive iso_hdlc) (omega arith) header_run

read_directory-encode_central_directory_example :
    read_directory ((header ++ 1 ∷ 2 ∷ []) ++ directory) ≡ some writer.entries
read_directory-encode_central_directory_example =
    read_directory-encode_central_directory plain_bytes iso_hdlc writer (header ++ 1 ∷ 2 ∷ [])
      directory writer-IsArchive directory_run

length-encode_central_directory_example : length directory ≡ central_directory_size writer
length-encode_central_directory_example =
    length-encode_central_directory plain_bytes writer directory directory_run
