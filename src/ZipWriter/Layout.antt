-- ===== src/ZipWriter/Layout.antt =====
-- The bytes of the headers with the calls of the buffer gone, and their lengths.
use factorio_multiplayer_cac.Common.{
  ℕ, ◌+◌, ◌≡◌, sym, ap, ◌∙◌, none, some, List, [], ◌∷◌, ◌++◌, append_assoc, append-nil, length,
  length-append, All, All-append, IsByte, IsU16, IsU32, ltb→lt, lt→ltb, to_le_bytes, ltb,
  if◌then◌else◌, u32_mod, Bool-cases, inl, inr, arith,
}
use factorio_multiplayer_cac.Crates.Bytes.{Bytes}
use factorio_multiplayer_cac.ZipWriter.{
  central_directory_entry_size, ZipWriter, ZipEntryMetadata, file_header, put_entry, put_entries,
  put_end, encode_central_directory, central_directory_size, directory_size_loop,
}

abbrev pub local_header : ZipEntryMetadata → List ℕ
local_header e =
    to_le_bytes 4 0x04034b50
    ++ to_le_bytes 2 45
    ++ to_le_bytes 2 0
    ++ to_le_bytes 2 0
    ++ to_le_bytes 2 0
    ++ to_le_bytes 2 0
    ++ to_le_bytes 4 e.data_crc
    ++ to_le_bytes 4 e.data_size
    ++ to_le_bytes 4 e.data_size
    ++ to_le_bytes 2 e.file_name_size
    ++ to_le_bytes 2 0
    ++ e.file_name

abbrev pub directory_entry : ZipEntryMetadata → List ℕ
directory_entry e =
    to_le_bytes 4 0x02014b50
    ++ to_le_bytes 2 45
    ++ to_le_bytes 2 45
    ++ to_le_bytes 2 0
    ++ to_le_bytes 2 0
    ++ to_le_bytes 2 0
    ++ to_le_bytes 2 0
    ++ to_le_bytes 4 e.data_crc
    ++ to_le_bytes 4 e.data_size
    ++ to_le_bytes 4 e.data_size
    ++ to_le_bytes 2 e.file_name_size
    ++ to_le_bytes 2 0
    ++ to_le_bytes 2 0
    ++ to_le_bytes 2 0
    ++ to_le_bytes 2 0
    ++ to_le_bytes 4 0
    ++ to_le_bytes 4 e.start_offset
    ++ e.file_name

abbrev pub end_record : ℕ → ℕ → ℕ → List ℕ
end_record count size offset =
    to_le_bytes 4 0x06054b50
    ++ to_le_bytes 2 0
    ++ to_le_bytes 2 0
    ++ to_le_bytes 2 count
    ++ to_le_bytes 2 count
    ++ to_le_bytes 4 size
    ++ to_le_bytes 4 offset
    ++ to_le_bytes 2 0

abbrev pub directory_entries : List ZipEntryMetadata → List ℕ
directory_entries [] = []
directory_entries (e ∷ es) = directory_entry e ++ directory_entries es

-- A directory that is written: its three counts fit their fields, and its bytes are these.
pub record IsWritten (w : ZipWriter) (out : List ℕ) : Type 0 where
  pub offset_fits : IsU32 w.current_offset
  pub count_fits : IsU16 (length w.entries)
  pub offsets_fit : All (λ e. IsU32 e.start_offset) w.entries
  pub size_fits : IsU32 (length (directory_entries w.entries))
  pub bytes :
      out
      ≡ directory_entries w.entries
        ++ end_record (length w.entries) (length (directory_entries w.entries)) w.current_offset

module _ (api : Bytes) where
  open api use {put_u16_le_lem, put_u32_le_lem}

  pub file_header_lem : (e : ZipEntryMetadata) → file_header api e ≡ local_header e
  unfolding file_header
  file_header_lem e = simp (put_u16_le_lem, put_u32_le_lem, append_assoc)

  pub put_entry_lem :
      (e : ZipEntryMetadata) (buf : List ℕ)
      → put_entry api e buf
        ≡ (if ltb e.start_offset u32_mod then some (buf ++ directory_entry e) else none)
  unfolding put_entry
  put_entry_lem e buf = elim (Bool-cases (ltb e.start_offset u32_mod)) [
    | inl fits ↦ rw fits (ap some (simp (put_u16_le_lem, put_u32_le_lem, append_assoc)))
    | inr wide ↦ rw wide
  ]

  -- The loop writes every entry, or stops at an offset that is too wide.
  pub put_entries_lem :
      (es : List ZipEntryMetadata) (buf out : List ℕ)
      → put_entries api es buf ≡ some out
      → (out ≡ buf ++ directory_entries es) × All (λ e. IsU32 e.start_offset) es
  unfolding put_entries
  put_entries_lem [] buf out h = (cc (append-nil buf), tt)
  put_entries_lem (e ∷ es) buf out h = elim (Bool-cases (ltb e.start_offset u32_mod)) [
    | inl fits ↦
        let rest =
          put_entries_lem es (buf ++ directory_entry e) out (rw (put_entry_lem e buf, fits) at h) in
        (
          rest.0 ∙ append_assoc buf (directory_entry e) (directory_entries es),
          (ltb→lt _ _ fits, rest.1),
        )
    | inr wide ↦ absurd (ground (arith, put_entry_lem e buf))
  ]

  pub put_entries_of_fit :
      (es : List ZipEntryMetadata) (buf : List ℕ)
      → All (λ e. IsU32 e.start_offset) es
      → put_entries api es buf ≡ some (buf ++ directory_entries es)
  unfolding put_entries
  put_entries_of_fit [] buf h = ap some (sym (append-nil buf))
  put_entries_of_fit (e ∷ es) buf h =
      rw (put_entry_lem e buf, lt→ltb _ _ h.0)
        (put_entries_of_fit es (buf ++ directory_entry e) h.1
          ∙ ap some (append_assoc buf (directory_entry e) (directory_entries es)))

  pub put_end_lem :
      (count size offset : ℕ) (buf : List ℕ)
      → put_end api count size offset buf ≡ buf ++ end_record count size offset
  unfolding put_end
  put_end_lem count size offset buf = simp (put_u16_le_lem, put_u32_le_lem, append_assoc)

  encode_central_directory_lem :
      (w : ZipWriter) (out : List ℕ)
      → encode_central_directory api w ≡ some out
      → (buf : List ℕ) × (put_entries api w.entries [] ≡ some buf)
        × IsU32 w.current_offset
        × IsU16 (length w.entries)
        × IsU32 (length buf)
        × (out ≡ put_end api (length w.entries) (length buf) w.current_offset buf)
  unfolding encode_central_directory
  encode_central_directory_lem w out h = ground arith

  pub encode_central_directory-IsWritten :
      (w : ZipWriter) (out : List ℕ) → encode_central_directory api w ≡ some out → IsWritten w out
  encode_central_directory-IsWritten w out h =
      let (buf, written, offset_fits, count_fits, size_fits, out_eq) =
        encode_central_directory_lem w out h in
      let (buf_eq, offsets_fit) = put_entries_lem w.entries [] buf written in
      record {
        offset_fits = offset_fits;
        count_fits = count_fits;
        offsets_fit = offsets_fit;
        size_fits = rw buf_eq at size_fits;
        bytes =
            out_eq
            ∙ put_end_lem (length w.entries) (length buf) w.current_offset buf
            ∙ ap (λ (t : List ℕ). t ++ end_record (length w.entries) (length t) w.current_offset)
                buf_eq;
      }

directory_entry-IsByte :
    (e : ZipEntryMetadata) → All IsByte e.file_name → All IsByte (directory_entry e)
directory_entry-IsByte e h = All-append IsByte (fixed_part e) e.file_name (omega arith) h
  where
    fixed_part : ZipEntryMetadata → List ℕ
    fixed_part e = directory_entry (record e { file_name = [] })

directory_entries-IsByte :
    (es : List ZipEntryMetadata)
    → All (λ e. All IsByte e.file_name) es
    → All IsByte (directory_entries es)
directory_entries-IsByte [] h = tt
directory_entries-IsByte (e ∷ es) h =
    All-append IsByte (directory_entry e) (directory_entries es) (directory_entry-IsByte e h.0)
      (directory_entries-IsByte es h.1)

-- The directory is made of bytes if the names are.
pub encode_central_directory-IsByte :
    (api : Bytes) (w : ZipWriter) (out : List ℕ)
    → encode_central_directory api w ≡ some out
    → All (λ e. All IsByte e.file_name) w.entries
    → All IsByte out
encode_central_directory-IsByte api w out h names =
    let written = encode_central_directory-IsWritten api w out h in
    rw written.bytes (
      All-append IsByte (directory_entries w.entries) _ (directory_entries-IsByte w.entries names)
        (omega arith))

size_loop_lem :
    (es : List ZipEntryMetadata) (size : ℕ)
    → directory_size_loop es size ≡ size + length (directory_entries es)
unfolding directory_size_loop
size_loop_lem [] size = omega arith
size_loop_lem (e ∷ es) size =
    size_loop_lem es (size + (central_directory_entry_size + length e.file_name))
    ∙ omega (arith, length-append e.file_name (directory_entries es))

-- If the central directory is encoded, its length is the size that central_directory_size
-- announces.
pub length-encode_central_directory :
    (api : Bytes) (w : ZipWriter) (out : List ℕ)
    → encode_central_directory api w ≡ some out
    → length out ≡ central_directory_size w
unfolding central_directory_size
length-encode_central_directory api w out h =
    let e = (encode_central_directory-IsWritten api w out h).bytes in
    ap length e
    ∙ length-append (directory_entries w.entries) _
    ∙ omega (arith, size_loop_lem w.entries 0)

-- It is written whenever its counts fit their fields.
pub encode_central_directory_of_fit :
    (api : Bytes) (w : ZipWriter)
    → IsU32 w.current_offset
    → IsU16 (length w.entries)
    → All (λ e. IsU32 e.start_offset) w.entries
    → IsU32 (central_directory_size w)
    → (out : List ℕ) × (encode_central_directory api w ≡ some out)
unfolding encode_central_directory central_directory_size
encode_central_directory_of_fit api w offset_fits count_fits offsets_fit size_fits =
    let buf : List ℕ = directory_entries w.entries in
    let fits : IsU32 (length buf) = omega (arith, size_loop_lem w.entries 0) in
    (
      put_end api (length w.entries) (length buf) w.current_offset buf,
      rw (
        lt→ltb w.current_offset u32_mod offset_fits,
        lt→ltb (length w.entries) 65536 count_fits,
        put_entries_of_fit api w.entries [] offsets_fit,
        lt→ltb (length buf) u32_mod fits,
      ),
    )
