-- ===== src/ZipWriter/Archive.antt =====
-- The stream that the writer's client builds: every entry's header and data stand where its
-- metadata say.
use factorio_multiplayer_cac.Common.{
  ℕ, ◌+◌, ◌≤◌, ◌≡◌, refl, sym, ap, ap₂, ◌∙◌, some, List, [], ◌∷◌, ◌++◌, append_assoc, append-nil,
  length, length-append, All, All-append, IsByte, IsU16, IsU32, arith, Option-cases, inl, inr,
  lt→ltb, u16_mod, u32_mod,
}
use factorio_multiplayer_cac.Common.Xor.{xor-lt}
use factorio_multiplayer_cac.Crates.Bytes.{Bytes}
use factorio_multiplayer_cac.Crates.Crc.{Crc, checksum}
use factorio_multiplayer_cac.RevCrc.Forge.{update-IsU32}
use factorio_multiplayer_cac.ZipWriter.{
  ZipWriter, ZipEntryMetadata, new, advance_offset, encode_file_header, file_header,
}
use factorio_multiplayer_cac.ZipWriter.Layout.{local_header, file_header_lem}

-- The header of the entry and its data stand in the stream at the offset of the entry.
pub record IsStored (crc : Crc) (out : List ℕ) (e : ZipEntryMetadata) : Type 0 where
  pub before : List ℕ
  pub content : List ℕ
  pub after : List ℕ
  pub split : out ≡ before ++ (local_header e ++ (content ++ after))
  pub at_offset : length before ≡ e.start_offset
  pub size : length content ≡ e.data_size
  pub size_fits : IsU32 e.data_size
  pub crc_is : checksum crc content ≡ e.data_crc
  pub crc_fits : IsU32 e.data_crc
  pub name_size : length e.file_name ≡ e.file_name_size
  pub name_fits : IsU16 e.file_name_size
  pub name_bytes : All IsByte e.file_name

pub record IsArchive (crc : Crc) (w : ZipWriter) (out : List ℕ) : Type 0 where
  pub offset : w.current_offset ≡ length out
  pub stored : All (IsStored crc out) w.entries

module _ (crc : Crc) where
  checksum-IsU32 : (bytes : List ℕ) → IsU32 (checksum crc bytes)
  checksum-IsU32 bytes = rw crc.finalize_lem (
      xor-lt 32 (crc.update crc.init bytes) crc.xorout (update-IsU32 crc crc.init bytes crc.init_lt)
        crc.xorout_lt)

  IsStored-append :
      (out more : List ℕ) (e : ZipEntryMetadata) → IsStored crc out e → IsStored crc (out ++ more) e
  IsStored-append out more e s = record {
    before = s.before;
    content = s.content;
    after = s.after ++ more;
    split = ap (λ (t : List ℕ). t ++ more) s.split ∙ simp append_assoc;
    at_offset = s.at_offset;
    size = s.size;
    size_fits = s.size_fits;
    crc_is = s.crc_is;
    crc_fits = s.crc_fits;
    name_size = s.name_size;
    name_fits = s.name_fits;
    name_bytes = s.name_bytes;
  }

  All-IsStored-append :
      (out more : List ℕ) (es : List ZipEntryMetadata)
      → All (IsStored crc out) es
      → All (IsStored crc (out ++ more)) es
  All-IsStored-append out more [] h = tt
  All-IsStored-append out more (e ∷ es) h =
      (IsStored-append out more e h.0, All-IsStored-append out more es h.1)

  pub new-IsArchive : IsArchive crc new []
  unfolding new
  new-IsArchive = record { offset = refl; stored = tt }

  pub advance_offset-IsArchive :
      (w : ZipWriter) (out padding : List ℕ)
      → IsArchive crc w out
      → IsArchive crc (advance_offset w (length padding)) (out ++ padding)
  unfolding advance_offset
  advance_offset-IsArchive w out padding h = record {
    offset = omega (arith, length-append out padding);
    stored = All-IsStored-append out padding w.entries h.stored;
  }

  abbrev pub entry_of : ZipWriter → List ℕ → List ℕ → ZipEntryMetadata
  entry_of w name bytes = record {
    start_offset = w.current_offset;
    file_name = name;
    file_name_size = length name;
    data_size = length bytes;
    data_crc = checksum crc bytes;
  }

  -- What a call that returns gives.
  pub encode_file_header_lem :
      (api : Bytes) (w w' : ZipWriter) (name bytes header : List ℕ)
      → encode_file_header api crc w name bytes ≡ some (header, w')
      → (header ≡ file_header api (entry_of w name bytes))
        × IsU32 (length bytes)
        × IsU16 (length name)
        × (w' ≡ record {
          current_offset = w.current_offset + length header + length bytes;
          entries = w.entries ++ entry_of w name bytes ∷ [];
        })
  unfolding encode_file_header
  encode_file_header_lem api w w' name bytes header h =
      (ground arith, ground arith, ground arith, ground arith)

  -- If the stream so far stores the entries as their metadata say and the name is a list of
  -- bytes, then after encode_file_header the stream with the returned header and the file data
  -- stores the old entries and the new one, and the offset of the writer is its length.
  pub encode_file_header-IsArchive :
      (api : Bytes) (w w' : ZipWriter) (out name bytes header : List ℕ)
      → IsArchive crc w out
      → All IsByte name
      → encode_file_header api crc w name bytes ≡ some (header, w')
      → IsArchive crc w' (out ++ (header ++ bytes))
  encode_file_header-IsArchive api w w' out name bytes header h name_bytes run =
      let (header_eq, size_fits, name_fits, w'_eq) =
        encode_file_header_lem api w w' name bytes header run in
      let entry = entry_of w name bytes in
      let stored : IsStored crc (out ++ (header ++ bytes)) entry = record {
        before = out;
        content = bytes;
        after = [];
        split =
            ap (◌++◌ out)
              (ap₂ ◌++◌ (header_eq ∙ file_header_lem api entry) (sym (append-nil bytes)));
        at_offset = sym h.offset;
        size = refl;
        size_fits = size_fits;
        crc_is = refl;
        crc_fits = checksum-IsU32 bytes;
        name_size = refl;
        name_fits = name_fits;
        name_bytes = name_bytes;
      } in
      rw w'_eq (record {
        offset =
            omega
              (arith, h.offset, length-append out (header ++ bytes), length-append header bytes);
        stored =
            All-append (IsStored crc (out ++ (header ++ bytes))) w.entries (entry ∷ [])
              (All-IsStored-append out (header ++ bytes) w.entries h.stored) (stored, tt);
      })

  -- Every entry begins inside the stream.
  pub stored-offsets :
      (out : List ℕ) (es : List ZipEntryMetadata)
      → All (IsStored crc out) es
      → All (λ e. e.start_offset ≤ length out) es
  stored-offsets out [] h = tt
  stored-offsets out (e ∷ es) h = (
    omega (
      arith,
      ap (length {A = ℕ}) h.0.split,
      length-append h.0.before (local_header e ++ (h.0.content ++ h.0.after)),
      h.0.at_offset,
    ),
    stored-offsets out es h.1,
  )

pub encode_file_header_of_fit :
    (api : Bytes) (crc : Crc) (w : ZipWriter) (name bytes : List ℕ)
    → IsU16 (length name)
    → IsU32 (length bytes)
    → (r : List ℕ × ZipWriter) × (encode_file_header api crc w name bytes ≡ some r)
unfolding encode_file_header
encode_file_header_of_fit api crc w name bytes name_fits size_fits =
    elim (Option-cases (encode_file_header api crc w name bytes)) [
      | inl e ↦ cc (
          rw
            (
              encode_file_header,
              lt→ltb (length bytes) u32_mod size_fits,
              lt→ltb (length name) u16_mod name_fits,
            )
            at e)
      | inr r ↦ r
    ]
