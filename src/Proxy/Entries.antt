-- ===== src/Proxy/Entries.antt =====
-- The files of an archive on their way: from the description of the world to the blocks of the client.
use factorio_multiplayer_cac.Common.{
  ℕ, ◌+◌, ◌≡◌, ◌⊎◌, sym, ap, ◌∙◌, some, List, [], ◌∷◌, ◌++◌, append-nil, append_assoc, map, concat,
  concat-append, length, All, IsByte, IsU16, IsU32, inl, inr, arith, Option-cases,
}
use mathlib.Core.Path.{subst}
use factorio_multiplayer_cac.Common.HashMap.{get, bytes_key}
use factorio_multiplayer_cac.Crates.Bytes.{Bytes}
use factorio_multiplayer_cac.Crates.Crc.{Crc, checksum}
use factorio_multiplayer_cac.Crates.Content.{Blake3, Miniz, ZipReader}
use factorio_multiplayer_cac.ChunkCache.Waiting.{IsIn}
use factorio_multiplayer_cac.ZipWriter.{
  ZipWriter, ZipEntryMetadata, file_header, encode_file_header,
}
use factorio_multiplayer_cac.ZipWriter.Archive.{entry_of, encode_file_header_lem}
use factorio_multiplayer_cac.Dedup.{
  ChunkKey, FactorioFile, FactorioFileDescription, WorldReconstructor, ok, put_chunks,
  encode_by_type, decode_factorio_file, encode_factorio_file, reconstruct_world_file,
}
use factorio_multiplayer_cac.Dedup.Chunks.{ChunkMap, Holds}
use factorio_multiplayer_cac.Dedup.Rebuild.{reconstruct_world_file-Follows}
use factorio_multiplayer_cac.Dedup.Files.{Describes-put_chunks}
use factorio_multiplayer_cac.Dedup.RoundTrip.{DescribesEntry, DescribesFrom}
use factorio_multiplayer_cac.Dedup.Seal.{Follows}
use factorio_multiplayer_cac.Proxy.ClientProxy.Transfer.{chunk_keys}
use factorio_multiplayer_cac.Proxy.ClientProxy.Rebuild.{rebuild_all}
use factorio_multiplayer_cac.Proxy.ClientProxy.Complete.{IsRebuildable}

IsIn-append : (k : ChunkKey) (js ks : List ChunkKey) → IsIn k (js ++ ks) → IsIn k js ⊎ IsIn k ks
IsIn-append k [] ks h = inr h
IsIn-append k (j ∷ js) ks (inl e) = inl (inl e)
IsIn-append k (j ∷ js) ks (inr h) = elim (IsIn-append k js ks h) [
  | inl there ↦ inl (inr there)
  | inr later ↦ inr later
]

module _ (blake3 : Blake3) (IsChunk : List ℕ → Type 0)
    (no_collision : (a b : List ℕ)
      → IsChunk a
      → IsChunk b
      → blake3.hash a ≡ blake3.hash b
      → a ≡ b) where
  -- The chunk of a key.
  abbrev pub IsHeld : ChunkMap → ChunkKey → Type 0
  IsHeld m k = (c : List ℕ) × (get k m ≡ some c) × (blake3.hash c ≡ k) × IsChunk c

  Holds-IsHeld :
      (cs : List (List ℕ)) (m : ChunkMap) (k : ChunkKey)
      → All IsChunk cs
      → Holds blake3 cs m
      → IsIn k (map blake3.hash cs)
      → IsHeld m k
  Holds-IsHeld [] m k are held h = absurd h
  Holds-IsHeld (c ∷ cs) m k are held (inl e) = (c, sym (ap (λ j. get j m) e) ∙ held.0, e, are.0)
  Holds-IsHeld (c ∷ cs) m k are held (inr h) = Holds-IsHeld cs m k are.1 held.1 h

  module _ (miniz : Miniz) (reader : ZipReader) (archive : reader.Archive) where
    -- Every key of the description is that of a chunk in the map.
    pub DescribesFrom-IsHeld :
        (i : ℕ) (descs : List FactorioFileDescription) (m : ChunkMap) (k : ChunkKey)
        → DescribesFrom blake3 IsChunk no_collision miniz reader archive i descs m
        → IsIn k (chunk_keys descs)
        → IsHeld m k
    unfolding chunk_keys
    DescribesFrom-IsHeld i [] m k from h = absurd h
    DescribesFrom-IsHeld i (desc ∷ rest) m k ((name, buf, file, there, decoded, described), from)
          h =
        let (cs, keys, all, held, whole, name_is, type_is, size) = described in
        elim (IsIn-append k desc.content_chunks (chunk_keys rest) h) [
          | inl here ↦ Holds-IsHeld cs m k all held (subst (IsIn k) keys here)
          | inr later ↦ DescribesFrom-IsHeld (i + 1) rest m k from later
        ]

    -- The entries have names and encoded contents that fit an archive.
    abbrev pub AreFitting : Type 0
    AreFitting =
        (i : ℕ) (name buf : List ℕ) (file : FactorioFile)
        → reader.by_index archive i ≡ some (name, some buf)
        → decode_factorio_file miniz name buf ≡ ok file
        → All IsByte name
          × IsU16 (length name)
          × IsU32 (length (encode_by_type miniz file.file_type file.content))

    module _ (api : Bytes) (crc : Crc) where
      entry-IsRebuildable :
          (i : ℕ) (desc : FactorioFileDescription) (m : ChunkMap)
          → AreFitting
          → DescribesEntry blake3 IsChunk no_collision miniz reader archive i desc m
          → IsRebuildable api crc miniz m desc
      entry-IsRebuildable i desc m fit
            (
              name,
              buf,
              file,
              there,
              decoded,
              (cs, keys, all, held, whole, name_is, type_is, size),
            ) =
          let (bytes, name_fits, size_fits) = fit i name buf file there decoded in
          (
            file.content,
            Describes-put_chunks blake3 IsChunk no_collision desc name file m
                (cs, keys, all, held, whole, name_is, type_is, size),
            subst (All IsByte) (sym name_is) bytes,
            subst (λ (n : List ℕ). IsU16 (length n)) (sym name_is) name_fits,
            subst (λ t. IsU32 (length (encode_by_type miniz t file.content))) (sym type_is)
                size_fits,
          )

      pub DescribesFrom-IsRebuildable :
          (i : ℕ) (descs : List FactorioFileDescription) (m : ChunkMap)
          → AreFitting
          → DescribesFrom blake3 IsChunk no_collision miniz reader archive i descs m
          → All (IsRebuildable api crc miniz m) descs
      DescribesFrom-IsRebuildable i [] m fit from = tt
      DescribesFrom-IsRebuildable i (desc ∷ rest) m fit (entry, from) = (
        entry-IsRebuildable i desc m fit entry,
        DescribesFrom-IsRebuildable (i + 1) rest m fit from,
      )

      reconstruct_lem :
          (self self' : WorldReconstructor) (desc : FactorioFileDescription) (m : ChunkMap)
          (content header : List ℕ)
          → put_chunks desc.content_chunks m [] ≡ ok content
          → reconstruct_world_file api crc miniz self desc m
            ≡ ok (header, encode_by_type miniz desc.file_type content, self')
          → (header
              ≡ file_header api (
                  entry_of crc self.zip_writer desc.file_name
                    (encode_by_type miniz desc.file_type content)))
            × (self'.zip_writer ≡ record {
              current_offset =
                  self.zip_writer.current_offset
                  + length header
                  + length (encode_by_type miniz desc.file_type content);
              entries =
                  self.zip_writer.entries
                  ++ entry_of crc self.zip_writer desc.file_name
                      (encode_by_type miniz desc.file_type content)
                    ∷ [];
            })
      unfolding reconstruct_world_file encode_factorio_file
      reconstruct_lem self self' desc m content header put run =
          let encoded : List ℕ = encode_by_type miniz desc.file_type content in
          elim (Option-cases (encode_file_header api crc self.zip_writer desc.file_name encoded)) [
            | inl n ↦ cc (rw (put, n) at run)
            | inr ((h, w'), n) ↦
                let (header_is, size_fits, name_fits, w'_is) =
                  encode_file_header_lem crc api self.zip_writer w' desc.file_name encoded h n in
                let same : ok (
                  h,
                  encoded,
                  record {
                    zip_writer = w';
                    crc_hasher = crc.update (crc.update self.crc_hasher h) encoded;
                  },
                )
                    ≡ ok (header, encoded, self') =
                  rw (put, n) at run in
                let h_is : h ≡ header = cc (same) in
                let self'_is : record {
                  zip_writer = w';
                  crc_hasher = crc.update (crc.update self.crc_hasher h) encoded;
                }
                    ≡ self' =
                  cc (same) in
                (
                  sym h_is ∙ header_is,
                  ap (λ (r : WorldReconstructor). r.zip_writer) (sym self'_is)
                      ∙ w'_is
                      ∙ ap
                          (λ (t : List ℕ). record {
                            current_offset =
                                self.zip_writer.current_offset + length t + length encoded;
                            entries =
                                self.zip_writer.entries
                                ++ entry_of crc self.zip_writer desc.file_name encoded ∷ [];
                          })
                          h_is,
                )
          ]

      -- The entry of an archive at an offset.
      abbrev pub metadata_of : ℕ → List ℕ → List ℕ → ZipEntryMetadata
      metadata_of offset name file_data = record {
        start_offset = offset;
        file_name = name;
        file_name_size = length name;
        data_size = length file_data;
        data_crc = checksum crc file_data;
      }

      -- The blocks are, for each entry of the old archive from the index `i` on to the last, a header
      -- and the encoded content of the file in the entry, and the new entries tell where they are.
      abbrev pub StoresFrom : ℕ → ℕ → List (List ℕ) → List ZipEntryMetadata → Type 0
      StoresFrom i offset [] [] = i ≡ reader.len archive
      StoresFrom i offset (header ∷ file_data ∷ blocks) (e ∷ es) =
          ((name : List ℕ) × (buf : List ℕ) × (file : FactorioFile) × (reader.by_index archive i
              ≡ some (name, some buf))
            × (decode_factorio_file miniz name buf ≡ ok file)
            × (file_data ≡ encode_by_type miniz file.file_type file.content)
            × (e ≡ metadata_of offset name file_data)
            × (header ≡ file_header api e))
          × StoresFrom (i + 1) (offset + length header + length file_data) blocks es
      StoresFrom i offset _ _ = ⊥

      pub rebuild_all-StoresFrom :
          (i : ℕ) (descs : List FactorioFileDescription) (m : ChunkMap) (self : WorldReconstructor)
          (blocks : List (List ℕ))
          → AreFitting
          → DescribesFrom blake3 IsChunk no_collision miniz reader archive i descs m
          → i + length descs ≡ reader.len archive
          → Follows crc self (concat blocks)
          → (self' : WorldReconstructor) × (new : List (List ℕ)) × (es : List ZipEntryMetadata)
            × (rebuild_all api crc miniz self descs m blocks ≡ ok (self', blocks ++ new))
            × (self'.zip_writer.entries ≡ self.zip_writer.entries ++ es)
            × StoresFrom i self.zip_writer.current_offset new es
      rebuild_all-StoresFrom i [] m self blocks fit from count follows = (
        self,
        [],
        [],
        ap (λ b. ok (self, b)) (sym (append-nil blocks)),
        sym (append-nil self.zip_writer.entries),
        omega (arith, count),
      )
      rebuild_all-StoresFrom i (desc ∷ rest) m self blocks fit (entry, from) count follows =
          let (content, put, bytes, name_fits, size_fits) =
            entry-IsRebuildable i desc m fit entry in
          let (name, buf, file, there, decoded, described) = entry in
          let (cs, keys, all, held, whole, name_is, type_is, size) = described in
          let file_data : List ℕ = encode_by_type miniz desc.file_type content in
          let e : ZipEntryMetadata = entry_of crc self.zip_writer desc.file_name file_data in
          let put' : put_chunks desc.content_chunks m [] ≡ ok file.content =
            Describes-put_chunks blake3 IsChunk no_collision desc name file m described in
          let content_is : content ≡ file.content = cc (put, put') in
          let (header, self1, run, follows1) =
            reconstruct_world_file-Follows api crc miniz self desc m (concat blocks) content follows
              put bytes name_fits size_fits in
          let (header_is, writer_is) = reconstruct_lem self self1 desc m content header put run in
          let more : concat (blocks ++ header ∷ file_data ∷ [])
              ≡ concat blocks ++ (header ++ file_data) =
            concat-append blocks (header ∷ file_data ∷ [])
            ∙ ap (λ t. concat blocks ++ (header ++ t)) (append-nil file_data) in
          let (self', new, es, run', entries_are, stored) =
            rebuild_all-StoresFrom (i + 1) rest m self1 (blocks ++ header ∷ file_data ∷ []) fit from
              (omega (arith, count)) (subst (Follows crc self1) (sym more) follows1) in
          (
            self',
            header ∷ file_data ∷ new,
            e ∷ es,
            rw run (
                run' ∙ ap (λ b. ok (self', b)) (append_assoc blocks (header ∷ file_data ∷ []) new)),
            entries_are
                ∙ ap (λ (w : ZipWriter). w.entries ++ es) writer_is
                ∙ append_assoc self.zip_writer.entries (e ∷ []) es,
            (
              (
                name,
                buf,
                file,
                there,
                decoded,
                λ j. encode_by_type miniz (type_is j) (content_is j),
                ap (λ n. metadata_of self.zip_writer.current_offset n file_data) name_is,
                header_is,
              ),
              subst (λ (w : ZipWriter). StoresFrom (i + 1) w.current_offset new es) writer_is
                  stored,
            ),
          )
