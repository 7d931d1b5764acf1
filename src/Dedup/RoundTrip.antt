-- ===== src/Dedup/RoundTrip.antt =====
-- src/dedup.rs: `deconstruct_world`, and its files put together again from the map of chunks.
use factorio_multiplayer_cac.Common.{
  ℕ, zero, suc, ◌+◌, ◌<◌, ◌≡◌, refl, sym, ap, ◌∙◌, Option, none, some, List, [], ◌∷◌, ◌++◌,
  append-nil, append_assoc, length, Option-cases, inl, inr, arith,
}
use factorio_multiplayer_cac.Common.HashMap.{bytes_key}
use factorio_multiplayer_cac.Crates.Content.{Blake3, Miniz, ZipReader}
use factorio_multiplayer_cac.Chunker
use factorio_multiplayer_cac.Chunker.Split.{chunks_of, chunks_of_lem}
use factorio_multiplayer_cac.Dedup.{
  FactorioFile, FactorioFileDescription, FactorioWorldDescription, Outcome, ok, err, panic,
  chunk_file, put_chunks, decode_factorio_file, deconstruct_entry, deconstruct_loop,
  deconstruct_world, ◌>>=◌, or_err, or_panic,
}
use mathlib.Core.Path.{subst}
use factorio_multiplayer_cac.Dedup.Chunks.{ChunkMap, insert_all, Holds}
use factorio_multiplayer_cac.Dedup.Files.{
  AreChunks, Describes, chunk_file_lem, Describes-put_chunks, Keeps, Describes-Keeps,
  Holds-insert_all,
}

-- The bind of an `Outcome` that went through.
bind_went_through :
    {A : Type 0} {B : Type 0} (r : Outcome A) (next : A → Outcome B) {y : B}
    → (r >>= next) ≡ ok y
    → (x : A) × (r ≡ ok x) × (next x ≡ ok y)
bind_went_through panic next run = cc
bind_went_through err next run = cc
bind_went_through (ok x) next run = (x, refl, run)

or_err-eq-ok : {A : Type 0} (o : Option A) {a : A} → or_err o ≡ ok a → o ≡ some a
or_err-eq-ok none h = cc
or_err-eq-ok (some b) h = cc

or_panic-eq-ok : {A : Type 0} (o : Option A) {a : A} → or_panic o ≡ ok a → o ≡ some a
or_panic-eq-ok none h = cc
or_panic-eq-ok (some b) h = cc

-- The entry at index `i` can be read and decoded.
abbrev pub IsReadable : (miniz : Miniz) (reader : ZipReader) → reader.Archive → ℕ → Type 0
IsReadable miniz reader archive i =
    (name : List ℕ) × (buf : List ℕ) × (file : FactorioFile) × (reader.by_index archive i
      ≡ some (name, some buf))
    × (decode_factorio_file miniz name buf ≡ ok file)

chunk_file-some :
    (blake3 : Blake3) (name : List ℕ) (file : FactorioFile) (m : ChunkMap)
    → (r : FactorioFileDescription × ChunkMap) × (chunk_file blake3 name file m ≡ some r)
unfolding chunk_file
chunk_file-some blake3 name file m =
    let (cs, run, whole, sizes) = chunks_of_lem file.content in
    let collected : Chunker.collect (suc (length file.content)) (Chunker.new file.content)
        ≡ some cs =
      unfold chunks_of in run in
    elim (Option-cases (chunk_file blake3 name file m)) [
      | inl e ↦ cc (rw (chunk_file, collected) at e)
      | inr r ↦ r
    ]

deconstruct_entry-ok :
    (blake3 : Blake3) (miniz : Miniz) (reader : ZipReader) (name buf : List ℕ) (file : FactorioFile)
    (s : List FactorioFileDescription × ChunkMap)
    → decode_factorio_file miniz name buf ≡ ok file
    → (s' : List FactorioFileDescription × ChunkMap) × (deconstruct_entry blake3 miniz reader
          (name, some buf)
          s
        ≡ ok s')
unfolding deconstruct_entry
deconstruct_entry-ok blake3 miniz reader name buf file (files, m) decoded =
    let ((desc, m'), run) = chunk_file-some blake3 name file m in
    ((files ++ desc ∷ [], m'), rw (decoded, run) refl)

-- The loop goes through if all entries that are left are readable.
deconstruct_loop-ok :
    (blake3 : Blake3) (miniz : Miniz) (reader : ZipReader) (archive : reader.Archive) (left i : ℕ)
    (s : List FactorioFileDescription × ChunkMap)
    → ((j : ℕ) → j < i + left → IsReadable miniz reader archive j)
    → (s' : List FactorioFileDescription × ChunkMap) × (deconstruct_loop blake3 miniz reader archive
          left i s
        ≡ ok s')
unfolding deconstruct_loop
deconstruct_loop-ok blake3 miniz reader archive zero i s readable = (s, refl)
deconstruct_loop-ok blake3 miniz reader archive (suc left) i s readable =
    let (name, buf, file, there, decoded) = readable i (omega arith) in
    let (s1, entry) = deconstruct_entry-ok blake3 miniz reader name buf file s decoded in
    let (s', run) =
      deconstruct_loop-ok blake3 miniz reader archive left (i + 1) s1
        (λ j lt. readable j (omega arith)) in
    (s', rw (there, entry) run)

module _ (blake3 : Blake3) (IsChunk : List ℕ → Type 0)
    (no_collision : (a b : List ℕ)
      → IsChunk a
      → IsChunk b
      → blake3.hash a ≡ blake3.hash b
      → a ≡ b) where
  module _ (miniz : Miniz) (reader : ZipReader) (archive : reader.Archive) where
    -- The description of the entry at index `i`.
    abbrev pub DescribesEntry : ℕ → FactorioFileDescription → ChunkMap → Type 0
    DescribesEntry i desc m =
        (name : List ℕ) × (buf : List ℕ) × (file : FactorioFile) × (reader.by_index archive i
          ≡ some (name, some buf))
        × (decode_factorio_file miniz name buf ≡ ok file)
        × Describes blake3 IsChunk no_collision desc name file m

    abbrev pub DescribesFrom : ℕ → List FactorioFileDescription → ChunkMap → Type 0
    DescribesFrom i [] m = Unit
    DescribesFrom i (desc ∷ rest) m = DescribesEntry i desc m × DescribesFrom (i + 1) rest m

    -- All files of the archive are made of chunks in that sense.
    abbrev pub AreFilesChunks : Type 0
    AreFilesChunks =
        (i : ℕ) (name buf : List ℕ) (file : FactorioFile)
        → reader.by_index archive i ≡ some (name, some buf)
        → decode_factorio_file miniz name buf ≡ ok file
        → AreChunks blake3 IsChunk no_collision file.content

    entry_lem :
        (i : ℕ) (zip_file : List ℕ × Option (List ℕ)) (files : List FactorioFileDescription)
        (m : ChunkMap) (files' : List FactorioFileDescription) (m' : ChunkMap)
        → AreFilesChunks
        → reader.by_index archive i ≡ some zip_file
        → deconstruct_entry blake3 miniz reader zip_file (files, m) ≡ ok (files', m')
        → (desc : FactorioFileDescription) × (files' ≡ files ++ desc ∷ [])
          × Keeps blake3 IsChunk no_collision m m'
          × DescribesEntry i desc m'
    unfolding deconstruct_entry
    entry_lem i (name, none) files m files' m' are there h = cc
    entry_lem i (name, some buf) files m files' m' are there h =
        let (file, decoded, h1) = bind_went_through (decode_factorio_file miniz name buf) _ h in
        let (desc, new, all, run, described) =
          chunk_file_lem blake3 IsChunk no_collision name file m
            (are i name buf file there decoded) in
        let h2 : ok (files ++ desc ∷ [], insert_all blake3 new m) ≡ ok (files', m') =
          rw run at h1 in
        let map_is : m' ≡ insert_all blake3 new m = cc (h2) in
        (
          desc,
          cc (h2),
          λ cs hcs held.
              subst (Holds blake3 cs) (sym map_is)
                (Holds-insert_all blake3 IsChunk no_collision new cs m all hcs held),
          (
            name,
            buf,
            file,
            there,
            decoded,
            subst (Describes blake3 IsChunk no_collision desc name file) (sym map_is) described,
          ),
        )

    loop_lem :
        (left i : ℕ) (files : List FactorioFileDescription) (m : ChunkMap)
        (files' : List FactorioFileDescription) (m' : ChunkMap)
        → AreFilesChunks
        → deconstruct_loop blake3 miniz reader archive left i (files, m) ≡ ok (files', m')
        → (added : List FactorioFileDescription) × (files' ≡ files ++ added)
          × Keeps blake3 IsChunk no_collision m m'
          × (length added ≡ left)
          × DescribesFrom i added m'
    unfolding deconstruct_loop
    loop_lem zero i files m files' m' are h = (
      [],
      cc (h, append-nil files),
      λ cs hcs held. subst (Holds blake3 cs) (cc (h)) held,
      refl,
      tt,
    )
    loop_lem (suc left) i files m files' m' are h =
        let (zip_file, found, h1) = bind_went_through (or_err (reader.by_index archive i)) _ h in
        let ((files1, m1), entry, h2) =
          bind_went_through (deconstruct_entry blake3 miniz reader zip_file (files, m)) _ h1 in
        let (desc, files1_is, keeps, described) =
          entry_lem i zip_file files m files1 m1 are
            (or_err-eq-ok (reader.by_index archive i) found) entry in
        let (added, files_is, keeps', len, from) =
          loop_lem left (i + 1) files1 m1 files' m' are h2 in
        let (name, buf, file, there, decoded, desc_is) = described in
        (
          desc ∷ added,
          files_is ∙ ap (λ fs. fs ++ added) files1_is ∙ append_assoc files (desc ∷ []) added,
          λ cs hcs held. keeps' cs hcs (keeps cs hcs held),
          ap suc len,
          (
            (
              name,
              buf,
              file,
              there,
              decoded,
              Describes-Keeps blake3 IsChunk no_collision desc name file m1 m' keeps' desc_is,
            ),
            from,
          ),
        )

    -- The files from index `i` on, each put together again from the map.
    abbrev pub RebuildsFrom : ℕ → List FactorioFileDescription → ChunkMap → Type 0
    RebuildsFrom i [] m = Unit
    RebuildsFrom i (desc ∷ rest) m =
        ((name : List ℕ) × (buf : List ℕ) × (file : FactorioFile) × (reader.by_index archive i
            ≡ some (name, some buf))
          × (decode_factorio_file miniz name buf ≡ ok file)
          × (desc.file_name ≡ name)
          × (desc.file_type ≡ file.file_type)
          × (put_chunks desc.content_chunks m [] ≡ ok file.content))
        × RebuildsFrom (i + 1) rest m

    DescribesFrom-RebuildsFrom :
        (i : ℕ) (descs : List FactorioFileDescription) (m : ChunkMap)
        → DescribesFrom i descs m
        → RebuildsFrom i descs m
    DescribesFrom-RebuildsFrom i [] m h = tt
    DescribesFrom-RebuildsFrom i (desc ∷ rest) m
          ((name, buf, file, there, decoded, described), from) =
        let (cs, keys, all, held, whole, name_is, type_is, size) = described in
        (
          (
            name,
            buf,
            file,
            there,
            decoded,
            name_is,
            type_is,
            Describes-put_chunks blake3 IsChunk no_collision desc name file m described,
          ),
          DescribesFrom-RebuildsFrom (i + 1) rest m from,
        )

    -- What comes out of deconstruct_world describes the archive.
    pub deconstruct_world_lem :
        (world_data aux_data : List ℕ) (desc : FactorioWorldDescription) (m : ChunkMap)
        → reader.open_archive world_data ≡ some archive
        → AreFilesChunks
        → deconstruct_world blake3 miniz reader world_data aux_data ≡ ok (desc, m)
        → (length desc.files ≡ reader.len archive)
          × (desc.aux_data ≡ aux_data)
          × DescribesFrom 0 desc.files m
    unfolding deconstruct_world
    deconstruct_world_lem world_data aux_data desc m opens are run =
        let ((files, m'), looped, done) =
          bind_went_through
            (deconstruct_loop blake3 miniz reader archive (reader.len archive) 0 ([], [])) _
            (rw opens at run) in
        let (added, files_is, keeps, len, from) =
          loop_lem (reader.len archive) 0 [] [] files m' are looped in
        let desc_is : record { files = files; aux_data = aux_data } ≡ desc = cc (done) in
        let m_is : m' ≡ m = cc (done) in
        (
          ap (λ (d : FactorioWorldDescription). length d.files) (sym desc_is)
              ∙ ap length files_is
              ∙ len,
          ap (λ (d : FactorioWorldDescription). d.aux_data) (sym desc_is),
          subst (λ (d : FactorioWorldDescription). DescribesFrom 0 d.files m) desc_is
              (subst (DescribesFrom 0 files) m_is
                (subst (λ fs. DescribesFrom 0 fs m') (sym files_is) from)),
        )

    -- If the archive opens, all its entries can be read and decoded, and no two of the chunks in
    -- question share a hash, then deconstruct_world succeeds, its description has one file for
    -- each entry, and for each file the listed chunks, put together from the map, are the decoded
    -- content of the entry.
    pub deconstruct_world-put_chunks :
        (world_data aux_data : List ℕ)
        → reader.open_archive world_data ≡ some archive
        → ((j : ℕ) → j < reader.len archive → IsReadable miniz reader archive j)
        → AreFilesChunks
        → (desc : FactorioWorldDescription) × (m : ChunkMap) × (deconstruct_world blake3 miniz
              reader world_data aux_data
            ≡ ok (desc, m))
          × (length desc.files ≡ reader.len archive)
          × (desc.aux_data ≡ aux_data)
          × RebuildsFrom 0 desc.files m
    unfolding deconstruct_world
    deconstruct_world-put_chunks world_data aux_data opens readable are =
        let ((files, m), run) =
          deconstruct_loop-ok blake3 miniz reader archive (reader.len archive) 0 ([], [])
            (λ j lt. readable j (omega arith)) in
        let (added, files_is, keeps, len, from) =
          loop_lem (reader.len archive) 0 [] [] files m are run in
        (
          record { files = files; aux_data = aux_data },
          m,
          rw (opens, run) refl,
          rw files_is len,
          refl,
          rw files_is (DescribesFrom-RebuildsFrom 0 added m from),
        )
