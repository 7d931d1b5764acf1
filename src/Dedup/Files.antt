-- ===== src/Dedup/Files.antt =====
-- src/dedup.rs: `chunk_file`, and the file put together again from the map of chunks.
use factorio_multiplayer_cac.Common.{
  ℕ, suc, ◌≡◌, refl, ap, ◌∙◌, some, List, [], ◌∷◌, length, concat, map, All, arith,
}
use factorio_multiplayer_cac.Common.HashMap.{get, insert, get-insert, bytes_key, bytes_eq_iff}
use factorio_multiplayer_cac.Crates.Content.{Blake3}
use factorio_multiplayer_cac.Chunker
use factorio_multiplayer_cac.Chunker.Split.{chunks_of, chunks_of_lem}
use factorio_multiplayer_cac.Dedup.{
  FactorioFile, FactorioFileDescription, ok, chunk_file, put_chunks,
}
use factorio_multiplayer_cac.Dedup.Chunks.{
  ChunkMap, insert_all, chunk_loop_lem, Holds, put_chunks-Holds,
}

module _ (blake3 : Blake3) (IsChunk : List ℕ → Type 0)
    (no_collision : (a b : List ℕ)
      → IsChunk a
      → IsChunk b
      → blake3.hash a ≡ blake3.hash b
      → a ≡ b) where
  open blake3 use {hash}

  -- Another chunk takes none away: one with the same hash would be the same.
  Holds-insert :
      (c : List ℕ) (cs : List (List ℕ)) (m : ChunkMap)
      → IsChunk c
      → All IsChunk cs
      → Holds blake3 cs m
      → Holds blake3 cs (insert (hash c) c m)
  Holds-insert c [] m hc hcs h = tt
  Holds-insert c (d ∷ cs) m hc hcs h = (
    ground (
      arith,
      get-insert (hash c) (hash d) c m,
      bytes_eq_iff (hash c) (hash d),
      no_collision c d hc hcs.0,
    ),
    Holds-insert c cs m hc hcs.1 h.1,
  )

  pub Holds-insert_all :
      (new cs : List (List ℕ)) (m : ChunkMap)
      → All IsChunk new
      → All IsChunk cs
      → Holds blake3 cs m
      → Holds blake3 cs (insert_all blake3 new m)
  Holds-insert_all [] cs m hn hcs h = h
  Holds-insert_all (c ∷ new) cs m hn hcs h =
      Holds-insert_all new cs (insert (hash c) c m) hn.1 hcs (Holds-insert c cs m hn.0 hcs h)

  insert_all-Holds :
      (new : List (List ℕ)) (m : ChunkMap)
      → All IsChunk new
      → Holds blake3 new (insert_all blake3 new m)
  insert_all-Holds [] m hn = tt
  insert_all-Holds (c ∷ new) m hn =
      let m' : ChunkMap = insert (hash c) c m in
      let here : get (hash c) m' ≡ some c =
        ground (arith, get-insert (hash c) (hash c) c m, bytes_eq_iff (hash c) (hash c)) in
      (
        (Holds-insert_all new (c ∷ []) m' hn.1 (hn.0, tt) (here, tt)).0,
        insert_all-Holds new m' hn.1,
      )

  -- The chunks of a content are chunks in that sense.
  abbrev pub AreChunks : List ℕ → Type 0
  AreChunks content = (cs : List (List ℕ)) → chunks_of content ≡ some cs → All IsChunk cs

  -- The description lists chunks that the map holds and that make up the content.
  abbrev pub Describes : FactorioFileDescription → List ℕ → FactorioFile → ChunkMap → Type 0
  Describes desc name file m =
      (cs : List (List ℕ)) × (desc.content_chunks ≡ map hash cs)
      × All IsChunk cs
      × Holds blake3 cs m
      × (concat cs ≡ file.content)
      × (desc.file_name ≡ name)
      × (desc.file_type ≡ file.file_type)
      × (desc.content_size ≡ length file.content)

  pub chunk_file_lem :
      (name : List ℕ) (file : FactorioFile) (m : ChunkMap)
      → AreChunks file.content
      → (desc : FactorioFileDescription) × (new : List (List ℕ)) × All IsChunk new
        × (chunk_file blake3 name file m ≡ some (desc, insert_all blake3 new m))
        × Describes desc name file (insert_all blake3 new m)
  unfolding chunk_file
  chunk_file_lem name file m are =
      let (cs, run, whole, sizes) = chunks_of_lem file.content in
      let all : All IsChunk cs = are cs run in
      let collected : Chunker.collect (suc (length file.content)) (Chunker.new file.content)
          ≡ some cs =
        unfold chunks_of in run in
      (
        record {
          file_type = file.file_type;
          file_name = name;
          content_size = length file.content;
          content_chunks = map hash cs;
        },
        cs,
        all,
        rw (chunk_file, collected, chunk_loop_lem blake3 cs [] m) refl,
        (cs, refl, all, insert_all-Holds cs m all, whole, refl, refl, refl),
      )

  -- From the map after one file, its content comes back; from a later map as well.
  pub Describes-put_chunks :
      (desc : FactorioFileDescription) (name : List ℕ) (file : FactorioFile) (m : ChunkMap)
      → Describes desc name file m
      → put_chunks desc.content_chunks m [] ≡ ok file.content
  Describes-put_chunks desc name file m (cs, keys, all, held, whole, name_is, type_is, size) =
      rw keys (put_chunks-Holds blake3 cs m [] held ∙ ap ok whole)

  -- The second map still holds what the first holds.
  abbrev pub Keeps : ChunkMap → ChunkMap → Type 0
  Keeps m m' = (cs : List (List ℕ)) → All IsChunk cs → Holds blake3 cs m → Holds blake3 cs m'

  pub Describes-Keeps :
      (desc : FactorioFileDescription) (name : List ℕ) (file : FactorioFile) (m m' : ChunkMap)
      → Keeps m m'
      → Describes desc name file m
      → Describes desc name file m'
  Describes-Keeps desc name file m m' keeps (cs, keys, all, held, whole, name_is, type_is, size) =
      (cs, keys, all, keeps cs all held, whole, name_is, type_is, size)

  -- If no two of the chunks in question share a hash, chunk_file ends on every file, and putting
  -- the listed chunks together from its map gives the content; the recorded size is the length of
  -- the content.
  pub chunk_file-put_chunks :
      (name : List ℕ) (file : FactorioFile) (m : ChunkMap)
      → AreChunks file.content
      → (desc : FactorioFileDescription) × (m' : ChunkMap) × (chunk_file blake3 name file m
          ≡ some (desc, m'))
        × (put_chunks desc.content_chunks m' [] ≡ ok file.content)
        × (desc.content_size ≡ length file.content)
  chunk_file-put_chunks name file m are =
      let (desc, new, all, run, described) = chunk_file_lem name file m are in
      let (cs, keys, all_cs, held, whole, name_is, type_is, size) = described in
      (
        desc,
        insert_all blake3 new m,
        run,
        Describes-put_chunks desc name file (insert_all blake3 new m) described,
        size,
      )
