-- ===== src/Dedup/Chunks.antt =====
-- From the files of a world to its chunks and back: what the map of chunks holds.
use factorio_multiplayer_cac.Common.{
  ℕ, ◌≡◌, sym, ap, ◌∙◌, ◌⊎◌, inl, inr, ◌↔◌, none, some, List, [], ◌∷◌, ◌++◌, append_assoc,
  append-nil, concat, map, All, Option-cases,
}
use factorio_multiplayer_cac.Common.HashMap.{HashMap, get, insert, bytes_key}
use factorio_multiplayer_cac.Crates.Content.{Blake3}
use factorio_multiplayer_cac.Dedup.{ChunkKey, ok, err, panic, chunk_loop, put_chunks}

abbrev pub ChunkMap : Type 0
ChunkMap = HashMap ChunkKey (List ℕ)

-- A key that the map lacks.
abbrev pub IsMissing : List ChunkKey → ChunkMap → Type 0
IsMissing [] chunks = ⊥
IsMissing (k ∷ ks) chunks = (get k chunks ≡ none) ⊎ IsMissing ks chunks

-- Putting chunks together fails exactly when a key is missing, and never panics.
put_chunks-err :
    (keys : List ChunkKey) (chunks : ChunkMap) (buf : List ℕ)
    → put_chunks keys chunks buf ≡ err
    → IsMissing keys chunks
unfolding put_chunks
put_chunks-err [] chunks buf h = absurd (cc)
put_chunks-err (k ∷ ks) chunks buf h = elim (Option-cases (get k chunks)) [
  | inl e ↦ inl e
  | inr (c, e) ↦ inr (put_chunks-err ks chunks (buf ++ c) (rw e at h))
]

put_chunks-missing :
    (keys : List ChunkKey) (chunks : ChunkMap) (buf : List ℕ)
    → IsMissing keys chunks
    → put_chunks keys chunks buf ≡ err
unfolding put_chunks
put_chunks-missing [] chunks buf h = absurd h
put_chunks-missing (k ∷ ks) chunks buf (inl e) = rw e
put_chunks-missing (k ∷ ks) chunks buf (inr m) = elim (Option-cases (get k chunks)) [
  | inl e ↦ rw e
  | inr (c, e) ↦ rw e (put_chunks-missing ks chunks (buf ++ c) m)
]

-- Putting chunks together fails exactly when one of the keys is missing from the map.
pub put_chunks-err_iff :
    (keys : List ChunkKey) (chunks : ChunkMap) (buf : List ℕ)
    → (put_chunks keys chunks buf ≡ err) ↔ IsMissing keys chunks
put_chunks-err_iff keys chunks buf =
    (put_chunks-err keys chunks buf, put_chunks-missing keys chunks buf)

pub put_chunks-ne-panic :
    (keys : List ChunkKey) (chunks : ChunkMap) (buf : List ℕ)
    → ¬ (put_chunks keys chunks buf ≡ panic)
unfolding put_chunks
put_chunks-ne-panic [] chunks buf h = cc
put_chunks-ne-panic (k ∷ ks) chunks buf h = elim (Option-cases (get k chunks)) [
  | inl e ↦ cc (e)
  | inr (c, e) ↦ put_chunks-ne-panic ks chunks (buf ++ c) (rw e at h)
]

module _ (blake3 : Blake3) where
  open blake3 use {hash}

  abbrev pub insert_all : List (List ℕ) → ChunkMap → ChunkMap
  insert_all [] m = m
  insert_all (c ∷ cs) m = insert_all cs (insert (hash c) c m)

  pub chunk_loop_lem :
      (cs : List (List ℕ)) (keys : List ChunkKey) (m : ChunkMap)
      → chunk_loop blake3 cs (keys, m) ≡ (keys ++ map hash cs, insert_all cs m)
  unfolding chunk_loop
  chunk_loop_lem [] keys m = λ i. (sym (append-nil keys) i, m)
  chunk_loop_lem (c ∷ cs) keys m =
      chunk_loop_lem cs (keys ++ hash c ∷ []) (insert (hash c) c m) ∙ λ i.
      (append_assoc keys (hash c ∷ []) (map hash cs) i, insert_all (c ∷ cs) m)

  -- The map has these chunks under their hashes.
  abbrev pub Holds : List (List ℕ) → ChunkMap → Type 0
  Holds cs m = All (λ c. get (hash c) m ≡ some c) cs

  pub put_chunks-Holds :
      (cs : List (List ℕ)) (m : ChunkMap) (buf : List ℕ)
      → Holds cs m
      → put_chunks (map hash cs) m buf ≡ ok (buf ++ concat cs)
  unfolding put_chunks
  put_chunks-Holds [] m buf h = ap ok (sym (append-nil buf))
  put_chunks-Holds (c ∷ cs) m buf h =
      rw h.0 (put_chunks-Holds cs m (buf ++ c) h.1 ∙ ap ok (append_assoc buf c (concat cs)))
