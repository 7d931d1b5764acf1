-- ===== src/ChunkCache/Written.antt =====
-- src/chunk_cache.rs: what is written for the entries of a cache, and a cache with room for more.
use factorio_multiplayer_cac.Common.{
  ℕ, zero, suc, ◌+◌, ◌≤◌, ◌≡◌, refl, sym, ap, ◌∙◌, none, some, List, [], ◌∷◌, ◌++◌, append_assoc,
  append-nil, length, length-append, drop, take-length-append, drop-length-append, All, IsU32,
  IsU64, arith, inl, inr, Bool-cases, lt→ltb, le→leb, to_le_bytes, u32_mod,
}
use mathlib.Core.Path.{subst}
use factorio_multiplayer_cac.Common.HashMap.{get, remove, bytes_key, bytes_eq, bytes_eq_iff}
use factorio_multiplayer_cac.Crates.Content.{Blake3}
use factorio_multiplayer_cac.Crates.LinkedMap.{LinkedHashMap}
use factorio_multiplayer_cac.Dedup.{ok}
use factorio_multiplayer_cac.ChunkCache.{RawChunkCache, insert_raw}
use factorio_multiplayer_cac.ChunkCache.Eviction.{
  Entries, bytes_in, IsDistinct, IsCache, IsEvicted, entries_of, with_newest, remove_missing,
  insert_raw-IsEvicted,
}
use factorio_multiplayer_cac.ChunkCache.File.{u32_bytes, write_entries, read_exact}

pub u32_bytes_lem : (v : ℕ) → IsU32 v → u32_bytes v ≡ ok (to_le_bytes 4 v)
unfolding u32_bytes
u32_bytes_lem v h = rw (lt→ltb v u32_mod h)

pub read_exact_lem :
    (n : ℕ) (front rest : List ℕ)
    → length front ≡ n
    → read_exact n (front ++ rest) ≡ ok (front, rest)
unfolding read_exact
read_exact_lem n front rest size =
    subst (λ k. read_exact k (front ++ rest) ≡ ok (front, rest)) size
      (rw
        (
          read_exact,
          le→leb (length front) (length (front ++ rest)) (omega (arith, length-append front rest)),
          take-length-append front rest,
          drop-length-append front rest,
        )
        refl)

-- The key, the length and the bytes of each chunk.
abbrev pub body : Entries → List ℕ
body [] = []
body ((key, chunk) ∷ rest) = (key ++ (to_le_bytes 4 (length chunk) ++ chunk)) ++ body rest

module _ (blake3 : Blake3) where
  -- A chunk under its hash, within the limit of the file.
  abbrev pub IsStorable : List ℕ × List ℕ → Type 0
  IsStorable e = (blake3.hash e.1 ≡ e.0) × (length e.1 ≤ 20000000)

  pub write_entries_lem :
      (es : Entries) (written : List ℕ)
      → All IsStorable es
      → write_entries es written ≡ ok (written ++ body es)
  unfolding write_entries
  write_entries_lem [] written h = ap ok (sym (append-nil written))
  write_entries_lem ((key, chunk) ∷ es) written h =
      let entry : List ℕ = key ++ (to_le_bytes 4 (length chunk) ++ chunk) in
      rw (u32_bytes_lem (length chunk) (omega (arith, h.0.1)))
        (write_entries_lem es (written ++ entry) h.1 ∙ ap ok (append_assoc written entry (body es)))

get_there : (k c : List ℕ) (before after : Entries) → ¬ (get k (before ++ (k, c) ∷ after) ≡ none)
unfolding get
get_there k c [] after h = ground (arith, bytes_eq_iff k k)
get_there k c ((j, d) ∷ before) after h = ground (arith, get_there k c before after)

-- A key that comes later is not among those before.
pub get_before :
    (k c : List ℕ) (before after : Entries)
    → IsDistinct (before ++ (k, c) ∷ after)
    → get k before ≡ none
unfolding get
get_before k c [] after h = refl
get_before k c ((j, d) ∷ before) after h = elim (Bool-cases (bytes_eq j k)) [
  | inl same ↦ absurd (
      get_there k c before after
        (subst (λ i. get i (before ++ (k, c) ∷ after) ≡ none) ((bytes_eq_iff j k).0 same) h.0))
  | inr other ↦ rw other (get_before k c before after h.1)
]

pub bytes_in-append : (xs ys : Entries) → bytes_in (xs ++ ys) ≡ bytes_in xs + bytes_in ys
bytes_in-append [] ys = omega arith
bytes_in-append ((k, c) ∷ xs) ys = omega (arith, bytes_in-append xs ys)

module _ (lib : LinkedHashMap) where
  -- A new chunk for which there is room: nothing is evicted.
  pub insert_raw_of_room :
      (self : RawChunkCache lib) (k c : List ℕ)
      → IsCache lib self
      → get k (entries_of lib self) ≡ none
      → bytes_in (entries_of lib self) + length c ≤ self.max_size
      → IsU64 (self.max_size + length c)
      → (self' : RawChunkCache lib) × (insert_raw lib self k c ≡ some self')
        × (entries_of lib self' ≡ entries_of lib self ++ (k, c) ∷ [])
        × IsCache lib self'
        × (self'.max_size ≡ self.max_size)
  insert_raw_of_room self k c counted new room fits =
      let (n, self', run, evicted, counted') = insert_raw-IsEvicted lib self k c counted fits in
      let all_is : with_newest lib self k c ≡ entries_of lib self ++ (k, c) ∷ [] =
        ap (λ es. es ++ (k, c) ∷ []) (remove_missing k (entries_of lib self) new) in
      (
        self',
        run,
        evicted.left ∙ none_evicted n self' evicted ∙ all_is,
        counted',
        evicted.same_limit,
      )
    where
      none_evicted :
          (n : ℕ) (self' : RawChunkCache lib)
          → IsEvicted lib (with_newest lib self k c) self.max_size n self'
          → drop n (with_newest lib self k c) ≡ with_newest lib self k c
      none_evicted zero self' evicted = refl
      none_evicted (suc n) self' evicted = absurd (
          omega (
            arith,
            evicted.fewest 0 (omega arith),
            room,
            ap bytes_in (remove_missing k (entries_of lib self) new),
            bytes_in-append (remove k (entries_of lib self)) ((k, c) ∷ []),
          ))
