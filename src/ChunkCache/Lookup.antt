-- ===== src/ChunkCache/Lookup.antt =====
-- What a look into the cache finds after an insertion.
use factorio_multiplayer_cac.Common.{
  ℕ, zero, suc, ◌+◌, ◌≤◌, ◌<◌, ◌≡◌, refl, ap, ◌∙◌, none, some, List, [], ◌∷◌, ◌++◌, length, drop,
  IsU64, arith, length-append, leb, inl, inr, Bool-cases, leb→le, le→leb,
}
use factorio_multiplayer_cac.Common.HashMap.{get, remove, get-remove, bytes_key, bytes_eq_iff}
use factorio_multiplayer_cac.Crates.LinkedMap.{LinkedHashMap}
use factorio_multiplayer_cac.ChunkCache.{RawChunkCache, insert_raw, get_raw}
use factorio_multiplayer_cac.ChunkCache.Eviction.{
  Entries, bytes_in, get-snoc, IsCache, entries_of, with_newest, insert_raw-IsEvicted,
}

drop-snoc :
    (n : ℕ) (es : Entries) (x : List ℕ × List ℕ)
    → n ≤ length es
    → drop n (es ++ x ∷ []) ≡ drop n es ++ x ∷ []
drop-snoc zero es x h = refl
drop-snoc (suc n) [] x h = absurd (omega arith)
drop-snoc (suc n) (e ∷ es) x h = drop-snoc n es x (omega arith)

drop_all : (n : ℕ) (es : Entries) → length es ≤ n → drop n es ≡ []
drop_all zero [] h = refl
drop_all zero (e ∷ es) h = absurd (omega arith)
drop_all (suc n) [] h = refl
drop_all (suc n) (e ∷ es) h = drop_all n es (omega arith)

pub get-drop : (k : List ℕ) (n : ℕ) (es : Entries) → get k es ≡ none → get k (drop n es) ≡ none
unfolding get
get-drop k zero es h = h
get-drop k (suc n) [] h = refl
get-drop k (suc n) ((j, c) ∷ es) h = ground (arith, get-drop k n es)

bytes_in-last : (es : Entries) (k c : List ℕ) → length c ≤ bytes_in (es ++ (k, c) ∷ [])
bytes_in-last [] k c = omega arith
bytes_in-last ((j, d) ∷ es) k c = omega (arith, bytes_in-last es k c)

drop-length : (es : Entries) (x : List ℕ × List ℕ) → drop (length es) (es ++ x ∷ []) ≡ x ∷ []
drop-length [] x = refl
drop-length (e ∷ es) x = drop-length es x

get-last : (es : Entries) (k c : List ℕ) → get k es ≡ none → get k (es ++ (k, c) ∷ []) ≡ some c
get-last es k c h = get-snoc k k c es h ∙ ground (arith, bytes_eq_iff k k)

module _ (lib : LinkedHashMap) where
  -- From a cache that is counted right, after an insertion, which returns if limit and chunk fit
  -- 64 bits together, the chunk is found if it is within the limit by itself; a chunk beyond the
  -- limit leaves the cache empty.
  pub insert_raw-get_raw :
      (self : RawChunkCache lib) (key chunk : List ℕ)
      → IsCache lib self
      → IsU64 (self.max_size + length chunk)
      → (self' : RawChunkCache lib) × (insert_raw lib self key chunk ≡ some self')
        × (length chunk ≤ self.max_size → get_raw lib self' key ≡ some chunk)
        × (self.max_size < length chunk → entries_of lib self' ≡ [])
  unfolding get_raw
  insert_raw-get_raw self key chunk ok fits =
      let before : Entries = remove key (entries_of lib self) in
      let all : Entries = with_newest lib self key chunk in
      let absent : get key before ≡ none =
        ground (arith, get-remove key key (entries_of lib self), bytes_eq_iff key key) in
      let (n, self', run, evicted, ok') = insert_raw-IsEvicted lib self key chunk ok fits in
      let size : length all ≡ length before + 1 = length-append before ((key, chunk) ∷ []) in
      elim (Bool-cases (leb n (length before))) [
        | inl within ↦
            let split : drop n all ≡ drop n before ++ (key, chunk) ∷ [] =
              drop-snoc n before (key, chunk) (leb→le n (length before) within) in
            (
              self',
              run,
              λ h.
                  lib.lookup_lem key self'.chunks
                  ∙ ap (get key) (evicted.left ∙ split)
                  ∙ get-last (drop n before) key chunk (get-drop key n before absent),
              λ h. absurd (
                  omega (
                    arith,
                    evicted.bounded,
                    ap bytes_in split,
                    bytes_in-last (drop n before) key chunk,
                  )),
            )
        | inr past ↦
            let beyond : length before < n = ground (arith, le→leb n (length before)) in
            (
              self',
              run,
              λ h. absurd (
                  omega (
                    arith,
                    evicted.fewest (length before) beyond,
                    ap bytes_in (drop-length before (key, chunk)),
                  )),
              λ h. evicted.left ∙ drop_all n all (omega arith),
            )
      ]
