-- ===== src/ChunkCache/Eviction.antt =====
-- The cache never holds more bytes than allowed, and gives up its oldest entries alone.
use factorio_multiplayer_cac.Common.{
  ℕ, zero, suc, ◌+◌, ◌%◌, ◌≤◌, ◌<◌, ◌≡◌, refl, sym, ap, ◌∙◌, Option, none, some, List, [], ◌∷◌,
  ◌++◌, length, drop, ltb, lt→ltb, le→ltb, ltb→lt, if◌then◌else◌, u64_mod, IsU64, Option-cases,
  Bool-cases, inl, inr, arith,
}
use factorio_multiplayer_cac.Common.HashMap.{
  HashMap, get, remove, get-remove, bytes_key, bytes_eq, bytes_eq_iff,
}
use factorio_multiplayer_cac.Crates.LinkedMap.{LinkedHashMap}
use factorio_multiplayer_cac.Dedup.{ChunkKey}
use factorio_multiplayer_cac.ChunkCache.{
  RawChunkCache, new_raw, minus_u64, evict, size_without, insert_raw,
}

abbrev pub Entries : Type 0
Entries = HashMap ChunkKey (List ℕ)

abbrev pub bytes_in : Entries → ℕ
bytes_in [] = 0
bytes_in ((k, c) ∷ rest) = length c + bytes_in rest

-- No key stands twice.
abbrev pub IsDistinct : Entries → Type 0
IsDistinct [] = Unit
IsDistinct ((k, c) ∷ rest) = (get k rest ≡ none) × IsDistinct rest

pub bytes_in-snoc :
    (es : Entries) (k c : List ℕ) → bytes_in (es ++ (k, c) ∷ []) ≡ bytes_in es + length c
bytes_in-snoc [] k c = omega arith
bytes_in-snoc ((j, d) ∷ es) k c = omega (arith, bytes_in-snoc es k c)

pub remove_missing : (k : List ℕ) (es : Entries) → get k es ≡ none → remove k es ≡ es
unfolding get remove
remove_missing k [] h = refl
remove_missing k ((j, d) ∷ es) h = ground (arith, remove_missing k es)

bytes_in-remove :
    (k c : List ℕ) (es : Entries)
    → IsDistinct es
    → get k es ≡ some c
    → bytes_in (remove k es) + length c ≡ bytes_in es
unfolding get remove
bytes_in-remove k c [] h e = cc
bytes_in-remove k c ((j, d) ∷ es) h e =
    ground (arith, bytes_in-remove k c es h.1, bytes_eq_iff j k, remove_missing k es)

bytes_in-remove-le : (k : List ℕ) (es : Entries) → bytes_in (remove k es) ≤ bytes_in es
unfolding remove
bytes_in-remove-le k [] = omega arith
bytes_in-remove-le k ((j, d) ∷ es) = ground (arith, bytes_in-remove-le k es)

remove-IsDistinct : (k : List ℕ) (es : Entries) → IsDistinct es → IsDistinct (remove k es)
unfolding remove
remove-IsDistinct k [] h = tt
remove-IsDistinct k ((j, d) ∷ es) h = ground (arith, remove-IsDistinct k es h.1, get-remove k j es)

pub get-snoc :
    (j k c : List ℕ) (es : Entries)
    → get j es ≡ none
    → get j (es ++ (k, c) ∷ []) ≡ (if bytes_eq k j then some c else none)
unfolding get
get-snoc j k c [] h = refl
get-snoc j k c ((i, d) ∷ es) h = ground (arith, get-snoc j k c es)

snoc-IsDistinct :
    (es : Entries) (k c : List ℕ) → IsDistinct es → get k es ≡ none → IsDistinct (es ++ (k, c) ∷ [])
unfolding get
snoc-IsDistinct [] k c h n = (refl, tt)
snoc-IsDistinct ((j, d) ∷ es) k c h n =
    ground
      (arith, snoc-IsDistinct es k c h.1, get-snoc j k c es h.0, bytes_eq_iff k j, bytes_eq_iff j k)

pub drop-IsDistinct : (n : ℕ) (es : Entries) → IsDistinct es → IsDistinct (drop n es)
drop-IsDistinct zero es h = h
drop-IsDistinct (suc n) [] h = tt
drop-IsDistinct (suc n) ((j, d) ∷ es) h = drop-IsDistinct n es h.1

module _ (lib : LinkedHashMap) where
  abbrev pub entries_of : RawChunkCache lib → Entries
  entries_of self = lib.entries self.chunks

  -- The sizes are counted right and within the limit.
  pub record IsCache (self : RawChunkCache lib) : Type 0 where
    pub counted : self.total_size ≡ bytes_in (entries_of self)
    pub distinct : IsDistinct (entries_of self)
    pub bounded : self.total_size ≤ self.max_size

  -- `self` without its `n` oldest entries, which are as few as the limit allows.
  pub record IsEvicted (all : Entries) (max_size n : ℕ) (self : RawChunkCache lib) : Type 0 where
    pub left : entries_of self ≡ drop n all
    pub counted : self.total_size ≡ bytes_in (drop n all)
    pub same_limit : self.max_size ≡ max_size
    pub bounded : bytes_in (drop n all) ≤ max_size
    pub fewest : (j : ℕ) → j < n → max_size < bytes_in (drop j all)

  evict_stop :
      (fuel : ℕ) (self : RawChunkCache lib)
      → self.total_size ≤ self.max_size
      → evict lib (suc fuel) self ≡ some self
  unfolding evict
  evict_stop fuel self h = rw (evict, le→ltb self.max_size self.total_size h) refl

  evict_go :
      (fuel : ℕ) (self : RawChunkCache lib) (k c : List ℕ) (m' : lib.Map)
      → self.max_size < self.total_size
      → lib.pop_front self.chunks ≡ some ((k, c), m')
      → evict lib (suc fuel) self
        ≡ evict lib fuel
            (record self { chunks = m'; total_size = minus_u64 self.total_size (length c) })
  unfolding evict
  evict_go fuel self k c m' h popped =
      rw (evict, lt→ltb self.max_size self.total_size h, popped) refl

  IsEvicted-cons :
      (k c : List ℕ) (rest : Entries) (max_size n : ℕ) (self : RawChunkCache lib)
      → max_size < length c + bytes_in rest
      → IsEvicted rest max_size n self
      → IsEvicted ((k, c) ∷ rest) max_size (suc n) self
  IsEvicted-cons k c rest max_size n self over h = record {
    left = h.left;
    counted = h.counted;
    same_limit = h.same_limit;
    bounded = h.bounded;
    fewest = λ j. elim j as (λ t. t < suc n → max_size < bytes_in (drop t ((k, c) ∷ rest))) [
      | zero ↦ λ lt. over
      | suc i ↦ λ lt. h.fewest i (omega arith)
    ];
  }

  -- With one round more than entries the loop ends, and it never finds the map empty.
  evict_lem :
      (fuel : ℕ) (self : RawChunkCache lib) (es : Entries)
      → entries_of self ≡ es
      → length es < fuel
      → self.total_size ≡ bytes_in es
      → IsU64 self.total_size
      → (n : ℕ) × (self' : RawChunkCache lib) × (evict lib fuel self ≡ some self')
        × IsEvicted es self.max_size n self'
  evict_lem zero self es e lt counted fits = absurd (omega arith)
  evict_lem (suc fuel) self [] e lt counted fits = (
    0,
    self,
    evict_stop fuel self (omega arith),
    record {
      left = e;
      counted = counted;
      same_limit = refl;
      bounded = omega arith;
      fewest = λ j lt_j. absurd (omega arith);
    },
  )
  evict_lem (suc fuel) self ((k, c) ∷ rest) e lt counted fits =
      elim (Bool-cases (ltb self.max_size self.total_size)) [
        | inl over ↦
            let (m', popped, m'_is) = lib.pop_front_cons self.chunks (k, c) rest e in
            let more = ltb→lt self.max_size self.total_size over in
            let next : RawChunkCache lib = record self {
              chunks = m';
              total_size = minus_u64 self.total_size (length c);
            } in
            let (n, self', run, evicted) =
              evict_lem fuel next rest m'_is (omega arith) (omega arith) (omega arith) in
            (
              suc n,
              self',
              evict_go fuel self k c m' more popped ∙ run,
              IsEvicted-cons k c rest self.max_size n self' (omega arith) evicted,
            )
        | inr fits_now ↦
            let small : self.total_size ≤ self.max_size = ground arith in
            (
              0,
              self,
              evict_stop fuel self small,
              record {
                left = e;
                counted = counted;
                same_limit = refl;
                bounded = omega arith;
                fewest = λ j lt_j. absurd (omega arith);
              },
            )
      ]

  pub new_raw-IsCache : (max_size : ℕ) → IsCache (new_raw lib max_size)
  unfolding new_raw
  new_raw-IsCache max_size = record {
    counted = sym (ap bytes_in lib.entries_new);
    distinct = rw lib.entries_new tt;
    bounded = omega arith;
  }

  -- The entries after an insertion, before any is evicted.
  abbrev pub with_newest : RawChunkCache lib → ChunkKey → List ℕ → Entries
  with_newest self key chunk = remove key (entries_of self) ++ (key, chunk) ∷ []

  with_newest-IsDistinct :
      (self : RawChunkCache lib) (key chunk : List ℕ)
      → IsDistinct (entries_of self)
      → IsDistinct (with_newest self key chunk)
  with_newest-IsDistinct self key chunk h =
      snoc-IsDistinct (remove key (entries_of self)) key chunk
        (remove-IsDistinct key (entries_of self) h)
        (ground (arith, get-remove key key (entries_of self), bytes_eq_iff key key))

  size_lem :
      (key chunk : List ℕ) (es : Entries) (total : ℕ)
      → IsDistinct es
      → total ≡ bytes_in es
      → IsU64 (total + length chunk)
      → size_without (get key es) ((total + length chunk) % u64_mod)
        ≡ bytes_in (remove key es ++ (key, chunk) ∷ [])
  unfolding size_without
  size_lem key chunk es total distinct counted fits = elim (Option-cases (get key es)) [
    | inl e ↦ rw e (
        omega
          (arith, bytes_in-snoc (remove key es) key chunk, ap bytes_in (remove_missing key es e)))
    | inr (old, e) ↦ rw e (
        omega
          (arith, bytes_in-snoc (remove key es) key chunk, bytes_in-remove key old es distinct e))
  ]

  -- From a cache whose size is counted right and within the limit, an insertion returns if limit
  -- and chunk fit 64 bits together; the chunk becomes the newest entry, an older entry under its
  -- key goes, and as few of the oldest entries are evicted as bring the size within the limit;
  -- the cache is then again counted right, within the limit and without a double key.
  pub insert_raw-IsEvicted :
      (self : RawChunkCache lib) (key chunk : List ℕ)
      → IsCache self
      → IsU64 (self.max_size + length chunk)
      → (n : ℕ) × (self' : RawChunkCache lib) × (insert_raw lib self key chunk ≡ some self')
        × IsEvicted (with_newest self key chunk) self.max_size n self'
        × IsCache self'
  unfolding insert_raw
  insert_raw-IsEvicted self key chunk ok fits =
      let all : Entries = with_newest self key chunk in
      let chunks : lib.Map = (lib.insert key chunk self.chunks).1 in
      let next : RawChunkCache lib = record self {
        chunks = chunks;
        total_size =
            size_without (lib.insert key chunk self.chunks).0
              ((self.total_size + length chunk) % u64_mod);
      } in
      let entries_are : entries_of next ≡ all = lib.entries_insert key chunk self.chunks in
      let counted : next.total_size ≡ bytes_in all =
        ap (λ (o : Option (List ℕ)). size_without o ((self.total_size + length chunk) % u64_mod))
          (lib.insert_old key chunk self.chunks)
        ∙ size_lem key chunk (entries_of self) self.total_size ok.distinct ok.counted
            (omega (arith, ok.bounded)) in
      let (n, self', run, evicted) =
        evict_lem (suc (length (lib.entries chunks))) next all entries_are
          (omega (arith, ap (length {A = List ℕ × List ℕ}) entries_are)) counted
          (omega (
            arith,
            counted,
            bytes_in-snoc (remove key (entries_of self)) key chunk,
            bytes_in-remove-le key (entries_of self),
            ok.counted,
            ok.bounded,
          )) in
      (
        n,
        self',
        run,
        evicted,
        record {
          counted = evicted.counted ∙ sym (ap bytes_in evicted.left);
          distinct =
              rw evicted.left
                (drop-IsDistinct n all (with_newest-IsDistinct self key chunk ok.distinct));
          bounded = omega (arith, evicted.counted, evicted.same_limit, evicted.bounded);
        },
      )
