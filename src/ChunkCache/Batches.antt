-- ===== src/ChunkCache/Batches.antt =====
-- What `get_chunks_batched` puts into a batch, and that it loses no request.
use mathlib.Core.Path.{subst}
use factorio_multiplayer_cac.Common.{
  ℕ, ◌≤◌, ◌<◌, ◌≡◌, refl, sym, ap, ◌∙◌, true, false, none, some, List, [], ◌∷◌, ◌++◌, length, arith,
  ◌⊎◌, inl, inr, Bool-cases, Option-cases, length-append,
}
use factorio_multiplayer_cac.Common.HashMap.{
  HashMap, get, insert, get-insert, contains_key, bytes_key, bytes_eq_iff,
}
use factorio_multiplayer_cac.Crates.LinkedMap.{LinkedHashMap}
use factorio_multiplayer_cac.Dedup.{ChunkKey}
use factorio_multiplayer_cac.ChunkCache.{
  ChunkCacheInner, BatchChunkRequest, Batching, fetch, first_pass, after_first_pass, gather,
  is_wanted, get_raw,
}
use factorio_multiplayer_cac.ChunkCache.Waiting.{IsIn, after_first_pass_lem}

pub IsIn-append_left : (k : ChunkKey) (js ks : List ChunkKey) → IsIn k js → IsIn k (js ++ ks)
IsIn-append_left k [] ks h = absurd h
IsIn-append_left k (j ∷ js) ks (inl h) = inl h
IsIn-append_left k (j ∷ js) ks (inr h) = inr (IsIn-append_left k js ks h)

pub IsIn-append_right : (k : ChunkKey) (js ks : List ChunkKey) → IsIn k ks → IsIn k (js ++ ks)
IsIn-append_right k [] ks h = h
IsIn-append_right k (j ∷ js) ks h = inr (IsIn-append_right k js ks h)

IsIn-snoc :
    (k : ChunkKey) (js : List ChunkKey) (j : ChunkKey) → IsIn k (js ++ j ∷ []) → IsIn k js ⊎ (j ≡ k)
IsIn-snoc k [] j (inl h) = inr h
IsIn-snoc k [] j (inr h) = absurd h
IsIn-snoc k (i ∷ js) j (inl h) = inl (inl h)
IsIn-snoc k (i ∷ js) j (inr h) = elim (IsIn-snoc k js j h) [ inl m ↦ inl (inr m) | inr e ↦ inr e ]

module _ (lib : LinkedHashMap) where
  -- A key that is neither in the cache nor on its way.
  abbrev pub IsAbsent : ChunkCacheInner lib → ChunkKey → Type 0
  IsAbsent inner k =
      (get_raw lib inner.raw_cache k ≡ none) × (contains_key k inner.pending_chunks ≡ false)

  -- A key that is kept for later, put into the batch, or answered from the cache.
  abbrev pub IsHandled :
      ChunkCacheInner lib
      → List ChunkKey
      → List ChunkKey
      → HashMap ChunkKey (List ℕ)
      → ChunkKey
      → Type 0
  IsHandled inner kept batch chunk_out k =
      IsIn k kept
      ⊎ (IsIn k batch
          ⊎ ((chunk : List ℕ) × (get_raw lib inner.raw_cache k ≡ some chunk)
              × (get k chunk_out ≡ some chunk)))

  -- What the chunks that were put out so far agree with.
  abbrev pub IsCopied : ChunkCacheInner lib → Batching → ChunkKey → Type 0
  IsCopied inner b k =
      (chunk : List ℕ) × (get_raw lib inner.raw_cache k ≡ some chunk)
      × (get k b.chunk_out ≡ some chunk)

  -- How the first pass continues what was built.
  pub record IsPassed (inner : ChunkCacheInner lib) (batch_size : ℕ) (keys kept : List ChunkKey)
      (b b' : Batching) : Type 0 where
    pub size : length b.batch ≤ batch_size → length b'.batch ≤ batch_size
    pub wanted :
        (k : ChunkKey) → IsIn k b'.batch → IsIn k b.batch ⊎ (IsIn k keys × IsAbsent inner k)
    pub grows : (k : ChunkKey) → IsIn k b.batch → IsIn k b'.batch
    pub copied : (k : ChunkKey) → IsCopied inner b k → IsCopied inner b' k
    pub handled : (k : ChunkKey) → IsIn k keys → IsHandled inner kept b'.batch b'.chunk_out k

  is_wanted_lem :
      (inner : ChunkCacheInner lib) (batch_size : ℕ) (key : ChunkKey) (b : Batching)
      → is_wanted lib inner batch_size key b ≡ true
      → (contains_key key inner.pending_chunks ≡ false) × (length b.batch < batch_size)
  unfolding is_wanted
  is_wanted_lem inner batch_size key b h = (ground arith, ground arith)

  pass_cached :
      (inner : ChunkCacheInner lib) (batch_size : ℕ) (key : ChunkKey) (rest : List ChunkKey)
      (b : Batching) (chunk : List ℕ)
      → get_raw lib inner.raw_cache key ≡ some chunk
      → first_pass lib inner batch_size (key ∷ rest) b
        ≡ first_pass lib inner batch_size rest
            (record b { chunk_out = insert key chunk b.chunk_out })
  unfolding first_pass
  pass_cached inner batch_size key rest b chunk h = rw (first_pass, h) refl

  pass_wanted :
      (inner : ChunkCacheInner lib) (batch_size : ℕ) (key : ChunkKey) (rest : List ChunkKey)
      (b : Batching)
      → get_raw lib inner.raw_cache key ≡ none
      → is_wanted lib inner batch_size key b ≡ true
      → first_pass lib inner batch_size (key ∷ rest) b
        ≡ first_pass lib inner batch_size rest
            (record b { batch = b.batch ++ key ∷ []; batch_set = insert key tt b.batch_set })
  unfolding first_pass
  pass_wanted inner batch_size key rest b h w = rw (first_pass, h, w) refl

  pass_kept :
      (inner : ChunkCacheInner lib) (batch_size : ℕ) (key : ChunkKey) (rest : List ChunkKey)
      (b : Batching)
      → get_raw lib inner.raw_cache key ≡ none
      → is_wanted lib inner batch_size key b ≡ false
      → first_pass lib inner batch_size (key ∷ rest) b ≡ (
        key ∷ (first_pass lib inner batch_size rest b).0,
        (first_pass lib inner batch_size rest b).1,
      )
  unfolding first_pass
  pass_kept inner batch_size key rest b h w = rw (first_pass, h, w) refl

  abbrev pub Passes : ChunkCacheInner lib → ℕ → List ChunkKey → Batching → Type 0
  Passes inner batch_size keys b =
      IsPassed inner batch_size keys (first_pass lib inner batch_size keys b).0 b
        (first_pass lib inner batch_size keys b).1

  IsPassed-cached :
      (inner : ChunkCacheInner lib) (batch_size : ℕ) (key : ChunkKey) (rest kept : List ChunkKey)
      (b b' : Batching) (chunk : List ℕ)
      → get_raw lib inner.raw_cache key ≡ some chunk
      → IsPassed inner batch_size rest kept
          (record b { chunk_out = insert key chunk b.chunk_out })
          b'
      → IsPassed inner batch_size (key ∷ rest) kept b b'
  IsPassed-cached inner batch_size key rest kept b b' chunk h p = record {
    size = p.size;
    wanted = λ k m. elim (p.wanted k m) [ inl old ↦ inl old | inr n ↦ inr (inr n.0, n.1) ];
    grows = p.grows;
    copied = λ k (c, raw, out).
        p.copied k (c, raw, ground (arith, get-insert key k chunk b.chunk_out, bytes_eq_iff key k));
    handled = λ k m. elim m [
      | inl e ↦ inr (
          inr (
            p.copied k (
              chunk,
              sym (ap (get_raw lib inner.raw_cache) e) ∙ h,
              ground (arith, get-insert key k chunk b.chunk_out, bytes_eq_iff key k),
            )))
      | inr later ↦ p.handled k later
    ];
  }

  IsPassed-wanted :
      (inner : ChunkCacheInner lib) (batch_size : ℕ) (key : ChunkKey) (rest kept : List ChunkKey)
      (b b' : Batching)
      → IsAbsent inner key
      → length b.batch < batch_size
      → IsPassed inner batch_size rest kept
          (record b { batch = b.batch ++ key ∷ []; batch_set = insert key tt b.batch_set })
          b'
      → IsPassed inner batch_size (key ∷ rest) kept b b'
  IsPassed-wanted inner batch_size key rest kept b b' absent room p = record {
    size = λ h. p.size (omega (arith, length-append b.batch (key ∷ [])));
    wanted = λ k m. elim (p.wanted k m) [
      | inl old ↦ elim (IsIn-snoc k b.batch key old) [
        | inl older ↦ inl older
        | inr e ↦ inr (inl e, subst (IsAbsent inner) e absent)
      ]
      | inr n ↦ inr (inr n.0, n.1)
    ];
    grows = λ k m. p.grows k (IsIn-append_left k b.batch (key ∷ []) m);
    copied = p.copied;
    handled = λ k m. elim m [
      | inl e ↦ inr (inl (p.grows k (IsIn-append_right k b.batch (key ∷ []) (inl e))))
      | inr later ↦ p.handled k later
    ];
  }

  IsPassed-kept :
      (inner : ChunkCacheInner lib) (batch_size : ℕ) (key : ChunkKey) (rest kept : List ChunkKey)
      (b b' : Batching)
      → IsPassed inner batch_size rest kept b b'
      → IsPassed inner batch_size (key ∷ rest) (key ∷ kept) b b'
  IsPassed-kept inner batch_size key rest kept b b' p = record {
    size = p.size;
    wanted = λ k m. elim (p.wanted k m) [ inl old ↦ inl old | inr n ↦ inr (inr n.0, n.1) ];
    grows = p.grows;
    copied = p.copied;
    handled = λ k m. elim m [
      | inl e ↦ inl (inl e)
      | inr later ↦ elim (p.handled k later) [
        | inl kept_later ↦ inl (inr kept_later)
        | inr other ↦ inr other
      ]
    ];
  }

  pub first_pass_lem :
      (inner : ChunkCacheInner lib) (batch_size : ℕ) (keys : List ChunkKey) (b : Batching)
      → Passes inner batch_size keys b
  unfolding first_pass
  first_pass_lem inner batch_size [] b = record {
    size = λ h. h;
    wanted = λ k m. inl m;
    grows = λ k m. m;
    copied = λ k c. c;
    handled = λ k m. absurd m;
  }
  first_pass_lem inner batch_size (key ∷ rest) b =
      elim (Option-cases (get_raw lib inner.raw_cache key)) [
        | inr (chunk, e) ↦
            subst
              (λ (r : List ChunkKey × Batching). IsPassed inner batch_size (key ∷ rest) r.0 b r.1)
              (sym (pass_cached inner batch_size key rest b chunk e))
              (IsPassed-cached inner batch_size key rest _ b _ chunk e (
                first_pass_lem inner batch_size rest
                  (record b { chunk_out = insert key chunk b.chunk_out })))
        | inl e ↦ elim (Bool-cases (is_wanted lib inner batch_size key b)) [
          | inl w ↦
              let (free, room) = is_wanted_lem inner batch_size key b w in
              subst
                (λ (r : List ChunkKey × Batching). IsPassed inner batch_size (key ∷ rest) r.0 b r.1)
                (sym (pass_wanted inner batch_size key rest b e w))
                (IsPassed-wanted inner batch_size key rest _ b _ (e, free) room
                  (first_pass_lem inner batch_size rest (record b {
                    batch = b.batch ++ key ∷ [];
                    batch_set = insert key tt b.batch_set;
                  })))
          | inr w ↦
              subst
                (λ (r : List ChunkKey × Batching). IsPassed inner batch_size (key ∷ rest) r.0 b r.1)
                (sym (pass_kept inner batch_size key rest b e w))
                (IsPassed-kept inner batch_size key rest _ b _
                  (first_pass_lem inner batch_size rest b))
        ]
      ]

  after_first_pass_out :
      (inner inner' : ChunkCacheInner lib) (event : ℕ) (requested requested' batch : List ChunkKey)
      (chunk_out chunk_out' : HashMap ChunkKey (List ℕ)) (set : HashMap ChunkKey (Unit {0}))
      (request : BatchChunkRequest)
      → after_first_pass lib inner event
          (requested, record { chunk_out = chunk_out; batch = batch; batch_set = set })
        ≡ (fetch request, requested', chunk_out', inner')
      → (requested' ≡ requested) × (chunk_out' ≡ chunk_out)
  unfolding after_first_pass
  after_first_pass_out inner inner' event requested requested' [] chunk_out chunk_out' set request
        h =
      ground arith
  after_first_pass_out inner inner' event requested requested' (j ∷ js) chunk_out chunk_out' set
        request h =
      (ground arith, ground arith)

  -- A batch that gather hands out has at most the size asked for; its keys were requested, are
  -- not in the cache and are fetched by nobody else; and every requested key is in the batch, is
  -- kept for the next call, or is in the cache and its chunk is put out.
  pub gather-IsBatch :
      (inner inner' : ChunkCacheInner lib) (event : ℕ) (requested requested' : List ChunkKey)
      (chunk_out chunk_out' : HashMap ChunkKey (List ℕ)) (batch_size : ℕ)
      (request : BatchChunkRequest)
      → gather lib inner event requested chunk_out batch_size
        ≡ (fetch request, requested', chunk_out', inner')
      → (length request.batch_keys ≤ batch_size)
        × ((k : ChunkKey) → IsIn k request.batch_keys → IsIn k requested × IsAbsent inner k)
        × ((k : ChunkKey)
            → IsIn k requested
            → IsHandled inner requested' request.batch_keys chunk_out' k)
  unfolding gather
  gather-IsBatch inner inner' event requested requested' chunk_out chunk_out' batch_size request h =
      let start : Batching = record { chunk_out = chunk_out; batch = []; batch_set = [] } in
      let (kept, b) = first_pass lib inner batch_size requested start in
      let p : IsPassed inner batch_size requested kept start b =
        first_pass_lem inner batch_size requested start in
      let (request_is, inner_is) =
        after_first_pass_lem lib inner inner' event kept requested' b.batch b.chunk_out chunk_out'
          b.batch_set request h in
      let (kept_is, out_is) =
        after_first_pass_out inner inner' event kept requested' b.batch b.chunk_out chunk_out'
          b.batch_set request h in
      let keys_are : request.batch_keys ≡ b.batch =
        ap (λ (r : BatchChunkRequest). r.batch_keys) request_is in
      (
        subst (λ (ks : List ChunkKey). length ks ≤ batch_size) (sym keys_are)
            (p.size (omega arith)),
        λ k m. elim (p.wanted k (subst (IsIn k) keys_are m)) [ inl old ↦ absurd old | inr n ↦ n ],
        λ k m.
            subst (λ (ks : List ChunkKey). IsHandled inner requested' ks chunk_out' k)
              (sym keys_are)
              (subst (λ (o : HashMap ChunkKey (List ℕ)). IsHandled inner requested' b.batch o k)
                (sym out_is)
                (subst (λ (ks : List ChunkKey). IsHandled inner ks b.batch b.chunk_out k)
                  (sym kept_is) (p.handled k m))),
      )
