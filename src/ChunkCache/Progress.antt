-- ===== src/ChunkCache/Progress.antt =====
-- What a call of `get_chunks_batched` brings a task: a batch, or an end with or without waiting.
use factorio_multiplayer_cac.Common.{
  ℕ, ◌≤◌, ◌<◌, ◌≡◌, refl, sym, ap, ◌∙◌, some, List, [], ◌∷◌, ◌++◌, length, length-append, map, ◌+◌,
  false, arith, lt→ltb, ◌⊎◌, inl, inr, Bool-cases, Option-cases,
}
use factorio_multiplayer_cac.Common.HashMap.{
  HashMap, get, insert, get-insert-eq-some, get-insert_found, get-insert_self, contains_key,
  contains_key-of_get, bytes_key,
}
use factorio_multiplayer_cac.Crates.LinkedMap.{LinkedHashMap}
use factorio_multiplayer_cac.Dedup.{ChunkKey}
use factorio_multiplayer_cac.ChunkCache.{
  RawChunkCache, ChunkCacheInner, Batching, Gathered, fetch, wait, done, collect_waited, first_pass,
  second_pass, after_first_pass, mark_pending, gather, is_wanted, get_raw,
}
use factorio_multiplayer_cac.ChunkCache.Waiting.{IsIn}
use factorio_multiplayer_cac.ChunkCache.Batches.{first_pass_lem}
use mathlib.Core.Path.{subst}

module _ (lib : LinkedHashMap) where
  -- What the first pass keeps was requested, and what it puts out is in the cache.
  pub record IsSound (inner : ChunkCacheInner lib) (keys kept : List ChunkKey) (b b' : Batching)
      : Type 0 where
    pub requested : (k : ChunkKey) → IsIn k kept → IsIn k keys
    pub from_cache :
        (k c : List ℕ)
        → get k b'.chunk_out ≡ some c
        → (get k b.chunk_out ≡ some c) ⊎ (get_raw lib inner.raw_cache k ≡ some c)
    pub keeps :
        (k c : List ℕ) → get k b.chunk_out ≡ some c → (c' : List ℕ) × (get k b'.chunk_out ≡ some c')
    pub fewer : length kept + length b'.batch ≤ length keys + length b.batch

  pub first_pass-IsSound :
      (inner : ChunkCacheInner lib) (batch_size : ℕ) (keys : List ChunkKey) (b : Batching)
      → let (kept, b') = first_pass lib inner batch_size keys b in IsSound inner keys kept b b'
  unfolding first_pass
  first_pass-IsSound inner batch_size [] b = record {
    requested = λ k m. m;
    from_cache = λ k c h. inl h;
    keeps = λ k c h. (c, h);
    fewer = omega arith;
  }
  first_pass-IsSound inner batch_size (key ∷ rest) b =
      elim (Option-cases (get_raw lib inner.raw_cache key)) [
        | inr (chunk, e) ↦
            let out : HashMap ChunkKey (List ℕ) = insert key chunk b.chunk_out in
            let s = first_pass-IsSound inner batch_size rest (record b { chunk_out = out }) in
            rw (first_pass, e)
              (record {
                requested = λ k m. inr (s.requested k m);
                from_cache = λ k c h. elim (s.from_cache k c h) [
                  | inr r ↦ inr r
                  | inl o ↦ elim (get-insert-eq-some key k chunk b.chunk_out c o) [
                    | inl same ↦
                        inr (sym (ap (get_raw lib inner.raw_cache) same.0) ∙ e ∙ ap some same.1)
                    | inr old ↦ inl old
                  ]
                ];
                keeps = λ k c h.
                    let (c', there) = get-insert_found key k chunk b.chunk_out c h in
                    s.keeps k c' there;
                fewer = omega (arith, s.fewer);
              })
        | inl e ↦ elim (Bool-cases (is_wanted lib inner batch_size key b)) [
          | inl w ↦
              let s =
                first_pass-IsSound inner batch_size rest (record b {
                  batch = b.batch ++ key ∷ [];
                  batch_set = insert key tt b.batch_set;
                }) in
              rw (first_pass, e, w)
                (record {
                  requested = λ k m. inr (s.requested k m);
                  from_cache = s.from_cache;
                  keeps = s.keeps;
                  fewer = omega (arith, s.fewer, length-append b.batch (key ∷ []));
                })
          | inr w ↦
              let s = first_pass-IsSound inner batch_size rest b in
              rw (first_pass, e, w)
                (record {
                  requested = λ k m. elim m [ inl h ↦ inl h | inr h ↦ inr (s.requested k h) ];
                  from_cache = s.from_cache;
                  keeps = s.keeps;
                  fewer = omega (arith, s.fewer);
                })
        ]
      ]

  abbrev pub no_batch : HashMap ChunkKey (List ℕ) → Batching
  no_batch chunk_out = record { chunk_out = chunk_out; batch = []; batch_set = [] }

  abbrev pub IsPending : ChunkCacheInner lib → ChunkKey → Type 0
  IsPending inner k = (event : ℕ) × (get k inner.pending_chunks ≡ some event)

  -- A key that is not wanted for an empty batch is on its way for another.
  unwanted-IsPending :
      (inner : ChunkCacheInner lib) (batch_size : ℕ) (key : ChunkKey)
      (chunk_out : HashMap ChunkKey (List ℕ))
      → 0 < batch_size
      → is_wanted lib inner batch_size key (no_batch chunk_out) ≡ false
      → IsPending inner key
  unfolding is_wanted contains_key
  unwanted-IsPending inner batch_size key chunk_out room w =
      elim (Option-cases (get key inner.pending_chunks)) [
        | inr (event, e) ↦ (event, e)
        | inl e ↦
            cc (rw (contains_key-of_get key inner.pending_chunks e, lt→ltb 0 batch_size room) at w)
      ]

  -- If the first pass finds no key for a batch, all that it keeps is on its way for others.
  pub no_batch-IsPending :
      (inner : ChunkCacheInner lib) (batch_size : ℕ) (keys : List ChunkKey)
      (chunk_out : HashMap ChunkKey (List ℕ))
      → 0 < batch_size
      → let (kept, b) = first_pass lib inner batch_size keys (no_batch chunk_out) in
        b.batch ≡ [] → (k : ChunkKey) → IsIn k kept → IsPending inner k
  unfolding first_pass
  no_batch-IsPending inner batch_size [] chunk_out room = λ empty k m. absurd m
  no_batch-IsPending inner batch_size (key ∷ rest) chunk_out room =
      elim (Option-cases (get_raw lib inner.raw_cache key)) [
        | inr (chunk, e) ↦
            rw (first_pass, e)
              (no_batch-IsPending inner batch_size rest (insert key chunk chunk_out) room)
        | inl e ↦ elim (Bool-cases (is_wanted lib inner batch_size key (no_batch chunk_out))) [
          | inl w ↦
              let b : Batching = record {
                chunk_out = chunk_out;
                batch = key ∷ [];
                batch_set = insert key tt [];
              } in
              rw (first_pass, e, w)
                (λ empty k m. absurd (
                  subst (IsIn key) empty
                    ((first_pass_lem lib inner batch_size rest b).grows key (inl refl))))
          | inr w ↦
              rw (first_pass, e, w)
                (λ empty k m. elim m [
                  | inl same ↦
                      subst (IsPending inner) same
                        (unwanted-IsPending inner batch_size key chunk_out room w)
                  | inr later ↦
                      no_batch-IsPending inner batch_size rest chunk_out room empty k later
                ])
        ]
      ]

  -- The second pass takes all keys that are on their way, with their events.
  second_pass_all :
      (inner : ChunkCacheInner lib) (keys : List ChunkKey)
      → ((k : ChunkKey) → IsIn k keys → IsPending inner k)
      → (requests : HashMap ChunkKey ℕ) × (second_pass inner.pending_chunks keys ≡ ([], requests))
        × (map (λ (r : ChunkKey × ℕ). r.0) requests ≡ keys)
  unfolding second_pass
  second_pass_all inner [] pending = ([], refl, refl)
  second_pass_all inner (k ∷ ks) pending =
      let (event, there) = pending k (inl refl) in
      let (requests, run, keys_are) = second_pass_all inner ks (λ j m. pending j (inr m)) in
      ((k, event) ∷ requests, rw (second_pass, there, run) refl, ap (◌∷◌ k) keys_are)

  -- How the call ends, from the keys and the batch of the first pass: with the batch, or with no key
  -- left, after waiting for the keys that were kept if there are any.
  abbrev pub IsGathered :
      ChunkCacheInner lib
      → ℕ
      → List ChunkKey
      → Batching
      → Gathered × List ChunkKey × HashMap ChunkKey (List ℕ) × ChunkCacheInner lib
      → Type 0
  IsGathered inner event kept b r =
      ((0 < length b.batch)
        × (r ≡ (
          fetch (record { event = event; batch_keys = b.batch }),
          kept,
          b.chunk_out,
          record inner { pending_chunks = mark_pending event b.batch inner.pending_chunks },
        )))
      ⊎ ((b.batch ≡ [])
          × ((requests : HashMap ChunkKey ℕ) × (map (λ (q : ChunkKey × ℕ). q.0) requests ≡ kept)
              × ((k : ChunkKey) → IsIn k kept → IsPending inner k)
              × (((requests ≡ []) × (r ≡ (done, [], b.chunk_out, inner)))
                  ⊎ (r ≡ (wait requests, [], b.chunk_out, inner)))))

  after_first_pass-IsGathered :
      (inner : ChunkCacheInner lib) (event : ℕ) (kept batch : List ChunkKey)
      (chunk_out : HashMap ChunkKey (List ℕ)) (set : HashMap ChunkKey (Unit {0}))
      → (batch ≡ [] → (k : ChunkKey) → IsIn k kept → IsPending inner k)
      → let b : Batching = record { chunk_out = chunk_out; batch = batch; batch_set = set } in
        IsGathered inner event kept b (after_first_pass lib inner event (kept, b))
  unfolding after_first_pass
  after_first_pass-IsGathered inner event kept [] chunk_out set pending =
      let (requests, run, keys_are) = second_pass_all inner kept (pending refl) in
      inr (refl, (requests, keys_are, pending refl, ends requests run))
    where
      ends :
          (requests : HashMap ChunkKey ℕ)
          → second_pass inner.pending_chunks kept ≡ ([], requests)
          → let r =
              after_first_pass lib inner event
                (kept, record { chunk_out = chunk_out; batch = []; batch_set = set }) in
            ((requests ≡ []) × (r ≡ (done, [], chunk_out, inner)))
            ⊎ (r ≡ (wait requests, [], chunk_out, inner))
      ends [] run = inl (
        refl,
        rw (after_first_pass, ap (λ r. r.1) run) (ap (λ r. (done, r.0, chunk_out, inner)) run),
      )
      ends (q ∷ qs) run = inr (
          rw (after_first_pass, ap (λ r. r.1) run)
            (ap (λ r. (wait (q ∷ qs), r.0, chunk_out, inner)) run))
  after_first_pass-IsGathered inner event kept (k ∷ ks) chunk_out set pending =
      inl (omega arith, refl)

  pub gather-IsGathered :
      (inner : ChunkCacheInner lib) (event : ℕ) (requested : List ChunkKey)
      (chunk_out : HashMap ChunkKey (List ℕ)) (batch_size : ℕ)
      → 0 < batch_size
      → let (kept, b) = first_pass lib inner batch_size requested (no_batch chunk_out) in
        IsGathered inner event kept b (gather lib inner event requested chunk_out batch_size)
  unfolding gather
  gather-IsGathered inner event requested chunk_out batch_size room =
      let (kept, b) = first_pass lib inner batch_size requested (no_batch chunk_out) in
      after_first_pass-IsGathered inner event kept b.batch b.chunk_out b.batch_set
        (no_batch-IsPending inner batch_size requested chunk_out room)

  -- When all that is waited for is in the cache, its chunks are put out.
  pub collect_waited_lem :
      (raw : RawChunkCache lib) (requests : HashMap ChunkKey ℕ)
      (chunk_out : HashMap ChunkKey (List ℕ))
      → ((k : ChunkKey)
          → IsIn k (map (λ (q : ChunkKey × ℕ). q.0) requests)
          → (c : List ℕ) × (get_raw lib raw k ≡ some c))
      → (out : HashMap ChunkKey (List ℕ)) × (collect_waited lib raw requests chunk_out ≡ some out)
        × ((k c : List ℕ)
            → get k out ≡ some c
            → (get k chunk_out ≡ some c) ⊎ (get_raw lib raw k ≡ some c))
        × ((k : ChunkKey)
            → IsIn k (map (λ (q : ChunkKey × ℕ). q.0) requests)
              ⊎ ((c : List ℕ) × (get k chunk_out ≡ some c))
            → (c : List ℕ) × (get k out ≡ some c))
  unfolding collect_waited
  collect_waited_lem raw [] chunk_out there = (
    chunk_out,
    refl,
    λ k c h. inl h,
    λ k m. elim m [ inl none_left ↦ absurd none_left | inr h ↦ h ],
  )
  collect_waited_lem raw ((j, event) ∷ requests) chunk_out there =
      let (chunk, found) = there j (inl refl) in
      let next : HashMap ChunkKey (List ℕ) = insert j chunk chunk_out in
      let (out, run, from, all) = collect_waited_lem raw requests next (λ k m. there k (inr m)) in
      (
        out,
        rw found run,
        λ k c h. elim (from k c h) [
          | inr r ↦ inr r
          | inl o ↦ elim (get-insert-eq-some j k chunk chunk_out c o) [
            | inl same ↦ inr (sym (ap (get_raw lib raw) same.0) ∙ found ∙ ap some same.1)
            | inr old ↦ inl old
          ]
        ],
        λ k m. elim m [
          | inl (inl e) ↦
              all k (inr (chunk, sym (ap (λ k. get k next) e) ∙ get-insert_self j chunk chunk_out))
          | inl (inr later) ↦ all k (inl later)
          | inr (c, h) ↦ all k (inr (get-insert_found j k chunk chunk_out c h))
        ],
      )
