-- ===== src/ChunkCache/Waiting.antt =====
-- Who waits for a chunk waits for a request that is under way: the cache shared by all tasks, as
-- a step relation.
use mathlib.Core.Path.{subst}
use factorio_multiplayer_cac.Common.{
  ℕ, suc, ◌+◌, ◌≡◌, sym, ap, ◌∙◌, false, some, List, [], ◌∷◌, ◌++◌, length, arith, ◌⊎◌, inl, inr,
  Bool-cases, >>=-eq-some, ltb, ◌==◌, ==_iff, if◌then◌else◌,
}
use factorio_multiplayer_cac.Common.HashMap.{
  HashMap, get, insert, remove, get-insert, get-remove, bytes_key, bytes_eq, bytes_eq_iff,
}
use factorio_multiplayer_cac.Crates.LinkedMap.{LinkedHashMap}
use factorio_multiplayer_cac.Dedup.{ChunkKey}
use factorio_multiplayer_cac.ChunkCache.{
  ChunkCacheInner, BatchChunkRequest, fetch, new, first_pass, after_first_pass, gather,
  mark_pending, fulfill, fulfill_loop, mark_dirty, insert_raw,
}

-- The key is one of the list.
abbrev pub IsIn : ChunkKey → List ChunkKey → Type 0
IsIn k [] = ⊥
IsIn k (j ∷ js) = (j ≡ k) ⊎ IsIn k js

-- A request of the list has the event and fetches the key.
abbrev pub IsFetched : ChunkKey → ℕ → List BatchChunkRequest → Type 0
IsFetched k event [] = ⊥
IsFetched k event (r ∷ rs) = ((r.event ≡ event) × IsIn k r.batch_keys) ⊎ IsFetched k event rs

-- How many requests of the list have the event, and how often it is in a list of events.
abbrev pub uses : ℕ → List BatchChunkRequest → ℕ
uses event [] = 0
uses event (r ∷ rs) = (if r.event == event then 1 else 0) + uses event rs

abbrev pub times : ℕ → List ℕ → ℕ
times event [] = 0
times event (e ∷ es) = (if e == event then 1 else 0) + times event es

uses-append :
    (event : ℕ) (xs ys : List BatchChunkRequest)
    → uses event (xs ++ ys) ≡ uses event xs + uses event ys
uses-append event [] ys = omega arith
uses-append event (x ∷ xs) ys = omega (arith, uses-append event xs ys)

-- A request whose event is closed is no longer under way.
uses-times :
    (event : ℕ) (r : BatchChunkRequest) (rs : List BatchChunkRequest) (closed : List ℕ)
    → uses event rs + times event (r.event ∷ closed) ≡ uses event (r ∷ rs) + times event closed
uses-times event r rs closed = omega arith

IsFetched-remove :
    (k : ChunkKey) (event : ℕ) (before after : List BatchChunkRequest) (r : BatchChunkRequest)
    → ¬ IsIn k r.batch_keys
    → IsFetched k event (before ++ r ∷ after)
    → IsFetched k event (before ++ after)
IsFetched-remove k event [] after r out (inl h) = absurd (out h.1)
IsFetched-remove k event [] after r out (inr h) = h
IsFetched-remove k event (q ∷ before) after r out (inl h) = inl h
IsFetched-remove k event (q ∷ before) after r out (inr h) =
    inr (IsFetched-remove k event before after r out h)

pub get-mark_pending :
    (event : ℕ) (keys : List ChunkKey) (pending : HashMap ChunkKey ℕ) (k : ChunkKey) (e : ℕ)
    → get k (mark_pending event keys pending) ≡ some e
    → (IsIn k keys × (event ≡ e)) ⊎ (get k pending ≡ some e)
unfolding mark_pending
get-mark_pending event [] pending k e h = inr h
get-mark_pending event (j ∷ js) pending k e h =
    elim (get-mark_pending event js (insert j event pending) k e h) [
      | inl m ↦ inl (inr m.0, m.1)
      | inr g ↦ elim (Bool-cases (bytes_eq j k)) [
        | inl same ↦
            inl (inl ((bytes_eq_iff j k).0 same), ground (arith, get-insert j k event pending))
        | inr other ↦ inr (ground (arith, get-insert j k event pending))
      ]
    ]

module _ (lib : LinkedHashMap) where
  -- The cache, the requests that are under way, the number of the next event, and the events that
  -- were closed.
  pub record System : Type 0 where
    pub inner : ChunkCacheInner lib
    pub under_way : List BatchChunkRequest
    pub next_event : ℕ
    pub closed : List ℕ

  -- A task gets a batch to fetch, a task brings the chunks of its batch, or a task marks the cache
  -- as changed. The relation has no step by which a task drops its request.
  pub data Step : System → System → Type 0 where
    fetches :
        {s : System} (requested requested' : List ChunkKey)
        (chunk_out chunk_out' : HashMap ChunkKey (List ℕ)) (batch_size : ℕ)
        {request : BatchChunkRequest} {inner' : ChunkCacheInner lib}
        → gather lib s.inner s.next_event requested chunk_out batch_size
          ≡ (fetch request, requested', chunk_out', inner')
        → Step s (record {
          inner = inner';
          under_way = request ∷ s.under_way;
          next_event = suc s.next_event;
          closed = s.closed;
        })
    fulfills :
        {s : System} (before after : List BatchChunkRequest) (request : BatchChunkRequest)
        (chunks : List (List ℕ)) {inner' : ChunkCacheInner lib} {closed' : List ℕ}
        → s.under_way ≡ before ++ request ∷ after
        → fulfill lib request chunks s.inner s.closed ≡ some (inner', closed')
        → Step s (record {
          inner = inner';
          under_way = before ++ after;
          next_event = s.next_event;
          closed = closed';
        })
    marks : {s : System} → Step s (record s { inner = mark_dirty lib s.inner })

  pub data Reachable (max_size : ℕ) : System → Type 0 where
    starts :
        Reachable max_size
          (record { inner = new lib max_size; under_way = []; next_event = 0; closed = [] })
    steps : {s s' : System} → Reachable max_size s → Step s s' → Reachable max_size s'

  -- Every key that is pending is fetched by a request under way with the event of the key; and every
  -- event that was handed out is either closed, once, or is that of one request under way.
  pub record IsServed (s : System) : Type 0 where
    pub fetched :
        (k : ChunkKey) (event : ℕ)
        → get k s.inner.pending_chunks ≡ some event
        → IsFetched k event s.under_way
    pub counted :
        (event : ℕ)
        → uses event s.under_way + times event s.closed ≡ (if ltb event s.next_event then 1 else 0)

  pub after_first_pass_lem :
      (inner inner' : ChunkCacheInner lib) (event : ℕ) (requested requested' batch : List ChunkKey)
      (chunk_out chunk_out' : HashMap ChunkKey (List ℕ)) (set : HashMap ChunkKey (Unit {0}))
      (request : BatchChunkRequest)
      → after_first_pass lib inner event
          (requested, record { chunk_out = chunk_out; batch = batch; batch_set = set })
        ≡ (fetch request, requested', chunk_out', inner')
      → (request ≡ record { event = event; batch_keys = batch })
        × (inner' ≡ record inner { pending_chunks = mark_pending event batch inner.pending_chunks })
  unfolding after_first_pass
  after_first_pass_lem inner inner' event requested requested' [] chunk_out chunk_out' set request
        h =
      ground arith
  after_first_pass_lem inner inner' event requested requested' (j ∷ js) chunk_out chunk_out' set
        request h =
      (ground arith, ground arith)

  -- A batch that is handed out is pending under the event that comes with it.
  gather_lem :
      (inner inner' : ChunkCacheInner lib) (event : ℕ) (requested requested' : List ChunkKey)
      (chunk_out chunk_out' : HashMap ChunkKey (List ℕ)) (batch_size : ℕ)
      (request : BatchChunkRequest)
      → gather lib inner event requested chunk_out batch_size
        ≡ (fetch request, requested', chunk_out', inner')
      → (request.event ≡ event)
        × (inner'.pending_chunks ≡ mark_pending event request.batch_keys inner.pending_chunks)
  unfolding gather
  gather_lem inner inner' event requested requested' chunk_out chunk_out' batch_size request h =
      let (kept, b) =
        first_pass lib inner batch_size requested
          (record { chunk_out = chunk_out; batch = []; batch_set = [] }) in
      let (request_is, inner_is) =
        after_first_pass_lem inner inner' event kept requested' b.batch b.chunk_out chunk_out'
          b.batch_set request h in
      (
        ap (λ (r : BatchChunkRequest). r.event) request_is,
        ap (λ (i : ChunkCacheInner lib). i.pending_chunks) inner_is
            ∙ sym (
                ap (λ (r : BatchChunkRequest). mark_pending event r.batch_keys inner.pending_chunks)
                  request_is),
      )

  pub fulfill_loop-pending :
      (keys : List ChunkKey) (chunks : List (List ℕ)) (inner inner' : ChunkCacheInner lib)
      → length keys ≡ length chunks
      → fulfill_loop lib keys chunks inner ≡ some inner'
      → (k : ChunkKey) (e : ℕ) → get k inner'.pending_chunks ≡ some e
      → (¬ IsIn k keys) × (get k inner.pending_chunks ≡ some e)
  unfolding fulfill_loop
  fulfill_loop-pending [] [] inner inner' same run k e h = (λ m. m, ground arith)
  fulfill_loop-pending [] (c ∷ cs) inner inner' same run k e h = absurd (omega arith)
  fulfill_loop-pending (j ∷ js) [] inner inner' same run k e h = absurd (omega arith)
  fulfill_loop-pending (j ∷ js) (c ∷ cs) inner inner' same run k e h =
      let (raw, inserted, run') = >>=-eq-some (insert_raw lib inner.raw_cache j c) _ run in
      let next : ChunkCacheInner lib = record inner {
        raw_cache = raw;
        pending_chunks = remove j inner.pending_chunks;
      } in
      let (out, there) = fulfill_loop-pending js cs next inner' (omega arith) run' k e h in
      let other : bytes_eq j k ≡ false = ground (arith, get-remove j k inner.pending_chunks) in
      (
        λ m. elim m [ inl same_key ↦ cc (other, (bytes_eq_iff j k).1 same_key) | inr m' ↦ out m' ],
        ground (arith, get-remove j k inner.pending_chunks),
      )

  fulfill_lem :
      (request : BatchChunkRequest) (chunks : List (List ℕ)) (inner inner' : ChunkCacheInner lib)
      (closed closed' : List ℕ)
      → fulfill lib request chunks inner closed ≡ some (inner', closed')
      → (length request.batch_keys ≡ length chunks)
        × (fulfill_loop lib request.batch_keys chunks inner ≡ some inner')
        × (closed' ≡ request.event ∷ closed)
  unfolding fulfill
  fulfill_lem request chunks inner inner' closed closed' h =
      elim (Bool-cases (length request.batch_keys == length chunks)) [
        | inr n ↦ cc (rw n at h)
        | inl same ↦
            let (next, run, done) =
              >>=-eq-some (fulfill_loop lib request.batch_keys chunks inner) _ (rw same at h) in
            (
              (==_iff (length request.batch_keys) (length chunks)).0 same,
              run ∙ ap some (cc (done)),
              cc (done),
            )
      ]

  Step-IsServed : (s s' : System) → IsServed s → Step s s' → IsServed s'
  unfolding fulfill mark_dirty
  Step-IsServed s s' served
        (fetches requested requested' chunk_out chunk_out' batch_size {request} {inner'} h) =
      let (event_is, pending_is) =
        gather_lem s.inner inner' s.next_event requested requested' chunk_out chunk_out' batch_size
          request h in
      record {
        fetched = λ k event pending.
            elim (get-mark_pending s.next_event request.batch_keys s.inner.pending_chunks k event
              (sym (ap (get k) pending_is) ∙ pending)) [
                | inl m ↦ inl (event_is ∙ m.1, m.0)
                | inr old ↦ inr (served.fetched k event old)
              ];
        counted = λ event. ground (arith, event_is, served.counted event);
      }
  Step-IsServed s s' served (fulfills before after request chunks {inner'} {closed'} split h) =
      let (same, run, closed_is) = fulfill_lem request chunks s.inner inner' s.closed closed' h in
      record {
        fetched = λ k event pending.
            let (out, there) =
              fulfill_loop-pending request.batch_keys chunks s.inner inner' same run k event
                pending in
            IsFetched-remove k event before after request out
              (subst (IsFetched k event) split (served.fetched k event there));
        counted = λ event.
            let moved : uses event (before ++ after) + times event closed'
                ≡ uses event s.under_way + times event s.closed =
              omega (
                arith,
                uses-append event before after,
                uses-append event before (request ∷ after),
                ap (uses event) split,
                ap (times event) closed_is,
                uses-times event request after s.closed,
              ) in
            moved ∙ served.counted event;
      }
  Step-IsServed s s' served marks = record { fetched = served.fetched; counted = served.counted }

  -- In every state that the cache reaches as batches are handed out, requests are fulfilled and
  -- the cache is marked as changed, every key that is pending is fetched by a request under way
  -- that has the event of the key; and every event that was handed out is either closed, exactly
  -- once, and then no request under way has it, or is that of exactly one request under way and
  -- is not closed; no other event is closed or in use.
  pub Reachable-IsServed : (max_size : ℕ) (s : System) → Reachable max_size s → IsServed s
  unfolding new get
  Reachable-IsServed max_size s starts = record {
    fetched = λ k event h. cc;
    counted = λ event. ground arith;
  }
  Reachable-IsServed max_size s (steps {s = s0} reached step) =
      Step-IsServed s0 s (Reachable-IsServed max_size s0 reached) step
