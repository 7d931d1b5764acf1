-- ===== src/Proxy/ClientProxy/Fetch.antt =====
-- A round of the task that lacks a chunk: it returns, and fewer keys are wanted.
use factorio_multiplayer_cac.Common.{
  ℕ, suc, ◌≤◌, ◌<◌, ◌≡◌, refl, sym, ap, ◌∙◌, none, some, List, [], ◌∷◌, ◌++◌, append-nil, length,
  map, arith, ◌⊎◌, inl, inr,
}
use mathlib.Core.Path.{subst}
use factorio_multiplayer_cac.Common.HashMap.{HashMap, get, bytes_key}
use factorio_multiplayer_cac.Crates.Content.{Blake3}
use factorio_multiplayer_cac.Crates.LinkedMap.{LinkedHashMap}
use factorio_multiplayer_cac.Crates.Stream.{Io}
use factorio_multiplayer_cac.ChunkCache.{
  ChunkCacheInner, BatchChunkRequest, Batching, done, wait, gather, first_pass, mark_pending,
}
use factorio_multiplayer_cac.ChunkCache.Waiting.{IsIn}
use factorio_multiplayer_cac.ChunkCache.Batches.{IsPassed, first_pass_lem}
use factorio_multiplayer_cac.ChunkCache.Progress.{
  IsSound, first_pass-IsSound, IsPending, gather-IsGathered, collect_waited_lem, no_batch,
}
use factorio_multiplayer_cac.ChunkCache.Honest.{IsHonest, get_raw-IsHonest, fulfill-IsHonest}
use factorio_multiplayer_cac.Dedup.{ChunkKey, Outcome, ok, panic}
use factorio_multiplayer_cac.Dedup.Chunks.{ChunkMap}
use factorio_multiplayer_cac.Protocol.{Codes, read_message}
use factorio_multiplayer_cac.Protocol.Messages.{frame, write_message_lem, read_message_lem}
use factorio_multiplayer_cac.Proxy.ClientProxy.Transfer.{
  TransferState, Surroundings, lock, after_gather, get_chunks_batched, fetch_batch, fetch_round,
  fetch_more,
}
use factorio_multiplayer_cac.Proxy.ClientProxy.Exchange.{
  answered_by, IsCarried, encode_message_lem, answered_by_lem,
}
use factorio_multiplayer_cac.Proxy.ClientProxy.Work.{
  IsWorld, Agrees, IsAtHand, batch-AreFound, accept_loop_lem, IsAtWork, AreFair,
}

module _ (blake3 : Blake3) (lib : LinkedHashMap) (keys : List ChunkKey) (original : ChunkMap)
    (max_size : ℕ) (io : Io) (codes : Codes) (around : Surroundings lib)
    (world : IsWorld blake3 lib keys original max_size)
    (fair : AreFair blake3 lib keys original max_size around)
    (answered : (written : List ℕ)
      → around.exchange written ≡ answered_by io codes original written)
    (carried : (js : List ChunkKey)
      → length js ≤ 512
      → ((k : ChunkKey) → IsIn k js → IsIn k keys)
      → IsCarried codes original js) where
  -- The work goes on: the state is in order, and the reconstructor and the blocks are the same.
  pub record GoesOn (s s' : TransferState lib) : Type 0 where
    pub at_work : IsAtWork blake3 lib keys original max_size s'
    pub same_reconstructor : s'.world_reconstructor ≡ s.world_reconstructor
    pub same_blocks : s'.blocks ≡ s.blocks

  -- A batch that was handed out, with what is at hand but for its keys.
  record IsAsked (js : List ChunkKey) (s : TransferState lib) : Type 0 where
    pub small : length js ≤ 512
    pub members : (k : ChunkKey) → IsIn k js → IsIn k keys
    pub covered :
        (k : ChunkKey)
        → IsIn k keys
        → IsIn k s.all_chunks
          ⊎ (IsIn k js ⊎ IsAtHand blake3 lib keys original max_size s.local_cache k)
    pub requested : (k : ChunkKey) → IsIn k s.all_chunks → IsIn k keys
    pub agrees : Agrees blake3 lib keys original max_size s.local_cache
    pub honest : IsHonest lib keys original max_size s.cache.raw_cache
    pub all_read : s.unread ≡ []

  fetch_batch_lem :
      (event : ℕ) (js : List ChunkKey) (s : TransferState lib)
      → IsAsked js s
      → (s' : TransferState lib) × (fetch_batch lib around blake3 io codes
            (record { event = event; batch_keys = js })
            s
          ≡ ok s')
        × GoesOn s s'
        × (s'.all_chunks ≡ s.all_chunks)
  unfolding fetch_batch lock
  fetch_batch_lem event js s asked =
      let (request_written, response_written) = carried js asked.small asked.members in
      let (request_data, encoded, decoded, small) =
        encode_message_lem codes original codes.request_chunks (record { requested_chunks = js })
          request_written in
      let (cs, found, run) =
        batch-AreFound blake3 lib keys original max_size world js asked.members in
      let (response_data, answer, read_back, fits) =
        answered_by_lem codes original io js cs request_data decoded small run
          (response_written cs run) in
      let (local', accepted, agrees, at_hand) =
        accept_loop_lem blake3 lib keys original max_size js cs s.local_cache world asked.members
          found asked.agrees in
      let (inner', brought, honest) =
        fulfill-IsHonest lib keys original max_size event js cs (lock lib around s) s.closed found
          (fair.stays_honest s.locks s.cache asked.honest) in
      let received : read_message io (s.unread ++ around.exchange (frame io request_data))
          ≡ ok (response_data, []) =
        ap (read_message io) (
          (λ i. asked.all_read i ++ (answered (frame io request_data) ∙ answer) i)
          ∙ sym (append-nil (frame io response_data)))
        ∙ read_message_lem io response_data [] fits in
      let s' : TransferState lib = record s {
        local_cache = local';
        cache = inner';
        closed = event ∷ s.closed;
        locks = suc s.locks;
        unread = [];
      } in
      (
        s',
        rw
            (
              fetch_batch,
              encoded,
              write_message_lem io [] request_data small,
              received,
              read_back,
              accepted,
              brought,
            )
            refl,
        record {
          at_work = record {
            covered = λ k m. elim (asked.covered k m) [
              | inl wanted ↦ inl wanted
              | inr other ↦ inr (at_hand k other)
            ];
            requested = asked.requested;
            agrees = agrees;
            honest = honest;
            all_read = refl;
          };
          same_reconstructor = refl;
          same_blocks = refl;
        },
        refl,
      )

  -- What the first pass of the call leaves, as a batch that was handed out.
  passed-IsAsked :
      (s s' : TransferState lib)
      → IsAtWork blake3 lib keys original max_size s
      → let (kept, b) =
          first_pass lib (lock lib around s) 512 s.all_chunks (no_batch lib s.local_cache) in
        s'.all_chunks ≡ kept
        → s'.local_cache ≡ b.chunk_out
        → s'.cache.raw_cache ≡ (lock lib around s).raw_cache
        → s'.unread ≡ s.unread
        → IsAsked b.batch s'
  unfolding lock
  passed-IsAsked s s' work kept_is out_is raw_is unread_is =
      let inner : ChunkCacheInner lib = lock lib around s in
      let start : Batching = no_batch lib s.local_cache in
      let (kept, b) = first_pass lib inner 512 s.all_chunks start in
      let p : IsPassed lib inner 512 s.all_chunks kept start b =
        first_pass_lem lib inner 512 s.all_chunks start in
      let sound : IsSound lib inner s.all_chunks kept start b =
        first_pass-IsSound lib inner 512 s.all_chunks start in
      let honest : IsHonest lib keys original max_size inner.raw_cache =
        fair.stays_honest s.locks s.cache work.honest in
      record {
        small = p.size (omega arith);
        members =
            λ k m. elim (p.wanted k m) [ inl old ↦ absurd old | inr new ↦ work.requested k new.0 ];
        covered = λ k m. elim (work.covered k m) [
          | inl wanted ↦ elim (p.handled k wanted) [
            | inl later ↦ inl (subst (IsIn k) (sym kept_is) later)
            | inr (inl batched) ↦ inr (inl batched)
            | inr (inr (c, raw, out)) ↦ inr (inr (c, ap (get k) out_is ∙ out))
          ]
          | inr (c, there) ↦
              let (c', kept_there) = sound.keeps k c there in
              inr (inr (c', ap (get k) out_is ∙ kept_there))
        ];
        requested = λ k m. work.requested k (sound.requested k (subst (IsIn k) kept_is m));
        agrees = λ k c m h. elim (sound.from_cache k c (sym (ap (get k) out_is) ∙ h)) [
          | inl old ↦ work.agrees k c m old
          | inr raw ↦ get_raw-IsHonest lib keys original max_size inner.raw_cache k c honest m raw
        ];
        honest = subst (IsHonest lib keys original max_size) (sym raw_is) honest;
        all_read = unread_is ∙ work.all_read;
      }

  -- With no batch and no key left for later, what was waited for is at hand.
  IsAsked-waited :
      (s s' : TransferState lib) (requests : HashMap ChunkKey ℕ)
      → IsAsked [] s
      → map (λ (q : ChunkKey × ℕ). q.0) requests ≡ s.all_chunks
      → ((k : ChunkKey)
          → IsIn k (map (λ (q : ChunkKey × ℕ). q.0) requests)
            ⊎ ((c : List ℕ) × (get k s.local_cache ≡ some c))
          → (c : List ℕ) × (get k s'.local_cache ≡ some c))
      → Agrees blake3 lib keys original max_size s'.local_cache
      → IsHonest lib keys original max_size s'.cache.raw_cache
      → s'.all_chunks ≡ []
      → s'.unread ≡ []
      → IsAtWork blake3 lib keys original max_size s'
  IsAsked-waited s s' requests asked keys_are at_hand agrees honest none_left all_read = record {
    covered = λ k m. elim (asked.covered k m) [
      | inl kept ↦ inr (at_hand k (inl (subst (IsIn k) (sym keys_are) kept)))
      | inr (inl none_batched) ↦ absurd none_batched
      | inr (inr there) ↦ inr (at_hand k (inr there))
    ];
    requested = λ k m. absurd (subst (IsIn k) none_left m);
    agrees = agrees;
    honest = honest;
    all_read = all_read;
  }

  fetch_more-cons :
      (key : ChunkKey) (rest : List ChunkKey) (s : TransferState lib)
      → s.all_chunks ≡ key ∷ rest
      → fetch_more lib around blake3 io codes s ≡ fetch_round lib around blake3 io codes s
  unfolding fetch_more
  fetch_more-cons key rest s wants =
      ap
        (λ (ks : List ChunkKey). elim ks as (λ k. Outcome (TransferState lib)) [
          | [] ↦ panic
          | _ ∷ _ ↦ fetch_round lib around blake3 io codes s
        ])
        wants

  got_after_gather :
      (s : TransferState lib)
      → get_chunks_batched lib around s
        ≡ after_gather lib around s
            (gather lib (lock lib around s) s.next_event s.all_chunks s.local_cache 512)
  unfolding get_chunks_batched
  got_after_gather s = refl

  -- How a call ends that hands out no batch: no key is left for later, and the work goes on.
  no_batch_lem :
      (s : TransferState lib)
      → IsAtWork blake3 lib keys original max_size s
      → let (kept, b) =
          first_pass lib (lock lib around s) 512 s.all_chunks (no_batch lib s.local_cache) in
        b.batch ≡ []
        → (requests : HashMap ChunkKey ℕ) → map (λ (q : ChunkKey × ℕ). q.0) requests ≡ kept
        → ((k : ChunkKey) → IsIn k kept → IsPending lib (lock lib around s) k)
        → let r = gather lib (lock lib around s) s.next_event s.all_chunks s.local_cache 512 in
          ((requests ≡ []) × (r ≡ (done, [], b.chunk_out, lock lib around s)))
            ⊎ (r ≡ (wait requests, [], b.chunk_out, lock lib around s))
          → (s' : TransferState lib) × (get_chunks_batched lib around s ≡ ok (none, s'))
            × GoesOn s s'
            × (s'.all_chunks ≡ [])
  unfolding after_gather
  no_batch_lem s work empty requests keys_are pending ends =
      let inner : ChunkCacheInner lib = lock lib around s in
      let (kept, b) = first_pass lib inner 512 s.all_chunks (no_batch lib s.local_cache) in
      let s1 : TransferState lib = record s {
        all_chunks = kept;
        local_cache = b.chunk_out;
        cache = inner;
        locks = suc s.locks;
      } in
      let asked : IsAsked [] s1 =
        subst (λ js. IsAsked js s1) empty (passed-IsAsked s s1 work refl refl refl refl) in
      elim ends [
        | inl (none_waited, run) ↦
            let s' : TransferState lib = record s1 { all_chunks = [] } in
            let kept_is : [] ≡ kept =
              sym (ap (map (λ (q : ChunkKey × ℕ). q.0)) none_waited) ∙ keys_are in
            (
              s',
              got_after_gather s ∙ ap (after_gather lib around s) run,
              record {
                at_work =
                    IsAsked-waited s1 s' [] asked kept_is
                      (λ k m. elim m [ inl none_left ↦ absurd none_left | inr there ↦ there ])
                      asked.agrees asked.honest refl asked.all_read;
                same_reconstructor = refl;
                same_blocks = refl;
              },
              refl,
            )
        | inr run ↦
            let inner' : ChunkCacheInner lib = around.waited (suc s.locks) inner in
            let (out, collected, from, at_hand) =
              collect_waited_lem lib inner'.raw_cache requests b.chunk_out (λ k m.
                let kept_k : IsIn k kept = subst (IsIn k) keys_are m in
                let (event, there) = pending k kept_k in
                fair.brings (suc s.locks) inner k event asked.honest (asked.requested k kept_k)
                  there) in
            let honest : IsHonest lib keys original max_size inner'.raw_cache =
              fair.waits_honest (suc s.locks) inner asked.honest in
            let s' : TransferState lib = record s {
              all_chunks = [];
              local_cache = out;
              cache = inner';
              locks = suc (suc s.locks);
            } in
            (
              s',
              got_after_gather s ∙ ap (after_gather lib around s) run ∙ rw collected refl,
              record {
                at_work =
                    IsAsked-waited s1 s' requests asked keys_are at_hand
                      (λ k c m h. elim (from k c h) [
                        | inl old ↦ asked.agrees k c m old
                        | inr raw ↦
                            get_raw-IsHonest lib keys original max_size inner'.raw_cache k c honest
                              m raw
                      ])
                      honest refl asked.all_read;
                same_reconstructor = refl;
                same_blocks = refl;
              },
              refl,
            )
      ]

  pub fetch_more_lem :
      (key : ChunkKey) (rest : List ChunkKey) (s : TransferState lib)
      → s.all_chunks ≡ key ∷ rest
      → IsAtWork blake3 lib keys original max_size s
      → (s' : TransferState lib) × (fetch_more lib around blake3 io codes s ≡ ok s')
        × GoesOn s s'
        × (length s'.all_chunks < length s.all_chunks)
  unfolding fetch_round after_gather
  fetch_more_lem key rest s wants work =
      let inner : ChunkCacheInner lib = lock lib around s in
      let start : Batching = no_batch lib s.local_cache in
      let (kept, b) = first_pass lib inner 512 s.all_chunks start in
      let sound : IsSound lib inner s.all_chunks kept start b =
        first_pass-IsSound lib inner 512 s.all_chunks start in
      let size : length s.all_chunks ≡ suc (length rest) = ap (length {A = ChunkKey}) wants in
      let more = fetch_more-cons key rest s wants in
      elim (gather-IsGathered lib inner s.next_event s.all_chunks s.local_cache 512 (omega arith)) [
        | inr (empty, (requests, keys_are, pending, ends)) ↦
            let (s', got, goes_on, none_left) =
              no_batch_lem s work empty requests keys_are pending ends in
            (
              s',
              more ∙ rw (fetch_round, got) refl,
              goes_on,
              omega (arith, size, ap (length {A = ChunkKey}) none_left),
            )
        | inl (some_batched, run) ↦
            let s' : TransferState lib = record s {
              all_chunks = kept;
              local_cache = b.chunk_out;
              cache = record inner {
                pending_chunks = mark_pending s.next_event b.batch inner.pending_chunks;
              };
              next_event = suc s.next_event;
              locks = suc s.locks;
            } in
            let asked : IsAsked b.batch s' = passed-IsAsked s s' work refl refl refl refl in
            let request : BatchChunkRequest = record {
              event = s.next_event;
              batch_keys = b.batch;
            } in
            let got : get_chunks_batched lib around s ≡ ok (some request, s') =
              got_after_gather s ∙ ap (after_gather lib around s) run in
            let (s'', run', goes_on, same_keys) = fetch_batch_lem s.next_event b.batch s' asked in
            (
              s'',
              more ∙ rw (fetch_round, got) run',
              record {
                at_work = goes_on.at_work;
                same_reconstructor = goes_on.same_reconstructor;
                same_blocks = goes_on.same_blocks;
              },
              omega (arith, sound.fewer, some_batched, ap (length {A = ChunkKey}) same_keys),
            )
      ]
