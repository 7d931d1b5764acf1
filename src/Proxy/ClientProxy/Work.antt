-- ===== src/Proxy/ClientProxy/Work.antt =====
-- What the task of a client keeps while it rebuilds a world from the cache and the server's chunks.
use factorio_multiplayer_cac.Common.{
  ℕ, ◌+◌, ◌≡◌, refl, sym, ap, ◌∙◌, true, some, List, [], ◌∷◌, length, IsU64, ◌⊎◌, inl, inr,
}
use factorio_multiplayer_cac.Common.HashMap.{
  get, insert, get-insert_self, get-insert_found, get-insert-eq-some, bytes_key, bytes_eq,
  bytes_eq_iff,
}
use factorio_multiplayer_cac.Crates.Content.{Blake3}
use factorio_multiplayer_cac.Crates.LinkedMap.{LinkedHashMap}
use factorio_multiplayer_cac.ChunkCache.{ChunkCacheInner, get_raw}
use factorio_multiplayer_cac.ChunkCache.Waiting.{IsIn}
use factorio_multiplayer_cac.ChunkCache.Honest.{IsHonest, AreFound}
use factorio_multiplayer_cac.Dedup.{ChunkKey, ok}
use factorio_multiplayer_cac.Dedup.Chunks.{ChunkMap}
use factorio_multiplayer_cac.Proxy.ServerProxy.Transfer.{find_chunks}
use factorio_multiplayer_cac.Proxy.ClientProxy.Transfer.{TransferState, Surroundings, accept_loop}

module _ (blake3 : Blake3) (lib : LinkedHashMap) (keys : List ChunkKey) (original : ChunkMap)
    (max_size : ℕ) where
  -- The other proxy has a chunk for each key of the world, which is its hash; the cache can count
  -- it.
  abbrev pub IsWorld : Type 0
  IsWorld =
      (k : ChunkKey)
      → IsIn k keys
      → (c : List ℕ) × (get k original ≡ some c) × (blake3.hash c ≡ k) × IsU64 (max_size + length c)

  abbrev pub Agrees : ChunkMap → Type 0
  Agrees local = (k c : List ℕ) → IsIn k keys → get k local ≡ some c → get k original ≡ some c

  abbrev pub IsAtHand : ChunkMap → ChunkKey → Type 0
  IsAtHand local k = (c : List ℕ) × (get k local ≡ some c)

  pub batch-AreFound :
      IsWorld
      → (js : List ChunkKey) → ((k : ChunkKey) → IsIn k js → IsIn k keys)
      → (cs : List (List ℕ)) × AreFound lib keys original max_size js cs
        × (find_chunks js original ≡ ok cs)
  unfolding find_chunks
  batch-AreFound world [] members = ([], tt, refl)
  batch-AreFound world (j ∷ js) members =
      let (c, there, hashed, fits) = world j (members j (inl refl)) in
      let (cs, found, run) = batch-AreFound world js (λ k m. members k (inr m)) in
      (c ∷ cs, ((there, fits), found), rw (there, run) refl)

  -- What comes of the response: it is accepted, and its keys are at hand.
  pub accept_loop_lem :
      (js : List ChunkKey) (cs : List (List ℕ)) (local : ChunkMap)
      → IsWorld
      → ((k : ChunkKey) → IsIn k js → IsIn k keys)
      → AreFound lib keys original max_size js cs
      → Agrees local
      → (local' : ChunkMap) × (accept_loop blake3 js cs local ≡ ok local')
        × Agrees local'
        × ((k : ChunkKey) → IsIn k js ⊎ IsAtHand local k → IsAtHand local' k)
  unfolding accept_loop
  accept_loop_lem [] [] local world members found agrees =
      (local, refl, agrees, λ k m. elim m [ inl h ↦ absurd h | inr h ↦ h ])
  accept_loop_lem (j ∷ js) (c ∷ cs) local world members found agrees =
      let (c0, there, hashed, fits) = world j (members j (inl refl)) in
      let same : c0 ≡ c = cc (there, found.0.0) in
      let hash_is : bytes_eq (blake3.hash c) j ≡ true =
        (bytes_eq_iff (blake3.hash c) j).1 (sym (ap blake3.hash same) ∙ hashed) in
      let next : ChunkMap = insert j c local in
      let (local', run, agrees', at_hand) =
        accept_loop_lem js cs next world (λ k m. members k (inr m)) found.1
          (λ k d m h. elim (get-insert-eq-some j k c local d h) [
            | inl new ↦ sym (ap (λ k. get k original) new.0) ∙ found.0.0 ∙ ap some new.1
            | inr old ↦ agrees k d m old
          ]) in
      (
        local',
        rw hash_is run,
        agrees',
        λ k m. elim m [
          | inl (inl e) ↦
              at_hand k (inr (c, sym (ap (λ k. get k next) e) ∙ get-insert_self j c local))
          | inl (inr later) ↦ at_hand k (inl later)
          | inr (d, h) ↦ at_hand k (inr (get-insert_found j k c local d h))
        ],
      )
  accept_loop_lem [] (c ∷ cs) local world members found agrees = absurd found
  accept_loop_lem (j ∷ js) [] local world members found agrees = absurd found

  -- The state of the task between two steps.
  pub record IsAtWork (s : TransferState lib) : Type 0 where
    pub covered : (k : ChunkKey) → IsIn k keys → IsIn k s.all_chunks ⊎ IsAtHand s.local_cache k
    pub requested : (k : ChunkKey) → IsIn k s.all_chunks → IsIn k keys
    pub agrees : Agrees s.local_cache
    pub honest : IsHonest lib keys original max_size s.cache.raw_cache
    pub all_read : s.unread ≡ []

  -- Other tasks change the cache and fetch chunks for themselves, but leave it honest; and when this
  -- task has waited for chunks of the world that others fetch, these are in the cache.
  pub record AreFair (around : Surroundings lib) : Type 0 where
    pub stays_honest :
        (n : ℕ) (inner : ChunkCacheInner lib)
        → IsHonest lib keys original max_size inner.raw_cache
        → IsHonest lib keys original max_size (around.others n inner).raw_cache
    pub waits_honest :
        (n : ℕ) (inner : ChunkCacheInner lib)
        → IsHonest lib keys original max_size inner.raw_cache
        → IsHonest lib keys original max_size (around.waited n inner).raw_cache
    pub brings :
        (n : ℕ) (inner : ChunkCacheInner lib) (k : ChunkKey) (event : ℕ)
        → IsHonest lib keys original max_size inner.raw_cache
        → IsIn k keys
        → get k inner.pending_chunks ≡ some event
        → (c : List ℕ) × (get_raw lib (around.waited n inner).raw_cache k ≡ some c)
