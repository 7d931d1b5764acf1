-- ===== src/Proxy/ClientProxy/Around.antt =====
-- What may be around the task of a client: other tasks that leave the cache alone, and others that
-- fetch the chunk of the world as well.
use factorio_multiplayer_cac.Common.{
  ℕ, ◌≡◌, refl, sym, ap, true, some, List, [], ◌∷◌, arith, inl, inr,
}
use mathlib.Core.Path.{subst}
use factorio_multiplayer_cac.Common.HashMap.{get, bytes_eq, bytes_key}
use factorio_multiplayer_cac.Crates.Content.{length_hash}
use factorio_multiplayer_cac.Crates.LinkedMap.{list_map}
use factorio_multiplayer_cac.Crates.Stream.{plain_io}
use factorio_multiplayer_cac.ChunkCache.{RawChunkCache, ChunkCacheInner, get_raw}
use factorio_multiplayer_cac.ChunkCache.Honest.{IsHonest}
use factorio_multiplayer_cac.ChunkCache.Waiting.{IsIn}
use factorio_multiplayer_cac.Dedup.{ChunkKey}
use factorio_multiplayer_cac.Proxy.ClientProxy.Transfer.{Surroundings}
use factorio_multiplayer_cac.Proxy.ClientProxy.Exchange.{answered_by}
use factorio_multiplayer_cac.Proxy.ClientProxy.Work.{AreFair}
use factorio_multiplayer_cac.Proxy.ClientProxy.Sample.{codes, key, original}

-- The cache with the chunk of the world.
abbrev pub fetched : RawChunkCache list_map
fetched = record { chunks = (key, 1 ∷ 2 ∷ []) ∷ []; total_size = 2; max_size = 5000 }

abbrev pub around_with :
    (ChunkCacheInner list_map → ChunkCacheInner list_map) → Surroundings list_map
around_with others = record {
  others = λ n. others;
  waited = λ n inner. record inner { raw_cache = fetched };
  is_open = λ n. true;
  exchange = answered_by plain_io codes original;
  is_eof = true;
}

abbrev pub alone : Surroundings list_map
alone = around_with (λ inner. inner)

-- The chunk is always on its way for another task.
abbrev pub busy : Surroundings list_map
busy = around_with (λ inner. record inner { pending_chunks = (key, 9) ∷ [] })

fetched-IsHonest : IsHonest list_map (key ∷ []) original 5000 fetched
unfolding get bytes_eq
fetched-IsHonest = record {
  counted = record { counted = refl; distinct = (refl, tt); bounded = omega arith };
  limit = refl;
  originals = (λ m. refl, tt);
}

fetched-brings :
    (k : ChunkKey) → IsIn k (key ∷ []) → (c : List ℕ) × (get_raw list_map fetched k ≡ some c)
unfolding get_raw get bytes_eq
fetched-brings k (inl e) = (1 ∷ 2 ∷ [], sym (ap (get_raw list_map fetched) e))
fetched-brings k (inr m) = absurd m

around_with-AreFair :
    (others : ChunkCacheInner list_map → ChunkCacheInner list_map)
    → ((inner : ChunkCacheInner list_map) → inner.raw_cache ≡ (others inner).raw_cache)
    → AreFair length_hash list_map (key ∷ []) original 5000 (around_with others)
around_with-AreFair others same = record {
  stays_honest = λ n inner h. subst (IsHonest list_map (key ∷ []) original 5000) (same inner) h;
  waits_honest = λ n inner h. fetched-IsHonest;
  brings = λ n inner k event h m pending. fetched-brings k m;
}

pub alone-AreFair : AreFair length_hash list_map (key ∷ []) original 5000 alone
alone-AreFair = around_with-AreFair (λ inner. inner) (λ inner. refl)

pub busy-AreFair : AreFair length_hash list_map (key ∷ []) original 5000 busy
busy-AreFair =
    around_with-AreFair (λ inner. record inner { pending_chunks = (key, 9) ∷ [] }) (λ inner. refl)
