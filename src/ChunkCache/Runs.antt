-- ===== src/ChunkCache/Runs.antt =====
-- src/chunk_cache.rs: a cache of ten bytes, and a task that fetches.
use factorio_multiplayer_cac.Common.{
  ℕ, ◌≤◌, ◌<◌, ◌≡◌, ◌⊎◌, refl, List, [], ◌∷◌, some, none, true, false, arith, to_le_bytes,
}
use factorio_multiplayer_cac.Common.HashMap.{get, insert, remove, contains_key, bytes_eq}
use factorio_multiplayer_cac.Crates.Content.{length_hash}
use factorio_multiplayer_cac.Crates.Codec.{plain_zstd}
use factorio_multiplayer_cac.Crates.LinkedMap.{list_map}
use factorio_multiplayer_cac.Dedup.{ChunkKey, ok, err}
use factorio_multiplayer_cac.ChunkCache.{
  fulfill, fulfill_loop, evict, size_without, RawChunkCache, ChunkCacheInner, BatchChunkRequest,
  fetch, new, insert_raw, get_raw, gather,
}
use factorio_multiplayer_cac.ChunkCache.Eviction.{
  IsCache, IsEvicted, entries_of, with_newest, insert_raw-IsEvicted,
}
use factorio_multiplayer_cac.ChunkCache.Lookup.{insert_raw-get_raw}
use factorio_multiplayer_cac.ChunkCache.Waiting.{
  fulfills, IsIn, System, Reachable, starts, steps, fetches, IsServed, Reachable-IsServed,
}
use factorio_multiplayer_cac.ChunkCache.Batches.{IsAbsent, IsHandled, gather-IsBatch}
use factorio_multiplayer_cac.ChunkCache.File.{Disk, try_save, load_from_file}
use factorio_multiplayer_cac.ChunkCache.Saved.{IsSavable, IsReloaded, load_from_file-try_save}
use factorio_multiplayer_cac.ChunkCache.Damaged.{IsSound, load_from_file-IsSound}

abbrev cache : RawChunkCache list_map
cache = record {
  chunks = (1 ∷ [], 1 ∷ 2 ∷ 3 ∷ 4 ∷ []) ∷ (2 ∷ [], 5 ∷ 6 ∷ 7 ∷ 8 ∷ []) ∷ [];
  total_size = 8;
  max_size = 10;
}

cache-IsCache : IsCache list_map cache
unfolding get bytes_eq
cache-IsCache = record { counted = refl; distinct = (refl, (refl, tt)); bounded = omega arith }

insert_raw-IsEvicted_example :
    (n : ℕ) × (self' : RawChunkCache list_map) × (insert_raw list_map cache
        (3 ∷ [])
        (9 ∷ 9 ∷ 9 ∷ [])
      ≡ some self')
    × IsEvicted list_map (with_newest list_map cache (3 ∷ []) (9 ∷ 9 ∷ 9 ∷ [])) 10 n self'
    × IsCache list_map self'
insert_raw-IsEvicted_example =
    insert_raw-IsEvicted list_map cache (3 ∷ []) (9 ∷ 9 ∷ 9 ∷ []) cache-IsCache (omega arith)

insert_raw-get_raw_example :
    (self' : RawChunkCache list_map) × (insert_raw list_map cache (3 ∷ []) (9 ∷ 9 ∷ 9 ∷ [])
      ≡ some self')
    × (3 ≤ 10 → get_raw list_map self' (3 ∷ []) ≡ some (9 ∷ 9 ∷ 9 ∷ []))
    × (10 < 3 → entries_of list_map self' ≡ [])
insert_raw-get_raw_example =
    insert_raw-get_raw list_map cache (3 ∷ []) (9 ∷ 9 ∷ 9 ∷ []) cache-IsCache (omega arith)

-- One chunk is in the cache, one is fetched by another task, and of the rest one is over the limit.
abbrev inner : ChunkCacheInner list_map
inner = record { raw_cache = cache; pending_chunks = (5 ∷ [], 0) ∷ []; needs_saving = false }

abbrev inner' : ChunkCacheInner list_map
inner' = record {
  raw_cache = cache;
  pending_chunks = (5 ∷ [], 0) ∷ (6 ∷ [], 1) ∷ [];
  needs_saving = false;
}

abbrev keys : List ChunkKey
keys = (1 ∷ []) ∷ (5 ∷ []) ∷ (6 ∷ []) ∷ (7 ∷ []) ∷ []

abbrev request : BatchChunkRequest
request = record { event = 1; batch_keys = (6 ∷ []) ∷ [] }

gathers :
    gather list_map inner 1 keys [] 1
    ≡ (fetch request, (5 ∷ []) ∷ (7 ∷ []) ∷ [], (1 ∷ [], 1 ∷ 2 ∷ 3 ∷ 4 ∷ []) ∷ [], inner')
unfolding gather get bytes_eq contains_key insert
gathers = refl

gather-IsBatch_example :
    (1 ≤ 1)
    × ((k : ChunkKey) → IsIn k request.batch_keys → IsIn k keys × IsAbsent list_map inner k)
    × ((k : ChunkKey)
        → IsIn k keys
        → IsHandled list_map inner
            ((5 ∷ []) ∷ (7 ∷ []) ∷ [])
            request.batch_keys
            ((1 ∷ [], 1 ∷ 2 ∷ 3 ∷ 4 ∷ []) ∷ [])
            k)
gather-IsBatch_example =
    gather-IsBatch list_map inner inner' 1 keys ((5 ∷ []) ∷ (7 ∷ []) ∷ []) []
      ((1 ∷ [], 1 ∷ 2 ∷ 3 ∷ 4 ∷ []) ∷ []) 1 request gathers

-- A task that finds the cache empty fetches.
abbrev first_request : BatchChunkRequest
first_request = record { event = 0; batch_keys = (6 ∷ []) ∷ [] }

abbrev start : System list_map
start = record {
  inner = record {
    raw_cache = record { chunks = []; total_size = 0; max_size = 10 };
    pending_chunks = [];
    needs_saving = false;
  };
  under_way = [];
  next_event = 0;
  closed = [];
}

abbrev fetching : System list_map
fetching = record {
  inner = record {
    raw_cache = record { chunks = []; total_size = 0; max_size = 10 };
    pending_chunks = (6 ∷ [], 0) ∷ [];
    needs_saving = false;
  };
  under_way = first_request ∷ [];
  next_event = 1;
  closed = [];
}

start-Reachable : Reachable list_map 10 start
unfolding new
start-Reachable = starts

first_gathers :
    gather list_map start.inner 0 ((6 ∷ []) ∷ []) [] 4
    ≡ (fetch first_request, [], [], fetching.inner)
unfolding gather get bytes_eq contains_key insert
first_gathers = refl

fetching-Reachable : Reachable list_map 10 fetching
fetching-Reachable = steps {s = start} {s' = fetching} start-Reachable (
    fetches {s = start} ((6 ∷ []) ∷ []) [] [] [] 4 {request = first_request}
      {inner' = fetching.inner} first_gathers)

-- The request has brought its chunk.
abbrev fulfilled : System list_map
fulfilled = record {
  inner = record {
    raw_cache = record { chunks = (6 ∷ [], 4 ∷ []) ∷ []; total_size = 1; max_size = 10 };
    pending_chunks = [];
    needs_saving = false;
  };
  under_way = [];
  next_event = 1;
  closed = 0 ∷ [];
}

first_fulfills :
    fulfill list_map first_request ((4 ∷ []) ∷ []) fetching.inner []
    ≡ some (fulfilled.inner, fulfilled.closed)
unfolding fulfill fulfill_loop insert_raw evict size_without remove bytes_eq get
first_fulfills = refl

Reachable-IsServed_example : IsServed list_map fulfilled
Reachable-IsServed_example = Reachable-IsServed list_map 10 fulfilled (
    steps {s = fetching} {s' = fulfilled} fetching-Reachable (
      fulfills {s = fetching} [] [] first_request ((4 ∷ []) ∷ []) {inner' = fulfilled.inner}
        {closed' = fulfilled.closed} refl first_fulfills))

-- A cache with one chunk under its hash, saved and loaded again.
abbrev saved_raw : RawChunkCache list_map
saved_raw = record { chunks = (to_le_bytes 32 2, 1 ∷ 2 ∷ []) ∷ []; total_size = 2; max_size = 100 }

abbrev saved_inner : ChunkCacheInner list_map
saved_inner = record { raw_cache = saved_raw; pending_chunks = []; needs_saving = true }

abbrev empty_disk : Disk
empty_disk = record { cache_file = none; temp_file = none }

saved-IsSavable : IsSavable length_hash list_map plain_zstd saved_inner 200
unfolding get
saved-IsSavable = record {
  counted = record { counted = refl; distinct = (refl, tt); bounded = omega arith };
  storable = ((refl, omega arith), tt);
  count_fits = omega arith;
  room = omega arith;
  limit_fits = omega arith;
  changed = refl;
}

load_from_file-try_save_example :
    IsReloaded length_hash list_map plain_zstd saved_inner 200
      (try_save plain_zstd list_map saved_inner true true empty_disk)
load_from_file-try_save_example =
    load_from_file-try_save length_hash list_map plain_zstd saved_inner 200 empty_disk
      saved-IsSavable

-- A file that announces a chunk and lacks it.
load_from_file-IsSound_example :
    (load_from_file plain_zstd list_map length_hash 200 (some (1 ∷ 0 ∷ 0 ∷ 0 ∷ 9 ∷ [])) ≡ err)
    ⊎ ((inner : ChunkCacheInner list_map) × (load_from_file plain_zstd list_map length_hash 200
            (some (1 ∷ 0 ∷ 0 ∷ 0 ∷ 9 ∷ []))
          ≡ ok inner)
        × IsSound length_hash list_map plain_zstd 200 inner.raw_cache
        × (inner.pending_chunks ≡ [])
        × (inner.needs_saving ≡ false))
load_from_file-IsSound_example =
    load_from_file-IsSound length_hash list_map plain_zstd 200 (some (1 ∷ 0 ∷ 0 ∷ 0 ∷ 9 ∷ []))
      (omega arith)
