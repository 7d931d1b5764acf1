-- ===== src/Chunker/Runs.antt =====
-- src/chunker.rs: an input that is cut at the greatest size.
use factorio_multiplayer_cac.Common.{
  ℕ, ◌≡◌, refl, List, [], ◌∷◌, ◌++◌, concat, replicate, some, ◌%◌, u32_mod, arith,
}
use factorio_multiplayer_cac.Chunker.{new, update, new_hash, next, scan, reset, collect}
use factorio_multiplayer_cac.Chunker.Split.{chunks_of, chunks_of_lem, IsCut}
use factorio_multiplayer_cac.Chunker.Rolling.{feed, trail, polynomial, hash-feed}
use factorio_multiplayer_cac.Chunker.Local.{chunks_of_local}

abbrev sevens : List ℕ
sevens = replicate 4100 7

chunks_of-sevens : chunks_of sevens ≡ some (replicate 4096 7 ∷ replicate 4 7 ∷ [])
unfolding chunks_of collect next scan reset new new_hash update
chunks_of-sevens = refl

chunks_of-short : chunks_of (1 ∷ 2 ∷ 3 ∷ []) ≡ some ((1 ∷ 2 ∷ 3 ∷ []) ∷ [])
unfolding chunks_of collect next scan reset new new_hash update
chunks_of-short = refl

chunks_of_local_example :
    chunks_of (concat (replicate 4096 7 ∷ []) ++ 1 ∷ 2 ∷ 3 ∷ [])
    ≡ some ((replicate 4096 7 ∷ []) ++ (1 ∷ 2 ∷ 3 ∷ []) ∷ [])
chunks_of_local_example =
    chunks_of_local sevens (1 ∷ 2 ∷ 3 ∷ []) (replicate 4096 7 ∷ []) ((1 ∷ 2 ∷ 3 ∷ []) ∷ [])
      (replicate 4 7) chunks_of-sevens chunks_of-short

chunks_of_lem_example :
    (cs : List (List ℕ)) × (chunks_of sevens ≡ some cs) × (concat cs ≡ sevens) × IsCut cs
chunks_of_lem_example = chunks_of_lem sevens

hash-feed_example :
    (feed new_hash ((5 ∷ 6 ∷ []) ++ replicate 32 9)).hash
    ≡ polynomial (trail [] (replicate 32 9)) % u32_mod
hash-feed_example = hash-feed (5 ∷ 6 ∷ []) (replicate 32 9) (omega arith) refl
