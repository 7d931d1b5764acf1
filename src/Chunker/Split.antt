-- ===== src/Chunker/Split.antt =====
-- The chunks of an input: nothing is lost, and the sizes keep their bounds.
use factorio_multiplayer_cac.Common.{
  ℕ, zero, suc, ◌+◌, ◌-◌, ◌≤◌, ◌<◌, ◌≡◌, refl, ap, ap₂, ◌∙◌, Option, some, List, [], ◌∷◌, ◌++◌,
  length, take, drop, min, concat, take-append-drop, take_of_length-le, ap₂, length-take,
  length-drop, length-append, length-set, replicate, arith,
}
use factorio_multiplayer_cac.Chunker.{
  RabinKarpHash, new, new_hash, update, reset, scan, next, collect, push_front, min_chunk_size,
  max_chunk_size,
}

-- The scan stops between where it began and the end of the input, at most at the greatest size.
pub scan_bounds :
    (h : RabinKarpHash) (size : ℕ) (rest : List ℕ)
    → size < max_chunk_size
    → (size ≤ (scan h size rest).1)
      × ((scan h size rest).1 ≤ size + length rest)
      × ((scan h size rest).1 ≤ max_chunk_size)
unfolding scan
scan_bounds h size [] lt = (omega arith, omega arith, omega arith)
scan_bounds h size (b ∷ rest) lt = ground (arith, scan_bounds (update h b) (size + 1) rest)

scan-window :
    (h : RabinKarpHash) (size : ℕ) (rest : List ℕ)
    → length (scan h size rest).0.window ≡ length h.window
unfolding scan
scan-window h size [] = refl
scan-window h size (b ∷ rest) =
    ground (arith, scan-window (update h b) (size + 1) rest, window-update h b)
  where
    window-update : (h : RabinKarpHash) (b : ℕ) → length (update h b).window ≡ length h.window
    window-update h b = unfold update in length-set h.window h.window_pos _

-- So the chunker always stands at a fresh hash.
reset-scan : (size : ℕ) (rest : List ℕ) → reset (scan new_hash size rest).0 ≡ new_hash
unfolding reset new_hash
reset-scan size rest =
    ap (λ n. record { hash = 0; window = replicate n 0; window_pos = 0 })
      (scan-window new_hash size rest)

-- The size of the chunk that `next` cuts from these bytes.
unfoldable pub cut : List ℕ → ℕ
cut bytes =
    let start = min min_chunk_size (length bytes) in (scan new_hash start (drop start bytes)).1

pub next_lem :
    (b : ℕ) (bs : List ℕ)
    → next (new (b ∷ bs)) ≡ some (take (cut (b ∷ bs)) (b ∷ bs), new (drop (cut (b ∷ bs)) (b ∷ bs)))
unfolding next cut new
next_lem b bs =
    ap
      (λ h. some (
        take (cut (b ∷ bs)) (b ∷ bs),
        record { rolling_hash = h; bytes = drop (cut (b ∷ bs)) (b ∷ bs) },
      ))
      (reset-scan (min min_chunk_size (length (b ∷ bs)))
        (drop (min min_chunk_size (length (b ∷ bs))) (b ∷ bs)))

pub collect_step :
    (fuel b : ℕ) (bs : List ℕ)
    → collect (suc fuel) (new (b ∷ bs))
      ≡ push_front
          (take (cut (b ∷ bs)) (b ∷ bs))
          (collect fuel (new (drop (cut (b ∷ bs)) (b ∷ bs))))
unfolding collect
collect_step fuel b bs = rw (next_lem b bs, collect)

pub collect_end : (fuel : ℕ) → collect (suc fuel) (new []) ≡ some []
unfolding collect next new
collect_end fuel = refl

pub cut_bounds :
    (b : ℕ) (bs : List ℕ)
    → let bytes = b ∷ bs in
      (1 ≤ cut bytes)
      × (cut bytes ≤ length bytes)
      × (cut bytes ≤ max_chunk_size)
      × (cut bytes < length bytes → min_chunk_size ≤ cut bytes)
unfolding cut
cut_bounds b bs =
    let start : ℕ = min min_chunk_size (length (b ∷ bs)) in
    let rest : List ℕ = drop start (b ∷ bs) in
    omega (arith, scan_bounds new_hash start rest (omega arith), length-drop start (b ∷ bs))

-- Every chunk but the last has the least size, and none passes the greatest.
abbrev pub IsCut : List (List ℕ) → Type 0
IsCut [] = Unit
IsCut (c ∷ []) = (1 ≤ length c) × (length c ≤ max_chunk_size)
IsCut (c ∷ d ∷ cs) = (min_chunk_size ≤ length c) × (length c ≤ max_chunk_size) × IsCut (d ∷ cs)

IsCut-head : (d : List ℕ) (cs : List (List ℕ)) → IsCut (d ∷ cs) → 1 ≤ length d
IsCut-head d [] h = omega arith
IsCut-head d (e ∷ cs) h = omega arith

IsCut-cons :
    (c : List ℕ) (cs : List (List ℕ)) (left : ℕ)
    → 1 ≤ length c
    → length c ≤ max_chunk_size
    → (0 < left → min_chunk_size ≤ length c)
    → length (concat cs) ≡ left
    → IsCut cs
    → IsCut (c ∷ cs)
IsCut-cons c [] left lo hi least e h = (lo, hi)
IsCut-cons c (d ∷ cs) left lo hi least e h =
    (least (omega (arith, length-append d (concat cs), IsCut-head d cs h)), hi, h)

-- With fuel beyond the length the loop ends; the chunks are the input, cut within the bounds.
pub collect_lem :
    (fuel : ℕ) (bytes : List ℕ)
    → length bytes < fuel
    → (cs : List (List ℕ)) × (collect fuel (new bytes) ≡ some cs) × (concat cs ≡ bytes) × IsCut cs
collect_lem zero bytes lt = absurd (omega arith)
collect_lem (suc fuel) [] lt = ([], collect_end fuel, refl, tt)
collect_lem (suc fuel) (b ∷ bs) lt =
    let bytes : List ℕ = b ∷ bs in
    let size : ℕ = cut bytes in
    let (positive, inside, most, least) = cut_bounds b bs in
    let rest_length = length-drop size bytes in
    let chunk_length : length (take size bytes) ≡ size = omega (arith, length-take size bytes) in
    let (cs, run, whole, sizes) = collect_lem fuel (drop size bytes) (omega (arith, rest_length)) in
    (
      take size bytes ∷ cs,
      collect_step fuel b bs ∙ ap (push_front (take size bytes)) run,
      ap (◌++◌ (take size bytes)) whole ∙ take-append-drop size bytes,
      IsCut-cons (take size bytes) cs (length bytes - size) (omega arith) (omega arith)
          (λ p. omega (arith, least (omega arith))) (ap (length {A = ℕ}) whole ∙ rest_length) sizes,
    )

-- All chunks of an input.
unfoldable pub chunks_of : List ℕ → Option (List (List ℕ))
chunks_of bytes = collect (suc (length bytes)) (new bytes)

-- Chunking ends on every input; joined, the chunks are the input, each has 1 to 4096 bytes, and
-- each but the last has 512 at least.
pub chunks_of_lem :
    (bytes : List ℕ)
    → (cs : List (List ℕ)) × (chunks_of bytes ≡ some cs) × (concat cs ≡ bytes) × IsCut cs
unfolding chunks_of
chunks_of_lem bytes = collect_lem (suc (length bytes)) bytes (omega arith)

drop_all : (bytes : List ℕ) → drop (length bytes) bytes ≡ []
drop_all [] = refl
drop_all (b ∷ bs) = drop_all bs

cut_small : (bytes : List ℕ) → length bytes ≤ min_chunk_size → cut bytes ≡ length bytes
unfolding cut scan
cut_small bytes h =
    let start : min min_chunk_size (length bytes) ≡ length bytes = omega arith in
    ap (λ n. (scan new_hash n (drop n bytes)).1) start
    ∙ ap (λ xs. (scan new_hash (length bytes) xs).1) (drop_all bytes)

-- An input of the least size or less is one chunk.
pub chunks_of_small :
    (b : ℕ) (bs : List ℕ)
    → length (b ∷ bs) ≤ min_chunk_size
    → chunks_of (b ∷ bs) ≡ some ((b ∷ bs) ∷ [])
unfolding chunks_of
chunks_of_small b bs h =
    let bytes : List ℕ = b ∷ bs in
    collect_step (length bytes) b bs
    ∙ ap (λ n. push_front (take n bytes) (collect (length bytes) (new (drop n bytes))))
        (cut_small bytes h)
    ∙ ap₂ (λ xs ys. push_front xs (collect (length bytes) (new ys)))
        (take_of_length-le (length bytes) bytes (omega arith)) (drop_all bytes)
    ∙ ap (push_front bytes) (collect_end (length bs))
