-- ===== src/Chunker/Local.antt =====
-- Boundaries are local: a chunk that ends before the end of the input is cut in the same way
-- whatever follows it, and the chunks after a boundary depend on the bytes after it alone.
use native.Mathlib.Nat.{suc-add}
use factorio_multiplayer_cac.Common.{
  ℕ, zero, suc, ◌+◌, ◌-◌, ◌≤◌, ◌<◌, ◌≡◌, sym, ap, ap₂, ◌∙◌, Option, none, some, List, [], ◌∷◌, ◌++◌,
  length, take, drop, min, concat, append_assoc, length-take, length-drop, length-append,
  take-length-append, drop-length-append, arith,
}
use factorio_multiplayer_cac.Chunker.{
  RabinKarpHash, new, new_hash, update, scan, collect, push_front, min_chunk_size,
}
use factorio_multiplayer_cac.Chunker.Split.{
  cut, cut_bounds, scan_bounds, collect_step, collect_end, chunks_of,
}

-- A scan that stops inside its input reads no further than where it stops.
scan-stop :
    (h : RabinKarpHash) (size k : ℕ) (rest more : List ℕ)
    → (scan h size rest).1 ≡ size + k
    → k < length rest
    → (scan h size (take k rest ++ more)).1 ≡ size + k
unfolding scan
scan-stop h size k [] more e lt = absurd (omega arith)
scan-stop h size zero (b ∷ rest) more e lt =
    absurd (ground (arith, scan_bounds (update h b) (size + 1) rest))
scan-stop h size (suc k) (b ∷ rest) more e lt =
    ground (arith, scan-stop (update h b) (size + 1) k rest more)

drop-take-append :
    (m k : ℕ) (xs ys : List ℕ)
    → m ≤ length xs
    → drop m (take (m + k) xs ++ ys) ≡ take k (drop m xs) ++ ys
drop-take-append zero k xs ys h = ap (λ n. take n xs ++ ys) (omega arith)
drop-take-append (suc m) k [] ys h = absurd (omega arith)
drop-take-append (suc m) k (x ∷ xs) ys h =
    ap (λ n. drop (suc m) (take n (x ∷ xs) ++ ys)) (suc-add m k)
    ∙ drop-take-append m k xs ys (omega arith)

-- The cut does not look past the chunk, unless the input ends there.
cut-take-append :
    (b : ℕ) (bs more : List ℕ)
    → let bytes = b ∷ bs in
      cut bytes < length bytes → cut (take (cut bytes) bytes ++ more) ≡ cut bytes
unfolding cut
cut-take-append b bs more lt =
    let bytes : List ℕ = b ∷ bs in
    let size : ℕ = cut bytes in
    let (positive, inside, most, least) = cut_bounds b bs in
    let start : min min_chunk_size (length bytes) ≡ 512 = omega (arith, least lt) in
    let k : ℕ = size - 512 in
    let size_is : size ≡ 512 + k = omega (arith, least lt) in
    let there : (scan new_hash 512 (drop 512 bytes)).1 ≡ 512 + k =
      ap (λ n. (scan new_hash n (drop n bytes)).1) (sym start) ∙ size_is in
    let bytes' : List ℕ = take size bytes ++ more in
    let start' : min min_chunk_size (length bytes') ≡ 512 =
      omega (arith, length-append (take size bytes) more, length-take size bytes, least lt) in
    ap (λ n. (scan new_hash n (drop n bytes')).1) start'
    ∙ ap (λ xs. (scan new_hash 512 xs).1)
        (ap (λ n. drop 512 (take n bytes ++ more)) size_is
          ∙ drop-take-append 512 k bytes more (omega (arith, least lt)))
    ∙ scan-stop new_hash 512 k (drop 512 bytes) more there (omega (arith, length-drop 512 bytes))
    ∙ sym size_is

-- More fuel than is needed changes nothing.
collect_fuel :
    (f g : ℕ) (bytes : List ℕ)
    → length bytes < f
    → length bytes < g
    → collect f (new bytes) ≡ collect g (new bytes)
collect_fuel zero g bytes hf hg = absurd (omega arith)
collect_fuel (suc f) zero bytes hf hg = absurd (omega arith)
collect_fuel (suc f) (suc g) [] hf hg = collect_end f ∙ sym (collect_end g)
collect_fuel (suc f) (suc g) (b ∷ bs) hf hg =
    let size : ℕ = cut (b ∷ bs) in
    collect_step f b bs
    ∙ ap (push_front (take size (b ∷ bs))) (
        collect_fuel f g (drop size (b ∷ bs))
          (omega (arith, cut_bounds b bs, length-drop size (b ∷ bs)))
          (omega (arith, cut_bounds b bs, length-drop size (b ∷ bs))))
    ∙ sym (collect_step g b bs)

-- The first chunk, and then the chunks of what is left.
pub chunks_of-cons :
    (b : ℕ) (bs : List ℕ)
    → chunks_of (b ∷ bs)
      ≡ push_front (take (cut (b ∷ bs)) (b ∷ bs)) (chunks_of (drop (cut (b ∷ bs)) (b ∷ bs)))
unfolding chunks_of
chunks_of-cons b bs =
    collect_step (length (b ∷ bs)) b bs
    ∙ ap (push_front (take (cut (b ∷ bs)) (b ∷ bs))) (
        collect_fuel (length (b ∷ bs)) (suc (length (drop (cut (b ∷ bs)) (b ∷ bs))))
          (drop (cut (b ∷ bs)) (b ∷ bs))
          (omega (arith, cut_bounds b bs, length-drop (cut (b ∷ bs)) (b ∷ bs))) (omega arith))

-- The same for any input that is not empty.
chunks_of-step :
    (bytes : List ℕ)
    → 0 < length bytes
    → chunks_of bytes ≡ push_front (take (cut bytes) bytes) (chunks_of (drop (cut bytes) bytes))
chunks_of-step [] h = absurd (omega arith)
chunks_of-step (b ∷ bs) h = chunks_of-cons b bs

push_front-eq-some :
    (x y : List ℕ) (o : Option (List (List ℕ))) (ys : List (List ℕ))
    → push_front x o ≡ some (y ∷ ys)
    → (x ≡ y) × (o ≡ some ys)
push_front-eq-some x y none ys h = cc
push_front-eq-some x y (some xs) ys h = (cc, cc)

chunks_of-nil : chunks_of [] ≡ some []
unfolding chunks_of
chunks_of-nil = collect_end 0

-- The rest is not empty where there is one more chunk.
rest_left :
    (rest : List ℕ) (ini : List (List ℕ)) (last : List ℕ)
    → chunks_of rest ≡ some (ini ++ last ∷ [])
    → 0 < length rest
rest_left [] [] last h = cc (chunks_of-nil)
rest_left [] (c ∷ ini) last h = cc (chunks_of-nil)
rest_left (b ∷ bs) ini last h = omega arith

-- Put other bytes behind a chunk boundary: the chunks before the boundary stay, and those behind
-- it are the chunks of the new bytes.
pub chunks_of_local :
    (bytes more : List ℕ) (ini cs : List (List ℕ)) (last : List ℕ)
    → chunks_of bytes ≡ some (ini ++ last ∷ [])
    → chunks_of more ≡ some cs
    → chunks_of (concat ini ++ more) ≡ some (ini ++ cs)
chunks_of_local bytes more [] cs last h hm = hm
chunks_of_local [] more (c ∷ ini) cs last h hm = cc (chunks_of-nil)
chunks_of_local (b ∷ bs) more (c ∷ ini) cs last h hm =
    let bytes : List ℕ = b ∷ bs in
    let size : ℕ = cut bytes in
    let (chunk_is, rest_run) =
      push_front-eq-some (take size bytes) c (chunks_of (drop size bytes)) (ini ++ last ∷ [])
        (sym (chunks_of-cons b bs) ∙ h) in
    let inside : size < length bytes =
      omega (arith, rest_left (drop size bytes) ini last rest_run, length-drop size bytes) in
    let chunk_length : length c ≡ size =
      ap length (sym chunk_is) ∙ omega (arith, length-take size bytes) in
    let rest : List ℕ = concat ini ++ more in
    let same_cut : cut (c ++ rest) ≡ length c =
      ap (λ t. cut (t ++ rest)) (sym chunk_is)
      ∙ cut-take-append b bs rest inside
      ∙ sym chunk_length in
    ap chunks_of (append_assoc c (concat ini) more)
    ∙ chunks_of-step (c ++ rest) (omega (arith, length-append c rest, cut_bounds b bs))
    ∙ ap₂ push_front (ap (λ n. take n (c ++ rest)) same_cut ∙ take-length-append c rest) (
        ap chunks_of (ap (λ n. drop n (c ++ rest)) same_cut ∙ drop-length-append c rest)
        ∙ chunks_of_local (drop size bytes) more ini cs last rest_run hm)
