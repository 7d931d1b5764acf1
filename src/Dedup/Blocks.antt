-- ===== src/Dedup/Blocks.antt =====
-- The alignment to blocks of 503 bytes, where no 32-bit sum wraps.
use factorio_multiplayer_cac.Common.{
  ℕ, ◌+◌, ◌-◌, ◌*◌, ◌/◌, ◌≤◌, ◌<◌, ◌≡◌, ap, ◌∙◌, List, ◌++◌, append_assoc, length, length-append,
  zeros, length-zeros, take_of_length-le, u32_mod, IsU32, arith,
}
use factorio_multiplayer_cac.Dedup.{aligned_length, align_blocks, resize, grow}

-- The bytes of the blocks that `size` bytes take.
abbrev pub block_bytes : ℕ → ℕ
block_bytes size = (size + 502) / 503 * 503

pub aligned_length_lem : (size : ℕ) → IsU32 (size + 502) → aligned_length size ≡ block_bytes size
unfolding aligned_length
aligned_length_lem size h = omega arith

resize_up :
    (bytes : List ℕ) (len : ℕ)
    → length bytes ≤ len
    → resize bytes len ≡ bytes ++ zeros (len - length bytes)
resize_up bytes len h = ap (λ t. t ++ zeros (len - length bytes)) (take_of_length-le len bytes h)

grow_lem :
    (size len : ℕ)
    → IsU32 (size + 502)
    → len < 2 * u32_mod
    → grow (aligned_length size) size len ≡ len + (block_bytes size - size)
grow_lem size len h hl = omega (arith, aligned_length_lem size h)

resize-grow :
    (bytes : List ℕ) (size : ℕ)
    → IsU32 (size + 502)
    → length bytes < 2 * u32_mod
    → resize bytes (grow (aligned_length size) size (length bytes))
      ≡ bytes ++ zeros (block_bytes size - size)
resize-grow bytes size h hl =
    ap (resize bytes) (grow_lem size (length bytes) h hl)
    ∙ resize_up bytes (length bytes + (block_bytes size - size)) (omega arith)
    ∙ ap (λ n. bytes ++ zeros n) (omega arith)

-- The output and the auxiliary data, each with zeros behind it up to the next block.
pub align_blocks_lem :
    (output aux : List ℕ) (target : ℕ)
    → length output ≤ target
    → IsU32 (target + 502)
    → IsU32 (length aux + 502)
    → align_blocks output aux target
      ≡ (output ++ zeros (block_bytes target - target))
        ++ (aux ++ zeros (block_bytes (length aux) - length aux))
unfolding align_blocks
align_blocks_lem output aux target hl ht ha =
    let gap : List ℕ = zeros (block_bytes target - target) in
    let first = resize-grow output target ht (omega arith) in
    ap
      (λ t. resize (t ++ aux) (grow (aligned_length (length aux)) (length aux) (length (t ++ aux))))
      first
    ∙ resize-grow ((output ++ gap) ++ aux) (length aux) ha (
        omega (
          arith,
          length-append (output ++ gap) aux,
          length-append output gap,
          length-zeros (block_bytes target - target),
        ))
    ∙ append_assoc (output ++ gap) aux (zeros (block_bytes (length aux) - length aux))
