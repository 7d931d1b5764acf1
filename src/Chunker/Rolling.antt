-- ===== src/Chunker/Rolling.antt =====
-- The hash is a polynomial in the last 32 bytes alone, whatever was fed before them.
use native.Mathlib.Nat.{pow-suc, zero-add}
use factorio_multiplayer_cac.Common.{
  ℕ, zero, suc, ◌+◌, ◌-◌, ◌*◌, ◌%◌, ◌^◌, ◌≤◌, ◌<◌, ◌≡◌, refl, sym, ap, ap₂, ◌∙◌, List, [], ◌∷◌,
  ◌++◌, length, get_or, set, replicate, take, length-set, get_or-set_self, get_or-set_ne,
  append_assoc, take-length-append, u32_mod, IsByte, All, arith,
}
use factorio_multiplayer_cac.Chunker.{
  RabinKarpHash, new_hash, update, mult, offset, window_mult, window_size,
}

-- x₀ m + x₁ m² + …, for the newest value x₀.
abbrev pub polynomial : List ℕ → ℕ
polynomial [] = 0
polynomial (x ∷ xs) = (x + polynomial xs) * mult

polynomial-take :
    (n : ℕ) (xs : List ℕ)
    → n < length xs
    → polynomial (take (suc n) xs) ≡ polynomial (take n xs) + get_or xs n 0 * mult ^ suc n
polynomial-take n [] h = absurd (omega arith)
polynomial-take zero (x ∷ xs) h = omega arith
polynomial-take (suc n) (x ∷ xs) h = omega (
  arith,
  polynomial-take n xs (omega arith),
  ap (λ (t : ℕ). get_or xs n 0 * t) (pow-suc mult (suc n)),
)

-- The hash after `added` comes in and `y` falls out of the window.
slide_hash :
    (hash p y added : ℕ)
    → hash ≡ (p + y * mult ^ 32) % u32_mod
    → ((hash + added) % u32_mod * mult % u32_mod + u32_mod - y * window_mult % u32_mod) % u32_mod
      ≡ (added + p) * mult % u32_mod
slide_hash hash p y added h = omega arith

-- `history` holds what was added, newest first; the window holds its first 32 values in a ring.
pub record IsRolling (h : RabinKarpHash) (history : List ℕ) : Type 0 where
  pub enough : window_size ≤ length history
  pub window_length : length h.window ≡ window_size
  pub position : h.window_pos < window_size
  pub ring :
      (i : ℕ)
      → i < window_size
      → get_or h.window ((h.window_pos + 31 - i) % window_size) 0 ≡ get_or history i 0
  pub hash_is : h.hash ≡ polynomial (take window_size history) % u32_mod

ring_step :
    (window history : List ℕ) (pos added i : ℕ)
    → length window ≡ window_size
    → pos < window_size
    → ((i : ℕ)
        → i < window_size
        → get_or window ((pos + 31 - i) % window_size) 0 ≡ get_or history i 0)
    → i < window_size
    → get_or (set window pos added) (((pos + 1) % window_size + 31 - i) % window_size) 0
      ≡ get_or (added ∷ history) i 0
ring_step window history pos added zero len hp ring h =
    ap (λ (t : ℕ). get_or (set window pos added) t 0) (omega arith)
    ∙ get_or-set_self window pos added 0 (omega arith)
ring_step window history pos added (suc i) len hp ring h =
    ap (λ (t : ℕ). get_or (set window pos added) t 0) (omega arith)
    ∙ get_or-set_ne window pos ((pos + 31 - i) % window_size) added 0 (omega arith)
    ∙ ring i (omega arith)

pub update-IsRolling :
    (h : RabinKarpHash) (history : List ℕ) (byte : ℕ)
    → IsByte byte
    → IsRolling h history
    → IsRolling (update h byte) ((byte + offset) ∷ history)
unfolding update
update-IsRolling h history byte hb r = record {
  enough = omega (arith, r.enough);
  window_length = length-set h.window h.window_pos _ ∙ r.window_length;
  position = omega arith;
  ring = λ i hi.
      ap
        (λ (t : ℕ).
          get_or (set h.window h.window_pos t)
            (((h.window_pos + 1) % window_size + 31 - i) % window_size) 0)
        added_is
      ∙ ring_step h.window history h.window_pos (byte + offset) i r.window_length r.position r.ring
          hi;
  hash_is =
      ap₂
        (λ (a y : ℕ).
          ((h.hash + a) % u32_mod * mult % u32_mod + u32_mod - y * window_mult % u32_mod) % u32_mod)
        added_is slot
      ∙ slide_hash h.hash (polynomial (take 31 history)) (get_or history 31 0) (byte + offset)
          (r.hash_is ∙ ap (λ (t : ℕ). t % u32_mod) (polynomial-take 31 history r.enough));
}
  where
    added_is : (byte + offset) % u32_mod ≡ byte + offset
    added_is = omega arith

    slot : get_or h.window h.window_pos 0 ≡ get_or history 31 0
    slot = ap (λ (t : ℕ). get_or h.window t 0) (omega (arith, r.position)) ∙ r.ring 31 (omega arith)

replicate_zeros : (n i : ℕ) → ◌≡◌ {A = ℕ} (get_or (replicate n 0) i 0) 0
replicate_zeros zero i = refl
replicate_zeros (suc n) zero = refl
replicate_zeros (suc n) (suc i) = replicate_zeros n i

new_hash-IsRolling : IsRolling new_hash (replicate window_size 0)
unfolding new_hash
new_hash-IsRolling = record {
  enough = omega arith;
  window_length = refl;
  position = omega arith;
  ring = λ i hi. replicate_zeros 32 ((0 + 31 - i) % 32) ∙ sym (replicate_zeros 32 i);
  hash_is = refl;
}

-- The hash object after a run of bytes.
pub feed : RabinKarpHash → List ℕ → RabinKarpHash
feed h [] = h
feed h (byte ∷ rest) = feed (update h byte) rest

abbrev pub trail : List ℕ → List ℕ → List ℕ
trail history [] = history
trail history (byte ∷ rest) = trail ((byte + offset) ∷ history) rest

feed-IsRolling :
    (h : RabinKarpHash) (history bytes : List ℕ)
    → All IsByte bytes
    → IsRolling h history
    → IsRolling (feed h bytes) (trail history bytes)
unfolding feed
feed-IsRolling h history [] hb r = r
feed-IsRolling h history (byte ∷ rest) hb r =
    feed-IsRolling (update h byte) ((byte + offset) ∷ history) rest hb.1
      (update-IsRolling h history byte hb.0 r)

trail-append : (history xs ys : List ℕ) → trail history (xs ++ ys) ≡ trail (trail history xs) ys
trail-append history [] ys = refl
trail-append history (x ∷ xs) ys = trail-append ((x + offset) ∷ history) xs ys

-- The newest values come first, over what was there.
trail_lem : (history bytes : List ℕ) → trail history bytes ≡ trail [] bytes ++ history
trail_lem history [] = refl
trail_lem history (b ∷ bs) =
    trail_lem ((b + offset) ∷ history) bs
    ∙ sym (append_assoc (trail [] bs) ((b + offset) ∷ []) history)
    ∙ ap (λ (t : List ℕ). t ++ history) (sym (trail_lem ((b + offset) ∷ []) bs))

length-trail :
    (history bytes : List ℕ) → length (trail history bytes) ≡ length history + length bytes
length-trail history [] = omega arith
length-trail history (b ∷ bs) = omega (arith, length-trail ((b + offset) ∷ history) bs)

-- After any bytes that end in a window of 32, the rolling hash is the polynomial of that window
-- alone, modulo 2 ^ 32.
pub hash-feed :
    (before window : List ℕ)
    → All IsByte (before ++ window)
    → length window ≡ window_size
    → (feed new_hash (before ++ window)).hash ≡ polynomial (trail [] window) % u32_mod
hash-feed before window hb len =
    (feed-IsRolling new_hash _ (before ++ window) hb new_hash-IsRolling).hash_is
    ∙ ap (λ (t : List ℕ). polynomial t % u32_mod)
        (ap (take window_size) (
            trail-append (replicate window_size 0) before window
            ∙ trail_lem (trail (replicate window_size 0) before) window)
          ∙ ap (λ n. take n (trail [] window ++ trail (replicate window_size 0) before))
              (sym (length-trail [] window ∙ zero-add (length window) ∙ len))
          ∙ take-length-append (trail [] window) _)
