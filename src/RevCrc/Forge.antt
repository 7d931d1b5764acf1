-- ===== src/RevCrc/Forge.antt =====
-- The two passes over whole inputs, and the four bytes between them.
use mathlib.Core.List.{reverse, reverse-append}
use native.Mathlib.Nat.{pow-suc}
use factorio_multiplayer_cac.Common.{
  ℕ, zero, suc, ◌+◌, ◌*◌, ◌/◌, ◌%◌, ◌^◌, ◌<◌, bit_xor, ◌≡◌, refl, sym, ap, ap₂, ◌∙◌, List, [], ◌∷◌,
  ◌++◌, length, get_or, All, to_le_bytes, length-to_le_bytes, to_le_bytes-IsByte, IsByte, IsU32,
  arith,
}
use factorio_multiplayer_cac.Common.Xor.{
  xor_comm, xor-zero, xor_assoc, xor_cancel_right, xor_fields, xor-lt, zero-xor, xor_byte_parts,
  xor_low_field,
}
use factorio_multiplayer_cac.Crates.Crc.{Crc}
use factorio_multiplayer_cac.RevCrc.{
  RevCrc, RevDigest, new, back, back_all, update_value, digest, update, finalize, forge_crc,
}
use factorio_multiplayer_cac.RevCrc.Undo.{forth, forth-lt, back-forth, forth-back, back-lt}

back_all-append :
    (self : RevCrc) (v : ℕ) (xs ys : List ℕ)
    → back_all self v (xs ++ ys) ≡ back_all self (back_all self v xs) ys
unfolding back_all
back_all-append self v [] ys = refl
back_all-append self v (x ∷ xs) ys = back_all-append self (back self v x) xs ys

update_value-cons :
    (self : RevCrc) (v b : ℕ) (bs : List ℕ)
    → update_value self v (b ∷ bs) ≡ back self (update_value self v bs) b
unfolding update_value back_all
update_value-cons self v b bs =
    ap (back_all self v) (reverse-append (b ∷ []) bs) ∙ back_all-append self v (reverse bs) (b ∷ [])

pub length-forge_crc : (before : ℕ) (after : RevDigest) → length (forge_crc before after) ≡ 4
unfolding forge_crc
length-forge_crc before after =
    length-to_le_bytes 4 (finalize (update after (to_le_bytes 4 (bit_xor before after.crc.xorout))))

pub forge_crc-IsByte : (before : ℕ) (after : RevDigest) → All IsByte (forge_crc before after)
unfolding forge_crc
forge_crc-IsByte before after =
    to_le_bytes-IsByte 4 (finalize (update after (to_le_bytes 4 (bit_xor before after.crc.xorout))))

module _ (crc : Crc) where
  pub update-append :
      (v : ℕ) (xs ys : List ℕ) → crc.update v (xs ++ ys) ≡ crc.update (crc.update v xs) ys
  update-append v [] ys = rw crc.update_nil
  update-append v (x ∷ xs) ys =
      crc.update_cons v x (xs ++ ys)
      ∙ update-append (forth crc v x) xs ys
      ∙ ap (λ (t : ℕ). crc.update t ys) (sym (crc.update_cons v x xs))

  pub update-IsU32 : (v : ℕ) (bs : List ℕ) → IsU32 v → IsU32 (crc.update v bs)
  update-IsU32 v [] h = rw crc.update_nil h
  update-IsU32 v (b ∷ bs) h =
      rw crc.update_cons (update-IsU32 (forth crc v b) bs (forth-lt crc v b h))

  pub update_value-IsU32 :
      (w : ℕ) (bs : List ℕ) → IsU32 w → All IsByte bs → IsU32 (update_value (new crc) w bs)
  update_value-IsU32 w [] h hs = unfold update_value back_all in h
  update_value-IsU32 w (b ∷ bs) h hs =
      rw update_value-cons (back-lt crc _ b (update_value-IsU32 w bs h hs.1) hs.0)

  -- The backward pass over bytes that the forward pass has read gives the value from before them.
  pub update_value-update :
      (v : ℕ) (bs : List ℕ)
      → IsU32 v
      → All IsByte bs
      → update_value (new crc) (crc.update v bs) bs ≡ v
  update_value-update v [] h hs = unfold update_value back_all in crc.update_nil v
  update_value-update v (b ∷ bs) h hs =
      ap (λ (t : ℕ). update_value (new crc) t (b ∷ bs)) (crc.update_cons v b bs)
      ∙ update_value-cons (new crc) _ b bs
      ∙ ap (λ (t : ℕ). back (new crc) t b)
          (update_value-update (forth crc v b) bs (forth-lt crc v b h) hs.1)
      ∙ back-forth crc v b h hs.0

  -- From the value that the backward pass gives, the forward pass reaches the value it began with.
  pub update-update_value :
      (w : ℕ) (bs : List ℕ)
      → IsU32 w
      → All IsByte bs
      → crc.update (update_value (new crc) w bs) bs ≡ w
  update-update_value w [] h hs = unfold update_value back_all in crc.update_nil w
  update-update_value w (b ∷ bs) h hs =
      ap (λ (t : ℕ). crc.update t (b ∷ bs)) (update_value-cons (new crc) w b bs)
      ∙ crc.update_cons _ b bs
      ∙ ap (λ (t : ℕ). crc.update t bs)
          (forth-back crc (update_value (new crc) w bs) b (update_value-IsU32 w bs h hs.1) hs.0)
      ∙ update-update_value w bs h hs.1

  -- A round depends on the value and the byte through their exclusive or alone.
  abbrev slide : ℕ → ℕ
  slide v = bit_xor (v / 256) (get_or crc.table (v % 256) 0)

  forth-slide : (v b : ℕ) → IsByte b → forth crc v b ≡ slide (bit_xor v b)
  forth-slide v b hb =
      ap (λ (t : ℕ). bit_xor t (get_or crc.table (bit_xor v b % 256) 0))
        (sym (xor_byte_parts v b hb).0)

  -- What stands above the low byte comes through a round unchanged.
  slide-above : (a c : ℕ) → bit_xor (slide a) c ≡ slide (bit_xor a (c * 256))
  slide-above a c =
      xor_assoc (a / 256) entry c
      ∙ ap (bit_xor (a / 256)) (xor_comm entry c)
      ∙ sym (xor_assoc (a / 256) c entry)
      ∙ ap₂ (λ (x y : ℕ). bit_xor x (get_or crc.table y 0)) (omega (arith, parts))
          (omega (arith, parts))
    where
      entry : ℕ
      entry = get_or crc.table (a % 256) 0

      parts : bit_xor a (c * 256) ≡ bit_xor (a / 256) c * 256 + a % 256
      parts =
          ap₂ bit_xor (omega arith) (omega arith)
          ∙ xor_fields 8 (a / 256) c (a % 256) 0 (omega arith) (omega arith)
          ∙ ap (λ (t : ℕ). bit_xor (a / 256) c * 256 + t) (xor-zero (a % 256))

  abbrev slides : ℕ → ℕ → ℕ
  slides zero v = v
  slides (suc n) v = slides n (slide v)

  -- So a word's bytes, read in, act as the word itself.
  update-slides :
      (n v x : ℕ) → x < 256 ^ n → crc.update v (to_le_bytes n x) ≡ slides n (bit_xor v x)
  update-slides zero v x h = crc.update_nil v ∙ sym (xor-zero v) ∙ ap (bit_xor v) (omega arith)
  update-slides (suc n) v x h =
      crc.update_cons v (x % 256) (to_le_bytes n (x / 256))
      ∙ update-slides n (forth crc v (x % 256)) (x / 256) (omega (arith, pow-suc 256 n))
      ∙ ap (slides n) (
          ap (λ (t : ℕ). bit_xor t (x / 256)) (forth-slide v (x % 256) (omega arith))
          ∙ slide-above (bit_xor v (x % 256)) (x / 256)
          ∙ ap (λ (t : ℕ). slide t) (xor_assoc v (x % 256) (x / 256 * 256) ∙ ap (bit_xor v) whole))
    where
      whole : bit_xor (x % 256) (x / 256 * 256) ≡ x
      whole =
          xor_comm (x % 256) (x / 256 * 256)
          ∙ ap (λ (t : ℕ). bit_xor t (x % 256)) (omega arith)
          ∙ xor_low_field 8 (x / 256) 0 (x % 256) (omega arith) (omega arith)
          ∙ ap (λ (t : ℕ). x / 256 * 256 + t) (zero-xor (x % 256))
          ∙ omega arith

  -- The value and a word that is read in may change places.
  update_swap :
      (v x : ℕ)
      → IsU32 v
      → IsU32 x
      → crc.update v (to_le_bytes 4 x) ≡ crc.update x (to_le_bytes 4 v)
  update_swap v x hv hx =
      update-slides 4 v x hx ∙ ap (slides 4) (xor_comm v x) ∙ sym (update-slides 4 x v hv)

  -- The four bytes carry the forward value over to the value that the backward pass has reached.
  pub update-forge_crc :
      (s : ℕ) (after : ℕ)
      → IsU32 s
      → IsU32 after
      → crc.update s (forge_crc (crc.finalize s) (record { crc = new crc; value = after })) ≡ after
  unfolding forge_crc update finalize
  update-forge_crc s after hs ha =
      ap (λ (t : ℕ). crc.update s (to_le_bytes 4 (update_value (new crc) after (to_le_bytes 4 t))))
        plain
      ∙ update_swap s forged hs (update_value-IsU32 after _ ha (to_le_bytes-IsByte 4 s))
      ∙ update-update_value after (to_le_bytes 4 s) ha (to_le_bytes-IsByte 4 s)
    where
      plain : bit_xor (crc.finalize s) (new crc).xorout ≡ s
      plain = unfold new in rw crc.finalize_lem (xor_cancel_right s crc.xorout)

      forged : ℕ
      forged = update_value (new crc) after (to_le_bytes 4 s)

  -- With the forged bytes between what is hashed so far and a tail of two byte lists, the CRC of
  -- the whole is the 32-bit target.
  pub forge_crc-hits :
      (s target : ℕ) (footer aux : List ℕ)
      → IsU32 s
      → IsU32 target
      → All IsByte footer
      → All IsByte aux
      → let after = update (update (digest (new crc) target) aux) footer in
        let forged = forge_crc (crc.finalize s) after in
        crc.finalize (crc.update (crc.update (crc.update s forged) footer) aux) ≡ target
  unfolding update digest
  forge_crc-hits s target footer aux hs ht hf ha =
      let goal : ℕ = bit_xor target (new crc).xorout in
      let goal-lt : IsU32 goal = xor-lt 32 target _ ht (unfold new in crc.xorout_lt) in
      let mid : ℕ = update_value (new crc) goal aux in
      let mid-lt : IsU32 mid = update_value-IsU32 goal aux goal-lt ha in
      let at_footer =
        update-forge_crc s (update_value (new crc) mid footer) hs
          (update_value-IsU32 mid footer mid-lt hf) in
      ap (λ (t : ℕ). crc.finalize (crc.update (crc.update t footer) aux)) at_footer
      ∙ ap (λ (t : ℕ). crc.finalize (crc.update t aux)) (update-update_value mid footer mid-lt hf)
      ∙ ap (λ (t : ℕ). crc.finalize t) (update-update_value goal aux goal-lt ha)
      ∙ crc.finalize_lem goal
      ∙ (unfold new in xor_cancel_right target crc.xorout)
