-- ===== src/Utils.antt =====
-- src/utils.rs: the variable-length number of the game's protocol.
mod Runs
use factorio_multiplayer_cac.Common.{
  ℕ, ◌<◌, ◌≡◌, ◌≢◌, refl, ap, ◌∙◌, Option, none, some, List, [], ◌∷◌, ◌++◌, length, to_le_bytes,
  IsU32, ◌==◌, ltb, if◌then◌else◌, ◌>>=◌, Bool-cases, inl, inr, arith,
}
use factorio_multiplayer_cac.Crates.Bytes.{Bytes, try_get_u32_le-to_le_bytes}

module _ (api : Bytes) where
  unfoldable pub try_get_factorio_varint32 : List ℕ → Option (ℕ × List ℕ)
  try_get_factorio_varint32 buf = do
    (byte, rest) ← api.try_get_u8 buf
    if byte == 0xff then api.try_get_u32_le rest else some (byte, rest)

  -- The short form of a number, and the long one.
  abbrev pub varint_bytes : ℕ → List ℕ
  varint_bytes v = if ltb v 0xff then v ∷ [] else 0xff ∷ to_le_bytes 4 v

  -- A 32-bit number in the form that fits it, one byte below 255 and else 255 and four bytes, is
  -- read back, and what follows it is left.
  pub try_get_factorio_varint32-varint_bytes :
      (v : ℕ) (rest : List ℕ)
      → IsU32 v
      → try_get_factorio_varint32 (varint_bytes v ++ rest) ≡ some (v, rest)
  unfolding try_get_factorio_varint32
  try_get_factorio_varint32-varint_bytes v rest h = elim (Bool-cases (ltb v 0xff)) [
    | inl short ↦ rw (short, api.try_get_u8_cons) (ground arith)
    | inr long ↦ rw (long, api.try_get_u8_cons) (try_get_u32_le-to_le_bytes api v rest h)
  ]
