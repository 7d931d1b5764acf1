-- ===== src/Crates/Bytes.antt =====
-- The package `bytes`: the numbers that `BufMut` puts behind a buffer and that `Buf` takes from its
-- front. A buffer is the list of its bytes; `none` is a `TryGetError`.
use factorio_multiplayer_cac.Common.{
  ℕ, ◌<◌, ◌≡◌, refl, Option, none, some, List, [], ◌∷◌, ◌++◌, length, to_le_bytes, from_le_bytes,
  from_le_bytes-to_le_bytes, IsU32, arith,
}

pub record Bytes : Type 0 where
  pub put_u8 : List ℕ → ℕ → List ℕ
  pub put_u16_le : List ℕ → ℕ → List ℕ
  pub put_u32_le : List ℕ → ℕ → List ℕ
  pub try_get_u8 : List ℕ → Option (ℕ × List ℕ)
  pub try_get_u32_le : List ℕ → Option (ℕ × List ℕ)
  pub put_u8_lem : (buf : List ℕ) (v : ℕ) → put_u8 buf v ≡ buf ++ to_le_bytes 1 v
  pub put_u16_le_lem : (buf : List ℕ) (v : ℕ) → put_u16_le buf v ≡ buf ++ to_le_bytes 2 v
  pub put_u32_le_lem : (buf : List ℕ) (v : ℕ) → put_u32_le buf v ≡ buf ++ to_le_bytes 4 v
  pub try_get_u8_nil : try_get_u8 [] ≡ none
  pub try_get_u8_cons : (b : ℕ) (rest : List ℕ) → try_get_u8 (b ∷ rest) ≡ some (b, rest)
  pub try_get_u32_le_short : (buf : List ℕ) → length buf < 4 → try_get_u32_le buf ≡ none
  pub try_get_u32_le_cons :
      (a b c d : ℕ) (rest : List ℕ)
      → try_get_u32_le (a ∷ b ∷ c ∷ d ∷ rest) ≡ some (from_le_bytes (a ∷ b ∷ c ∷ d ∷ []), rest)

-- `buf` is what a chain of puts works on.
infixl 5 ◌|>◌
abbrev pub ◌|>◌ {ℓ} : {A : Type ℓ} → A → (A → A) → A
x |> f = f x

module _ (api : Bytes) where
  abbrev pub u8 : ℕ → List ℕ → List ℕ
  u8 v buf = api.put_u8 buf v

  abbrev pub u16 : ℕ → List ℕ → List ℕ
  u16 v buf = api.put_u16_le buf v

  abbrev pub u32 : ℕ → List ℕ → List ℕ
  u32 v buf = api.put_u32_le buf v

  -- A word is read back from the front of what was put.
  pub try_get_u32_le-to_le_bytes :
      (v : ℕ) (rest : List ℕ)
      → IsU32 v
      → api.try_get_u32_le (to_le_bytes 4 v ++ rest) ≡ some (v, rest)
  try_get_u32_le-to_le_bytes v rest h =
      rw (api.try_get_u32_le_cons, from_le_bytes-to_le_bytes 4 v h)

get_u8 : List ℕ → Option (ℕ × List ℕ)
get_u8 [] = none
get_u8 (b ∷ rest) = some (b, rest)

get_u32_le : List ℕ → Option (ℕ × List ℕ)
get_u32_le (a ∷ b ∷ c ∷ d ∷ rest) = some (from_le_bytes (a ∷ b ∷ c ∷ d ∷ []), rest)
get_u32_le _ = none

get_u32_le_short : (buf : List ℕ) → length buf < 4 → get_u32_le buf ≡ none
unfolding get_u32_le
get_u32_le_short (a ∷ b ∷ c ∷ d ∷ rest) h = absurd (omega arith)
get_u32_le_short _ h = refl

-- Functions that behave so.
unfoldable pub plain_bytes : Bytes
unfolding get_u8 get_u32_le get_u32_le_short
plain_bytes = record {
  put_u8 = λ buf v. buf ++ to_le_bytes 1 v;
  put_u16_le = λ buf v. buf ++ to_le_bytes 2 v;
  put_u32_le = λ buf v. buf ++ to_le_bytes 4 v;
  try_get_u8 = get_u8;
  try_get_u32_le = get_u32_le;
  put_u8_lem = λ buf v. refl;
  put_u16_le_lem = λ buf v. refl;
  put_u32_le_lem = λ buf v. refl;
  try_get_u8_nil = refl;
  try_get_u8_cons = λ b rest. refl;
  try_get_u32_le_short = get_u32_le_short;
  try_get_u32_le_cons = λ a b c d rest. refl;
}
