-- ===== src/Utils/Runs.antt =====
-- src/utils.rs: a number in the long form.
use factorio_multiplayer_cac.Common.{◌≡◌, [], ◌∷◌, ◌++◌, some, arith}
use factorio_multiplayer_cac.Crates.Bytes.{plain_bytes}
use factorio_multiplayer_cac.Utils.{
  try_get_factorio_varint32, varint_bytes, try_get_factorio_varint32-varint_bytes,
}

try_get_factorio_varint32-varint_bytes_example :
    try_get_factorio_varint32 plain_bytes (varint_bytes plain_bytes 70000 ++ 8 ∷ [])
    ≡ some (70000, 8 ∷ [])
try_get_factorio_varint32-varint_bytes_example =
    try_get_factorio_varint32-varint_bytes plain_bytes 70000 (8 ∷ []) (omega arith)
