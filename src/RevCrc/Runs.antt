-- ===== src/RevCrc/Runs.antt =====
-- src/rev_crc.rs: the CRC of a small archive forced.
use factorio_multiplayer_cac.Common.{◌≡◌, [], ◌∷◌, arith}
use factorio_multiplayer_cac.Crates.Crc.IsoHdlc.{iso_hdlc}
use factorio_multiplayer_cac.RevCrc.{new, digest, update, forge_crc}
use factorio_multiplayer_cac.RevCrc.Forge.{forge_crc-hits}

forge_crc-hits_example :
    let after = update (update (digest (new iso_hdlc) 0x12345678) (3 ∷ 4 ∷ [])) (1 ∷ 2 ∷ []) in
    let forged = forge_crc (iso_hdlc.finalize 0xabcdef) after in
    iso_hdlc.finalize (
      iso_hdlc.update (iso_hdlc.update (iso_hdlc.update 0xabcdef forged) (1 ∷ 2 ∷ [])) (3 ∷ 4 ∷ []))
    ≡ 0x12345678
forge_crc-hits_example =
    forge_crc-hits iso_hdlc 0xabcdef 0x12345678 (1 ∷ 2 ∷ []) (3 ∷ 4 ∷ []) (omega arith)
      (omega arith) (omega arith) (omega arith)
