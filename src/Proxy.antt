-- ===== src/Proxy.antt =====
-- src/proxy/mod.rs: what the two proxies share.
pub mod ClientProxy
pub mod ServerProxy
pub mod Entries
pub mod Restored
mod Runs
use factorio_multiplayer_cac.Common.{ℕ, List}

pub data PacketDirection : Type 0 where
  to_client to_server : PacketDirection

-- The packets that a call has put out so far, each with where it goes.
abbrev pub OutPackets : Type 0
OutPackets = List (List ℕ × PacketDirection)
