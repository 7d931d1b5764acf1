-- ===== src/Protocol.antt =====
-- src/protocol.rs: datagrams and length-prefixed messages between the two proxies.
pub mod Messages
mod Runs
use factorio_multiplayer_cac.Common.{
  ℕ, ◌%◌, Option, none, some, List, [], ◌∷◌, ◌++◌, length, ltb, if◌then◌else◌, u32_mod,
}
use factorio_multiplayer_cac.Crates.Stream.{Io, VarInt}
use factorio_multiplayer_cac.Crates.Codec.{Serde, Zstd}
use factorio_multiplayer_cac.Dedup.{
  ChunkKey, FactorioWorldDescription, Outcome, ok, err, panic, ◌>>=◌, or_err,
}
use factorio_multiplayer_cac.FactorioProtocol.{FactorioWorldMetadata}

pub record Datagram : Type 0 where
  pub peer_id : ℕ
  pub content : List ℕ

module _ (var_int : VarInt) where
  unfoldable pub decode : List ℕ → Outcome Datagram
  decode packet = do
    (peer_id, content) ← or_err (var_int.decode packet)
    ok (record { peer_id = peer_id; content = content })

  unfoldable pub encode : Datagram → List ℕ → List ℕ
  encode self buffer = var_int.encode self.peer_id buffer ++ self.content

abbrev pub message_size_limit : ℕ
message_size_limit = 20000000

abbrev pub zstd_compression_level : ℕ
zstd_compression_level = 11

module _ (zstd : Zstd) {A : Type 0} (serde : Serde A) where
  unfoldable pub encode_message : A → Outcome (List ℕ)
  encode_message message = do
    bytes ← or_err (serde.write message)
    ok (zstd.encode zstd_compression_level bytes)

  unfoldable pub decode_message : List ℕ → Outcome A
  decode_message msg_data = do bytes ← or_err (zstd.decode msg_data); or_err (serde.from_read bytes)

pub record WorldReadyMessage : Type 0 where
  pub world : FactorioWorldDescription
  pub old_info : FactorioWorldMetadata
  pub new_info : FactorioWorldMetadata

pub record RequestChunksMessage : Type 0 where
  pub requested_chunks : List ChunkKey

pub record SendChunksMessage : Type 0 where
  pub chunks : List (List ℕ)

-- The codes of the messages of the proxies.
pub record Codes : Type 0 where
  pub zstd : Zstd
  pub world_ready : Serde WorldReadyMessage
  pub request_chunks : Serde RequestChunksMessage
  pub send_chunks : Serde SendChunksMessage

module _ (io : Io) where
  -- What was sent so far, and then the message.
  unfoldable pub write_message : List ℕ → List ℕ → Outcome (List ℕ)
  write_message sent msg_data =
      if ltb message_size_limit (length msg_data)
      then panic
      else ok (io.write_all (io.write_u32_le sent (length msg_data % u32_mod)) msg_data)

  -- The message, and what is left to read.
  unfoldable pub read_message : List ℕ → Outcome (List ℕ × List ℕ)
  read_message received = do
    (msg_size, rest) ← or_err (io.read_u32_le received)
    if ltb message_size_limit msg_size then panic else or_err (io.read_exact msg_size rest)
