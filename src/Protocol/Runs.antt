-- ===== src/Protocol/Runs.antt =====
-- src/protocol.rs: two messages in a row.
use factorio_multiplayer_cac.Common.{ℕ, ◌≡◌, List, [], ◌∷◌, ◌++◌, arith}
use factorio_multiplayer_cac.Crates.Stream.{plain_io}
use factorio_multiplayer_cac.Dedup.{ok}
use factorio_multiplayer_cac.Protocol.Messages.{
  write_messages, read_messages, read_messages-write_messages,
}

read_messages-write_messages_example :
    (sent : List ℕ) × (write_messages plain_io ((1 ∷ 2 ∷ []) ∷ [] ∷ (3 ∷ []) ∷ []) [] ≡ ok sent)
    × (read_messages plain_io 3 (sent ++ 9 ∷ []) ≡ ok ((1 ∷ 2 ∷ []) ∷ [] ∷ (3 ∷ []) ∷ [], 9 ∷ []))
read_messages-write_messages_example =
    read_messages-write_messages plain_io ((1 ∷ 2 ∷ []) ∷ [] ∷ (3 ∷ []) ∷ []) (9 ∷ []) (omega arith)
