-- ===== src/Proxy/ClientProxy/Exchange.antt =====
-- A batch that the server's loop answers: the chunks come, match their hashes and go to the cache.
use factorio_multiplayer_cac.Common.{
  ℕ, suc, ◌≤◌, ◌≡◌, refl, sym, ap, ◌∙◌, some, List, [], append-nil, length,
}
use factorio_multiplayer_cac.Common.HashMap.{bytes_key}
use factorio_multiplayer_cac.Crates.Stream.{Io}
use factorio_multiplayer_cac.Crates.Codec.{Serde}
use factorio_multiplayer_cac.Dedup.{ChunkKey, Outcome, ok, err, panic}
use factorio_multiplayer_cac.Dedup.Chunks.{ChunkMap}
use factorio_multiplayer_cac.Protocol.{
  Codes, encode_message, decode_message, read_message, message_size_limit, zstd_compression_level,
}
use factorio_multiplayer_cac.Protocol.Messages.{frame, write_message_lem, read_message_lem}
use factorio_multiplayer_cac.Proxy.ServerProxy.Transfer.{find_chunks, respond, serve_loop}

abbrev bytes_sent : Outcome (List ℕ) → List ℕ
bytes_sent (ok sent) = sent
bytes_sent err = []
bytes_sent panic = []

-- What the loop of the other proxy sends back for bytes on the stream.
abbrev pub answered_by : Io → Codes → ChunkMap → List ℕ → List ℕ
answered_by io codes chunks written =
    bytes_sent (serve_loop io codes (suc (length written)) chunks written [])

module _ (codes : Codes) (original : ChunkMap) where
  -- The messages for a batch of these keys are written, and are within the limit.
  abbrev pub IsWritten : {A : Type 0} → Serde A → A → Type 0
  IsWritten serde message =
      (bytes : List ℕ) × (serde.write message ≡ some bytes)
      × (length (codes.zstd.encode zstd_compression_level bytes) ≤ message_size_limit)

  abbrev pub IsCarried : List ChunkKey → Type 0
  IsCarried keys =
      IsWritten codes.request_chunks (record { requested_chunks = keys })
      × ((chunks : List (List ℕ))
          → find_chunks keys original ≡ ok chunks
          → IsWritten codes.send_chunks (record { chunks = chunks }))

  pub encode_message_lem :
      {A : Type 0} (serde : Serde A) (message : A)
      → IsWritten serde message
      → (msg_data : List ℕ) × (encode_message codes.zstd serde message ≡ ok msg_data)
        × (decode_message codes.zstd serde msg_data ≡ ok message)
        × (length msg_data ≤ message_size_limit)
  unfolding encode_message decode_message
  encode_message_lem serde message (bytes, written, small) = (
    codes.zstd.encode zstd_compression_level bytes,
    rw written refl,
    rw (codes.zstd.decode_encode, serde.from_read_write message bytes written) refl,
    small,
  )

  -- The other proxy's loop answers one request with the chunks.
  serve_loop_once :
      (io : Io) (n : ℕ) (keys : List ChunkKey) (chunks : List (List ℕ))
      (request_data response_data : List ℕ)
      → decode_message codes.zstd codes.request_chunks request_data
        ≡ ok (record { requested_chunks = keys })
      → length request_data ≤ message_size_limit
      → find_chunks keys original ≡ ok chunks
      → encode_message codes.zstd codes.send_chunks (record { chunks = chunks }) ≡ ok response_data
      → length response_data ≤ message_size_limit
      → serve_loop io codes (suc (suc n)) original (frame io request_data) []
        ≡ ok (frame io response_data)
  unfolding serve_loop respond read_message
  serve_loop_once io n keys chunks request_data response_data decoded small found encoded fits =
      let first : read_message io (frame io request_data) ≡ ok (request_data, []) =
        ap (read_message io) (sym (append-nil (frame io request_data)))
        ∙ read_message_lem io request_data [] small in
      let last : read_message io [] ≡ err = rw (read_message, io.read_u32_le_nil) refl in
      rw (serve_loop, first, decoded, found, encoded, write_message_lem io [] response_data fits)
        (rw (serve_loop, last) refl)

  pub answered_by_lem :
      (io : Io) (keys : List ChunkKey) (chunks : List (List ℕ)) (request_data : List ℕ)
      → decode_message codes.zstd codes.request_chunks request_data
        ≡ ok (record { requested_chunks = keys })
      → length request_data ≤ message_size_limit
      → find_chunks keys original ≡ ok chunks
      → IsWritten codes.send_chunks (record { chunks = chunks })
      → (response_data : List ℕ) × (answered_by io codes original (frame io request_data)
          ≡ frame io response_data)
        × (decode_message codes.zstd codes.send_chunks response_data
            ≡ ok (record { chunks = chunks }))
        × (length response_data ≤ message_size_limit)
  answered_by_lem io keys chunks request_data decoded small found written =
      let (response_data, encoded, read_back, fits) =
        encode_message_lem codes.send_chunks (record { chunks = chunks }) written in
      (
        response_data,
        ap bytes_sent (
            serve_loop_once io (suc (suc (suc (length request_data)))) keys chunks request_data
              response_data decoded small found encoded fits),
        read_back,
        fits,
      )
