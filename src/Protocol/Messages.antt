-- ===== src/Protocol/Messages.antt =====
-- Messages and datagrams are read as they were written.
use factorio_multiplayer_cac.Common.{
  ℕ, zero, suc, ◌%◌, ◌^◌, ◌≤◌, ◌<◌, ◌≡◌, refl, sym, ap, ◌∙◌, List, [], ◌∷◌, ◌++◌, append_assoc,
  append-nil, length, All, to_le_bytes, le→ltb, u32_mod, arith,
}
use factorio_multiplayer_cac.Crates.Stream.{Io, VarInt}
use factorio_multiplayer_cac.Dedup.{Outcome, ok, ◌>>=◌}
use factorio_multiplayer_cac.Protocol.{
  Datagram, decode, encode, message_size_limit, write_message, read_message,
}

-- A datagram with a peer id below 2 ^ 62 is read back from its encoding.
pub decode-encode :
    (var_int : VarInt) (d : Datagram)
    → d.peer_id < 2 ^ 62
    → decode var_int (encode var_int d []) ≡ ok d
unfolding decode encode
decode-encode var_int d h = rw (var_int.decode_encode d.peer_id d.content h) refl

module _ (io : Io) where
  -- A message as it stands in the stream.
  abbrev pub frame : List ℕ → List ℕ
  frame msg = to_le_bytes 4 (length msg) ++ msg

  pub write_message_lem :
      (sent msg : List ℕ)
      → length msg ≤ message_size_limit
      → write_message io sent msg ≡ ok (sent ++ frame msg)
  unfolding write_message
  write_message_lem sent msg h =
      let same_size : length msg % u32_mod ≡ length msg = omega arith in
      rw
        (le→ltb message_size_limit (length msg) h, same_size, io.write_u32_le_lem, io.write_all_lem)
        (ap ok (append_assoc sent (to_le_bytes 4 (length msg)) msg))

  pub read_message_lem :
      (msg rest : List ℕ)
      → length msg ≤ message_size_limit
      → read_message io (frame msg ++ rest) ≡ ok (msg, rest)
  unfolding read_message
  read_message_lem msg rest h =
      rw
        (
          append_assoc (to_le_bytes 4 (length msg)) msg rest,
          io.read_u32_le_lem (length msg) (msg ++ rest) (omega arith),
          le→ltb message_size_limit (length msg) h,
          io.read_exact_lem msg rest,
        )
        refl

  -- Writing the messages of a list one behind the other, and reading so many.
  abbrev pub write_messages : List (List ℕ) → List ℕ → Outcome (List ℕ)
  write_messages [] sent = ok sent
  write_messages (msg ∷ rest) sent = write_message io sent msg >>= write_messages rest

  abbrev pub read_messages : ℕ → List ℕ → Outcome (List (List ℕ) × List ℕ)
  read_messages zero received = ok ([], received)
  read_messages (suc n) received = do
    (msg, left) ← read_message io received
    (msgs, left') ← read_messages n left
    ok (msg ∷ msgs, left')

  abbrev frames : List (List ℕ) → List ℕ
  frames [] = []
  frames (msg ∷ rest) = frame msg ++ frames rest

  abbrev pub AreSmall : List (List ℕ) → Type 0
  AreSmall msgs = All (λ msg. length msg ≤ message_size_limit) msgs

  write_messages_lem :
      (msgs : List (List ℕ)) (sent : List ℕ)
      → AreSmall msgs
      → write_messages msgs sent ≡ ok (sent ++ frames msgs)
  write_messages_lem [] sent h = ap ok (sym (append-nil sent))
  write_messages_lem (msg ∷ rest) sent h = rw (write_message_lem sent msg h.0) (
      write_messages_lem rest (sent ++ frame msg) h.1
      ∙ ap ok (append_assoc sent (frame msg) (frames rest)))

  read_messages_lem :
      (msgs : List (List ℕ)) (left : List ℕ)
      → AreSmall msgs
      → read_messages (length msgs) (frames msgs ++ left) ≡ ok (msgs, left)
  read_messages_lem [] left h = refl
  read_messages_lem (msg ∷ rest) left h =
      rw
        (
          append_assoc (frame msg) (frames rest) left,
          read_message_lem msg (frames rest ++ left) h.0,
          read_messages_lem rest left h.1,
        )
        refl

  -- Messages of at most 20,000,000 bytes each that are written one behind the other are written
  -- without a panic, and reading as many gives them in order and leaves what follows.
  pub read_messages-write_messages :
      (msgs : List (List ℕ)) (left : List ℕ)
      → AreSmall msgs
      → (sent : List ℕ) × (write_messages msgs [] ≡ ok sent)
        × (read_messages (length msgs) (sent ++ left) ≡ ok (msgs, left))
  read_messages-write_messages msgs left h =
      (frames msgs, write_messages_lem msgs [] h, read_messages_lem msgs left h)
