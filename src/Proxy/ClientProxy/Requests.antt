-- ===== src/Proxy/ClientProxy/Requests.antt =====
-- What becomes of block requests: each is answered as soon as its block is there, with that block.
use factorio_multiplayer_cac.Common.{
  ℕ, zero, suc, ◌+◌, ◌*◌, ◌≤◌, ◌<◌, ◌≡◌, refl, sym, ap, ◌∙◌, Bool, true, false, not, none, some,
  List, [], ◌∷◌, ◌++◌, append_assoc, append-nil, IsU32, map, length, length-append, take, drop, All,
  All-append, All-map, leb, leb→le, le→leb, if◌then◌else◌, Bool-cases, inl, inr, arith,
}
use factorio_multiplayer_cac.Common.BtreeSet.{BtreeSet, insert, insert_greatest, IsAscending}
use factorio_multiplayer_cac.Crates.Bytes.{Bytes}
use factorio_multiplayer_cac.FactorioProtocol.Packets.{decode_block_request-encode_full_packet}
use factorio_multiplayer_cac.FactorioProtocol.{
  encode_full_packet, encode_block_request, transfer_block_request, new_unfragmented,
  TransferBlockPacket, transfer_block_size,
}
use factorio_multiplayer_cac.Proxy.{to_client, OutPackets}
use factorio_multiplayer_cac.Proxy.ClientProxy.{
  ClientProxyState, new, is_block_request, try_fulfill_block_request, block_request_of, answer,
  answer_loop, on_packet_from_client, on_new_world_data,
}

-- The bytes of the world reach to the end of the block.
abbrev pub is_there : List ℕ → ℕ → Bool
is_there world_data id = leb (id * transfer_block_size + transfer_block_size) (length world_data)

abbrev pub block_of : List ℕ → ℕ → TransferBlockPacket
block_of world_data id = record {
  block_id = id;
  content = take transfer_block_size (drop (id * transfer_block_size) world_data);
}

abbrev pub select {ℓ} : {A : Type ℓ} → (A → Bool) → List A → List A
select test [] = []
select test (x ∷ xs) = let rest = select test xs in if test x then x ∷ rest else rest

-- No pending request could be answered, and the spare set is empty between calls.
pub record IsWaiting (s : ClientProxyState) : Type 0 where
  pub ascending : IsAscending s.pending_requests
  pub not_there : All (λ id. is_there s.world_data id ≡ false) s.pending_requests
  pub no_spare : s.pending_requests_swap ≡ []

pub fulfill_there :
    (world_data : List ℕ) (id : ℕ)
    → is_there world_data id ≡ true
    → try_fulfill_block_request world_data id ≡ some (block_of world_data id)
unfolding try_fulfill_block_request
fulfill_there world_data id h = rw h refl

pub fulfill_missing :
    (world_data : List ℕ) (id : ℕ)
    → is_there world_data id ≡ false
    → try_fulfill_block_request world_data id ≡ none
unfolding try_fulfill_block_request
fulfill_missing world_data id h = rw h refl

take-append : (n : ℕ) (xs ys : List ℕ) → n ≤ length xs → take n (xs ++ ys) ≡ take n xs
take-append zero xs ys h = refl
take-append (suc n) [] ys h = absurd (omega arith)
take-append (suc n) (x ∷ xs) ys h = ap (◌∷◌ x) (take-append n xs ys (omega arith))

take-drop-append :
    (k n : ℕ) (xs ys : List ℕ) → k + n ≤ length xs → take n (drop k (xs ++ ys)) ≡ take n (drop k xs)
take-drop-append zero n xs ys h = take-append n xs ys (omega arith)
take-drop-append (suc k) zero [] ys h = refl
take-drop-append (suc k) (suc n) [] ys h = absurd (omega arith)
take-drop-append (suc k) n (x ∷ xs) ys h = take-drop-append k n xs ys (omega arith)

-- A block that can be handed out stays the same, whatever data come behind it.
pub try_fulfill_block_request-append :
    (world_data more : List ℕ) (id : ℕ) (p : TransferBlockPacket)
    → try_fulfill_block_request world_data id ≡ some p
    → try_fulfill_block_request (world_data ++ more) id ≡ some p
try_fulfill_block_request-append world_data more id p h =
    elim (Bool-cases (is_there world_data id)) [
      | inr missing ↦ cc (fulfill_missing world_data id missing)
      | inl there ↦
          let offset = id * transfer_block_size in
          let inside : offset + transfer_block_size ≤ length world_data =
            leb→le (offset + transfer_block_size) (length world_data) there in
          let there' : is_there (world_data ++ more) id ≡ true =
            le→leb (offset + transfer_block_size) (length (world_data ++ more))
              (omega (arith, length-append world_data more)) in
          fulfill_there (world_data ++ more) id there'
          ∙ ap (λ (bytes : List ℕ). some (record { block_id = id; content = bytes }))
              (take-drop-append offset transfer_block_size world_data more inside)
          ∙ sym (fulfill_there world_data id there)
          ∙ h
    ]

module _ (api : Bytes) where
  -- The packets for the blocks of a list.
  abbrev pub answers : List ℕ → List ℕ → OutPackets
  answers world_data ids = map (λ id. (answer api (block_of world_data id), to_client)) ids

  loop_there :
      (world_data : List ℕ) (id : ℕ) (rest : List ℕ) (out : OutPackets) (swap : BtreeSet)
      → is_there world_data id ≡ true
      → answer_loop api world_data (id ∷ rest) (out, swap)
        ≡ answer_loop api world_data rest
            (out ++ (answer api (block_of world_data id), to_client) ∷ [], swap)
  unfolding answer_loop
  loop_there world_data id rest out swap h = rw (answer_loop, fulfill_there world_data id h) refl

  loop_missing :
      (world_data : List ℕ) (id : ℕ) (rest : List ℕ) (out : OutPackets) (swap : BtreeSet)
      → is_there world_data id ≡ false
      → answer_loop api world_data (id ∷ rest) (out, swap)
        ≡ answer_loop api world_data rest (out, insert id swap)
  unfolding answer_loop
  loop_missing world_data id rest out swap h =
      rw (answer_loop, fulfill_missing world_data id h) refl

  -- The requests that stay come behind those that the loop has kept already.
  answer_loop_lem :
      (world_data ids : List ℕ) (out : OutPackets) (swap : BtreeSet)
      → IsAscending ids
      → All (λ y. All (λ x. y < x) ids) swap
      → answer_loop api world_data ids (out, swap) ≡ (
        out ++ answers world_data (select (is_there world_data) ids),
        swap ++ select (λ id. not (is_there world_data id)) ids,
      )
  unfolding answer_loop
  answer_loop_lem world_data [] out swap asc below =
      λ i. (sym (append-nil out) i, sym (append-nil swap) i)
  answer_loop_lem world_data (id ∷ rest) out swap asc below =
      elim (Bool-cases (is_there world_data id)) [
        | inl h ↦
            loop_there world_data id rest out swap h
            ∙ answer_loop_lem world_data rest
                (out ++ (answer api (block_of world_data id), to_client) ∷ []) swap asc.1
                (All-map (λ y h. h.1) swap below)
            ∙ rw h (λ i. (
              append_assoc out ((answer api (block_of world_data id), to_client) ∷ [])
                  (answers world_data (select (is_there world_data) rest)) i,
              swap ++ select (λ id. not (is_there world_data id)) rest,
            ))
        | inr h ↦
            loop_missing world_data id rest out swap h
            ∙ ap (λ (t : BtreeSet). answer_loop api world_data rest (out, t))
                (insert_greatest id swap (All-map (λ y h. h.0) swap below))
            ∙ answer_loop_lem world_data rest out (swap ++ id ∷ []) asc.1 (
                All-append (λ y. All (λ x. y < x) rest) swap (id ∷ [])
                  (All-map (λ y h. h.1) swap below) (asc.0, tt))
            ∙ rw h (λ i. (
              out ++ answers world_data (select (is_there world_data) rest),
              append_assoc swap (id ∷ []) (select (λ id. not (is_there world_data id)) rest) i,
            ))
      ]

  select-All :
      (P : ℕ → Type 0) (test : ℕ → Bool) (ids : List ℕ) → All P ids → All P (select test ids)
  select-All P test [] h = tt
  select-All P test (id ∷ rest) h = ground (arith, select-All P test rest h.1)

  select-IsAscending :
      (test : ℕ → Bool) (ids : List ℕ) → IsAscending ids → IsAscending (select test ids)
  select-IsAscending test [] h = tt
  select-IsAscending test (id ∷ rest) h =
      ground (arith, select-IsAscending test rest h.1, select-All (λ y. id < y) test rest h.0)

  select_missing :
      (world_data ids : List ℕ)
      → All (λ id. is_there world_data id ≡ false) (select (λ id. not (is_there world_data id)) ids)
  select_missing world_data [] = tt
  select_missing world_data (id ∷ rest) = elim (Bool-cases (is_there world_data id)) [
    | inl h ↦ rw h (select_missing world_data rest)
    | inr h ↦ rw h (h, select_missing world_data rest)
  ]

  pub new-IsWaiting : (now : ℕ) → IsWaiting (new now)
  unfolding new
  new-IsWaiting now = record { ascending = tt; not_there = tt; no_spare = refl }

  -- If no pending block request could be answered before, new data of the world answer exactly
  -- the pending requests whose blocks they complete, in ascending order and each with the bytes
  -- of its block; the others stay pending, and again none of them could be answered.
  pub on_new_world_data_lem :
      (now : ℕ) (s : ClientProxyState) (new_data : List ℕ) (out : OutPackets)
      → IsWaiting s
      → let world_data = s.world_data ++ new_data in
        (on_new_world_data api now s (some new_data) out ≡ (
          record s {
            world_data = world_data;
            last_block_request = now;
            pending_requests = select (λ id. not (is_there world_data id)) s.pending_requests;
            pending_requests_swap = [];
          },
          out ++ answers world_data (select (is_there world_data) s.pending_requests),
        ))
        × IsWaiting (on_new_world_data api now s (some new_data) out).0
  unfolding on_new_world_data
  on_new_world_data_lem now s new_data out w =
      let world_data : List ℕ = s.world_data ++ new_data in
      let loop = answer_loop_lem world_data s.pending_requests out [] w.ascending tt in
      let run : answer_loop api world_data s.pending_requests (out, s.pending_requests_swap) ≡ (
        out ++ answers world_data (select (is_there world_data) s.pending_requests),
        select (λ id. not (is_there world_data id)) s.pending_requests,
      ) =
        ap (λ (t : BtreeSet). answer_loop api world_data s.pending_requests (out, t)) w.no_spare
        ∙ loop in
      (
        rw run refl,
        record {
          ascending = rw run (
              select-IsAscending (λ id. not (is_there world_data id)) s.pending_requests
                w.ascending);
          not_there = rw run (select_missing world_data s.pending_requests);
          no_spare = refl;
        },
      )

  -- The packet of a request for a block.
  abbrev pub request_packet : ℕ → List ℕ
  request_packet id =
      encode_full_packet api transfer_block_request
        (encode_block_request api (record { block_id = id }))

  block_request_of-request_packet :
      (id : ℕ)
      → IsU32 id
      → block_request_of api (request_packet id) ≡ some (record { block_id = id })
  unfolding block_request_of is_block_request new_unfragmented
  block_request_of-request_packet id h =
      let (body, header, request) =
        decode_block_request-encode_full_packet api (record { block_id = id }) h in
      rw header request

  -- The packet of a request for a block with a 32-bit number is answered with the bytes of the
  -- block if they are there, and else the number becomes pending and nothing is put out.
  pub on_packet_from_client-request_packet :
      (now : ℕ) (s : ClientProxyState) (id : ℕ) (out : OutPackets)
      → IsU32 id
      → on_packet_from_client api now s (request_packet id) out ≡ (
          if is_there s.world_data id
          then (record s { last_block_request = now }, out ++ answers s.world_data (id ∷ []))
          else (
            record s { pending_requests = insert id s.pending_requests; last_block_request = now },
            out,
          ))
  unfolding on_packet_from_client
  on_packet_from_client-request_packet now s id out h =
      elim (Bool-cases (is_there s.world_data id)) [
        | inl there ↦
            rw
              (
                on_packet_from_client,
                block_request_of-request_packet id h,
                fulfill_there s.world_data id there,
                there,
              )
              refl
        | inr missing ↦
            rw
              (
                on_packet_from_client,
                block_request_of-request_packet id h,
                fulfill_missing s.world_data id missing,
                missing,
              )
              refl
      ]
