-- ===== src/Proxy/ClientProxy.antt =====
-- src/proxy/client_proxy.rs: the state of the proxy of one game client, which answers the client's
-- block requests from the world data that have come so far.
pub mod Requests
pub mod Calls
pub mod Transfer
pub mod Exchange
pub mod Work
pub mod Fetch
pub mod Rebuild
pub mod World
pub mod Complete
pub mod Sample
pub mod Around
pub mod Route
pub mod Routed
pub mod Loop
pub mod Serving
mod LoopRuns
mod Runs
use factorio_multiplayer_cac.Common.{
  ℕ, zero, suc, ◌+◌, ◌-◌, ◌*◌, Bool, true, false, ◌&&◌, not, Option, none, some, List, [], ◌∷◌,
  ◌++◌, length, take, drop, ltb, leb, if◌then◌else◌, ◌>>=◌,
}
use factorio_multiplayer_cac.Common.BtreeSet.{BtreeSet, insert}
use factorio_multiplayer_cac.Crates.Bytes.{Bytes}
use factorio_multiplayer_cac.FactorioProtocol.{
  PacketType, transfer_block_request, transfer_block, TransferBlockRequestPacket,
  TransferBlockPacket, transfer_block_size, decode_header, decode_block_request, encode_full_packet,
  encode_block,
}
use factorio_multiplayer_cac.Proxy.{PacketDirection, to_client, to_server, OutPackets}

-- Times are in milliseconds.
abbrev pub world_data_timeout : ℕ
world_data_timeout = 60000

pub record ClientProxyState : Type 0 where
  pub world_data : List ℕ
  pub last_block_request : ℕ
  pub pending_requests : BtreeSet
  pub pending_requests_swap : BtreeSet
  pub world_data_done : Bool

unfoldable pub new : ℕ → ClientProxyState
new now = record {
  world_data = [];
  last_block_request = now;
  pending_requests = [];
  pending_requests_swap = [];
  world_data_done = false;
}

-- `requested_block_id` is a `u32`, so that the offset fits a `usize`.
unfoldable pub try_fulfill_block_request : List ℕ → ℕ → Option TransferBlockPacket
try_fulfill_block_request world_data requested_block_id =
    let offset = requested_block_id * transfer_block_size in
    if leb (offset + transfer_block_size) (length world_data)
    then some (record {
      block_id = requested_block_id;
      content = take transfer_block_size (drop offset world_data);
    })
    else none

unfoldable pub is_block_request : PacketType → Bool
is_block_request transfer_block_request = true
is_block_request _ = false

unfoldable pub is_empty : List ℕ → Bool
is_empty [] = true
is_empty (b ∷ bs) = false

-- The world data go when they are complete and no block was requested for a time.
unfoldable pub clean_up : ℕ → ClientProxyState → ClientProxyState
unfolding is_empty
clean_up now self =
    if not (is_empty self.world_data)
      && self.world_data_done
      && ltb world_data_timeout (now - self.last_block_request)
    then record self { world_data = [] }
    else self

module _ (api : Bytes) where
  -- The block request that a packet is, if it is one.
  unfoldable pub block_request_of : List ℕ → Option TransferBlockRequestPacket
  unfolding is_block_request
  block_request_of packet_data = do
    (header, msg_data) ← decode_header api packet_data
    if is_block_request header.packet_type then decode_block_request api msg_data else none

  unfoldable pub answer : TransferBlockPacket → List ℕ
  answer response = encode_full_packet api transfer_block (encode_block api response)

  -- One reading of the clock, `now`, serves for a whole call.
  unfoldable pub on_packet_from_client :
      ℕ → ClientProxyState → List ℕ → OutPackets → ClientProxyState × OutPackets
  unfolding block_request_of try_fulfill_block_request answer clean_up
  on_packet_from_client now self packet_data out_packets = elim (block_request_of packet_data) [
    | none ↦ (clean_up now self, out_packets ++ (packet_data, to_server) ∷ [])
    | some request ↦ elim (try_fulfill_block_request self.world_data request.block_id) [
      | some response ↦ (
        record self { last_block_request = now },
        out_packets ++ (answer response, to_client) ∷ [],
      )
      | none ↦ (
        record self {
          pending_requests = insert request.block_id self.pending_requests;
          last_block_request = now;
        },
        out_packets,
      )
    ]
  ]

  -- The loop over the pending requests; the set is the one for the requests that stay.
  unfoldable pub answer_loop : List ℕ → List ℕ → OutPackets × BtreeSet → OutPackets × BtreeSet
  unfolding try_fulfill_block_request answer
  answer_loop world_data [] s = s
  answer_loop world_data (requested_block_id ∷ rest) (out_packets, swap) =
      elim (try_fulfill_block_request world_data requested_block_id) [
        | some response ↦
            answer_loop world_data rest (out_packets ++ (answer response, to_client) ∷ [], swap)
        | none ↦ answer_loop world_data rest (out_packets, insert requested_block_id swap)
      ]

  unfoldable pub on_new_world_data :
      ℕ → ClientProxyState → Option (List ℕ) → OutPackets → ClientProxyState × OutPackets
  unfolding answer_loop
  on_new_world_data now self none out_packets =
      (record self { world_data_done = true; last_block_request = now }, out_packets)
  on_new_world_data now self (some new_data) out_packets =
      let world_data = self.world_data ++ new_data in
      let (out_packets', swap) =
        answer_loop world_data self.pending_requests (out_packets, self.pending_requests_swap) in
      (
        record self {
          world_data = world_data;
          last_block_request = now;
          pending_requests = swap;
          pending_requests_swap = [];
        },
        out_packets',
      )
