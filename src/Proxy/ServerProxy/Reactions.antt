-- ===== src/Proxy/ServerProxy/Reactions.antt =====
-- One packet of the server: the call returns, and leaves the proxy's state in order.
use factorio_multiplayer_cac.Common.{
  ℕ, suc, ◌≡◌, refl, sym, ◌∙◌, Bool, true, false, Option, none, some, List, [], ◌∷◌, ◌++◌, length,
  ◌==◌, ◌-◌, ltb, if◌then◌else◌, Bool-cases, Option-cases, inl, inr, arith,
}
use factorio_multiplayer_cac.Crates.Bytes.{Bytes}
use factorio_multiplayer_cac.Crates.Memmem.{Memmem}
use factorio_multiplayer_cac.Dedup.{Outcome, ok}
use factorio_multiplayer_cac.FactorioProtocol.{
  FactorioWorldMetadata, TransferBlockPacket, encode_metadata,
}
use factorio_multiplayer_cac.FactorioProtocol.Packets.{length-encode_metadata}
use factorio_multiplayer_cac.Proxy.{to_client, OutPackets}
use factorio_multiplayer_cac.Proxy.ServerProxy.{
  DownloadingWorldState, Arrival, block_arrives, broken_arrives, other_arrives, arrival_of,
  announce, start_download, request_next_blocks, on_transfer_block, on_other_packet,
}
use factorio_multiplayer_cac.Proxy.ServerProxy.Phases.{
  FilteringPacketsState, ServerProxyPhase, waiting_for_world, downloading_world, done,
  ServerProxyState, Reaction, finalize_world, pass_on, map_ready_of, announcing_filter,
  transition_to_downloading_world, on_packet_while_downloading, on_packet_from_server,
}
use factorio_multiplayer_cac.Proxy.ServerProxy.Loop.{Event, from_socket, from_queue, over}
use factorio_multiplayer_cac.Proxy.ServerProxy.Filter.{filter_packet_lem, replaced_at}
use factorio_multiplayer_cac.Proxy.ServerProxy.Ongoing.{
  IsOngoing, IsReady, on_transfer_block-IsOngoing, on_other_packet-IsOngoing,
  start_download-IsOngoing,
}

-- A filter that replaces bytes by as many.
abbrev pub IsFilter : FilteringPacketsState → Type 0
IsFilter f =
    ((n : ℕ) × (ns : List ℕ) × (f.needle ≡ n ∷ ns)) × (length f.replace_with ≡ length f.needle)

abbrev pub IsFiltering : Option FilteringPacketsState → Type 0
IsFiltering none = Unit
IsFiltering (some f) = IsFilter f

nonempty : (bytes : List ℕ) → length bytes ≡ 20 → (n : ℕ) × (ns : List ℕ) × (bytes ≡ n ∷ ns)
nonempty [] h = absurd (omega (arith, h))
nonempty (n ∷ ns) h = (n, ns, refl)

-- The downloads that may still go to a task.
abbrev pub chances : ServerProxyPhase → ℕ
chances waiting_for_world = 1
chances (downloading_world d) = 1
chances done = 0

filter_stays :
    (stop : Bool) (f : FilteringPacketsState)
    → IsFilter f
    → IsFiltering (if stop then none else some f)
filter_stays true f h = tt
filter_stays false f h = h

module _ (api : Bytes) where
  announcing_filter-IsFilter :
      (now : ℕ) (world_info : FactorioWorldMetadata)
      → IsFilter (announcing_filter api now world_info)
  unfolding announcing_filter
  announcing_filter-IsFilter now world_info =
      let size : length (encode_metadata api world_info []) ≡ 20 =
        length-encode_metadata api world_info [] in
      (
        nonempty (encode_metadata api world_info []) size,
        length-encode_metadata api (announce world_info) [] ∙ sym size,
      )

module _ (P : TransferBlockPacket → Type 0) where
  -- What is asked of an arrival of the server.
  abbrev pub IsFromServer : Arrival → Type 0
  IsFromServer (block_arrives now b) = P b
  IsFromServer broken_arrives = Unit
  IsFromServer (other_arrives now) = Unit

module _ (Q : FactorioWorldMetadata → Type 0) where
  abbrev pub IsDescribed : Option FactorioWorldMetadata → Type 0
  IsDescribed none = Unit
  IsDescribed (some world_info) = Q world_info

module _ (api : Bytes) (P : TransferBlockPacket → Type 0) (Q : FactorioWorldMetadata → Type 0) where
  -- What is asked of a packet of the server, as a block and as a heartbeat.
  abbrev pub IsPacket : ℕ → List ℕ → Type 0
  IsPacket now packet_data =
      IsFromServer P (arrival_of api now packet_data) × IsDescribed Q (map_ready_of api packet_data)

  -- What the packets of the server on the socket are asked to be.
  abbrev pub IsTruthful : ℕ → Event → Type 0
  IsTruthful factorio_addr (from_socket now remote_addr packet_data) =
      (remote_addr == factorio_addr) ≡ true → IsPacket now packet_data
  IsTruthful factorio_addr (from_queue packet_data) = Unit
  IsTruthful factorio_addr over = Unit

module _ (api : Bytes) (memmem : Memmem) {Streams : Type 0} (P : TransferBlockPacket → Type 0)
    (Q : FactorioWorldMetadata → Type 0) where
  -- The streams are there until the download is complete, and every download goes by its metadata.
  abbrev pub IsPhase : ServerProxyPhase → Option Streams → Type 0
  IsPhase waiting_for_world streams = (s : Streams) × (streams ≡ some s)
  IsPhase (downloading_world d) streams = ((s : Streams) × (streams ≡ some s)) × IsOngoing P Q d
  IsPhase done streams = Unit

  pub record IsSession (state : ServerProxyState Streams) : Type 0 where
    pub phased : IsPhase state.phase state.comp_stream
    pub filtering : IsFiltering state.packet_filter

  -- A download goes to a task when it is ready, and then no other does.
  abbrev pub IsSpawn : ℕ → ServerProxyPhase → Option (Streams × DownloadingWorldState) → Type 0
  IsSpawn before phase none = chances phase ≡ before
  IsSpawn before phase (some (streams, d)) = (suc (chances phase) ≡ before) × IsReady P Q api d

  -- The call returns, and leaves a session.
  abbrev pub IsReaction : ℕ → Outcome (Reaction Streams) → Type 0
  IsReaction before outcome =
      (r : Reaction Streams) × (outcome ≡ ok r)
      × IsSession r.state
      × IsSpawn before r.state.phase r.spawned

  abbrev state_of :
      ServerProxyPhase → Option FilteringPacketsState → Option Streams → ServerProxyState Streams
  state_of phase filter streams = record {
    phase = phase;
    packet_filter = filter;
    comp_stream = streams;
  }

  finalize_world-IsReaction :
      (d : DownloadingWorldState) (filter : Option FilteringPacketsState) (streams : Option Streams)
      (out : OutPackets)
      → IsReady P Q api d
      → IsSession (state_of (downloading_world d) filter streams)
      → IsReaction 1 (finalize_world (state_of (downloading_world d) filter streams) out)
  unfolding finalize_world
  finalize_world-IsReaction d filter streams out ready s =
      let ((t, there), o) = s.phased in
      (
        record { state = state_of done filter none; out_packets = out; spawned = some (t, d) },
        rw there refl,
        record { phased = tt; filtering = s.filtering },
        (refl, ready),
      )

  pass_on-IsReaction :
      (now : ℕ) (phase : ServerProxyPhase) (filter : Option FilteringPacketsState)
      (streams : Option Streams) (packet_data : List ℕ) (out : OutPackets)
      → IsSession (state_of phase filter streams)
      → IsReaction
          (chances phase)
          (pass_on memmem now (state_of phase filter streams) packet_data out)
  unfolding pass_on
  pass_on-IsReaction now phase none streams packet_data out s = (_, refl, s, refl)
  pass_on-IsReaction now phase (some f) streams packet_data out s =
      let ((n, ns, is), same) = s.filtering in
      let (gaps, filtered, run, replaced, size) =
        filter_packet_lem memmem now f packet_data n ns is same in
      let f' : FilteringPacketsState = record f {
        last_replace = replaced_at gaps now f.last_replace;
      } in
      let stop : Bool = ltb 30000 (now - f'.last_replace) in
      let r : Reaction Streams = record {
        state = state_of phase (if stop then none else some f') streams;
        out_packets = out ++ (filtered, to_client) ∷ [];
        spawned = none;
      } in
      (
        r,
        rw run refl,
        record { phased = s.phased; filtering = filter_stays stop f' s.filtering },
        refl,
      )

  transition-IsReaction :
      (now : ℕ) (filter : Option FilteringPacketsState) (streams : Option Streams)
      (packet_data : List ℕ) (world_info : FactorioWorldMetadata) (out : OutPackets)
      → Q world_info
      → IsSession (state_of waiting_for_world filter streams)
      → IsReaction 1 (
          transition_to_downloading_world api memmem now
            (state_of waiting_for_world filter streams)
            packet_data
            world_info
            out)
  unfolding transition_to_downloading_world
  transition-IsReaction now filter streams packet_data world_info out good s =
      let ((n, ns, is), same) = announcing_filter-IsFilter api now world_info in
      let (gaps, filtered, run, replaced, size) =
        filter_packet_lem memmem now (announcing_filter api now world_info) packet_data n ns is
          same in
      let first : OutPackets = out ++ (filtered, to_client) ∷ [] in
      let (d, out') = request_next_blocks api (start_download now world_info) first in
      let f : FilteringPacketsState = record (announcing_filter api now world_info) {
        last_replace = replaced_at gaps now now;
      } in
      let r : Reaction Streams = record {
        state = state_of (downloading_world d) (some f) streams;
        out_packets = out';
        spawned = none;
      } in
      (
        r,
        rw (announcing_filter, run) refl,
        record {
          phased = (s.phased, start_download-IsOngoing P Q api now world_info first good);
          filtering = announcing_filter-IsFilter api now world_info;
        },
        refl,
      )

  while_downloading-IsReaction :
      (filter : Option FilteringPacketsState) (streams : Option Streams) (d : DownloadingWorldState)
      (packet_data : List ℕ) (now : ℕ) (arrival : Arrival) (out : OutPackets)
      → IsFromServer P arrival
      → IsSession (state_of (downloading_world d) filter streams)
      → IsReaction 1 (
          on_packet_while_downloading api memmem
            (state_of (downloading_world d) filter streams)
            d
            packet_data
            now
            arrival
            out)
  unfolding on_packet_while_downloading
  while_downloading-IsReaction filter streams d packet_data now (block_arrives at b) out good s =
      let (o, ready) = on_transfer_block-IsOngoing P Q api at d b out good s.phased.1 in
      let d' : DownloadingWorldState = (on_transfer_block api at d b out).1 in
      let s' : IsSession (state_of (downloading_world d') filter streams) = record {
        phased = (s.phased.0, o);
        filtering = s.filtering;
      } in
      elim (Bool-cases (on_transfer_block api at d b out).0) [
        | inl c ↦
            rw (on_packet_while_downloading, c)
              (finalize_world-IsReaction d' filter streams (on_transfer_block api at d b out).2
                (ready c) s')
        | inr c ↦ rw (on_packet_while_downloading, c) (_, refl, s', refl)
      ]
  while_downloading-IsReaction filter streams d packet_data now broken_arrives out good s =
      (_, refl, s, refl)
  while_downloading-IsReaction filter streams d packet_data now (other_arrives at) out good s =
      let (d', out') = on_other_packet api at d out in
      pass_on-IsReaction now (downloading_world d') filter streams packet_data out' (record {
        phased = (s.phased.0, on_other_packet-IsOngoing P Q api at d out s.phased.1);
        filtering = s.filtering;
      })

  pub on_packet_lem :
      (now : ℕ) (phase : ServerProxyPhase) (filter : Option FilteringPacketsState)
      (streams : Option Streams) (packet_data : List ℕ) (out : OutPackets)
      → IsPacket api P Q now packet_data
      → IsSession (state_of phase filter streams)
      → IsReaction
          (chances phase)
          (on_packet_from_server api memmem now (state_of phase filter streams) packet_data out)
  unfolding on_packet_from_server
  on_packet_lem now waiting_for_world filter streams packet_data out good s =
      elim (Option-cases (map_ready_of api packet_data)) [
        | inl e ↦
            rw (on_packet_from_server, e)
              (pass_on-IsReaction now waiting_for_world filter streams packet_data out s)
        | inr (info, e) ↦
            rw (on_packet_from_server, e)
              (transition-IsReaction now filter streams packet_data info out (rw e at good.1) s)
      ]
  on_packet_lem now (downloading_world d) filter streams packet_data out good s =
      while_downloading-IsReaction filter streams d packet_data now (arrival_of api now packet_data)
        out good.0 s
  on_packet_lem now done filter streams packet_data out good s =
      pass_on-IsReaction now done filter streams packet_data out s
