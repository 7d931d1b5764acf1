-- ===== src/Proxy/ServerProxy/Session.antt =====
-- The proxy of one client from its start: it does not panic, and it transfers one world at most.
use factorio_multiplayer_cac.Common.{
  ℕ, ◌+◌, ◌≡◌, refl, Bool, Option, none, some, List, [], ◌∷◌, length, length-append, All,
  All-append, ◌==◌, Bool-cases, inl, inr, arith,
}
use factorio_multiplayer_cac.Crates.Bytes.{Bytes}
use factorio_multiplayer_cac.Crates.Memmem.{Memmem}
use factorio_multiplayer_cac.Crates.Stream.{VarInt}
use factorio_multiplayer_cac.Dedup.{ok}
use factorio_multiplayer_cac.FactorioProtocol.{FactorioWorldMetadata, TransferBlockPacket}
use factorio_multiplayer_cac.Proxy.{to_server}
use factorio_multiplayer_cac.Proxy.ServerProxy.{DownloadingWorldState}
use factorio_multiplayer_cac.Proxy.ServerProxy.Phases.{
  ServerProxyPhase, ServerProxyState, Reaction, new,
}
use factorio_multiplayer_cac.Proxy.ServerProxy.Loop.{
  Event, from_socket, from_queue, over, Sent, Trace, spawn, send_all, react, proxy_server,
}
use factorio_multiplayer_cac.Proxy.ServerProxy.Ongoing.{IsReady}
use factorio_multiplayer_cac.Proxy.ServerProxy.Reactions.{
  IsSession, chances, IsSpawn, on_packet_lem, IsTruthful,
}

module _ (api : Bytes) (memmem : Memmem) {Streams : Type 0} (P : TransferBlockPacket → Type 0)
    (Q : FactorioWorldMetadata → Type 0) where
  -- The downloads that went to tasks, and the one that may follow, are one in all, and each is
  -- ready.
  abbrev pub IsTrace : ServerProxyState Streams → Trace Streams → Type 0
  IsTrace state trace =
      (length trace.spawned + chances state.phase ≡ 1)
      × All (λ (task : Streams × DownloadingWorldState). IsReady P Q api task.1) trace.spawned

  IsTrace-spawn :
      (before : ℕ) (phase : ServerProxyPhase) (spawned : Option (Streams × DownloadingWorldState))
      (tasks : List (Streams × DownloadingWorldState))
      → length tasks + before ≡ 1
      → All (λ (task : Streams × DownloadingWorldState). IsReady P Q api task.1) tasks
      → IsSpawn api memmem P Q before phase spawned
      → (length (spawn spawned tasks) + chances phase ≡ 1)
        × All
            (λ (task : Streams × DownloadingWorldState). IsReady P Q api task.1)
            (spawn spawned tasks)
  IsTrace-spawn before phase none tasks count ready same = (omega (arith, count, same), ready)
  IsTrace-spawn before phase (some task) tasks count ready (one, good) = (
    omega (arith, count, one, length-append tasks (task ∷ [])),
    All-append (λ (task : Streams × DownloadingWorldState). IsReady P Q api task.1) tasks
        (task ∷ []) ready (good, tt),
  )

  module _ (var_int : VarInt) (accepts : Sent → Bool) (factorio_addr peer_id : ℕ) where
    -- A round returns.
    abbrev IsRound : ServerProxyState Streams → Option (Reaction Streams) → Type 0
    IsRound state none = Unit
    IsRound state (some r) =
        IsSession api memmem P Q r.state
        × IsSpawn api memmem P Q (chances state.phase) r.state.phase r.spawned

    react-IsRound :
        (state : ServerProxyState Streams) (event : Event)
        → IsTruthful api P Q factorio_addr event
        → IsSession api memmem P Q state
        → (reaction : Option (Reaction Streams)) × (react api memmem var_int accepts factorio_addr
              peer_id state event
            ≡ ok reaction)
          × IsRound state reaction
    unfolding react
    react-IsRound state (from_socket now remote_addr packet_data) truthful s =
        elim (Bool-cases (remote_addr == factorio_addr)) [
          | inl e ↦
              let (r, run, s', spawns) =
                on_packet_lem api memmem P Q now state.phase state.packet_filter state.comp_stream
                  packet_data [] (truthful e) s in
              (some r, rw (react, e, run) refl, (s', spawns))
          | inr e ↦
              let r : Reaction Streams = record {
                state = state;
                out_packets = [];
                spawned = none;
              } in
              (some r, rw (react, e) refl, (s, refl))
        ]
    react-IsRound state (from_queue packet_data) truthful s =
        let r : Reaction Streams = record {
          state = state;
          out_packets = (packet_data, to_server) ∷ [];
          spawned = none;
        } in
        (some r, refl, (s, refl))
    react-IsRound state over truthful s = (none, refl, tt)

    -- The loop returns with a trace of downloads that are ready.
    abbrev IsRun : ServerProxyState Streams → List Event → Trace Streams → Type 0
    IsRun state events trace =
        (state' : ServerProxyState Streams) × (trace' : Trace Streams) × (proxy_server api memmem
            var_int accepts factorio_addr peer_id state events trace
          ≡ ok (state', trace'))
        × IsTrace state' trace'

    IsRun-cons :
        (state : ServerProxyState Streams) (event : Event) (rest : List Event)
        (trace : Trace Streams) (reaction : Option (Reaction Streams))
        → react api memmem var_int accepts factorio_addr peer_id state event ≡ ok reaction
        → IsRound state reaction
        → IsTrace state trace
        → ((state' : ServerProxyState Streams) (trace' : Trace Streams)
            → IsSession api memmem P Q state'
            → IsTrace state' trace'
            → IsRun state' rest trace')
        → IsRun state (event ∷ rest) trace
    unfolding proxy_server
    IsRun-cons state event rest trace none run round t later = (state, trace, rw run refl, t)
    IsRun-cons state event rest trace (some r) run (s', spawns) t later =
        let (all, sent) = send_all var_int accepts peer_id r.out_packets trace.sent in
        let trace' : Trace Streams = record {
          sent = sent;
          spawned = spawn r.spawned trace.spawned;
        } in
        let t' : IsTrace r.state trace' =
          IsTrace-spawn (chances state.phase) r.state.phase r.spawned trace.spawned t.0 t.1
            spawns in
        elim (Bool-cases all) [
          | inl c ↦
              let (state'', trace'', run', t'') = later r.state trace' s' t' in
              (state'', trace'', rw (run, c) run', t'')
          | inr c ↦ (r.state, trace', rw (run, c) refl, t')
        ]

    proxy_server_lem :
        (state : ServerProxyState Streams) (events : List Event) (trace : Trace Streams)
        → All (IsTruthful api P Q factorio_addr) events
        → IsSession api memmem P Q state
        → IsTrace state trace
        → IsRun state events trace
    unfolding proxy_server
    proxy_server_lem state [] trace truthful s t = (state, trace, refl, t)
    proxy_server_lem state (event ∷ rest) trace truthful s t =
        let (reaction, run, round) = react-IsRound state event truthful.0 s in
        IsRun-cons state event rest trace reaction run round t
          (λ state' trace' s' t'. proxy_server_lem state' rest trace' truthful.1 s' t')

    new-IsSession : (streams : Streams) → IsSession api memmem P Q (new streams)
    unfolding new
    new-IsSession streams = record { phased = (streams, refl); filtering = tt }

    -- For any property of blocks and any of metadata that all from the address of the server
    -- have, the loop of one client returns without a panic from its start; the downloads that
    -- went to tasks and the one that the phase still allows are one in all; and each that went
    -- has all its blocks, goes by metadata with the one property, and has blocks with the other.
    pub proxy_server-IsTrace :
        (streams : Streams) (events : List Event)
        → All (IsTruthful api P Q factorio_addr) events
        → (state' : ServerProxyState Streams) × (trace' : Trace Streams) × (proxy_server api memmem
              var_int accepts factorio_addr peer_id
              (new streams)
              events
              (record { sent = []; spawned = [] })
            ≡ ok (state', trace'))
          × IsTrace state' trace'
    unfolding new
    proxy_server-IsTrace streams events truthful =
        proxy_server_lem (new streams) events (record { sent = []; spawned = [] }) truthful
          (new-IsSession streams) (refl, tt)
