-- ===== src/Lib.antt =====
-- A verification library for Factorio Cacher, a proxy that speeds up the world download of Factorio
-- servers by sending the parts of a world that the client does not have.
--
-- The server proxy downloads the world from the game's server and takes it apart: the files of the
-- archive are decoded, cut into chunks and listed by the hashes of their chunks. The client proxy
-- fetches the chunks that its cache lacks and puts the archive together again. The new archive
-- stores its files otherwise, so its size and CRC differ; the server proxy has announced a size
-- beforehand, and the client proxy pads the archive to that size and forges its CRC.
--
-- The files here, by the code that they model:
--   Chunker             src/chunker.rs: RabinKarpHash (new is new_hash, update, reset) and Chunker
--                       (new, next); collect is a loop over the iterator, as in chunk_file.
--                       Chunker/Rolling has the hash as a polynomial, Chunker/Split the sizes and the
--                       end of chunking, Chunker/Local the stability of boundaries.
--   RevCrc              src/rev_crc.rs: RevCRC, its digest (RevDigest::update is update, RevCRC::update
--                       is update_value) and forge_crc. RevCrc/Undo has the reverse table as the inverse
--                       of the forward one, RevCrc/Forge the forged bytes.
--   ZipWriter           src/zip_writer.rs. ZipWriter/Layout has the bytes that are written,
--                       ZipWriter/Archive the stream, ZipWriter/Reader an independent reader.
--   Utils               src/utils.rs: the number format of the game.
--   FactorioProtocol    src/factorio_protocol.rs: the packets; a function's name says its packet, as
--                       decode_block for TransferBlockPacket::decode.
--   Dedup               src/dedup.rs: chunk_file, deconstruct_world, and WorldReconstructor (new,
--                       reconstruct_world_file, finalize_world_file, the latter from the central
--                       directory on as seal_world). Dedup/Chunks, Dedup/Files, Dedup/RoundTrip,
--                       Dedup/Rebuild, Dedup/Blocks, Dedup/Seal and Dedup/Finalize carry the proofs.
--   ChunkCache          src/chunk_cache.rs: RawChunkCache (new_raw, insert_raw, get_raw) and ChunkCache.
--                       get_chunks_batched is split at its await: gather is what it does under its
--                       first lock, collect_waited what it does under the second. ChunkCache/Eviction
--                       and ChunkCache/Lookup are about the cache, ChunkCache/Batches and
--                       ChunkCache/Progress about the batches, ChunkCache/Waiting about the tasks, as a
--                       step relation, ChunkCache/Honest about a cache whose chunks match.
--                       ChunkCache/File has the file (read_chunk_cache, write_chunk_cache, try_save,
--                       start_writer, load_from_file), with the disk as a value and the Booleans for what it allows;
--                       ChunkCache/Written and ChunkCache/Saved are about a file that was saved,
--                       ChunkCache/Damaged about any.
--   Protocol            src/protocol.rs: Datagram (decode, encode), the messages with encode_message and
--                       decode_message, write_message and read_message.
--   Proxy               src/proxy/mod.rs and src/proxy/client_proxy.rs: ClientProxyState (new,
--                       on_packet_from_client, on_new_world_data, try_fulfill_block_request) in
--                       Proxy/ClientProxy, with the time as an argument. Proxy/ClientProxy/Requests is
--                       about block requests, Proxy/ClientProxy/Calls about sequences of calls.
--                       Proxy/ServerProxy has the download phase of src/proxy/server_proxy.rs: its start
--                       in transition_to_downloading_world, request_next_blocks, and what
--                       on_packet_from_server does in that phase (arrive, for a packet as arrival_of
--                       reads it). Proxy/ServerProxy/Tracking is about the sets of block numbers,
--                       Proxy/ServerProxy/Download and Proxy/ServerProxy/Ongoing about the download.
--                       Proxy/ServerProxy/Phases has ServerProxyState with its phases and the packet
--                       filter, Proxy/ServerProxy/Loop the loop of proxy_server over what its select!
--                       gives, and Proxy/ServerProxy/Transfer the transfer_world_data of this side.
--                       Proxy/ServerProxy/Filter is about the filter, Proxy/ServerProxy/Reactions about
--                       one packet, Proxy/ServerProxy/Session about the loop, Proxy/ServerProxy/Sorting
--                       and Proxy/ServerProxy/Assemble about what a download gives.
--                       Proxy/ClientProxy/Transfer has the transfer_world_data of the client, on the
--                       modelled cache, reconstructor and messages: what the other proxy sends back and
--                       what other tasks do to the cache, before each lock and while the task waits for chunks
--                       that they fetch, are its Surroundings. Proxy/ClientProxy/Work and
--                       Proxy/ClientProxy/Exchange are about its state and one exchange with the loop of
--                       the other proxy, Proxy/ClientProxy/Fetch about a round, Proxy/ClientProxy/Rebuild
--                       and Proxy/ClientProxy/World about the task against a reference, and
--                       Proxy/ClientProxy/Complete about its outcome. Proxy/ClientProxy/Loop has the loop
--                       of proxy_client, Proxy/ClientProxy/Serving is about it. Proxy/ClientProxy/Route and
--                       Proxy/ServerProxy/Route have run_client_proxy and run_server_proxy, with channels
--                       known by numbers, and the modules Routed beside them say where packets go.
--                       Proxy/Entries and Proxy/Restored take both sides together, from the download
--                       of the server's side to the blocks of the client's.
--   Crates              what the program uses of the packages bytes, crc, blake3, miniz_oxide, zip,
--                       hashlink, memchr, rmp-serde, zstd, quinn and tokio: records of functions
--                       and of the behaviour that is documented, which the definitions take as
--                       arguments.
--   Common              shared names, lists by native numbers, words, exclusive or, HashMap of the
--                       standard library as an association list and BTreeSet as an ascending one.
-- The modules whose names end in Runs apply the theorems to concrete inputs, which the modules Sample
-- and Around beside them share.
--
-- Numbers and panics. A byte, a word and a usize are natural numbers; arithmetic on u32 and u64 wraps
-- as in a release build, and a sum of lengths in memory is taken to fit usize. A buffer is the list of
-- its bytes. An Option is none for an error or for a panic, as the comment of the definition says;
-- Outcome of Dedup tells errors from panics. A field called data in the code is called bytes or content.
--
-- Fuel. Chunking takes fuel, one more than the input has bytes, and the eviction loop takes one more
-- than the cache has entries; the theorems on chunks_of and insert_raw show that this is enough. The loop
-- for one file in the task of the client takes one more than there are keys wanted, since each round takes
-- a key from them or is the last; the theorem on rebuilt_world shows that this is enough. The loop over
-- the requests of the client takes one more than there are bytes on the stream, since each message takes
-- four bytes at least; the theorems on the client's task rest on the answer to one request on the stream,
-- and show that the fuel is enough for it. All other loops are structural recursion.
--
-- Not modelled: sockets, channels and tasks themselves, so that a loop takes what its select! gives as
-- a list of events, and a packet that is offered to a queue may be dropped there; the
-- getters of the cache (src/chunk_cache.rs); the command line (src/main.rs), the QUIC configuration
-- (src/quic.rs), the log and abbreviate_number, which are input and output.
pub mod Common
pub mod Crates
pub mod RevCrc
pub mod ZipWriter
pub mod Chunker
pub mod Utils
pub mod FactorioProtocol
pub mod Dedup
pub mod ChunkCache
pub mod Protocol
pub mod Proxy
