-- ===== src/Proxy/Runs.antt =====
-- src/proxy: a world of one file from the server's side to the client's.
use factorio_multiplayer_cac.Common.{
  ℕ, zero, suc, ◌≡◌, refl, sym, ap, ◌∙◌, IsByte, IsU16, IsU32, none, some, Option, List, [], ◌∷◌,
  length, replicate, All, arith,
}
use mathlib.Core.Path.{subst}
use factorio_multiplayer_cac.Common.HashMap.{insert, bytes_key}
use factorio_multiplayer_cac.Crates.Bytes.{plain_bytes}
use factorio_multiplayer_cac.Crates.Crc.IsoHdlc.{iso_hdlc}
use factorio_multiplayer_cac.Crates.Content.{ZipReader, length_hash, no_compression}
use factorio_multiplayer_cac.Crates.LinkedMap.{list_map}
use factorio_multiplayer_cac.Crates.Stream.{plain_io}
use factorio_multiplayer_cac.Chunker
use factorio_multiplayer_cac.Chunker.Split.{chunks_of, chunks_of_small}
use factorio_multiplayer_cac.ChunkCache
use factorio_multiplayer_cac.ChunkCache.{ChunkCacheInner, new_raw}
use factorio_multiplayer_cac.ChunkCache.Eviction.{new_raw-IsCache}
use factorio_multiplayer_cac.Dedup.{
  FactorioFile, FactorioFileDescription, normal, ok, encode_by_type, decode_factorio_file,
  is_level_dat, base_name, strip_prefix, all_digits, chunk_file, chunk_loop, deconstruct_entry,
  deconstruct_loop, deconstruct_world,
}
use factorio_multiplayer_cac.Dedup.Files.{AreChunks}
use factorio_multiplayer_cac.Dedup.RoundTrip.{AreFilesChunks}
use factorio_multiplayer_cac.Protocol.Messages.{frame}
use factorio_multiplayer_cac.Proxy.ServerProxy.{DownloadingWorldState}
use factorio_multiplayer_cac.Proxy.ServerProxy.Transfer as ServerTask
use factorio_multiplayer_cac.Proxy.ServerProxy.Transfer.{
  collect_world, received_data_of, sort_blocks, insert_block, slice,
}
use factorio_multiplayer_cac.Proxy.ClientProxy.Transfer as ClientTask
use factorio_multiplayer_cac.Proxy.ClientProxy.Transfer.{Surroundings, chunk_keys}
use factorio_multiplayer_cac.Proxy.ClientProxy.World.{blocks_of}
use factorio_multiplayer_cac.Proxy.ClientProxy.Complete.{IsFitting}
use factorio_multiplayer_cac.Proxy.ClientProxy.Around.{alone, alone-AreFair}
use factorio_multiplayer_cac.Proxy.ClientProxy.Sample.{
  codes, key, original, message, carried, announced,
}
use factorio_multiplayer_cac.Proxy.Entries.{AreFitting}
use factorio_multiplayer_cac.Proxy.Restored.{
  IsConnected, IsRestored, message_of, transfer_world_data-IsRestored,
}

-- A stand-in for the reader of archives: every archive has one file.
abbrev entry : ℕ → Option (List ℕ × Option (List ℕ))
entry zero = some (97 ∷ [], some (1 ∷ 2 ∷ []))
entry (suc i) = none

abbrev one_file : ZipReader
one_file = record {
  Archive = Unit {0};
  open_archive = λ bytes. some tt;
  len = λ archive. 1;
  by_index = λ archive. entry;
}

abbrev file : FactorioFile
file = record { file_type = normal; content = 1 ∷ 2 ∷ [] }

abbrev file_desc : FactorioFileDescription
file_desc = record {
  file_type = normal;
  file_name = 97 ∷ [];
  content_size = 2;
  content_chunks = key ∷ [];
}

-- A download with its last block first.
abbrev state : DownloadingWorldState
state = record {
  world_info = message.old_info;
  new_world_info = message.new_info;
  world_block_count = 1;
  received_blocks =
      record { block_id = 1; content = 7 ∷ 8 ∷ [] }
      ∷ record { block_id = 0; content = replicate 503 9 }
      ∷ [];
  block_request_queue = [];
  inflight_block_requests = [];
  last_block_time = 0;
}

collected : collect_world state ≡ ok (replicate 500 9, 7 ∷ 8 ∷ [])
unfolding collect_world received_data_of sort_blocks insert_block slice
collected = refl

chunked : Chunker.collect 3 (Chunker.new (1 ∷ 2 ∷ [])) ≡ some ((1 ∷ 2 ∷ []) ∷ [])
chunked = unfold chunks_of in chunks_of_small 1 (2 ∷ []) (omega arith)

decoded_file : decode_factorio_file no_compression (97 ∷ []) (1 ∷ 2 ∷ []) ≡ ok file
unfolding decode_factorio_file is_level_dat base_name strip_prefix all_digits
decoded_file = refl

chunked_file : chunk_file length_hash (97 ∷ []) file [] ≡ some (file_desc, original)
unfolding chunk_file chunk_loop insert
chunked_file = rw (chunk_file, chunked) refl

deconstructed :
    deconstruct_world length_hash no_compression one_file (replicate 500 9) (7 ∷ 8 ∷ [])
    ≡ ok (message.world, original)
unfolding deconstruct_world deconstruct_loop deconstruct_entry
deconstructed =
    rw (deconstruct_world, deconstruct_loop, deconstruct_entry, decoded_file, chunked_file) refl

abbrev IsTheChunk : List ℕ → Type 0
IsTheChunk c = c ≡ 1 ∷ 2 ∷ []

only_one :
    (a b : List ℕ) → IsTheChunk a → IsTheChunk b → length_hash.hash a ≡ length_hash.hash b → a ≡ b
only_one a b ha hb same = ha ∙ sym hb

file-AreChunks : AreChunks length_hash IsTheChunk only_one (1 ∷ 2 ∷ [])
file-AreChunks cs run =
    let cs_is : (1 ∷ 2 ∷ []) ∷ [] ≡ cs = cc (run, chunks_of_small 1 (2 ∷ []) (omega arith)) in
    subst (All IsTheChunk) cs_is (refl, tt)

files-AreChunks : AreFilesChunks length_hash IsTheChunk only_one no_compression one_file tt
files-AreChunks zero name buf decoded there decodes =
    let decoded_is : file ≡ decoded = cc (there, decodes, decoded_file) in
    let content_is : 1 ∷ 2 ∷ [] ≡ decoded.content =
      ap (λ (f : FactorioFile). f.content) decoded_is in
    subst (AreChunks length_hash IsTheChunk only_one) content_is file-AreChunks
files-AreChunks (suc i) name buf decoded there decodes = absurd (cc)

files-AreFitting : AreFitting length_hash IsTheChunk only_one no_compression one_file tt
unfolding encode_by_type
files-AreFitting zero name buf decoded there decodes =
    let decoded_is : file ≡ decoded = cc (there, decodes, decoded_file) in
    let name_is : 97 ∷ [] ≡ name = cc (there) in
    (
      subst (All IsByte) name_is (omega arith, tt),
      subst (λ (n : List ℕ). IsU16 (length n)) name_is (omega arith),
      subst
          (λ (f : FactorioFile).
            IsU32 (length (encode_by_type no_compression f.file_type f.content)))
          decoded_is (omega arith),
    )
files-AreFitting (suc i) name buf decoded there decodes = absurd (cc)

abbrev empty_cache : ChunkCacheInner list_map
empty_cache = ChunkCache.new list_map 5000

connected :
    IsConnected length_hash list_map plain_io codes alone 5000 empty_cache
      (message_of state message.world)
      original
unfolding ChunkCache.new new_raw chunk_keys
connected = record {
  fair = alone-AreFair;
  answered = λ written. refl;
  carried = carried;
  stays_open = λ n. refl;
  honest = record { counted = new_raw-IsCache list_map 5000; limit = refl; originals = tt };
  announced = announced;
}

fitting : IsFitting plain_bytes iso_hdlc no_compression message.world message.new_info
fitting = record {
  size_fits = omega arith;
  aux_fits = omega arith;
  crc_fits = omega arith;
  aux_bytes = (omega arith, (omega arith, tt));
  count_fits = omega arith;
}

transfer_world_data-IsRestored_example :
    (msg_data : List ℕ) × (ServerTask.transfer_world_data plain_io codes length_hash no_compression
        one_file state []
      ≡ ok (frame plain_io msg_data))
    × IsRestored iso_hdlc length_hash IsTheChunk only_one no_compression one_file tt plain_bytes
        message.new_info
        (7 ∷ 8 ∷ [])
        (blocks_of (
          ClientTask.transfer_world_data list_map alone plain_bytes iso_hdlc no_compression
            length_hash plain_io codes empty_cache 0
            (frame plain_io msg_data)))
transfer_world_data-IsRestored_example =
    transfer_world_data-IsRestored iso_hdlc length_hash IsTheChunk only_one no_compression one_file
      tt plain_bytes list_map plain_io codes alone 5000 state (replicate 500 9) (7 ∷ 8 ∷ [])
      message.world original empty_cache 0 collected refl deconstructed files-AreChunks
      files-AreFitting (λ c is. omega (arith, ap (length {A = ℕ}) is)) fitting connected
