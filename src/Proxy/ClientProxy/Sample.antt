-- ===== src/Proxy/ClientProxy/Sample.antt =====
-- A world of one file whose chunk the other proxy has, and codes that carry its messages.
use factorio_multiplayer_cac.Common.{
  ℕ, zero, suc, ◌*◌, ◌≤◌, ◌≡◌, refl, sym, ap, ◌∙◌, Option, none, some, List, [], ◌∷◌, ◌++◌,
  append_assoc, length, length-append, to_le_bytes, arith, inl, inr, ◌>>=◌, >>=-eq-some, append-nil,
}
use factorio_multiplayer_cac.Common.HashMap.{get, bytes_key, bytes_eq}
use factorio_multiplayer_cac.Crates.Codec.{Serde, plain_zstd}
use factorio_multiplayer_cac.Dedup.{
  ChunkKey, normal, zlib, FactorioFileType, FactorioFileDescription, ok,
}
use factorio_multiplayer_cac.ChunkCache.Waiting.{IsIn}
use factorio_multiplayer_cac.Proxy.ServerProxy.Transfer.{find_chunks}
use factorio_multiplayer_cac.Proxy.ClientProxy.Exchange.{IsCarried, IsWritten}
use factorio_multiplayer_cac.Dedup.{Outcome, err, panic}
use factorio_multiplayer_cac.Dedup.Rebuild.{Outcome-cases}
use factorio_multiplayer_cac.Dedup.Chunks.{ChunkMap}
use factorio_multiplayer_cac.FactorioProtocol.{FactorioWorldMetadata}
use factorio_multiplayer_cac.Protocol.{
  Codes, WorldReadyMessage, RequestChunksMessage, SendChunksMessage,
}

-- Each number is written as the next one, and zero ends a list.
write_list : List ℕ → List ℕ
write_list [] = 0 ∷ []
write_list (x ∷ xs) = suc x ∷ write_list xs

write_lists : List (List ℕ) → List ℕ
write_lists [] = []
write_lists (xs ∷ xss) = write_list xs ++ write_lists xss

read_lists : List ℕ → List ℕ → List (List ℕ)
read_lists front [] = []
read_lists front (zero ∷ bytes) = front ∷ read_lists [] bytes
read_lists front (suc x ∷ bytes) = read_lists (front ++ x ∷ []) bytes

read_lists-write_list :
    (front xs bytes : List ℕ)
    → read_lists front (write_list xs ++ bytes) ≡ (front ++ xs) ∷ read_lists [] bytes
unfolding read_lists write_list
read_lists-write_list front [] bytes = ap (λ t. t ∷ read_lists [] bytes) (sym (append-nil front))
read_lists-write_list front (x ∷ xs) bytes =
    read_lists-write_list (front ++ x ∷ []) xs bytes
    ∙ ap (λ t. t ∷ read_lists [] bytes) (append_assoc front (x ∷ []) xs)

read_lists-write_lists : (xss : List (List ℕ)) → read_lists [] (write_lists xss) ≡ xss
unfolding read_lists write_lists
read_lists-write_lists [] = refl
read_lists-write_lists (xs ∷ xss) =
    read_lists-write_list [] xs (write_lists xss) ∙ ap (◌∷◌ xs) (read_lists-write_lists xss)

-- A type whose values are lists of lists of bytes.
module _ {A : Type 0} (lists : A → Option (List (List ℕ))) (value : List (List ℕ) → Option A)
    (value-lists : (a : A) (xss : List (List ℕ)) → lists a ≡ some xss → value xss ≡ some a) where
  by_lists : Serde A
  unfolding write_lists read_lists
  by_lists = record {
    write = λ a. lists a >>= λ xss. some (write_lists xss);
    from_read = λ bytes. value (read_lists [] bytes);
    from_read_write = λ a bytes written.
        let (xss, listed, is) = >>=-eq-some (lists a) (λ xss. some (write_lists xss)) written in
        let same : write_lists xss ≡ bytes = cc (is) in
        ap (λ t. value (read_lists [] t)) (sym same)
        ∙ ap value (read_lists-write_lists xss)
        ∙ value-lists a xss listed;
  }

meta_list : FactorioWorldMetadata → List ℕ
meta_list m = m.world_size ∷ m.no_idea1 ∷ m.aux_size ∷ m.no_idea2 ∷ m.world_crc ∷ []

type_code : FactorioFileType → ℕ
type_code normal = 0
type_code zlib = 1

type_of : ℕ → FactorioFileType
type_of zero = normal
type_of (suc n) = zlib

type_of-type_code : (t : FactorioFileType) → type_of (type_code t) ≡ t
unfolding type_of type_code
type_of-type_code normal = refl
type_of-type_code zlib = refl

abbrev listed :
    FactorioFileDescription → List ℕ → FactorioWorldMetadata → FactorioWorldMetadata → List (List ℕ)
listed f aux old new =
    (type_code f.file_type ∷ f.content_size ∷ [])
    ∷ f.file_name
    ∷ aux
    ∷ meta_list old
    ∷ meta_list new
    ∷ f.content_chunks

-- Worlds of one file are enough here.
abbrev file_lists :
    List FactorioFileDescription
    → List ℕ
    → FactorioWorldMetadata
    → FactorioWorldMetadata
    → Option (List (List ℕ))
file_lists (f ∷ []) aux old new = some (listed f aux old new)
file_lists _ aux old new = none

world_value : List (List ℕ) → Option WorldReadyMessage
world_value
      ((t ∷ size ∷ [])
        ∷ name
        ∷ aux
        ∷ (a ∷ b ∷ c ∷ d ∷ e ∷ [])
        ∷ (a' ∷ b' ∷ c' ∷ d' ∷ e' ∷ [])
        ∷ chunks) =
    some (record {
      world = record {
        files =
            record {
              file_type = type_of t;
              file_name = name;
              content_size = size;
              content_chunks = chunks;
            }
            ∷ [];
        aux_data = aux;
      };
      old_info = record { world_size = a; no_idea1 = b; aux_size = c; no_idea2 = d; world_crc = e };
      new_info = record {
        world_size = a';
        no_idea1 = b';
        aux_size = c';
        no_idea2 = d';
        world_crc = e';
      };
    })
world_value _ = none

one_file_lem :
    (f : FactorioFileDescription) (aux : List ℕ) (old new : FactorioWorldMetadata)
    (xss : List (List ℕ))
    → some (listed f aux old new) ≡ some xss
    → world_value xss
      ≡ some (record {
        world = record { files = f ∷ []; aux_data = aux };
        old_info = old;
        new_info = new;
      })
unfolding world_value meta_list
one_file_lem f aux old new xss h =
    let same : listed f aux old new ≡ xss = cc (h) in
    ap world_value (sym same)
    ∙ ap
        (λ t. some (record {
          world = record { files = record f { file_type = t } ∷ []; aux_data = aux };
          old_info = old;
          new_info = new;
        }))
        (type_of-type_code f.file_type)

world_value-world_lists :
    (files : List FactorioFileDescription) (aux : List ℕ) (old new : FactorioWorldMetadata)
    (xss : List (List ℕ))
    → file_lists files aux old new ≡ some xss
    → world_value xss
      ≡ some (record {
        world = record { files = files; aux_data = aux };
        old_info = old;
        new_info = new;
      })
world_value-world_lists [] aux old new xss h = cc
world_value-world_lists (f ∷ []) aux old new xss h = one_file_lem f aux old new xss h
world_value-world_lists (f ∷ g ∷ fs) aux old new xss h = cc

pub codes : Codes
codes = record {
  zstd = plain_zstd;
  world_ready =
      by_lists
        (λ (m : WorldReadyMessage). file_lists m.world.files m.world.aux_data m.old_info m.new_info)
        world_value
        (λ m xss h.
          world_value-world_lists m.world.files m.world.aux_data m.old_info m.new_info xss h);
  request_chunks =
      by_lists (λ (m : RequestChunksMessage). some m.requested_chunks)
        (λ xss. some (record { requested_chunks = xss }))
        (λ m xss h. ap (λ o. o >>= λ xss. some (record { requested_chunks = xss })) (sym h));
  send_chunks =
      by_lists (λ (m : SendChunksMessage). some m.chunks) (λ xss. some (record { chunks = xss }))
        (λ m xss h. ap (λ o. o >>= λ xss. some (record { chunks = xss })) (sym h));
}

abbrev pub key : ChunkKey
key = to_le_bytes 32 2

abbrev pub original : ChunkMap
original = (key, 1 ∷ 2 ∷ []) ∷ []

abbrev pub message : WorldReadyMessage
message = record {
  world = record {
    files =
        record {
          file_type = normal;
          file_name = 97 ∷ [];
          content_size = 2;
          content_chunks = key ∷ [];
        }
        ∷ [];
    aux_data = 7 ∷ 8 ∷ [];
  };
  old_info = record { world_size = 500; no_idea1 = 0; aux_size = 2; no_idea2 = 0; world_crc = 7 };
  new_info = record { world_size = 1000; no_idea1 = 0; aux_size = 2; no_idea2 = 0; world_crc = 7 };
}

length-write_list : (xs : List ℕ) → length (write_list xs) ≡ suc (length xs)
unfolding write_list
length-write_list [] = refl
length-write_list (x ∷ xs) = ap suc (length-write_list xs)

keys_small :
    (js : List ChunkKey)
    → ((k : ChunkKey) → IsIn k js → IsIn k (key ∷ []))
    → length (write_lists js) ≤ 33 * length js
unfolding write_lists
keys_small [] members = omega arith
keys_small (j ∷ js) members = elim (members j (inl refl)) [
  | inl e ↦ omega (
    arith,
    ap (length {A = ℕ}) e,
    length-append (write_list j) (write_lists js),
    length-write_list j,
    keys_small js (λ k m. members k (inr m)),
  )
  | inr m ↦ absurd m
]

abbrev chunk_before : Outcome (List (List ℕ)) → Outcome (List (List ℕ))
chunk_before (ok rest) = ok ((1 ∷ 2 ∷ []) ∷ rest)
chunk_before err = err
chunk_before panic = panic

chunk_before_lem :
    (js : List ChunkKey) → find_chunks (key ∷ js) original ≡ chunk_before (find_chunks js original)
unfolding find_chunks get bytes_eq
chunk_before_lem js = elim (Outcome-cases (find_chunks js original)) [
  | inl f ↦ rw (find_chunks, f) refl
  | inr (inl f) ↦ rw (find_chunks, f) refl
  | inr (inr (rest, f)) ↦ rw (find_chunks, f) refl
]

nil_found : ok [] ≡ find_chunks [] original
unfolding find_chunks
nil_found = refl

chunks_small :
    (js : List ChunkKey) (cs : List (List ℕ))
    → ((k : ChunkKey) → IsIn k js → IsIn k (key ∷ []))
    → find_chunks js original ≡ ok cs
    → length (write_lists cs) ≤ 3 * length js
unfolding write_lists write_list
chunks_small [] cs members run =
    let is : [] ≡ cs = cc (nil_found ∙ run) in
    omega (arith, ap (λ (t : List (List ℕ)). length (write_lists t)) is)
chunks_small (j ∷ js) cs members run = elim (members j (inl refl)) [
  | inl e ↦
      let run' : chunk_before (find_chunks js original) ≡ ok cs =
        sym (chunk_before_lem js) ∙ ap (λ k. find_chunks (k ∷ js) original) e ∙ run in
      elim (Outcome-cases (find_chunks js original)) [
        | inl f ↦ cc (rw f at run')
        | inr (inl f) ↦ cc (rw f at run')
        | inr (inr (rest, f)) ↦
            let is : (1 ∷ 2 ∷ []) ∷ rest ≡ cs = cc (rw f at run') in
            omega (
              arith,
              ap (λ (t : List (List ℕ)). length (write_lists t)) is,
              chunks_small js rest (λ k m. members k (inr m)) f,
            )
      ]
  | inr m ↦ absurd m
]

-- The messages for every batch of keys of the world can be written.
pub carried :
    (js : List ChunkKey)
    → length js ≤ 512
    → ((k : ChunkKey) → IsIn k js → IsIn k (key ∷ []))
    → IsCarried codes original js
unfolding codes by_lists plain_zstd
carried js few members = (
  (write_lists js, refl, omega (arith, keys_small js members)),
  λ cs run. (write_lists cs, refl, omega (arith, chunks_small js cs members run)),
)

pub announced : IsWritten codes original codes.world_ready message
unfolding codes by_lists plain_zstd write_lists write_list type_code meta_list
announced = (_, refl, omega arith)
