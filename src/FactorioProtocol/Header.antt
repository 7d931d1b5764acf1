-- ===== src/FactorioProtocol/Header.antt =====
-- The header byte, both ways.
use native.Mathlib.Nat.{mod-eq_of_lt}
use factorio_multiplayer_cac.Common.{
  ◌>>=◌, ℕ, ◌+◌, ◌-◌, ◌*◌, ◌/◌, ◌%◌, ◌<◌, ◌≡◌, ◌≢◌, refl, ap, ◌∙◌, bit_and, bit_or, Bool, not, some,
  List, [], ◌∷◌, ◌++◌, ◌==◌, ==_iff, if◌then◌else◌, IsByte, arith,
}
use factorio_multiplayer_cac.Common.Below.{holds_below, holds_below_lem}
use factorio_multiplayer_cac.Crates.Bytes.{Bytes}
use factorio_multiplayer_cac.FactorioProtocol.{
  PacketType, unknown, packet_type_from, packet_type_into, FactorioPacketHeader, header_of_flags,
  flags_of_header, decode_header, encode_header,
}

-- The value that a header is sent with, for the types that a header can carry.
abbrev pub IsCanonical : PacketType → Type 0
IsCanonical (unknown v) = (v < 32) × (v ≢ 7) × (v ≢ 12) × (v ≢ 13)
IsCanonical t = Unit

low_bits : (x : ℕ) → x < 256 → bit_and x 0b0001_1111 ≡ x % 32
low_bits x h =
    (==_iff _ _).0
      (holds_below_lem (λ x. bit_and x 0b0001_1111 == x % 32) 256 x h (unfold holds_below in refl))

fragment_bit : (x : ℕ) → x < 256 → bit_and x 0b0100_0000 ≡ x / 64 % 2 * 64
fragment_bit x h = (==_iff _ _).0 (
    holds_below_lem (λ x. bit_and x 0b0100_0000 == x / 64 % 2 * 64) 256 x h
      (unfold holds_below in refl))

last_bit : (x : ℕ) → x < 256 → bit_and x 0b1000_0000 ≡ x / 128 * 128
last_bit x h = (==_iff _ _).0 (
    holds_below_lem (λ x. bit_and x 0b1000_0000 == x / 128 * 128) 256 x h
      (unfold holds_below in refl))

set_fragment : (v : ℕ) → v < 32 → bit_or v 0b0100_0000 ≡ v + 64
set_fragment v h =
    (==_iff _ _).0
      (holds_below_lem (λ v. bit_or v 0b0100_0000 == v + 64) 32 v h (unfold holds_below in refl))

set_last : (v : ℕ) → v < 128 → bit_or v 0b1000_0000 ≡ v + 128
set_last v h =
    (==_iff _ _).0
      (holds_below_lem (λ v. bit_or v 0b1000_0000 == v + 128) 128 v h (unfold holds_below in refl))

packet_type_into-lt : (t : PacketType) → IsCanonical t → packet_type_into t < 32
unfolding packet_type_into
packet_type_into-lt (unknown v) h = h.0
packet_type_into-lt _ h = omega arith

packet_type_from-into : (t : PacketType) → IsCanonical t → packet_type_from (packet_type_into t) ≡ t
unfolding packet_type_from packet_type_into
packet_type_from-into (unknown v) h = ground arith
packet_type_from-into _ h = refl

packet_type_into-from : (v : ℕ) → packet_type_into (packet_type_from v) ≡ v
unfolding packet_type_from packet_type_into
packet_type_into-from v = ground arith

bit_weight : Bool → ℕ → ℕ
bit_weight b w = if b then w else 0

flags_as_sum :
    (h : FactorioPacketHeader)
    → IsCanonical h.packet_type
    → flags_of_header h
      ≡ packet_type_into h.packet_type
        + bit_weight h.is_fragmented 64
        + bit_weight h.is_last_fragment 128
unfolding flags_of_header bit_weight
flags_as_sum h c =
    let v : ℕ = packet_type_into h.packet_type in
    ground
      (arith, packet_type_into-lt h.packet_type c, set_fragment v, set_last v, set_last (v + 64))

flags_of_header-lt :
    (h : FactorioPacketHeader) → IsCanonical h.packet_type → flags_of_header h < 256
unfolding bit_weight
flags_of_header-lt h c = ground (arith, flags_as_sum h c, packet_type_into-lt h.packet_type c)

type_read :
    (h : FactorioPacketHeader)
    → IsCanonical h.packet_type
    → bit_and (flags_of_header h) 0b0001_1111 ≡ packet_type_into h.packet_type
unfolding bit_weight
type_read h c =
    low_bits (flags_of_header h) (flags_of_header-lt h c)
    ∙ ground (arith, flags_as_sum h c, packet_type_into-lt h.packet_type c)

fragment_read :
    (h : FactorioPacketHeader)
    → IsCanonical h.packet_type
    → not (bit_and (flags_of_header h) 0b0100_0000 == 0) ≡ h.is_fragmented
unfolding bit_weight
fragment_read h c = ground (
  arith,
  fragment_bit (flags_of_header h) (flags_of_header-lt h c),
  flags_as_sum h c,
  packet_type_into-lt h.packet_type c,
)

last_read :
    (h : FactorioPacketHeader)
    → IsCanonical h.packet_type
    → not (bit_and (flags_of_header h) 0b1000_0000 == 0) ≡ h.is_last_fragment
unfolding bit_weight
last_read h c = ground (
  arith,
  last_bit (flags_of_header h) (flags_of_header-lt h c),
  flags_as_sum h c,
  packet_type_into-lt h.packet_type c,
)

header_of_flags-flags_of_header :
    (h : FactorioPacketHeader) → IsCanonical h.packet_type → header_of_flags (flags_of_header h) ≡ h
unfolding header_of_flags
header_of_flags-flags_of_header h c = λ i. record {
  packet_type = (ap packet_type_from (type_read h c) ∙ packet_type_from-into h.packet_type c) i;
  is_fragmented = fragment_read h c i;
  is_last_fragment = last_read h c i;
}

flags_of_header-header_of_flags :
    (flags : ℕ)
    → IsByte flags
    → flags_of_header (header_of_flags flags) ≡ flags - flags / 32 % 2 * 32
unfolding flags_of_header header_of_flags
flags_of_header-header_of_flags flags hb =
    let v : ℕ = bit_and flags 0b0001_1111 in
    ground (
      arith,
      packet_type_into-from v,
      low_bits flags hb,
      fragment_bit flags hb,
      last_bit flags hb,
      set_fragment v,
      set_last v,
      set_last (v + 64),
    )

module _ (api : Bytes) where
  -- A header whose packet type is one that decoding yields is read back from its encoding, with
  -- what follows left.
  pub decode_header-encode_header :
      (h : FactorioPacketHeader) (rest : List ℕ)
      → IsCanonical h.packet_type
      → decode_header api (encode_header api h [] ++ rest) ≡ some (h, rest)
  unfolding decode_header encode_header
  decode_header-encode_header h rest c =
      ap (λ t. api.try_get_u8 (t ++ rest) >>= λ x. some (header_of_flags x.0, x.1))
        (api.put_u8_lem [] (flags_of_header h))
      ∙ rw api.try_get_u8_cons (
          ap (λ n. some (header_of_flags n, rest)) (mod-eq_of_lt (flags_of_header-lt h c))
          ∙ ap (λ t. some (t, rest)) (header_of_flags-flags_of_header h c))

  -- Every byte decodes to a header, and encoding it gives the byte without bit 5.
  pub encode_header-decode_header :
      (flags : ℕ) (rest : List ℕ)
      → IsByte flags
      → (h : FactorioPacketHeader) × (decode_header api (flags ∷ rest) ≡ some (h, rest))
        × (encode_header api h [] ≡ (flags - flags / 32 % 2 * 32) ∷ [])
  unfolding decode_header encode_header
  encode_header-decode_header flags rest hb = (
    header_of_flags flags,
    rw api.try_get_u8_cons refl,
    rw api.put_u8_lem (
        ap (λ n. n ∷ [])
          (ap (λ n. n % 256) (flags_of_header-header_of_flags flags hb) ∙ omega arith)),
  )
