-- ===== src/Packet.antt =====
-- `PacketParser` of src/packet_parser.cpp, on a little-endian host. The outer `none` is a read
-- outside the packet, the inner one the result `false`, of which no caller uses the packet.
pub mod Names
pub mod Job
pub mod Layout
pub mod Accepted
pub mod Reader
pub mod Capture
use multi_threaded_dpi_engin.Base.{
  ℕ, zero, suc, ◌+◌, ◌-◌, ◌*◌, ◌/◌, ◌%◌, Bool, true, false, not, ◌||◌, ◌==◌, ltb, if◌then◌else◌, [],
  ◌∷◌, ◌++◌, Option, none, some, ◌>>=◌, Bytes, length, bit_and, bit_or,
}
use multi_threaded_dpi_engin.Base.Bits.{shl, shr}
use multi_threaded_dpi_engin.Inspect.Memory.{read}
use multi_threaded_dpi_engin.Rules.Address.{ip_to_string}

-- `struct RawPacket` with its header.
pub record RawPacket : Type 0 where
  pub ts_sec : ℕ
  pub ts_usec : ℕ
  pub incl_len : ℕ
  pub orig_len : ℕ
  pub packet : Bytes

-- `struct ParsedPacket`; a null `payload_data` is `none`.
pub record ParsedPacket : Type 0 where
  pub timestamp_sec : ℕ
  pub timestamp_usec : ℕ
  pub src_mac : Bytes
  pub dest_mac : Bytes
  pub ether_type : ℕ
  pub has_ip : Bool
  pub ip_version : ℕ
  pub src_ip : Bytes
  pub dest_ip : Bytes
  pub protocol : ℕ
  pub ttl : ℕ
  pub has_tcp : Bool
  pub has_udp : Bool
  pub src_port : ℕ
  pub dest_port : ℕ
  pub tcp_flags : ℕ
  pub seq_number : ℕ
  pub ack_number : ℕ
  pub payload_length : ℕ
  pub payload_data : Option ℕ

-- `ParsedPacket()` with the timestamps of the raw packet.
abbrev pub new_parsed : RawPacket → ParsedPacket
new_parsed raw = record {
  timestamp_sec = raw.ts_sec;
  timestamp_usec = raw.ts_usec;
  src_mac = [];
  dest_mac = [];
  ether_type = 0;
  has_ip = false;
  ip_version = 0;
  src_ip = [];
  dest_ip = [];
  protocol = 0;
  ttl = 0;
  has_tcp = false;
  has_udp = false;
  src_port = 0;
  dest_port = 0;
  tcp_flags = 0;
  seq_number = 0;
  ack_number = 0;
  payload_length = 0;
  payload_data = none;
}

-- A step that may return `false`, and what follows where it does not.
unfoldable pub attempt {ℓ κ} :
    {A : Type ℓ} {B : Type κ} → Option (Option A) → (A → Option (Option B)) → Option (Option B)
attempt none f = none
attempt (some none) f = some none
attempt (some (some a)) f = f a

-- A load of 16 or 32 bits in the host's order.
unfoldable pub load_u16 : Bytes → ℕ → Option ℕ
load_u16 mem i = do a ← read mem i; b ← read mem (i + 1); some (a + shl b 8)

unfoldable pub load_u32 : Bytes → ℕ → Option ℕ
load_u32 mem i = do
  a ← read mem i
  b ← read mem (i + 1)
  c ← read mem (i + 2)
  d ← read mem (i + 3)
  some (a + shl b 8 + shl c 16 + shl d 24)

-- `swapBytes16` and `swapBytes32` of include/platform.h, which are `ntohs` and `ntohl` here.
unfoldable pub swap_bytes16 : ℕ → ℕ
swap_bytes16 v = bit_or (shr (bit_and v 0xff00) 8) (shl (bit_and v 0x00ff) 8)

unfoldable pub swap_bytes32 : ℕ → ℕ
swap_bytes32 v =
    bit_or
      (bit_or (bit_or (shr (bit_and v 0xff000000) 24) (shr (bit_and v 0x00ff0000) 8))
        (shl (bit_and v 0x0000ff00) 8))
      (shl (bit_and v 0x000000ff) 24)

unfoldable pub hex_digit : ℕ → ℕ
hex_digit d = if ltb d 10 then b'0' + d else b'a' + (d - 10)

-- The loop of `macToString` over the last `n` of the six bytes.
mac_bytes : ℕ → Bytes → ℕ → Option Bytes
unfolding hex_digit
mac_bytes zero mem i = some []
mac_bytes (suc n) mem i = do
  b ← read mem i
  rest ← mac_bytes n mem (i + 1)
  some ((if n == 5 then [] else b':' ∷ []) ++ (hex_digit (b / 16) ∷ (hex_digit (b % 16) ∷ rest)))

-- `macToString`
unfoldable pub mac_to_string : Bytes → ℕ → Option Bytes
unfolding mac_bytes
mac_to_string mem i = mac_bytes 6 mem i

-- `parseEthernet`; with the packet the offset behind the header is returned.
unfoldable pub parse_ethernet : Bytes → ParsedPacket → Option (Option (ParsedPacket × ℕ))
unfolding swap_bytes16
parse_ethernet mem parsed = if ltb (length mem) 14 then some none else do
  dest ← mac_to_string mem 0
  src ← mac_to_string mem 6
  word ← load_u16 mem 12
  some (some (record parsed { dest_mac = dest; src_mac = src; ether_type = swap_bytes16 word }, 14))

-- `parseIPv4` behind the tests.
read_ipv4 : Bytes → ParsedPacket → ℕ → ℕ → ℕ → Option (Option (ParsedPacket × ℕ))
read_ipv4 mem parsed offset version header_len = do
  ttl ← read mem (offset + 8)
  protocol ← read mem (offset + 9)
  src ← load_u32 mem (offset + 12)
  dest ← load_u32 mem (offset + 16)
  some (
      some (
        record parsed {
          ip_version = version;
          ttl = ttl;
          protocol = protocol;
          src_ip = ip_to_string src;
          dest_ip = ip_to_string dest;
          has_ip = true;
        },
        offset + header_len,
      ))

-- `parseIPv4`
unfoldable pub parse_ipv4 : Bytes → ParsedPacket → ℕ → Option (Option (ParsedPacket × ℕ))
unfolding read_ipv4
parse_ipv4 mem parsed offset = if ltb (length mem) (offset + 20) then some none else do
  version_ihl ← read mem offset
  let header_len = bit_and version_ihl 0x0f * 4
  let version = bit_and (shr version_ihl 4) 0x0f
  if not (version == 4)
      then some none
      else if ltb header_len 20 || ltb (length mem) (offset + header_len)
      then some none
      else read_ipv4 mem parsed offset version header_len

-- `parseTCP`
unfoldable pub parse_tcp : Bytes → ParsedPacket → ℕ → Option (Option (ParsedPacket × ℕ))
unfolding swap_bytes16 swap_bytes32
parse_tcp mem parsed offset = if ltb (length mem) (offset + 20) then some none else do
  src ← load_u16 mem offset
  dest ← load_u16 mem (offset + 2)
  seq ← load_u32 mem (offset + 4)
  ack ← load_u32 mem (offset + 8)
  data_offset ← read mem (offset + 12)
  flags ← read mem (offset + 13)
  let header_len = bit_and (shr data_offset 4) 0x0f * 4
  if ltb header_len 20 || ltb (length mem) (offset + header_len)
      then some none
      else some (
          some (
            record parsed {
              src_port = swap_bytes16 src;
              dest_port = swap_bytes16 dest;
              seq_number = swap_bytes32 seq;
              ack_number = swap_bytes32 ack;
              tcp_flags = flags;
              has_tcp = true;
            },
            offset + header_len,
          ))

-- `parseUDP`
unfoldable pub parse_udp : Bytes → ParsedPacket → ℕ → Option (Option (ParsedPacket × ℕ))
unfolding swap_bytes16
parse_udp mem parsed offset = if ltb (length mem) (offset + 8) then some none else do
  src ← load_u16 mem offset
  dest ← load_u16 mem (offset + 2)
  some (
      some (
        record parsed {
          src_port = swap_bytes16 src;
          dest_port = swap_bytes16 dest;
          has_udp = true;
        },
        offset + 8,
      ))

-- The choice by `parsed.protocol` in `parse`.
parse_transport : Bytes → ParsedPacket × ℕ → Option (Option (ParsedPacket × ℕ))
unfolding parse_tcp parse_udp
parse_transport mem (parsed, offset) =
    if parsed.protocol == 6
    then parse_tcp mem parsed offset
    else if parsed.protocol == 17
    then parse_udp mem parsed offset
    else some (some (parsed, offset))

-- The choice by `parsed.ether_type` in `parse`.
parse_network : Bytes → ParsedPacket × ℕ → Option (Option (ParsedPacket × ℕ))
unfolding attempt parse_ipv4 parse_transport
parse_network mem (parsed, offset) =
    if parsed.ether_type == 0x0800
    then attempt (parse_ipv4 mem parsed offset) (parse_transport mem)
    else some (some (parsed, offset))

set_payload : Bytes → ParsedPacket × ℕ → ParsedPacket
set_payload mem (parsed, offset) =
    if ltb offset (length mem)
    then record parsed { payload_length = length mem - offset; payload_data = some offset }
    else record parsed { payload_length = 0; payload_data = none }

-- `PacketParser::parse`
unfoldable pub parse : RawPacket → Option (Option ParsedPacket)
unfolding attempt parse_ethernet parse_network set_payload
parse raw =
    attempt (parse_ethernet raw.packet (new_parsed raw))
      λ r. attempt (parse_network raw.packet r) λ s. some (some (set_payload raw.packet s))
