-- ===== src/Pcap.antt =====
-- `PcapReader` of src/pcap_reader.cpp, on a little-endian host. A file is the bytes that are still to
-- be read; a file that cannot be opened is `none`. What a failed read leaves in a buffer is not kept.
pub mod Words
pub mod Images
pub mod RoundTrip
pub mod Progress
use multi_threaded_dpi_engin.Base.{
  ℕ, zero, suc, ◌+◌, Bool, true, false, ◌&&◌, ◌||◌, ◌==◌, ltb, leb, if◌then◌else◌, List, [], ◌∷◌,
  Option, none, some, ◌>>=◌, Bytes, length, take, drop,
}
use multi_threaded_dpi_engin.Packet.{RawPacket, load_u16, load_u32, swap_bytes16, swap_bytes32}

-- `struct PcapGlobalHeader`; `thiszone` is kept as its 32 bits.
pub record GlobalHeader : Type 0 where
  pub magic_number : ℕ
  pub version_major : ℕ
  pub version_minor : ℕ
  pub thiszone : ℕ
  pub sigfigs : ℕ
  pub snaplen : ℕ
  pub network : ℕ

-- `std::ifstream`: `read` takes the bytes it asks for, or fails and fails from then on.
pub record Stream : Type 0 where
  pub rest : Bytes
  pub good : Bool

unfoldable pub read_bytes : ℕ → Stream → Option Bytes × Stream
read_bytes n file =
    if file.good && leb n (length file.rest)
    then (some (take n file.rest), record file { rest = drop n file.rest })
    else (none, record { rest = []; good = false })

pub record PcapReader : Type 0 where
  pub file : Option Stream
  pub global_header : GlobalHeader
  pub needs_byte_swap : Bool

-- `maybeSwap16` and `maybeSwap32`
unfoldable pub maybe_swap16 : Bool → ℕ → ℕ
unfolding swap_bytes16
maybe_swap16 swap value = if swap then swap_bytes16 value else value

unfoldable pub maybe_swap32 : Bool → ℕ → ℕ
unfolding swap_bytes32
maybe_swap32 swap value = if swap then swap_bytes32 value else value

-- `close`
unfoldable pub close : PcapReader → PcapReader
close r = record r { file = none; needs_byte_swap = false }

-- The fields in the 24 bytes of the global header.
unfoldable pub global_header_of : Bytes → Option GlobalHeader
global_header_of bytes = do
  magic_number ← load_u32 bytes 0
  version_major ← load_u16 bytes 4
  version_minor ← load_u16 bytes 6
  thiszone ← load_u32 bytes 8
  sigfigs ← load_u32 bytes 12
  snaplen ← load_u32 bytes 16
  network ← load_u32 bytes 20
  some (record {
    magic_number = magic_number;
    version_major = version_major;
    version_minor = version_minor;
    thiszone = thiszone;
    sigfigs = sigfigs;
    snaplen = snaplen;
    network = network;
  })

abbrev pub magic_native : ℕ
magic_native = 0xa1b2c3d4

abbrev pub magic_swapped : ℕ
magic_swapped = 0xd4c3b2a1

-- `open` from the magic number on.
check_magic : GlobalHeader → Stream → PcapReader → Bool × PcapReader
unfolding close maybe_swap16 maybe_swap32
check_magic h file r =
    if h.magic_number == magic_native
    then (true, record { file = some file; global_header = h; needs_byte_swap = false })
    else if h.magic_number == magic_swapped
    then (
      true,
      record {
        file = some file;
        global_header = record h {
          version_major = maybe_swap16 true h.version_major;
          version_minor = maybe_swap16 true h.version_minor;
          snaplen = maybe_swap32 true h.snaplen;
          network = maybe_swap32 true h.network;
        };
        needs_byte_swap = true;
      },
    )
    else (false, close (record r { global_header = h }))

with_global : Option GlobalHeader → Stream → PcapReader → Bool × PcapReader
unfolding check_magic
with_global none file r = (false, close r)
with_global (some h) file r = check_magic h file r

opened : Option Bytes × Stream → PcapReader → Bool × PcapReader
unfolding with_global global_header_of
opened (none, file) r = (false, close r)
opened (some bytes, file) r = with_global (global_header_of bytes) file r

-- `open`
unfoldable pub open_file : Option Bytes → PcapReader → Bool × PcapReader
unfolding opened read_bytes close
open_file none r = (false, close r)
open_file (some bytes) r = opened (read_bytes 24 (record { rest = bytes; good = true })) (close r)

-- The fields in the 16 bytes of a packet's header, still without data.
unfoldable pub packet_header_of : Bytes → Option RawPacket
packet_header_of bytes = do
  ts_sec ← load_u32 bytes 0
  ts_usec ← load_u32 bytes 4
  incl_len ← load_u32 bytes 8
  orig_len ← load_u32 bytes 12
  some (record {
    ts_sec = ts_sec;
    ts_usec = ts_usec;
    incl_len = incl_len;
    orig_len = orig_len;
    packet = [];
  })

pub swap_header : Bool → RawPacket → RawPacket
unfolding maybe_swap32
swap_header swap raw = record raw {
  ts_sec = maybe_swap32 swap raw.ts_sec;
  ts_usec = maybe_swap32 swap raw.ts_usec;
  incl_len = maybe_swap32 swap raw.incl_len;
  orig_len = maybe_swap32 swap raw.orig_len;
}

with_content : Option Bytes × Stream → RawPacket → PcapReader → Option RawPacket × PcapReader
with_content (none, file) raw r = (none, record r { file = some file })
with_content (some bytes, file) raw r =
    (some (record raw { packet = bytes }), record r { file = some file })

-- `readNextPacket` from the check of the length on.
read_content : RawPacket → Stream → PcapReader → Option RawPacket × PcapReader
unfolding with_content read_bytes
read_content raw file r =
    if ltb r.global_header.snaplen raw.incl_len || ltb 65535 raw.incl_len
    then (none, record r { file = some file })
    else with_content (read_bytes raw.incl_len file) raw r

with_packet : Option RawPacket → Stream → PcapReader → Option RawPacket × PcapReader
unfolding read_content swap_header
with_packet none file r = (none, record r { file = some file })
with_packet (some raw) file r = read_content (swap_header r.needs_byte_swap raw) file r

with_header : Option Bytes × Stream → PcapReader → Option RawPacket × PcapReader
unfolding with_packet packet_header_of
with_header (none, file) r = (none, record r { file = some file })
with_header (some bytes, file) r = with_packet (packet_header_of bytes) file r

from_file : Option Stream → PcapReader → Option RawPacket × PcapReader
unfolding with_header read_bytes
from_file none r = (none, r)
from_file (some file) r = with_header (read_bytes 16 file) r

-- `readNextPacket`; `none` is `false`.
unfoldable pub read_next_packet : PcapReader → Option RawPacket × PcapReader
unfolding from_file
read_next_packet r = from_file r.file r

-- while (reader.readNextPacket(raw)) ...: the packets of the rounds. `none` is fuel that ran out.
unfoldable pub read_packets : ℕ → PcapReader → Option (List RawPacket)
unfolding read_next_packet
read_packets zero r = none
read_packets (suc fuel) r =
    let (next, after) = read_next_packet r in
    let later = read_packets fuel after in
    elim next [ none ↦ some [] | some raw ↦ (later >>= λ raws. some (raw ∷ raws)) ]
