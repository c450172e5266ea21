-- ===== src/Packet/Names.antt =====
-- `protocolToString` and `tcpFlagsToString` of src/packet_parser.cpp.
use multi_threaded_dpi_engin.Base.{
  ℕ, ◌==◌, if◌then◌else◌, [], ◌∷◌, ◌++◌, Bytes, codes, decimal, bit_and,
}

unfoldable pub protocol_to_string : ℕ → Bytes
protocol_to_string protocol =
    if protocol == 1
    then codes "ICMP"
    else if protocol == 6
    then codes "TCP"
    else if protocol == 17
    then codes "UDP"
    else codes "Unknown(" ++ decimal protocol ++ codes ")"

-- The name of a flag that is set.
flag_name : ℕ → ℕ → Bytes → Bytes
flag_name flags flag name = if bit_and flags flag == 0 then [] else name

-- `pop_back`
abbrev drop_last : Bytes → Bytes
drop_last [] = []
drop_last (c ∷ []) = []
drop_last (c ∷ (d ∷ rest)) = c ∷ drop_last (d ∷ rest)

or_none : Bytes → Bytes
or_none [] = codes "none"
or_none (c ∷ rest) = c ∷ rest

unfoldable pub tcp_flags_to_string : ℕ → Bytes
unfolding flag_name or_none
tcp_flags_to_string flags = or_none (
    drop_last (
      flag_name flags 0x02 (codes "SYN ")
      ++ flag_name flags 0x10 (codes "ACK ")
      ++ flag_name flags 0x01 (codes "FIN ")
      ++ flag_name flags 0x04 (codes "RST ")
      ++ flag_name flags 0x08 (codes "PSH ")
      ++ flag_name flags 0x20 (codes "URG ")))
