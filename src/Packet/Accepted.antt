-- ===== src/Packet/Accepted.antt =====
-- Where the headers end: what `PacketParser::parse` establishes of a packet that it accepts.
use multi_threaded_dpi_engin.Base.{
  ℕ, ◌+◌, ◌-◌, ◌*◌, ◌≤◌, ◌≡◌, refl, sym, subst, ◌∙◌, ◌⊎◌, inl, inr, false, ◌||◌, ◌==◌, ltb, Option,
  none, some, Ensures, if-Ensures, Bool-cases, arith, Bytes, length, bit_and,
}
use multi_threaded_dpi_engin.Base.Bits.{shr}
use multi_threaded_dpi_engin.Packet.{
  RawPacket, ParsedPacket, new_parsed, parse_ethernet, parse_ipv4, parse_tcp, parse_udp,
  parse_transport, parse_network, set_payload, parse,
}
use multi_threaded_dpi_engin.Packet.Layout.{
  OnSuccess, attempt-Ensures, after_byte, after_u16, after_u32, Bare, Ipv4, Tcp, Udp, Neither,
  Layers, AfterEthernet, parse_ethernet-Ensures, AfterIpv4, parse_ipv4-Ensures,
}

-- What the transport header adds.
abbrev pub Transported : Bytes → ParsedPacket → ℕ → ℕ → Type 0
Transported mem p transport offset =
    Tcp mem p transport offset ⊎ (Udp mem p transport offset ⊎ Neither p)

abbrev pub AfterTransport : Bytes → ℕ → ParsedPacket × ℕ → Type 0
AfterTransport mem t (p, offset) = Ipv4 mem p t × Transported mem p t offset

-- The fields of the transport header do not touch those of the IPv4 header.
Ipv4-same :
    (mem : Bytes) (p q : ParsedPacket) (t : ℕ)
    → q.src_ip ≡ p.src_ip
    → q.dest_ip ≡ p.dest_ip
    → Ipv4 mem p t
    → Ipv4 mem q t
Ipv4-same mem p q t a b ip = record {
  ihl = ip.ihl;
  ihl_read = ip.ihl_read;
  place = ip.place;
  src = ip.src;
  src_read = ip.src_read;
  src_text = a ∙ ip.src_text;
  dst = ip.dst;
  dst_read = ip.dst_read;
  dst_text = b ∙ ip.dst_text;
}

module _ (mem : Bytes) (p : ParsedPacket) (t : ℕ) (ip : Ipv4 mem p t) where
  abbrev Q : Option (ParsedPacket × ℕ) → Type 0
  Q = OnSuccess (AfterTransport mem t)

  parse_tcp-Ensures : p.protocol ≡ 6 → Ensures Q (parse_tcp mem p t)
  unfolding parse_tcp
  parse_tcp-Ensures six =
      if-Ensures Q (ltb (length mem) (t + 20)) _ _ (λ _. tt)
        λ long.
          let twenty : t + 20 ≤ length mem = ground arith in
          after_u16 Q mem t _ (omega arith) λ src. after_u16 Q mem (t + 2) _ (omega arith) λ dest.
            after_u32 Q mem (t + 4) _ (omega arith) λ seq _.
              after_u32 Q mem (t + 8) _ (omega arith) λ ack _.
                after_byte Q mem (t + 12) _ (omega arith) λ d e.
                  after_byte Q mem (t + 13) _ (omega arith) λ flags _.
                    if-Ensures Q
                      (ltb (bit_and (shr d 4) 0x0f * 4) 20
                        || ltb (length mem) (t + bit_and (shr d 4) 0x0f * 4))
                      _ _ (λ _. tt)
                      λ fits. (
                        Ipv4-same mem p _ t refl refl ip,
                        inl (record {
                          has_tcp = refl;
                          protocol = six;
                          length_byte = d;
                          length_read = e;
                          place = refl;
                          inside = ground arith;
                          long = ground arith;
                        }),
                      )

  parse_udp-Ensures : p.has_tcp ≡ false → p.protocol ≡ 17 → Ensures Q (parse_udp mem p t)
  unfolding parse_udp
  parse_udp-Ensures no_tcp seventeen =
      if-Ensures Q (ltb (length mem) (t + 8)) _ _ (λ _. tt)
        λ long.
          let eight : t + 8 ≤ length mem = ground arith in
          after_u16 Q mem t _ (omega arith) λ src. after_u16 Q mem (t + 2) _ (omega arith) λ dest. (
            Ipv4-same mem p _ t refl refl ip,
            inr (
                inl (record {
                  no_tcp = no_tcp;
                  has_udp = refl;
                  protocol = seventeen;
                  place = refl;
                  inside = eight;
                })),
          )

  parse_transport-Ensures : Neither p → Ensures Q (parse_transport mem (p, t))
  unfolding parse_transport
  parse_transport-Ensures n =
      if-Ensures Q (p.protocol == 6) _ _ (λ e. parse_tcp-Ensures (ground arith))
        λ _.
          if-Ensures Q (p.protocol == 17) _ _ (λ e. parse_udp-Ensures n.0 (ground arith))
            λ _. (ip, inr (inr n))

-- The header part of `Layers`.
Layers-transport :
    (mem : Bytes) (t : ℕ) (r : Option (ParsedPacket × ℕ))
    → OnSuccess (AfterTransport mem t) r
    → OnSuccess (λ s. Layers mem s.0 s.1) r
Layers-transport mem t none h = tt
Layers-transport mem t (some (p, o)) h = inr (t, h.0, h.1)

weaken :
    (mem : Bytes) (t : ℕ) (m : Option (Option (ParsedPacket × ℕ)))
    → Ensures (OnSuccess (AfterTransport mem t)) m
    → Ensures (OnSuccess (λ s. Layers mem s.0 s.1)) m
weaken mem t none h = h
weaken mem t (some r) h = Layers-transport mem t r h

abbrev AllLayers : Bytes → Option (ParsedPacket × ℕ) → Type 0
AllLayers mem = OnSuccess (λ s. Layers mem s.0 s.1)

parse_network-Ensures :
    (mem : Bytes) (p : ParsedPacket) → Bare p → Ensures (AllLayers mem) (parse_network mem (p, 14))
unfolding parse_network
parse_network-Ensures mem p bare =
    if-Ensures (AllLayers mem) (p.ether_type == 0x0800) _ _
      (λ _.
        attempt-Ensures (AfterIpv4 mem) (AllLayers mem) tt (parse_ipv4 mem p 14)
          (parse_transport mem) (parse_ipv4-Ensures mem p bare)
          λ r h.
            weaken mem r.1 (parse_transport mem r) (parse_transport-Ensures mem r.0 r.1 h.0 h.1))
      λ _. inl bare

-- The packet as `parse` returns it: the layers, and the payload from their end on.
abbrev pub Parsed : Bytes → ParsedPacket → Type 0
Parsed mem p = (offset : ℕ) × Layers mem p offset × (p.payload_length ≡ length mem - offset)

Layers-payload :
    (mem : Bytes) (p : ParsedPacket) (offset n : ℕ) (start : Option ℕ)
    → Layers mem p offset
    → Layers mem (record p { payload_length = n; payload_data = start }) offset
Layers-payload mem p offset n start (inl bare) = inl bare
Layers-payload mem p offset n start (inr (t, ip, h)) =
    inr (t, Ipv4-same mem p _ t refl refl ip, again h)
  where
    again :
        Transported mem p t offset
        → Transported mem (record p { payload_length = n; payload_data = start }) t offset
    again (inl tcp) = inl (record {
      has_tcp = tcp.has_tcp;
      protocol = tcp.protocol;
      length_byte = tcp.length_byte;
      length_read = tcp.length_read;
      place = tcp.place;
      inside = tcp.inside;
      long = tcp.long;
    })
    again (inr (inl udp)) = inr (
        inl (record {
          no_tcp = udp.no_tcp;
          has_udp = udp.has_udp;
          protocol = udp.protocol;
          place = udp.place;
          inside = udp.inside;
        }))
    again (inr (inr n)) = inr (inr n)

set_payload-Parsed :
    (mem : Bytes) (p : ParsedPacket) (offset : ℕ)
    → Layers mem p offset
    → Parsed mem (set_payload mem (p, offset))
unfolding set_payload
set_payload-Parsed mem p offset h = elim (Bool-cases (ltb offset (length mem))) [
  | inl more ↦ rw more (offset, Layers-payload mem p offset _ _ h, refl)
  | inr over ↦ rw over (offset, Layers-payload mem p offset _ _ h, ground arith)
]

after_ethernet :
    (mem : Bytes) (r : ParsedPacket × ℕ)
    → AfterEthernet mem r
    → Ensures (AllLayers mem) (parse_network mem r)
after_ethernet mem (p, offset) h =
    subst (λ (o : ℕ). Ensures (AllLayers mem) (parse_network mem (p, o))) (sym h.0)
      (parse_network-Ensures mem p h.1)

pub parse-Ensures : (raw : RawPacket) → Ensures (OnSuccess (Parsed raw.packet)) (parse raw)
unfolding parse
parse-Ensures raw =
    attempt-Ensures (AfterEthernet raw.packet) (OnSuccess (Parsed raw.packet)) tt
      (parse_ethernet raw.packet (new_parsed raw)) _ (parse_ethernet-Ensures raw.packet raw)
      λ r h.
        attempt-Ensures (λ s. Layers raw.packet s.0 s.1) (OnSuccess (Parsed raw.packet)) tt
          (parse_network raw.packet r) _ (after_ethernet raw.packet r h)
          λ s k. set_payload-Parsed raw.packet s.0 s.1 k

-- A payload that is not empty is the rest of the packet from where its pointer points.
abbrev pub HasPayload : Bytes → ParsedPacket → Type 0
HasPayload mem p =
    (p.payload_length ≡ 0)
    ⊎ ((offset : ℕ) × (p.payload_data ≡ some offset) × (offset + p.payload_length ≡ length mem))

set_payload-HasPayload :
    (mem : Bytes) (p : ParsedPacket) (offset : ℕ) → HasPayload mem (set_payload mem (p, offset))
unfolding set_payload
set_payload-HasPayload mem p offset = elim (Bool-cases (ltb offset (length mem))) [
  | inl more ↦ rw more (inr (offset, refl, ground arith))
  | inr over ↦ rw over (inl refl)
]

pub parse-HasPayload : (raw : RawPacket) → Ensures (OnSuccess (HasPayload raw.packet)) (parse raw)
unfolding parse
parse-HasPayload raw =
    attempt-Ensures (AfterEthernet raw.packet) (OnSuccess (HasPayload raw.packet)) tt
      (parse_ethernet raw.packet (new_parsed raw)) _ (parse_ethernet-Ensures raw.packet raw)
      λ r h.
        attempt-Ensures (λ s. Layers raw.packet s.0 s.1) (OnSuccess (HasPayload raw.packet)) tt
          (parse_network raw.packet r) _ (after_ethernet raw.packet r h)
          λ s k. set_payload-HasPayload raw.packet s.0 s.1
