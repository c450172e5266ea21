-- ===== src/Packet/Layout.antt =====
-- The layers of a packet, and what `parseEthernet` and `parseIPv4` establish of them.
use multi_threaded_dpi_engin.Base.{
  ℕ, zero, suc, ◌+◌, ◌*◌, ◌≤◌, ◌<◌, ◌≡◌, refl, ◌⊎◌, true, false, not, ◌||◌, ◌==◌, ltb, Option, none,
  some, ◌>>=◌, Ensures, bind-Ensures, if-Ensures, arith, Bytes, length, bit_and,
}
use multi_threaded_dpi_engin.Base.Bits.{shr}
use multi_threaded_dpi_engin.Inspect.Memory.{read, read-Ensures}
use multi_threaded_dpi_engin.Rules.Address.{ip_to_string}
use multi_threaded_dpi_engin.Packet.{
  RawPacket, ParsedPacket, new_parsed, attempt, load_u16, load_u32, mac_bytes, mac_to_string,
  parse_ethernet, read_ipv4, parse_ipv4,
}

-- A postcondition of a step for the case that it does not return `false`.
abbrev pub OnSuccess {ℓ} : {A : Type ℓ} → (A → Type 0) → Option A → Type 0
OnSuccess P none = Unit
OnSuccess P (some a) = P a

module _ {ℓ κ} {A : Type ℓ} {B : Type κ} (P : A → Type 0) (Q : Option B → Type 0)
    (skipped : Q none) where
  pub attempt-Ensures :
      (m : Option (Option A)) (f : A → Option (Option B))
      → Ensures (OnSuccess P) m
      → ((a : A) → P a → Ensures Q (f a))
      → Ensures Q (attempt m f)
  unfolding attempt
  attempt-Ensures none f h k = h
  attempt-Ensures (some none) f h k = skipped
  attempt-Ensures (some (some a)) f h k = k a h

-- A step that returns, returns its own result.
Ensures-self :
    {A : Type 0} (P : A → Type 0) (m : Option A) → Ensures P m → Ensures (λ a. m ≡ some a) m
Ensures-self P none h = h
Ensures-self P (some a) h = refl

abbrev pub Any {ℓ} : {A : Type ℓ} → A → Type 0
Any _ = Unit {0}

module _ {ℓ} {B : Type ℓ} (Q : B → Type 0) (mem : Bytes) where
  pub after_byte :
      (i : ℕ) (f : ℕ → Option B)
      → i < length mem
      → ((b : ℕ) → read mem i ≡ some b → Ensures Q (f b))
      → Ensures Q (read mem i >>= f)
  after_byte i f h k =
      bind-Ensures (λ b. read mem i ≡ some b) Q (read mem i) f
        (Ensures-self Any (read mem i) (read-Ensures mem i h)) k

load_u16-Ensures : (mem : Bytes) (i : ℕ) → i + 1 < length mem → Ensures Any (load_u16 mem i)
unfolding load_u16
load_u16-Ensures mem i h =
    after_byte Any mem i _ (omega arith) λ a _. after_byte Any mem (i + 1) _ h λ b _. tt

load_u32-Ensures : (mem : Bytes) (i : ℕ) → i + 3 < length mem → Ensures Any (load_u32 mem i)
unfolding load_u32
load_u32-Ensures mem i h = after_byte Any mem i _ (omega arith) λ a _.
    after_byte Any mem (i + 1) _ (omega arith) λ b _.
      after_byte Any mem (i + 2) _ (omega arith) λ c _. after_byte Any mem (i + 3) _ h λ d _. tt

module _ {ℓ} {B : Type ℓ} (Q : B → Type 0) (mem : Bytes) where
  pub after_u16 :
      (i : ℕ) (f : ℕ → Option B)
      → i + 1 < length mem
      → ((w : ℕ) → Ensures Q (f w))
      → Ensures Q (load_u16 mem i >>= f)
  after_u16 i f h k = bind-Ensures Any Q (load_u16 mem i) f (load_u16-Ensures mem i h) λ w _. k w

  pub after_u32 :
      (i : ℕ) (f : ℕ → Option B)
      → i + 3 < length mem
      → ((w : ℕ) → load_u32 mem i ≡ some w → Ensures Q (f w))
      → Ensures Q (load_u32 mem i >>= f)
  after_u32 i f h k =
      bind-Ensures (λ w. load_u32 mem i ≡ some w) Q (load_u32 mem i) f
        (Ensures-self Any (load_u32 mem i) (load_u32-Ensures mem i h)) k

mac_bytes-Ensures :
    (n : ℕ) (mem : Bytes) (i : ℕ) → i + n ≤ length mem → Ensures Any (mac_bytes n mem i)
unfolding mac_bytes
mac_bytes-Ensures zero mem i h = tt
mac_bytes-Ensures (suc n) mem i h = after_byte Any mem i _ (omega arith) λ b _.
    bind-Ensures Any Any (mac_bytes n mem (i + 1)) _ (mac_bytes-Ensures n mem (i + 1) (omega arith))
      λ rest _. tt

-- No header behind the Ethernet header was read.
abbrev pub Bare : ParsedPacket → Type 0
Bare p = (p.has_ip ≡ false) × (p.has_tcp ≡ false) × (p.has_udp ≡ false)

-- The addresses are those that stand in the IPv4 header, and the transport header is behind it.
pub record Ipv4 (mem : Bytes) (p : ParsedPacket) (transport : ℕ) : Type 0 where
  pub ihl : ℕ
  pub ihl_read : read mem 14 ≡ some ihl
  pub place : transport ≡ 14 + bit_and ihl 0x0f * 4
  pub src : ℕ
  pub src_read : load_u32 mem 26 ≡ some src
  pub src_text : p.src_ip ≡ ip_to_string src
  pub dst : ℕ
  pub dst_read : load_u32 mem 30 ≡ some dst
  pub dst_text : p.dest_ip ≡ ip_to_string dst

-- The payload begins behind the transport header, at `offset`.
pub record Tcp (mem : Bytes) (p : ParsedPacket) (transport offset : ℕ) : Type 0 where
  pub has_tcp : p.has_tcp ≡ true
  pub protocol : p.protocol ≡ 6
  pub length_byte : ℕ
  pub length_read : read mem (transport + 12) ≡ some length_byte
  pub place : offset ≡ transport + bit_and (shr length_byte 4) 0x0f * 4
  pub inside : offset ≤ length mem
  pub long : transport + 20 ≤ offset

pub record Udp (mem : Bytes) (p : ParsedPacket) (transport offset : ℕ) : Type 0 where
  pub no_tcp : p.has_tcp ≡ false
  pub has_udp : p.has_udp ≡ true
  pub protocol : p.protocol ≡ 17
  pub place : offset ≡ transport + 8
  pub inside : offset ≤ length mem

abbrev pub Neither : ParsedPacket → Type 0
Neither p = (p.has_tcp ≡ false) × (p.has_udp ≡ false)

abbrev pub Layers : Bytes → ParsedPacket → ℕ → Type 0
Layers mem p offset =
    (Bare p)
    ⊎ ((transport : ℕ) × Ipv4 mem p transport
        × (Tcp mem p transport offset ⊎ (Udp mem p transport offset ⊎ Neither p)))

abbrev pub AfterEthernet : Bytes → ParsedPacket × ℕ → Type 0
AfterEthernet mem (p, offset) = (offset ≡ 14) × Bare p

pub parse_ethernet-Ensures :
    (mem : Bytes) (raw : RawPacket)
    → Ensures (OnSuccess (AfterEthernet mem)) (parse_ethernet mem (new_parsed raw))
unfolding parse_ethernet mac_to_string
parse_ethernet-Ensures mem raw =
    if-Ensures Q (ltb (length mem) 14) _ _ (λ _. tt)
      λ long.
        let fourteen : 14 ≤ length mem = ground arith in
        bind-Ensures Any Q (mac_bytes 6 mem 0) _ (mac_bytes-Ensures 6 mem 0 (omega arith)) λ dest _.
          bind-Ensures Any Q (mac_bytes 6 mem 6) _ (mac_bytes-Ensures 6 mem 6 (omega arith))
            λ src _. after_u16 Q mem 12 _ (omega arith) λ w. (refl, (refl, refl, refl))
  where
    Q : Option (ParsedPacket × ℕ) → Type 0
    Q = OnSuccess (AfterEthernet mem)

abbrev pub AfterIpv4 : Bytes → ParsedPacket × ℕ → Type 0
AfterIpv4 mem (p, offset) = Ipv4 mem p offset × Neither p

pub parse_ipv4-Ensures :
    (mem : Bytes) (p : ParsedPacket)
    → Bare p
    → Ensures (OnSuccess (AfterIpv4 mem)) (parse_ipv4 mem p 14)
unfolding parse_ipv4 read_ipv4
parse_ipv4-Ensures mem p bare =
    if-Ensures Q (ltb (length mem) 34) _ _ (λ _. tt)
      λ long.
        let enough : 34 ≤ length mem = ground arith in
        after_byte Q mem 14 _ (omega arith) λ ihl e.
          if-Ensures Q (not (bit_and (shr ihl 4) 0x0f == 4)) _ _ (λ _. tt)
            λ _.
              if-Ensures Q
                (ltb (bit_and ihl 0x0f * 4) 20 || ltb (length mem) (14 + bit_and ihl 0x0f * 4)) _ _
                (λ _. tt)
                λ _. after_byte Q mem 22 _ (omega arith) λ ttl _.
                  after_byte Q mem 23 _ (omega arith) λ protocol _.
                    after_u32 Q mem 26 _ (omega arith) λ src a.
                      after_u32 Q mem 30 _ (omega arith) λ dst b. (
                        record {
                          ihl = ihl;
                          ihl_read = e;
                          place = refl;
                          src = src;
                          src_read = a;
                          src_text = refl;
                          dst = dst;
                          dst_read = b;
                          dst_text = refl;
                        },
                        (bare.1, bare.2),
                      )
  where
    Q : Option (ParsedPacket × ℕ) → Type 0
    Q = OnSuccess (AfterIpv4 mem)
