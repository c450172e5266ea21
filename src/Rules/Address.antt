-- ===== src/Rules/Address.antt =====
-- `RuleManager::parseIP` and `ipToString` of src/rule_manager.cpp. The same two functions stand in
-- src/dpi_engine.cpp (a lambda of `createPacketJob`) and src/packet_parser.cpp.
use multi_threaded_dpi_engin.Base.{
  ℕ, ◌+◌, ◌-◌, ◌*◌, ◌^◌, ◌<◌, bit_and, bit_or, ◌≡◌, refl, ◌∙◌, ap, ◌&&◌, Option, none, some, ◌>>=◌,
  [], ◌∷◌, ◌++◌, append_assoc, append-nil, arith, ltb, leb, ◌==◌, if◌then◌else◌, Bytes, decimal,
  decimal-ind, lt→ltb,
}
use multi_threaded_dpi_engin.Base.Bits.{shl, shr, bit_or-shl_right, bit_and-byte}

-- The variables of the loop: `uint32_t result`, `int octet`, `int shift`.
pub record Octets : Type 0 where
  pub result : ℕ
  pub octet : ℕ
  pub shift : ℕ

-- `result |= (octet << shift)`. `none` where C++ leaves the shift undefined.
shift_in : Octets → Option ℕ
shift_in s =
    if ltb s.shift 32 && ltb (shl s.octet s.shift) (2 ^ 32)
    then some (bit_or s.result (shl s.octet s.shift))
    else none

-- `octet = octet * 10 + (c - '0')`. `none` where the `int` overflows.
push_digit : Octets → ℕ → Option Octets
push_digit s c =
    let next = s.octet * 10 + (c - b'0') in
    if ltb next (2 ^ 31) then some (record s { octet = next }) else none

-- One round of the loop.
parse_char : Octets → ℕ → Option Octets
unfolding shift_in push_digit
parse_char s c =
    if c == b'.'
    then (shift_in s >>= λ r. some (record { result = r; octet = 0; shift = s.shift + 8 }))
    else if leb b'0' c && leb c b'9'
    then push_digit s c
    else some s

parse_chars : Octets → Bytes → Option Octets
parse_chars s [] = some s
parse_chars s (c ∷ cs) = do s' ← parse_char s c; parse_chars s' cs

unfoldable pub parse_ip : Bytes → Option ℕ
unfolding parse_chars parse_char shift_in
parse_ip text = do s ← parse_chars (record { result = 0; octet = 0; shift = 0 }) text; shift_in s

unfoldable pub ip_to_string : ℕ → Bytes
ip_to_string ip =
    decimal (bit_and (shr ip 0) 0xff)
    ++ (b'.'
        ∷ (decimal (bit_and (shr ip 8) 0xff)
            ++ (b'.'
                ∷ (decimal (bit_and (shr ip 16) 0xff)
                    ++ (b'.' ∷ decimal (bit_and (shr ip 24) 0xff))))))

-- Reading the decimal text of a byte puts it into `octet`.
abbrev Reads : ℕ → Bytes → Type 0
Reads n ds =
    n < 256
    → (r shift : ℕ) (rest : Bytes)
    → parse_chars (record { result = r; octet = 0; shift = shift }) (ds ++ rest)
      ≡ parse_chars (record { result = r; octet = n; shift = shift }) rest

parse_chars-digit :
    (r m d n shift : ℕ) (rest : Bytes)
    → d < 10
    → m < 256
    → m * 10 + d ≡ n
    → parse_chars (record { result = r; octet = m; shift = shift }) ((b'0' + d) ∷ rest)
      ≡ parse_chars (record { result = r; octet = n; shift = shift }) rest
unfolding parse_chars parse_char
parse_chars-digit r m d n shift rest h k e = ground arith

parse_chars-decimal : (n : ℕ) → Reads n (decimal n)
parse_chars-decimal =
    decimal-ind Reads
      (λ d h k r shift rest. parse_chars-digit r 0 d d shift rest h (omega arith) (omega arith))
      (λ m d ds h ih k r shift rest. rw append_assoc (
        ih (omega arith) r shift ((b'0' + d) ∷ rest)
        ∙ parse_chars-digit r m d (m * 10 + d) shift rest h (omega arith) refl))

shift_in-fits :
    (r octet shift : ℕ)
    → shift < 32
    → shl octet shift < 2 ^ 32
    → shift_in (record { result = r; octet = octet; shift = shift })
      ≡ some (bit_or r (shl octet shift))
unfolding shift_in
shift_in-fits r octet shift h k = rw (lt→ltb shift 32 h, lt→ltb (shl octet shift) (2 ^ 32) k)

parse_chars-octet :
    (r a shift : ℕ) (rest : Bytes)
    → a < 256
    → shift < 32
    → shl a shift < 2 ^ 32
    → r < 2 ^ shift
    → parse_chars (record { result = r; octet = 0; shift = shift }) (decimal a ++ (b'.' ∷ rest))
      ≡ parse_chars (record { result = r + shl a shift; octet = 0; shift = shift + 8 }) rest
parse_chars-octet r a shift rest ha h k low =
    parse_chars-decimal a ha r shift (b'.' ∷ rest)
    ∙ (unfold parse_chars parse_char in
        rw (shift_in-fits r a shift h k, parse_char) (rw (bit_or-shl_right shift a r low)))

parse_chars-last :
    (r a shift : ℕ)
    → a < 256
    → parse_chars (record { result = r; octet = 0; shift = shift }) (decimal a)
      ≡ some (record { result = r; octet = a; shift = shift })
unfolding parse_chars
parse_chars-last r a shift h = rw append-nil at (parse_chars-decimal a h r shift [])

-- The octets of a text `a.b.c.d` are put together, the first in the lowest byte.
parse_ip_quad :
    (a b c d : ℕ)
    → a < 256
    → b < 256
    → c < 256
    → d < 256
    → parse_ip (decimal a ++ (b'.' ∷ (decimal b ++ (b'.' ∷ (decimal c ++ (b'.' ∷ decimal d))))))
      ≡ some (a + shl b 8 + shl c 16 + shl d 24)
unfolding parse_ip
parse_ip_quad a b c d ha hb hc hd =
    let r1 : ℕ = 0 + shl a 0 in
    let r2 : ℕ = r1 + shl b 8 in
    let r3 : ℕ = r2 + shl c 16 in
    rw (parse_chars-octet 0 a 0 _ ha (omega arith) (omega arith) (omega arith)) (
      rw (parse_chars-octet r1 b 8 _ hb (omega arith) (omega arith) (omega arith)) (
        rw (parse_chars-octet r2 c 16 _ hc (omega arith) (omega arith) (omega arith)) (
          rw (parse_chars-last r3 d 24 hd) (
            rw (shift_in-fits r3 d 24 (omega arith) (omega arith))
              (rw (bit_or-shl_right 24 d r3 (omega arith)) (ap some (omega arith)))))))

-- Parsing what `ipToString` prints gives the address back, for every 32-bit address.
pub parse_ip-ip_to_string : (ip : ℕ) → ip < 2 ^ 32 → parse_ip (ip_to_string ip) ≡ some ip
unfolding ip_to_string
parse_ip-ip_to_string ip h =
    rw
      (
        bit_and-byte (shr ip 0),
        bit_and-byte (shr ip 8),
        bit_and-byte (shr ip 16),
        bit_and-byte (shr ip 24),
      )
      (parse_ip_quad _ _ _ _ (omega arith) (omega arith) (omega arith) (omega arith)
        ∙ ap some (omega arith))
