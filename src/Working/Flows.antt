-- ===== src/Working/Flows.antt =====
-- What a round of src/main_working.cpp does to the flow of its packet.
use multi_threaded_dpi_engin.Base.{
  ℕ, ◌+◌, ◌-◌, ◌*◌, ◌≤◌, ◌<◌, ◌≡◌, refl, ◌∙◌, inl, inr, Bool-cases, not, ◌&&◌, ◌||◌, ◌==◌, ltb,
  if◌then◌else◌, Option, none, some, Ensures, bind-Ensures, if-Ensures, arith, Bytes, length,
  bit_and,
}
use multi_threaded_dpi_engin.Base.Bits.{shr}
use multi_threaded_dpi_engin.Types.App.{https, http}
use multi_threaded_dpi_engin.Types.Flow.{FiveTuple}
use multi_threaded_dpi_engin.Inspect.Tls.Safety.{extract_inside}
use multi_threaded_dpi_engin.Inspect.Http.Safety.{extract_http_inside}
use multi_threaded_dpi_engin.Packet.{ParsedPacket}
use multi_threaded_dpi_engin.Packet.Layout.{after_byte}
use multi_threaded_dpi_engin.Mt.Blocking.{BlockingRules, is_blocked}
use multi_threaded_dpi_engin.Working.{
  Flow, tcp_payload, named, sni_at, host_at, is_open, try_sni, try_host, classify_dns,
  classify_by_port, check_rules, judge,
}

-- What the classification leaves of a flow.
abbrev SameCounts : Flow → Flow → Type 0
SameCounts f g =
    (g.tuple ≡ f.tuple) × (g.packets ≡ f.packets) × (g.bytes ≡ f.bytes) × (g.blocked ≡ f.blocked)

-- The payload lies in the packet.
abbrev Inside : Bytes → Option (ℕ × ℕ) → Type 0
Inside mem none = Unit
Inside mem (some (start, len)) = start + len ≤ length mem

module _ (mem : Bytes) where
  Inside-if :
      (start : ℕ)
      → Inside mem (if ltb start (length mem) then some (start, length mem - start) else none)
  Inside-if start = elim (Bool-cases (ltb start (length mem))) [
    | inl fits ↦ rw fits (ground arith)
    | inr past ↦ rw past tt
  ]

  tcp_payload-Ensures : 14 < length mem → Ensures (Inside mem) (tcp_payload mem)
  unfolding tcp_payload
  tcp_payload-Ensures long = after_byte (Inside mem) mem 14 _ long λ b _.
      if-Ensures (Inside mem) (not (ltb (14 + bit_and b 0x0f * 4 + 12) (length mem))) _ _ (λ _. tt)
        λ fits.
          after_byte (Inside mem) mem (14 + bit_and b 0x0f * 4 + 12) _ (ground arith)
            λ c _. Inside-if (14 + bit_and b 0x0f * 4 + bit_and (shr c 4) 0x0f * 4)

  named-SameCounts : (r : Option Bytes) (f : Flow) → SameCounts f (named r f)
  named-SameCounts none f = (refl, refl, refl, refl)
  named-SameCounts (some name) f = (refl, refl, refl, refl)

  sni_at-SameCounts :
      (f : Flow) (at : Option (ℕ × ℕ)) → Inside mem at → Ensures (SameCounts f) (sni_at mem f at)
  unfolding sni_at
  sni_at-SameCounts f none h = (refl, refl, refl, refl)
  sni_at-SameCounts f (some (start, len)) h =
      let (r, e, _) = extract_inside mem start len h in
      if-Ensures (SameCounts f) (ltb 5 len) _ _ (λ _. rw e (named-SameCounts r f))
        λ _. (refl, refl, refl, refl)

  host_at-SameCounts :
      (f : Flow) (at : Option (ℕ × ℕ)) → Inside mem at → Ensures (SameCounts f) (host_at mem f at)
  unfolding host_at
  host_at-SameCounts f none h = (refl, refl, refl, refl)
  host_at-SameCounts f (some (start, len)) h =
      let (r, e, _) = extract_http_inside mem start len h in rw e (named-SameCounts r f)

  try_sni-SameCounts :
      (p : ParsedPacket) (f : Flow) → 14 < length mem → Ensures (SameCounts f) (try_sni mem p f)
  unfolding try_sni
  try_sni-SameCounts p f long =
      if-Ensures (SameCounts f) (is_open https f && p.has_tcp && p.dest_port == 443) _ _
        (λ _.
          bind-Ensures (Inside mem) (SameCounts f) (tcp_payload mem) _ (tcp_payload-Ensures long)
            (sni_at-SameCounts f))
        λ _. (refl, refl, refl, refl)

  try_host-SameCounts :
      (p : ParsedPacket) (f : Flow) → 14 < length mem → Ensures (SameCounts f) (try_host mem p f)
  unfolding try_host
  try_host-SameCounts p f long =
      if-Ensures (SameCounts f) (is_open http f && p.has_tcp && p.dest_port == 80) _ _
        (λ _.
          bind-Ensures (Inside mem) (SameCounts f) (tcp_payload mem) _ (tcp_payload-Ensures long)
            (host_at-SameCounts f))
        λ _. (refl, refl, refl, refl)

classify_dns-SameCounts : (p : ParsedPacket) (f : Flow) → SameCounts f (classify_dns p f)
unfolding classify_dns
classify_dns-SameCounts p f = ground arith

classify_by_port-SameCounts : (p : ParsedPacket) (f : Flow) → SameCounts f (classify_by_port p f)
unfolding classify_by_port
classify_by_port-SameCounts p f = ground arith

-- A flow after the rules were asked.
abbrev pub Asked : BlockingRules → FiveTuple → Flow → Flow → Type 0
Asked rules tuple f g =
    (g.packets ≡ f.packets)
    × (g.bytes ≡ f.bytes)
    × (g.blocked ≡ (f.blocked || is_blocked tuple.src_ip g.app_type g.sni rules))

check_rules-Asked :
    (rules : BlockingRules) (tuple : FiveTuple) (f g : Flow)
    → SameCounts f g
    → Asked rules tuple f (check_rules rules tuple g)
unfolding check_rules
check_rules-Asked rules tuple f g (a, b, c, d) = ground arith

pub judge-Asked :
    (rules : BlockingRules) (mem : Bytes) (p : ParsedPacket) (tuple : FiveTuple) (f : Flow)
    → 14 < length mem
    → Ensures (Asked rules tuple f) (judge rules mem p tuple f)
unfolding judge
judge-Asked rules mem p tuple f long =
    bind-Ensures (SameCounts f) (Asked rules tuple f) (try_sni mem p f) _
      (try_sni-SameCounts mem p f long)
      λ g (a, b, c, d).
        bind-Ensures (SameCounts g) (Asked rules tuple f) (try_host mem p g) _
          (try_host-SameCounts mem p g long)
          λ h (a2, b2, c2, d2).
            let dns_same = classify_dns-SameCounts p h in
            let (a4, b4, c4, d4) = classify_by_port-SameCounts p (classify_dns p h) in
            check_rules-Asked rules tuple f (classify_by_port p (classify_dns p h)) (
              a4 ∙ dns_same.0 ∙ a2 ∙ a,
              b4 ∙ dns_same.1 ∙ b2 ∙ b,
              c4 ∙ dns_same.2 ∙ c2 ∙ c,
              d4 ∙ dns_same.3 ∙ d2 ∙ d,
            )
