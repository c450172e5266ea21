-- ===== src/Command/Summary.antt =====
-- What the program of src/main.cpp reads and counts.
use multi_threaded_dpi_engin.Base.{
  ℕ, zero, suc, ◌+◌, ◌≤◌, ◌<◌, ◌≡◌, refl, ◌==◌, ltb, leb, ◌&&◌, if◌then◌else◌, List, [], ◌∷◌,
  Option, none, some, ◌++◌, Ensures, bind-Ensures, Ensures-some, Bool-cases, ◌⊎◌, inl, inr, arith,
  Bytes, length,
}
use Prim.Native.Nat.{min}
use multi_threaded_dpi_engin.Inspect.Memory.{read, read-Ensures}
use multi_threaded_dpi_engin.Packet.{RawPacket, ParsedPacket, parse}
use multi_threaded_dpi_engin.Packet.Layout.{OnSuccess, Any}
use multi_threaded_dpi_engin.Packet.Accepted.{HasPayload, parse-HasPayload}
use multi_threaded_dpi_engin.Command.Analyzer.{
  preview, preview_len, preview_lines, payload_lines, Analysis, new_analysis, stopped, header_lines,
  print_packet_summary, report_parsed, analyze_packet, analyze,
}

preview-Ensures : (n : ℕ) (mem : Bytes) (i : ℕ) → i + n ≤ length mem → Ensures Any (preview n mem i)
unfolding preview
preview-Ensures zero mem i fits = tt
preview-Ensures (suc n) mem i fits =
    bind-Ensures Any Any (read mem i) _ (read-Ensures mem i (omega arith)) λ b _.
      bind-Ensures Any Any (preview n mem (i + 1)) _ (preview-Ensures n mem (i + 1) (omega arith))
        λ rest _. tt

payload_lines-Ensures :
    (mem : Bytes) (p : ParsedPacket) → HasPayload mem p → Ensures Any (payload_lines mem p)
unfolding payload_lines preview_lines
payload_lines-Ensures mem p (inl bare) = rw bare tt
payload_lines-Ensures mem p (inr (o, data_at, rest)) = elim (Bool-cases (ltb 0 p.payload_length)) [
  | inl more ↦
      let fits : o + preview_len p.payload_length ≤ length mem = ground (arith, rest) in
      rw (more, data_at)
        (bind-Ensures Any Any (preview (preview_len p.payload_length) mem o) _
          (preview-Ensures (preview_len p.payload_length) mem o fits) λ _ _. tt)
  | inr empty ↦ rw empty tt
]

module _ (put_time : ℕ → Bytes) where
  -- A round counts its packet, and an error at most.
  record Counted (s t : Analysis) : Type 0 where
    counted : t.packet_count ≡ s.packet_count + 1
    errors : t.parse_errors ≤ s.parse_errors + 1

  report_parsed-Counted :
      (raw : RawPacket) (r : Option ParsedPacket) (s : Analysis)
      → OnSuccess (HasPayload raw.packet) r
      → (t : Analysis) × (report_parsed put_time raw r
            (record s { packet_count = s.packet_count + 1 })
          ≡ some t)
        × Counted s t
  unfolding report_parsed print_packet_summary
  report_parsed-Counted raw none s h = (
    record s { packet_count = s.packet_count + 1; parse_errors = s.parse_errors + 1 },
    refl,
    record { counted = refl; errors = omega arith },
  )
  report_parsed-Counted raw (some p) s h =
      let (payload, e, any) =
        Ensures-some Any (payload_lines raw.packet p) (payload_lines-Ensures raw.packet p h) in
      (
        record s {
          packet_count = s.packet_count + 1;
          printed = s.printed ++ (header_lines put_time p (s.packet_count + 1) ++ payload);
        },
        rw e refl,
        record { counted = refl; errors = omega arith },
      )

  analyze_packet-Counted :
      (raw : RawPacket) (s : Analysis)
      → (t : Analysis) × (analyze_packet put_time raw s ≡ some t) × Counted s t
  unfolding analyze_packet
  analyze_packet-Counted raw s =
      let (r, e, h) =
        Ensures-some (OnSuccess (HasPayload raw.packet)) (parse raw) (parse-HasPayload raw) in
      let (t, f, counted) = report_parsed-Counted raw r s h in (t, rw (e, f) refl, counted)

  -- What the loop has counted behind a state below the limit.
  record Within (limit n : ℕ) (s t : Analysis) : Type 0 where
    counted :
        t.packet_count ≡ (if limit == 0 then s.packet_count + n else min limit (s.packet_count + n))
    errors : t.parse_errors + s.packet_count ≤ s.parse_errors + t.packet_count

  analyze-Within :
      (limit : ℕ) (raws : List RawPacket) (s : Analysis)
      → (limit ≡ 0) ⊎ (s.packet_count < limit)
      → (t : Analysis) × (analyze put_time limit raws s ≡ some t) × Within limit (length raws) s t
  unfolding analyze
  analyze-Within limit [] s below =
      (s, refl, record { counted = ground arith; errors = omega arith })
  analyze-Within limit (raw ∷ raws) s below =
      let (t, e, one) = analyze_packet-Counted raw s in
      elim (Bool-cases (ltb 0 limit && leb limit t.packet_count)) [
        | inl full ↦ (
          stopped limit t,
          rw (e, full) refl,
          record {
            counted = ground (arith, one.counted);
            errors = omega (arith, one.counted, one.errors);
          },
        )
        | inr more ↦
            let (u, f, rest) = analyze-Within limit raws t (ground (arith, one.counted)) in
            (
              u,
              rw (e, more, f) refl,
              record {
                counted = ground (arith, one.counted, rest.counted);
                errors = omega (arith, one.counted, one.errors, rest.errors);
              },
            )
      ]

  -- Whatever packets a capture holds and however the time is printed, the program prints the
  -- summaries with no read outside a packet and ends. It has then counted all packets, or with a
  -- limit so many at most, and not more errors than packets.
  pub analyze_lem :
      (limit : ℕ) (raws : List RawPacket)
      → (t : Analysis) × (analyze put_time limit raws new_analysis ≡ some t)
        × (t.packet_count ≡ (if limit == 0 then length raws else min limit (length raws)))
        × (t.parse_errors ≤ t.packet_count)
  analyze_lem limit raws =
      let (t, e, w) = analyze-Within limit raws new_analysis (ground arith) in
      (t, e, ground (arith, w.counted), omega (arith, w.errors))
