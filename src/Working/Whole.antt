-- ===== src/Working/Whole.antt =====
-- `main` of src/main_working.cpp from a capture file to the file that it writes.
use multi_threaded_dpi_engin.Base.{
  ℕ, ◌<◌, ◌≡◌, sym, ap, ◌∙◌, true, false, List, ◌++◌, some, map, Bytes, length, ◌>>=◌,
}
use multi_threaded_dpi_engin.Types.{PacketJob}
use multi_threaded_dpi_engin.Packet.{RawPacket}
use multi_threaded_dpi_engin.Packet.Capture.{read_jobs, AllBytes}
use multi_threaded_dpi_engin.Pcap.{GlobalHeader, PcapReader, open_file, read_packets}
use multi_threaded_dpi_engin.Pcap.Images.{header_image, packets_image, AllCaptured, reading}
use multi_threaded_dpi_engin.Pcap.RoundTrip.{IsHeader, kept_header, read_packets-image}
use multi_threaded_dpi_engin.Engine.Output.{
  header_bytes, write_output_header, job_packet, read_packets-written,
}
use multi_threaded_dpi_engin.Mt.Blocking.{BlockingRules}
use multi_threaded_dpi_engin.Working.{State, new_state, run_file, process}
use multi_threaded_dpi_engin.Working.Run.{run_rounds, run_file-read_packets, Ran, run_rounds-Good}

-- The file holds just these jobs' packets: with any reader it opens and gives them in order.
abbrev pub Holds : Bytes → List PacketJob → Type 0
Holds file out =
    (r : PcapReader) (fuel : ℕ)
    → length out < fuel
    → (after : PcapReader) × (open_file (some file) r ≡ (true, after))
      × (read_packets fuel after ≡ some (map job_packet out))

some_inj : (a b : Bytes) → some a ≡ some b → a ≡ b
some_inj a b e = cc

module _ (fuel : ℕ) (rules : BlockingRules) (h : GlobalHeader) (raws : List RawPacket) (old : Bytes)
    (closed : PcapReader) where
  abbrev pub first_state : State
  first_state = new_state (header_bytes (kept_header false h))

  -- On a capture file in the host's byte order with packets of bytes, truncated or malformed ones
  -- too, `main` reads inside the packets only and ends with status 0. It counts every packet, and
  -- each packet that the reader of src/dpi_engine.cpp makes a job of once under an application and
  -- once as forwarded or as dropped. Of each flow it forwards the packets up to some point, in order,
  -- and none behind it, and none from a blocked address. The file that it writes opens with any
  -- reader, which gives just the packets forwarded.
  pub process-Ran :
      IsHeader h
      → AllCaptured h.snaplen raws
      → AllBytes raws
      → length raws < fuel
      → (jobs : List PacketJob) × (out : List PacketJob) × (u : State) × (read_jobs raws 0
          ≡ some jobs)
        × (process fuel rules
              (some (header_image false h ++ packets_image false raws))
              (some old)
              closed
            ≡ some (0, some u))
        × Ran rules raws jobs out first_state u
        × Holds u.output out
  process-Ran words captured bytes enough =
      let (opens, reads) = read_packets-image false h raws closed fuel words captured enough in
      let (jobs, out, u, made, rounds, ran) = run_rounds-Good rules raws 0 first_state bytes in
      let reader = reading false (kept_header false h) (packets_image false raws) in
      let loop : run_file fuel rules reader first_state ≡ some u =
        run_file-read_packets fuel rules reader first_state
        ∙ ap (λ m. m >>= λ rs. run_rounds rules rs first_state) reads
        ∙ rounds in
      (
        jobs,
        out,
        u,
        made,
        (unfold process in rw (opens, loop)),
        ran,
        λ r n long.
            let (file, after, same, opens_out, reads_out) =
              read_packets-written h out r n words (ran.captured h.snaplen captured) long in
            let equal : file ≡ u.output =
              some_inj file u.output (sym same ∙ (unfold write_output_header in ran.output)) in
            (after, ap (λ f. open_file (some f) r) (sym equal) ∙ opens_out, reads_out),
      )
