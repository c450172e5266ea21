-- ===== src/Tests/Whole.antt =====
-- The loop of src/main_working.cpp on a capture of two packets.
use multi_threaded_dpi_engin.Base.{◌≡◌, ◌++◌, refl, false, List, [], ◌∷◌, some, arith, codes}
use multi_threaded_dpi_engin.Types.{PacketJob}
use multi_threaded_dpi_engin.Packet.Capture.{read_jobs}
use multi_threaded_dpi_engin.Pcap.Images.{header_image, packets_image}
use multi_threaded_dpi_engin.Mt.Blocking.{BlockingRules, no_rules}
use multi_threaded_dpi_engin.Working.{State, process}
use multi_threaded_dpi_engin.Working.Run.{Ran}
use multi_threaded_dpi_engin.Working.Whole.{first_state, Holds, process-Ran}
use multi_threaded_dpi_engin.Tests.Files.{header, closed, packets}

abbrev rules : BlockingRules
rules = record no_rules { blocked_domains = codes "a.io" ∷ [] }

process-Ran_example :
    (jobs : List PacketJob) × (out : List PacketJob) × (u : State) × (read_jobs packets 0
      ≡ some jobs)
    × (process 3 rules
          (some (header_image false header ++ packets_image false packets))
          (some [])
          closed
        ≡ some (0, some u))
    × Ran rules packets jobs out (first_state 3 rules header packets [] closed) u
    × Holds u.output out
process-Ran_example =
    process-Ran 3 rules header packets [] closed
      (omega arith, omega arith, omega arith, omega arith, omega arith, omega arith)
      (
        (omega arith, omega arith, omega arith, refl, omega arith, omega arith),
        ((omega arith, omega arith, omega arith, refl, omega arith, omega arith), tt),
      )
      (omega arith, (omega arith, tt)) (omega arith)
