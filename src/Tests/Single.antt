-- ===== src/Tests/Single.antt =====
-- The engine of src/dpi_mt.cpp on concrete packets and options.
use multi_threaded_dpi_engin.Base.{
  ℕ, ◌≡◌, refl, List, [], ◌∷◌, Option, none, some, arith, codes, contains_text, length,
}
use multi_threaded_dpi_engin.Base.Eq.{nat_eq, contains}
use multi_threaded_dpi_engin.Base.Assoc.{at_key, put}
use multi_threaded_dpi_engin.Inspect.Tls.{extract}
use multi_threaded_dpi_engin.Inspect.Memory.{read, read_uint16_be, read_uint24_be, slice}
use multi_threaded_dpi_engin.Types.Flow.{tuple_eq}
use multi_threaded_dpi_engin.Types.{PacketJob}
use multi_threaded_dpi_engin.Types.App.{app_eq}
use multi_threaded_dpi_engin.Packet.Job.{read_job}
use multi_threaded_dpi_engin.Mt.{
  Packet, Stats, no_stats, new_fast_path, run, classify_flow, record_app,
}
use multi_threaded_dpi_engin.Mt.Blocking.{BlockingRules, no_rules}
use multi_threaded_dpi_engin.Mt.Agreement.{packet_of, Agrees, read_packet-read_job}
use multi_threaded_dpi_engin.Mt.Reader.{read_packet}
use multi_threaded_dpi_engin.Mt.Run.{Result, Orderly, run-Cuts}
use multi_threaded_dpi_engin.Tests.{flow, hello_packet, reset_packet}
use multi_threaded_dpi_engin.Tests.Capture.{segment}

abbrev rules : BlockingRules
rules = record no_rules { blocked_domains = codes "a.io" ∷ [] }

abbrev packets : List Packet
packets = packet_of reset_packet ∷ packet_of hello_packet ∷ packet_of reset_packet ∷ []

-- The first packet is forwarded, the one that names the server is not, and none behind it is.
abbrev sent : Option Result → List ℕ
sent none = []
sent (some (out, fp, stats)) =
    length out ∷ (stats.forwarded ∷ (stats.dropped ∷ (fp.processed ∷ [])))

test_run : sent (run rules packets new_fast_path no_stats) ≡ 1 ∷ 1 ∷ 2 ∷ 3 ∷ []
unfolding run at_key classify_flow put tuple_eq extract read read_uint16_be read_uint24_be slice
    contains contains_text record_app
test_run = refl

run-Cuts_example :
    (r : Result) × (run rules packets new_fast_path no_stats ≡ some r)
    × Orderly flow new_fast_path packets r
run-Cuts_example =
    run-Cuts flow rules packets new_fast_path no_stats
      (omega arith, (omega arith, (omega arith, tt)))

read_packet-read_job_example :
    (r : Option PacketJob) × (s : Option Packet × Stats) × (read_job segment 5 ≡ some r)
    × (read_packet segment 5 no_stats ≡ some s)
    × Agrees no_stats r s
read_packet-read_job_example = read_packet-read_job segment 5 no_stats (omega arith)
