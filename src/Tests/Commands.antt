-- ===== src/Tests/Commands.antt =====
-- The command line programs on concrete input.
use multi_threaded_dpi_engin.Base.{
  if◌then◌else◌, ◌≤◌, ◌==◌, ℕ, ◌≡◌, ◌≢◌, refl, [], ◌∷◌, List, Option, some, true, arith, Bytes,
  codes, bytes_eq,
}
use multi_threaded_dpi_engin.Base.Eq.{text_eq, insert}
use multi_threaded_dpi_engin.Types.App.{app_count, github}
use multi_threaded_dpi_engin.Types.{PacketJob}
use multi_threaded_dpi_engin.Rules.{RuleManager, no_rules, block_domain, has_star}
use multi_threaded_dpi_engin.Rules.Files.{load_rules}
use multi_threaded_dpi_engin.Packet.Job.{read_job}
use multi_threaded_dpi_engin.Mt.Options.{
  Argument, ip_argument, app_argument, domain_argument, render, ips_of, apps_of, domains_of,
}
use multi_threaded_dpi_engin.Command.Dpi.{Options, read_options, configure}
use multi_threaded_dpi_engin.Command.Configured.{Adds, defaults, configure-Adds}
use multi_threaded_dpi_engin.Command.Inspected.{SameSni, extract_sni-read_job}
use multi_threaded_dpi_engin.Command.Analyzer.{Analysis, new_analysis, analyze}
use multi_threaded_dpi_engin.Command.Summary.{analyze_lem}
use multi_threaded_dpi_engin.Tests.Capture.{segment}
use Prim.Native.Nat.{min}

-- A file of rules with one domain, whatever its name.
abbrev one_file : Bytes → Option Bytes
one_file name = some (codes "[BLOCKED_DOMAINS]\nads.io\n")

abbrev loaded_rules : RuleManager
loaded_rules = record no_rules { blocked_domains = codes "ads.io" ∷ [] }

test_one_file : load_rules (one_file (codes "r")) no_rules ≡ some (true, loaded_rules)
unfolding load_rules bytes_eq block_domain insert has_star
test_one_file = refl

abbrev arguments : List Argument
arguments = ip_argument 7 ∷ app_argument github ∷ domain_argument (codes "*.a.io") ∷ []

not_count : github ≢ app_count
not_count e = cc

-- An integer library that reads each text as the number two.
abbrev two : Bytes → Option ℕ
two text = some 2

configure-Adds_example :
    (o : Options ℕ) × (r : RuleManager) × (read_options two
        (codes "--rules" ∷ (codes "r" ∷ render arguments))
        (defaults 2 2)
      ≡ some (some o))
    × (configure one_file o ≡ some (some r))
    × Adds (ips_of arguments) (apps_of arguments) (domains_of arguments) loaded_rules r
configure-Adds_example =
    configure-Adds two 2 2 one_file 114 [] true loaded_rules arguments test_one_file
      (omega arith, (not_count, tt))

extract_sni-read_job_example :
    (r : Option PacketJob) × (read_job segment 0 ≡ some r) × SameSni segment r
extract_sni-read_job_example = extract_sni-read_job segment 0 (omega arith)

-- Every time is printed as the same text.
abbrev some_time : ℕ → Bytes
some_time n = codes "noon"

analyze_lem_example :
    (t : Analysis) × (analyze some_time 1 (segment ∷ segment ∷ []) new_analysis ≡ some t)
    × (t.packet_count ≡ (if 1 == 0 then 2 else min 1 2))
    × (t.parse_errors ≤ t.packet_count)
analyze_lem_example = analyze_lem some_time 1 (segment ∷ segment ∷ [])
