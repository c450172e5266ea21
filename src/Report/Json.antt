-- ===== src/Report/Json.antt =====
-- `DPIEngine::generateJsonSummary` of src/dpi_engine.cpp. The numbers of connections are below the
-- limit of an `int`, as a tracker holds at most 100000.
use multi_threaded_dpi_engin.Base.{
  ℕ, ◌+◌, ◌-◌, Bool, true, false, if◌then◌else◌, List, [], ◌∷◌, ◌++◌, append_assoc, Bytes, codes,
  decimal, ◌≡◌, Option, some, ◌>>=◌,
}
use multi_threaded_dpi_engin.Types.App.{AppType, app_beq, unknown, app_name}
use multi_threaded_dpi_engin.FastPath.{FastPath}
use multi_threaded_dpi_engin.Report.Table.{GlobalConnectionTable, GlobalStats, get_global_stats}

pub record JsonCounts : Type 0 where
  pub total_conns : ℕ
  pub unknown_conns : ℕ

-- The loop over the map of the applications.
unfoldable pub count_conns : List (AppType × ℕ) → JsonCounts → JsonCounts
count_conns [] c = c
count_conns ((app, count) ∷ rest) c = count_conns rest (record {
  total_conns = c.total_conns + count;
  unknown_conns = if app_beq app unknown then c.unknown_conns + count else c.unknown_conns;
})

abbrev pub no_conns : JsonCounts
no_conns = record { total_conns = 0; unknown_conns = 0 }

unfoldable pub json_counts : GlobalStats → JsonCounts
unfolding count_conns
json_counts stats = count_conns stats.app_distribution no_conns

abbrev pub classified_conns : JsonCounts → ℕ
classified_conns c = c.total_conns - c.unknown_conns

-- One entry of an object: a comma unless it is the first, a line break, the name and the number.
abbrev json_entry : Bool → Bytes → ℕ → Bytes
json_entry first name count =
    (if first then [] else codes ",") ++ codes "\n    \"" ++ name ++ codes "\": " ++ decimal count

app_entries : Bool → List (AppType × ℕ) → Bytes
app_entries first [] = []
app_entries first ((app, count) ∷ rest) =
    if app_beq app unknown
    then app_entries first rest
    else json_entry first (app_name app) count ++ app_entries false rest

unfoldable pub domain_entries : Bool → List (Bytes × ℕ) → Bytes
domain_entries first [] = []
domain_entries first ((domain, count) ∷ rest) =
    json_entry first domain count ++ domain_entries false rest

unfoldable pub json_text : ℕ → GlobalStats → JsonCounts → Bytes
unfolding app_entries domain_entries
json_text total_packets stats c =
    codes "{\n"
    ++ codes "  \"total_packets\": "
    ++ decimal total_packets
    ++ codes ",\n"
    ++ codes "  \"total_connections\": "
    ++ decimal c.total_conns
    ++ codes ",\n"
    ++ codes "  \"classified\": "
    ++ decimal (classified_conns c)
    ++ codes ",\n"
    ++ codes "  \"unknown\": "
    ++ decimal c.unknown_conns
    ++ codes ",\n"
    ++ codes "  \"application_distribution\": {"
    ++ app_entries true stats.app_distribution
    ++ codes "\n  },\n"
    ++ codes "  \"top_domains\": {"
    ++ domain_entries true stats.top_domains
    ++ codes "\n  }\n"
    ++ codes "}\n"

-- `generateJsonSummary`; `none` is a pointer to a tracker that is gone.
unfoldable pub generate_json_summary : ℕ → List FastPath → GlobalConnectionTable → Option Bytes
unfolding json_text json_counts
generate_json_summary total_packets fps table = do
  stats ← get_global_stats fps table
  some (json_text total_packets stats (json_counts stats))

domain_entries_split :
    (first : Bool) (a b : Bytes) (m n : ℕ) (rest : List (Bytes × ℕ))
    → domain_entries first ((a ++ codes "\": " ++ decimal m ++ codes ",\n    \"" ++ b, n) ∷ rest)
      ≡ domain_entries first ((a, m) ∷ (b, n) ∷ rest)
unfolding domain_entries
domain_entries_split first a b m n rest = simp append_assoc

-- One domain of which the name holds a quote, a colon, a number, a comma, a line break and a quote
-- is printed like two domains, whatever the rest of the summary.
pub json_text-ambiguous :
    (total_packets : ℕ) (stats : GlobalStats) (c : JsonCounts) (a b : Bytes) (m n : ℕ)
    (rest : List (Bytes × ℕ))
    → json_text total_packets
        (record stats {
          top_domains = (a ++ codes "\": " ++ decimal m ++ codes ",\n    \"" ++ b, n) ∷ rest;
        })
        c
      ≡ json_text total_packets (record stats { top_domains = (a, m) ∷ (b, n) ∷ rest }) c
unfolding json_text
json_text-ambiguous total_packets stats c a b m n rest = rw (domain_entries_split true a b m n rest)
