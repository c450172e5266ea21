-- ===== src/Report/Classified.antt =====
-- What `FPManager::generateClassificationReport` of src/fast_path.cpp counts.
use multi_threaded_dpi_engin.Base.{ℕ, ◌+◌, if◌then◌else◌, List, [], ◌∷◌, Bytes, take}
use multi_threaded_dpi_engin.Base.Eq.{text_eq}
use multi_threaded_dpi_engin.Base.Counters.{count_up}
use multi_threaded_dpi_engin.Base.Ranking.{sort_by_count}
use multi_threaded_dpi_engin.Types.App.{AppType, app_eq, app_beq, unknown}
use multi_threaded_dpi_engin.Types.{Connection}
use multi_threaded_dpi_engin.FastPath.{FastPath}
use multi_threaded_dpi_engin.Report.Table.{count_domain}

pub record Classified : Type 0 where
  pub app_counts : List (AppType × ℕ)
  pub domain_counts : List (Bytes × ℕ)
  pub total_classified : ℕ
  pub total_unknown : ℕ

-- The function that `forEach` is called with.
unfoldable pub classify_one : Connection → Classified → Classified
unfolding count_domain
classify_one conn c =
    let is_unknown = app_beq conn.app_type unknown in
    record {
      app_counts = count_up conn.app_type c.app_counts;
      domain_counts = count_domain conn.sni c.domain_counts;
      total_classified = if is_unknown then c.total_classified else c.total_classified + 1;
      total_unknown = if is_unknown then c.total_unknown + 1 else c.total_unknown;
    }

unfoldable pub classify_each : List Connection → Classified → Classified
unfolding classify_one
classify_each [] c = c
classify_each (conn ∷ rest) c = classify_each rest (classify_one conn c)

-- The loop over the processors.
unfoldable pub classify_fps : List FastPath → Classified → Classified
unfolding classify_each
classify_fps [] c = c
classify_fps (fp ∷ fps) c = classify_fps fps (classify_each fp.tracker.connections c)

abbrev pub none_classified : Classified
none_classified = record {
  app_counts = [];
  domain_counts = [];
  total_classified = 0;
  total_unknown = 0;
}

-- The counts behind the report, and the domains that it lists.
unfoldable pub classification : List FastPath → Classified
unfolding classify_fps
classification fps = classify_fps fps none_classified

abbrev pub listed_domains : Classified → List (Bytes × ℕ)
listed_domains c = take 10 (sort_by_count c.domain_counts)
