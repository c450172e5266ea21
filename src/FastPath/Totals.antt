-- ===== src/FastPath/Totals.antt =====
-- The counters of the processors and their sums: `getStats` and `FPManager::getAggregatedStats` of
-- src/fast_path.cpp.
use multi_threaded_dpi_engin.Base.{
  ℕ, ◌+◌, List, [], ◌∷◌, ◌++◌, length, length-append, AllOf, ◌≡◌, ◌∙◌, arith,
}
use multi_threaded_dpi_engin.Types.{Connection}
use multi_threaded_dpi_engin.FastPath.{FastPath}
use multi_threaded_dpi_engin.FastPath.Run.{IsValid}

pub record FpStats : Type 0 where
  pub packets_processed : ℕ
  pub packets_forwarded : ℕ
  pub packets_dropped : ℕ
  pub connections_tracked : ℕ
  pub sni_extractions : ℕ
  pub classification_hits : ℕ

-- `getStats`
unfoldable pub get_fp_stats : FastPath → FpStats
get_fp_stats fp = record {
  packets_processed = fp.packets_processed;
  packets_forwarded = fp.packets_forwarded;
  packets_dropped = fp.packets_dropped;
  connections_tracked = length fp.tracker.connections;
  sni_extractions = fp.sni_extractions;
  classification_hits = fp.classification_hits;
}

pub record FpTotals : Type 0 where
  pub total_processed : ℕ
  pub total_forwarded : ℕ
  pub total_dropped : ℕ
  pub total_connections : ℕ

-- The body of the loop.
unfoldable pub add_fp_stats : FpTotals → FpStats → FpTotals
add_fp_stats sums fp_stats = record {
  total_processed = sums.total_processed + fp_stats.packets_processed;
  total_forwarded = sums.total_forwarded + fp_stats.packets_forwarded;
  total_dropped = sums.total_dropped + fp_stats.packets_dropped;
  total_connections = sums.total_connections + fp_stats.connections_tracked;
}

unfoldable pub sum_fp_stats : List FastPath → FpTotals → FpTotals
unfolding get_fp_stats add_fp_stats
sum_fp_stats [] sums = sums
sum_fp_stats (fp ∷ fps) sums = sum_fp_stats fps (add_fp_stats sums (get_fp_stats fp))

abbrev pub no_totals : FpTotals
no_totals = record {
  total_processed = 0;
  total_forwarded = 0;
  total_dropped = 0;
  total_connections = 0;
}

-- `FPManager::getAggregatedStats`
unfoldable pub fp_totals : List FastPath → FpTotals
unfolding sum_fp_stats
fp_totals fps = sum_fp_stats fps no_totals

-- The connections of all processors.
abbrev pub all_connections : List FastPath → List Connection
all_connections [] = []
all_connections (fp ∷ fps) = fp.tracker.connections ++ all_connections fps

sum-balanced :
    (fps : List FastPath) (sums : FpTotals)
    → AllOf IsValid fps
    → sums.total_processed ≡ sums.total_forwarded + sums.total_dropped
    → (sum_fp_stats fps sums).total_processed
      ≡ (sum_fp_stats fps sums).total_forwarded + (sum_fp_stats fps sums).total_dropped
unfolding sum_fp_stats add_fp_stats get_fp_stats
sum-balanced [] sums valid h = h
sum-balanced (fp ∷ fps) sums valid h =
    sum-balanced fps _ valid.1 (omega (arith, h, valid.0.balanced))

pub sum-connections :
    (fps : List FastPath) (sums : FpTotals)
    → (sum_fp_stats fps sums).total_connections
      ≡ sums.total_connections + length (all_connections fps)
unfolding sum_fp_stats add_fp_stats get_fp_stats
sum-connections [] sums = omega arith
sum-connections (fp ∷ fps) sums =
    sum-connections fps _
    ∙ omega (arith, length-append fp.tracker.connections (all_connections fps))

-- If every processor is valid, the sums balance: what was processed was forwarded or dropped.
pub fp_totals-balanced :
    (fps : List FastPath)
    → AllOf IsValid fps
    → (fp_totals fps).total_processed
      ≡ (fp_totals fps).total_forwarded + (fp_totals fps).total_dropped
unfolding fp_totals
fp_totals-balanced fps valid = sum-balanced fps no_totals valid (omega arith)
