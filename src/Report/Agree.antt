-- ===== src/Report/Agree.antt =====
-- The three reports of an engine on its connections: `getAggregatedStats`, `getGlobalStats` with
-- the JSON summary, and `generateClassificationReport`.
use multi_threaded_dpi_engin.Base.{
  ℕ, zero, suc, ◌+◌, ◌≤◌, List, [], ◌∷◌, Ensures, length, length-append, take, ◌≡◌, refl, sym, ap,
  ◌∙◌, arith, Bool-cases, inl, inr,
}
use multi_threaded_dpi_engin.Base.Eq.{text_eq}
use multi_threaded_dpi_engin.Base.Assoc.{at_key, total}
use multi_threaded_dpi_engin.Base.Counters.{has_key, KeysOnce, absent_at_key}
use multi_threaded_dpi_engin.Base.Ranking.{sort_by_count}
use multi_threaded_dpi_engin.Types.App.{AppType, app_eq, app_beq, app_beq_iff, unknown}
use multi_threaded_dpi_engin.Types.{Connection}
use multi_threaded_dpi_engin.FastPath.{FastPath}
use multi_threaded_dpi_engin.FastPath.Totals.{
  all_connections, no_totals, fp_totals, sum-connections,
}
use multi_threaded_dpi_engin.Report.Table.{
  GlobalStats, get_global_stats, initialize_table, Tally, count_connection, for_each, nothing_yet,
}
use multi_threaded_dpi_engin.Report.Tallied.{
  count_if, count_if-append, has_app, for_each-append, for_each-total,
}
use multi_threaded_dpi_engin.Report.Exact.{
  found_app, tally_all-IsMap, tally_all, get_global_stats-stats_of,
}
use multi_threaded_dpi_engin.Report.Classified.{
  Classified, classify_one, classify_each, classify_fps, none_classified, classification,
  listed_domains,
}
use multi_threaded_dpi_engin.Report.Json.{
  JsonCounts, no_conns, count_conns, json_counts, classified_conns,
}

-- The two counts of all connections.
abbrev tallied : Classified → Tally
tallied c = record { app_distribution = c.app_counts; domain_counts = c.domain_counts }

record Counted (cs : List Connection) (c r : Classified) : Type 0 where
  tally : tallied r ≡ for_each cs (tallied c)
  is_unknown : r.total_unknown ≡ c.total_unknown + count_if (has_app unknown) cs
  all : r.total_classified + r.total_unknown ≡ c.total_classified + c.total_unknown + length cs

classify_each-Counted : (cs : List Connection) (c : Classified) → Counted cs c (classify_each cs c)
unfolding classify_each classify_one for_each count_connection
classify_each-Counted [] c = record { tally = refl; is_unknown = omega arith; all = omega arith }
classify_each-Counted (d ∷ cs) c =
    let rest = classify_each-Counted cs (classify_one d c) in
    record {
      tally = rest.tally;
      is_unknown = rest.is_unknown ∙ ground arith;
      all = rest.all ∙ ground arith;
    }

classify_fps-Counted :
    (fps : List FastPath) (c : Classified) → Counted (all_connections fps) c (classify_fps fps c)
unfolding classify_fps for_each
classify_fps-Counted [] c = record { tally = refl; is_unknown = omega arith; all = omega arith }
classify_fps-Counted (fp ∷ fps) c =
    let own = fp.tracker.connections in
    let here = classify_each-Counted own c in
    let rest = classify_fps-Counted fps (classify_each own c) in
    record {
      tally =
          rest.tally
          ∙ ap (for_each (all_connections fps)) here.tally
          ∙ sym (for_each-append own (all_connections fps) (tallied c));
      is_unknown = omega (
        arith,
        rest.is_unknown,
        here.is_unknown,
        count_if-append (has_app unknown) own (all_connections fps),
      );
      all = omega (arith, rest.all, here.all, length-append own (all_connections fps));
    }

-- The sums over the map of the applications.
count_conns-total :
    (m : List (AppType × ℕ)) (c : JsonCounts)
    → (count_conns m c).total_conns ≡ c.total_conns + total m
unfolding count_conns
count_conns-total [] c = omega arith
count_conns-total ((app, n) ∷ m) c = count_conns-total m _ ∙ omega arith

count_conns-unknown :
    (m : List (AppType × ℕ)) (c : JsonCounts)
    → KeysOnce m
    → (count_conns m c).unknown_conns ≡ c.unknown_conns + at_key unknown 0 m
unfolding count_conns at_key KeysOnce
count_conns-unknown [] c h = omega arith
count_conns-unknown ((app, n) ∷ m) c h = elim (Bool-cases (app_beq app unknown)) [
  | inl same ↦
      let absent =
        absent_at_key unknown m
          (ap (λ a. has_key a m) (sym ((app_beq_iff app unknown).0 same)) ∙ h.0) in
      rw same (count_conns-unknown m _ h.1 ∙ ground (arith, absent))
  | inr other ↦ rw other (count_conns-unknown m _ h.1 ∙ ground (arith))
]

pub record Agree (fps : List FastPath) (stats : GlobalStats) : Type 0 where
  pub connections : (fp_totals fps).total_connections ≡ stats.total_active_connections
  pub total_conns : (json_counts stats).total_conns ≡ stats.total_active_connections
  pub classified : classified_conns (json_counts stats) ≡ (classification fps).total_classified
  pub unknown_conns : (json_counts stats).unknown_conns ≡ (classification fps).total_unknown
  pub app_counts : (classification fps).app_counts ≡ stats.app_distribution
  pub domains : listed_domains (classification fps) ≡ take 10 stats.top_domains

take_shorter : {A : Type 0} (n m : ℕ) (xs : List A) → n ≤ m → take n xs ≡ take n (take m xs)
take_shorter zero m xs h = refl
take_shorter (suc n) zero xs h = ground arith
take_shorter (suc n) (suc m) [] h = refl
take_shorter (suc n) (suc m) (x ∷ xs) h = rw (sym (take_shorter n m xs (omega (arith, h))))

-- For any fast paths the three reports are made of the same numbers: the sums of the manager, the
-- JSON summary and the classification report have the same total of connections, the same numbers
-- of classified and unknown ones and the same distribution of applications, and the ten domains that
-- the one lists are the first ten of the other.
pub get_global_stats-Agree :
    (fps : List FastPath)
    → Ensures (Agree fps) (get_global_stats fps (initialize_table (length fps)))
unfolding json_counts classification fp_totals
get_global_stats-Agree fps =
    let cs = all_connections fps in
    let counted = classify_fps-Counted fps none_classified in
    let apps = (tally_all cs).app_distribution in
    let whole = for_each-total cs nothing_yet.tally in
    let sum = count_conns-total apps no_conns in
    let missing = count_conns-unknown apps no_conns (tally_all-IsMap cs).apps in
    let none_known = found_app unknown cs in
    rw (get_global_stats-stats_of fps) (record {
      connections = sum-connections fps no_totals ∙ omega arith;
      total_conns = omega (arith, sum, whole);
      classified = omega (arith, sum, whole, missing, none_known, counted.is_unknown, counted.all);
      unknown_conns = omega (arith, missing, none_known, counted.is_unknown);
      app_counts = ap (λ t. t.app_distribution) counted.tally;
      domains =
          ap (λ t. take 10 (sort_by_count t.domain_counts)) counted.tally
          ∙ take_shorter 10 20 (sort_by_count (tally_all cs).domain_counts) (omega arith);
    })
