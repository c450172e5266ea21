-- ===== src/Report/Gather.antt =====
-- The loops of `DPIEngine::initialize` and `getGlobalStats` over the trackers.
use multi_threaded_dpi_engin.Base.{
  ℕ, zero, suc, ◌+◌, ◌<◌, List, [], ◌∷◌, ◌++◌, append_assoc, Option, some, none, length, set,
  replicate, get_elem?, length-append, ◌≡◌, refl, sym, ap, ◌∙◌, arith, lt→ltb,
}
use multi_threaded_dpi_engin.Tracker.{get_stats}
use multi_threaded_dpi_engin.FastPath.{FastPath}
use multi_threaded_dpi_engin.FastPath.Totals.{all_connections}
use multi_threaded_dpi_engin.Report.Table.{
  GlobalConnectionTable, new_table, register_tracker, register_trackers, initialize_table, Gathered,
  add_tracker, for_each, gather,
}
use multi_threaded_dpi_engin.Report.Tallied.{for_each-append}

-- How many connections all fast paths have seen.
abbrev pub all_seen : List FastPath → ℕ
all_seen [] = 0
all_seen (fp ∷ fps) = fp.tracker.total_seen + all_seen fps

abbrev pub numbered : ℕ → ℕ → List (Option ℕ)
numbered i zero = []
numbered i (suc n) = some i ∷ numbered (i + 1) n

set_next :
    (n v : ℕ) (pre : List (Option ℕ))
    → set (pre ++ replicate (suc n) none) (length pre) (some v) ≡ pre ++ some v ∷ replicate n none
set_next n v [] = refl
set_next n v (x ∷ pre) = rw (set_next n v pre)

register_next :
    (n i : ℕ) (pre ts : List (Option ℕ))
    → i ≡ length pre
    → ts ≡ pre ++ replicate (suc n) none
    → (register_tracker i i (record { trackers = ts })).trackers ≡ pre ++ some i ∷ replicate n none
unfolding register_tracker
register_next n i pre ts here same =
    let room : i < length ts =
      omega (arith, length-append pre (replicate (suc n) none), ap length same) in
    rw (lt→ltb _ _ room, same, here, set_next n (length pre) pre)

-- Each slot gets the tracker of the fast path with its number.
register_all :
    (n i : ℕ) (pre : List (Option ℕ)) (table : GlobalConnectionTable)
    → i ≡ length pre
    → table.trackers ≡ pre ++ replicate n none
    → (register_trackers n i table).trackers ≡ pre ++ numbered i n
unfolding register_trackers
register_all zero i pre table here same = same
register_all (suc n) i pre table here same =
    register_all n (i + 1) (pre ++ some i ∷ []) (register_tracker i i table)
      (omega (arith, length-append pre (some i ∷ [])))
      (register_next n i pre table.trackers here same
        ∙ sym (append_assoc pre (some i ∷ []) (replicate n none)))
    ∙ append_assoc pre (some i ∷ []) (numbered (i + 1) n)

pub initialize_table-numbered : (n : ℕ) → (initialize_table n).trackers ≡ numbered 0 n
unfolding initialize_table
initialize_table-numbered n = register_all n 0 [] (new_table n) refl refl

next_elem :
    (pre rest : List FastPath) (fp : FastPath) → get_elem? (pre ++ fp ∷ rest) (length pre) ≡ some fp
next_elem [] rest fp = refl
next_elem (x ∷ pre) rest fp = next_elem pre rest fp

-- The loop over all fast paths.
pub gather_all : List FastPath → Gathered → Gathered
gather_all [] g = g
gather_all (fp ∷ fps) g = gather_all fps (add_tracker fp.tracker g)

pub gather-numbered :
    (rest pre fps : List FastPath) (i : ℕ) (g : Gathered)
    → i ≡ length pre
    → fps ≡ pre ++ rest
    → gather fps (numbered i (length rest)) g ≡ some (gather_all rest g)
unfolding gather gather_all
gather-numbered [] pre fps i g here same = refl
gather-numbered (fp ∷ rest) pre fps i g here same =
    let found : get_elem? fps i ≡ some fp = rw (here, same) (next_elem pre rest fp) in
    rw found (
      gather-numbered rest (pre ++ fp ∷ []) fps (i + 1) (add_tracker fp.tracker g)
        (omega (arith, length-append pre (fp ∷ []))) (same ∙ sym (append_assoc pre (fp ∷ []) rest)))

-- What it has collected.
pub record Summed (g : Gathered) (fps : List FastPath) (r : Gathered) : Type 0 where
  pub active : r.active ≡ g.active + length (all_connections fps)
  pub seen : r.seen ≡ g.seen + all_seen fps
  pub tally : r.tally ≡ for_each (all_connections fps) g.tally

pub gather_all-Summed : (fps : List FastPath) (g : Gathered) → Summed g fps (gather_all fps g)
unfolding gather_all add_tracker get_stats for_each
gather_all-Summed [] g = record { active = omega arith; seen = omega arith; tally = refl }
gather_all-Summed (fp ∷ fps) g =
    let rest = gather_all-Summed fps (add_tracker fp.tracker g) in
    record {
      active =
          omega (arith, rest.active, length-append fp.tracker.connections (all_connections fps));
      seen = omega (arith, rest.seen);
      tally =
          rest.tally ∙ sym (for_each-append fp.tracker.connections (all_connections fps) g.tally);
    }
