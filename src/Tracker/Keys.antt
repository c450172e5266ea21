-- ===== src/Tracker/Keys.antt =====
-- No tuple stands twice in the table of src/connection_tracker.cpp, and what `cleanupStale` keeps.
use multi_threaded_dpi_engin.Base.{
  ℕ, ◌+◌, ◌≤◌, true, false, leb, List, map, [], ◌∷◌, ◌++◌, none, ◌≡◌, refl, ap, ◌∙◌, inl, inr,
  arith, Bool-cases, Option-cases, length,
}
use multi_threaded_dpi_engin.Types.Flow.{FiveTuple, tuple_eq, tuple_eq_iff}
use multi_threaded_dpi_engin.Types.{Connection}
use multi_threaded_dpi_engin.Tracker.Lookup.{find-replace_other, find-erase_none, evict_oldest-none}
use multi_threaded_dpi_engin.Tracker.Cleanup.{
  survivor, survivor-some, gone, sweep_counts, sweep-gone,
}
use multi_threaded_dpi_engin.Tracker.{
  Tracker, Clock, find_connection, erase_connection, replace_connection, flow_telemetry, store,
  evict_from, evict_oldest, oldest, create_connection, get_or_create_connection, fresh_connection,
  is_stale, sweep, cleanup_stale,
}

abbrev pub DistinctKeys : List Connection → Type 0
DistinctKeys [] = Unit
DistinctKeys (c ∷ cs) = (find_connection c.tuple cs ≡ none) × DistinctKeys cs

pub replace-DistinctKeys :
    (d : Connection) (cs : List Connection)
    → DistinctKeys cs
    → DistinctKeys (replace_connection d cs)
unfolding replace_connection
replace-DistinctKeys d [] k = tt
replace-DistinctKeys d (c ∷ cs) k = elim (Bool-cases (tuple_eq c.tuple d.tuple)) [
  | inl hit ↦ rw hit (ground (arith, tuple_eq_iff c.tuple d.tuple), k.1)
  | inr miss ↦ rw miss (
    ground (
      arith,
      find-replace_other c.tuple d cs,
      tuple_eq_iff c.tuple d.tuple,
      tuple_eq_iff d.tuple c.tuple,
    ),
    replace-DistinctKeys d cs k.1,
  )
]

erase-DistinctKeys :
    (t : FiveTuple) (cs : List Connection) → DistinctKeys cs → DistinctKeys (erase_connection t cs)
unfolding erase_connection
erase-DistinctKeys t [] k = tt
erase-DistinctKeys t (c ∷ cs) k = elim (Bool-cases (tuple_eq c.tuple t)) [
  | inl hit ↦ rw hit k.1
  | inr miss ↦ rw miss (find-erase_none c.tuple t cs k.0, erase-DistinctKeys t cs k.1)
]

find-append_none :
    (t : FiveTuple) (cs : List Connection) (c : Connection)
    → find_connection t cs ≡ none
    → tuple_eq c.tuple t ≡ false
    → find_connection t (cs ++ c ∷ []) ≡ none
unfolding find_connection
find-append_none t [] c e h = rw h
find-append_none t (d ∷ cs) c e h = ground (arith, find-append_none t cs c)

append-DistinctKeys :
    (cs : List Connection) (c : Connection)
    → DistinctKeys cs
    → find_connection c.tuple cs ≡ none
    → DistinctKeys (cs ++ c ∷ [])
unfolding find_connection
append-DistinctKeys [] c k e = (refl, tt)
append-DistinctKeys (d ∷ cs) c k e = (
  ground (
    arith,
    find-append_none d.tuple cs c k.0,
    tuple_eq_iff d.tuple c.tuple,
    tuple_eq_iff c.tuple d.tuple,
  ),
  append-DistinctKeys cs c k.1 (ground arith),
)

evict-DistinctKeys :
    (tr : Tracker) → DistinctKeys tr.connections → DistinctKeys (evict_oldest tr).connections
unfolding evict_oldest
evict-DistinctKeys tr k = go tr.connections
  where
    go : (cs : List Connection) → DistinctKeys (evict_from cs tr).connections
    go [] = k
    go (c ∷ cs) = erase-DistinctKeys (oldest c (c ∷ cs)).tuple tr.connections k

-- Looking a tuple up or creating its connection, with or without eviction, never makes a tuple
-- stand twice in the table.
pub get_or_create_connection-DistinctKeys :
    (t : FiveTuple) (now : Clock) (tr : Tracker)
    → DistinctKeys tr.connections
    → DistinctKeys (get_or_create_connection t now tr).1.connections
unfolding get_or_create_connection create_connection
get_or_create_connection-DistinctKeys t now tr k =
    elim (Option-cases (find_connection t tr.connections)) [
      | inr (c, e) ↦ rw (e, get_or_create_connection) k
      | inl e ↦
          rw (e, get_or_create_connection)
            (elim (Bool-cases (leb tr.max_connections (length tr.connections))) [
              | inl full ↦ rw full (
                  append-DistinctKeys (evict_oldest tr).connections (fresh_connection t now)
                    (evict-DistinctKeys tr k) (evict_oldest-none t tr e))
              | inr room ↦ rw room (append-DistinctKeys tr.connections (fresh_connection t now) k e)
            ])
    ]

pub store-DistinctKeys :
    (c : Connection) (tr : Tracker)
    → DistinctKeys tr.connections
    → DistinctKeys (store c tr).connections
unfolding store
store-DistinctKeys c tr k = replace-DistinctKeys c tr.connections k

find_same :
    (c : Connection) (t : FiveTuple) (cs : List Connection)
    → tuple_eq c.tuple t ≡ true
    → find_connection c.tuple cs ≡ none
    → find_connection t cs ≡ none
find_same c t cs h e = rw ((tuple_eq_iff c.tuple t).0 h) at e

find-sweep :
    (timeout : ℕ) (now : Clock) (t : FiveTuple) (cs : List Connection)
    → DistinctKeys cs
    → find_connection t (sweep timeout now cs).kept ≡ survivor timeout now (find_connection t cs)
unfolding find_connection sweep
find-sweep timeout now t [] k = unfold survivor in refl
find-sweep timeout now t (c ∷ cs) k =
    let rest = find-sweep timeout now t cs k.1 in
    let kept = survivor-some timeout now c in
    elim (Bool-cases (tuple_eq c.tuple t)) [
      | inl hit ↦
          let gone = find_same c t cs hit k.0 in
          let nothing : survivor timeout now none ≡ none = unfold survivor in refl in
          elim (Bool-cases (is_stale timeout now c)) [
            | inl old ↦ rw (hit, kept, old) (rest ∙ rw gone nothing)
            | inr young ↦ rw (hit, kept, young) (rw hit)
          ]
      | inr miss ↦ elim (Bool-cases (is_stale timeout now c)) [
        | inl old ↦ rw (miss, old) rest
        | inr young ↦ rw (miss, young) (rw miss rest)
      ]
    ]

-- In a table without a tuple twice, a cleanup removes exactly the connections that are closed or
-- were last seen a second more than the timeout ago, or earlier: every lookup finds what it found
-- before, unless that is such a connection. It returns the number of these connections, by which
-- the table is shorter, and adds the telemetry record of each in their order.
pub find-cleanup_stale :
    (timeout : ℕ) (now : Clock) (tr : Tracker)
    → DistinctKeys tr.connections
    → let after = cleanup_stale timeout now tr in
      ((t : FiveTuple)
        → find_connection t after.1.connections
          ≡ survivor timeout now (find_connection t tr.connections))
      × (after.0 ≡ length (gone timeout now tr.connections))
      × (length after.1.connections + after.0 ≡ length tr.connections)
      × (after.1.telemetry ≡ tr.telemetry ++ map flow_telemetry (gone timeout now tr.connections))
unfolding cleanup_stale
find-cleanup_stale timeout now tr k =
    let (counted, sent) = sweep-gone timeout now tr.connections in
    (
      λ t. find-sweep timeout now t tr.connections k,
      counted,
      sweep_counts timeout now tr.connections,
      ap (λ records. tr.telemetry ++ records) sent,
    )

sweep-none :
    (timeout : ℕ) (now : Clock) (t : FiveTuple) (cs : List Connection)
    → find_connection t cs ≡ none
    → find_connection t (sweep timeout now cs).kept ≡ none
unfolding find_connection sweep
sweep-none timeout now t [] e = refl
sweep-none timeout now t (c ∷ cs) e = ground (arith, sweep-none timeout now t cs)

sweep-DistinctKeys :
    (timeout : ℕ) (now : Clock) (cs : List Connection)
    → DistinctKeys cs
    → DistinctKeys (sweep timeout now cs).kept
unfolding sweep
sweep-DistinctKeys timeout now [] k = tt
sweep-DistinctKeys timeout now (c ∷ cs) k = elim (Bool-cases (is_stale timeout now c)) [
  | inl old ↦ rw old (sweep-DistinctKeys timeout now cs k.1)
  | inr young ↦
      rw young (sweep-none timeout now c.tuple cs k.0, sweep-DistinctKeys timeout now cs k.1)
]

pub cleanup-DistinctKeys :
    (timeout : ℕ) (now : Clock) (tr : Tracker)
    → DistinctKeys tr.connections
    → DistinctKeys (cleanup_stale timeout now tr).1.connections
unfolding cleanup_stale
cleanup-DistinctKeys timeout now tr k = sweep-DistinctKeys timeout now tr.connections k

pub cleanup-length :
    (timeout : ℕ) (now : Clock) (tr : Tracker)
    → (length (cleanup_stale timeout now tr).1.connections ≤ length tr.connections)
      × ((cleanup_stale timeout now tr).1.max_connections ≡ tr.max_connections)
unfolding cleanup_stale
cleanup-length timeout now tr = (omega (arith, sweep_counts timeout now tr.connections), refl)
