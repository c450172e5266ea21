-- ===== src/Tracker/Capacity.antt =====
-- Eviction removes the connection seen longest ago, and the table never outgrows its limit.
use multi_threaded_dpi_engin.Base.{
  ℕ, ◌+◌, ◌≤◌, ◌<◌, leb, ltb, if◌then◌else◌, List, [], ◌∷◌, ◌++◌, true, none, some, ◌≡◌, sym, subst,
  refl, ap, ◌∙◌, ◌⊎◌, inl, inr, arith, Bool-cases, Option-cases, length, length-append,
}
use multi_threaded_dpi_engin.Types.Flow.{FiveTuple, tuple_eq, tuple_eq_iff}
use multi_threaded_dpi_engin.Types.{Connection}
use multi_threaded_dpi_engin.Tracker.Lookup.{tuple_eq_self}
use multi_threaded_dpi_engin.Tracker.Keys.{DistinctKeys}
use multi_threaded_dpi_engin.Tracker.{
  Tracker, Clock, find_connection, erase_connection, replace_connection, evict_from, evict_oldest,
  oldest, create_connection, fresh_connection, get_or_create_connection, flow_telemetry,
}

-- No connection of the list was last seen before the given time.
abbrev pub NoneBefore : ℕ → List Connection → Type 0
NoneBefore time [] = Unit
NoneBefore time (c ∷ cs) = (time ≤ c.last_seen) × NoneBefore time cs

NoneBefore-mono : (s t : ℕ) (cs : List Connection) → s ≤ t → NoneBefore t cs → NoneBefore s cs
NoneBefore-mono s t [] h n = tt
NoneBefore-mono s t (c ∷ cs) h n = (omega arith, NoneBefore-mono s t cs h n.1)

oldest-le : (best : Connection) (cs : List Connection) → (oldest best cs).last_seen ≤ best.last_seen
unfolding oldest
oldest-le best [] = omega arith
oldest-le best (c ∷ cs) =
    ground (arith, oldest-le (if ltb c.last_seen best.last_seen then c else best) cs)

pub oldest-NoneBefore :
    (best : Connection) (cs : List Connection) → NoneBefore (oldest best cs).last_seen cs
unfolding oldest
oldest-NoneBefore best [] = tt
oldest-NoneBefore best (c ∷ cs) = (
  ground (arith, oldest-le (if ltb c.last_seen best.last_seen then c else best) cs),
  oldest-NoneBefore (if ltb c.last_seen best.last_seen then c else best) cs,
)

-- A key is in the table.
abbrev Has : FiveTuple → List Connection → Type 0
Has t cs = (c : Connection) × (find_connection t cs ≡ some c)

-- A connection is in the table, with the entries that stand before and behind it.
abbrev Entry : Connection → List Connection → Type 0
Entry c cs = (before : List Connection) × (after : List Connection) × (cs ≡ before ++ c ∷ after)

Entry-tail : (c d : Connection) (cs : List Connection) → Entry c cs → Entry c (d ∷ cs)
Entry-tail c d cs (before, after, e) = (d ∷ before, after, ap (◌∷◌ d) e)

-- One more entry in front of the list, and `d` the better of it and `best`.
oldest_step :
    (o best c d : Connection) (cs : List Connection)
    → (d ≡ c) ⊎ (d ≡ best)
    → (o ≡ d) ⊎ Entry o cs
    → (o ≡ best) ⊎ Entry o (c ∷ cs)
oldest_step o best c d cs (inl p) (inl q) = inr ([], cs, ap (λ x. x ∷ cs) (sym (q ∙ p)))
oldest_step o best c d cs (inr p) (inl q) = inl (q ∙ p)
oldest_step o best c d cs p (inr later) = inr (Entry-tail o c cs later)

oldest-Entry :
    (best : Connection) (cs : List Connection) → (oldest best cs ≡ best) ⊎ Entry (oldest best cs) cs
unfolding oldest
oldest-Entry best [] = inl refl
oldest-Entry best (c ∷ cs) =
    let better : Connection = if ltb c.last_seen best.last_seen then c else best in
    oldest_step (oldest better cs) best c better cs (ground arith) (oldest-Entry better cs)

-- The entry that `evictOldest` chooses.
victim-Entry : (c : Connection) (cs : List Connection) → Entry (oldest c (c ∷ cs)) (c ∷ cs)
victim-Entry c cs = elim (oldest-Entry c (c ∷ cs)) [
  | inl same ↦ ([], cs, ap (λ x. x ∷ cs) (sym same))
  | inr later ↦ later
]

Has-middle : (before after : List Connection) (c : Connection) → Has c.tuple (before ++ c ∷ after)
unfolding find_connection
Has-middle [] after c = (c, ground (arith, tuple_eq_self c.tuple))
Has-middle (d ∷ before) after c = elim (Bool-cases (tuple_eq d.tuple c.tuple)) [
  | inl e ↦ (d, rw e)
  | inr e ↦ ((Has-middle before after c).0, rw e (Has-middle before after c).1)
]

not_twice :
    (t u : FiveTuple) (cs : List Connection)
    → tuple_eq t u ≡ true
    → find_connection t cs ≡ none
    → Has u cs
    → ⊥
not_twice t u cs e gone has =
    let missing : find_connection u cs ≡ none = rw ((tuple_eq_iff t u).0 e) at gone in
    let found = has.1 in cc

-- In a table without a tuple twice, erasing an entry leaves those before and behind it.
erase-middle :
    (before after : List Connection) (c : Connection)
    → DistinctKeys (before ++ c ∷ after)
    → erase_connection c.tuple (before ++ c ∷ after) ≡ before ++ after
unfolding erase_connection
erase-middle [] after c k = ground (arith, tuple_eq_self c.tuple)
erase-middle (d ∷ before) after c k = elim (Bool-cases (tuple_eq d.tuple c.tuple)) [
  | inl e ↦
      absurd (not_twice d.tuple c.tuple (before ++ c ∷ after) e k.0 (Has-middle before after c))
  | inr e ↦ rw e (ap (◌∷◌ d) (erase-middle before after c k.1))
]

length-erase :
    (t : FiveTuple) (cs : List Connection)
    → Has t cs
    → length (erase_connection t cs) + 1 ≡ length cs
unfolding find_connection erase_connection
length-erase t [] (d, e) = cc
length-erase t (c ∷ cs) (d, e) = elim (Bool-cases (tuple_eq c.tuple t)) [
  | inl hit ↦ rw hit (omega arith)
  | inr miss ↦ rw miss (omega (arith, length-erase t cs (d, (rw miss at e))))
]

victim-Has : (c : Connection) (cs : List Connection) → Has (oldest c (c ∷ cs)).tuple (c ∷ cs)
victim-Has c cs =
    let (before, after, e) = victim-Entry c cs in
    let victim : Connection = oldest c (c ∷ cs) in
    subst (Has victim.tuple) (sym e) (Has-middle before after victim)

pub length-evict_oldest :
    (tr : Tracker)
    → 0 < length tr.connections
    → length (evict_oldest tr).connections + 1 ≡ length tr.connections
unfolding evict_oldest
length-evict_oldest tr h = go tr.connections refl
  where
    go :
        (cs : List Connection)
        → cs ≡ tr.connections
        → length (evict_from cs tr).connections + 1 ≡ length tr.connections
    go [] e = absurd (omega (arith, ap length e))
    go (c ∷ cs) e = rw (← e) (length-erase (oldest c (c ∷ cs)).tuple (c ∷ cs) (victim-Has c cs))

-- The bound on the table.
abbrev pub InCapacity : Tracker → Type 0
InCapacity tr = length tr.connections ≤ tr.max_connections

evict_oldest-max : (tr : Tracker) → (evict_oldest tr).max_connections ≡ tr.max_connections
unfolding evict_oldest
evict_oldest-max tr = go tr.connections
  where
    go : (cs : List Connection) → (evict_from cs tr).max_connections ≡ tr.max_connections
    go [] = refl
    go (c ∷ cs) = refl

-- A tracker with a limit of one connection at least, and within it, stays within it, and keeps
-- the limit, when a connection is looked up or created.
pub get_or_create_connection-InCapacity :
    (t : FiveTuple) (now : Clock) (tr : Tracker)
    → 0 < tr.max_connections
    → InCapacity tr
    → InCapacity (get_or_create_connection t now tr).1
      × ((get_or_create_connection t now tr).1.max_connections ≡ tr.max_connections)
unfolding get_or_create_connection create_connection
get_or_create_connection-InCapacity t now tr h k =
    elim (Option-cases (find_connection t tr.connections)) [
      | inr (c, e) ↦ rw (e, get_or_create_connection) (k, refl)
      | inl e ↦
          rw (e, get_or_create_connection)
            (elim (Bool-cases (leb tr.max_connections (length tr.connections))) [
              | inl full ↦ rw full (
                  omega (
                    arith,
                    length-append (evict_oldest tr).connections (fresh_connection t now ∷ []),
                    length-evict_oldest tr (ground arith),
                    evict_oldest-max tr,
                  ))
              | inr room ↦ rw room (
                  let short : length tr.connections < tr.max_connections = ground arith in
                  omega (arith, length-append tr.connections (fresh_connection t now ∷ [])))
            ])
    ]

-- From a table that is not empty and without a tuple twice, eviction takes one entry out, which
-- no other was last seen before, leaves all others in place and reports the one it took.
pub evict_oldest-NoneBefore :
    (tr : Tracker)
    → 0 < length tr.connections
    → DistinctKeys tr.connections
    → (victim : Connection) × (before : List Connection) × (after : List Connection)
      × (tr.connections ≡ before ++ victim ∷ after)
      × NoneBefore victim.last_seen tr.connections
      × ((evict_oldest tr).connections ≡ before ++ after)
      × ((evict_oldest tr).telemetry ≡ tr.telemetry ++ flow_telemetry victim ∷ [])
unfolding evict_oldest
evict_oldest-NoneBefore tr h k = go tr.connections refl
  where
    go :
        (cs : List Connection)
        → cs ≡ tr.connections
        → (victim : Connection) × (before : List Connection) × (after : List Connection) × (cs
            ≡ before ++ victim ∷ after)
          × NoneBefore victim.last_seen cs
          × ((evict_from cs tr).connections ≡ before ++ after)
          × ((evict_from cs tr).telemetry ≡ tr.telemetry ++ flow_telemetry victim ∷ [])
    go [] e = absurd (omega (arith, ap length e))
    go (c ∷ cs) e =
        let (before, after, same) = victim-Entry c cs in
        let whole = sym e ∙ same in
        (
          oldest c (c ∷ cs),
          before,
          after,
          same,
          oldest-NoneBefore c (c ∷ cs),
          rw whole (erase-middle before after (oldest c (c ∷ cs)) (rw whole at k)),
          refl,
        )

pub length-replace :
    (d : Connection) (cs : List Connection) → length (replace_connection d cs) ≡ length cs
unfolding replace_connection
length-replace d [] = refl
length-replace d (c ∷ cs) = ground (arith, length-replace d cs)
