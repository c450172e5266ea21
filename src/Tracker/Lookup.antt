-- ===== src/Tracker/Lookup.antt =====
-- What a lookup finds after each change of the table.
use multi_threaded_dpi_engin.Base.{
  ◌<◌, true, false, leb, List, [], ◌∷◌, ◌++◌, none, some, ◌≡◌, refl, sym, subst, inl, inr, arith,
  Bool-cases, Option-cases, length,
}
use multi_threaded_dpi_engin.Types.Flow.{FiveTuple, tuple_eq, tuple_eq_iff}
use multi_threaded_dpi_engin.Types.{Connection}
use multi_threaded_dpi_engin.Tracker.{
  Tracker, Clock, find_connection, erase_connection, replace_connection, evict_from, evict_oldest,
  oldest, fresh_connection, create_connection, get_or_create_connection,
}

pub tuple_eq_self : (t : FiveTuple) → tuple_eq t t ≡ true
tuple_eq_self t = (tuple_eq_iff t t).1 refl

pub find_connection-tuple :
    (t : FiveTuple) (cs : List Connection) (c : Connection)
    → find_connection t cs ≡ some c
    → c.tuple ≡ t
unfolding find_connection
find_connection-tuple t [] c e = cc
find_connection-tuple t (d ∷ cs) c e =
    ground (arith, find_connection-tuple t cs c, tuple_eq_iff d.tuple t)

find-replace_self :
    (d : Connection) (cs : List Connection) (c : Connection)
    → find_connection d.tuple cs ≡ some c
    → find_connection d.tuple (replace_connection d cs) ≡ some d
unfolding find_connection replace_connection
find-replace_self d [] c e = cc
find-replace_self d (x ∷ cs) c e = ground (arith, find-replace_self d cs c, tuple_eq_self d.tuple)

pub find-replace :
    (t : FiveTuple) (d : Connection) (cs : List Connection) (c : Connection)
    → d.tuple ≡ t
    → find_connection t cs ≡ some c
    → find_connection t (replace_connection d cs) ≡ some d
find-replace t d cs c h e =
    subst (λ u. find_connection u (replace_connection d cs) ≡ some d) h
      (find-replace_self d cs c (subst (λ u. find_connection u cs ≡ some c) (sym h) e))

pub find-replace_other :
    (t : FiveTuple) (d : Connection) (cs : List Connection)
    → tuple_eq d.tuple t ≡ false
    → find_connection t (replace_connection d cs) ≡ find_connection t cs
unfolding find_connection replace_connection
find-replace_other t d [] h = refl
find-replace_other t d (x ∷ cs) h = ground (
  arith,
  find-replace_other t d cs h,
  tuple_eq_iff x.tuple d.tuple,
  tuple_eq_iff x.tuple t,
  tuple_eq_iff d.tuple t,
)

pub find-erase_none :
    (t u : FiveTuple) (cs : List Connection)
    → find_connection t cs ≡ none
    → find_connection t (erase_connection u cs) ≡ none
unfolding find_connection erase_connection
find-erase_none t u [] e = refl
find-erase_none t u (c ∷ cs) e = ground (arith, find-erase_none t u cs)

find-append_last :
    (t : FiveTuple) (cs : List Connection) (c : Connection)
    → find_connection t cs ≡ none
    → c.tuple ≡ t
    → find_connection t (cs ++ c ∷ []) ≡ some c
unfolding find_connection
find-append_last t [] c e h = ground (arith, tuple_eq_iff c.tuple t)
find-append_last t (d ∷ cs) c e h = ground (arith, find-append_last t cs c)

pub evict_oldest-none :
    (t : FiveTuple) (tr : Tracker)
    → find_connection t tr.connections ≡ none
    → find_connection t (evict_oldest tr).connections ≡ none
unfolding evict_oldest
evict_oldest-none t tr e = go tr.connections refl
  where
    go :
        (cs : List Connection)
        → tr.connections ≡ cs
        → find_connection t (evict_from cs tr).connections ≡ none
    go [] h = e
    go (c ∷ cs) h = find-erase_none t (oldest c (c ∷ cs)).tuple tr.connections e

create_connection-finds :
    (t : FiveTuple) (now : Clock) (tr : Tracker)
    → find_connection t tr.connections ≡ none
    → find_connection t (create_connection t now tr).1.connections ≡ some (fresh_connection t now)
unfolding create_connection
create_connection-finds t now tr e =
    elim (Bool-cases (leb tr.max_connections (length tr.connections))) [
      | inl full ↦
          rw full
            (find-append_last t (evict_oldest tr).connections _ (evict_oldest-none t tr e) refl)
      | inr room ↦ rw room (find-append_last t tr.connections _ e refl)
    ]

-- The connection handed out stands in the table under the tuple asked for.
pub get_or_create_connection-finds :
    (t : FiveTuple) (now : Clock) (tr : Tracker)
    → (find_connection t (get_or_create_connection t now tr).1.connections
        ≡ some (get_or_create_connection t now tr).0)
      × ((get_or_create_connection t now tr).0.tuple ≡ t)
unfolding get_or_create_connection create_connection
get_or_create_connection-finds t now tr = elim (Option-cases (find_connection t tr.connections)) [
  | inl e ↦ rw (e, get_or_create_connection) (create_connection-finds t now tr e, refl)
  | inr (c, e) ↦ rw (e, get_or_create_connection) (e, find_connection-tuple t tr.connections c e)
]

pub get_or_create_found :
    (t : FiveTuple) (now : Clock) (tr : Tracker) (c : Connection)
    → find_connection t tr.connections ≡ some c
    → get_or_create_connection t now tr ≡ (c, tr)
unfolding get_or_create_connection
get_or_create_found t now tr c e = rw (e, get_or_create_connection)

find-append_other :
    (t : FiveTuple) (cs : List Connection) (c : Connection)
    → tuple_eq c.tuple t ≡ false
    → find_connection t (cs ++ c ∷ []) ≡ find_connection t cs
unfolding find_connection
find-append_other t [] c h = rw h
find-append_other t (d ∷ cs) c h = ground (arith, find-append_other t cs c h)

-- With room in the table, no other connection is touched.
pub get_or_create_connection-other :
    (t u : FiveTuple) (now : Clock) (tr : Tracker)
    → length tr.connections < tr.max_connections
    → tuple_eq t u ≡ false
    → find_connection u (get_or_create_connection t now tr).1.connections
      ≡ find_connection u tr.connections
unfolding get_or_create_connection create_connection
get_or_create_connection-other t u now tr room other =
    elim (Option-cases (find_connection t tr.connections)) [
      | inr (c, e) ↦ rw (e, get_or_create_connection)
      | inl e ↦
          let short : leb tr.max_connections (length tr.connections) ≡ false = ground arith in
          rw (e, get_or_create_connection)
            (rw short (find-append_other u tr.connections (fresh_connection t now) other))
    ]
