-- ===== src/Tracker/Cleanup.antt =====
-- Which entries the loop of `cleanupStale` of src/connection_tracker.cpp takes out, by their state and
-- by the clock.
use multi_threaded_dpi_engin.Base.{
  ℕ, ◌+◌, ◌*◌, ◌-◌, ◌/◌, ◌≡◌, Bool, not, ◌||◌, ltb, if◌then◌else◌, List, map, [], ◌∷◌, Option, none,
  some, refl, ap, inl, inr, arith, Bool-cases, length,
}
use multi_threaded_dpi_engin.Types.{
  ConnectionState, new_state, established, classified, blocked, closed, Connection,
}
use multi_threaded_dpi_engin.Tracker.{Clock, flow_telemetry, is_closed, is_stale, sweep}

unless_closed : ConnectionState → Option Connection → Option Connection
unless_closed closed r = none
unless_closed _ r = r

-- What a cleanup leaves of a lookup: nothing of a closed connection, and nothing once a second more
-- than the timeout has gone by since the connection was last seen. A second is 10 ^ 9 ticks.
unfoldable pub survivor : ℕ → Clock → Option Connection → Option Connection
unfolding unless_closed
survivor timeout now none = none
survivor timeout now (some c) =
    unless_closed c.state
      (if ltb now.steady (c.last_seen + (timeout + 1) * 1_000_000_000) then some c else none)

-- The age in whole seconds is above the timeout when the clock has passed the next second.
age_above :
    (timeout now seen : ℕ)
    → ltb timeout ((now - seen) / 1_000_000_000)
      ≡ not (ltb now (seen + (timeout + 1) * 1_000_000_000))
age_above timeout now seen = ground arith

unless_closed-if :
    (s : ConnectionState) (old young : Bool) (c : Connection)
    → old ≡ not young
    → unless_closed s (if young then some c else none)
      ≡ (if old || is_closed s then none else some c)
unfolding unless_closed
unless_closed-if new_state old young c e = ground arith
unless_closed-if established old young c e = ground arith
unless_closed-if classified old young c e = ground arith
unless_closed-if blocked old young c e = ground arith
unless_closed-if closed old young c e = ground arith

pub survivor-some :
    (timeout : ℕ) (now : Clock) (c : Connection)
    → survivor timeout now (some c) ≡ (if is_stale timeout now c then none else some c)
unfolding survivor is_stale
survivor-some timeout now c =
    unless_closed-if c.state (ltb timeout ((now.steady - c.last_seen) / 1_000_000_000))
      (ltb now.steady (c.last_seen + (timeout + 1) * 1_000_000_000)) c
      (age_above timeout now.steady c.last_seen)

pub sweep_counts :
    (timeout : ℕ) (now : Clock) (cs : List Connection)
    → length (sweep timeout now cs).kept + (sweep timeout now cs).removed ≡ length cs
unfolding sweep
sweep_counts timeout now [] = omega arith
sweep_counts timeout now (c ∷ cs) = ground (arith, sweep_counts timeout now cs)

gone_behind : Option Connection → Connection → List Connection → List Connection
gone_behind none c cs = c ∷ cs
gone_behind (some _) c cs = cs

-- The connections of a table that a cleanup leaves nothing of, in its order.
unfoldable pub gone : ℕ → Clock → List Connection → List Connection
unfolding gone_behind
gone timeout now [] = []
gone timeout now (c ∷ cs) = gone_behind (survivor timeout now (some c)) c (gone timeout now cs)

pub sweep-gone :
    (timeout : ℕ) (now : Clock) (cs : List Connection)
    → ((sweep timeout now cs).removed ≡ length (gone timeout now cs))
      × ((sweep timeout now cs).emitted ≡ map flow_telemetry (gone timeout now cs))
unfolding sweep gone gone_behind
sweep-gone timeout now [] = (refl, refl)
sweep-gone timeout now (c ∷ cs) =
    let (counted, sent) = sweep-gone timeout now cs in
    let kept = survivor-some timeout now c in
    elim (Bool-cases (is_stale timeout now c)) [
      | inl old ↦ rw (kept, old) (omega arith, ap (◌∷◌ (flow_telemetry c)) sent)
      | inr young ↦ rw (kept, young) (counted, sent)
    ]
