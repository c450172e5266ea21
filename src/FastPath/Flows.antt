-- ===== src/FastPath/Flows.antt =====
-- How one packet affects the flows: its own when that is blocked already, and the others.
use multi_threaded_dpi_engin.Base.{
  ◌<◌, Bool, true, false, ◌==◌, ltb, Option, none, some, ◌>>=◌, ◌≡◌, ◌≢◌, refl, ap, ◌∙◌, ◌⊎◌, inl,
  inr, arith, length, Bool-cases,
}
use multi_threaded_dpi_engin.Types.{Connection, PacketJob, PacketAction, forward, drop, closed}
use multi_threaded_dpi_engin.Types.Flow.{FiveTuple, tuple_eq, tuple_eq_iff}
use multi_threaded_dpi_engin.Rules.{RuleManager}
use multi_threaded_dpi_engin.Tracker.{
  Clock, is_blocked, is_classified, find_connection, update_connection,
}
use multi_threaded_dpi_engin.Tracker.Lookup.{
  find-replace_other, get_or_create_found, get_or_create_connection-other,
}
use multi_threaded_dpi_engin.FastPath.Inspection.{InPacket}
use multi_threaded_dpi_engin.FastPath.Verdict.{Allowed, process_packet-Settled}
use multi_threaded_dpi_engin.FastPath.{
  FastPath, Visit, has_flag, update_flags, update_tcp_state, check_rules, judge, visit, leave,
  process_packet,
}

-- A packet that cannot close its connection: not TCP, or with neither RST nor the end of a close.
abbrev pub Continues : PacketJob → Connection → Type 0
Continues job c =
    ((job.tuple.protocol == 6) ≡ false)
    ⊎ ((has_flag job.tcp_flags 0x04 ≡ false)
        × ((has_flag job.tcp_flags 0x10 ≡ false)
            ⊎ ((c.fin_seen ≡ false) × (has_flag job.tcp_flags 0x01 ≡ false))))

update_flags-blocked :
    (syn ack fin rst : Bool) (c : Connection)
    → is_blocked c.state ≡ true
    → rst ≡ false
    → (ack ≡ false) ⊎ ((c.fin_seen ≡ false) × (fin ≡ false))
    → is_blocked (update_flags syn ack fin rst c).state ≡ true
unfolding update_flags
update_flags-blocked true true fin rst c b r a = ground arith
update_flags-blocked true false fin rst c b r a = ground arith
update_flags-blocked false ack fin rst c b r a = ground arith

tcp_flags_quiet :
    (job : PacketJob) (c : Connection)
    → (job.tuple.protocol == 6) ≡ true
    → Continues job c
    → (has_flag job.tcp_flags 0x04 ≡ false)
      × ((has_flag job.tcp_flags 0x10 ≡ false)
          ⊎ ((c.fin_seen ≡ false) × (has_flag job.tcp_flags 0x01 ≡ false)))
tcp_flags_quiet job c tcp (inl other) = cc
tcp_flags_quiet job c tcp (inr quiet) = quiet

-- The updates of the connection before the verdict leave it blocked.
visit-blocked :
    (now : Clock) (job : PacketJob) (fp : FastPath) (c : Connection)
    → find_connection job.tuple fp.tracker.connections ≡ some c
    → is_blocked c.state ≡ true
    → Continues job c
    → is_blocked (visit now job fp).conn.state ≡ true
unfolding visit update_tcp_state update_connection
visit-blocked now job fp c e b k =
    rw (get_or_create_found job.tuple now fp.tracker c e)
      (elim (Bool-cases (job.tuple.protocol == 6)) [
        | inr other ↦ rw other b
        | inl tcp ↦ rw tcp (
            update_flags-blocked (has_flag job.tcp_flags 0x02) (has_flag job.tcp_flags 0x10)
              (has_flag job.tcp_flags 0x01) (has_flag job.tcp_flags 0x04)
              (update_connection (length job.packet) true now c) b (tcp_flags_quiet job c tcp k).0
              (tcp_flags_quiet job c tcp k).1)
      ])

judge-blocked :
    (rules : Option RuleManager) (job : PacketJob) (v : Visit)
    → is_blocked v.conn.state ≡ true
    → judge rules job v ≡ some (drop, v)
unfolding judge
judge-blocked rules job v b = rw b

-- A packet of a flow of which the connection stands blocked in the table is dropped, with
-- whatever rules and payload, unless it is TCP and carries RST, or ACK together with a FIN in it
-- or seen before.
pub process_packet-blocked :
    (rules : Option RuleManager) (now : Clock) (job : PacketJob) (fp : FastPath) (c : Connection)
    → find_connection job.tuple fp.tracker.connections ≡ some c
    → is_blocked c.state ≡ true
    → Continues job c
    → (fp' : FastPath) × (process_packet rules now job fp ≡ some (drop, fp'))
unfolding process_packet
process_packet-blocked rules now job fp c e b k = (
  (leave (drop, visit now job fp)).1,
  ap (λ m. m >>= λ w. some (leave w))
      (judge-blocked rules job (visit now job fp) (visit-blocked now job fp c e b k)),
)

-- While the table has room, a packet of which the payload lies in it leaves the connections of
-- all other flows as they were.
pub process_packet-other :
    (rules : Option RuleManager) (now : Clock) (job : PacketJob) (fp : FastPath) (u : FiveTuple)
    → InPacket job
    → length fp.tracker.connections < fp.tracker.max_connections
    → u ≢ job.tuple
    → (r : PacketAction × FastPath) × (process_packet rules now job fp ≡ some r)
      × (find_connection u r.1.tracker.connections ≡ find_connection u fp.tracker.connections)
process_packet-other rules now job fp u inside room other =
    let (r, e, s) = process_packet-Settled rules now job fp inside in
    let apart : tuple_eq job.tuple u ≡ false = ground (arith, tuple_eq_iff job.tuple u) in
    let apart' : tuple_eq s.conn.tuple u ≡ false = rw s.same_tuple apart in
    (
      r,
      e,
      ap (find_connection u) s.table
          ∙ find-replace_other u s.conn _ apart'
          ∙ get_or_create_connection-other job.tuple u now fp.tracker room apart,
    )

-- What a reset makes of a connection: closed, with the classification kept.
abbrev ClosedLike : Connection → Connection → Type 0
ClosedLike c d = (d.state ≡ closed) × (d.app_type ≡ c.app_type) × (d.sni ≡ c.sni)

update_flags-reset :
    (syn ack fin : Bool) (c : Connection) → ClosedLike c (update_flags syn ack fin true c)
unfolding update_flags
update_flags-reset true true fin c = ground arith
update_flags-reset true false fin c = ground arith
update_flags-reset false ack fin c = ground arith

visit-reset :
    (now : Clock) (job : PacketJob) (fp : FastPath) (c : Connection)
    → find_connection job.tuple fp.tracker.connections ≡ some c
    → (job.tuple.protocol == 6) ≡ true
    → has_flag job.tcp_flags 0x04 ≡ true
    → ClosedLike c (visit now job fp).conn
unfolding visit update_tcp_state update_connection
visit-reset now job fp c e tcp rst = rw (get_or_create_found job.tuple now fp.tracker c e) (
    rw (tcp, rst)
      (update_flags-reset (has_flag job.tcp_flags 0x02) (has_flag job.tcp_flags 0x10)
        (has_flag job.tcp_flags 0x01) (update_connection (length job.packet) true now c)))

check_rules-Allowed :
    (rules : Option RuleManager) (job : PacketJob) (v : Visit)
    → Allowed rules job v.conn
    → check_rules rules job v ≡ (forward, v)
unfolding check_rules
check_rules-Allowed none job v ok = refl
check_rules-Allowed (some rules) job v ok = rw ok refl

judge-closed :
    (rules : Option RuleManager) (job : PacketJob) (v : Visit)
    → v.conn.state ≡ closed
    → job.payload_length ≡ 0
    → Allowed rules job v.conn
    → judge rules job v ≡ some (forward, v)
unfolding judge
judge-closed rules job v e empty ok =
    let none_left : ltb 0 job.payload_length ≡ false = ground arith in
    let unblocked : is_blocked v.conn.state ≡ false = ap is_blocked e in
    let open_class : is_classified v.conn.state ≡ false = ap is_classified e in
    rw (unblocked, open_class, none_left) (ap some (check_rules-Allowed rules job v ok))

Allowed-same :
    (rules : Option RuleManager) (job : PacketJob) (c d : Connection)
    → d.app_type ≡ c.app_type
    → d.sni ≡ c.sni
    → Allowed rules job c
    → Allowed rules job d
Allowed-same none job c d p q ok = tt
Allowed-same (some rules) job c d p q ok = rw (p, q) ok

-- A TCP packet with RST and without payload, of a flow of which the connection stands blocked,
-- is forwarded where no rule speaks against the connection's classification any more: the reset
-- closes the connection, and the packet is judged anew.
pub process_packet-reset :
    (rules : Option RuleManager) (now : Clock) (job : PacketJob) (fp : FastPath) (c : Connection)
    → find_connection job.tuple fp.tracker.connections ≡ some c
    → is_blocked c.state ≡ true
    → (job.tuple.protocol == 6) ≡ true
    → has_flag job.tcp_flags 0x04 ≡ true
    → job.payload_length ≡ 0
    → Allowed rules job c
    → (fp' : FastPath) × (process_packet rules now job fp ≡ some (forward, fp'))
unfolding process_packet
process_packet-reset rules now job fp c e b tcp rst empty ok =
    let v = visit now job fp in
    let like = visit-reset now job fp c e tcp rst in
    (
      (leave (forward, v)).1,
      ap (λ m. m >>= λ w. some (leave w))
          (judge-closed rules job v like.0 empty
            (Allowed-same rules job c v.conn like.1 like.2 ok)),
    )
