-- ===== src/FastPath/Verdict.antt =====
-- What `processPacket` decides, and what it leaves in the connection table.
use multi_threaded_dpi_engin.Base.{
  ℕ, Bool, true, false, not, ◌&&◌, ◌==◌, ltb, Option, none, some, ◌>>=◌, ◌≡◌, refl, ap, ◌∙◌, ◌⊎◌,
  inl, inr, arith, Ensures, bind-Ensures, if-Ensures, Ensures-some, Bool-cases,
}
use multi_threaded_dpi_engin.Types.{Connection, PacketJob, PacketAction, forward, drop}
use multi_threaded_dpi_engin.Rules.{RuleManager, BlockReason, should_block}
use multi_threaded_dpi_engin.Tracker.{
  Clock, is_blocked, is_classified, find_connection, replace_connection, store,
  get_or_create_connection, update_connection, block_connection,
}
use multi_threaded_dpi_engin.Tracker.Lookup.{get_or_create_connection-finds, find-replace}
use multi_threaded_dpi_engin.FastPath.Inspection.{
  InPacket, Keeps, Keeps-refl, inspect_payload-Keeps,
}
use multi_threaded_dpi_engin.FastPath.{
  FastPath, Visit, has_flag, update_flags, update_tcp_state, inspect_payload, act_on, check_rules,
  judge, visit, leave, process_packet,
}

-- No rule blocks a packet of this flow with this classification.
abbrev pub Allowed : Option RuleManager → PacketJob → Connection → Type 0
Allowed none job c = Unit
Allowed (some rules) job c =
    should_block job.tuple.src_ip job.tuple.dst_port c.app_type c.sni rules ≡ none

-- The action agrees with the connection: forwarded, allowed and not blocked, or dropped and blocked.
abbrev pub Agrees : Option RuleManager → PacketJob → PacketAction → Connection → Type 0
Agrees rules job action c =
    ((action ≡ forward) × (is_blocked c.state ≡ false) × Allowed rules job c)
    ⊎ ((action ≡ drop) × (is_blocked c.state ≡ true))

record Judged (rules : Option RuleManager) (job : PacketJob) (v : Visit) (r : PacketAction × Visit)
    : Type 0 where
  agrees : Agrees rules job r.0 r.1.conn
  same_tuple : r.1.conn.tuple ≡ v.conn.tuple
  same_table : r.1.fp.tracker.connections ≡ v.fp.tracker.connections
  same_limit : r.1.fp.tracker.max_connections ≡ v.fp.tracker.max_connections
  same_processed : r.1.fp.packets_processed ≡ v.fp.packets_processed
  same_forwarded : r.1.fp.packets_forwarded ≡ v.fp.packets_forwarded
  same_dropped : r.1.fp.packets_dropped ≡ v.fp.packets_dropped

act_on-Judged :
    (rules : RuleManager) (job : PacketJob) (v w : Visit) (r : Option BlockReason)
    → should_block job.tuple.src_ip job.tuple.dst_port w.conn.app_type w.conn.sni rules ≡ r
    → Keeps v w
    → is_blocked w.conn.state ≡ false
    → Judged (some rules) job v (act_on r w)
unfolding act_on block_connection
act_on-Judged rules job v w none e k h = record {
  agrees = inl (refl, h, e);
  same_tuple = k.same_tuple;
  same_table = k.same_table;
  same_limit = k.same_limit;
  same_processed = k.same_processed;
  same_forwarded = k.same_forwarded;
  same_dropped = k.same_dropped;
}
act_on-Judged rules job v w (some reason) e k h = record {
  agrees = inr (refl, refl);
  same_tuple = k.same_tuple;
  same_table = k.same_table;
  same_limit = k.same_limit;
  same_processed = k.same_processed;
  same_forwarded = k.same_forwarded;
  same_dropped = k.same_dropped;
}

check_rules-Judged :
    (rules : Option RuleManager) (job : PacketJob) (v w : Visit)
    → Keeps v w
    → is_blocked w.conn.state ≡ false
    → Judged rules job v (check_rules rules job w)
unfolding check_rules
check_rules-Judged none job v w k h = record {
  agrees = inl (refl, h, tt);
  same_tuple = k.same_tuple;
  same_table = k.same_table;
  same_limit = k.same_limit;
  same_processed = k.same_processed;
  same_forwarded = k.same_forwarded;
  same_dropped = k.same_dropped;
}
check_rules-Judged (some rules) job v w k h = act_on-Judged rules job v w _ refl k h

judge-Judged :
    (rules : Option RuleManager) (job : PacketJob)
    → InPacket job
    → (v : Visit) → Ensures (Judged rules job v) (judge rules job v)
unfolding judge
judge-Judged rules job inside v =
    if-Ensures (Judged rules job v) (is_blocked v.conn.state) _ _ (λ b. already b)
      λ open_flow.
        if-Ensures (Judged rules job v)
          (not (is_classified v.conn.state) && ltb 0 job.payload_length) _ _
          (λ _.
            bind-Ensures (Keeps v) (Judged rules job v) (inspect_payload job v) _
              (inspect_payload-Keeps job inside v)
              λ w k. check_rules-Judged rules job v w k (k.not_blocked open_flow))
          λ _. check_rules-Judged rules job v v (Keeps-refl v) open_flow
  where
    already : is_blocked v.conn.state ≡ true → Judged rules job v (drop, v)
    already b = record {
      agrees = inr (refl, b);
      same_tuple = refl;
      same_table = refl;
      same_limit = refl;
      same_processed = refl;
      same_forwarded = refl;
      same_dropped = refl;
    }

-- The counters of the processor, apart from those of its tracker.
abbrev pub SameCounters : FastPath → FastPath → Type 0
SameCounters a b =
    (a.packets_processed ≡ b.packets_processed)
    × (a.packets_forwarded ≡ b.packets_forwarded)
    × (a.packets_dropped ≡ b.packets_dropped)

update_flags-tuple :
    (syn ack fin rst : Bool) (c : Connection) → (update_flags syn ack fin rst c).tuple ≡ c.tuple
unfolding update_flags
update_flags-tuple true true fin rst c = ground arith
update_flags-tuple true false fin rst c = ground arith
update_flags-tuple false ack fin rst c = ground arith

update_tcp_state-tuple : (flags : ℕ) (c : Connection) → (update_tcp_state flags c).tuple ≡ c.tuple
unfolding update_tcp_state
update_tcp_state-tuple flags c =
    update_flags-tuple (has_flag flags 0x02) (has_flag flags 0x10) (has_flag flags 0x01)
      (has_flag flags 0x04) c

visit-tuple :
    (now : Clock) (job : PacketJob) (fp : FastPath) → (visit now job fp).conn.tuple ≡ job.tuple
unfolding visit update_connection
visit-tuple now job fp =
    let same = (get_or_create_connection-finds job.tuple now fp.tracker).1 in
    elim (Bool-cases (job.tuple.protocol == 6)) [
      | inl tcp ↦ rw tcp (update_tcp_state-tuple job.tcp_flags _ ∙ same)
      | inr other ↦ rw other same
    ]

-- The packet's connection as the table holds it after the call.
pub record Settled (rules : Option RuleManager) (now : Clock) (job : PacketJob) (fp : FastPath)
    (r : PacketAction × FastPath) : Type 0 where
  pub conn : Connection
  pub found : find_connection job.tuple r.1.tracker.connections ≡ some conn
  pub agrees : Agrees rules job r.0 conn
  pub same_tuple : conn.tuple ≡ job.tuple
  pub table :
      r.1.tracker.connections
      ≡ replace_connection conn (get_or_create_connection job.tuple now fp.tracker).1.connections
  pub limit :
      r.1.tracker.max_connections
      ≡ (get_or_create_connection job.tuple now fp.tracker).1.max_connections
  pub same_counters : SameCounters r.1 fp

leave-Settled :
    (rules : Option RuleManager) (now : Clock) (job : PacketJob) (fp : FastPath)
    (r : PacketAction × Visit)
    → Judged rules job (visit now job fp) r
    → Settled rules now job fp (leave r)
unfolding leave store
leave-Settled rules now job fp r j =
    let here : r.1.conn.tuple ≡ job.tuple = j.same_tuple ∙ visit-tuple now job fp in
    let old = get_or_create_connection-finds job.tuple now fp.tracker in
    let table : r.1.fp.tracker.connections
        ≡ (get_or_create_connection job.tuple now fp.tracker).1.connections =
      j.same_table ∙ (unfold visit in refl) in
    let before : find_connection job.tuple r.1.fp.tracker.connections
        ≡ some (get_or_create_connection job.tuple now fp.tracker).0 =
      rw table old.0 in
    record {
      conn = r.1.conn;
      found = find-replace job.tuple r.1.conn r.1.fp.tracker.connections _ here before;
      agrees = j.agrees;
      same_tuple = here;
      table = ap (replace_connection r.1.conn) table;
      limit = j.same_limit ∙ (unfold visit in refl);
      same_counters = (
        j.same_processed ∙ (unfold visit in refl),
        j.same_forwarded ∙ (unfold visit in refl),
        j.same_dropped ∙ (unfold visit in refl),
      );
    }

-- Each packet of which the payload lies in the packet is judged with no read outside it. Its
-- flow's connection then stands in the table, and either the packet is forwarded, the connection
-- is not blocked and no rule blocks the packet under the connection's classification, or it is
-- dropped and the connection is blocked.
pub process_packet-Settled :
    (rules : Option RuleManager) (now : Clock) (job : PacketJob) (fp : FastPath)
    → InPacket job
    → (r : PacketAction × FastPath) × (process_packet rules now job fp ≡ some r)
      × Settled rules now job fp r
unfolding process_packet
process_packet-Settled rules now job fp inside =
    let (r, e, j) =
      Ensures-some (Judged rules job (visit now job fp)) (judge rules job (visit now job fp))
        (judge-Judged rules job inside (visit now job fp)) in
    (leave r, ap (λ m. m >>= λ w. some (leave w)) e, leave-Settled rules now job fp r j)
