-- ===== src/Tests/Flows.antt =====
-- The fast path on concrete packets.
use multi_threaded_dpi_engin.Base.{
  ◌≡◌, refl, inr, List, [], ◌∷◌, none, some, arith, codes, bytes_eq, ap, ◌>>=◌,
}
use multi_threaded_dpi_engin.Types.{Connection, PacketAction, drop, blocked}
use multi_threaded_dpi_engin.Types.App.{https}
use multi_threaded_dpi_engin.Types.Flow.{tuple_eq}
use multi_threaded_dpi_engin.Base.Eq.{contains}
use multi_threaded_dpi_engin.Rules.{is_domain_blocked, RuleManager, no_rules, should_block}
use multi_threaded_dpi_engin.Inspect.Tls.{extract}
use multi_threaded_dpi_engin.Inspect.Memory.{read, read_uint16_be, read_uint24_be, slice}
use multi_threaded_dpi_engin.Tracker.{
  update_connection, get_or_create_connection, classify_connection, find_connection,
  fresh_connection,
}
use multi_threaded_dpi_engin.FastPath.{FastPath, new_fast_path, process_packet}
use multi_threaded_dpi_engin.FastPath.Verdict.{Settled, process_packet-Settled}
use multi_threaded_dpi_engin.FastPath.Flows.{process_packet-blocked, process_packet-other}
use multi_threaded_dpi_engin.FastPath.Run.{Event, packet, idle, run, IsValid, Ran, run-Ran}
use multi_threaded_dpi_engin.Tests.{flow, other_flow, hello_packet, reset_packet, now}

abbrev rules : RuleManager
rules = record no_rules { blocked_domains = codes "a.io" ∷ [] }

-- The flow's connection after it was blocked by its server name, under other rules.
abbrev blocked_flow : Connection
blocked_flow = record (fresh_connection flow now) {
  app_type = https;
  sni = codes "b.io";
  state = blocked;
  action = drop;
}

abbrev with_blocked : FastPath
with_blocked = record new_fast_path {
  tracker = record new_fast_path.tracker { connections = blocked_flow ∷ [] };
}

-- The rules drop the ClientHello for `a.io`, and without them it is forwarded.
test_dropped :
    (run (packet (some rules) now hello_packet ∷ idle now ∷ []) new_fast_path >>= λ r. some r.0)
    ≡ some (drop ∷ [])
unfolding run update_connection get_or_create_connection find_connection extract read read_uint16_be
    read_uint24_be slice should_block contains classify_connection is_domain_blocked bytes_eq
test_dropped = refl

process_packet-Settled_example :
    (r : PacketAction × FastPath) × (process_packet (some rules) now hello_packet new_fast_path
      ≡ some r)
    × Settled (some rules) now hello_packet new_fast_path r
process_packet-Settled_example =
    process_packet-Settled (some rules) now hello_packet new_fast_path (omega arith)

process_packet-blocked_example :
    (fp' : FastPath) × (process_packet none now hello_packet with_blocked ≡ some (drop, fp'))
unfolding find_connection tuple_eq
process_packet-blocked_example =
    process_packet-blocked none now hello_packet with_blocked blocked_flow refl refl
      (inr (refl, inr (refl, refl)))

process_packet-other_example :
    (r : PacketAction × FastPath) × (process_packet (some rules) now hello_packet new_fast_path
      ≡ some r)
    × (find_connection other_flow r.1.tracker.connections
        ≡ find_connection other_flow new_fast_path.tracker.connections)
process_packet-other_example =
    process_packet-other (some rules) now hello_packet new_fast_path other_flow (omega arith)
      (omega arith) (λ e. omega (arith, ap (λ t. t.src_port) e))

abbrev events : List Event
events = packet (some rules) now hello_packet ∷ idle now ∷ packet none now reset_packet ∷ []

abbrev new_IsValid : IsValid new_fast_path
new_IsValid = record { balanced = refl; distinct = tt; capacity = omega arith; limit = omega arith }

run-Ran_example :
    (r : List PacketAction × FastPath) × (run events new_fast_path ≡ some r)
    × Ran events new_fast_path r
run-Ran_example = run-Ran events new_fast_path (omega arith, (omega arith, tt)) new_IsValid
