-- ===== src/Tests/Capture.antt =====
-- The parser, the reader and the queue on concrete input.
use multi_threaded_dpi_engin.Base.{
  ℕ, ◌≡◌, refl, [], ◌∷◌, ◌++◌, List, Option, none, some, ◌>>=◌, replicate, arith, decimal,
}
use multi_threaded_dpi_engin.Inspect.Memory.{read}
use multi_threaded_dpi_engin.Rules.Address.{ip_to_string, parse_ip}
use multi_threaded_dpi_engin.Types.{PacketJob, PacketAction}
use multi_threaded_dpi_engin.Rules.{RuleManager}
use multi_threaded_dpi_engin.Tracker.{Clock}
use multi_threaded_dpi_engin.FastPath.{FastPath, new_fast_path}
use multi_threaded_dpi_engin.FastPath.Run.{run, Ran}
use multi_threaded_dpi_engin.Packet.Capture.{read_jobs, rounds, read_jobs-Ran}
use multi_threaded_dpi_engin.Packet.{RawPacket, mac_to_string, load_u16, load_u32, parse}
use multi_threaded_dpi_engin.Packet.Job.{create_packet_job, read_job}
use multi_threaded_dpi_engin.Packet.Reader.{ReadFrom, read_job-ReadFrom}
use multi_threaded_dpi_engin.Tests.{now}
use multi_threaded_dpi_engin.Queue.{new_queue}
use multi_threaded_dpi_engin.Queue.Order.{
  Call, push_call, try_call, pop_call, shutdown_call, calls, InOrder, calls-InOrder,
}

-- A TCP segment from 192.168.1.2:50000 to 4.3.2.1:443, with two bytes of payload.
abbrev pub segment : RawPacket
segment = record {
  ts_sec = 0;
  ts_usec = 0;
  incl_len = 56;
  orig_len = 56;
  packet =
      replicate 12 1
      ++ (8 ∷ 0 ∷ 0x45 ∷ 0 ∷ 0 ∷ 42 ∷ 0 ∷ 0 ∷ 0 ∷ 0 ∷ 64 ∷ 6 ∷ 0 ∷ 0 ∷ [])
      ++ (192 ∷ 168 ∷ 1 ∷ 2 ∷ 4 ∷ 3 ∷ 2 ∷ 1 ∷ 0xc3 ∷ 0x50 ∷ 1 ∷ 0xbb ∷ [])
      ++ replicate 8 0
      ++ (0x50 ∷ 0x18 ∷ 0 ∷ 0 ∷ 0 ∷ 0 ∷ 0 ∷ 0 ∷ 7 ∷ 9 ∷ []);
}

abbrev place : Option PacketJob → List ℕ
place none = []
place (some job) =
    job.payload_offset ∷ job.payload_length ∷ job.tuple.src_ip ∷ job.tuple.src_port
    ∷ job.tuple.dst_port ∷ []

test_segment :
    (read_job segment 0 >>= λ r. some (place r)) ≡ some (54 ∷ 2 ∷ 0x0201a8c0 ∷ 50000 ∷ 443 ∷ [])
unfolding read_job parse mac_to_string read load_u16 load_u32 create_packet_job parse_ip
    ip_to_string decimal
test_segment = refl

read_job-ReadFrom_example :
    (r : Option PacketJob) × (read_job segment 0 ≡ some r) × ReadFrom segment r
read_job-ReadFrom_example = read_job-ReadFrom segment 0 (omega arith)

-- Every packet is judged without rules.
abbrev no_rules_at : PacketJob → Option RuleManager × Clock
no_rules_at job = (none, now)

read_jobs-Ran_example :
    (jobs : List PacketJob) × (read_jobs (segment ∷ segment ∷ []) 0 ≡ some jobs)
    × ((r : List PacketAction × FastPath) × (run (rounds no_rules_at jobs) new_fast_path ≡ some r)
        × Ran (rounds no_rules_at jobs) new_fast_path r)
read_jobs-Ran_example =
    read_jobs-Ran (segment ∷ segment ∷ []) 0 no_rules_at new_fast_path
      (omega arith, (omega arith, tt))
      (record { balanced = refl; distinct = tt; capacity = omega arith; limit = omega arith })

-- A queue with room for one item, on which the second push waits.
abbrev some_calls : List (Call ℕ)
some_calls =
    push_call 1 ∷ push_call 2 ∷ pop_call ∷ try_call 3 ∷ shutdown_call ∷ try_call 4 ∷ pop_call ∷ []

test_calls : (calls some_calls (new_queue 1)).handed ≡ 1 ∷ 3 ∷ []
unfolding calls
test_calls = refl

calls-InOrder_example : InOrder (new_queue 1) (calls some_calls (new_queue 1))
calls-InOrder_example = calls-InOrder some_calls (new_queue 1)
