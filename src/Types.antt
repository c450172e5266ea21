-- ===== src/Types.antt =====
-- include/types.h and src/types.cpp: flows, applications, connections and packet jobs.
pub mod App
pub mod Flow
pub mod Hash
pub mod Classify
pub mod Cut
use multi_threaded_dpi_engin.Base.{ℕ, Bool, Bytes}
use App.{AppType}
use Flow.{FiveTuple}

-- `enum class ConnectionState`; NEW and CLOSED are spelled as in the source.
pub data ConnectionState : Type 0 where
  new_state established classified blocked closed : ConnectionState

-- `enum class PacketAction`
pub data PacketAction : Type 0 where
  forward drop inspect log_only : PacketAction

-- `struct Connection`. The two clocks, steady and epoch, are numbers.
pub record Connection : Type 0 where
  pub tuple : FiveTuple
  pub state : ConnectionState
  pub app_type : AppType
  pub sni : Bytes
  pub packets_in : ℕ
  pub packets_out : ℕ
  pub bytes_in : ℕ
  pub bytes_out : ℕ
  pub first_epoch_seconds : ℕ
  pub last_epoch_seconds : ℕ
  pub first_seen : ℕ
  pub last_seen : ℕ
  pub action : PacketAction
  pub syn_seen : Bool
  pub syn_ack_seen : Bool
  pub fin_seen : Bool

-- `struct PacketJob`; `payload_data` is not kept, as it is `data + payload_offset` where it is set.
pub record PacketJob : Type 0 where
  pub packet_id : ℕ
  pub tuple : FiveTuple
  pub packet : Bytes
  pub eth_offset : ℕ
  pub ip_offset : ℕ
  pub transport_offset : ℕ
  pub payload_offset : ℕ
  pub payload_length : ℕ
  pub tcp_flags : ℕ
  pub ts_sec : ℕ
  pub ts_usec : ℕ
