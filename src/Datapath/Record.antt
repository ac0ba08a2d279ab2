-- ===== src/Datapath/Record.antt =====
-- crates/ferrum-ebpf-progs/src/lib.rs: the ring record. A fixed buffer is the list of its bytes.
use ferrum.Prelude.{ℕ, Bool, not, ◌==◌, bit_and}
use ferrum.Text.{Str}

abbrev pub comm_len : ℕ
comm_len = 16

abbrev pub path_len : ℕ
path_len = 256

abbrev pub datapath_abi : ℕ
datapath_abi = 0xfe10

abbrev pub event_flag_container : ℕ
event_flag_container = 1

abbrev pub event_flag_agent_self : ℕ
event_flag_agent_self = 2

abbrev pub event_flag_path_truncated : ℕ
event_flag_path_truncated = 4

-- `pad` is the layout stamp `_pad`.
pub record Event : Type 0 where
  pub cgroup_id : ℕ
  pub pid : ℕ
  pub tgid : ℕ
  pub syscall_nr : ℕ
  pub action : ℕ
  pub flags : ℕ
  pub pad : ℕ
  pub comm : Str
  pub path : Str

unfoldable pub in_container : Event → Bool
in_container event = not (bit_and event.flags event_flag_container == 0)

unfoldable pub agent_self : Event → Bool
agent_self event = not (bit_and event.flags event_flag_agent_self == 0)

-- The accessor `Event::path_truncated`.
unfoldable pub flagged_truncated : Event → Bool
flagged_truncated event = not (bit_and event.flags event_flag_path_truncated == 0)
