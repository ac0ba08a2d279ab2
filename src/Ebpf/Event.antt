-- ===== src/Ebpf/Event.antt =====
-- crates/ferrum-ebpf/src/event.rs: ring records to events. Both architectures that the decode
-- table covers are little-endian, so `from_ne_bytes` reads the low byte first.
pub mod RoundTrip
pub mod Shape
use ferrum.Prelude.{
  ℕ, zero, suc, ◌+◌, ◌-◌, Bool, true, false, ◌&&◌, ◌||◌, not, Option, none, some, List, [], ◌∷◌,
  ◌++◌, length, ltb, leb, ◌==◌, if◌then◌else◌, take, drop, get_or,
}
use ferrum.Text.{Str, str, lead_byte}
use ferrum.Error.{Message, Result, ok, err, integrity}
use ferrum.Ebpf.Reader.{from_le_bytes}
use ferrum.Compiler.Writer.{to_le_bytes}
use ferrum.Ebpf.Eval.{SyscallEvent}
use ferrum.Datapath.Record.{
  Event, comm_len, path_len, datapath_abi, in_container, agent_self, flagged_truncated,
}

-- `size_of::<Event>()` under `repr(C)`.
abbrev pub event_wire_len : ℕ
event_wire_len = 296

pub data SyscallArch : Type 0 where
  x86_64 aarch64 : SyscallArch

unfoldable pub syscall_name : SyscallArch → ℕ → Option Str
syscall_name x86_64 nr =
    if nr == 2
    then some (str "open")
    else if nr == 59
    then some (str "execve")
    else if nr == 175
    then some (str "init_module")
    else if nr == 257
    then some (str "openat")
    else if nr == 313
    then some (str "finit_module")
    else if nr == 321
    then some (str "bpf")
    else if nr == 322
    then some (str "execveat")
    else none
syscall_name aarch64 nr =
    if nr == 56
    then some (str "openat")
    else if nr == 105
    then some (str "init_module")
    else if nr == 221
    then some (str "execve")
    else if nr == 273
    then some (str "finit_module")
    else if nr == 280
    then some (str "bpf")
    else if nr == 281
    then some (str "execveat")
    else none

-- `bytes[from..from + count]`.
abbrev pub slice : Str → ℕ → ℕ → Str
slice bytes from count = take count (drop from bytes)

unfoldable pub abi_of : Str → ℕ
unfolding from_le_bytes
abi_of bytes = from_le_bytes (slice bytes 22 2)

-- The copies into the fields of the new event.
unfoldable pub read_fields : Str → Event
read_fields bytes = record {
  cgroup_id = from_le_bytes (slice bytes 0 8);
  pid = from_le_bytes (slice bytes 8 4);
  tgid = from_le_bytes (slice bytes 12 4);
  syscall_nr = from_le_bytes (slice bytes 16 4);
  action = get_or bytes 20 0;
  flags = get_or bytes 21 0;
  pad = from_le_bytes (slice bytes 22 2);
  comm = slice bytes 24 comm_len;
  path = slice bytes (24 + comm_len) path_len;
}

unfoldable pub decode_event : Str → Result Event
unfolding abi_of
decode_event bytes =
    if not (length bytes == event_wire_len)
    then err (integrity (Message.record_length (length bytes)))
    else if not (abi_of bytes == datapath_abi)
    then err (integrity (Message.record_abi (abi_of bytes)))
    else ok (read_fields bytes)

unfoldable pub abi_stamp_mismatch : Str → Option ℕ
unfolding abi_of
abi_stamp_mismatch bytes =
    if not (length bytes == event_wire_len)
    then none
    else if not (abi_of bytes == datapath_abi)
    then some (abi_of bytes)
    else none

unfoldable pub encode_event : Event → Str
unfolding to_le_bytes
encode_event event =
    to_le_bytes 8 event.cgroup_id
    ++ (to_le_bytes 4 event.pid
        ++ (to_le_bytes 4 event.tgid
            ++ (to_le_bytes 4 event.syscall_nr
                ++ ((event.action ∷ event.flags ∷ [])
                    ++ (to_le_bytes 2 event.pad ++ (event.comm ++ event.path))))))

unfoldable pub path_bytes : Str → Str
path_bytes [] = []
path_bytes (b ∷ buf) = let rest = path_bytes buf in if b == 0 then [] else b ∷ rest

-- `&s[..err.valid_up_to()]`, or all of `s`: the characters up to the first that is not UTF-8.
-- `pending` is the part of the present character read so far, `n` what is still to come.
unfoldable pub utf8_head : ℕ → ℕ → ℕ → Str → Str → Str
utf8_head n lo hi pending [] = []
utf8_head zero lo hi pending (b ∷ s) = elim (lead_byte b) [
  | none ↦ []
  | some (zero, lo', hi') ↦ b ∷ utf8_head 0 lo' hi' [] s
  | some (suc n, lo', hi') ↦ utf8_head (suc n) lo' hi' (b ∷ []) s
]
utf8_head (suc zero) lo hi pending (b ∷ s) =
    let rest = utf8_head 0 0x80 0xbf [] s in
    if leb lo b && leb b hi then (pending ++ (b ∷ [])) ++ rest else []
utf8_head (suc (suc n)) lo hi pending (b ∷ s) =
    let rest = utf8_head (suc n) 0x80 0xbf (pending ++ (b ∷ [])) s in
    if leb lo b && leb b hi then rest else []

unfoldable pub nul_trimmed_str : Str → Str
unfolding utf8_head path_bytes
nul_trimmed_str buf = utf8_head 0 0 0 [] (path_bytes buf)

unfoldable pub path_truncated : Event → Bool
unfolding path_bytes flagged_truncated
path_truncated event =
    flagged_truncated event || leb (path_len - 1) (length (path_bytes event.path))

abbrev pub or_unknown : Option Str → Str
or_unknown none = str "unknown"
or_unknown (some name) = name

unfoldable pub syscall_event : Event → SyscallArch → SyscallEvent
unfolding syscall_name nul_trimmed_str path_truncated in_container agent_self
syscall_event event arch = record {
  syscall = or_unknown (syscall_name arch event.syscall_nr);
  comm = nul_trimmed_str event.comm;
  path = nul_trimmed_str event.path;
  in_container = in_container event;
  agent_self = agent_self event;
  path_truncated = path_truncated event;
}

pub record EventMeta : Type 0 where
  pub cgroup_id : ℕ
  pub pid : ℕ
  pub tgid : ℕ
  pub in_container : Bool
  pub agent_self : Bool
  pub path_truncated : Bool

unfoldable pub event_meta : Event → EventMeta
unfolding path_truncated in_container agent_self
event_meta event = record {
  cgroup_id = event.cgroup_id;
  pid = event.pid;
  tgid = event.tgid;
  in_container = in_container event;
  agent_self = agent_self event;
  path_truncated = path_truncated event;
}
