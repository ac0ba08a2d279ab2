-- ===== src/Datapath/Fill.antt =====
-- crates/ferrum-ebpf-progs/src/lib.rs: how a slot and a path are filled in. A copy into a zeroed
-- buffer is the bytes copied and the zeros left.
use ferrum.Prelude.{
  ℕ, ◌-◌, min, Bool, ◌||◌, ◌++◌, length, take, replicate, leb, if◌then◌else◌, bit_or,
}
use ferrum.Text.{Str}
use ferrum.Datapath.Record.{comm_len, path_len}
use ferrum.Datapath.Slot.{
  kpath_len, action_allow, krule_flag_path_prefix, krule_flag_path_suffix, exec_path_known,
  exec_path_truncated, ExecPath, KernelRule,
}

abbrev pub max_kernel_rules : ℕ
max_kernel_rules = 64

-- `buf = [0; size]; buf[..s.len()].copy_from_slice(s)`, where `s` fits.
abbrev pub filled : ℕ → Str → Str
filled size s = s ++ replicate (size - length s) 0

-- `KernelRule::empty`.
abbrev pub empty : KernelRule
empty = record {
  action = action_allow;
  flags = 0;
  comm_len = 0;
  prefix_len = 0;
  suffix_len = 0;
  comm = replicate comm_len 0;
  prefix = replicate kpath_len 0;
  suffix = replicate kpath_len 0;
}

unfoldable pub set_prefix : KernelRule → Str → KernelRule
set_prefix slot pattern =
    let len = min (length pattern) kpath_len in
    record slot {
      flags = bit_or slot.flags krule_flag_path_prefix;
      prefix_len = len;
      prefix = filled kpath_len (take len pattern);
    }

unfoldable pub set_suffix : KernelRule → Str → KernelRule
set_suffix slot pattern =
    let len = min (length pattern) kpath_len in
    record slot {
      flags = bit_or slot.flags krule_flag_path_suffix;
      suffix_len = len;
      suffix = filled kpath_len (take len pattern);
    }

-- `ExecPath::from_bytes`.
unfoldable pub from_bytes : Str → Bool → ExecPath
from_bytes path truncated =
    let len = if leb path_len (length path) then path_len - 1 else length path in
    record {
      bytes = filled path_len (take len path);
      len = len;
      flags =
          bit_or exec_path_known
            (if truncated || leb (path_len - 1) (length path) then exec_path_truncated else 0);
    }
