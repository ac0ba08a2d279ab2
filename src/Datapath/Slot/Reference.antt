-- ===== src/Datapath/Slot/Reference.antt =====
-- crates/ferrum-ebpf-progs/src/lib.rs: when a slot applies, by tests with branches.
use ferrum.Prelude.{ℕ, ◌<◌, min, Bool, ◌&&◌, ◌||◌, not, get_or, ◌==◌, leb, bit_and}
use ferrum.Text.{Str}
use ferrum.Datapath.Record.{comm_len}
use ferrum.Datapath.Slot.{
  kpath_len, krule_flag_used, krule_flag_container_only, krule_flag_not_agent_self,
  krule_flag_selected_only, krule_flag_path_prefix, krule_flag_path_suffix, exec_path_known,
  exec_path_truncated, ExecPath, KernelRule, sub_u16, tail_at,
}
use ferrum.Datapath.Slot.Diff.{agree, IsBytes}

abbrev pub at : Str → ℕ → ℕ
at s i = get_or s i 0

abbrev pub flag : ℕ → ℕ → Bool
flag mask flags = not (bit_and flags mask == 0)

-- A slot and a path as the program holds them. The lengths of the slot are below the ones from
-- which the mask's test of a length that is too long wraps around, and lets it through.
pub record IsSlot (rule : KernelRule) : Type 0 where
  pub flags : rule.flags < 256
  pub comm_len : rule.comm_len < 145
  pub prefix_len : rule.prefix_len < 193
  pub suffix_len : rule.suffix_len < 193
  pub comm : IsBytes (at rule.comm)
  pub prefix : IsBytes (at rule.prefix)
  pub suffix : IsBytes (at rule.suffix)

pub record IsPath (path : ExecPath) : Type 0 where
  pub flags : path.flags < 256
  pub len : path.len < 256
  pub bytes : IsBytes (at path.bytes)

abbrev pub starts : KernelRule → ExecPath → Bool
starts rule path =
    (agree (at rule.prefix) (at path.bytes) (min rule.prefix_len kpath_len) 0
      && not (rule.prefix_len == 0))
    && leb rule.prefix_len kpath_len

abbrev pub ends : KernelRule → ExecPath → Bool
ends rule path =
    ((agree (at rule.suffix) (λ i. at path.bytes (tail_at (sub_u16 path.len rule.suffix_len) i))
          (min rule.suffix_len kpath_len) 0
        && not (rule.suffix_len == 0))
      && leb rule.suffix_len path.len)
    && leb rule.suffix_len kpath_len

abbrev pub starts_ok : KernelRule → ExecPath → Bool
starts_ok rule path =
    (not (flag krule_flag_path_prefix rule.flags) || starts rule path)
    || (flag exec_path_truncated path.flags && not (not (path.len == 0)))

abbrev pub ends_ok : KernelRule → ExecPath → Bool
ends_ok rule path =
    (not (flag krule_flag_path_suffix rule.flags) || ends rule path)
    || flag exec_path_truncated path.flags

abbrev pub comm_ok : KernelRule → Str → Bool
comm_ok rule comm = agree (at rule.comm) (at comm) comm_len 0 || not (not (rule.comm_len == 0))

abbrev pub path_decidable : KernelRule → ExecPath → Bool
path_decidable rule path = not (
    (flag krule_flag_path_prefix rule.flags || flag krule_flag_path_suffix rule.flags)
    && not (flag exec_path_known path.flags))

-- What the mask is meant to compute.
abbrev pub slot_applies : KernelRule → Str → Bool → Bool → Bool → ExecPath → Bool
slot_applies rule comm in_container agent_self selected path =
    (((((((flag krule_flag_used rule.flags && comm_ok rule comm) && starts_ok rule path)
              && ends_ok rule path)
            && path_decidable rule path)
          && leb rule.comm_len comm_len)
        && not (flag krule_flag_not_agent_self rule.flags && agent_self))
      && not (flag krule_flag_container_only rule.flags && not in_container))
    && not (flag krule_flag_selected_only rule.flags && not selected)
