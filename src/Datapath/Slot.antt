-- ===== src/Datapath/Slot.antt =====
-- crates/ferrum-ebpf-progs/src/lib.rs: the matcher that runs in the kernel, byte arithmetic and all.
-- A byte is a native number below 256; `>> k` is the division by `2 ^ k`.
pub mod Diff
pub mod Reference
pub mod Mask
pub mod Verdict
use ferrum.Prelude.{
  ℕ, zero, suc, ◌+◌, ◌-◌, ◌*◌, ◌/◌, ◌%◌, ◌^◌, min, Bool, true, false, ◌&&◌, ◌||◌, not, List, [],
  ◌∷◌, get_or, ◌==◌, ltb, if◌then◌else◌, bit_and, bit_or, bit_xor,
}
use ferrum.Text.{Str}
use ferrum.Datapath.Record.{comm_len, path_len}

abbrev pub kpath_len : ℕ
kpath_len = 64

abbrev pub action_allow : ℕ
action_allow = 0

abbrev pub action_deny : ℕ
action_deny = 2

abbrev pub action_kill : ℕ
action_kill = 3

abbrev pub krule_flag_used : ℕ
krule_flag_used = 1

abbrev pub krule_flag_container_only : ℕ
krule_flag_container_only = 2

abbrev pub krule_flag_not_agent_self : ℕ
krule_flag_not_agent_self = 4

abbrev pub krule_flag_selected_only : ℕ
krule_flag_selected_only = 8

abbrev pub krule_flag_path_prefix : ℕ
krule_flag_path_prefix = 16

abbrev pub krule_flag_path_suffix : ℕ
krule_flag_path_suffix = 32

abbrev pub exec_path_known : ℕ
exec_path_known = 1

abbrev pub exec_path_truncated : ℕ
exec_path_truncated = 2

pub record ExecPath : Type 0 where
  pub bytes : Str
  pub len : ℕ
  pub flags : ℕ

pub record KernelRule : Type 0 where
  pub action : ℕ
  pub flags : ℕ
  pub comm_len : ℕ
  pub prefix_len : ℕ
  pub suffix_len : ℕ
  pub comm : Str
  pub prefix : Str
  pub suffix : Str

abbrev pub wrapping_neg : ℕ → ℕ
wrapping_neg x = (256 - x) % 256

-- `wrapping_sub` of bytes and of `u16`.
abbrev pub sub_u8 : ℕ → ℕ → ℕ
sub_u8 a b = (a + (256 - b)) % 256

abbrev pub sub_u16 : ℕ → ℕ → ℕ
sub_u16 a b = (a + (65536 - b)) % 65536

unfoldable pub nonzero : ℕ → ℕ
nonzero x = bit_and (bit_or x (wrapping_neg x) / 2 ^ 7) 1

-- `while i < len && i < limit { diff |= a(i) ^ b(i); i += 1 }`, of as many rounds as are left.
unfoldable pub diff_loop : (ℕ → ℕ) → (ℕ → ℕ) → ℕ → ℕ → ℕ → ℕ
diff_loop a b zero i diff = diff
diff_loop a b (suc rounds) i diff = diff_loop a b rounds (suc i) (bit_or diff (bit_xor (a i) (b i)))

unfoldable pub prefix_diff : KernelRule → ExecPath → ℕ
unfolding diff_loop
prefix_diff rule path =
    diff_loop (λ i. get_or rule.prefix i 0) (λ i. get_or path.bytes i 0)
      (min rule.prefix_len kpath_len) 0 0

-- `(start.wrapping_add(i) as usize) & (PATH_LEN - 1)`.
abbrev pub tail_at : ℕ → ℕ → ℕ
tail_at start i = bit_and ((start + i) % 65536) (path_len - 1)

unfoldable pub suffix_diff : KernelRule → ExecPath → ℕ
unfolding diff_loop
suffix_diff rule path =
    diff_loop (λ i. get_or rule.suffix i 0)
      (λ i. get_or path.bytes (tail_at (sub_u16 path.len rule.suffix_len) i) 0)
      (min rule.suffix_len kpath_len) 0 0

unfoldable pub comm_diff : Str → Str → ℕ
unfolding diff_loop
comm_diff rule comm = diff_loop (λ i. get_or rule i 0) (λ i. get_or comm i 0) comm_len 0 0

-- Whether a length stays within a limit, as the borrow out of the top bit.
abbrev pub fits : ℕ → ℕ → ℕ
fits limit len = bit_xor (sub_u8 limit len / 2 ^ 7) 1

unfoldable pub prefix_hit : KernelRule → ExecPath → ℕ
unfolding prefix_diff nonzero
prefix_hit rule path =
    bit_and (bit_and (bit_xor (nonzero (prefix_diff rule path)) 1) (nonzero rule.prefix_len))
      (fits kpath_len rule.prefix_len)

unfoldable pub suffix_hit : KernelRule → ExecPath → ℕ
unfolding suffix_diff nonzero
suffix_hit rule path =
    let start = sub_u16 path.len rule.suffix_len in
    let long_enough = bit_xor (bit_and ((start / 2 ^ 15) % 256) 1) 1 in
    bit_and
      (bit_and (bit_and (bit_xor (nonzero (suffix_diff rule path)) 1) (nonzero rule.suffix_len))
        long_enough)
      (fits kpath_len rule.suffix_len)

abbrev pub as_u8 : Bool → ℕ
as_u8 false = 0
as_u8 true = 1

-- The last expression of `kernel_rule_mask`, of the bits computed before it.
abbrev pub and_all : List ℕ → ℕ → ℕ
and_all [] acc = acc
and_all (x ∷ xs) acc = and_all xs (bit_and acc x)

unfoldable pub kernel_rule_mask : KernelRule → Str → Bool → Bool → Bool → ExecPath → ℕ
unfolding comm_diff prefix_hit suffix_hit nonzero
kernel_rule_mask rule comm in_container agent_self selected path =
    let used = bit_and rule.flags krule_flag_used in
    let container_only = bit_and rule.flags krule_flag_container_only / 2 ^ 1 in
    let not_agent_self = bit_and rule.flags krule_flag_not_agent_self / 2 ^ 2 in
    let selected_only = bit_and rule.flags krule_flag_selected_only / 2 ^ 3 in
    let comm_equal = bit_xor (nonzero (comm_diff rule.comm comm)) 1 in
    let names_a_comm = nonzero rule.comm_len in
    let comm_ok = bit_or comm_equal (bit_xor names_a_comm 1) in
    let comm_len_ok = fits comm_len rule.comm_len in
    let has_prefix = bit_and rule.flags krule_flag_path_prefix / 2 ^ 4 in
    let has_suffix = bit_and rule.flags krule_flag_path_suffix / 2 ^ 5 in
    let known = bit_and path.flags exec_path_known in
    let truncated = bit_and path.flags exec_path_truncated / 2 ^ 1 in
    let unreadable =
      bit_and truncated (bit_xor (nonzero (bit_or (path.len % 256) (path.len / 2 ^ 8 % 256))) 1) in
    let prefix_ok = bit_or (bit_or (bit_xor has_prefix 1) (prefix_hit rule path)) unreadable in
    let suffix_ok = bit_or (bit_or (bit_xor has_suffix 1) (suffix_hit rule path)) truncated in
    let path_decidable = bit_xor (bit_and (bit_or has_prefix has_suffix) (bit_xor known 1)) 1 in
    and_all
      (comm_ok
        ∷ prefix_ok
        ∷ suffix_ok
        ∷ path_decidable
        ∷ comm_len_ok
        ∷ bit_xor (bit_and not_agent_self (as_u8 agent_self)) 1
        ∷ bit_xor (bit_and container_only (bit_xor (as_u8 in_container) 1)) 1
        ∷ bit_xor (bit_and selected_only (bit_xor (as_u8 selected) 1)) 1
        ∷ [])
      used

unfoldable pub kernel_rule_matches : KernelRule → Str → Bool → Bool → Bool → ExecPath → Bool
unfolding kernel_rule_mask
kernel_rule_matches rule comm in_container agent_self selected path =
    not (kernel_rule_mask rule comm in_container agent_self selected path == 0)

-- A nibble of the table `0x0003_4210`.
unfoldable pub action_rank : ℕ → ℕ
action_rank action = bit_and (0x34210 / 2 ^ (bit_and action 7 * 4)) 0xf

-- The loop of `kernel_verdict`.
unfoldable pub verdict_from : (KernelRule → Bool) → ℕ → List KernelRule → ℕ
unfolding action_rank
verdict_from hits best [] = best
verdict_from hits best (rule ∷ rules) =
    verdict_from hits
      (if hits rule && ltb (action_rank best) (action_rank rule.action) then rule.action else best)
      rules

unfoldable pub kernel_verdict : List KernelRule → Str → Bool → Bool → Bool → ExecPath → ℕ
unfolding verdict_from kernel_rule_matches
kernel_verdict rules comm in_container agent_self selected path =
    verdict_from (λ rule. kernel_rule_matches rule comm in_container agent_self selected path)
      action_allow rules

unfoldable pub action_refuses : ℕ → Bool
action_refuses action = action == action_deny || action == action_kill

-- Of the bit patterns of the two `i32`s; `-EPERM` is the one of -1.
unfoldable pub lsm_verdict : ℕ → Bool → ℕ
lsm_verdict previous refuses =
    if not (previous == 0) then previous else if refuses then 2 ^ 32 - 1 else 0
