-- ===== src/Ebpf/Prefilter.antt =====
-- crates/ferrum-ebpf/src/prefilter.rs: which records the datapath may drop.
pub mod Masks
pub mod Seen
pub mod KeptOff
pub mod Sound
use ferrum.Prelude.{
  ℕ, zero, suc, ◌^◌, Bool, true, false, ◌&&◌, ◌||◌, not, Option, none, some, List, [], ◌∷◌,
  is_empty, length, all, ◌==◌, if◌then◌else◌, bit_and, bit_or,
}
use ferrum.Text.{Str, str, str_eq, trim}
use ferrum.Ids.{datapath_syscalls}
use ferrum.Ebpf.Spec.{Action, allow, Rule, EbpfSpec}

abbrev pub path_bearing_syscalls : List Str
path_bearing_syscalls = str "execve" ∷ str "execveat" ∷ str "open" ∷ str "openat" ∷ []

pub record PrefilterImage : Type 0 where
  pub syscalls : ℕ
  pub container_only : Bool
  pub drop_agent_self : Bool

-- `iter().position(|s| *s == name)`, counted from `i`.
unfoldable pub position : List Str → Str → ℕ → Option ℕ
unfolding str_eq
position [] name i = none
position (x ∷ xs) name i =
    let rest = position xs name (suc i) in if str_eq x name then some i else rest

unfoldable pub syscall_index : Str → Option ℕ
unfolding position
syscall_index name = position datapath_syscalls name 0

abbrev pub has_bit : ℕ → ℕ → Bool
has_bit mask i = not (bit_and mask (2 ^ i) == 0)

abbrev pub observed_at : ℕ → Option ℕ → Bool
observed_at mask none = false
observed_at mask (some i) = has_bit mask i

unfoldable pub observes : PrefilterImage → Str → Bool
observes image syscall = observed_at image.syscalls (syscall_index syscall)

abbrev pub set_at : ℕ → Option ℕ → ℕ
set_at mask none = mask
set_at mask (some i) = bit_or mask (2 ^ i)

unfoldable pub set : ℕ → Str → ℕ
set mask syscall = set_at mask (syscall_index syscall)

-- The fold of `all_mask` over `0..n`.
unfoldable pub mask_upto : ℕ → ℕ
mask_upto zero = 0
mask_upto (suc n) = bit_or (mask_upto n) (2 ^ n)

unfoldable pub all_mask : ℕ
unfolding mask_upto
all_mask = mask_upto (length datapath_syscalls)

unfoldable pub set_each : ℕ → List Str → ℕ
unfolding set
set_each mask [] = mask
set_each mask (syscall ∷ syscalls) = set_each (set mask syscall) syscalls

unfoldable pub set_trimmed : ℕ → List Str → ℕ
unfolding set
set_trimmed mask [] = mask
set_trimmed mask (syscall ∷ syscalls) = set_trimmed (set mask (trim syscall)) syscalls

unfoldable pub widen_for_rule : ℕ → Rule → ℕ
unfolding set_each set_trimmed
widen_for_rule mask rule =
    if not (is_empty rule.syscalls)
    then set_trimmed mask rule.syscalls
    else if not (is_empty rule.path_prefix) || not (is_empty rule.path_suffix)
    then set_each mask path_bearing_syscalls
    else all_mask

unfoldable pub widen : ℕ → List Rule → ℕ
unfolding widen_for_rule
widen mask [] = mask
widen mask (rule ∷ rules) = widen (widen_for_rule mask rule) rules

abbrev pub is_allow : Action → Bool
is_allow allow = true
is_allow _ = false

unfoldable pub prefilter_image : EbpfSpec → PrefilterImage
unfolding widen
prefilter_image spec = record {
  syscalls = widen (if not (is_allow spec.default_action) then all_mask else 0) spec.rules;
  container_only =
      not (is_empty spec.rules)
      && is_allow spec.default_action
      && all (λ r. r.container_only) spec.rules;
  drop_agent_self =
      not (is_empty spec.rules)
      && is_allow spec.default_action
      && all (λ r. r.not_agent_self) spec.rules;
}
