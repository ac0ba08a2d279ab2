-- ===== src/Ebpf/Krules.antt =====
-- crates/ferrum-ebpf/src/krules.rs: the slots that a program becomes in the kernel, and the rules
-- that stay in userspace.
pub mod Recorded
pub mod Patterns
pub mod Suffix
pub mod Shape
pub mod Applies
pub mod Agrees
pub mod Checked
pub mod Matches
pub mod Refuses
pub mod Sets
pub mod Actions
pub mod Hits
pub mod Verdict
use ferrum.Prelude.{
  ℕ, ◌-◌, Bool, true, false, ◌&&◌, ◌||◌, not, Option, none, some, List, [], ◌∷◌, ◌++◌, map,
  is_empty, length, any, ltb, ◌==◌, if◌then◌else◌, bit_or,
}
use ferrum.Text.{Str, str, contains}
use ferrum.Ebpf.Spec.{Mode, Action, Rule, EbpfSpec, as_u8, is_cluster_wide}
use ferrum.Datapath.Record.{comm_len}
use ferrum.Datapath.Slot.{
  kpath_len, krule_flag_used, krule_flag_container_only, krule_flag_not_agent_self,
  krule_flag_selected_only, KernelRule,
}
use ferrum.Datapath.Fill.{max_kernel_rules, filled, empty, set_prefix, set_suffix}

pub data ExecPathLayout : Type 0 where
  known : ExecPathLayout
  unknown : Str → ExecPathLayout

abbrev pub exec_syscalls : List Str
exec_syscalls = str "execve" ∷ str "execveat" ∷ []

-- The texts of the reasons, with the values in them.
pub data Reason : Type 0 where
  disabled : Reason
  not_enforcing : Mode → Reason
  refusing_default inert_action : Action → Reason
  no_exec_syscall empty_comm : Reason
  unknown_layout empty_pattern : Str → Reason
  nul_pattern long_pattern : Str → Str → Reason
  long_comm : Str → Reason
  overflow : ℕ → Reason

-- `Result<_, String>`.
pub data Attempt {ℓ} (A : Type ℓ) : Type ℓ where
  fails : Reason → Attempt A
  gives : A → Attempt A

pub record Excluded : Type 0 where
  pub rule : Str
  pub reason : Reason

pub record KernelRuleSet : Type 0 where
  pub rules : List KernelRule
  pub excluded : List Excluded
  pub selected_only : Bool
  pub refused : Option Reason

-- `KernelRuleSet::refuse`.
abbrev pub refuse : Reason → KernelRuleSet
refuse reason = record { rules = []; excluded = []; selected_only = false; refused = some reason }

infixl 5 ◌>=>◌
abbrev pub ◌>=>◌ {ℓ κ} : {A : Type ℓ} → {B : Type κ} → Attempt A → (A → Attempt B) → Attempt B
fails reason >=> next = fails reason
gives value >=> next = next value

abbrev pub pattern_reason : Str → Str → Option Reason
pattern_reason field bytes =
    if is_empty bytes
    then some (empty_pattern field)
    else if any (λ b. b == 0) bytes
    then some (nul_pattern bytes field)
    else if ltb kpath_len (length bytes)
    then some (long_pattern bytes field)
    else none

-- The loops over patterns and over `comm`s: the first that has a reason ends them.
unfoldable pub checked : (Str → Option Reason) → List Str → Attempt (List (Option Str))
checked reason [] = gives []
checked reason (s ∷ ss) =
    let rest = checked reason ss in
    elim (reason s) [ some why ↦ fails why | none ↦ rest >=> λ out. gives (some s ∷ out) ]

-- `[None]` where the list is empty.
abbrev pub or_any : List (Option Str) → List (Option Str)
or_any [] = none ∷ []
or_any (s ∷ ss) = s ∷ ss

unfoldable pub path_patterns : List Str → Str → Attempt (List (Option Str))
unfolding checked
path_patterns patterns field =
    if is_empty patterns then gives (none ∷ []) else checked (pattern_reason field) patterns

abbrev pub comm_reason : Str → Option Reason
comm_reason bytes =
    if is_empty bytes
    then some empty_comm
    else if ltb (comm_len - 1) (length bytes)
    then some (long_comm bytes)
    else none

unfoldable pub comm_patterns : List Str → Attempt (List (Option Str))
unfolding checked
comm_patterns comm_in = checked comm_reason comm_in >=> λ comms. gives (or_any comms)

abbrev pub refuses_exec : Action → Bool
refuses_exec Action.deny = true
refuses_exec Action.kill = true
refuses_exec _ = false

unfoldable pub slot_flags : Rule → Bool → ℕ
slot_flags rule selected_only =
    bit_or
      (bit_or (bit_or krule_flag_used (if selected_only then krule_flag_selected_only else 0))
        (if rule.container_only then krule_flag_container_only else 0))
      (if rule.not_agent_self then krule_flag_not_agent_self else 0)

abbrev pub with_comm : KernelRule → Option Str → KernelRule
with_comm slot none = slot
with_comm slot (some bytes) = record slot { comm_len = length bytes; comm = filled comm_len bytes }

abbrev pub with_prefix : KernelRule → Option Str → KernelRule
with_prefix slot none = slot
with_prefix slot (some bytes) = set_prefix slot bytes

abbrev pub with_suffix : KernelRule → Option Str → KernelRule
with_suffix slot none = slot
with_suffix slot (some bytes) = set_suffix slot bytes

-- The body of the three loops.
unfoldable pub one_slot : ℕ → ℕ → Option Str → Option Str → Option Str → KernelRule
one_slot action flags comm prefix suffix =
    with_suffix
      (with_prefix (with_comm (record empty { action = action; flags = flags }) comm) prefix) suffix

abbrev pub flat_map {ℓ κ} : {A : Type ℓ} → {B : Type κ} → (A → List B) → List A → List B
flat_map f [] = []
flat_map f (x ∷ xs) = f x ++ flat_map f xs

unfoldable pub all_slots :
    (Option Str → Option Str → Option Str → KernelRule)
    → List (Option Str)
    → List (Option Str)
    → List (Option Str)
    → List KernelRule
all_slots slot comms prefixes suffixes =
    flat_map (λ comm. flat_map (λ prefix. map (slot comm prefix) suffixes) prefixes) comms

abbrev pub layout_reason : ExecPathLayout → Bool → Option Reason
layout_reason known names_path = none
layout_reason (unknown why) names_path = if names_path then some (unknown_layout why) else none

abbrev pub attempt : Option Reason → Attempt (Unit {0})
attempt none = gives tt
attempt (some reason) = fails reason

unfoldable pub kernel_slots : Rule → Bool → ExecPathLayout → Attempt (List KernelRule)
unfolding path_patterns comm_patterns all_slots one_slot slot_flags
kernel_slots rule selected_only layout =
    if not (refuses_exec rule.action)
    then fails (inert_action rule.action)
    else if not (is_empty rule.syscalls) && not (any (λ s. contains exec_syscalls s) rule.syscalls)
    then fails no_exec_syscall
    else (attempt (
          layout_reason layout (not (is_empty rule.path_prefix) || not (is_empty rule.path_suffix)))
        >=> λ _. path_patterns rule.path_prefix (str "pathPrefix") >=> λ prefixes.
            path_patterns rule.path_suffix (str "pathSuffix") >=> λ suffixes.
            comm_patterns rule.comm_in >=> λ comms. gives (
              all_slots (one_slot (as_u8 rule.action) (slot_flags rule selected_only)) comms
                prefixes suffixes))

-- One round of the loop over the rules.
abbrev pub add_rule : Str → Attempt (List KernelRule) → KernelRuleSet → KernelRuleSet
add_rule id (gives slots) out = record out { rules = out.rules ++ slots }
add_rule id (fails why) out = record out {
  excluded = out.excluded ++ (record { rule = id; reason = why } ∷ []);
}

unfoldable pub add_rules : ExecPathLayout → List Rule → KernelRuleSet → KernelRuleSet
add_rules layout [] out = out
add_rules layout (rule ∷ rules) out =
    add_rules layout rules (add_rule rule.id (kernel_slots rule out.selected_only layout) out)

-- The whole set is refused where it does not fit.
unfoldable pub bounded : KernelRuleSet → KernelRuleSet
bounded out =
    if ltb max_kernel_rules (length out.rules)
    then record out { rules = []; refused = some (overflow (length out.rules)) }
    else out

abbrev pub is_enforce : Mode → Bool
is_enforce Mode.enforce = true
is_enforce _ = false

abbrev pub prevents_nothing : Action → Bool
prevents_nothing Action.allow = true
prevents_nothing Action.audit = true
prevents_nothing _ = false

unfoldable pub compile_kernel_rules_for : EbpfSpec → ExecPathLayout → KernelRuleSet
unfolding add_rules bounded kernel_slots
compile_kernel_rules_for spec layout =
    if spec.disabled
    then refuse disabled
    else if not (is_enforce spec.mode)
    then refuse (not_enforcing spec.mode)
    else if not (prevents_nothing spec.default_action)
    then refuse (refusing_default spec.default_action)
    else bounded (
        add_rules layout spec.rules (record {
          rules = [];
          excluded = [];
          selected_only = not (is_cluster_wide spec.selector);
          refused = none;
        }))

unfoldable pub compile_kernel_rules : EbpfSpec → KernelRuleSet
compile_kernel_rules spec = compile_kernel_rules_for spec known
