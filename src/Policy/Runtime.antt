-- ===== src/Policy/Runtime.antt =====
-- crates/ferrum-policy/src/lib.rs: `validate_runtime` and the checks of one rule.
use ferrum.Prelude.{
  ℕ, Bool, true, false, ◌&&◌, not, Option, none, some, List, [], ◌∷◌, is_empty, if◌then◌else◌,
}
use ferrum.Text.{Str, trim, contains}
use ferrum.Error.{
  EquivalenceGap, bypass_on, dead_off, bypass_anywhere, Message, Result, ok, err, validation, ◌>>=◌,
}
use ferrum.Ids.{
  is_datapath_syscall, ArchRestrictedSyscall, arch_restricted_syscall, uncovered_equivalent_syscall,
  unobservable_comm, unobservable_path_pattern,
}
use ferrum.Api.{RuntimeAction, RuntimeRule, RuntimeSpec}

unfoldable pub validate_rule_action : Str → RuntimeAction → Result (Unit {0})
validate_rule_action rule_id RuntimeAction.deny = err (validation (Message.inert_deny rule_id))
validate_rule_action rule_id RuntimeAction.isolate =
    err (validation (Message.inert_isolate rule_id))
validate_rule_action rule_id _ = ok tt

abbrev pub gap_text : Option ArchRestrictedSyscall → Option ArchRestrictedSyscall → EquivalenceGap
gap_text listed (some r) = bypass_on r.arches
gap_text (some r) none = dead_off r.arches
gap_text none none = bypass_anywhere

unfoldable pub equivalence_gap : Str → Str → EquivalenceGap
equivalence_gap listed missing =
    gap_text (arch_restricted_syscall listed) (arch_restricted_syscall missing)

-- The loop over the syscalls.
unfoldable pub syscalls_observed : Str → List Str → Result (Unit {0})
syscalls_observed rule_id [] = ok tt
syscalls_observed rule_id (syscall ∷ syscalls) =
    let rest = syscalls_observed rule_id syscalls in
    if not (is_datapath_syscall (trim syscall))
    then err (validation (Message.unobserved_syscall rule_id (trim syscall)))
    else rest

abbrev pub gap_error : Str → Option (Str × Str) → Result (Unit {0})
gap_error rule_id none = ok tt
gap_error rule_id (some (listed, missing)) =
    err (validation (Message.gap_syscall rule_id listed missing (equivalence_gap listed missing)))

unfoldable pub validate_rule_syscalls : Str → List Str → Result (Unit {0})
unfolding syscalls_observed
validate_rule_syscalls rule_id syscalls = syscalls_observed rule_id syscalls >>= λ _.
    gap_error rule_id (uncovered_equivalent_syscall syscalls)

-- A literal that is too long, with the message about it.
abbrev pub bound_error : Option (Str × ℕ) → (Str → ℕ → Message) → Result (Unit {0})
bound_error none message = ok tt
bound_error (some (literal, len)) message = err (validation (message literal len))

unfoldable pub validate_rule_predicates : Str → List Str → List Str → List Str → Result (Unit {0})
validate_rule_predicates rule_id comm_in path_prefix path_suffix =
    bound_error (unobservable_comm comm_in) (Message.unseen_comm rule_id) >>= λ _.
    bound_error (unobservable_path_pattern path_prefix) (Message.unseen_prefix rule_id) >>= λ _.
    bound_error (unobservable_path_pattern path_suffix) (Message.unseen_suffix rule_id)

abbrev pub kills_or_isolates : RuntimeAction → Bool
kills_or_isolates RuntimeAction.kill = true
kills_or_isolates RuntimeAction.isolate = true
kills_or_isolates _ = false

unfoldable pub is_kill_all_rule : RuntimeRule → Bool
is_kill_all_rule rule =
    kills_or_isolates rule.action
    && is_empty rule.match_on.comm_in
    && is_empty rule.match_on.path_prefix
    && is_empty rule.match_on.path_suffix
    && is_empty rule.syscalls

-- The checks of the loop's body behind the two on the id.
unfoldable pub validate_rule_body : RuntimeRule → Result (Unit {0})
validate_rule_body rule = validate_rule_action rule.id rule.action >>= λ _.
    validate_rule_syscalls rule.id rule.syscalls >>= λ _.
    validate_rule_predicates rule.id rule.match_on.comm_in rule.match_on.path_prefix
      rule.match_on.path_suffix
    >>= λ _.
        if is_kill_all_rule rule
        then err (validation (Message.kill_all_policy_rule rule.id))
        else ok tt

-- The loop over the rules; `ids` are the ids inserted so far.
unfoldable pub validate_rules : List Str → List RuntimeRule → Result (Unit {0})
unfolding validate_rule_body
validate_rules ids [] = ok tt
validate_rules ids (rule ∷ rules) =
    let rest = validate_rules (rule.id ∷ ids) rules in
    if is_empty (trim rule.id)
    then err (validation Message.no_rule_id)
    else if contains ids rule.id
    then err (validation (Message.duplicate_rule_id rule.id))
    else (validate_rule_body rule >>= λ _. rest)

abbrev pub default_error : RuntimeAction → Result (Unit {0})
default_error RuntimeAction.kill = err (validation Message.kill_all_policy)
default_error RuntimeAction.isolate = err (validation Message.kill_all_policy)
default_error RuntimeAction.deny = err (validation Message.deny_policy)
default_error _ = ok tt

unfoldable pub validate_runtime : RuntimeSpec → Result (Unit {0})
unfolding validate_rules
validate_runtime runtime =
    default_error runtime.default_action >>= λ _. validate_rules [] runtime.rules
