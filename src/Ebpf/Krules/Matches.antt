-- ===== src/Ebpf/Krules/Matches.antt =====
-- crates/ferrum-ebpf/src/eval.rs, `rule_matches`: the early returns as one conjunction of tests.
use ferrum.Prelude.{
  ◌≡◌, refl, Bool, true, false, ◌&&◌, ◌||◌, not, none, some, is_empty, if◌then◌else◌,
}
use ferrum.Ebpf.Spec.{Rule}
use ferrum.Ebpf.Eval.{
  SyscallEvent, RuleMatch, no_match, skipped_container, matched, names, prefix_hit, suffix_hit,
  path_unreadable, prefix_step, suffix_step, flag_step, after_suffix, after_prefix, rule_matches,
}
use ferrum.Ebpf.Eval.Best.{is_matched}

abbrev pub flags_ok : Rule → SyscallEvent → Bool
flags_ok rule event =
    not (rule.not_agent_self && event.agent_self)
    && not (rule.container_only && not event.in_container)

abbrev pub suffix_ok : Rule → SyscallEvent → Bool
suffix_ok rule event = is_empty rule.path_suffix || (suffix_hit rule event || event.path_truncated)

abbrev pub prefix_ok : Rule → SyscallEvent → Bool
prefix_ok rule event = is_empty rule.path_prefix || (prefix_hit rule event || path_unreadable event)

flag_step-flags_ok :
    (rule : Rule) (event : SyscallEvent) (u : Bool)
    → is_matched (flag_step rule event u) ≡ flags_ok rule event
unfolding flag_step
flag_step-flags_ok rule event u =
    branches (rule.not_agent_self && event.agent_self)
      (rule.container_only && not event.in_container)
  where
    branches :
        (a b : Bool)
        → is_matched (if a then no_match else if b then skipped_container else matched u)
          ≡ (not a && not b)
    branches true b = refl
    branches false true = refl
    branches false false = refl

after_suffix-suffix_ok :
    (rule : Rule) (event : SyscallEvent) (u : Bool)
    → is_matched (after_suffix rule event (suffix_step rule event u))
      ≡ (suffix_ok rule event && flags_ok rule event)
unfolding suffix_step
after_suffix-suffix_ok rule event u =
    branches (is_empty rule.path_suffix) (suffix_hit rule event) event.path_truncated
      (flag_step-flags_ok rule event)
  where
    branches :
        (a b c : Bool)
        → ((u : Bool) → is_matched (flag_step rule event u) ≡ flags_ok rule event)
        → is_matched (
            after_suffix rule event
              (if a then some u else if b then some u else if not c then none else some true))
          ≡ ((a || (b || c)) && flags_ok rule event)
    branches true b c f = f u
    branches false true c f = f u
    branches false false true f = f true
    branches false false false f = refl

after_prefix-prefix_ok :
    (rule : Rule) (event : SyscallEvent)
    → is_matched (after_prefix rule event (prefix_step rule event))
      ≡ (prefix_ok rule event && (suffix_ok rule event && flags_ok rule event))
unfolding prefix_step
after_prefix-prefix_ok rule event =
    branches (is_empty rule.path_prefix) (prefix_hit rule event) (path_unreadable event)
      (after_suffix-suffix_ok rule event)
  where
    branches :
        (a b c : Bool)
        → ((u : Bool)
            → is_matched (after_suffix rule event (suffix_step rule event u))
              ≡ (suffix_ok rule event && flags_ok rule event))
        → is_matched (
            after_prefix rule event (
              if a
              then some false
              else if b
              then some false
              else if not c
              then none
              else some true))
          ≡ ((a || (b || c)) && (suffix_ok rule event && flags_ok rule event))
    branches true b c f = f false
    branches false true c f = f false
    branches false false true f = f true
    branches false false false f = refl

-- A rule applies where each of its tests is passed.
pub rule_matches-tests :
    (rule : Rule) (event : SyscallEvent)
    → is_matched (rule_matches rule event) ≡ (
        names rule.syscalls event.syscall
        && (names rule.comm_in event.comm
            && (prefix_ok rule event && (suffix_ok rule event && flags_ok rule event))))
unfolding rule_matches
rule_matches-tests rule event =
    branches (names rule.syscalls event.syscall) (names rule.comm_in event.comm) _ _
      (after_prefix-prefix_ok rule event)
  where
    branches :
        (a b : Bool) (r : RuleMatch) (c : Bool)
        → is_matched r ≡ c
        → is_matched (if not a then no_match else if not b then no_match else r) ≡ (a && (b && c))
    branches true true r c e = e
    branches true false r c e = refl
    branches false b r c e = refl
