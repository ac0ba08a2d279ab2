-- ===== src/Tests/Krules.antt =====
-- The rules that the kernel enforces, at concrete inputs.
use ferrum.Prelude.{
  List, ◌++◌, replicate, ◌==◌, ◌<◌, ◌≤◌, all, ltb, ltb_iff, &&_iff, ◌≡◌, refl, inl, true, false,
  ◌&&◌, not, none, some, [], ◌∷◌, length, any, All, arith,
}
use ferrum.Text.{Str, str, str_eq, contains, is_utf8}
use ferrum.Datapath.Fill.{from_bytes, set_prefix, set_suffix}
use ferrum.Ebpf.Krules.Patterns.{IsPlain}
use ferrum.Datapath.Slot.{KernelRule, kernel_rule_matches, kernel_verdict, action_rank, action_kill}
use ferrum.Ebpf.Spec.{Mode, Action, Rule, EbpfSpec, LabelSelector, rank, is_cluster_wide}
use ferrum.Ebpf.Eval.{names, rule_matches, matched_action}
use ferrum.Ebpf.Eval.Best.{is_matched}
use ferrum.Ebpf.Krules.{
  known, gives, KernelRuleSet, kernel_slots, one_slot, slot_flags, compile_kernel_rules_for,
}
use ferrum.Ebpf.Krules.Agrees.{Caller, hook_matches}
use ferrum.Ebpf.Krules.Refuses.{IsText, IsExec}
use ferrum.Ebpf.Krules.Recorded.{IsRecordOf, kernel_slots-rule_matches}
use ferrum.Datapath.Record.{Event, in_container, agent_self, flagged_truncated}
use ferrum.Ebpf.Event.{
  aarch64, syscall_event, syscall_name, nul_trimmed_str, utf8_head, path_bytes, path_truncated,
}
use ferrum.Ebpf.Krules.Sets.{IsCompiled, compile_kernel_rules_for-IsCompiled}
use ferrum.Ebpf.Krules.Hits.{Prevented}
use ferrum.Ebpf.Krules.Verdict.{hook_verdict, compile_kernel_rules_for-kernel_verdict}

-- Kill a shell in a container that is not the agent, unless it lies elsewhere than below /tmp or
-- is no `.sh`.
abbrev kill_script : Rule
kill_script = record {
  id = str "s";
  syscalls = str "execve" ∷ str "execveat" ∷ [];
  action = Action.kill;
  comm_in = str "sh" ∷ str "ash" ∷ [];
  container_only = true;
  path_prefix = str "/tmp" ∷ [];
  path_suffix = str ".sh" ∷ [];
  not_agent_self = true;
}

-- A rule that the hook cannot apply.
abbrev audit_exec : Rule
audit_exec = record kill_script { id = str "a"; action = Action.audit }

abbrev everything : LabelSelector
everything = record { match_labels = []; match_expressions = [] }

abbrev scripts : EbpfSpec
scripts = record {
  abi = 1;
  mode = Mode.enforce;
  disabled = false;
  priority = 0;
  default_action = Action.allow;
  selector = record {
    cluster_selector = everything;
    namespace_selector = everything;
    workload_selector = everything;
    service_account_selector = everything;
    image = record { registries_allow = []; require_digest = false };
  };
  rules = kill_script ∷ audit_exec ∷ [];
}

abbrev contained : Caller
contained = record { in_container = true; agent_self = false; selected = false }

abbrev script : Str
script = str "/tmp/x.sh"

abbrev compiled : KernelRuleSet
compiled = compile_kernel_rules_for scripts known

sh-IsPlain : IsPlain (str "sh")
sh-IsPlain = ((refl, omega arith), ((refl, omega arith), tt))

bytes_of : (s : Str) → all (λ b. ltb b 256) s ≡ true → All (λ b. b < 256) s
bytes_of [] h = tt
bytes_of (b ∷ s) h =
    let (first, rest) = (&&_iff (ltb b 256) (all (λ b. ltb b 256) s)).0 h in
    ((ltb_iff b 256).0 first, bytes_of s rest)

kill_script-IsText : IsText kill_script
kill_script-IsText = record {
  prefixes = (bytes_of (str "/tmp") refl, tt);
  suffixes = (bytes_of (str ".sh") refl, tt);
  comms = (sh-IsPlain, (((refl, omega arith), sh-IsPlain), tt));
}

audit_exec-IsText : IsText audit_exec
audit_exec-IsText = record {
  prefixes = kill_script-IsText.prefixes;
  suffixes = kill_script-IsText.suffixes;
  comms = kill_script-IsText.comms;
}

script-IsExec : IsExec (str "sh") script
script-IsExec = record {
  comm_plain = sh-IsPlain;
  comm_short = omega arith;
  path_bytes = bytes_of script refl;
  path_short = omega arith;
}

-- The record of that exec by `execveat`, on aarch64.
abbrev recorded : Event
recorded = record {
  cgroup_id = 9;
  pid = 7;
  tgid = 7;
  syscall_nr = 281;
  action = 0;
  flags = 1;
  pad = 0xfe10;
  comm = str "sh" ++ replicate 14 0;
  path = script ++ replicate 247 0;
}

plain_of : (s : Str) → all (λ b. not (b == 0)) s ≡ true → All (λ b. (b == 0) ≡ false) s
plain_of [] h = tt
plain_of (b ∷ s) h =
    let (first, rest) = (&&_iff (not (b == 0)) (all (λ b. not (b == 0)) s)).0 h in
    (ground (arith, first), plain_of s rest)

recorded-IsRecordOf : IsRecordOf (str "sh") script false contained recorded
unfolding is_utf8 in_container agent_self flagged_truncated
recorded-IsRecordOf = record {
  name = refl;
  file = (replicate 246 0, refl);
  whole = plain_of script refl;
  flagged = refl;
  contained = refl;
  agent = refl;
  name_utf8 = refl;
  file_utf8 = refl;
}

-- Two `comm`s make two slots, and the other rule stays in userspace.
kept : (compiled.refused ≡ none) × (length compiled.rules ≡ 2) × (length compiled.excluded ≡ 1)
unfolding compile_kernel_rules_for contains
kept = (refl, refl, refl)

abbrev two_slots : List KernelRule
two_slots =
    one_slot 3 (slot_flags kill_script false) (some (str "sh")) (some (str "/tmp"))
      (some (str ".sh"))
    ∷ one_slot 3 (slot_flags kill_script false) (some (str "ash")) (some (str "/tmp"))
        (some (str ".sh"))
    ∷ []

made : kernel_slots kill_script false known ≡ gives two_slots
unfolding kernel_slots contains
made = refl

named : names kill_script.syscalls (syscall_event recorded aarch64).syscall ≡ true
unfolding str_eq syscall_event
named = refl

kernel_slots-rule_matches_example :
    any (λ slot. hook_matches slot (str "sh") contained script false) two_slots ≡ (
      is_matched (rule_matches kill_script (syscall_event recorded aarch64))
      && not (false && not false))
kernel_slots-rule_matches_example =
    kernel_slots-rule_matches kill_script false known two_slots recorded aarch64 (str "sh") script
      false contained made kill_script-IsText script-IsExec recorded-IsRecordOf named

compile_kernel_rules_for-IsCompiled_example : IsCompiled scripts known compiled
compile_kernel_rules_for-IsCompiled_example = compile_kernel_rules_for-IsCompiled scripts known

compile_kernel_rules_for-kernel_verdict_example :
    (action_rank (hook_verdict compiled.rules (str "sh") contained script false)
      ≤ rank (matched_action scripts (syscall_event recorded aarch64)).action)
    × All
        (Prevented known compiled.selected_only
          (syscall_event recorded aarch64)
          contained
          (hook_verdict compiled.rules (str "sh") contained script false))
        scripts.rules
compile_kernel_rules_for-kernel_verdict_example =
    compile_kernel_rules_for-kernel_verdict scripts known recorded aarch64 (str "sh") script false
      contained kept.0 script-IsExec recorded-IsRecordOf
      (kill_script-IsText, (audit_exec-IsText, tt)) (inl named, (inl named, tt))

killed : hook_verdict compiled.rules (str "sh") contained script false ≡ action_kill
unfolding compile_kernel_rules_for contains kernel_verdict from_bytes set_prefix set_suffix
    is_cluster_wide
killed = refl

-- A rule that names `execve` alone becomes a slot that refuses an `execveat` as well, which the
-- evaluator does not match the rule on.
abbrev only_execve : Rule
only_execve = record kill_script { syscalls = str "execve" ∷ []; comm_in = [] }

abbrev only_slot : List KernelRule
only_slot =
    one_slot 3 (slot_flags only_execve false) none (some (str "/tmp")) (some (str ".sh")) ∷ []

wider_syscall :
    (kernel_slots only_execve false known ≡ gives only_slot)
    × (any (λ slot. hook_matches slot (str "sh") contained script false) only_slot ≡ true)
    × (is_matched (rule_matches only_execve (syscall_event recorded aarch64)) ≡ false)
unfolding kernel_slots contains kernel_rule_matches rule_matches str_eq from_bytes set_prefix
    set_suffix syscall_event syscall_name nul_trimmed_str utf8_head path_bytes path_truncated
    in_container agent_self flagged_truncated
wider_syscall = (refl, refl, refl)

-- A `comm` with a NUL at its end becomes a slot that hits the name without it.
abbrev nul_comm : Rule
nul_comm = record kill_script { comm_in = (str "sh" ++ (0 ∷ [])) ∷ [] }

abbrev nul_slot : List KernelRule
nul_slot =
    one_slot 3 (slot_flags nul_comm false) (some (str "sh" ++ (0 ∷ []))) (some (str "/tmp"))
      (some (str ".sh"))
    ∷ []

wider_comm :
    (kernel_slots nul_comm false known ≡ gives nul_slot)
    × (any (λ slot. hook_matches slot (str "sh") contained script false) nul_slot ≡ true)
    × (is_matched (rule_matches nul_comm (syscall_event recorded aarch64)) ≡ false)
unfolding kernel_slots contains kernel_rule_matches rule_matches str_eq from_bytes set_prefix
    set_suffix syscall_event syscall_name nul_trimmed_str utf8_head path_bytes path_truncated
    in_container agent_self flagged_truncated
wider_comm = (refl, refl, refl)
