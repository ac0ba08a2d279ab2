-- ===== src/Ebpf/Decode.antt =====
-- crates/ferrum-ebpf/src/spec.rs: the FEBP loader.
pub mod Gates
pub mod Observed
pub mod Spared
pub mod Loaded
use ferrum.Prelude.{
  ℕ, zero, suc, Bool, true, false, ◌&&◌, not, Option, none, some, List, [], ◌∷◌, map, is_empty,
  length, ltb, ◌==◌, if◌then◌else◌, find_map, any,
}
use mathlib.Core.Option
use ferrum.Text.{Str, str, trim}
use ferrum.Labels.{Labels}
use ferrum.Labels
use ferrum.Error.{Message, FerrumError, Result, ok, err, compile, degraded}
use ferrum.Error.{◌>>=◌ as ◌>>>◌}
use ferrum.Ids.{agent_abi, is_datapath_syscall, unobservable_comm, unobservable_path_pattern}
use ferrum.Ebpf.Spec.{
  Mode, Action, allow, kill, isolate, mode_from_u8, action_from_u8, as_u8, Rule, LabelRequirement,
  LabelSelector, ImageSelector, PolicySelector, EbpfSpec,
}
use ferrum.Ebpf.Reader.{
  Read, ◌>>=◌, ◌>>◌, pure, fail, lift, expect_magic, u8, u16, u32, i32, bool, string, str_list,
  repeat, finish,
}

abbrev pub ebpf_magic : Str
ebpf_magic = str "FEBP"

unfoldable pub trim_syscall : Str → Str
trim_syscall name = if length (trim name) == length name then name else trim name

-- `for _ in 0..label_count { match_labels.insert(r.str()?, r.str()?) }`.
unfoldable pub decode_labels : ℕ → Labels → Read Labels
decode_labels zero m = pure m
decode_labels (suc n) m = do
  key ← string
  value ← string
  decode_labels n (Labels.insert key value m)

unfoldable pub decode_requirement : Read LabelRequirement
decode_requirement = do
  key ← string
  operator ← string
  values ← str_list
  pure (record { key = key; operator = operator; values = values })

unfoldable pub decode_label_selector : Read LabelSelector
unfolding decode_labels decode_requirement
decode_label_selector = do
  label_count ← u16
  match_labels ← decode_labels label_count []
  expr_count ← u16
  match_expressions ← repeat expr_count decode_requirement
  pure (record { match_labels = match_labels; match_expressions = match_expressions })

unfoldable pub decode_selector : Read PolicySelector
unfolding decode_label_selector
decode_selector = do
  cluster ← decode_label_selector
  namespace ← decode_label_selector
  workload ← decode_label_selector
  service_account ← decode_label_selector
  registries ← str_list
  digest ← bool
  pure (record {
    cluster_selector = cluster;
    namespace_selector = namespace;
    workload_selector = workload;
    service_account_selector = service_account;
    image = record { registries_allow = registries; require_digest = digest };
  })

unfoldable pub decode_rule : Read Rule
decode_rule = do
  id ← string
  syscalls ← str_list
  code ← u8
  action ← lift (action_from_u8 code)
  comm_in ← str_list
  container_only ← bool
  path_prefix ← str_list
  path_suffix ← str_list
  not_agent_self ← bool
  pure (record {
    id = id;
    syscalls = map trim_syscall syscalls;
    action = action;
    comm_in = comm_in;
    container_only = container_only;
    path_prefix = path_prefix;
    path_suffix = path_suffix;
    not_agent_self = not_agent_self;
  })

pub data DeadRules : Type 0 where
  reject drop : DeadRules

unfoldable pub unhooked : Str → Str → Option Message
unhooked id syscall =
    if is_datapath_syscall syscall then none else some (Message.unhooked_syscall id syscall)

unfoldable pub comm_gap : Str → List Str → Option Message
comm_gap id comm_in = Option.map (λ c. Message.long_comm id c.0 c.1) (unobservable_comm comm_in)

unfoldable pub path_gap : Str → List Str → Option Message
path_gap id patterns =
    Option.map (λ p. Message.long_pattern id p.0 p.1) (unobservable_path_pattern patterns)

abbrev pub or_else {ℓ} : {A : Type ℓ} → Option A → Option A → Option A
or_else none y = y
or_else (some x) y = some x

unfoldable pub dead_rule_reason : Rule → Option Message
unfolding unhooked comm_gap path_gap
dead_rule_reason rule = or_else (find_map (unhooked rule.id) rule.syscalls) (
    or_else (comm_gap rule.id rule.comm_in)
      (or_else (path_gap rule.id rule.path_prefix) (path_gap rule.id rule.path_suffix)))

abbrev pub is_kill_or_isolate : Action → Bool
is_kill_or_isolate kill = true
is_kill_or_isolate isolate = true
is_kill_or_isolate _ = false

-- A rule that kills or isolates and has no predicate.
unfoldable pub is_kill_all : Rule → Bool
is_kill_all rule =
    is_kill_or_isolate rule.action
    && is_empty rule.syscalls
    && is_empty rule.comm_in
    && is_empty rule.path_prefix
    && is_empty rule.path_suffix

kill_all_rules : List Rule → Result (Unit {0})
unfolding is_kill_all
kill_all_rules [] = ok tt
kill_all_rules (rule ∷ rules) =
    let rest = kill_all_rules rules in
    if is_kill_all rule then err (compile (Message.kill_all_rule rule.id)) else rest

unfoldable pub reject_kill_all : Action → List Rule → Result (Unit {0})
unfolding kill_all_rules
reject_kill_all default_action rules =
    if is_kill_or_isolate default_action
    then err (compile (Message.kill_all_default (as_u8 default_action)))
    else kill_all_rules rules

-- The loop of `DeadRules::Drop`: the rules kept, and the reasons of those dropped.
unfoldable pub drop_dead : List Rule → List Rule × List Message
drop_dead [] = ([], [])
drop_dead (rule ∷ rules) =
    let (kept, dropped) = drop_dead rules in
    elim (dead_rule_reason rule) [
      | some reason ↦ (kept, reason ∷ dropped)
      | none ↦ (rule ∷ kept, dropped)
    ]

unfoldable pub apply_dead : DeadRules → List Rule → Result (List Rule × List Message)
unfolding drop_dead
apply_dead reject rules = elim (find_map dead_rule_reason rules) [
  | some reason ↦ err (compile reason)
  | none ↦ ok (rules, [])
]
apply_dead drop rules = ok (drop_dead rules)

unfoldable pub check_abi : ℕ → Result (Unit {0})
check_abi abi = if abi == agent_abi then ok tt else err (degraded (Message.abi_mismatch abi))

-- The reads of `parse_febp_with`, from the magic to the end of the buffer.
unfoldable pub decode_spec : Read EbpfSpec
unfolding check_abi
decode_spec = do
  expect_magic ebpf_magic
  abi ← u32
  lift (check_abi abi)
  mode_code ← u8
  mode ← lift (mode_from_u8 mode_code)
  disabled ← bool
  priority ← i32
  action_code ← u8
  default_action ← lift (action_from_u8 action_code)
  selector ← decode_selector
  count ← u16
  rules ← repeat count decode_rule
  finish
  pure (record {
    abi = abi;
    mode = mode;
    disabled = disabled;
    priority = priority;
    default_action = default_action;
    selector = selector;
    rules = rules;
  })

-- The gates behind the reads.
unfoldable pub gate_spec : DeadRules → EbpfSpec → Result (EbpfSpec × List Message)
gate_spec dead spec = reject_kill_all spec.default_action spec.rules >>> λ _.
    apply_dead dead spec.rules >>> λ kept. ok (record spec { rules = kept.0 }, kept.1)

unfoldable pub parse_febp_with : Str → DeadRules → Result (EbpfSpec × List Message)
unfolding decode_spec gate_spec
parse_febp_with bytes dead = decode_spec bytes >>> λ read. gate_spec dead read.0

unfoldable pub parse_febp : Str → Result EbpfSpec
unfolding parse_febp_with
parse_febp bytes = parse_febp_with bytes reject >>> λ parsed. ok parsed.0
