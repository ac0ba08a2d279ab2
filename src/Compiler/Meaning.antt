-- ===== src/Compiler/Meaning.antt =====
-- crates/ferrum-compiler: the program that a policy means, and the policies that can be encoded.
use ferrum.Prelude.{◌^◌, ◌≤◌, ◌<◌, length, map, All}
use ferrum.Labels.Laws.{IsSorted}
use ferrum.Ids.{agent_abi}
use ferrum.Api
use ferrum.Api.{PolicyMode, RuntimeAction, RuntimeRule}
use ferrum.Ebpf.Spec.{Mode, Action, Rule, LabelRequirement, LabelSelector, PolicySelector, EbpfSpec}
use ferrum.Ebpf.Decode.{trim_syscall}
use ferrum.Compiler.Writer.{u16_max}
use ferrum.Compiler.Encode.{Effects}
use ferrum.Compiler.Carries.{IsText, IsTexts}

abbrev pub mode_of : PolicyMode → Mode
mode_of PolicyMode.observe = Mode.observe
mode_of PolicyMode.audit = Mode.audit
mode_of PolicyMode.enforce = Mode.enforce

abbrev pub action_of : RuntimeAction → Action
action_of RuntimeAction.allow = Action.allow
action_of RuntimeAction.audit = Action.audit
action_of RuntimeAction.deny = Action.deny
action_of RuntimeAction.kill = Action.kill
action_of RuntimeAction.isolate = Action.isolate

abbrev pub requirement_of : Api.LabelSelectorRequirement → LabelRequirement
requirement_of r = record { key = r.key; operator = r.operator; values = r.values }

abbrev pub labels_of : Api.LabelSelector → LabelSelector
labels_of s = record {
  match_labels = s.match_labels;
  match_expressions = map requirement_of s.match_expressions;
}

abbrev pub selector_of : Api.PolicySelector → PolicySelector
selector_of s = record {
  cluster_selector = labels_of s.cluster_selector;
  namespace_selector = labels_of s.namespace_selector;
  workload_selector = labels_of s.workload_selector;
  service_account_selector = labels_of s.service_account_selector;
  image = record {
    registries_allow = s.image.registries_allow;
    require_digest = s.image.require_digest;
  };
}

-- The syscall names are trimmed on the way in.
abbrev pub rule_of : RuntimeRule → Rule
rule_of r = record {
  id = r.id;
  syscalls = map trim_syscall r.syscalls;
  action = action_of r.action;
  comm_in = r.match_on.comm_in;
  container_only = r.match_on.container_only;
  path_prefix = r.match_on.path_prefix;
  path_suffix = r.match_on.path_suffix;
  not_agent_self = r.match_on.not_agent_self;
}

abbrev pub spec_of : Effects → EbpfSpec
spec_of fx = record {
  abi = agent_abi;
  mode = mode_of fx.mode;
  disabled = fx.disabled;
  priority = fx.priority;
  default_action = action_of fx.runtime.default_action;
  selector = selector_of fx.selector;
  rules = map rule_of fx.runtime.rules;
}

-- Every count and length fits its 16 bits, every string is UTF-8, every map is in order.
pub record IsRequirement (r : Api.LabelSelectorRequirement) : Type 0 where
  pub key : IsText r.key
  pub operator : IsText r.operator
  pub values : IsTexts r.values

pub record IsSelector (s : Api.LabelSelector) : Type 0 where
  pub labels_fit : length s.match_labels ≤ u16_max
  pub labels_sorted : IsSorted s.match_labels
  pub keys : All (λ kv. IsText kv.0) s.match_labels
  pub values : All (λ kv. IsText kv.1) s.match_labels
  pub expressions_fit : length s.match_expressions ≤ u16_max
  pub expressions : All IsRequirement s.match_expressions

pub record IsPolicySelector (s : Api.PolicySelector) : Type 0 where
  pub cluster : IsSelector s.cluster_selector
  pub namespace : IsSelector s.namespace_selector
  pub workload : IsSelector s.workload_selector
  pub service_account : IsSelector s.service_account_selector
  pub registries : IsTexts s.image.registries_allow

pub record IsRule (r : RuntimeRule) : Type 0 where
  pub id : IsText r.id
  pub syscalls : IsTexts r.syscalls
  pub comm_in : IsTexts r.match_on.comm_in
  pub path_prefix : IsTexts r.match_on.path_prefix
  pub path_suffix : IsTexts r.match_on.path_suffix

pub record IsEncodable (fx : Effects) : Type 0 where
  pub priority : fx.priority < 2 ^ 32
  pub selector : IsPolicySelector fx.selector
  pub rules_fit : length fx.runtime.rules ≤ u16_max
  pub rules : All IsRule fx.runtime.rules
