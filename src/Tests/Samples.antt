-- ===== src/Tests/Samples.antt =====
-- Test data: one policy, its encoding and the program it means.
use ferrum.Prelude.{true, false, [], ◌∷◌}
use ferrum.Text.{Str, str}
use ferrum.Identity.{WorkloadIdentity, unknown}
use ferrum.Api
use ferrum.Api.{PolicyMode, RuntimeAction, RuntimeRule, RuntimeSpec}
use ferrum.Ebpf.Spec.{Mode, Action, Rule, LabelSelector, EbpfSpec}
use ferrum.Ebpf.Eval.{SyscallEvent}
use ferrum.Compiler.Encode.{Effects}

abbrev pub no_labels : Api.LabelSelector
no_labels = record { match_labels = []; match_expressions = [] }

abbrev pub web_labels : Api.LabelSelector
web_labels = record no_labels { match_labels = (str "app", str "web") ∷ [] }

abbrev pub kill_tmp : RuntimeRule
kill_tmp = record {
  id = str "k";
  syscalls = str "bpf" ∷ [];
  match_on = record {
    comm_in = [];
    container_only = true;
    path_prefix = str "/tmp" ∷ [];
    path_suffix = [];
    not_agent_self = false;
  };
  action = RuntimeAction.kill;
}

abbrev pub audit_open : RuntimeRule
audit_open = record {
  id = str "a";
  syscalls = str "open" ∷ str "openat" ∷ [];
  match_on = record {
    comm_in = str "sh" ∷ [];
    container_only = false;
    path_prefix = [];
    path_suffix = [];
    not_agent_self = false;
  };
  action = RuntimeAction.audit;
}

abbrev pub policy : Effects
policy = record {
  mode = PolicyMode.enforce;
  priority = 7;
  disabled = false;
  selector = record {
    cluster_selector = no_labels;
    namespace_selector = web_labels;
    workload_selector = no_labels;
    service_account_selector = no_labels;
    image = record { registries_allow = []; require_digest = false };
  };
  runtime = record { default_action = RuntimeAction.allow; rules = kill_tmp ∷ audit_open ∷ [] };
}

abbrev pub any_labels : LabelSelector
any_labels = record { match_labels = []; match_expressions = [] }

abbrev pub kill_rule : Rule
kill_rule = record {
  id = str "k";
  syscalls = str "bpf" ∷ [];
  action = Action.kill;
  comm_in = [];
  container_only = true;
  path_prefix = str "/tmp" ∷ [];
  path_suffix = [];
  not_agent_self = false;
}

abbrev pub audit_rule : Rule
audit_rule = record {
  id = str "a";
  syscalls = str "open" ∷ str "openat" ∷ [];
  action = Action.audit;
  comm_in = str "sh" ∷ [];
  container_only = false;
  path_prefix = [];
  path_suffix = [];
  not_agent_self = false;
}

abbrev pub program : EbpfSpec
program = record {
  abi = 1;
  mode = Mode.enforce;
  disabled = false;
  priority = 7;
  default_action = Action.allow;
  selector = record {
    cluster_selector = any_labels;
    namespace_selector = record any_labels { match_labels = (str "app", str "web") ∷ [] };
    workload_selector = any_labels;
    service_account_selector = any_labels;
    image = record { registries_allow = []; require_digest = false };
  };
  rules = kill_rule ∷ audit_rule ∷ [];
}

-- What the policy is encoded to, and the same with a syscall that no hook observes.
abbrev pub encoded : Str
encoded =
    70 ∷ 69 ∷ 66 ∷ 80 ∷ 1 ∷ 0 ∷ 0 ∷ 0 ∷ 2 ∷ 0 ∷ 7 ∷ 0 ∷ 0 ∷ 0 ∷ 0 ∷ 0 ∷ 0 ∷ 0 ∷ 0 ∷ 1 ∷ 0 ∷ 3 ∷ 0
    ∷ 97 ∷ 112 ∷ 112 ∷ 3 ∷ 0 ∷ 119 ∷ 101 ∷ 98 ∷ 0 ∷ 0 ∷ 0 ∷ 0 ∷ 0 ∷ 0 ∷ 0 ∷ 0 ∷ 0 ∷ 0 ∷ 0 ∷ 0 ∷ 0
    ∷ 2 ∷ 0 ∷ 1 ∷ 0 ∷ 107 ∷ 1 ∷ 0 ∷ 3 ∷ 0 ∷ 98 ∷ 112 ∷ 102 ∷ 3 ∷ 0 ∷ 0 ∷ 1 ∷ 1 ∷ 0 ∷ 4 ∷ 0 ∷ 47
    ∷ 116 ∷ 109 ∷ 112 ∷ 0 ∷ 0 ∷ 0 ∷ 1 ∷ 0 ∷ 97 ∷ 2 ∷ 0 ∷ 4 ∷ 0 ∷ 111 ∷ 112 ∷ 101 ∷ 110 ∷ 6 ∷ 0 ∷ 111
    ∷ 112 ∷ 101 ∷ 110 ∷ 97 ∷ 116 ∷ 1 ∷ 1 ∷ 0 ∷ 2 ∷ 0 ∷ 115 ∷ 104 ∷ 0 ∷ 0 ∷ 0 ∷ 0 ∷ 0 ∷ 0 ∷ []

abbrev pub encoded_dead : Str
encoded_dead =
    70 ∷ 69 ∷ 66 ∷ 80 ∷ 1 ∷ 0 ∷ 0 ∷ 0 ∷ 2 ∷ 0 ∷ 7 ∷ 0 ∷ 0 ∷ 0 ∷ 0 ∷ 0 ∷ 0 ∷ 0 ∷ 0 ∷ 1 ∷ 0 ∷ 3 ∷ 0
    ∷ 97 ∷ 112 ∷ 112 ∷ 3 ∷ 0 ∷ 119 ∷ 101 ∷ 98 ∷ 0 ∷ 0 ∷ 0 ∷ 0 ∷ 0 ∷ 0 ∷ 0 ∷ 0 ∷ 0 ∷ 0 ∷ 0 ∷ 0 ∷ 0
    ∷ 2 ∷ 0 ∷ 1 ∷ 0 ∷ 107 ∷ 1 ∷ 0 ∷ 6 ∷ 0 ∷ 112 ∷ 116 ∷ 114 ∷ 97 ∷ 99 ∷ 101 ∷ 3 ∷ 0 ∷ 0 ∷ 1 ∷ 1 ∷ 0
    ∷ 4 ∷ 0 ∷ 47 ∷ 116 ∷ 109 ∷ 112 ∷ 0 ∷ 0 ∷ 0 ∷ 1 ∷ 0 ∷ 97 ∷ 2 ∷ 0 ∷ 4 ∷ 0 ∷ 111 ∷ 112 ∷ 101 ∷ 110
    ∷ 6 ∷ 0 ∷ 111 ∷ 112 ∷ 101 ∷ 110 ∷ 97 ∷ 116 ∷ 1 ∷ 1 ∷ 0 ∷ 2 ∷ 0 ∷ 115 ∷ 104 ∷ 0 ∷ 0 ∷ 0 ∷ 0 ∷ 0
    ∷ 0 ∷ []

abbrev pub bpf_call : SyscallEvent
bpf_call = record {
  syscall = str "bpf";
  comm = str "sh";
  path = str "/tmp/x";
  in_container = true;
  agent_self = false;
  path_truncated = false;
}

-- The same with the path cut behind `/tmp/`.
abbrev pub bpf_call_cut : SyscallEvent
bpf_call_cut = record bpf_call { path = str "/tmp/"; path_truncated = true }

abbrev pub web_pod : WorkloadIdentity
web_pod = record unknown {
  pod = str "p";
  namespace_labels = (str "app", str "web") ∷ [];
  namespace_labels_observed = true;
}

-- The same before the labels of its namespace arrived.
abbrev pub web_pod_early : WorkloadIdentity
web_pod_early = record web_pod { namespace_labels = []; namespace_labels_observed = false }
