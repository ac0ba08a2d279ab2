-- ===== src/Tests/Reactions.antt =====
-- Records handled by the agent at concrete inputs. Moments are numbers.
use ferrum.Prelude.{
  ℕ, ◌+◌, ◌≡◌, refl, ◌⊎◌, true, false, ◌&&◌, not, none, some, [], ◌∷◌, ltb, ◌==◌, if◌then◌else◌,
}
use ferrum.Text.{str, str_eq, starts_with}
use ferrum.Ebpf.Spec.{Action, is_cluster_wide, is_namespaced}
use ferrum.Labels.{get}
use ferrum.Ebpf.Eval.Selector.{
  selector_match, needs_unobserved, all_match, label_selector_matches, image_matches,
}
use ferrum.Ebpf.Eval.{
  Decision, decide_with, matched_action_with, decision_of, walk, rule_matches, selected_decision,
  prefix_step, prefix_hit, suffix_step, flag_step,
}
use ferrum.Ebpf.Event.{EventMeta}
use ferrum.Agent.React.{respond, Responses, Host, Reaction, react}
use ferrum.Agent.React.Clear.{IsClear}
use ferrum.Agent.React.Guarded.{IsSent, IsUnsent, react-IsClear}
use ferrum.Agent.React.Accounted.{acts, IsAccounted, react-IsAccounted}
use ferrum.Agent.Handle.{Agent, Handled, Node, is_some, waiver_applies, handle_event_at}
use ferrum.Agent.Handle.Exported.{
  identity_of, decided, IsKill, handle_event_at-IsKill, IsExplained, handle_event_at-IsExplained,
}
use ferrum.Tests.Samples.{program, bpf_call, web_pod}

abbrev quiet : Responses
quiet = record {
  kill = 0;
  refused = 0;
  role_skipped = 0;
  failed = 0;
  stale_target = 0;
  target_confirmed = 0;
  target_unprovable = 0;
  signals = [];
}

-- The thread group 40 is in the cgroup 7, and a signal is always sent.
abbrev host : Host
host = record {
  own = 9;
  unprovable = none;
  cgroup_id = λ tgid. if tgid == 40 then some 7 else none;
  responder = some (λ tgid. none);
}

abbrev meta : EventMeta
meta = record {
  cgroup_id = 7;
  pid = 41;
  tgid = 40;
  in_container = true;
  agent_self = false;
  path_truncated = false;
}

abbrev killing : Decision
killing = record {
  action = Action.kill;
  rule_id = some (str "k");
  labels_unknown = false;
  path_unknown = false;
  container_unknown = false;
}

abbrev reaction : Reaction
reaction = react host respond quiet killing meta web_pod bpf_call

killed : (reaction.responses.signals ≡ 40 ∷ []) × (reaction.executed ≡ true)
unfolding react
killed = (refl, refl)

react-IsClear_example :
    IsUnsent quiet reaction
    ⊎ IsSent host meta quiet reaction
      × (Action.kill ≡ Action.kill)
      × IsClear 9 respond killing meta web_pod bpf_call
react-IsClear_example = react-IsClear host respond quiet killing meta web_pod bpf_call

react-IsAccounted_example : IsAccounted true quiet reaction
react-IsAccounted_example = react-IsAccounted host respond quiet killing meta web_pod bpf_call

abbrev agent : Agent ℕ
agent = record {
  role = respond;
  last_good = some (str "sha", program);
  policy_name = str "p";
  exceptions = [];
  responses = quiet;
  notes = [];
}

abbrev node : Node
node = record {
  host = host;
  lookup_cgroup = λ cgroup. if cgroup == 7 then some web_pod else none;
  container_unproven = λ cgroup. false;
}

abbrev add_days : ℕ → ℕ → ℕ
add_days t d = t + d

abbrev handled : Handled ℕ
handled = handle_event_at ltb add_days node agent meta bpf_call 100

handle_event_at-IsKill_example :
    ((handled.agent.responses.signals ≡ []) × (handled.event.executed ≡ false))
    ⊎ IsKill ltb add_days node agent meta bpf_call 100 handled
handle_event_at-IsKill_example = handle_event_at-IsKill ltb add_days node agent meta bpf_call 100

handle_event_at-IsExplained_example :
    IsExplained ltb add_days
      (acts (decided node agent meta bpf_call).action
        && not (
            is_some (
              waiver_applies ltb add_days agent
                (decided node agent meta bpf_call)
                (identity_of node meta)
                100)))
      (decided node agent meta bpf_call).container_unknown
      agent
      handled
handle_event_at-IsExplained_example =
    handle_event_at-IsExplained ltb add_days node agent meta bpf_call 100

exported : (handled.agent.responses.signals ≡ 40 ∷ []) × (handled.event.action ≡ str "kill")
unfolding handle_event_at decide_with selector_match is_cluster_wide is_namespaced needs_unobserved
    all_match label_selector_matches get str_eq image_matches matched_action_with decision_of walk
    rule_matches starts_with selected_decision prefix_step prefix_hit suffix_step flag_step
exported = (refl, refl)
