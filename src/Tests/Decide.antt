-- ===== src/Tests/Decide.antt =====
-- The decisions of the sample program.
use mathlib.Core.List.{perm_append_comm}
use ferrum.Prelude.{◌≡◌, refl, ◌≤◌, ◌≢◌, inl, inr, ◌↔◌, true, false, [], ◌∷◌, any, arith}
use ferrum.Text.{str, starts_with, ends_with, str_eq}
use ferrum.Ebpf.Spec.{Mode, Action, rank, EbpfSpec, is_cluster_wide, is_namespaced}
use ferrum.Ebpf.Eval.{
  SyscallEvent, matched_action_with, decide_with, rule_matches, RuleMatch, prefix_step, prefix_hit,
  path_unreadable, suffix_step, suffix_hit, flag_step, walk, walk_step, decision_of,
}
use ferrum.Ebpf.Eval.Selector.{
  SelectorMatch, selector_match, needs_unobserved, all_match, label_selector_matches, image_matches,
}
use ferrum.Labels.{get}
use ferrum.Identity.{is_unknown}
use ferrum.Ebpf.Eval.Best.{IsDecisionOf, matched_action-IsDecisionOf}
use ferrum.Ebpf.Eval.Order.{matched_action-perm}
use ferrum.Ebpf.Eval.Container.{skipped_above, container_unknown_exact}
use ferrum.Ebpf.Eval.Modes.{IsPassive, decide_with-IsPassive, decide_with-IsDecisionOf}
use ferrum.Ebpf.Eval.Unobserved.{IsCompletedBy, selector_match-fail_closed}
use ferrum.Ebpf.Eval.Truncated.{IsHeadOf, outcome, rule_matches-truncated, matched_action-truncated}
use ferrum.Tests.Samples

evaluator : Unit {0}
unfolding matched_action_with rule_matches prefix_step prefix_hit path_unreadable suffix_step
    suffix_hit flag_step walk walk_step decision_of starts_with ends_with str_eq
evaluator = tt

killed : (matched_action_with Samples.program Samples.bpf_call false).action ≡ Action.kill
unfolding evaluator
killed = refl

abbrev turned : EbpfSpec
turned = record Samples.program { rules = Samples.audit_rule ∷ Samples.kill_rule ∷ [] }

abbrev observing : EbpfSpec
observing = record Samples.program { mode = Mode.observe }

-- A call whose record does not say that it is in a container.
abbrev host_call : SyscallEvent
host_call = record Samples.bpf_call { in_container = false }

matched_action-IsDecisionOf_example :
    IsDecisionOf Samples.bpf_call Samples.program.rules Samples.program.default_action
      (matched_action_with Samples.program Samples.bpf_call false)
matched_action-IsDecisionOf_example =
    matched_action-IsDecisionOf Samples.program Samples.bpf_call false

matched_action-perm_example :
    (matched_action_with Samples.program Samples.bpf_call false).action
    ≡ (matched_action_with turned Samples.bpf_call false).action
matched_action-perm_example =
    matched_action-perm Samples.program turned Samples.bpf_call false
      (perm_append_comm (Samples.kill_rule ∷ []) (Samples.audit_rule ∷ [])) refl

container_unknown_exact_example :
    let d = matched_action_with Samples.program host_call true in
    d.container_unknown ≡ any (skipped_above true host_call (rank d.action)) Samples.program.rules
container_unknown_exact_example = container_unknown_exact Samples.program host_call true

decide_with-IsPassive_example :
    IsPassive (decide_with observing Samples.bpf_call Samples.web_pod false).action
decide_with-IsPassive_example =
    decide_with-IsPassive observing Samples.bpf_call Samples.web_pod false (inr refl)

selector : Unit {0}
unfolding selector_match is_cluster_wide is_namespaced is_unknown needs_unobserved all_match
    label_selector_matches get image_matches str_eq
selector = tt

early_unknown :
    selector_match Samples.program.selector Samples.web_pod_early ≡ SelectorMatch.labels_unknown
unfolding selector
early_unknown = refl

early_applies :
    selector_match Samples.program.selector Samples.web_pod_early ≢ SelectorMatch.no_match
early_applies h = cc early_unknown

decide_with-IsDecisionOf_example :
    let d = decide_with Samples.program Samples.bpf_call Samples.web_pod_early false in
    IsDecisionOf Samples.bpf_call Samples.program.rules Samples.program.default_action d
    × ((d.labels_unknown ≡ true) ↔ (
        selector_match Samples.program.selector Samples.web_pod_early
        ≡ SelectorMatch.labels_unknown))
decide_with-IsDecisionOf_example =
    decide_with-IsDecisionOf Samples.program Samples.bpf_call Samples.web_pod_early false refl refl
      early_applies

later : selector_match Samples.program.selector Samples.web_pod ≡ SelectorMatch.full_match
unfolding selector
later = refl

completed : IsCompletedBy Samples.web_pod_early Samples.web_pod
completed = record {
  pod = refl;
  workload = refl;
  image = refl;
  digest = refl;
  cluster = λ h. refl;
  namespace = λ h. cc;
  service_account = λ h. refl;
}

selector_match-fail_closed_example :
    selector_match Samples.program.selector Samples.web_pod_early ≢ SelectorMatch.no_match
selector_match-fail_closed_example =
    selector_match-fail_closed Samples.program.selector Samples.web_pod_early Samples.web_pod
      completed later

cut : IsHeadOf Samples.bpf_call_cut Samples.bpf_call
cut = record {
  syscall = refl;
  comm = refl;
  in_container = refl;
  agent_self = refl;
  cut = refl;
  whole = refl;
  tail = str "x";
  path = refl;
}

rule_applies : rule_matches Samples.kill_rule Samples.bpf_call ≢ RuleMatch.no_match
unfolding evaluator
rule_applies h = cc

rule_matches-truncated_example :
    outcome (rule_matches Samples.kill_rule Samples.bpf_call_cut)
    ≡ outcome (rule_matches Samples.kill_rule Samples.bpf_call)
rule_matches-truncated_example =
    rule_matches-truncated Samples.kill_rule Samples.bpf_call_cut Samples.bpf_call cut
      (inl (omega arith, tt)) rule_applies

matched_action-truncated_example :
    rank (matched_action_with Samples.program Samples.bpf_call false).action
    ≤ rank (matched_action_with Samples.program Samples.bpf_call_cut false).action
matched_action-truncated_example =
    matched_action-truncated Samples.program Samples.bpf_call_cut Samples.bpf_call false cut
      (inl (omega arith, tt), (inl tt, tt)) (inl refl)
