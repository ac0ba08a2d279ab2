-- ===== src/Ebpf/Eval/Modes.antt =====
-- crates/ferrum-ebpf/src/eval.rs, `decide_with`: the selector, then the mode.
use ferrum.Prelude.{◌≡◌, ◌∙◌, ◌⊎◌, inl, inr, Bool, true, false, List, ◌≢◌, ◌↔◌, arith}
use ferrum.Identity.{WorkloadIdentity}
use ferrum.Ebpf.Spec.{Mode, Action, allow, Rule, EbpfSpec}
use ferrum.Ebpf.Eval.Selector.{SelectorMatch, selector_match}
use ferrum.Ebpf.Eval.{
  SyscallEvent, Decision, observes_only, cap_for_mode, matched_action_with, selected_decision,
  decide_with,
}
use ferrum.Ebpf.Eval.Best.{IsDecisionOf, matched_action-IsDecisionOf}

abbrev pub IsPassive : Action → Type 0
IsPassive a = (a ≡ allow) ⊎ (a ≡ Action.audit)

selected_decision-IsPassive :
    (spec : EbpfSpec) (m : SelectorMatch) (d : Decision)
    → (spec.disabled ≡ true) ⊎ (observes_only spec.mode ≡ true)
    → IsPassive (selected_decision spec m d).action
unfolding selected_decision
selected_decision-IsPassive spec m d h = ground arith

-- A program that is disabled, or in mode observe or audit, never denies, kills or isolates.
pub decide_with-IsPassive :
    (spec : EbpfSpec) (event : SyscallEvent) (identity : WorkloadIdentity) (unproven : Bool)
    → (spec.disabled ≡ true) ⊎ (observes_only spec.mode ≡ true)
    → IsPassive (decide_with spec event identity unproven).action
unfolding decide_with
decide_with-IsPassive spec event identity unproven =
    selected_decision-IsPassive spec (selector_match spec.selector identity)
      (matched_action_with spec event unproven)

IsDecisionOf-same :
    (event : SyscallEvent) (rules : List Rule) (default_action : Action) (d e : Decision)
    → e.action ≡ d.action
    → e.rule_id ≡ d.rule_id
    → e.path_unknown ≡ d.path_unknown
    → IsDecisionOf event rules default_action d
    → IsDecisionOf event rules default_action e
IsDecisionOf-same event rules default_action d e a b c (inl h) =
    inl (h.0, a ∙ h.1, b ∙ h.2, c ∙ h.3)
IsDecisionOf-same event rules default_action d e a b c (inr h) =
    inr (h.0, h.1, h.2, a ∙ h.3, b ∙ h.4, c ∙ h.5)

cap_for_mode-enforce :
    (mode : Mode) (disabled : Bool) (a : Action)
    → disabled ≡ false
    → mode ≡ Mode.enforce
    → cap_for_mode mode disabled a ≡ a
unfolding cap_for_mode
cap_for_mode-enforce mode disabled a e f = ground arith

-- What is kept of the matched action, where the selector is not refuted.
selected_decision_applied :
    (spec : EbpfSpec) (m : SelectorMatch) (d : Decision)
    → m ≢ SelectorMatch.no_match
    → ((selected_decision spec m d).action ≡ cap_for_mode spec.mode spec.disabled d.action)
      × ((selected_decision spec m d).rule_id ≡ d.rule_id)
      × ((selected_decision spec m d).path_unknown ≡ d.path_unknown)
      × (((selected_decision spec m d).labels_unknown ≡ true) ↔ (m ≡ SelectorMatch.labels_unknown))
unfolding selected_decision
selected_decision_applied spec m d h = ground arith

-- A program that enforces, on a workload that its selector does not rule out: no rule matches and
-- the default is taken, or the first of the highest-ranked matching rules decides; and the decision
-- says `labels_unknown` exactly when the selector could not be resolved.
pub decide_with-IsDecisionOf :
    (spec : EbpfSpec) (event : SyscallEvent) (identity : WorkloadIdentity) (unproven : Bool)
    → spec.disabled ≡ false
    → spec.mode ≡ Mode.enforce
    → selector_match spec.selector identity ≢ SelectorMatch.no_match
    → let d = decide_with spec event identity unproven in
      IsDecisionOf event spec.rules spec.default_action d
      × ((d.labels_unknown ≡ true)
          ↔ (selector_match spec.selector identity ≡ SelectorMatch.labels_unknown))
unfolding decide_with
decide_with-IsDecisionOf spec event identity unproven enabled enforcing applies =
    let m = matched_action_with spec event unproven in
    let s = selector_match spec.selector identity in
    let (a, b, c, l) = selected_decision_applied spec s m applies in
    (
      IsDecisionOf-same event spec.rules spec.default_action m (selected_decision spec s m)
          (a ∙ cap_for_mode-enforce spec.mode spec.disabled m.action enabled enforcing) b c
          (matched_action-IsDecisionOf spec event unproven),
      l,
    )
