-- ===== src/Ebpf/Eval.antt =====
-- crates/ferrum-ebpf/src/eval.rs: the decision on one record.
pub mod Selector
pub mod Best
pub mod Order
pub mod Container
pub mod Modes
pub mod Unobserved
pub mod Truncated
use ferrum.Prelude.{
  ℕ, max, Bool, true, false, ◌&&◌, ◌||◌, not, Option, none, some, List, [], ◌∷◌, is_empty, ltb,
  if◌then◌else◌, any,
}
use ferrum.Text.{Str, str_eq, starts_with, ends_with}
use ferrum.Identity.{WorkloadIdentity}
use ferrum.Ebpf.Spec.{Mode, Action, observe, enforce, allow, rank, Rule, EbpfSpec}
use Selector.{SelectorMatch, selector_match}

pub record SyscallEvent : Type 0 where
  pub syscall : Str
  pub comm : Str
  pub path : Str
  pub in_container : Bool
  pub agent_self : Bool
  pub path_truncated : Bool

pub record Decision : Type 0 where
  pub action : Action
  pub rule_id : Option Str
  pub labels_unknown : Bool
  pub path_unknown : Bool
  pub container_unknown : Bool

pub data RuleMatch : Type 0 where
  no_match skipped_container : RuleMatch
  matched : Bool → RuleMatch

-- `list.is_empty() || list.iter().any(|s| s == value)`.
abbrev pub names : List Str → Str → Bool
names list value = is_empty list || any (λ s. str_eq s value) list

unfoldable pub prefix_hit : Rule → SyscallEvent → Bool
prefix_hit rule event = any (λ p. not (is_empty p) && starts_with event.path p) rule.path_prefix

unfoldable pub suffix_hit : Rule → SyscallEvent → Bool
suffix_hit rule event = any (λ p. not (is_empty p) && ends_with event.path p) rule.path_suffix

unfoldable pub path_unreadable : SyscallEvent → Bool
path_unreadable event = event.path_truncated && is_empty event.path

-- The tests on the path, in their order: `none` is the early return, `some` the flag so far.
unfoldable pub prefix_step : Rule → SyscallEvent → Option Bool
prefix_step rule event =
    if is_empty rule.path_prefix
    then some false
    else if prefix_hit rule event
    then some false
    else if not (path_unreadable event)
    then none
    else some true

unfoldable pub suffix_step : Rule → SyscallEvent → Bool → Option Bool
suffix_step rule event path_unknown =
    if is_empty rule.path_suffix
    then some path_unknown
    else if suffix_hit rule event
    then some path_unknown
    else if not event.path_truncated
    then none
    else some true

-- The two tests behind the path.
unfoldable pub flag_step : Rule → SyscallEvent → Bool → RuleMatch
flag_step rule event path_unknown =
    if rule.not_agent_self && event.agent_self
    then no_match
    else if rule.container_only && not event.in_container
    then skipped_container
    else matched path_unknown

abbrev pub after_suffix : Rule → SyscallEvent → Option Bool → RuleMatch
after_suffix rule event none = no_match
after_suffix rule event (some path_unknown) = flag_step rule event path_unknown

abbrev pub after_prefix : Rule → SyscallEvent → Option Bool → RuleMatch
after_prefix rule event none = no_match
after_prefix rule event (some path_unknown) =
    after_suffix rule event (suffix_step rule event path_unknown)

unfoldable pub rule_matches : Rule → SyscallEvent → RuleMatch
rule_matches rule event =
    if not (names rule.syscalls event.syscall)
    then no_match
    else if not (names rule.comm_in event.comm)
    then no_match
    else after_prefix rule event (prefix_step rule event)

-- The loop of `matched_action_with`: `best` and `skipped_container`.
pub record Walk : Type 0 where
  pub best : Option (Rule × Bool × ℕ)
  pub skipped : Option ℕ

abbrev pub start : Walk
start = record { best = none; skipped = none }

abbrev pub max_skipped : Option ℕ → ℕ → Option ℕ
max_skipped none r = some r
max_skipped (some b) r = some (max b r)

abbrev pub takes : Option (Rule × Bool × ℕ) → ℕ → Bool
takes none r = true
takes (some (rule, unknown, best_rank)) r = ltb best_rank r

unfoldable pub walk_step : Bool → SyscallEvent → Walk → Rule → Walk
walk_step unproven event w rule = elim (rule_matches rule event) [
  | no_match ↦ w
  | skipped_container ↦
      if unproven then record w { skipped = max_skipped w.skipped (rank rule.action) } else w
  | matched unknown ↦
      if takes w.best (rank rule.action)
      then record w { best = some (rule, unknown, rank rule.action) }
      else w
]

unfoldable pub walk : Bool → SyscallEvent → Walk → List Rule → Walk
unfolding walk_step
walk unproven event w [] = w
walk unproven event w (rule ∷ rules) = walk unproven event (walk_step unproven event w rule) rules

abbrev pub taken_rank : Option (Rule × Bool × ℕ) → Action → ℕ
taken_rank none default_action = rank default_action
taken_rank (some (rule, unknown, r)) default_action = r

abbrev pub is_some_and : Option ℕ → (ℕ → Bool) → Bool
is_some_and none p = false
is_some_and (some n) p = p n

unfoldable pub decision_of : Walk → Action → Decision
decision_of w default_action =
    let container_unknown = is_some_and w.skipped (ltb (taken_rank w.best default_action)) in
    elim w.best [
      | some (rule, unknown, r) ↦ record {
        action = rule.action;
        rule_id = some rule.id;
        labels_unknown = false;
        path_unknown = unknown;
        container_unknown = container_unknown;
      }
      | none ↦ record {
        action = default_action;
        rule_id = none;
        labels_unknown = false;
        path_unknown = false;
        container_unknown = container_unknown;
      }
    ]

unfoldable pub matched_action_with : EbpfSpec → SyscallEvent → Bool → Decision
matched_action_with spec event unproven =
    decision_of (walk unproven event start spec.rules) spec.default_action

unfoldable pub matched_action : EbpfSpec → SyscallEvent → Decision
matched_action spec event = matched_action_with spec event false

abbrev cap : Action → Action
cap allow = allow
cap Action.audit = Action.audit
cap _ = Action.audit

abbrev pub observes_only : Mode → Bool
observes_only observe = true
observes_only Mode.audit = true
observes_only enforce = false

unfoldable pub cap_for_mode : Mode → Bool → Action → Action
cap_for_mode mode disabled action = if disabled || observes_only mode then cap action else action

-- What a selector that does not match decides.
abbrev pub not_selected : Decision
not_selected = record {
  action = allow;
  rule_id = none;
  labels_unknown = false;
  path_unknown = false;
  container_unknown = false;
}

-- The end of `decide_with`, where the program applies.
unfoldable pub apply_mode : EbpfSpec → Bool → Decision → Decision
unfolding cap_for_mode
apply_mode spec labels_unknown decision = record decision {
  action = cap_for_mode spec.mode spec.disabled decision.action;
  labels_unknown = labels_unknown;
}

-- The outcome of the selector applied to the matched action.
unfoldable pub selected_decision : EbpfSpec → SelectorMatch → Decision → Decision
unfolding apply_mode
selected_decision spec SelectorMatch.no_match decision = not_selected
selected_decision spec SelectorMatch.full_match decision = apply_mode spec false decision
selected_decision spec SelectorMatch.labels_unknown decision = apply_mode spec true decision

unfoldable pub decide_with : EbpfSpec → SyscallEvent → WorkloadIdentity → Bool → Decision
decide_with spec event identity unproven =
    selected_decision spec (selector_match spec.selector identity)
      (matched_action_with spec event unproven)

unfoldable pub decide : EbpfSpec → SyscallEvent → WorkloadIdentity → Decision
decide spec event identity = decide_with spec event identity false
