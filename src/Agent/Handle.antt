-- ===== src/Agent/Handle.antt =====
-- crates/ferrum-agent/src/lib.rs, `Agent::handle_event_at`: from a record to the event that is
-- exported. The index of cgroups and the answer whether one is proven to be no container are
-- parameters, and so is the clock of the crate `chrono`.
pub mod Exported
use ferrum.Prelude.{
  ℕ, Bool, true, false, not, ◌&&◌, ◌||◌, Option, none, some, List, [], ◌∷◌, ◌++◌, is_empty,
  if◌then◌else◌,
}
use ferrum.Text.{Str, str}
use ferrum.Identity.{WorkloadIdentity, unknown}
use ferrum.Policy.Exceptions.{PolicyExceptionSpec, exception_applies}
use ferrum.Ebpf.Spec.{Action, EbpfSpec}
use ferrum.Ebpf.Eval.{SyscallEvent, Decision, decide_with}
use ferrum.Ebpf.Event.{EventMeta}
use ferrum.Agent.Respond.{Refusal}
use ferrum.Agent.React.{AgentRole, observe, respond, Responses, Host, Reaction, react}

abbrev pub waived_action : Str
waived_action = str "waived"

-- `Action::as_str`.
unfoldable pub as_str : Action → Str
as_str Action.allow = str "allow"
as_str Action.audit = str "audit"
as_str Action.deny = str "deny"
as_str Action.kill = str "kill"
as_str Action.isolate = str "isolate"

unfoldable pub apply_role : AgentRole → Action → Action
apply_role observe Action.kill = Action.audit
apply_role observe Action.isolate = Action.audit
apply_role observe Action.allow = Action.allow
apply_role observe Action.audit = Action.audit
apply_role observe Action.deny = Action.deny
apply_role respond action = action

-- The calls that keep the counters and the windows of degradation, in their order.
pub data Note : Type 0 where
  note_container_flag_disagreement : ℕ → Note
  record_identity_unknown record_labels_unknown record_path_truncated : Note
  record_container_unproven note_export_state : Note

-- The decision before any bundle was loaded.
abbrev pub no_bundle : Decision
no_bundle = record {
  action = Action.deny;
  rule_id = none;
  labels_unknown = false;
  path_unknown = false;
  container_unknown = false;
}

-- `Loader::decide_with`, of the digest and the program of the last bundle that loaded.
unfoldable pub loader_decide_with :
    Option (Str × EbpfSpec) → SyscallEvent → WorkloadIdentity → Bool → Decision
loader_decide_with none event identity unproven = no_bundle
loader_decide_with (some (digest, spec)) event identity unproven =
    decide_with spec event identity unproven

abbrev pub policy_of : Option (Str × EbpfSpec) → Str
policy_of none = str "none"
policy_of (some (digest, spec)) = digest

abbrev pub unwrap_or : Option Str → Str → Str
unwrap_or none s = s
unwrap_or (some t) s = t

abbrev pub enforces : Action → Bool
enforces Action.kill = true
enforces Action.isolate = true
enforces Action.deny = true
enforces _ = false

abbrev pub is_some {ℓ} : {A : Type ℓ} → Option A → Bool
is_some none = false
is_some (some a) = true

-- `iter().find(p)`.
abbrev pub find {ℓ} : {A : Type ℓ} → (A → Bool) → List A → Option A
find p [] = none
find p (x ∷ xs) = let rest = find p xs in if p x then some x else rest

abbrev pub note_if : Bool → Note → List Note
note_if b note = if b then note ∷ [] else []

module _ (Time : Type 0) where
  pub record WaiverRef : Type 0 where
    pub ticket : Str
    pub requested_by : Str
    pub approved_by : Str
    pub expires_at : Time

  pub record EnforcementEvent : Type 0 where
    pub policy : Str
    pub rule : Str
    pub action : Str
    pub image_digest : Option Str
    pub pod : Str
    pub namespace : Str
    pub comm : Str
    pub syscall : Str
    pub pid : ℕ
    pub tgid : ℕ
    pub executed : Bool
    pub respond_error : Option Refusal
    pub labels_unknown : Bool
    pub path_unknown : Bool
    pub container_unknown : Bool
    pub waiver : Option WaiverRef

  pub record Agent : Type 0 where
    pub role : AgentRole
    pub last_good : Option (Str × EbpfSpec)
    pub policy_name : Str
    pub exceptions : List (PolicyExceptionSpec Time)
    pub responses : Responses
    pub notes : List Note

  pub record Handled : Type 0 where
    pub agent : Agent
    pub decision : Decision
    pub event : EnforcementEvent

-- What the agent asks the rest of the node.
pub record Node : Type 0 where
  pub host : Host
  pub lookup_cgroup : ℕ → Option WorkloadIdentity
  pub container_unproven : ℕ → Bool

-- The identity, whether a rule for containers that is skipped is worth reporting, and the calls.
unfoldable pub identify : Node → EventMeta → WorkloadIdentity × Bool × List Note
identify node meta = elim (node.lookup_cgroup meta.cgroup_id) [
  | some id ↦
      if not meta.in_container
      then (id, true, note_container_flag_disagreement meta.cgroup_id ∷ [])
      else (id, false, [])
  | none ↦
      if meta.in_container
      then (unknown, false, record_identity_unknown ∷ [])
      else (unknown, node.container_unproven meta.cgroup_id, [])
]

module _ {Time : Type 0} (before : Time → Time → Bool) (add_days : Time → ℕ → Time) where
  unfoldable pub waiver_applies :
      Agent Time → Decision → WorkloadIdentity → Time → Option (PolicyExceptionSpec Time)
  unfolding exception_applies
  waiver_applies agent decision identity now =
      if is_empty agent.policy_name
      then none
      else if not (enforces decision.action)
      then none
      else elim decision.rule_id [
        | none ↦ none
        | some rule ↦
            find
              (λ spec.
                exception_applies before add_days spec identity.namespace agent.policy_name rule
                  now)
              agent.exceptions
      ]

  abbrev pub waiver_ref : Option (PolicyExceptionSpec Time) → Option (WaiverRef Time)
  waiver_ref none = none
  waiver_ref (some spec) = some (record {
    ticket = spec.ticket;
    requested_by = spec.requested_by;
    approved_by = spec.approved_by;
    expires_at = spec.expires_at;
  })

  abbrev pub demoted : Option (PolicyExceptionSpec Time) → Decision → Decision
  demoted none decision = decision
  demoted (some spec) decision = record decision { action = Action.audit }

  -- The reason that is exported.
  abbrev pub explained : Bool → Option Refusal → Option Refusal
  explained container_unknown none = if container_unknown then some Refusal.not_container else none
  explained container_unknown (some why) = some why

  -- Behind the reaction: what is exported and returned.
  unfoldable pub export :
      Agent Time
      → EventMeta
      → WorkloadIdentity
      → SyscallEvent
      → Option (PolicyExceptionSpec Time)
      → Decision
      → List Note
      → Reaction
      → Handled Time
  unfolding apply_role as_str
  export agent meta identity event waiver decision notes reaction =
      let action = apply_role agent.role decision.action in
      record {
        agent = record agent {
          responses = reaction.responses;
          notes =
              notes
              ++ (note_if decision.container_unknown record_container_unproven
                  ++ (note_export_state ∷ []));
        };
        decision = record decision { action = action };
        event = record {
          policy = policy_of agent.last_good;
          rule = unwrap_or decision.rule_id (str "default");
          action = if is_some waiver then waived_action else as_str action;
          image_digest =
              if is_empty identity.image_digest then none else some identity.image_digest;
          pod = identity.pod;
          namespace = identity.namespace;
          comm = event.comm;
          syscall = event.syscall;
          pid = meta.pid;
          tgid = meta.tgid;
          executed = reaction.executed;
          respond_error = explained decision.container_unknown reaction.error;
          labels_unknown = decision.labels_unknown;
          path_unknown = decision.path_unknown;
          container_unknown = decision.container_unknown;
          waiver = waiver_ref waiver;
        };
      }

  -- Behind the decision.
  unfoldable pub act :
      Node
      → Agent Time
      → EventMeta
      → SyscallEvent
      → Time
      → WorkloadIdentity
      → List Note
      → Decision
      → Handled Time
  unfolding waiver_applies export react
  act node agent meta event now identity notes decision =
      let waiver = waiver_applies agent decision identity now in
      let decided = demoted waiver decision in
      export agent meta identity event waiver decided
        (agent.notes
          ++ (notes
              ++ (note_if decision.labels_unknown record_labels_unknown
                  ++ note_if decision.path_unknown record_path_truncated)))
        (react node.host agent.role agent.responses decided meta identity event)

  unfoldable pub handle_event_at :
      Node → Agent Time → EventMeta → SyscallEvent → Time → Handled Time
  unfolding identify loader_decide_with act
  handle_event_at node agent meta event now =
      let (identity, unproven, notes) = identify node meta in
      act node agent meta event now identity notes
        (loader_decide_with agent.last_good event identity unproven)
