-- ===== src/Agent/Handle/Exported.antt =====
-- crates/ferrum-agent/src/lib.rs, `Agent::handle_event_at`: what the exported event says is true.
use ferrum.Prelude.{
  ℕ, ◌≡◌, refl, ap, subst, ◌+◌, ◌∙◌, ◌⊎◌, inl, inr, Bool, true, false, not, ◌&&◌, ◌||◌, Option,
  none, some, ◌∷◌, if◌then◌else◌, arith,
}
use ferrum.Text.{str}
use ferrum.Identity.{WorkloadIdentity, unknown}
use ferrum.Policy.Exceptions.{PolicyExceptionSpec}
use ferrum.Ebpf.Spec.{Action}
use ferrum.Ebpf.Eval.{SyscallEvent, Decision}
use ferrum.Ebpf.Event.{EventMeta}
use ferrum.Agent.Respond.{Refusal}
use ferrum.Agent.React.{AgentRole, respond, react}
use ferrum.Agent.React.Clear.{IsClear}
use ferrum.Agent.React.Guarded.{react-IsClear}
use ferrum.Agent.React.Accounted.{acts, bit, is_given, tally, react-IsAccounted}
use ferrum.Agent.Handle.{
  waived_action, as_str, apply_role, loader_decide_with, is_some, Agent, Handled, Node, identify,
  waiver_applies, demoted, explained, export, act, handle_event_at,
}

-- The identity that the record is joined to, and the decision on it before any waiver.
abbrev pub identity_of : Node → EventMeta → WorkloadIdentity
identity_of node meta = (identify node meta).0

abbrev pub decided : {Time : Type 0} → Node → Agent Time → EventMeta → SyscallEvent → Decision
decided node agent meta event =
    loader_decide_with agent.last_good event (identity_of node meta) (identify node meta).1

module _ {Time : Type 0} (before : Time → Time → Bool) (add_days : Time → ℕ → Time) where
  -- No exception waives the decision.
  abbrev pub Unwaived : Node → Agent Time → EventMeta → SyscallEvent → Time → Type 0
  Unwaived node agent meta event now =
      waiver_applies before add_days agent (decided node agent meta event) (identity_of node meta)
        now
      ≡ none

  -- The event says that a signal was sent, and the signal was the one to the thread group of the
  -- event.
  pub record IsKill (node : Node) (agent : Agent Time) (meta : EventMeta) (event : SyscallEvent)
      (now : Time) (handled : Handled Time) : Type 0 where
    pub signal : handled.agent.responses.signals ≡ meta.tgid ∷ agent.responses.signals
    pub here : node.host.cgroup_id meta.tgid ≡ some meta.cgroup_id
    pub kills : (decided node agent meta event).action ≡ Action.kill
    pub unwaived : Unwaived node agent meta event now
    pub clear :
        IsClear node.host.own agent.role
          (decided node agent meta event)
          meta
          (identity_of node meta)
          event
    pub named : handled.event.action ≡ str "kill"

  demoted-kill :
      (waiver : Option (PolicyExceptionSpec Time)) (decision : Decision)
      → (demoted before add_days waiver decision).action ≡ Action.kill
      → (waiver ≡ none) × (decision.action ≡ Action.kill)
  demoted-kill none decision h = (refl, h)
  demoted-kill (some spec) decision h = cc

  named_kill :
      (waiver : Option (PolicyExceptionSpec Time)) (decision : Decision) (role : AgentRole)
      → waiver ≡ none
      → decision.action ≡ Action.kill
      → role ≡ respond
      → (if is_some waiver
          then waived_action
          else as_str (apply_role role (demoted before add_days waiver decision).action))
        ≡ str "kill"
  unfolding as_str apply_role
  named_kill none decision role w k r =
      ap (λ q. as_str (apply_role q decision.action)) r ∙ ap as_str k
  named_kill (some spec) decision role w k r = cc

  -- A record that is handled either signals nothing, and its event does not say that a reaction
  -- ran, or it signals the one thread group of the record, once: then the loaded program decided
  -- to kill, no exception waives it, every guard was passed, the target is still in the cgroup of
  -- the record, and the event names the kill.
  pub handle_event_at-IsKill :
      (node : Node) (agent : Agent Time) (meta : EventMeta) (event : SyscallEvent) (now : Time)
      → (((handle_event_at before add_days node agent meta event now).agent.responses.signals
            ≡ agent.responses.signals)
          × ((handle_event_at before add_days node agent meta event now).event.executed ≡ false))
        ⊎ IsKill node agent meta event now
            (handle_event_at before add_days node agent meta event now)
  unfolding handle_event_at act export
  handle_event_at-IsKill node agent meta event now =
      let decision = decided node agent meta event in
      let waiver = waiver_applies before add_days agent decision (identity_of node meta) now in
      elim (react-IsClear node.host agent.role agent.responses
        (demoted before add_days waiver decision) meta (identity_of node meta) event) [
          | inl u ↦ inl (u.signals, u.executed)
          | inr (sent, kill, clear) ↦
              let (free, kills) = demoted-kill waiver decision kill in
              inr (record {
                signal = sent.signal;
                here = sent.here;
                kills = kills;
                unwaived = free;
                clear =
                    subst
                      (λ w.
                        IsClear node.host.own agent.role (demoted before add_days w decision) meta
                          (identity_of node meta) event)
                      free clear;
                named = named_kill waiver decision agent.role free kills clear.enabled;
              })
        ]

  -- What the counters and the reason of an event say.
  pub record IsExplained (acting container_unknown : Bool) (agent : Agent Time)
      (handled : Handled Time) : Type 0 where
    pub counted : tally handled.agent.responses ≡ tally agent.responses + bit acting
    pub kills : handled.agent.responses.kill ≡ agent.responses.kill + bit handled.event.executed
    pub explained :
        is_given handled.event.respond_error
        ≡ ((acting && not handled.event.executed) || container_unknown)

  explained_given :
      (container_unknown : Bool) (error : Option Refusal)
      → is_given (explained before add_days container_unknown error)
        ≡ (is_given error || container_unknown)
  explained_given true none = refl
  explained_given false none = refl
  explained_given true (some why) = refl
  explained_given false (some why) = refl

  demoted-acts :
      (waiver : Option (PolicyExceptionSpec Time)) (decision : Decision)
      → (acts (demoted before add_days waiver decision).action
          ≡ (acts decision.action && not (is_some waiver)))
        × ((demoted before add_days waiver decision).container_unknown ≡ decision.container_unknown)
  demoted-acts none decision = (and_true (acts decision.action), refl)
    where
      and_true : (a : Bool) → a ≡ (a && true)
      and_true a = ground arith
  demoted-acts (some spec) decision = (and_false (acts decision.action), refl)
    where
      and_false : (a : Bool) → false ≡ (a && false)
      and_false a = ground arith

  -- A decision that is to be acted on and that no exception waives raises exactly one of the
  -- counters of kills, of refusals, of skips by role and of failures, that of kills exactly where
  -- the event says that the reaction ran; and the event gives a reason exactly where such a
  -- reaction did not run or a rule was skipped on a caller not proven to be in no container.
  pub handle_event_at-IsExplained :
      (node : Node) (agent : Agent Time) (meta : EventMeta) (event : SyscallEvent) (now : Time)
      → IsExplained
          (acts (decided node agent meta event).action
            && not (
                is_some (
                  waiver_applies before add_days agent
                    (decided node agent meta event)
                    (identity_of node meta)
                    now)))
          (decided node agent meta event).container_unknown
          agent
          (handle_event_at before add_days node agent meta event now)
  unfolding handle_event_at act export
  handle_event_at-IsExplained node agent meta event now =
      let decision = decided node agent meta event in
      let waiver = waiver_applies before add_days agent decision (identity_of node meta) now in
      let shown = demoted before add_days waiver decision in
      let reaction =
        react node.host agent.role agent.responses shown meta (identity_of node meta) event in
      let a =
        react-IsAccounted node.host agent.role agent.responses shown meta (identity_of node meta)
          event in
      let (same, unknown) = demoted-acts waiver decision in
      record {
        counted = a.counted ∙ ap (λ b. tally agent.responses + bit b) same;
        kills = a.kills;
        explained =
            explained_given shown.container_unknown reaction.error
            ∙ ap (λ b. b || shown.container_unknown) a.explained
            ∙ (λ i. (same i && not reaction.executed) || unknown i);
      }
