-- ===== src/Agent/React.antt =====
-- crates/ferrum-agent/src/lib.rs, `Agent::react`: what follows from a decision.
pub mod Clear
pub mod Guarded
pub mod Accounted
use ferrum.Prelude.{
  ℕ, ◌+◌, Bool, true, false, ◌&&◌, ◌||◌, Option, none, some, List, [], ◌∷◌, ◌==◌, if◌then◌else◌,
}
use ferrum.Text.{Str}
use ferrum.Identity.{WorkloadIdentity, is_unknown}
use ferrum.Ebpf.Spec.{Action}
use ferrum.Ebpf.Eval.{SyscallEvent, Decision}
use ferrum.Ebpf.Event.{EventMeta}
use ferrum.Agent.Respond
use ferrum.Agent.Respond.{Refusal, refuse_reason}

pub data AgentRole : Type 0 where
  observe respond : AgentRole

abbrev pub respond_enabled : AgentRole → Bool
respond_enabled observe = false
respond_enabled respond = true

-- The counters of the agent that `react` raises, and the thread groups that were handed to the
-- responder, the last one first.
pub record Responses : Type 0 where
  pub kill : ℕ
  pub refused : ℕ
  pub role_skipped : ℕ
  pub failed : ℕ
  pub stale_target : ℕ
  pub target_confirmed : ℕ
  pub target_unprovable : ℕ
  pub signals : List ℕ

-- What the node answers: the agent's own pid, the check of the target, and the responder, whose
-- answer is `none` where the signal was sent and the text of the error elsewhere.
pub record Host : Type 0 where
  pub own : ℕ
  pub unprovable : Option Str
  pub cgroup_id : ℕ → Option ℕ
  pub responder : Option (ℕ → Option Str)

pub record Reaction : Type 0 where
  pub responses : Responses
  pub executed : Bool
  pub error : Option Refusal

abbrev pub nothing : Responses → Reaction
nothing r = record { responses = r; executed = false; error = none }

abbrev pub refused_as : Responses → Refusal → Reaction
refused_as r why = record {
  responses = record r { refused = r.refused + 1 };
  executed = false;
  error = some why;
}

-- The call of the responder and what is counted of its answer.
abbrev pub answered : Responses → Option Str → Reaction
answered r none = record {
  responses = record r { kill = r.kill + 1 };
  executed = true;
  error = none;
}
answered r (some err) = record {
  responses = record r { failed = r.failed + 1 };
  executed = false;
  error = some (Refusal.responder_failed err);
}

abbrev pub deliver : Option (ℕ → Option Str) → ℕ → Responses → Reaction
deliver none tgid r = refused_as r Refusal.no_responder
deliver (some kill) tgid r = answered (record r { signals = tgid ∷ r.signals }) (kill tgid)

-- The cgroup that the target is in now.
abbrev pub confirmed : Host → EventMeta → Responses → Option ℕ → Reaction
confirmed host meta r none =
    refused_as (record r { stale_target = r.stale_target + 1 }) Refusal.target_gone
confirmed host meta r (some current) =
    if current == meta.cgroup_id
    then deliver host.responder meta.tgid (record r { target_confirmed = r.target_confirmed + 1 })
    else refused_as (record r { stale_target = r.stale_target + 1 }) Refusal.stale_target

abbrev pub proven : Host → EventMeta → Responses → Option Str → Reaction
proven host meta r (some why) =
    refused_as (record r { target_unprovable = r.target_unprovable + 1 })
      (Refusal.target_unprovable why)
proven host meta r none = confirmed host meta r (host.cgroup_id meta.tgid)

-- Behind the guards.
abbrev pub after_guards : Host → EventMeta → Action → Responses → Reaction
after_guards host meta Action.isolate r = refused_as r Refusal.isolate
after_guards host meta _ r = proven host meta r host.unprovable

abbrev pub guarded : Host → EventMeta → Action → Responses → Option Refusal → Reaction
guarded host meta action r none = after_guards host meta action r
guarded host meta action r (some Refusal.role) = record {
  responses = record r { role_skipped = r.role_skipped + 1 };
  executed = false;
  error = some Refusal.role;
}
guarded host meta action r (some why) = refused_as r why

unfoldable pub guard :
    Host → AgentRole → Decision → EventMeta → WorkloadIdentity → SyscallEvent → Option Refusal
unfolding refuse_reason is_unknown
guard host role decision meta identity event =
    refuse_reason host.own (respond_enabled role) meta.tgid (meta.agent_self || event.agent_self)
      (meta.in_container && event.in_container) (is_unknown identity) decision.labels_unknown

unfoldable pub react :
    Host → AgentRole → Responses → Decision → EventMeta → WorkloadIdentity → SyscallEvent → Reaction
unfolding guard
react host role r decision meta identity event = elim decision.action [
  | Action.allow ↦ nothing r
  | Action.audit ↦ nothing r
  | Action.deny ↦ refused_as r Refusal.deny_not_enforceable
  | Action.kill ↦ guarded host meta Action.kill r (guard host role decision meta identity event)
  | Action.isolate ↦
      guarded host meta Action.isolate r (guard host role decision meta identity event)
]
