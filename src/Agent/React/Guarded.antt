-- ===== src/Agent/React/Guarded.antt =====
-- crates/ferrum-agent/src/lib.rs, `Agent::react`: what must hold for a process to be signalled.
use ferrum.Prelude.{
  ℕ, ◌+◌, ◌≡◌, refl, ap, ◌∙◌, ◌⊎◌, inl, inr, Bool, true, false, Option, none, some, ◌∷◌, ◌==◌,
  if◌then◌else◌, arith,
}
use ferrum.Text.{Str}
use ferrum.Identity.{WorkloadIdentity}
use ferrum.Ebpf.Spec.{Action}
use ferrum.Ebpf.Eval.{SyscallEvent, Decision}
use ferrum.Ebpf.Event.{EventMeta}
use ferrum.Agent.Respond.{Refusal}
use ferrum.Agent.React.{
  AgentRole, Responses, Host, Reaction, nothing, refused_as, answered, deliver, confirmed, proven,
  guarded, guard, react,
}
use ferrum.Agent.React.Clear.{IsClear, guard-IsClear}

-- What the responder was handed, and that it was asked only of a target that was checked.
pub record IsSent (host : Host) (meta : EventMeta) (r : Responses) (reaction : Reaction)
    : Type 0 where
  pub signal : reaction.responses.signals ≡ meta.tgid ∷ r.signals
  pub provable : host.unprovable ≡ none
  pub here : host.cgroup_id meta.tgid ≡ some meta.cgroup_id

pub record IsUnsent (r : Responses) (reaction : Reaction) : Type 0 where
  pub signals : reaction.responses.signals ≡ r.signals
  pub executed : reaction.executed ≡ false

deliver-sends :
    (responder : Option (ℕ → Option Str)) (tgid : ℕ) (r : Responses)
    → IsUnsent r (deliver responder tgid r)
      ⊎ ((deliver responder tgid r).responses.signals ≡ tgid ∷ r.signals)
deliver-sends none tgid r = inl (record { signals = refl; executed = refl })
deliver-sends (some kill) tgid r = inr (sent (kill tgid))
  where
    sent :
        (answer : Option Str)
        → (answered (record r { signals = tgid ∷ r.signals }) answer).responses.signals
          ≡ tgid ∷ r.signals
    sent none = refl
    sent (some err) = refl

confirmed-IsSent :
    (host : Host) (meta : EventMeta) (r : Responses) (current : Option ℕ)
    → host.unprovable ≡ none
    → host.cgroup_id meta.tgid ≡ current
    → IsUnsent r (confirmed host meta r current)
      ⊎ IsSent host meta r (confirmed host meta r current)
confirmed-IsSent host meta r none p e = inl (record { signals = refl; executed = refl })
confirmed-IsSent host meta r (some current) p e = pick (current == meta.cgroup_id) refl
  where
    same : (m n : ℕ) → (m == n) ≡ true → m ≡ n
    same m n e = ground (arith, e)

    next : Responses
    next = record r { target_confirmed = r.target_confirmed + 1 }

    pick :
        (b : Bool)
        → (current == meta.cgroup_id) ≡ b
        → IsUnsent r (
            if b
            then deliver host.responder meta.tgid next
            else refused_as (record r { stale_target = r.stale_target + 1 }) Refusal.stale_target)
          ⊎ IsSent host meta r (
              if b
              then deliver host.responder meta.tgid next
              else refused_as (record r { stale_target = r.stale_target + 1 }) Refusal.stale_target)
    pick false f = inl (record { signals = refl; executed = refl })
    pick true f = elim (deliver-sends host.responder meta.tgid next) [
      | inl u ↦ inl (record { signals = u.signals; executed = u.executed })
      | inr s ↦
          inr (record {
            signal = s;
            provable = p;
            here = e ∙ ap some (same current meta.cgroup_id f);
          })
    ]

proven-IsSent :
    (host : Host) (meta : EventMeta) (r : Responses) (unprovable : Option Str)
    → host.unprovable ≡ unprovable
    → IsUnsent r (proven host meta r unprovable)
      ⊎ IsSent host meta r (proven host meta r unprovable)
proven-IsSent host meta r none p = confirmed-IsSent host meta r (host.cgroup_id meta.tgid) p refl
proven-IsSent host meta r (some why) p = inl (record { signals = refl; executed = refl })

-- A process is signalled only where the decision is to kill, the agent may respond, the caller is
-- a container's and not the agent, its workload is known and its scope established, and the
-- target is a signalable process other than the agent that is still in the cgroup of the event;
-- elsewhere no signal is sent and nothing is said to have run.
pub react-IsClear :
    (host : Host) (role : AgentRole) (r : Responses) (decision : Decision) (meta : EventMeta)
    (identity : WorkloadIdentity) (event : SyscallEvent)
    → IsUnsent r (react host role r decision meta identity event)
      ⊎ IsSent host meta r (react host role r decision meta identity event)
        × (decision.action ≡ Action.kill)
        × IsClear host.own role decision meta identity event
unfolding react
react-IsClear host role r decision meta identity event = pick decision.action refl
  where
    why : Option Refusal
    why = guard host role decision meta identity event

    isolated : (o : Option Refusal) → IsUnsent r (guarded host meta Action.isolate r o)
    isolated none = record { signals = refl; executed = refl }
    isolated (some reason) = reasoned reason
      where
        reasoned :
            (reason : Refusal) → IsUnsent r (guarded host meta Action.isolate r (some reason))
        reasoned Refusal.role = record { signals = refl; executed = refl }
        reasoned reason = record { signals = refl; executed = refl }

    killed :
        (o : Option Refusal)
        → why ≡ o
        → decision.action ≡ Action.kill
        → IsUnsent r (guarded host meta Action.kill r o)
          ⊎ IsSent host meta r (guarded host meta Action.kill r o)
            × (decision.action ≡ Action.kill)
            × IsClear host.own role decision meta identity event
    killed none e k = elim (proven-IsSent host meta r host.unprovable refl) [
      | inl u ↦ inl u
      | inr s ↦ inr (s, k, guard-IsClear host role decision meta identity event e)
    ]
    killed (some reason) e k = inl (reasoned reason)
      where
        reasoned : (reason : Refusal) → IsUnsent r (guarded host meta Action.kill r (some reason))
        reasoned Refusal.role = record { signals = refl; executed = refl }
        reasoned reason = record { signals = refl; executed = refl }

    pick :
        (action : Action)
        → decision.action ≡ action
        → IsUnsent r (elim action as (λ a. Reaction) [
          | Action.allow ↦ nothing r
          | Action.audit ↦ nothing r
          | Action.deny ↦ refused_as r Refusal.deny_not_enforceable
          | Action.kill ↦ guarded host meta Action.kill r why
          | Action.isolate ↦ guarded host meta Action.isolate r why
        ])
          ⊎ IsSent host meta r (elim action as (λ a. Reaction) [
            | Action.allow ↦ nothing r
            | Action.audit ↦ nothing r
            | Action.deny ↦ refused_as r Refusal.deny_not_enforceable
            | Action.kill ↦ guarded host meta Action.kill r why
            | Action.isolate ↦ guarded host meta Action.isolate r why
          ])
            × (decision.action ≡ Action.kill)
            × IsClear host.own role decision meta identity event
    pick Action.allow e = inl (record { signals = refl; executed = refl })
    pick Action.audit e = inl (record { signals = refl; executed = refl })
    pick Action.deny e = inl (record { signals = refl; executed = refl })
    pick Action.isolate e = inl (isolated why)
    pick Action.kill e = killed why refl e
