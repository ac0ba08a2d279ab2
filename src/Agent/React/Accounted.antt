-- ===== src/Agent/React/Accounted.antt =====
-- crates/ferrum-agent/src/lib.rs, `Agent::react`: every decision to act is accounted for.
use ferrum.Prelude.{
  ℕ, ◌+◌, ◌≡◌, refl, Bool, true, false, ◌&&◌, not, Option, none, some, ◌==◌, if◌then◌else◌, arith,
}
use ferrum.Text.{Str}
use ferrum.Identity.{WorkloadIdentity}
use ferrum.Ebpf.Spec.{Action}
use ferrum.Ebpf.Eval.{SyscallEvent, Decision}
use ferrum.Ebpf.Event.{EventMeta}
use ferrum.Agent.Respond.{Refusal}
use ferrum.Agent.React.{
  AgentRole, Responses, Host, Reaction, nothing, refused_as, answered, deliver, confirmed, proven,
  after_guards, guarded, guard, react,
}

-- The decisions that something is to be done about, and what the counters say was done.
abbrev pub acts : Action → Bool
acts Action.allow = false
acts Action.audit = false
acts _ = true

abbrev pub bit : Bool → ℕ
bit true = 1
bit false = 0

abbrev pub is_given : Option Refusal → Bool
is_given none = false
is_given (some why) = true

abbrev pub tally : Responses → ℕ
tally r = r.kill + r.refused + r.role_skipped + r.failed

pub record IsAccounted (acting : Bool) (before : Responses) (reaction : Reaction) : Type 0 where
  pub counted : tally reaction.responses ≡ tally before + bit acting
  pub kills : reaction.responses.kill ≡ before.kill + bit reaction.executed
  pub explained : is_given reaction.error ≡ (acting && not reaction.executed)

-- The four counters, whatever the others are.
abbrev SameTally : Responses → Responses → Type 0
SameTally r q =
    (q.kill ≡ r.kill)
    × (q.refused ≡ r.refused)
    × (q.role_skipped ≡ r.role_skipped)
    × (q.failed ≡ r.failed)

refused_as-IsAccounted :
    (r q : Responses) (why : Refusal) → SameTally r q → IsAccounted true r (refused_as q why)
refused_as-IsAccounted r q why (k, f, s, e) = record {
  counted = omega (arith, k, f, s, e);
  kills = omega (arith, k);
  explained = refl;
}

answered-IsAccounted :
    (r q : Responses) (answer : Option Str) → SameTally r q → IsAccounted true r (answered q answer)
answered-IsAccounted r q none (k, f, s, e) = record {
  counted = omega (arith, k, f, s, e);
  kills = omega (arith, k);
  explained = refl;
}
answered-IsAccounted r q (some err) (k, f, s, e) = record {
  counted = omega (arith, k, f, s, e);
  kills = omega (arith, k);
  explained = refl;
}

deliver-IsAccounted :
    (responder : Option (ℕ → Option Str)) (tgid : ℕ) (r q : Responses)
    → SameTally r q
    → IsAccounted true r (deliver responder tgid q)
deliver-IsAccounted none tgid r q h = refused_as-IsAccounted r q Refusal.no_responder h
deliver-IsAccounted (some kill) tgid r q h = answered-IsAccounted r _ (kill tgid) h

confirmed-IsAccounted :
    (host : Host) (meta : EventMeta) (r : Responses) (current : Option ℕ)
    → IsAccounted true r (confirmed host meta r current)
confirmed-IsAccounted host meta r none =
    refused_as-IsAccounted r _ Refusal.target_gone (refl, refl, refl, refl)
confirmed-IsAccounted host meta r (some current) = pick (current == meta.cgroup_id)
  where
    pick :
        (b : Bool)
        → IsAccounted true r (
            if b
            then deliver host.responder meta.tgid
                (record r { target_confirmed = r.target_confirmed + 1 })
            else refused_as (record r { stale_target = r.stale_target + 1 }) Refusal.stale_target)
    pick true = deliver-IsAccounted host.responder meta.tgid r _ (refl, refl, refl, refl)
    pick false = refused_as-IsAccounted r _ Refusal.stale_target (refl, refl, refl, refl)

proven-IsAccounted :
    (host : Host) (meta : EventMeta) (r : Responses) (unprovable : Option Str)
    → IsAccounted true r (proven host meta r unprovable)
proven-IsAccounted host meta r none = confirmed-IsAccounted host meta r (host.cgroup_id meta.tgid)
proven-IsAccounted host meta r (some why) =
    refused_as-IsAccounted r _ (Refusal.target_unprovable why) (refl, refl, refl, refl)

after_guards-IsAccounted :
    (host : Host) (meta : EventMeta) (action : Action) (r : Responses)
    → IsAccounted true r (after_guards host meta action r)
after_guards-IsAccounted host meta Action.isolate r =
    refused_as-IsAccounted r r Refusal.isolate (refl, refl, refl, refl)
after_guards-IsAccounted host meta Action.allow r = proven-IsAccounted host meta r host.unprovable
after_guards-IsAccounted host meta Action.audit r = proven-IsAccounted host meta r host.unprovable
after_guards-IsAccounted host meta Action.deny r = proven-IsAccounted host meta r host.unprovable
after_guards-IsAccounted host meta Action.kill r = proven-IsAccounted host meta r host.unprovable

guarded-IsAccounted :
    (host : Host) (meta : EventMeta) (action : Action) (r : Responses) (why : Option Refusal)
    → IsAccounted true r (guarded host meta action r why)
guarded-IsAccounted host meta action r none = after_guards-IsAccounted host meta action r
guarded-IsAccounted host meta action r (some why) = skipped why
  where
    skipped : (why : Refusal) → IsAccounted true r (guarded host meta action r (some why))
    skipped Refusal.role = record { counted = omega arith; kills = omega arith; explained = refl }
    skipped why = refused_as-IsAccounted r r why (refl, refl, refl, refl)

-- A decision that is to be acted on raises exactly one of the counters of kills, of refusals, of
-- skips by role and of failures, that of kills exactly where the reaction ran, and a reason is
-- given exactly where it did not run; any other decision raises none and has no reason.
pub react-IsAccounted :
    (host : Host) (role : AgentRole) (r : Responses) (decision : Decision) (meta : EventMeta)
    (identity : WorkloadIdentity) (event : SyscallEvent)
    → IsAccounted (acts decision.action) r (react host role r decision meta identity event)
unfolding react
react-IsAccounted host role r decision meta identity event = pick decision.action
  where
    why : Option Refusal
    why = guard host role decision meta identity event

    idle : IsAccounted false r (nothing r)
    idle = record { counted = omega arith; kills = omega arith; explained = refl }

    pick :
        (action : Action)
        → IsAccounted (acts action) r (elim action as (λ a. Reaction) [
          | Action.allow ↦ nothing r
          | Action.audit ↦ nothing r
          | Action.deny ↦ refused_as r Refusal.deny_not_enforceable
          | Action.kill ↦ guarded host meta Action.kill r why
          | Action.isolate ↦ guarded host meta Action.isolate r why
        ])
    pick Action.allow = idle
    pick Action.audit = idle
    pick Action.deny =
        refused_as-IsAccounted r r Refusal.deny_not_enforceable (refl, refl, refl, refl)
    pick Action.kill = guarded-IsAccounted host meta Action.kill r why
    pick Action.isolate = guarded-IsAccounted host meta Action.isolate r why
