-- ===== src/Agent/React/Clear.antt =====
-- crates/ferrum-agent/src/respond.rs, `refuse_reason`: what holds where no guard refuses.
use ferrum.Prelude.{
  ℕ, ◌<◌, ◌≡◌, ◌≢◌, refl, Bool, true, false, ◌&&◌, ◌||◌, none, some, ◌==◌, leb, if◌then◌else◌,
  arith,
}
use ferrum.Identity.{WorkloadIdentity, is_unknown}
use ferrum.Ebpf.Eval.{SyscallEvent, Decision}
use ferrum.Ebpf.Event.{EventMeta}
use ferrum.Agent.Respond.{max_tgid, beyond_i32, Refusal, refuse_reason}
use ferrum.Agent.React.{AgentRole, observe, respond, respond_enabled, Host, guard}

-- Every guard that the source names, on both views of the event.
pub record IsClear (own : ℕ) (role : AgentRole) (decision : Decision) (meta : EventMeta)
    (identity : WorkloadIdentity) (event : SyscallEvent) : Type 0 where
  pub enabled : role ≡ respond
  pub not_agent : (meta.agent_self || event.agent_self) ≡ false
  pub contained : (meta.in_container && event.in_container) ≡ true
  pub known : is_unknown identity ≡ false
  pub selected : decision.labels_unknown ≡ false
  pub above_init : 1 < meta.tgid
  pub in_range : meta.tgid < max_tgid
  pub not_own : meta.tgid ≢ own

refuse_reason-none :
    (own tgid : ℕ) (a b c d e : Bool)
    → refuse_reason own a tgid b c d e ≡ none
    → (a ≡ true)
      × (b ≡ false)
      × (c ≡ true)
      × (d ≡ false)
      × (e ≡ false)
      × (1 < tgid)
      × (tgid < max_tgid)
      × (tgid ≢ own)
unfolding refuse_reason
refuse_reason-none own tgid false b c d e h = cc
refuse_reason-none own tgid true true c d e h = cc
refuse_reason-none own tgid true false false d e h = cc
refuse_reason-none own tgid true false true true e h = cc
refuse_reason-none own tgid true false true false true h = cc
refuse_reason-none own tgid true false true false false h =
    let (not_zero, not_one, inside, other) =
      passed (tgid == 0) (tgid == 1) (leb max_tgid tgid || beyond_i32 tgid) (tgid == own) h in
    (
      refl,
      refl,
      refl,
      refl,
      refl,
      above tgid not_zero not_one,
      below tgid (beyond_i32 tgid) inside,
      apart tgid own other,
    )
  where
    passed :
        (a b c d : Bool)
        → (if a
            then some Refusal.tgid_zero
            else if b
            then some Refusal.tgid_init
            else if c
            then some Refusal.tgid_range
            else if d
            then some Refusal.tgid_self
            else none)
          ≡ none
        → (a ≡ false) × (b ≡ false) × (c ≡ false) × (d ≡ false)
    passed a b c d h = ground (arith, h)

    above : (t : ℕ) → (t == 0) ≡ false → (t == 1) ≡ false → 1 < t
    above t e f = ground (arith, e, f)

    below : (t : ℕ) (b : Bool) → (leb max_tgid t || b) ≡ false → t < max_tgid
    below t b e = ground (arith, e)

    apart : (t o : ℕ) → (t == o) ≡ false → t ≢ o
    apart t o e = ground (arith, e)

pub guard-IsClear :
    (host : Host) (role : AgentRole) (decision : Decision) (meta : EventMeta)
    (identity : WorkloadIdentity) (event : SyscallEvent)
    → guard host role decision meta identity event ≡ none
    → IsClear host.own role decision meta identity event
unfolding guard
guard-IsClear host role decision meta identity event h =
    let (a, b, c, d, e, above, below, other) =
      refuse_reason-none host.own meta.tgid (respond_enabled role)
        (meta.agent_self || event.agent_self) (meta.in_container && event.in_container)
        (is_unknown identity) decision.labels_unknown h in
    record {
      enabled = responds role a;
      not_agent = b;
      contained = c;
      known = d;
      selected = e;
      above_init = above;
      in_range = below;
      not_own = other;
    }
  where
    responds : (role : AgentRole) → respond_enabled role ≡ true → role ≡ respond
    responds observe e = cc
    responds respond e = refl
