-- ===== src/Ebpf/Prefilter/KeptOff.antt =====
-- crates/ferrum-ebpf/src/prefilter.rs: the two flags of the image, which every rule requires.
use ferrum.Prelude.{
  ◌≡◌, refl, ◌⊎◌, inl, inr, Bool, true, false, ◌&&◌, not, Option, none, some, List, [], ◌∷◌, all,
  &&_iff, All, if◌then◌else◌, arith,
}
use ferrum.Ebpf.Spec.{Rule}
use ferrum.Ebpf.Eval.{
  SyscallEvent, RuleMatch, names, prefix_step, suffix_step, flag_step, after_suffix, after_prefix,
  rule_matches, no_match, skipped_container, matched,
}
use ferrum.Ebpf.Eval.Best.{applies, is_matched}

-- One of the two flags keeps a rule off a record.
abbrev pub IsKeptOff : SyscallEvent → Rule → Type 0
IsKeptOff event r =
    ((r.container_only ≡ true) × (event.in_container ≡ false))
    ⊎ ((r.not_agent_self ≡ true) × (event.agent_self ≡ true))

flag_step-kept_off :
    (rule : Rule) (event : SyscallEvent) (unknown : Bool)
    → IsKeptOff event rule
    → is_matched (flag_step rule event unknown) ≡ false
unfolding flag_step
flag_step-kept_off rule event unknown h =
    test rule.container_only event.in_container rule.not_agent_self event.agent_self unknown h
  where
    test :
        (c k s a u : Bool)
        → ((c ≡ true) × (k ≡ false)) ⊎ ((s ≡ true) × (a ≡ true))
        → is_matched
            (if s && a then no_match else if c && not k then skipped_container else matched u)
          ≡ false
    test c k s a u (inl h) = ground (arith, h.0, h.1)
    test c k s a u (inr h) = ground (arith, h.0, h.1)

kept_off-applies :
    (rule : Rule) (event : SyscallEvent) → IsKeptOff event rule → applies event rule ≡ false
unfolding rule_matches
kept_off-applies rule event h =
    behind (names rule.syscalls event.syscall) (names rule.comm_in event.comm) _
      (off_path (prefix_step rule event))
  where
    off_suffix : (o : Option Bool) → is_matched (after_suffix rule event o) ≡ false
    off_suffix none = refl
    off_suffix (some u) = flag_step-kept_off rule event u h

    off_path : (o : Option Bool) → is_matched (after_prefix rule event o) ≡ false
    off_path none = refl
    off_path (some u) = off_suffix (suffix_step rule event u)

    behind :
        (a b : Bool) (r : RuleMatch)
        → is_matched r ≡ false
        → is_matched (if not a then no_match else if not b then no_match else r) ≡ false
    behind true true r e = e
    behind true false r e = refl
    behind false b r e = refl

pub all-kept_off :
    (flag : Rule → Bool) (event : SyscallEvent)
    → ((r : Rule) → flag r ≡ true → IsKeptOff event r)
    → (rules : List Rule) → all flag rules ≡ true
    → All (λ r. applies event r ≡ false) rules
all-kept_off flag event f [] h = tt
all-kept_off flag event f (r ∷ rules) h =
    let (head, rest) = (&&_iff (flag r) (all flag rules)).0 h in
    (kept_off-applies r event (f r head), all-kept_off flag event f rules rest)
