-- ===== src/Ebpf/Eval/Container.antt =====
-- crates/ferrum-ebpf/src/eval.rs: when a decision reports a `containerOnly` rule that was skipped.
use ferrum.Prelude.{ℕ, ◌≡◌, ◌∙◌, Bool, true, false, ◌&&◌, ◌||◌, List, [], ◌∷◌, any, arith, ltb}
use ferrum.Ebpf.Spec.{Action, rank, Rule, EbpfSpec}
use ferrum.Ebpf.Eval.{
  SyscallEvent, RuleMatch, skipped_container, rule_matches, Walk, start, is_some_and, walk_step,
  walk, decision_of, matched_action_with,
}
use ferrum.Ebpf.Eval.Best.{RankIsKept, walk-RankIsKept}

abbrev is_skipped : RuleMatch → Bool
is_skipped skipped_container = true
is_skipped _ = false

-- Only `containerOnly` kept the rule from deciding the record, and it outranks `n`.
abbrev pub skipped_above : Bool → SyscallEvent → ℕ → Rule → Bool
skipped_above unproven event n q =
    unproven && (is_skipped (rule_matches q event) && ltb n (rank q.action))

walk_step-skipped :
    (unproven : Bool) (event : SyscallEvent) (n : ℕ) (w : Walk) (q : Rule)
    → is_some_and (walk_step unproven event w q).skipped (ltb n)
      ≡ (is_some_and w.skipped (ltb n) || skipped_above unproven event n q)
unfolding walk_step
walk_step-skipped unproven event n w q = ground arith

or_assoc : (a b c : Bool) → ((a || b) || c) ≡ (a || (b || c))
or_assoc a b c = ground arith

walk-skipped :
    (unproven : Bool) (event : SyscallEvent) (n : ℕ) (w : Walk) (rules : List Rule)
    → is_some_and (walk unproven event w rules).skipped (ltb n)
      ≡ (is_some_and w.skipped (ltb n) || any (skipped_above unproven event n) rules)
unfolding walk
walk-skipped unproven event n w [] = ground arith
walk-skipped unproven event n w (q ∷ rules) =
    rw
      (
        walk-skipped unproven event n (walk_step unproven event w q) rules,
        walk_step-skipped unproven event n w q,
      )
      (or_assoc (is_some_and w.skipped (ltb n)) (skipped_above unproven event n q)
        (any (skipped_above unproven event n) rules))

decision_of-container :
    (w : Walk) (default_action : Action)
    → RankIsKept w.best
    → (decision_of w default_action).container_unknown
      ≡ is_some_and w.skipped (ltb (rank (decision_of w default_action).action))
unfolding decision_of
decision_of-container w default_action h = ground arith

-- A decision says `container_unknown` exactly when the carrier cannot prove the caller is no
-- container and some rule that only `containerOnly` kept back outranks the action taken.
pub container_unknown_exact :
    (spec : EbpfSpec) (event : SyscallEvent) (unproven : Bool)
    → let d = matched_action_with spec event unproven in
      d.container_unknown ≡ any (skipped_above unproven event (rank d.action)) spec.rules
unfolding matched_action_with
container_unknown_exact spec event unproven =
    let w = walk unproven event start spec.rules in
    decision_of-container w spec.default_action (walk-RankIsKept unproven event spec.rules)
    ∙ walk-skipped unproven event (rank (decision_of w spec.default_action).action) start spec.rules
