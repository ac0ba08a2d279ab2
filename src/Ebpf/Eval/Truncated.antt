-- ===== src/Ebpf/Eval/Truncated.antt =====
-- crates/ferrum-ebpf/src/eval.rs, `rule_matches`: a path that the datapath could not carry whole.
use ferrum.Prelude.{
  ℕ, ◌≤◌, ◌≡◌, refl, ap, ◌⊎◌, inl, inr, ◌≢◌, Bool, true, false, ◌&&◌, not, Option, none, some, List,
  [], ◌∷◌, ◌++◌, length, is_empty, any, All, arith, if◌then◌else◌,
}
use ferrum.Text.{Str, starts_with}
use ferrum.Text.Laws.{starts_with-head}
use ferrum.Ebpf.Spec.{allow, rank, Rule, EbpfSpec}
use ferrum.Ebpf.Eval.{
  SyscallEvent, RuleMatch, no_match, skipped_container, matched, prefix_hit, path_unreadable,
  prefix_step, suffix_step, flag_step, after_suffix, after_prefix, names, rule_matches,
  matched_action_with,
}
use ferrum.Ebpf.Eval.Best.{is_matched, applies}
use ferrum.Ebpf.Eval.Order.{higher, rank_if_applies, rank_or, top_rank, matched_action-rank}

-- `seen` is the record of `full` with its path cut to a head.
pub record IsHeadOf (seen full : SyscallEvent) : Type 0 where
  pub syscall : seen.syscall ≡ full.syscall
  pub comm : seen.comm ≡ full.comm
  pub in_container : seen.in_container ≡ full.in_container
  pub agent_self : seen.agent_self ≡ full.agent_self
  pub cut : seen.path_truncated ≡ true
  pub whole : full.path_truncated ≡ false
  pub tail : Str
  pub path : full.path ≡ seen.path ++ tail

-- The head is long enough for every prefix that the rule names, or nothing was read at all.
abbrev pub Carries : SyscallEvent → Rule → Type 0
Carries seen rule = All (λ p. length p ≤ length seen.path) rule.path_prefix ⊎ (seen.path ≡ [])

prefix_any-head :
    (head tail : Str) (ps : List Str)
    → All (λ p. length p ≤ length head) ps
    → any (λ p. not (is_empty p) && starts_with (head ++ tail) p) ps ≡ true
    → any (λ p. not (is_empty p) && starts_with head p) ps ≡ true
prefix_any-head head tail [] le h = h
prefix_any-head head tail (p ∷ ps) le h =
    ground (arith, starts_with-head head tail p le.0, prefix_any-head head tail ps le.1)

prefix_hit-head :
    (rule : Rule) (seen full : SyscallEvent)
    → IsHeadOf seen full
    → All (λ p. length p ≤ length seen.path) rule.path_prefix
    → prefix_hit rule full ≡ true
    → prefix_hit rule seen ≡ true
unfolding prefix_hit
prefix_hit-head rule seen full c le h =
    prefix_any-head seen.path c.tail rule.path_prefix le (rw c.path at h)

abbrev passes : Option Bool → Bool
passes none = false
passes (some unknown) = true

prefix_step-head :
    (rule : Rule) (seen full : SyscallEvent)
    → IsHeadOf seen full
    → Carries seen rule
    → passes (prefix_step rule full) ≡ true
    → passes (prefix_step rule seen) ≡ true
unfolding prefix_step path_unreadable
prefix_step-head rule seen full c (inl le) h =
    ground (arith, prefix_hit-head rule seen full c le, c.cut, c.whole)
prefix_step-head rule seen full c (inr e) h = ground (arith, c.cut, c.whole)

suffix_step-head :
    (rule : Rule) (seen : SyscallEvent) (unknown : Bool)
    → seen.path_truncated ≡ true
    → passes (suffix_step rule seen unknown) ≡ true
unfolding suffix_step
suffix_step-head rule seen unknown h = ground arith

-- How far a rule gets with a record: not past the predicates, to `containerOnly`, or past it.
abbrev pub outcome : RuleMatch → ℕ
outcome no_match = 0
outcome skipped_container = 1
outcome (matched unknown) = 2

flag_step-head :
    (rule : Rule) (seen full : SyscallEvent) (u v : Bool)
    → IsHeadOf seen full
    → outcome (flag_step rule seen v) ≡ outcome (flag_step rule full u)
unfolding flag_step
flag_step-head rule seen full u v c = rw (c.agent_self, c.in_container) (ground arith)

-- From a step of `full` that passes on, `seen` passes on to the same end.
after_suffix-head :
    (rule : Rule) (seen full : SyscallEvent) (x y : Option Bool)
    → IsHeadOf seen full
    → passes y ≡ true
    → after_suffix rule full x ≢ no_match
    → outcome (after_suffix rule seen y) ≡ outcome (after_suffix rule full x)
after_suffix-head rule seen full none y c p h = absurd (h refl)
after_suffix-head rule seen full (some u) none c p h = cc
after_suffix-head rule seen full (some u) (some v) c p h = flag_step-head rule seen full u v c

after_prefix-head :
    (rule : Rule) (seen full : SyscallEvent) (x y : Option Bool)
    → IsHeadOf seen full
    → (passes x ≡ true → passes y ≡ true)
    → after_prefix rule full x ≢ no_match
    → outcome (after_prefix rule seen y) ≡ outcome (after_prefix rule full x)
after_prefix-head rule seen full none y c p h = absurd (h refl)
after_prefix-head rule seen full (some u) none c p h = absurd (ground (arith, p refl))
after_prefix-head rule seen full (some u) (some v) c p h =
    after_suffix-head rule seen full (suffix_step rule full u) (suffix_step rule seen v) c
      (suffix_step-head rule seen v c.cut) h

abbrev gated : Bool → Bool → RuleMatch → RuleMatch
gated a b m = if not a then no_match else if not b then no_match else m

gated-outcome :
    (a b a' b' : Bool) (m m' : RuleMatch)
    → a' ≡ a
    → b' ≡ b
    → (m ≢ no_match → outcome m' ≡ outcome m)
    → gated a b m ≢ no_match
    → outcome (gated a' b' m') ≡ outcome (gated a b m)
gated-outcome false b a' b' m m' e f h n = absurd (n refl)
gated-outcome true false a' b' m m' e f h n = absurd (n refl)
gated-outcome true true a' b' m m' e f h n = rw (e, f) (h n)

-- A rule that matches a record with its whole path matches it with the path cut to a head that is
-- no shorter than the prefixes which the rule names, or with no path read at all; and where only
-- `containerOnly` holds the rule back, it holds it back on both.
pub rule_matches-truncated :
    (rule : Rule) (seen full : SyscallEvent)
    → IsHeadOf seen full
    → Carries seen rule
    → rule_matches rule full ≢ no_match
    → outcome (rule_matches rule seen) ≡ outcome (rule_matches rule full)
unfolding rule_matches
rule_matches-truncated rule seen full c fits =
    gated-outcome (names rule.syscalls full.syscall) (names rule.comm_in full.comm)
      (names rule.syscalls seen.syscall) (names rule.comm_in seen.comm)
      (after_prefix rule full (prefix_step rule full))
      (after_prefix rule seen (prefix_step rule seen)) (ap (names rule.syscalls) c.syscall)
      (ap (names rule.comm_in) c.comm)
      (after_prefix-head rule seen full (prefix_step rule full) (prefix_step rule seen) c
        (prefix_step-head rule seen full c fits))

is_matched_of-outcome :
    (m m' : RuleMatch)
    → (m ≢ no_match → outcome m' ≡ outcome m)
    → is_matched m ≡ true
    → is_matched m' ≡ true
is_matched_of-outcome m m' h e = ground (arith, h)

applies-truncated :
    (rule : Rule) (seen full : SyscallEvent)
    → IsHeadOf seen full
    → Carries seen rule
    → applies full rule ≡ true
    → applies seen rule ≡ true
applies-truncated rule seen full c fits =
    is_matched_of-outcome (rule_matches rule full) (rule_matches rule seen)
      (rule_matches-truncated rule seen full c fits)

-- `none` is below every rank.
abbrev Lifts : Option ℕ → Option ℕ → Type 0
Lifts none y = Unit {0}
Lifts (some a) none = ⊥
Lifts (some a) (some b) = a ≤ b

higher-Lifts : (a b c d : Option ℕ) → Lifts a b → Lifts c d → Lifts (higher a c) (higher b d)
higher-Lifts none b none d h k = tt
higher-Lifts none none (some c) d h k = k
higher-Lifts none (some b) (some c) none h k = absurd k
higher-Lifts none (some b) (some c) (some d) h k = omega arith
higher-Lifts (some a) none c d h k = absurd h
higher-Lifts (some a) (some b) none none h k = h
higher-Lifts (some a) (some b) none (some d) h k = omega arith
higher-Lifts (some a) (some b) (some c) none h k = absurd k
higher-Lifts (some a) (some b) (some c) (some d) h k = omega arith

rank_if_applies-Lifts :
    (rule : Rule) (x y : Bool)
    → (x ≡ true → y ≡ true)
    → Lifts
        (if x then some (rank rule.action) else none)
        (if y then some (rank rule.action) else none)
rank_if_applies-Lifts rule false y h = tt
rank_if_applies-Lifts rule true y h = rw (h refl) (omega arith)

top_rank-Lifts :
    (rules : List Rule) (seen full : SyscallEvent)
    → IsHeadOf seen full
    → All (Carries seen) rules
    → Lifts (top_rank full rules) (top_rank seen rules)
unfolding top_rank
top_rank-Lifts [] seen full c fits = tt
top_rank-Lifts (rule ∷ rules) seen full c fits =
    higher-Lifts (rank_if_applies full rule) (rank_if_applies seen rule) (top_rank full rules)
      (top_rank seen rules)
      (rank_if_applies-Lifts rule (applies full rule) (applies seen rule)
        (applies-truncated rule seen full c fits.0))
      (top_rank-Lifts rules seen full c fits.1)

rank_or-Lifts :
    (x y : Option ℕ) (n : ℕ) → Lifts x y → (n ≡ 0) ⊎ (x ≢ none) → rank_or x n ≤ rank_or y n
rank_or-Lifts none none n h k = omega arith
rank_or-Lifts none (some b) n h (inl e) = omega arith
rank_or-Lifts none (some b) n h (inr e) = absurd (e refl)
rank_or-Lifts (some a) none n h k = absurd h
rank_or-Lifts (some a) (some b) n h k = h

any-top_rank :
    (event : SyscallEvent) (rules : List Rule)
    → any (applies event) rules ≡ true
    → top_rank event rules ≢ none
unfolding top_rank
any-top_rank event [] h = cc
any-top_rank event (rule ∷ rules) h = ground (arith, any-top_rank event rules)

-- Cutting the path of a record never lowers the rank of the action, as long as some rule matches
-- the whole path or the default is `allow`.
pub matched_action-truncated :
    (spec : EbpfSpec) (seen full : SyscallEvent) (unproven : Bool)
    → IsHeadOf seen full
    → All (Carries seen) spec.rules
    → (spec.default_action ≡ allow) ⊎ (any (applies full) spec.rules ≡ true)
    → rank (matched_action_with spec full unproven).action
      ≤ rank (matched_action_with spec seen unproven).action
matched_action-truncated spec seen full unproven c fits h =
    rw (matched_action-rank spec full unproven, matched_action-rank spec seen unproven)
      (rank_or-Lifts (top_rank full spec.rules) (top_rank seen spec.rules)
        (rank spec.default_action) (top_rank-Lifts spec.rules seen full c fits) (low h))
  where
    low :
        (spec.default_action ≡ allow) ⊎ (any (applies full) spec.rules ≡ true)
        → (rank spec.default_action ≡ 0) ⊎ (top_rank full spec.rules ≢ none)
    low (inl e) = inl (ap rank e)
    low (inr e) = inr (any-top_rank full spec.rules e)
