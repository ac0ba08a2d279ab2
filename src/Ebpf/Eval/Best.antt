-- ===== src/Ebpf/Eval/Best.antt =====
-- crates/ferrum-ebpf/src/eval.rs, `matched_action_with`: which rule of a program decides a record.
use ferrum.Prelude.{
  ℕ, ◌≤◌, ◌<◌, ◌≡◌, refl, ap, ◌∙◌, ◌⊎◌, inl, inr, append-nil, Bool, true, false, Option, none, some,
  List, [], ◌∷◌, ◌++◌, append_assoc, All, All-append, All-map, arith, ltb, Bool-cases,
  if◌then◌else◌,
}
use ferrum.Ebpf.Spec.{Action, rank, Rule, EbpfSpec}
use ferrum.Ebpf.Eval.{
  SyscallEvent, Decision, RuleMatch, no_match, skipped_container, matched, rule_matches, Walk,
  start, takes, walk_step, walk, decision_of, matched_action_with,
}

abbrev pub is_matched : RuleMatch → Bool
is_matched (matched u) = true
is_matched _ = false

-- The rule decides the record.
abbrev pub applies : SyscallEvent → Rule → Bool
applies event rule = is_matched (rule_matches rule event)

abbrev pub RanksBelow : SyscallEvent → ℕ → Rule → Type 0
RanksBelow event n q = applies event q ≡ true → rank q.action < n

abbrev pub RanksAtMost : SyscallEvent → ℕ → Rule → Type 0
RanksAtMost event n q = applies event q ≡ true → rank q.action ≤ n

-- `r` is the first of the highest-ranked rules that decide the record, and `unknown` its path flag.
pub record IsFirstBest (event : SyscallEvent) (rules : List Rule) (r : Rule) (unknown : Bool)
    : Type 0 where
  pub before : List Rule
  pub after : List Rule
  pub split : rules ≡ before ++ (r ∷ after)
  pub hit : rule_matches r event ≡ matched unknown
  pub above : All (RanksBelow event (rank r.action)) before
  pub atop : All (RanksAtMost event (rank r.action)) after

-- No rule decides the record and the default stands, or the first of the highest rank decides.
abbrev pub IsDecisionOf : SyscallEvent → List Rule → Action → Decision → Type 0
IsDecisionOf event rules default_action d =
    (All (λ q. applies event q ≡ false) rules
      × (d.action ≡ default_action)
      × (d.rule_id ≡ none)
      × (d.path_unknown ≡ false))
    ⊎ ((r : Rule) × (unknown : Bool) × IsFirstBest event rules r unknown
        × (d.action ≡ r.action)
        × (d.rule_id ≡ some r.id)
        × (d.path_unknown ≡ unknown))

module _ (event : SyscallEvent) where
  -- What the loop knows of the rules it has seen.
  abbrev Tracks : List Rule → Option (Rule × Bool × ℕ) → Type 0
  Tracks seen none = All (λ q. applies event q ≡ false) seen
  Tracks seen (some (r, unknown, n)) = IsFirstBest event seen r unknown × (n ≡ rank r.action)

  IsFirstBest-snoc :
      {seen : List Rule} {r : Rule} {unknown : Bool} (q : Rule)
      → IsFirstBest event seen r unknown
      → RanksAtMost event (rank r.action) q
      → IsFirstBest event (seen ++ (q ∷ [])) r unknown
  IsFirstBest-snoc {r = r} q b low = record {
    before = b.before;
    after = b.after ++ (q ∷ []);
    split = ap (λ l. l ++ (q ∷ [])) b.split ∙ append_assoc b.before (r ∷ b.after) (q ∷ []);
    hit = b.hit;
    above = b.above;
    atop = All-append (RanksAtMost event (rank r.action)) b.after (q ∷ []) b.atop (low, tt);
  }

  IsFirstBest-new :
      (seen : List Rule) (q : Rule) (unknown : Bool)
      → rule_matches q event ≡ matched unknown
      → All (RanksBelow event (rank q.action)) seen
      → IsFirstBest event (seen ++ (q ∷ [])) q unknown
  IsFirstBest-new seen q unknown e low = record {
    before = seen;
    after = [];
    split = refl;
    hit = e;
    above = low;
    atop = tt;
  }

  below_trans :
      {seen : List Rule} {r : Rule} {unknown : Bool} (n : ℕ)
      → rank r.action < n
      → IsFirstBest event seen r unknown
      → All (RanksBelow event n) seen
  below_trans {r = r} n lt b = rw b.split (
      All-append (RanksBelow event n) b.before (r ∷ b.after)
        (All-map (RanksBelow event (rank r.action)) (RanksBelow event n)
          (λ p h a. omega (arith, h a)) b.before b.above)
        (
          λ a. lt,
          All-map (RanksAtMost event (rank r.action)) (RanksBelow event n)
              (λ p h a. omega (arith, h a)) b.after b.atop,
        ))

  -- The loop keeps the best rule when it meets one that does not decide the record.
  keep :
      (seen : List Rule) (best : Option (Rule × Bool × ℕ)) (q : Rule)
      → Tracks seen best
      → applies event q ≡ false
      → Tracks (seen ++ (q ∷ [])) best
  keep seen none q h e = All-append (λ p. applies event p ≡ false) seen (q ∷ []) h (e, tt)
  keep seen (some (r, unknown, n)) q h e = (IsFirstBest-snoc q h.0 (λ a. cc), h.1)

  -- What one round makes of the best rule so far.
  abbrev best_after : Option (Rule × Bool × ℕ) → Rule → RuleMatch → Option (Rule × Bool × ℕ)
  best_after best q (matched unknown) =
      if takes best (rank q.action) then some (q, unknown, rank q.action) else best
  best_after best q _ = best

  replace :
      (seen : List Rule) (best : Option (Rule × Bool × ℕ)) (q : Rule) (unknown : Bool)
      → Tracks seen best
      → rule_matches q event ≡ matched unknown
      → Tracks (seen ++ (q ∷ [])) (best_after best q (matched unknown))
  replace seen none q unknown h e = (
    IsFirstBest-new seen q unknown e (
        All-map (λ p. applies event p ≡ false) (RanksBelow event (rank q.action)) (λ p no a. cc)
          seen h),
    refl,
  )
  replace seen (some (r, old, n)) q unknown h e = elim (Bool-cases (ltb n (rank q.action))) [
    | inl up ↦
        rw up
          (IsFirstBest-new seen q unknown e (below_trans (rank q.action) (ground arith) h.0), refl)
    | inr stays ↦ rw stays (IsFirstBest-snoc q h.0 (λ a. ground arith), h.1)
  ]

  walk_step-best :
      (unproven : Bool) (w : Walk) (q : Rule)
      → (walk_step unproven event w q).best ≡ best_after w.best q (rule_matches q event)
  unfolding walk_step
  walk_step-best unproven w q = ground arith

  best_after-Tracks :
      (seen : List Rule) (best : Option (Rule × Bool × ℕ)) (q : Rule) (m : RuleMatch)
      → rule_matches q event ≡ m
      → Tracks seen best
      → Tracks (seen ++ (q ∷ [])) (best_after best q m)
  best_after-Tracks seen best q no_match e h = keep seen best q h (rw e refl)
  best_after-Tracks seen best q skipped_container e h = keep seen best q h (rw e refl)
  best_after-Tracks seen best q (matched u) e h = replace seen best q u h e

  walk-Tracks :
      (unproven : Bool) (seen rest : List Rule) (w : Walk)
      → Tracks seen w.best
      → Tracks (seen ++ rest) (walk unproven event w rest).best
  unfolding walk
  walk-Tracks unproven seen [] w h = rw append-nil h
  walk-Tracks unproven seen (q ∷ rest) w h = rw (← append_assoc seen (q ∷ []) rest) (
      walk-Tracks unproven (seen ++ (q ∷ [])) rest (walk_step unproven event w q) (
        rw (walk_step-best unproven w q)
          (best_after-Tracks seen w.best q (rule_matches q event) refl h)))

  decision_of-IsDecisionOf :
      (rules : List Rule) (default_action : Action) (best : Option (Rule × Bool × ℕ))
      (skipped : Option ℕ)
      → Tracks rules best
      → IsDecisionOf event rules default_action
          (decision_of (record { best = best; skipped = skipped }) default_action)
  unfolding decision_of
  decision_of-IsDecisionOf rules default_action none skipped h = inl (h, refl, refl, refl)
  decision_of-IsDecisionOf rules default_action (some (r, unknown, n)) skipped h =
      inr (r, unknown, h.0, refl, refl, refl)

-- The rule that decides a record: with no match the default, else the first rule of the highest
-- rank among those that match, with its id and its path flag.
pub matched_action-IsDecisionOf :
    (spec : EbpfSpec) (event : SyscallEvent) (unproven : Bool)
    → IsDecisionOf event spec.rules spec.default_action (matched_action_with spec event unproven)
unfolding matched_action_with
matched_action-IsDecisionOf spec event unproven =
    let w = walk unproven event start spec.rules in
    decision_of-IsDecisionOf event spec.rules spec.default_action w.best w.skipped
      (walk-Tracks event unproven [] spec.rules start tt)

abbrev pub RankIsKept : Option (Rule × Bool × ℕ) → Type 0
RankIsKept none = Unit {0}
RankIsKept (some (r, unknown, n)) = n ≡ rank r.action

RankIsKept-of_Tracks :
    (event : SyscallEvent) (seen : List Rule) (best : Option (Rule × Bool × ℕ))
    → Tracks event seen best
    → RankIsKept best
RankIsKept-of_Tracks event seen none h = tt
RankIsKept-of_Tracks event seen (some (r, unknown, n)) h = h.1

-- The rank that the loop keeps beside its best rule is that rule's.
pub walk-RankIsKept :
    (unproven : Bool) (event : SyscallEvent) (rules : List Rule)
    → RankIsKept (walk unproven event start rules).best
walk-RankIsKept unproven event rules =
    RankIsKept-of_Tracks event rules (walk unproven event start rules).best
      (walk-Tracks event unproven [] rules start tt)
