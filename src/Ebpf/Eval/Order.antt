-- ===== src/Ebpf/Eval/Order.antt =====
-- crates/ferrum-ebpf/src/eval.rs: the order of the rules does not change the action.
use mathlib.Core.List.{Perm, Permᴰ}
use mathlib.Core.Logic.{∥∥₁_elim}
use mathlib.Core.HLevel.{hedberg}
use ferrum.Prelude.{
  ℕ, ◌≡◌, refl, sym, ap, ◌∙◌, max, Bool, Option, none, some, List, [], ◌∷◌, arith, if◌then◌else◌,
}
use ferrum.Ebpf.Spec.{Action, Action-discrete, rank, Rule, EbpfSpec}
use ferrum.Ebpf.Eval.{SyscallEvent, Walk, start, walk_step, walk, decision_of, matched_action_with}
use ferrum.Ebpf.Eval.Best.{applies, RankIsKept, walk-RankIsKept}

abbrev pub higher : Option ℕ → Option ℕ → Option ℕ
higher none y = y
higher (some a) none = some a
higher (some a) (some b) = some (max a b)

abbrev rank_of : Option (Rule × Bool × ℕ) → Option ℕ
rank_of none = none
rank_of (some (r, unknown, n)) = some n

abbrev pub rank_or : Option ℕ → ℕ → ℕ
rank_or none d = d
rank_or (some n) d = n

higher_assoc : (a b c : Option ℕ) → higher (higher a b) c ≡ higher a (higher b c)
higher_assoc a b c = ground arith

higher_swap : (a b c : Option ℕ) → higher a (higher b c) ≡ higher b (higher a c)
higher_swap a b c = ground arith

module _ (event : SyscallEvent) where
  abbrev pub rank_if_applies : Rule → Option ℕ
  rank_if_applies q = if applies event q then some (rank q.action) else none

  -- The highest rank among the rules that decide the record.
  unfoldable pub top_rank : List Rule → Option ℕ
  top_rank [] = none
  top_rank (q ∷ rules) = higher (rank_if_applies q) (top_rank rules)

  walk_step-rank_of :
      (unproven : Bool) (w : Walk) (q : Rule)
      → rank_of (walk_step unproven event w q).best ≡ higher (rank_of w.best) (rank_if_applies q)
  unfolding walk_step
  walk_step-rank_of unproven w q = ground arith

  walk-rank_of :
      (unproven : Bool) (w : Walk) (rules : List Rule)
      → rank_of (walk unproven event w rules).best ≡ higher (rank_of w.best) (top_rank rules)
  unfolding walk top_rank
  walk-rank_of unproven w [] = ground arith
  walk-rank_of unproven w (q ∷ rules) =
      rw
        (walk-rank_of unproven (walk_step unproven event w q) rules, walk_step-rank_of unproven w q)
        (higher_assoc (rank_of w.best) (rank_if_applies q) (top_rank rules))

  top_rank-perm : (l m : List Rule) → Permᴰ l m → top_rank l ≡ top_rank m
  unfolding top_rank
  top_rank-perm _ _ Permᴰ.nil = refl
  top_rank-perm _ _ (Permᴰ.cons {a = a} {b = b} {l₁ = l} {l₂ = m} e p) = rw (e, top_rank-perm l m p)
  top_rank-perm _ _ (Permᴰ.swap {a = a} {b = b} {a' = a'} {b' = b'} {l = l} e f) =
      rw (e, f) (higher_swap (rank_if_applies b') (rank_if_applies a') (top_rank l))
  top_rank-perm _ _ (Permᴰ.trans {l₁ = l} {l₂ = m} {l₃ = n} p q) =
      top_rank-perm l m p ∙ top_rank-perm m n q

  decision_of-rank :
      (w : Walk) (default_action : Action)
      → RankIsKept w.best
      → rank (decision_of w default_action).action ≡ rank_or (rank_of w.best) (rank default_action)
  unfolding decision_of
  decision_of-rank w default_action h = ground arith

rank-injective : (a b : Action) → rank a ≡ rank b → a ≡ b
rank-injective a b h = ground arith

pub matched_action-rank :
    (spec : EbpfSpec) (event : SyscallEvent) (unproven : Bool)
    → rank (matched_action_with spec event unproven).action
      ≡ rank_or (top_rank event spec.rules) (rank spec.default_action)
unfolding matched_action_with
matched_action-rank spec event unproven =
    decision_of-rank event (walk unproven event start spec.rules) spec.default_action
      (walk-RankIsKept unproven event spec.rules)
    ∙ ap (λ r. rank_or r (rank spec.default_action)) (walk-rank_of event unproven start spec.rules)

-- Two programs with the same rules in another order, and the same default, take the same action
-- on every record.
pub matched_action-perm :
    (spec spec' : EbpfSpec) (event : SyscallEvent) (unproven : Bool)
    → Perm spec.rules spec'.rules
    → spec.default_action ≡ spec'.default_action
    → (matched_action_with spec event unproven).action
      ≡ (matched_action_with spec' event unproven).action
matched_action-perm spec spec' event unproven p e = ∥∥₁_elim p (hedberg Action-discrete _ _) λ q.
    rank-injective _ _ (
      matched_action-rank spec event unproven
      ∙ (rw (top_rank-perm event spec.rules spec'.rules q, e))
      ∙ sym (matched_action-rank spec' event unproven))
