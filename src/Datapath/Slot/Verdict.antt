-- ===== src/Datapath/Slot/Verdict.antt =====
-- crates/ferrum-ebpf-progs/src/lib.rs: the verdict is the strongest of the slots that apply.
use ferrum.Prelude.{
  ℕ, ◌≤◌, ◌≡◌, refl, ◌∙◌, ◌⊎◌, inl, inr, Bool, true, false, ◌&&◌, ◌||◌, List, [], ◌∷◌, any, ltb,
  ◌==◌, if◌then◌else◌, All, arith,
}
use ferrum.Text.{Str}
use ferrum.Datapath.Slot.{
  KernelRule, ExecPath, action_allow, action_rank, verdict_from, kernel_rule_matches,
  kernel_verdict,
}

-- No slot that applies ranks above the action, and it is the first one given or that of a slot
-- that applies.
abbrev pub IsStrongest : (KernelRule → Bool) → ℕ → List KernelRule → ℕ → Type 0
IsStrongest hits best rules verdict =
    All (λ r. hits r ≡ true → action_rank r.action ≤ action_rank verdict) rules
    × ((verdict ≡ best) ⊎ (any (λ r. hits r && r.action == verdict) rules ≡ true))

abbrev better : Bool → ℕ → ℕ → ℕ
better hit best action = if hit && ltb (action_rank best) (action_rank action) then action else best

better-rank :
    (hit : Bool) (best action : ℕ)
    → (action_rank best ≤ action_rank (better hit best action))
      × (hit ≡ true → action_rank action ≤ action_rank (better hit best action))
better-rank hit best action = pick (hit && ltb (action_rank best) (action_rank action)) hit refl
  where
    pick :
        (b h : Bool)
        → (h && ltb (action_rank best) (action_rank action)) ≡ b
        → (action_rank best ≤ action_rank (if b then action else best))
          × (h ≡ true → action_rank action ≤ action_rank (if b then action else best))
    pick true true e = (ground (arith, e), λ h. omega arith)
    pick false true e = (omega arith, λ h. ground (arith, e))
    pick true false e = absurd (ground arith)
    pick false false e = (omega arith, λ h. absurd (ground arith))

better-origin :
    (hit : Bool) (best action : ℕ)
    → (better hit best action ≡ best) ⊎ ((hit ≡ true) × (better hit best action ≡ action))
better-origin hit best action = pick hit (ltb (action_rank best) (action_rank action))
  where
    pick :
        (h t : Bool)
        → ((if h && t then action else best) ≡ best)
          ⊎ ((h ≡ true) × ((if h && t then action else best) ≡ action))
    pick true true = inr (refl, refl)
    pick true false = inl refl
    pick false t = inl refl

verdict_from-IsStrongest :
    (hits : KernelRule → Bool) (best : ℕ) (rules : List KernelRule)
    → (action_rank best ≤ action_rank (verdict_from hits best rules))
      × IsStrongest hits best rules (verdict_from hits best rules)
unfolding verdict_from
verdict_from-IsStrongest hits best [] = (omega arith, (tt, inl refl))
verdict_from-IsStrongest hits best (r ∷ rules) =
    let best' = better (hits r) best r.action in
    let (low, high) = better-rank (hits r) best r.action in
    let (grows, found) = verdict_from-IsStrongest hits best' rules in
    (
      omega (arith, low, grows),
      (
        ((λ h. omega (arith, high h, grows)), found.0),
        carry (hits r) best best' r.action (verdict_from hits best' rules)
            (any (λ q. hits q && q.action == verdict_from hits best' rules) rules)
            (better-origin (hits r) best r.action) found.1,
      ),
    )
  where
    carry :
        (hit : Bool) (best best' action v : ℕ) (later : Bool)
        → (best' ≡ best) ⊎ ((hit ≡ true) × (best' ≡ action))
        → (v ≡ best') ⊎ (later ≡ true)
        → (v ≡ best) ⊎ ((hit && action == v || later) ≡ true)
    carry hit best best' action v later (inl e) (inl f) = inl (f ∙ e)
    carry hit best best' action v later (inr (h, e)) (inl f) = inr (ground (arith, h, e, f))
    carry hit best best' action v later o (inr g) = inr (ground (arith, g))

-- The verdict on an exec ranks at least as high as each slot that applies, and is allow or the
-- action of a slot that applies.
pub kernel_verdict-IsStrongest :
    (rules : List KernelRule) (comm : Str) (in_container agent_self selected : Bool)
    (path : ExecPath)
    → IsStrongest
        (λ r. kernel_rule_matches r comm in_container agent_self selected path)
        action_allow
        rules
        (kernel_verdict rules comm in_container agent_self selected path)
unfolding kernel_verdict
kernel_verdict-IsStrongest rules comm in_container agent_self selected path =
    (verdict_from-IsStrongest
      (λ r. kernel_rule_matches r comm in_container agent_self selected path) action_allow rules).1
