-- ===== src/Policy/Exceptions/Laws.antt =====
-- crates/ferrum-policy/src/eval.rs: what waives a hit, and what remains.
use ferrum.Prelude.{
  ℕ, ◌∙◌, ◌==◌, ◌≤◌, ◌≡◌, refl, ◌⊎◌, inl, inr, Bool, true, false, ◌&&◌, ◌||◌, not, List, [], ◌∷◌,
  is_empty, length, any, ltb, leb, All, if◌then◌else◌, arith,
}
use ferrum.Text.{Str, str_eq, trim, contains}
use ferrum.Error.{Message, Result, ok, err, validation}
use ferrum.Api.{RuntimeAction}
use ferrum.Policy.Exceptions.{
  PolicyExceptionSpec, RuleHit, action_rank, namespace_matches, validate_exception,
  exception_applies, max_by_rank, min_reason_len, max_exception_days, exception_applies_to,
  evaluate_from, evaluate,
}

-- One step: what is kept of the best action so far and of the hit, waived or not.
step : Bool → RuntimeAction → RuntimeAction → RuntimeAction
step waived best action = if waived then best else max_by_rank best action

step-rank :
    (w : Bool) (best action : RuntimeAction)
    → (action_rank best ≤ action_rank (step w best action))
      × ((w ≡ true) ⊎ (action_rank action ≤ action_rank (step w best action)))
unfolding step
step-rank true best action = (omega arith, inl refl)
step-rank false best action = (ground arith, inr (ground arith))

step-origin :
    (w : Bool) (best action : RuntimeAction)
    → (step w best action ≡ best) ⊎ ((w ≡ false) × (step w best action ≡ action))
unfolding step
step-origin true best action = inl refl
step-origin false best action = pick (leb (action_rank best) (action_rank action))
  where
    pick :
        (b : Bool)
        → ((if b then action else best) ≡ best)
          ⊎ (◌≡◌ {A = Bool} false false × ((if b then action else best) ≡ action))
    pick true = inr (refl, refl)
    pick false = inl refl

-- Of a hit that is not waived, the action.
abbrev pub counts : Bool → RuntimeAction → RuntimeAction → Bool
counts waived action v = not waived && action_rank action == action_rank v

or-left : (a b : Bool) → a ≡ true → (a || b) ≡ true
or-left a b h = ground arith

or-right : (a b : Bool) → b ≡ true → (a || b) ≡ true
or-right a b h = ground arith

counts-own :
    (w : Bool) (action v : RuntimeAction) → w ≡ false → v ≡ action → counts w action v ≡ true
counts-own w action v h f = rw f (rw h (same (action_rank action)))
  where
    same : (n : ℕ) → (not false && n == n) ≡ true
    same n = ground arith

carry :
    (w later : Bool) (best best' action v : RuntimeAction)
    → (best' ≡ best) ⊎ ((w ≡ false) × (best' ≡ action))
    → (v ≡ best') ⊎ (later ≡ true)
    → (v ≡ best) ⊎ ((counts w action v || later) ≡ true)
carry w later best best' action v (inl e) (inl f) = inl (f ∙ e)
carry w later best best' action v (inr (h, e)) (inl f) =
    inr (rw (f ∙ e) (rw h (same (action_rank action) later)))
  where
    same : (n : ℕ) (later : Bool) → ((not false && n == n) || later) ≡ true
    same n later = ground arith
carry w later best best' action v o (inr g) = inr (ground (arith, g))

module _ {Time : Type 0} (before : Time → Time → Bool) (add_days : Time → ℕ → Time) where
  -- An exception that is accepted at a moment waives at that moment exactly the hits that it
  -- targets.
  pub validate_exception-applies :
      (spec : PolicyExceptionSpec Time) (namespace policy rule : Str) (now : Time)
      → validate_exception before add_days spec now ≡ ok tt
      → exception_applies before add_days spec namespace policy rule now ≡ (
          namespace_matches spec.target.namespace namespace
          && (contains spec.target.policies policy && contains spec.target.rules rule))
  unfolding validate_exception exception_applies
  validate_exception-applies spec namespace policy rule now h =
      tests (is_empty (trim spec.ticket)) (ltb (length (trim spec.reason)) min_reason_len)
        (is_empty (trim spec.approved_by)) (str_eq (trim spec.approved_by) (trim spec.requested_by))
        (before now spec.expires_at) (before (add_days now max_exception_days) spec.expires_at) _ _
        (namespace_matches spec.target.namespace namespace) (contains spec.target.policies policy)
        (contains spec.target.rules rule) h
    where
      tests :
          (t r a s l o p q n m k : Bool)
          → ◌≡◌ {A = Result (Unit {0})}
              (if t
                then err (validation Message.no_ticket)
                else if r
                then err (validation Message.short_reason)
                else if a
                then err (validation Message.no_approver)
                else if s
                then err (validation Message.self_approved)
                else if not l
                then err (validation Message.dead_on_arrival)
                else if o
                then err (validation Message.overlong_waiver)
                else if p
                then err (validation Message.no_target_policies)
                else if q
                then err (validation Message.no_target_rules)
                else ok tt)
              (ok tt)
          → (if t || r
              then false
              else if a || s
              then false
              else if not l
              then false
              else if o
              then false
              else if not n
              then false
              else if not m
              then false
              else if not k
              then false
              else true)
            ≡ (n && (m && k))
      tests t r a s l o p q n m k h = ground (arith, h)

  abbrev pub waived : List (PolicyExceptionSpec Time) → Time → RuleHit → Bool
  waived exceptions now hit = exception_applies_to before add_days exceptions hit now

  -- No hit that counts ranks above the outcome.
  abbrev pub IsAbove :
      List (PolicyExceptionSpec Time) → Time → List RuleHit → RuntimeAction → Type 0
  IsAbove exceptions now hits v =
      All
        (λ h.
          (exception_applies_to before add_days exceptions h now ≡ true)
          ⊎ (action_rank h.action ≤ action_rank v))
        hits

  evaluate_from-IsAbove :
      (best : RuntimeAction) (hits : List RuleHit) (exceptions : List (PolicyExceptionSpec Time))
      (now : Time)
      → let v = evaluate_from before add_days best hits exceptions now in
        (action_rank best ≤ action_rank v)
        × (IsAbove exceptions now hits v
            × ((v ≡ best) ⊎ (any (λ h. counts (waived exceptions now h) h.action v) hits ≡ true)))
  unfolding evaluate_from step
  evaluate_from-IsAbove best [] exceptions now = (omega arith, (tt, inl refl))
  evaluate_from-IsAbove best (hit ∷ hits) exceptions now =
      let w = waived exceptions now hit in
      let best' = step w best hit.action in
      let (low, high) = step-rank w best hit.action in
      let (grows, found) = evaluate_from-IsAbove best' hits exceptions now in
      let v = evaluate_from before add_days best' hits exceptions now in
      (
        omega (arith, low, grows),
        (
          (elim high [ inl e ↦ inl e | inr h ↦ inr (omega (arith, h, grows)) ], found.0),
          carry w (any (λ h. counts (waived exceptions now h) h.action v) hits) best best'
              hit.action v (step-origin w best hit.action) found.1,
        ),
      )

  -- The outcome ranks at least as high as each hit that counts; it has the rank of such a hit, or
  -- all hits are waived and it is the default.
  abbrev pub IsOutcome :
      List RuleHit → RuntimeAction → List (PolicyExceptionSpec Time) → Time → RuntimeAction → Type 0
  IsOutcome hits default_action exceptions now v =
      IsAbove exceptions now hits v
      × (((v ≡ default_action) × All (λ h. waived exceptions now h ≡ true) hits)
          ⊎ (any (λ h. counts (waived exceptions now h) h.action v) hits ≡ true))

  add_hit :
      (hit : RuleHit) (hits : List RuleHit) (default_action : RuntimeAction)
      (exceptions : List (PolicyExceptionSpec Time)) (now : Time) (w : Bool)
      → waived exceptions now hit ≡ w
      → IsOutcome hits default_action exceptions now
          (evaluate before add_days hits default_action exceptions now)
      → IsOutcome (hit ∷ hits) default_action exceptions now (
          if w
          then evaluate before add_days hits default_action exceptions now
          else evaluate_from before add_days hit.action hits exceptions now)
  add_hit hit hits default_action exceptions now true e (above, origin) = (
    (inl e, above),
    elim origin [ inl (f, all) ↦ inl (f, (e, all)) | inr g ↦ inr (or-right _ _ g) ],
  )
  add_hit hit hits default_action exceptions now false e found =
      let (low, rest) = evaluate_from-IsAbove hit.action hits exceptions now in
      let v = evaluate_from before add_days hit.action hits exceptions now in
      (
        (inr low, rest.0),
        inr (elim rest.1 [
          | inl f ↦ or-left _ _ (counts-own (waived exceptions now hit) hit.action v e f)
          | inr g ↦ or-right _ _ g
        ]),
      )

  -- The combination of the hits ranks at least as high as each hit that no exception waives, and
  -- has the rank of such a hit, unless all hits are waived: then it is the default.
  pub evaluate-IsOutcome :
      (hits : List RuleHit) (default_action : RuntimeAction)
      (exceptions : List (PolicyExceptionSpec Time)) (now : Time)
      → IsOutcome hits default_action exceptions now
          (evaluate before add_days hits default_action exceptions now)
  unfolding evaluate
  evaluate-IsOutcome [] default_action exceptions now = (tt, inl (refl, tt))
  evaluate-IsOutcome (hit ∷ hits) default_action exceptions now =
      add_hit hit hits default_action exceptions now (waived exceptions now hit) refl
        (evaluate-IsOutcome hits default_action exceptions now)
