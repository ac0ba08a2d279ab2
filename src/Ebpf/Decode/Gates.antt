-- ===== src/Ebpf/Decode/Gates.antt =====
-- crates/ferrum-ebpf/src/spec.rs: the gates of the loader, in terms of the tests that they make.
use ferrum.Prelude.{
  ◌≡◌, refl, ap, sym, ◌∙◌, false, Option, none, some, List, [], ◌∷◌, All, find_map, Option-cases,
  inl, inr, ◌≢◌, subst,
}
use ferrum.Text.{Str}
use ferrum.Error.{Message, ok}
use ferrum.Error.Laws.{err-ne-ok, ok-injective, >>=-eq-ok, guard-eq-ok}
use ferrum.Ebpf.Spec.{Action, Rule, EbpfSpec}
use ferrum.Ebpf.Decode.{
  DeadRules, reject, drop, is_kill_or_isolate, is_kill_all, dead_rule_reason, kill_all_rules,
  reject_kill_all, drop_dead, apply_dead, decode_spec, gate_spec, parse_febp_with, parse_febp,
}

some-ne-none {ℓ} : {A : Type ℓ} (a : A) → some a ≢ none
some-ne-none a h = cc

-- No reason is given to leave the rule out.
abbrev pub IsAlive : Rule → Type 0
IsAlive rule = dead_rule_reason rule ≡ none

-- The program passes the tests against a default or a rule that kills or isolates whatever it meets.
pub record IsSpared (spec : EbpfSpec) : Type 0 where
  pub default_spares : is_kill_or_isolate spec.default_action ≡ false
  pub rules_narrow : All (λ r. is_kill_all r ≡ false) spec.rules

kill_all_rules_narrow :
    (rules : List Rule) → kill_all_rules rules ≡ ok tt → All (λ r. is_kill_all r ≡ false) rules
unfolding kill_all_rules
kill_all_rules_narrow [] h = tt
kill_all_rules_narrow (r ∷ rules) h =
    let (narrow, rest) = guard-eq-ok (is_kill_all r) _ (kill_all_rules rules) h in
    (narrow, kill_all_rules_narrow rules rest)

reject_kill_all_safe :
    (a : Action) (rules : List Rule)
    → reject_kill_all a rules ≡ ok tt
    → (is_kill_or_isolate a ≡ false) × All (λ r. is_kill_all r ≡ false) rules
unfolding reject_kill_all
reject_kill_all_safe a rules h =
    let (spares, rest) = guard-eq-ok (is_kill_or_isolate a) _ (kill_all_rules rules) h in
    (spares, kill_all_rules_narrow rules rest)

find_map-none :
    {A B : Type 0} (f : A → Option B) (xs : List A)
    → find_map f xs ≡ none
    → All (λ x. f x ≡ none) xs
find_map-none f [] h = tt
find_map-none f (x ∷ xs) h = elim (Option-cases (f x)) [
  | inl e ↦ (e, find_map-none f xs (rw (e, find_map) at h))
  | inr (y, e) ↦ absurd (some-ne-none y (rw (e, find_map) at h))
]

apply_dead-reject :
    (rules kept : List Rule) (dropped : List Message)
    → apply_dead reject rules ≡ ok (kept, dropped)
    → (kept ≡ rules) × (dropped ≡ []) × All IsAlive rules
unfolding apply_dead
apply_dead-reject rules kept dropped h = elim (Option-cases (find_map dead_rule_reason rules)) [
  | inl e ↦
      let h' : (rules, []) ≡ (kept, dropped) = ok-injective _ _ (rw (e, apply_dead) at h) in
      (sym (ap (λ p. p.0) h'), sym (ap (λ p. p.1) h'), find_map-none dead_rule_reason rules e)
  | inr (reason, e) ↦ absurd (err-ne-ok _ _ (rw (e, apply_dead) at h))
]

drop_dead_alive : (rules : List Rule) → All IsAlive rules → drop_dead rules ≡ (rules, [])
unfolding drop_dead
drop_dead_alive [] h = refl
drop_dead_alive (r ∷ rules) h = rw (h.0, drop_dead) (rw (drop_dead_alive rules h.1))

gate_spec-reject :
    (raw spec : EbpfSpec) (dropped : List Message)
    → gate_spec reject raw ≡ ok (spec, dropped)
    → IsSpared raw × All IsAlive raw.rules × (spec ≡ raw) × (dropped ≡ [])
unfolding gate_spec
gate_spec-reject raw spec dropped h =
    let (u, safe, h') = >>=-eq-ok (reject_kill_all raw.default_action raw.rules) _ h in
    let (kept, passed, h'') = >>=-eq-ok (apply_dead reject raw.rules) _ h' in
    let (same, none_dropped, alive) = apply_dead-reject raw.rules kept.0 kept.1 passed in
    let (spares, narrow) = reject_kill_all_safe raw.default_action raw.rules safe in
    let e = ok-injective _ _ h'' in
    (
      record { default_spares = spares; rules_narrow = narrow },
      alive,
      sym (ap (λ p. p.0) e) ∙ ap (λ rules. record raw { rules = rules }) same,
      sym (ap (λ p. p.1) e) ∙ none_dropped,
    )

gate_spec-drop :
    (raw spec : EbpfSpec) (dropped : List Message)
    → gate_spec drop raw ≡ ok (spec, dropped)
    → IsSpared raw
      × (spec ≡ record raw { rules = (drop_dead raw.rules).0 })
      × (dropped ≡ (drop_dead raw.rules).1)
unfolding gate_spec apply_dead
gate_spec-drop raw spec dropped h =
    let (u, safe, h') = >>=-eq-ok (reject_kill_all raw.default_action raw.rules) _ h in
    let (spares, narrow) = reject_kill_all_safe raw.default_action raw.rules safe in
    let e = ok-injective _ _ h' in
    (
      record { default_spares = spares; rules_narrow = narrow },
      sym (ap (λ p. p.0) e),
      sym (ap (λ p. p.1) e),
    )

decode-parse :
    (bytes : Str) (dead : DeadRules) (spec : EbpfSpec) (dropped : List Message)
    → parse_febp_with bytes dead ≡ ok (spec, dropped)
    → (raw : EbpfSpec) × (rest : Str) × (decode_spec bytes ≡ ok (raw, rest))
      × (gate_spec dead raw ≡ ok (spec, dropped))
unfolding parse_febp_with
decode-parse bytes dead spec dropped h =
    let (read, decoded, gated) = >>=-eq-ok (decode_spec bytes) _ h in
    (read.0, read.1, decoded, gated)

-- A program that loads passed the gates, and is the program that the bytes encode.
pub parse_febp-passes :
    (bytes : Str) (spec : EbpfSpec)
    → parse_febp bytes ≡ ok spec
    → IsSpared spec
      × All IsAlive spec.rules
      × ((rest : Str) × (decode_spec bytes ≡ ok (spec, rest)))
unfolding parse_febp
parse_febp-passes bytes spec h =
    let (parsed, with_dead, e) = >>=-eq-ok (parse_febp_with bytes reject) _ h in
    let (raw, rest, decoded, gated) = decode-parse bytes reject parsed.0 parsed.1 with_dead in
    let (safe, alive, same, none_dropped) = gate_spec-reject raw parsed.0 parsed.1 gated in
    let to_spec : raw ≡ spec = sym same ∙ ok-injective _ _ e in
    (
      subst IsSpared to_spec safe,
      subst (λ s. All IsAlive s.rules) to_spec alive,
      (rest, decoded ∙ ap (λ s. ok (s, rest)) to_spec),
    )

-- On the restore path what is left out is what the gates leave out.
pub parse_febp_with-passes :
    (bytes : Str) (spec : EbpfSpec) (dropped : List Message)
    → parse_febp_with bytes drop ≡ ok (spec, dropped)
    → (raw : EbpfSpec) × (rest : Str) × (decode_spec bytes ≡ ok (raw, rest))
      × IsSpared raw
      × (spec ≡ record raw { rules = (drop_dead raw.rules).0 })
      × (dropped ≡ (drop_dead raw.rules).1)
parse_febp_with-passes bytes spec dropped h =
    let (raw, rest, decoded, gated) = decode-parse bytes drop spec dropped h in
    let (spared, same, left) = gate_spec-drop raw spec dropped gated in
    (raw, rest, decoded, spared, same, left)

kill_all_rules_safe :
    (rules : List Rule) → All (λ r. is_kill_all r ≡ false) rules → kill_all_rules rules ≡ ok tt
unfolding kill_all_rules
kill_all_rules_safe [] h = refl
kill_all_rules_safe (r ∷ rules) h = rw h.0 (kill_all_rules_safe rules h.1)

gate_spec-alive :
    (spec : EbpfSpec) → IsSpared spec → All IsAlive spec.rules → gate_spec drop spec ≡ ok (spec, [])
unfolding gate_spec reject_kill_all apply_dead
gate_spec-alive spec safe alive = simp (
  safe.default_spares,
  kill_all_rules_safe spec.rules safe.rules_narrow,
  drop_dead_alive spec.rules alive,
)

find_map-none' :
    {A B : Type 0} (f : A → Option B) (xs : List A)
    → All (λ x. f x ≡ none) xs
    → find_map f xs ≡ none
find_map-none' f [] h = refl
find_map-none' f (x ∷ xs) h = rw (h.0, find_map) (find_map-none' f xs h.1)

pub gate_spec-reject_alive :
    (spec : EbpfSpec)
    → IsSpared spec
    → All IsAlive spec.rules
    → gate_spec reject spec ≡ ok (spec, [])
unfolding gate_spec reject_kill_all apply_dead
gate_spec-reject_alive spec safe alive =
    simp (safe.default_spares, kill_all_rules_safe spec.rules safe.rules_narrow)
      (rw (find_map-none' dead_rule_reason spec.rules alive, apply_dead) refl)

-- What the strict path loads, the restore path loads too, unchanged and with nothing dropped.
pub parse_febp-drop :
    (bytes : Str) (spec : EbpfSpec)
    → parse_febp bytes ≡ ok spec
    → parse_febp_with bytes drop ≡ ok (spec, [])
unfolding parse_febp parse_febp_with
parse_febp-drop bytes spec h =
    let (safe, alive, read) = parse_febp-passes bytes spec h in
    let (rest, decoded) = read in rw (decoded, parse_febp_with) (gate_spec-alive spec safe alive)
