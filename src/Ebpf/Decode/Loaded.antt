-- ===== src/Ebpf/Decode/Loaded.antt =====
-- crates/ferrum-ebpf/src/spec.rs: which programs load, on either path, and as what.
use ferrum.Prelude.{
  ◌≡◌, refl, sym, ap, ◌∙◌, subst, ◌↔◌, none, some, List, [], ◌∷◌, All, All-map, Option,
}
use ferrum.Text.{Str}
use ferrum.Error.{Message, ok}
use ferrum.Ebpf.Spec.{Rule, EbpfSpec}
use ferrum.Ebpf.Decode.{drop, dead_rule_reason, drop_dead, decode_spec, parse_febp_with, parse_febp}
use ferrum.Ebpf.Decode.Gates.{parse_febp-passes, parse_febp_with-passes, gate_spec-reject_alive}
use ferrum.Ebpf.Decode.Observed.{IsObserved, IsAlive-IsObserved}
use ferrum.Ebpf.Decode.Spared.{Strikes, IsSafe, IsSpared-IsSafe}

-- A program loads exactly where the bytes encode it, neither its default nor a rule of it without
-- any predicate kills or isolates, and each predicate of each rule is one that the datapath can
-- observe: a syscall that is hooked, a `comm` of at most 15 bytes, a pattern of at most 255.
pub parse_febp-IsSafe :
    (bytes : Str) (spec : EbpfSpec)
    → (parse_febp bytes ≡ ok spec) ↔ (
        IsSafe spec
        × All IsObserved spec.rules
        × ((rest : Str) × (decode_spec bytes ≡ ok (spec, rest))))
unfolding parse_febp parse_febp_with
parse_febp-IsSafe bytes spec = (
  (λ h.
      let (spared, alive, read) = parse_febp-passes bytes spec h in
      (
        (IsSpared-IsSafe spec).0 spared,
        All-map _ _ (λ r. (IsAlive-IsObserved r).0) spec.rules alive,
        read,
      )),
  (λ (safe, observed, (rest, decoded)).
      rw (decoded, parse_febp_with)
        (rw
          (gate_spec-reject_alive spec ((IsSpared-IsSafe spec).1 safe)
            (All-map _ _ (λ r. (IsAlive-IsObserved r).1) spec.rules observed))
          refl)),
)

-- The rules kept of a list, in their order, are those of which each predicate can be observed; for
-- each of the others there is one reason.
pub data Sifted : List Rule → List Rule → List Message → Type 0 where
  sifted : Sifted [] [] []
  keeps :
      {rule : Rule} {rules kept : List Rule} {dropped : List Message}
      → IsObserved rule
      → Sifted rules kept dropped
      → Sifted (rule ∷ rules) (rule ∷ kept) dropped
  drops :
      {rule : Rule} {rules kept : List Rule} {dropped : List Message}
      → ¬ IsObserved rule
      → (reason : Message) → Sifted rules kept dropped
      → Sifted (rule ∷ rules) kept (reason ∷ dropped)

drop_dead-Sifted : (rules : List Rule) → Sifted rules (drop_dead rules).0 (drop_dead rules).1
unfolding drop_dead
drop_dead-Sifted [] = sifted
drop_dead-Sifted (rule ∷ rules) = pick (dead_rule_reason rule) refl (drop_dead-Sifted rules)
  where
    some-ne-none : {o : Option Message} {m : Message} → o ≡ some m → o ≡ none → ⊥
    some-ne-none e f = cc

    pick :
        (o : Option Message)
        → dead_rule_reason rule ≡ o
        → Sifted rules (drop_dead rules).0 (drop_dead rules).1
        → let out : List Rule × List Message = elim o [
          | some reason ↦ ((drop_dead rules).0, reason ∷ (drop_dead rules).1)
          | none ↦ (rule ∷ (drop_dead rules).0, (drop_dead rules).1)
        ] in
          Sifted (rule ∷ rules) out.0 out.1
    pick none e later = keeps ((IsAlive-IsObserved rule).0 e) later
    pick (some reason) e later =
        drops (λ o. some-ne-none e ((IsAlive-IsObserved rule).1 o)) reason later

Sifted-All :
    (P : Rule → Type 0) {rules kept : List Rule} {dropped : List Message}
    → Sifted rules kept dropped
    → All P rules
    → All P kept
Sifted-All P sifted h = tt
Sifted-All P (keeps o s) h = (h.0, Sifted-All P s h.1)
Sifted-All P (drops n reason s) h = Sifted-All P s h.1

-- On the restore path a program that loads is as safe, keeps all of the encoded program but its
-- rules, and of these, in their order, exactly the ones of which each predicate can be observed,
-- with one reason for each of the others.
pub parse_febp_with-drop :
    (bytes : Str) (spec : EbpfSpec) (dropped : List Message)
    → parse_febp_with bytes drop ≡ ok (spec, dropped)
    → (raw : EbpfSpec) × (rest : Str) × (decode_spec bytes ≡ ok (raw, rest))
      × IsSafe raw
      × IsSafe spec
      × (spec ≡ record raw { rules = spec.rules })
      × Sifted raw.rules spec.rules dropped
parse_febp_with-drop bytes spec dropped h =
    let (raw, rest, decoded, spared, same, left) = parse_febp_with-passes bytes spec dropped h in
    let rules = ap (λ s. s.rules) same in
    let safe = (IsSpared-IsSafe raw).0 spared in
    let parts =
      subst (λ m. Sifted raw.rules spec.rules m) (sym left)
        (subst (λ rs. Sifted raw.rules rs (drop_dead raw.rules).1) (sym rules)
          (drop_dead-Sifted raw.rules)) in
    (
      raw,
      rest,
      decoded,
      safe,
      record {
        default_spares = subst (λ s. ¬ Strikes s.default_action) (sym same) safe.default_spares;
        narrow = Sifted-All _ parts safe.narrow;
      },
      same ∙ ap (λ rs. record raw { rules = rs }) (sym rules),
      parts,
    )
