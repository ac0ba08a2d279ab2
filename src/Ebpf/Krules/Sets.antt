-- ===== src/Ebpf/Krules/Sets.antt =====
-- crates/ferrum-ebpf/src/krules.rs, `compile_kernel_rules`: what a program becomes as a whole.
use ferrum.Prelude.{
  ℕ, ◌≤◌, ◌≡◌, refl, sym, ap, subst, ◌∙◌, ◌≢◌, ◌⊎◌, inl, inr, Bool, true, false, not, none, some,
  List, [], ◌∷◌, ◌++◌, append-nil, append_assoc, length, ltb, if◌then◌else◌, arith,
}
use ferrum.Text.{Str}
use ferrum.Datapath.Slot.{KernelRule}
use ferrum.Datapath.Fill.{max_kernel_rules}
use ferrum.Ebpf.Spec.{Rule, EbpfSpec, is_cluster_wide}
use ferrum.Ebpf.Krules.{
  ExecPathLayout, Reason, Attempt, fails, gives, Excluded, KernelRuleSet, refuse, flat_map,
  kernel_slots, add_rule, add_rules, bounded, is_enforce, prevents_nothing,
  compile_kernel_rules_for,
}

-- What a rule adds to the set: its slots, or the reason that it stays in userspace.
abbrev pub slots_in : Attempt (List KernelRule) → List KernelRule
slots_in (gives slots) = slots
slots_in (fails why) = []

abbrev pub reasons_in : Str → Attempt (List KernelRule) → List Excluded
reasons_in id (gives slots) = []
reasons_in id (fails why) = record { rule = id; reason = why } ∷ []

unfoldable pub slots_of : ExecPathLayout → Bool → Rule → List KernelRule
slots_of layout so rule = slots_in (kernel_slots rule so layout)

unfoldable pub left_out : ExecPathLayout → Bool → Rule → List Excluded
left_out layout so rule = reasons_in rule.id (kernel_slots rule so layout)

add_rule-parts :
    (id : Str) (a : Attempt (List KernelRule)) (out : KernelRuleSet)
    → add_rule id a out
      ≡ record out { rules = out.rules ++ slots_in a; excluded = out.excluded ++ reasons_in id a }
add_rule-parts id (gives slots) out =
    λ i. record out { rules = out.rules ++ slots; excluded = sym (append-nil out.excluded) i }
add_rule-parts id (fails why) out = λ i. record out {
  rules = sym (append-nil out.rules) i;
  excluded = out.excluded ++ (record { rule = id; reason = why } ∷ []);
}

pub add_rules-parts :
    (layout : ExecPathLayout) (rules : List Rule) (out : KernelRuleSet)
    → add_rules layout rules out ≡ record out {
      rules = out.rules ++ flat_map (slots_of layout out.selected_only) rules;
      excluded = out.excluded ++ flat_map (left_out layout out.selected_only) rules;
    }
unfolding add_rules slots_of left_out
add_rules-parts layout [] out = λ i. record out {
  rules = sym (append-nil out.rules) i;
  excluded = sym (append-nil out.excluded) i;
}
add_rules-parts layout (rule ∷ rules) out =
    let a = kernel_slots rule out.selected_only layout in
    ap (add_rules layout rules) (add_rule-parts rule.id a out)
    ∙ add_rules-parts layout rules (record out {
      rules = out.rules ++ slots_in a;
      excluded = out.excluded ++ reasons_in rule.id a;
    })
    ∙ (λ i. record out {
      rules =
          append_assoc out.rules (slots_in a) (flat_map (slots_of layout out.selected_only) rules)
            i;
      excluded =
          append_assoc out.excluded (reasons_in rule.id a)
            (flat_map (left_out layout out.selected_only) rules) i;
    })

-- The whole program stays in userspace, and no slot is left.
pub record IsRefused (set : KernelRuleSet) : Type 0 where
  pub reason : set.refused ≢ none
  pub rules : set.rules ≡ []

-- The program enforces, its default prevents nothing, and in the order of its rules each rule is
-- either the slots it becomes or among those left out.
pub record IsSplit (spec : EbpfSpec) (layout : ExecPathLayout) (set : KernelRuleSet) : Type 0 where
  pub enabled : spec.disabled ≡ false
  pub mode : is_enforce spec.mode ≡ true
  pub harmless : prevents_nothing spec.default_action ≡ true
  pub bound : length set.rules ≤ max_kernel_rules
  pub selected_only : set.selected_only ≡ not (is_cluster_wide spec.selector)
  pub rules : set.rules ≡ flat_map (slots_of layout set.selected_only) spec.rules
  pub excluded : set.excluded ≡ flat_map (left_out layout set.selected_only) spec.rules

abbrev pub IsCompiled : EbpfSpec → ExecPathLayout → KernelRuleSet → Type 0
IsCompiled spec layout set = IsRefused set ⊎ (set.refused ≡ none) × IsSplit spec layout set

some≢none : (r : Reason) → some r ≢ none
some≢none r e = cc

IsRefused-refuse : (r : Reason) → IsRefused (refuse r)
IsRefused-refuse r = record { reason = some≢none r; rules = refl }

bounded-IsCompiled :
    (spec : EbpfSpec) (layout : ExecPathLayout) (out : KernelRuleSet)
    → (length out.rules ≤ max_kernel_rules → IsSplit spec layout out)
    → out.refused ≡ none
    → IsCompiled spec layout (bounded out)
unfolding bounded
bounded-IsCompiled spec layout out f e = cut (ltb max_kernel_rules (length out.rules)) refl
  where
    fits : (n : ℕ) → ltb max_kernel_rules n ≡ false → n ≤ max_kernel_rules
    fits n h = ground (arith, h)

    cut :
        (b : Bool)
        → ltb max_kernel_rules (length out.rules) ≡ b
        → IsCompiled spec layout (
            if b
            then record out { rules = []; refused = some (Reason.overflow (length out.rules)) }
            else out)
    cut true h = inl (record { reason = some≢none _; rules = refl })
    cut false h = inr (e, f (fits (length out.rules) h))

guarded :
    (spec : EbpfSpec) (layout : ExecPathLayout) (a b c : Bool) (r s t : Reason)
    (rest : KernelRuleSet)
    → (a ≡ false → b ≡ true → c ≡ true → IsCompiled spec layout rest)
    → IsCompiled spec layout
        (if a then refuse r else if not b then refuse s else if not c then refuse t else rest)
guarded spec layout true b c r s t rest f = inl (IsRefused-refuse _)
guarded spec layout false false c r s t rest f = inl (IsRefused-refuse _)
guarded spec layout false true false r s t rest f = inl (IsRefused-refuse _)
guarded spec layout false true true r s t rest f = f refl refl refl

abbrev first : EbpfSpec → KernelRuleSet
first spec = record {
  rules = [];
  excluded = [];
  selected_only = not (is_cluster_wide spec.selector);
  refused = none;
}

abbrev whole : EbpfSpec → ExecPathLayout → KernelRuleSet
whole spec layout = record (first spec) {
  rules = flat_map (slots_of layout (not (is_cluster_wide spec.selector))) spec.rules;
  excluded = flat_map (left_out layout (not (is_cluster_wide spec.selector))) spec.rules;
}

-- A program is either refused as a whole, and then has no slot, or it enforces, its default
-- prevents nothing, its slots fit the map of the kernel, and each of its rules is, in order, the
-- slots it becomes or one that is left out with a reason.
pub compile_kernel_rules_for-IsCompiled :
    (spec : EbpfSpec) (layout : ExecPathLayout)
    → IsCompiled spec layout (compile_kernel_rules_for spec layout)
unfolding compile_kernel_rules_for
compile_kernel_rules_for-IsCompiled spec layout =
    guarded spec layout spec.disabled (is_enforce spec.mode) (prevents_nothing spec.default_action)
      _ _ _ (bounded (add_rules layout spec.rules (first spec)))
      (λ d m p.
        subst (λ out. IsCompiled spec layout (bounded out))
          (sym (add_rules-parts layout spec.rules (first spec)))
          (bounded-IsCompiled spec layout (whole spec layout)
            (λ fits. record {
              enabled = d;
              mode = m;
              harmless = p;
              bound = fits;
              selected_only = refl;
              rules = refl;
              excluded = refl;
            })
            refl))
