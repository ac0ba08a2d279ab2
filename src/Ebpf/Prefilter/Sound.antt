-- ===== src/Ebpf/Prefilter/Sound.antt =====
-- crates/ferrum-ebpf/src/prefilter.rs against crates/ferrum-ebpf/src/eval.rs: a record that the
-- image lets the datapath drop is one that the program allows.
use ferrum.Prelude.{
  ℕ, suc, ◌≡◌, refl, sym, ap, ◌∙◌, ◌≢◌, ◌⊎◌, inl, inr, Bool, true, false, ◌&&◌, ◌||◌, not, none,
  some, List, [], ◌∷◌, is_empty, any, all, subst, ◌++◌, All, Bool-cases, if◌then◌else◌, arith,
}
use ferrum.Text.{Str, str_eq, trim, contains, skip, space_front, space_back}
use ferrum.Text.Laws.{str_eq_iff}
use ferrum.Ids.{datapath_syscalls, is_datapath_syscall}
use ferrum.Ebpf.Spec.{Action, allow, Rule, EbpfSpec}
use ferrum.Ebpf.Eval.{SyscallEvent, Decision, RuleMatch, rule_matches, matched_action_with, matched}
use ferrum.Ebpf.Eval.Best.{applies, is_matched, IsDecisionOf, matched_action-IsDecisionOf}
use ferrum.Ebpf.Prefilter.{
  PrefilterImage, position, syscall_index, has_bit, observed_at, observes, all_mask, widen,
  is_allow, prefilter_image,
}
use ferrum.Ebpf.Prefilter.Masks.{all_mask_small, all_mask-bits, syscall_index-lt, Grows-widen}
use ferrum.Ebpf.Prefilter.Seen.{IsBorne, true-ne-false, unseen-no_match}
use ferrum.Ebpf.Prefilter.KeptOff.{all-kept_off}

-- The datapath keeps the record.
abbrev pub passes : PrefilterImage → SyscallEvent → Bool
passes image event =
    observes image event.syscall
    && (not image.container_only || event.in_container)
    && (not image.drop_agent_self || not event.agent_self)

position-of :
    (xs : List Str) (name : Str) (i : ℕ)
    → any (λ x. str_eq x name) xs ≡ true
    → (j : ℕ) × (position xs name i ≡ some j)
unfolding position
position-of [] name i h = absurd (ground arith)
position-of (x ∷ xs) name i h = elim (Bool-cases (str_eq x name)) [
  | inl e ↦ (i, rw (e, if◌then◌else◌) refl)
  | inr e ↦ let (j, f) = position-of xs name (suc i) (rest _ _ e h) in (j, rw (e, if◌then◌else◌) f)
]
  where
    rest : (a b : Bool) → a ≡ false → (a || b) ≡ true → b ≡ true
    rest a b e h = ground arith

trim-of :
    (xs : List Str) (name : Str)
    → All (λ x. trim x ≡ x) xs
    → any (λ x. str_eq x name) xs ≡ true
    → trim name ≡ name
trim-of [] name t h = absurd (ground arith)
trim-of (x ∷ xs) name t h = elim (Bool-cases (str_eq x name)) [
  | inl e ↦ subst (λ y. trim y ≡ y) ((str_eq_iff x name).0 e) t.0
  | inr e ↦ trim-of xs name t.1 (rest _ _ e h)
]
  where
    rest : (a b : Bool) → a ≡ false → (a || b) ≡ true → b ≡ true
    rest a b e h = ground arith

hooked_trimmed : All (λ x. trim x ≡ x) datapath_syscalls
unfolding trim skip space_front space_back
hooked_trimmed = (refl, (refl, (refl, (refl, (refl, (refl, (refl, tt)))))))

none_apply-IsDefault :
    (event : SyscallEvent) (rules : List Rule) (default_action : Action) (d : Decision)
    → All (λ r. applies event r ≡ false) rules
    → IsDecisionOf event rules default_action d
    → (d.action ≡ default_action) × (d.rule_id ≡ none)
none_apply-IsDefault event rules default_action d none_apply (inl (_, a, id, _)) = (a, id)
none_apply-IsDefault event rules default_action d none_apply (inr (r, unknown, first, _, _, _)) =
    absurd (
      hit_not (rule_matches r event) unknown first.hit (
        at_split first.before first.after
          (subst (All (λ q. applies event q ≡ false)) first.split none_apply)))
  where
    at_split :
        (before after : List Rule)
        → All (λ q. applies event q ≡ false) (before ++ (r ∷ after))
        → applies event r ≡ false
    at_split [] after h = h.0
    at_split (q ∷ before) after h = at_split before after h.1

    hit_not : (m : RuleMatch) (u : Bool) → m ≡ matched u → is_matched m ≢ false
    hit_not m u e f = cc

is_allow-allow : (a : Action) → is_allow a ≡ true → a ≡ allow
is_allow-allow a h = ground arith

-- The three tests of the image, where the default is not allow, and where it is.
opens :
    (o e a x y k s : Bool)
    → o ≡ true
    → a ≡ false
    → (o && (not (e && a && x) || k) && (not (e && a && y) || not s)) ≡ true
opens o e a x y k s h f = ground arith

closes :
    (o e a x y k s : Bool)
    → (o && (not (e && a && x) || k) && (not (e && a && y) || not s)) ≡ false
    → (o ≡ false) ⊎ (((x ≡ true) × (k ≡ false)) ⊎ ((y ≡ true) × (s ≡ true)))
closes false e a x y k s h = inl refl
closes true e a true y false s h = inr (inl (refl, refl))
closes true e a true true true true h = inr (inr (refl, refl))
closes true e a true true true false h = absurd (ground arith)
closes true e a true false true s h = absurd (ground arith)
closes true e a false true k true h = inr (inr (refl, refl))
closes true e a false true k false h = absurd (ground arith)
closes true e a false false k s h = absurd (ground arith)

-- A record of a hooked syscall, which carries a path only where the syscall bears one, and which
-- the image of a program lets the datapath drop, is one that the program allows by its default.
pub prefilter_image-drops :
    (spec : EbpfSpec) (event : SyscallEvent) (unproven : Bool)
    → is_datapath_syscall event.syscall ≡ true
    → IsBorne event
    → passes (prefilter_image spec) event ≡ false
    → ((matched_action_with spec event unproven).action ≡ allow)
      × ((matched_action_with spec event unproven).rule_id ≡ none)
unfolding is_datapath_syscall contains syscall_index prefilter_image observes
prefilter_image-drops spec event unproven hooked borne dropped =
    let (i, index) = position-of datapath_syscalls event.syscall 0 hooked in
    let trimmed = trim-of datapath_syscalls event.syscall hooked_trimmed hooked in
    let below = syscall_index-lt event.syscall i index in
    let mask : Bool → ℕ = λ a. widen (if not a then all_mask else 0) spec.rules in
    let bit : observes (prefilter_image spec) event.syscall
        ≡ has_bit (mask (is_allow spec.default_action)) i =
      rw (index, observed_at) refl in
    elim (Bool-cases (is_allow spec.default_action)) [
      | inr acts ↦
          let seen : has_bit (widen all_mask spec.rules) i ≡ true =
            (Grows-widen all_mask spec.rules all_mask_small).1 i below (all_mask-bits i below) in
          let kept =
            opens (observes (prefilter_image spec) event.syscall) (not (is_empty spec.rules))
              (is_allow spec.default_action) (all (λ r. r.container_only) spec.rules)
              (all (λ r. r.not_agent_self) spec.rules) event.in_container event.agent_self
              (bit ∙ ap (λ a. has_bit (mask a) i) acts ∙ seen) acts in
          absurd (true-ne-false (sym kept ∙ dropped))
      | inl allows ↦
          let none_apply : All (λ r. applies event r ≡ false) spec.rules =
            elim (closes (observes (prefilter_image spec) event.syscall) (not (is_empty spec.rules))
              (is_allow spec.default_action) (all (λ r. r.container_only) spec.rules)
              (all (λ r. r.not_agent_self) spec.rules) event.in_container event.agent_self
              dropped) [
                | inl unseen ↦
                    unseen-no_match 0 i spec.rules event (omega arith) index trimmed borne
                      (sym (ap (λ a. has_bit (mask a) i) allows) ∙ sym bit ∙ unseen)
                | inr (inl (x, k)) ↦
                    all-kept_off (λ r. r.container_only) event (λ r c. inl (c, k)) spec.rules x
                | inr (inr (y, z)) ↦
                    all-kept_off (λ r. r.not_agent_self) event (λ r c. inr (c, z)) spec.rules y
              ] in
          let (a, id) =
            none_apply-IsDefault event spec.rules spec.default_action
              (matched_action_with spec event unproven) none_apply
              (matched_action-IsDecisionOf spec event unproven) in
          (a ∙ is_allow-allow spec.default_action allows, id)
    ]
