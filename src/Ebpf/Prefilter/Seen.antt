-- ===== src/Ebpf/Prefilter/Seen.antt =====
-- crates/ferrum-ebpf/src/prefilter.rs: the syscall of a record that a rule does not reject is
-- observed.
use ferrum.Prelude.{
  ℕ, suc, ◌<◌, ◌≡◌, refl, sym, ap, ◌∙◌, ◌≢◌, ◌⊎◌, inl, inr, Bool, true, false, ◌&&◌, ◌||◌, not,
  Option, none, some, List, [], ◌∷◌, is_empty, length, any, All, Bool-cases, if◌then◌else◌, arith,
}
use mathlib.Core.List.{reverse}
use ferrum.Text.{Str, str_eq, starts_with, ends_with, trim}
use ferrum.Text.Laws.{length-reverse}
use ferrum.Ebpf.Spec.{Rule}
use ferrum.Ebpf.Eval.{
  SyscallEvent, RuleMatch, names, prefix_hit, suffix_hit, path_unreadable, prefix_step, suffix_step,
  after_suffix, after_prefix, rule_matches, no_match, skipped_container, matched,
}
use ferrum.Ebpf.Eval.Best.{applies, is_matched}
use ferrum.Ebpf.Prefilter.{path_bearing_syscalls, syscall_index, has_bit, widen_for_rule, widen}
use ferrum.Ebpf.Prefilter.Masks.{
  all_mask-bits, syscall_index-lt, Grows-widen_for_rule, Grows-widen, set_each-sees,
  set_trimmed-sees,
}

-- A record of a syscall that bears no path has none.
abbrev pub IsBorne : SyscallEvent → Type 0
IsBorne event =
    any (λ x. str_eq x event.syscall) path_bearing_syscalls ≡ false
    → (event.path ≡ []) × (event.path_truncated ≡ false)

starts_with_nothing : (p : Str) → (not (is_empty p) && starts_with [] p) ≡ false
unfolding starts_with
starts_with_nothing [] = refl
starts_with_nothing (b ∷ p) = refl

ends_with_nothing : (p : Str) → (not (is_empty p) && ends_with [] p) ≡ false
unfolding ends_with
ends_with_nothing [] = refl
ends_with_nothing (b ∷ p) = no_head (reverse (b ∷ p)) (length-reverse (b ∷ p))
  where
    no_head : (q : Str) → length q ≡ suc (length p) → starts_with [] q ≡ false
    no_head [] e = absurd (omega arith)
    no_head (c ∷ q) e = refl

any-none : (f : Str → Bool) → ((p : Str) → f p ≡ false) → (ps : List Str) → any f ps ≡ false
any-none f h [] = refl
any-none f h (p ∷ ps) = rw (h p) (any-none f h ps)

prefix_step-none :
    (rule : Rule) (event : SyscallEvent)
    → event.path ≡ []
    → event.path_truncated ≡ false
    → is_empty rule.path_prefix ≡ false
    → prefix_step rule event ≡ none
unfolding prefix_step prefix_hit path_unreadable
prefix_step-none rule event e t h =
    rw h (rw e (rw t (rw (any-none _ starts_with_nothing rule.path_prefix) refl)))

suffix_step-none :
    (rule : Rule) (event : SyscallEvent) (unknown : Bool)
    → event.path ≡ []
    → event.path_truncated ≡ false
    → is_empty rule.path_suffix ≡ false
    → suffix_step rule event unknown ≡ none
unfolding suffix_step suffix_hit
suffix_step-none rule event unknown e t h =
    rw h (rw e (rw t (rw (any-none _ ends_with_nothing rule.path_suffix) refl)))

after_prefix-no_match :
    (rule : Rule) (event : SyscallEvent) (step : Option Bool)
    → ((unknown : Bool) → suffix_step rule event unknown ≡ none)
    → after_prefix rule event step ≡ no_match
after_prefix-no_match rule event none h = refl
after_prefix-no_match rule event (some unknown) h = rw (h unknown, after_suffix) refl

-- What the tests in front of the path let through.
past_names :
    (a b : Bool) (r : RuleMatch)
    → (if not a then no_match else if not b then no_match else r) ≢ no_match
    → (a ≡ true) × (r ≢ no_match)
past_names true true r h = (refl, h)
past_names true false r h = absurd (h refl)
past_names false b r h = absurd (h refl)

no_path-no_match :
    (rule : Rule) (event : SyscallEvent)
    → event.path ≡ []
    → event.path_truncated ≡ false
    → (not (is_empty rule.path_prefix) || not (is_empty rule.path_suffix)) ≡ true
    → after_prefix rule event (prefix_step rule event) ≡ no_match
no_path-no_match rule event e t h = elim (Bool-cases (is_empty rule.path_prefix)) [
  | inl no_prefix ↦ after_prefix-no_match rule event (prefix_step rule event) (λ unknown.
      suffix_step-none rule event unknown e t
        (other (is_empty rule.path_prefix) (is_empty rule.path_suffix) h no_prefix))
  | inr prefixed ↦ rw (prefix_step-none rule event e t prefixed, after_prefix) refl
]
  where
    other : (a b : Bool) → (not a || not b) ≡ true → a ≡ true → b ≡ false
    other a b h e = ground arith

-- A rule that does not reject a record has its syscall observed.
rule_seen :
    (m i : ℕ) (rule : Rule) (event : SyscallEvent)
    → m < 128
    → syscall_index event.syscall ≡ some i
    → trim event.syscall ≡ event.syscall
    → IsBorne event
    → rule_matches rule event ≢ no_match
    → has_bit (widen_for_rule m rule) i ≡ true
unfolding rule_matches widen_for_rule
rule_seen m i rule event small e t borne applies =
    let (named, path) =
      past_names (names rule.syscalls event.syscall) (names rule.comm_in event.comm)
        (after_prefix rule event (prefix_step rule event)) applies in
    elim (Bool-cases (is_empty rule.syscalls)) [
      | inr listed ↦
          rw (listed, if◌then◌else◌)
            (set_trimmed-sees m rule.syscalls event.syscall i small e t
              (in_list (is_empty rule.syscalls) _ listed named))
      | inl any_syscall ↦
          rw (any_syscall, if◌then◌else◌)
            (elim (Bool-cases
              (not (is_empty rule.path_prefix) || not (is_empty rule.path_suffix))) [
                | inr pathless ↦
                    rw (pathless, if◌then◌else◌)
                      (all_mask-bits i (syscall_index-lt event.syscall i e))
                | inl on_path ↦
                    rw (on_path, if◌then◌else◌)
                      (elim (Bool-cases (any (λ x. str_eq x event.syscall) path_bearing_syscalls)) [
                        | inl bearing ↦
                            set_each-sees m path_bearing_syscalls event.syscall i small e bearing
                        | inr bare ↦
                            let (no_path, whole) = borne bare in
                            absurd (path (no_path-no_match rule event no_path whole on_path))
                      ])
              ])
    ]
  where
    in_list : (a b : Bool) → a ≡ false → (a || b) ≡ true → b ≡ true
    in_list a b h k = ground arith

pub true-ne-false : true ≢ false
true-ne-false h = cc

decided : (r : RuleMatch) → (r ≡ no_match) ⊎ (r ≢ no_match)
decided no_match = inl refl
decided skipped_container = inr (λ h. cc)
decided (matched unknown) = inr (λ h. cc)

pub unseen-no_match :
    (m i : ℕ) (rules : List Rule) (event : SyscallEvent)
    → m < 128
    → syscall_index event.syscall ≡ some i
    → trim event.syscall ≡ event.syscall
    → IsBorne event
    → has_bit (widen m rules) i ≡ false
    → All (λ r. applies event r ≡ false) rules
unfolding widen
unseen-no_match m i [] event small e t borne h = tt
unseen-no_match m i (rule ∷ rules) event small e t borne h =
    let grown = (Grows-widen_for_rule m rule small).0 in
    let head : applies event rule ≡ false = elim (decided (rule_matches rule event)) [
      | inl none_hit ↦ ap is_matched none_hit
      | inr some_hit ↦
          let kept =
            (Grows-widen (widen_for_rule m rule) rules grown).1 i
              (syscall_index-lt event.syscall i e)
              (rule_seen m i rule event small e t borne some_hit) in
          absurd (true-ne-false (sym kept ∙ h))
    ] in
    (head, unseen-no_match (widen_for_rule m rule) i rules event grown e t borne h)
