-- ===== src/Ebpf/Krules/Refuses.antt =====
-- crates/ferrum-ebpf/src/krules.rs, `kernel_slots`: what the slots of a rule refuse.
use ferrum.Prelude.{
  ◌≤◌, ◌<◌, ◌≡◌, refl, sym, ap, ◌∙◌, Bool, true, false, ◌&&◌, ◌||◌, not, Option, none, some, List,
  [], ◌∷◌, map, length, is_empty, any, All, if◌then◌else◌, arith,
}
use ferrum.Text.{Str, str, starts_with, ends_with, contains}
use ferrum.Datapath.Record.{comm_len, path_len}
use ferrum.Datapath.Slot.{kpath_len, KernelRule}
use ferrum.Ebpf.Spec.{Rule, as_u8}
use ferrum.Ebpf.Eval.{SyscallEvent, names, prefix_hit, suffix_hit, path_unreadable, rule_matches}
use ferrum.Ebpf.Eval.Best.{is_matched}
use ferrum.Ebpf.Krules.{
  ExecPathLayout, Reason, Attempt, fails, gives, ◌>=>◌, refuses_exec, slot_flags, one_slot,
  all_slots, exec_syscalls, kernel_slots,
}
use ferrum.Ebpf.Krules.Patterns.{IsPlain}
use ferrum.Ebpf.Krules.Shape.{flag_bits}
use ferrum.Ebpf.Krules.Applies.{IsHeld, comm_test, prefix_test, suffix_test}
use ferrum.Ebpf.Krules.Agrees.{Caller, caller_test, hook_matches, cut, any-all_slots}
use ferrum.Ebpf.Krules.Checked.{
  choices, AreBytes, ArePlain, AreFilled, path_patterns-gives, comm_patterns-gives,
}
use ferrum.Ebpf.Krules.Matches.{flags_ok, prefix_ok, suffix_ok, rule_matches-tests}

-- The texts of a rule as Rust holds them; a NUL in a `comm` is the one thing that no check refuses.
pub record IsText (rule : Rule) : Type 0 where
  pub prefixes : AreBytes rule.path_prefix
  pub suffixes : AreBytes rule.path_suffix
  pub comms : ArePlain rule.comm_in

-- The texts of an exec that the hook reads: a name and a path without NUL that fit their buffers.
pub record IsExec (comm path : Str) : Type 0 where
  pub comm_plain : IsPlain comm
  pub comm_short : length comm ≤ comm_len
  pub path_bytes : All (λ b. b < 256) path
  pub path_short : length path < path_len

-- The event whose texts are the bytes that the hook reads.
abbrev pub exec_event : Str → Str → Caller → Str → Bool → SyscallEvent
exec_event syscall comm caller path truncated = record {
  syscall = syscall;
  comm = comm;
  path = path;
  in_container = caller.in_container;
  agent_self = caller.agent_self;
  path_truncated = cut path truncated;
}

-- A rule that becomes slots refuses, and its slots are made of its predicates.
pub kernel_slots-gives :
    (rule : Rule) (so : Bool) (layout : ExecPathLayout) (slots : List KernelRule)
    → kernel_slots rule so layout ≡ gives slots
    → IsText rule
    → (slots
        ≡ all_slots
            (one_slot (as_u8 rule.action) (flag_bits so rule.container_only rule.not_agent_self))
            (choices rule.comm_in)
            (choices rule.path_prefix)
            (choices rule.path_suffix))
      × All (IsHeld 15) (choices rule.comm_in)
      × All (IsHeld kpath_len) (choices rule.path_prefix)
      × All (IsHeld kpath_len) (choices rule.path_suffix)
      × AreFilled rule.path_prefix
      × AreFilled rule.path_suffix
unfolding kernel_slots slot_flags
kernel_slots-gives rule so layout slots h text =
    let all =
      all_slots
        (one_slot (as_u8 rule.action) (flag_bits so rule.container_only rule.not_agent_self)) in
    let (prefixes, suffixes, comms, hp, hs, hc, made) =
      parts _ _ _ _ (λ comms prefixes suffixes. all comms prefixes suffixes) slots
        (past (not (refuses_exec rule.action))
          (not (is_empty rule.syscalls) && not (any (λ s. contains exec_syscalls s) rule.syscalls))
          _ _ _ h) in
    let (ep, heldp, fullp) =
      path_patterns-gives rule.path_prefix (str "pathPrefix") prefixes text.prefixes hp in
    let (es, helds, fulls) =
      path_patterns-gives rule.path_suffix (str "pathSuffix") suffixes text.suffixes hs in
    let (ec, heldc) = comm_patterns-gives rule.comm_in comms text.comms hc in
    (made ∙ (λ i. all (ec i) (ep i) (es i)), heldc, heldp, helds, fullp, fulls)
  where
    past :
        (a b : Bool) (r s : Reason) (t : Attempt (List KernelRule))
        → (if a then fails r else if b then fails s else t) ≡ gives slots
        → t ≡ gives slots
    past true b r s t h = cc
    past false true r s t h = cc
    past false false r s t h = h

    parts :
        (first : Attempt (Unit {0})) (second third fourth : Attempt (List (Option Str)))
        (f : List (Option Str) → List (Option Str) → List (Option Str) → List KernelRule)
        (out : List KernelRule)
        → (first >=> λ _. second >=> λ x. third >=> λ y. fourth >=> λ z. gives (f z x y))
          ≡ gives out
        → (x : List (Option Str)) × (y : List (Option Str)) × (z : List (Option Str)) × (second
            ≡ gives x)
          × (third ≡ gives y)
          × (fourth ≡ gives z)
          × (out ≡ f z x y)
    parts (gives u) (gives x) (gives y) (gives z) f out h = (x, y, z, refl, refl, refl, cc)
    parts (gives u) (gives x) (gives y) (fails why) f out h = cc
    parts (gives u) (gives x) (fails why) fourth f out h = cc
    parts (gives u) (fails why) third fourth f out h = cc
    parts (fails why) second third fourth f out h = cc

-- The tests of a slot, over the choices, are those of the evaluator over the lists.
any-choices :
    (h : Option Str → Bool) (ss : List Str)
    → h none ≡ true
    → any h (choices ss) ≡ (is_empty ss || any (λ s. h (some s)) ss)
any-choices h [] e = ground (arith, e)
any-choices h (s ∷ ss) e = ap (◌||◌ (h (some s))) (mapped ss)
  where
    mapped : (ss : List Str) → any h (map some ss) ≡ any (λ s. h (some s)) ss
    mapped [] = refl
    mapped (s ∷ ss) = ap (◌||◌ (h (some s))) (mapped ss)

-- A flag that stands beside each test of a list stands beside the list.
any-beside :
    (test : Str → Bool) (u : Bool) (ss : List Str)
    → (is_empty ss || any (λ s. test s || u) ss) ≡ (is_empty ss || (any test ss || u))
any-beside test u [] = refl
any-beside test u (s ∷ ss) = head (test s) (any (λ s. test s || u) ss) (any test ss) (tail ss)
  where
    head : (x y z : Bool) → (y || u) ≡ (z || u) → ((x || u) || y) ≡ ((x || z) || u)
    head x y z e = ground (arith, e)

    again : (x y z : Bool) → (y || u) ≡ (z || u) → (((x || u) || y) || u) ≡ ((x || z) || u)
    again x y z e = ground (arith, e)

    tail : (ss : List Str) → (any (λ s. test s || u) ss || u) ≡ (any test ss || u)
    tail [] = refl
    tail (s ∷ ss) = again (test s) (any (λ s. test s || u) ss) (any test ss) (tail ss)

any-filled :
    (test : Str → Bool) (ss : List Str)
    → AreFilled ss
    → any test ss ≡ any (λ s. not (is_empty s) && test s) ss
any-filled test [] h = refl
any-filled test (s ∷ ss) h = ground (arith, h.0, any-filled test ss h.1)

prefixes-prefix_ok :
    (rule : Rule) (event : SyscallEvent)
    → AreFilled rule.path_prefix
    → any (prefix_test event.path event.path_truncated) (choices rule.path_prefix)
      ≡ prefix_ok rule event
unfolding prefix_hit path_unreadable
prefixes-prefix_ok rule event full =
    any-choices (prefix_test event.path event.path_truncated) rule.path_prefix refl
    ∙ any-beside (starts_with event.path) (event.path_truncated && is_empty event.path)
        rule.path_prefix
    ∙ ap (λ b. is_empty rule.path_prefix || (b || (event.path_truncated && is_empty event.path)))
        (any-filled (starts_with event.path) rule.path_prefix full)

suffixes-suffix_ok :
    (rule : Rule) (event : SyscallEvent)
    → AreFilled rule.path_suffix
    → any (suffix_test event.path event.path_truncated) (choices rule.path_suffix)
      ≡ suffix_ok rule event
unfolding suffix_hit
suffixes-suffix_ok rule event full =
    any-choices (suffix_test event.path event.path_truncated) rule.path_suffix refl
    ∙ any-beside (ends_with event.path) event.path_truncated rule.path_suffix
    ∙ ap (λ b. is_empty rule.path_suffix || (b || event.path_truncated))
        (any-filled (ends_with event.path) rule.path_suffix full)

-- Where a rule becomes slots, some slot of it applies to an exec exactly where the evaluator
-- matches the rule on the event of those texts, of a syscall that the rule names, and, if the
-- slots are for selected callers only, the caller is selected. A `comm` of the rule holds no NUL.
pub kernel_slots-exec_event :
    (rule : Rule) (so : Bool) (layout : ExecPathLayout) (slots : List KernelRule)
    (syscall comm path : Str) (truncated : Bool) (caller : Caller)
    → kernel_slots rule so layout ≡ gives slots
    → IsText rule
    → IsExec comm path
    → names rule.syscalls syscall ≡ true
    → any (λ slot. hook_matches slot comm caller path truncated) slots ≡ (
        is_matched (rule_matches rule (exec_event syscall comm caller path truncated))
        && not (so && not caller.selected))
kernel_slots-exec_event rule so layout slots syscall comm path truncated caller h text exec named =
    let event = exec_event syscall comm caller path truncated in
    let (made, cs, ps, ss, fullp, fulls) = kernel_slots-gives rule so layout slots h text in
    ap (any (λ slot. hook_matches slot comm caller path truncated)) made
    ∙ any-all_slots (as_u8 rule.action) so rule.container_only rule.not_agent_self
        (choices rule.comm_in) (choices rule.path_prefix) (choices rule.path_suffix) comm path
        truncated caller cs ps ss exec.comm_plain exec.comm_short exec.path_bytes exec.path_short
    ∙ (λ i.
        ((any-choices (comm_test comm) rule.comm_in refl i && prefixes-prefix_ok rule event fullp i)
          && suffixes-suffix_ok rule event fulls i)
        && caller_test so rule.container_only rule.not_agent_self caller)
    ∙ regroup (names rule.comm_in comm) (prefix_ok rule event) (suffix_ok rule event)
        (not (rule.not_agent_self && caller.agent_self))
        (not (rule.container_only && not caller.in_container)) (not (so && not caller.selected))
    ∙ ap
        (λ b.
          (b
            && (names rule.comm_in comm
                && (prefix_ok rule event && (suffix_ok rule event && flags_ok rule event))))
          && not (so && not caller.selected))
        (sym named)
    ∙ ap (λ b. b && not (so && not caller.selected)) (sym (rule_matches-tests rule event))
  where
    regroup :
        (a b c x y z : Bool)
        → (((a && b) && c) && ((x && y) && z)) ≡ ((true && (a && (b && (c && (x && y))))) && z)
    regroup a b c x y z = ground arith
