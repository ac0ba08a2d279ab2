-- ===== src/Ebpf/Krules/Verdict.antt =====
-- crates/ferrum-ebpf/src/krules.rs: what the kernel decides by the slots of a program, against what
-- the evaluator decides by its rules.
use ferrum.Prelude.{
  ℕ, ◌≤◌, ◌≡◌, sym, ap, ◌∙◌, subst, inl, inr, Bool, true, false, none, List, any, All, arith,
}
use ferrum.Text.{Str}
use ferrum.Datapath.Record.{Event, comm_len}
use ferrum.Datapath.Slot.{KernelRule, action_allow, action_rank, kernel_verdict}
use ferrum.Datapath.Slot.Verdict.{kernel_verdict-IsStrongest}
use ferrum.Datapath.Fill.{filled, from_bytes}
use ferrum.Ebpf.Spec.{EbpfSpec, rank}
use ferrum.Ebpf.Eval.{matched_action}
use ferrum.Ebpf.Eval.Order.{top_rank, matched_action-rank}
use ferrum.Ebpf.Krules.{ExecPathLayout, KernelRuleSet, compile_kernel_rules_for}
use ferrum.Ebpf.Krules.Agrees.{Caller, hook_matches}
use ferrum.Ebpf.Krules.Refuses.{IsText, IsExec, exec_event}
use ferrum.Ebpf.Event.{SyscallArch, syscall_event}
use ferrum.Ebpf.Krules.Recorded.{IsRecordOf, syscall_event-exec_event}
use ferrum.Ebpf.Krules.Sets.{compile_kernel_rules_for-IsCompiled, IsSplit}
use ferrum.Ebpf.Krules.Actions.{top_rank-AtLeast, AtLeast-rank_or}
use ferrum.Ebpf.Krules.Hits.{NamesExec, Prevented, hits-apply, slots-Prevented}

abbrev pub hook_verdict : List KernelRule → Str → Caller → Str → Bool → ℕ
hook_verdict rules comm caller path truncated =
    kernel_verdict rules (filled comm_len comm) caller.in_container caller.agent_self
      caller.selected (from_bytes path truncated)

IsSplit-verdict :
    (spec : EbpfSpec) (layout : ExecPathLayout) (set : KernelRuleSet) (syscall comm path : Str)
    (truncated : Bool) (caller : Caller)
    → IsSplit spec layout set
    → IsExec comm path
    → All IsText spec.rules
    → All (NamesExec syscall layout set.selected_only) spec.rules
    → (action_rank (hook_verdict set.rules comm caller path truncated)
        ≤ rank (matched_action spec (exec_event syscall comm caller path truncated)).action)
      × All
          (Prevented layout set.selected_only
            (exec_event syscall comm caller path truncated)
            caller
            (hook_verdict set.rules comm caller path truncated))
          spec.rules
unfolding matched_action action_rank
IsSplit-verdict spec layout set syscall comm path truncated caller split exec text named =
    let v = hook_verdict set.rules comm caller path truncated in
    let so = set.selected_only in
    let event = exec_event syscall comm caller path truncated in
    let (high, origin) =
      kernel_verdict-IsStrongest set.rules (filled comm_len comm) caller.in_container
        caller.agent_self caller.selected (from_bytes path truncated) in
    let from_rules : List KernelRule → Type 0 = λ rules.
      All
        (λ r.
          hook_matches r comm caller path truncated ≡ true → action_rank r.action ≤ action_rank v)
        rules in
    (
      subst (λ n. action_rank v ≤ n) (sym (matched_action-rank spec event false))
          (elim origin [
            | inl allowed ↦ least v _ allowed
            | inr hit ↦
                AtLeast-rank_or (action_rank v) (rank spec.default_action)
                  (top_rank event spec.rules)
                  (top_rank-AtLeast event (action_rank v) spec.rules (
                    hits-apply layout so syscall comm path truncated caller exec spec.rules v text
                      named (ap (any _) (sym split.rules) ∙ hit)))
          ]),
      slots-Prevented layout so syscall comm path truncated caller exec spec.rules v text named
          (subst from_rules split.rules high),
    )
  where
    zero_rank : (n : ℕ) → action_rank action_allow ≤ n
    zero_rank n = omega arith

    least : (v n : ℕ) → v ≡ action_allow → action_rank v ≤ n
    least v n e = rw e (zero_rank n)

-- The verdict against the decision on the event whose texts the hook reads.
compile_kernel_rules_for-exec_event :
    (spec : EbpfSpec) (layout : ExecPathLayout) (syscall comm path : Str) (truncated : Bool)
    (caller : Caller)
    → (compile_kernel_rules_for spec layout).refused ≡ none
    → IsExec comm path
    → All IsText spec.rules
    → All (NamesExec syscall layout (compile_kernel_rules_for spec layout).selected_only) spec.rules
    → (action_rank
          (hook_verdict (compile_kernel_rules_for spec layout).rules comm caller path truncated)
        ≤ rank (matched_action spec (exec_event syscall comm caller path truncated)).action)
      × All
          (Prevented layout
            (compile_kernel_rules_for spec layout).selected_only
            (exec_event syscall comm caller path truncated)
            caller
            (hook_verdict (compile_kernel_rules_for spec layout).rules comm caller path truncated))
          spec.rules
compile_kernel_rules_for-exec_event spec layout syscall comm path truncated caller kept exec text
      named =
    elim (compile_kernel_rules_for-IsCompiled spec layout) [
      | inl refused ↦ absurd (refused.reason kept)
      | inr (e, split) ↦
          IsSplit-verdict spec layout (compile_kernel_rules_for spec layout) syscall comm path
            truncated caller split exec text named
    ]

-- Of a program that is not refused and whose rules that became slots name the syscall of the exec,
-- the kernel decides an action that ranks no higher than the evaluator's on the ring record of
-- that exec, and at least as high as each rule that became slots, applies to the record and, if
-- the program selects workloads, has a selected caller. The record carries the string that the
-- hook reads, both texts are UTF-8, and no `comm` of a rule holds a NUL.
pub compile_kernel_rules_for-kernel_verdict :
    (spec : EbpfSpec) (layout : ExecPathLayout) (event : Event) (arch : SyscallArch)
    (comm path : Str) (truncated : Bool) (caller : Caller)
    → (compile_kernel_rules_for spec layout).refused ≡ none
    → IsExec comm path
    → IsRecordOf comm path truncated caller event
    → All IsText spec.rules
    → All
        (NamesExec
          (syscall_event event arch).syscall
          layout
          (compile_kernel_rules_for spec layout).selected_only)
        spec.rules
    → (action_rank
          (hook_verdict (compile_kernel_rules_for spec layout).rules comm caller path truncated)
        ≤ rank (matched_action spec (syscall_event event arch)).action)
      × All
          (Prevented layout
            (compile_kernel_rules_for spec layout).selected_only
            (syscall_event event arch)
            caller
            (hook_verdict (compile_kernel_rules_for spec layout).rules comm caller path truncated))
          spec.rules
compile_kernel_rules_for-kernel_verdict spec layout event arch comm path truncated caller kept exec
      recorded text named =
    let set = compile_kernel_rules_for spec layout in
    let verdict = hook_verdict set.rules comm caller path truncated in
    subst
      (λ e.
        (action_rank verdict ≤ rank (matched_action spec e).action)
        × All (Prevented layout set.selected_only e caller verdict) spec.rules)
      (sym (syscall_event-exec_event event arch comm path truncated caller exec recorded))
      (compile_kernel_rules_for-exec_event spec layout (syscall_event event arch).syscall comm path
        truncated caller kept exec text named)
