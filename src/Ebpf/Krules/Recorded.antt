-- ===== src/Ebpf/Krules/Recorded.antt =====
-- crates/ferrum-ebpf/src/krules.rs and event.rs: the exec that the hook decides, and the record of
-- it that the evaluator decides.
use ferrum.Prelude.{
  ℕ, zero, suc, arith, ◌-◌, ◌≡◌, refl, ap, ◌∙◌, Bool, true, false, ◌&&◌, ◌||◌, not, List, [], ◌∷◌,
  ◌++◌, replicate, length, any, All, All-map, leb, ◌==◌, sym,
}
use ferrum.Text.{Str, is_utf8}
use ferrum.Datapath.Record.{Event, comm_len, path_len, in_container, agent_self, flagged_truncated}
use ferrum.Datapath.Slot.{KernelRule}
use ferrum.Datapath.Fill.{filled}
use ferrum.Ebpf.Spec.{Rule}
use ferrum.Ebpf.Event.{
  SyscallArch, path_bytes, nul_trimmed_str, path_truncated, syscall_event, syscall_name, or_unknown,
}
use ferrum.Ebpf.Event.Shape.{path_bytes-nul, utf8_head-valid}
use ferrum.Ebpf.Eval.{names, rule_matches}
use ferrum.Ebpf.Eval.Best.{is_matched}
use ferrum.Ebpf.Krules.{ExecPathLayout, gives, kernel_slots}
use ferrum.Ebpf.Krules.Agrees.{Caller, hook_matches}
use ferrum.Ebpf.Krules.Refuses.{IsText, IsExec, exec_event, kernel_slots-exec_event}

-- The ring record of the exec whose name, path and caller the hook reads. The datapath pads the
-- name with NUL as the kernel does, and ends the path with one; the record carries the string that
-- the hook reads, which is not so of an `execveat` of a path relative to a directory descriptor;
-- and both texts are UTF-8.
pub record IsRecordOf (comm path : Str) (truncated : Bool) (caller : Caller) (event : Event)
    : Type 0 where
  pub name : event.comm ≡ filled comm_len comm
  pub file : (rest : Str) × (event.path ≡ path ++ (0 ∷ rest))
  pub whole : All (λ b. (b == 0) ≡ false) path
  pub flagged : flagged_truncated event ≡ truncated
  pub contained : in_container event ≡ caller.in_container
  pub agent : agent_self event ≡ caller.agent_self
  pub name_utf8 : is_utf8 comm ≡ true
  pub file_utf8 : is_utf8 path ≡ true

path_bytes-plain : (s : Str) → All (λ b. (b == 0) ≡ false) s → path_bytes (s ++ []) ≡ s
unfolding path_bytes
path_bytes-plain [] h = refl
path_bytes-plain (b ∷ s) h = ground (arith, h.0, path_bytes-plain s h.1)

path_bytes-filled : (s : Str) → All (λ b. (b == 0) ≡ false) s → path_bytes (filled comm_len s) ≡ s
path_bytes-filled s h = pad (comm_len - length s)
  where
    pad : (n : ℕ) → path_bytes (s ++ replicate n 0) ≡ s
    pad zero = path_bytes-plain s h
    pad (suc n) = path_bytes-nul s (replicate n 0) h

nul_trimmed_str-utf8 :
    (buf s : Str) → path_bytes buf ≡ s → is_utf8 s ≡ true → nul_trimmed_str buf ≡ s
unfolding nul_trimmed_str is_utf8
nul_trimmed_str-utf8 buf s e u = rw e (utf8_head-valid 0 0 0 [] s u)

-- Such a record reaches the evaluator with the texts that the hook reads.
pub syscall_event-exec_event :
    (event : Event) (arch : SyscallArch) (comm path : Str) (truncated : Bool) (caller : Caller)
    → IsExec comm path
    → IsRecordOf comm path truncated caller event
    → syscall_event event arch
      ≡ exec_event (syscall_event event arch).syscall comm caller path truncated
unfolding syscall_event path_truncated
syscall_event-exec_event event arch comm path truncated caller exec r =
    let (rest, file) = r.file in
    let read = ap path_bytes file ∙ path_bytes-nul path rest r.whole in
    let name =
      ap path_bytes r.name
      ∙ path_bytes-filled comm (All-map _ _ (λ b h. h.0) comm exec.comm_plain) in
    λ i. record {
      syscall = or_unknown (syscall_name arch event.syscall_nr);
      comm = nul_trimmed_str-utf8 event.comm comm name r.name_utf8 i;
      path = nul_trimmed_str-utf8 event.path path read r.file_utf8 i;
      in_container = r.contained i;
      agent_self = r.agent i;
      path_truncated = r.flagged i || leb (path_len - 1) (length (read i));
    }

-- Where a rule becomes slots, some slot of it applies to an exec exactly where the evaluator
-- matches the rule on the ring record of that exec, of a syscall that the rule names, and, if the
-- slots are for selected callers only, the caller is selected. The record carries the string that
-- the hook reads, both texts are UTF-8, and a `comm` of the rule holds no NUL.
pub kernel_slots-rule_matches :
    (rule : Rule) (so : Bool) (layout : ExecPathLayout) (slots : List KernelRule) (event : Event)
    (arch : SyscallArch) (comm path : Str) (truncated : Bool) (caller : Caller)
    → kernel_slots rule so layout ≡ gives slots
    → IsText rule
    → IsExec comm path
    → IsRecordOf comm path truncated caller event
    → names rule.syscalls (syscall_event event arch).syscall ≡ true
    → any (λ slot. hook_matches slot comm caller path truncated) slots ≡ (
        is_matched (rule_matches rule (syscall_event event arch))
        && not (so && not caller.selected))
kernel_slots-rule_matches rule so layout slots event arch comm path truncated caller h text exec
      recorded named =
    kernel_slots-exec_event rule so layout slots (syscall_event event arch).syscall comm path
      truncated caller h text exec named
    ∙ ap (λ e. is_matched (rule_matches rule e) && not (so && not caller.selected))
        (sym (syscall_event-exec_event event arch comm path truncated caller exec recorded))
